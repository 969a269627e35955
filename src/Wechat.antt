-- ===== src/Wechat.antt =====
-- wechat_alarm/callback_alarm.go: the answer to WeChat's test of a callback.
pub mod Auth
