-- ===== src/Hanu.antt =====
-- hanu: a Slack bot that answers commands.
pub mod Bytes
pub mod Message
pub mod Bot
