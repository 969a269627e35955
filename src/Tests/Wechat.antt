-- ===== src/Tests/Wechat.antt =====
-- wechat_alarm/callback_alarm.go: a message of one byte, with texts that decode to themselves.
use go_util.Prelude.{ℕ, ◌≡◌, refl, ap, some, List, [], ◌∷◌, ◌++◌, replicate, arith, ok, panic}
use go_util.Wire.Slices.{full, reslice}
use go_util.Wechat.Auth.{Library, wx_auth}
use go_util.Wechat.Auth.Short.{wx_auth_panics}
use go_util.Wechat.Auth.Message.{put_uint32, layout, wx_auth-message}

abbrev library : Library
library = record {
  decode_string = λ text. some (full text);
  new_cipher = λ key. some 2;
  crypt_blocks = λ key iv text. some text;
}

abbrev corp_id : List ℕ
corp_id = 119 ∷ 119 ∷ []

abbrev echostr : List ℕ
echostr = replicate 16 7 ++ 0 ∷ 0 ∷ 0 ∷ 1 ∷ 109 ∷ 119 ∷ 119 ∷ 3 ∷ 3 ∷ 3 ∷ []

decrypts : echostr ≡ layout (replicate 16 7) (109 ∷ []) corp_id ++ replicate 3 3
unfolding layout put_uint32
decrypts = refl

cuts : reslice (full (107 ∷ 61 ∷ [])) 0 2 ≡ some (full (107 ∷ 61 ∷ []))
unfolding reslice
cuts = refl

wx_auth-message_example : wx_auth library corp_id (107 ∷ []) echostr ≡ ok (109 ∷ [])
wx_auth-message_example =
    wx_auth-message library corp_id (107 ∷ []) echostr (replicate 16 7) (109 ∷ []) 3 2
      (full echostr) (full (107 ∷ 61 ∷ [])) (full (107 ∷ 61 ∷ [])) (omega arith) refl refl refl cuts
      (ap some decrypts) refl (omega arith) (omega arith)

abbrev one_block : List ℕ
one_block = replicate 16 1

wx_auth_panics_example : wx_auth library corp_id (107 ∷ []) one_block ≡ panic
wx_auth_panics_example =
    wx_auth_panics library corp_id (107 ∷ []) one_block one_block 2 (full one_block)
      (full (107 ∷ 61 ∷ [])) (full (107 ∷ 61 ∷ [])) (omega arith) refl refl refl cuts refl
      (omega arith)
