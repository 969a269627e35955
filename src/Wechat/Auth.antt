-- ===== src/Wechat/Auth.antt =====
-- WxAuth, AesDecrypt and PKCS5UnPadding of wechat_alarm/callback_alarm.go. An int32 is its 32 bits.
pub mod Message
pub mod Short
use go_util.Prelude.{
  ℕ, ◌+◌, ◌-◌, ◌*◌, ◌%◌, Bool, Option, none, some, List, [], ◌∷◌, ◌++◌, length, get_elem?, ltb, leb,
  if◌then◌else◌, Outcome, ok, err, panic, ◌>>=◌, or_panic,
}
use go_util.Prelude.Dict.{same_bytes}
use go_util.Wire.Slices.{Slice, full, reslice}

-- base64.StdEncoding.DecodeString; aes.NewCipher, which gives its block size; and CryptBlocks of the
-- CBC decrypter of a key and an initial vector, which panics on a part of a block.
pub record Library : Type 0 where
  pub decode_string : List ℕ → Option Slice
  pub new_cipher : List ℕ → Option ℕ
  pub crypt_blocks : List ℕ → List ℕ → List ℕ → Option (List ℕ)

pub data Error : Type 0 where
  no_echostr bad_echostr bad_key bad_cipher bad_data wrong_id : Error

-- The last byte says how many bytes are padding.
without : Slice → Option ℕ → Outcome Error Slice
without s none = panic
without s (some unpadding) =
    if leb unpadding (length s.content)
    then or_panic (reslice s 0 (length s.content - unpadding))
    else panic

unfoldable pub pkcs5_unpadding : Slice → Outcome Error Slice
unfolding without
pkcs5_unpadding s =
    if ltb 0 (length s.content)
    then without s (get_elem? s.content (length s.content - 1))
    else panic

-- binary.Read of an int32 in four bytes, big-endian.
unfoldable pub be_uint32 : List ℕ → ℕ
be_uint32 (a ∷ b ∷ c ∷ d ∷ rest) = ((a * 256 + b) * 256 + c) * 256 + d
be_uint32 _ = 0

-- An int32 below zero.
unfoldable pub is_negative : ℕ → Bool
is_negative n = leb 2147483648 n

module _ (lib : Library) where
  decrypted : Slice → Slice → Option ℕ → Outcome Error Slice
  unfolding pkcs5_unpadding
  decrypted crypted key none = err bad_cipher
  decrypted crypted key (some block_size) =
      or_panic (reslice key 0 block_size)
      >>= (λ iv. or_panic (lib.crypt_blocks key.content iv.content crypted.content))
      >>= (λ plain. pkcs5_unpadding (full plain))

  unfoldable pub aes_decrypt : Slice → Slice → Outcome Error Slice
  unfolding decrypted
  aes_decrypt crypted key = decrypted crypted key (lib.new_cipher key.content)

  -- The id after the message, which ends at `start`.
  checked : List ℕ → Slice → ℕ → Slice → Outcome Error (List ℕ)
  checked corp_id x start id =
      if same_bytes id.content corp_id
      then or_panic (reslice x 20 start) >>= (λ message. ok message.content)
      else err wrong_id

  -- With the length that was read: appIDstart wraps as an int32 does.
  with_length : List ℕ → Slice → ℕ → Outcome Error (List ℕ)
  unfolding checked
  with_length corp_id x len =
      let start = (20 + len) % 4294967296 in
      if is_negative start
      then panic
      else if ltb (length x.content) start
      then err bad_data
      else or_panic (reslice x start (start + length corp_id)) >>= checked corp_id x start

  answer : List ℕ → Slice → Outcome Error (List ℕ)
  unfolding with_length
  answer corp_id x =
      or_panic (reslice x 16 20) >>= (λ buf. with_length corp_id x (be_uint32 buf.content))

  with_key : List ℕ → Slice → Option Slice → Outcome Error (List ℕ)
  unfolding answer
  with_key corp_id crypted none = err bad_key
  with_key corp_id crypted (some key) = aes_decrypt crypted key >>= answer corp_id

  with_echostr : List ℕ → List ℕ → Option Slice → Outcome Error (List ℕ)
  unfolding with_key
  with_echostr corp_id aes_key none = err bad_echostr
  with_echostr corp_id aes_key (some crypted) =
      with_key corp_id crypted (lib.decode_string (aes_key ++ 61 ∷ []))

  -- WxAuth: `ok` is the JSON that is sent with status 200.
  unfoldable pub wx_auth : List ℕ → List ℕ → List ℕ → Outcome Error (List ℕ)
  unfolding with_echostr
  wx_auth corp_id aes_key echostr =
      if ltb 0 (length echostr)
      then with_echostr corp_id aes_key (lib.decode_string echostr)
      else err no_echostr
