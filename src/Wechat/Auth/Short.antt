-- ===== src/Wechat/Auth/Short.antt =====
-- One block of any text makes WxAuth panic.
use go_util.Prelude.{
  ℕ, ◌-◌, ◌≤◌, ◌<◌, ◌≡◌, refl, ap, inl, inr, true, Option, none, some, List, [], ◌∷◌, ◌++◌, length,
  get_elem?, take, drop, length-append, length-take, length-drop, append-nil, ltb, leb, arith,
  panic, ◌>>=◌, lt→ltb, Bool-cases,
}
use go_util.Wire.Slices.{Slice, full, array, reslice}
use go_util.Wechat.Auth.{
  Library, without, pkcs5_unpadding, decrypted, aes_decrypt, answer, with_key, with_echostr,
  wx_auth,
}

reslice_beyond : (s : Slice) (lo hi : ℕ) → length (array s) < hi → reslice s lo hi ≡ none
unfolding reslice
reslice_beyond s lo hi h = ground (arith, h)

-- A cut at the front keeps the array.
reslice_front :
    (s : Slice) (hi : ℕ)
    → hi ≤ length (array s)
    → (t : Slice) × (reslice s 0 hi ≡ some t) × (length (array t) ≡ length (array s))
unfolding reslice
reslice_front s hi h =
    let room : leb hi (length (array s)) ≡ true = ground (arith, h) in
    let low : leb 0 hi ≡ true = ground arith in
    let both = length-append (take hi (array s)) (drop hi (array s)) in
    let front = length-take hi (array s) in
    let back = length-drop hi (array s) in
    (
      record { content = take hi (array s); spare = drop hi (array s) },
      rw (low, room) refl,
      omega (arith, both, front, back, h),
    )

module _ (lib : Library) (corp_id : List ℕ) where
  answer_panics : (x : Slice) → length (array x) < 20 → answer lib corp_id x ≡ panic
  unfolding answer
  answer_panics x h = simp (reslice_beyond x 16 20 h) refl

  unpadded_panics :
      (plain : List ℕ) (last : Option ℕ)
      → length plain < 20
      → (without (full plain) last >>= answer lib corp_id) ≡ panic
  unfolding without
  unpadded_panics plain none h = refl
  unpadded_panics plain (some unpadding) h = elim (Bool-cases (leb unpadding (length plain))) [
    | inr over ↦ simp over refl
    | inl fits ↦
        let whole : length (array (full plain)) ≡ length plain = ap length (append-nil plain) in
        let (t, cut, same) =
          reslice_front (full plain) (length plain - unpadding) (omega (arith, whole)) in
        simp (fits, cut, answer_panics t (omega (arith, same, whole, h))) refl
  ]

  -- A text that decrypts to one block of 16 bytes, or to fewer than 20, makes WxAuth panic, whatever
  -- the bytes are: there are none that could be the length of the message.
  pub wx_auth_panics :
      (aes_key echostr plain : List ℕ) (block_size : ℕ) (crypted key iv : Slice)
      → 0 < length echostr
      → lib.decode_string echostr ≡ some crypted
      → lib.decode_string (aes_key ++ 61 ∷ []) ≡ some key
      → lib.new_cipher key.content ≡ some block_size
      → reslice key 0 block_size ≡ some iv
      → lib.crypt_blocks key.content iv.content crypted.content ≡ some plain
      → length plain < 20
      → wx_auth lib corp_id aes_key echostr ≡ panic
  unfolding wx_auth with_echostr with_key aes_decrypt decrypted pkcs5_unpadding
  wx_auth_panics aes_key echostr plain block_size crypted key iv some_text e1 e2 e3 e4 e5 short =
      let text : ltb 0 (length echostr) ≡ true = lt→ltb 0 _ some_text in
      elim (Bool-cases (ltb 0 (length plain))) [
        | inr empty ↦ simp (text, e1, e2, e3, e4, e5, empty) refl
        | inl some_byte ↦
            simp (text, e1, e2, e3, e4, e5, some_byte)
              (unpadded_panics plain (get_elem? plain (length plain - 1)) short)
      ]
