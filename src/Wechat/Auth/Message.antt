-- ===== src/Wechat/Auth/Message.antt =====
-- A message that WeChat encrypted comes back from WxAuth.
use go_util.Prelude.{
  ℕ, zero, suc, ◌+◌, ◌-◌, ◌/◌, ◌%◌, ◌≤◌, ◌<◌, ◌≡◌, refl, sym, ap, ◌∙◌, true, false, some, List, [],
  ◌∷◌, ◌++◌, length, get_elem?, replicate, length-append, length-replicate, append_assoc,
  append-nil, ltb, leb, arith, ok, lt→ltb, le→ltb_false,
}
use go_util.Prelude.Dict.{same_bytes_refl}
use go_util.Wire.Slices.{Slice, full, reslice, reslice_at}
use go_util.Wechat.Auth.{
  Library, without, pkcs5_unpadding, be_uint32, is_negative, decrypted, aes_decrypt, checked,
  with_length, answer, with_key, with_echostr, wx_auth,
}

-- Four bytes, big-endian.
unfoldable pub put_uint32 : ℕ → List ℕ
put_uint32 n = n / 16777216 % 256 ∷ n / 65536 % 256 ∷ n / 256 % 256 ∷ n % 256 ∷ []

be_uint32-put : (n : ℕ) → n < 4294967296 → be_uint32 (put_uint32 n) ≡ n
unfolding be_uint32 put_uint32
be_uint32-put n h = omega (arith, h)

-- What WeChat encrypts before it is padded: 16 random bytes, the length, the message and the id.
unfoldable pub layout : List ℕ → List ℕ → List ℕ → List ℕ
layout random message corp_id = random ++ (put_uint32 (length message) ++ (message ++ corp_id))

get_elem?-padding :
    (xs : List ℕ) (p : ℕ) (i : ℕ)
    → length xs ≤ i
    → i < length xs + p
    → get_elem? (xs ++ replicate p p) i ≡ some p
get_elem?-padding xs p i h g = in_tail xs p p i h g
  where
    in_replicate : (n a i : ℕ) → i < n → get_elem? (replicate n a) i ≡ some a
    in_replicate zero a i h = absurd (omega (arith, h))
    in_replicate (suc n) a zero h = refl
    in_replicate (suc n) a (suc i) h = in_replicate n a i (omega (arith, h))

    in_tail :
        (xs : List ℕ) (n a i : ℕ)
        → length xs ≤ i
        → i < length xs + n
        → get_elem? (xs ++ replicate n a) i ≡ some a
    in_tail [] n a i h g = in_replicate n a i (omega (arith, g))
    in_tail (x ∷ xs) n a zero h g = absurd (omega (arith, h))
    in_tail (x ∷ xs) n a (suc i) h g = in_tail xs n a i (omega (arith, h)) (omega (arith, g))

-- The padding of n bytes n is taken off; it stays in the array behind the slice.
pkcs5_unpadding-padded :
    (xs : List ℕ) (p : ℕ)
    → 0 < p
    → pkcs5_unpadding (full (xs ++ replicate p p))
      ≡ ok (record { content = xs; spare = replicate p p })
unfolding pkcs5_unpadding without
pkcs5_unpadding-padded xs p pos =
    let total : length (xs ++ replicate p p) ≡ length xs + p =
      length-append xs (replicate p p) ∙ ap (λ k. length xs + k) (length-replicate p p) in
    let some_byte : ltb 0 (length (xs ++ replicate p p)) ≡ true =
      lt→ltb 0 _ (omega (arith, total, pos)) in
    let last : get_elem? (xs ++ replicate p p) (length (xs ++ replicate p p) - 1) ≡ some p =
      get_elem?-padding xs p _ (omega (arith, total, pos)) (omega (arith, total, pos)) in
    let room : leb p (length (xs ++ replicate p p)) ≡ true = ground (arith, total) in
    let cut =
      reslice_at (full (xs ++ replicate p p)) 0 (length (xs ++ replicate p p) - p) [] xs
        (replicate p p) (append-nil _) refl (omega (arith, total)) in
    simp (some_byte, last, room, cut) refl

length-put : (n : ℕ) → length (put_uint32 n) ≡ 4
unfolding put_uint32
length-put n = refl

length-layout :
    (random message corp_id : List ℕ)
    → length random ≡ 16
    → length (layout random message corp_id) ≡ 20 + length message + length corp_id
unfolding layout
length-layout random message corp_id r =
    let n = length message in
    let ends = length-append message corp_id in
    let tail = length-append (put_uint32 n) (message ++ corp_id) in
    let all = length-append random (put_uint32 n ++ (message ++ corp_id)) in
    omega (arith, r, all, tail, ends, length-put n)

array_layout :
    (random message corp_id spare : List ℕ)
    → layout random message corp_id ++ spare
      ≡ random ++ (put_uint32 (length message) ++ (message ++ (corp_id ++ spare)))
unfolding layout
array_layout random message corp_id spare = simp append_assoc refl

module _ (lib : Library) (corp_id : List ℕ) where
  answer-layout :
      (random message spare : List ℕ)
      → length random ≡ 16
      → length message < 2147483628
      → answer lib corp_id (record { content = layout random message corp_id; spare = spare })
        ≡ ok message
  unfolding answer with_length checked is_negative
  answer-layout random message spare r small =
      let n = length message in
      let x : Slice = record { content = layout random message corp_id; spare = spare } in
      let four : length (put_uint32 n) ≡ 4 = length-put n in
      let head : length (random ++ put_uint32 n) ≡ 20 =
        length-append random (put_uint32 n) ∙ rw (r, four) refl in
      let upto : length (random ++ (put_uint32 n ++ message)) ≡ 20 + n =
        length-append random (put_uint32 n ++ message)
        ∙ rw (length-append (put_uint32 n) message, r, four) (omega arith) in
      let whole : length (layout random message corp_id) ≡ 20 + n + length corp_id =
        length-layout random message corp_id r in
      let wraps : (20 + n) % 4294967296 ≡ 20 + n = omega (arith, small) in
      let positive : leb 2147483648 (20 + n) ≡ false = ground (arith, small) in
      let long : ltb (length (layout random message corp_id)) (20 + n) ≡ false =
        le→ltb_false _ _ (omega (arith, whole)) in
      let read = be_uint32-put n (omega (arith, small)) in
      let len =
        reslice_at x 16 20 random (put_uint32 n) ((message ++ corp_id) ++ spare)
          (simp append_assoc (array_layout random message corp_id spare)) (sym r)
          (omega (arith, four)) in
      let id =
        reslice_at x (20 + n) (20 + n + length corp_id) (random ++ (put_uint32 n ++ message))
          corp_id spare (simp append_assoc (array_layout random message corp_id spare)) (sym upto)
          refl in
      let body =
        reslice_at x 20 (20 + n) (random ++ put_uint32 n) message (corp_id ++ spare)
          (simp append_assoc (array_layout random message corp_id spare)) (sym head) refl in
      simp (len, read, wraps, positive, long, id, same_bytes_refl corp_id, body) refl

  -- A message of fewer than 2147483628 bytes that WeChat encrypted comes back from WxAuth: where
  -- echostr and the key decode, and the cipher decrypts the text to 16 bytes, the length of the
  -- message in four bytes, the message, the id of the company and some bytes of padding that
  -- say how many they are, the answer is the message.
  pub wx_auth-message :
      (aes_key echostr random message : List ℕ) (padding block_size : ℕ) (crypted key iv : Slice)
      → 0 < length echostr
      → lib.decode_string echostr ≡ some crypted
      → lib.decode_string (aes_key ++ 61 ∷ []) ≡ some key
      → lib.new_cipher key.content ≡ some block_size
      → reslice key 0 block_size ≡ some iv
      → lib.crypt_blocks key.content iv.content crypted.content
        ≡ some (layout random message corp_id ++ replicate padding padding)
      → length random ≡ 16
      → length message < 2147483628
      → 0 < padding
      → wx_auth lib corp_id aes_key echostr ≡ ok message
  unfolding wx_auth with_echostr with_key aes_decrypt decrypted
  wx_auth-message aes_key echostr random message padding block_size crypted key iv some_text e1 e2
        e3 e4 e5 r small pos =
      let text : ltb 0 (length echostr) ≡ true = lt→ltb 0 _ some_text in
      let bare = pkcs5_unpadding-padded (layout random message corp_id) padding pos in
      simp (text, e1, e2, e3, e4, e5, bare)
        (answer-layout random message (replicate padding padding) r small)
