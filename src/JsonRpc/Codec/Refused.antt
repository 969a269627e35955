-- ===== src/JsonRpc/Codec/Refused.antt =====
-- What follows a request whose body has no JSON text, and what a response does.
use go_util.Prelude.{
  ℕ, ◌≡◌, refl, sym, ap, ◌∙◌, Bool, true, false, none, some, List, ◌++◌, append_assoc,
}
use go_util.JsonRpc.Codec.{
  Library, put, encode_to, and_then, write_request, read_message, ServerCodec, body_written,
  header_written, refused, write_response,
}
use go_util.JsonRpc.Codec.Stream.{IsLibrary, Written, write_request-Written, read_message-texts}

module _ {Value Buffer : Type 0} (lib : Library Value Buffer) (law : IsLibrary lib) where
  and_then_on :
      (first : Buffer × Bool) (next : Buffer → Buffer × Bool)
      → first.1 ≡ true
      → and_then lib first next ≡ next first.0
  unfolding and_then
  and_then_on (b, true) next h = refl
  and_then_on (b, false) next h = absurd (cc h)

  refused_request :
      (r body : Value) (head : List ℕ) (b : Buffer)
      → lib.encode r ≡ some head
      → lib.encode body ≡ none
      → (lib.write b head).1 ≡ true
      → write_request lib r body b ≡ ((lib.write b head).0, false)
  unfolding write_request encode_to put and_then
  refused_request r body head b e n w = rw e (
      and_then_on (lib.write b head) _ w
      ∙ ap (λ t. and_then lib (put lib (lib.write b head).0 t) (λ b2. lib.flush b2)) n)

  -- A request whose header is written and whose body has no JSON text fails, and leaves its header in
  -- the buffer: what the next successful request sends is read as that header with the next one's
  -- header for its body.
  pub write_request-misread :
      (r body : Value) (head : List ℕ) (b : Buffer)
      → lib.encode r ≡ some head
      → lib.encode body ≡ none
      → (lib.write b head).1 ≡ true
      → lib.sent b ≡ lib.taken b
      → (r2 body2 : Value) → (write_request lib r2 body2 (write_request lib r body b).0).1 ≡ true
      → (stream : List ℕ) × (rest : List ℕ) × (lib.sent
            (write_request lib r2 body2 (write_request lib r body b).0).0
          ≡ lib.sent b ++ stream)
        × (read_message lib stream ≡ some (r, r2, rest))
  unfolding Written
  write_request-misread r body head b e n w clean r2 body2 h =
      let left = ap (λ p. p.0) (refused_request r body head b e n w) in
      let after = (write_request lib r body b).0 in
      let (head2, tail2, e1, e2, s, t) = write_request-Written lib law r2 body2 after h in
      (
        head ++ (head2 ++ tail2),
        tail2,
        s
            ∙ ap (λ p. lib.taken p ++ (head2 ++ tail2)) left
            ∙ ap (λ p. p ++ (head2 ++ tail2)) (law.taken_write b head w)
            ∙ append_assoc (lib.taken b) head (head2 ++ tail2)
            ∙ ap (λ p. p ++ (head ++ (head2 ++ tail2))) (sym clean),
        read_message-texts lib law r r2 head head2 tail2 e e1,
      )

  refused-false : (c : ServerCodec Buffer) (f : Buffer × Bool) → (refused lib c f).1 ≡ false
  unfolding refused
  refused-false c (b, true) = refl
  refused-false c (b, false) = refl

  with_buffer : ServerCodec Buffer → Buffer → ServerCodec Buffer
  with_buffer c b = record c { enc_buf = b }

  body_written-flush :
      (c : ServerCodec Buffer) (second : Buffer × Bool)
      → (body_written lib c second).1 ≡ true
      → ((and_then lib second (λ b. lib.flush b)).1 ≡ true)
        × ((body_written lib c second).0 ≡ with_buffer c (and_then lib second (λ b. lib.flush b)).0)
  unfolding body_written and_then with_buffer
  body_written-flush c (b, true) h = (h, refl)
  body_written-flush c (b, false) h = absurd (cc (refused-false c (lib.flush b), h))

  header_written-body :
      (body : Value) (c : ServerCodec Buffer) (first : Buffer × Bool)
      → (header_written lib body c first).1 ≡ true
      → let all =
          and_then lib first (λ b1. and_then lib (encode_to lib b1 body) (λ b2. lib.flush b2)) in
        (all.1 ≡ true) × ((header_written lib body c first).0 ≡ with_buffer c all.0)
  unfolding header_written and_then
  header_written-body body c (b, true) h = body_written-flush c (encode_to lib b body) h
  header_written-body body c (b, false) h = absurd (cc (refused-false c (lib.flush b), h))

  -- A response that is written without an error is written as a request is, and closes nothing.
  pub write_response-request :
      (r body : Value) (c : ServerCodec Buffer)
      → (write_response lib r body c).1 ≡ true
      → ((write_request lib r body c.enc_buf).1 ≡ true)
        × ((write_response lib r body c).0
            ≡ record c { enc_buf = (write_request lib r body c.enc_buf).0 })
  unfolding write_response write_request with_buffer
  write_response-request r body c h = header_written-body body c (encode_to lib c.enc_buf r) h
