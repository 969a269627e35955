-- ===== src/JsonRpc/Codec/Stream.antt =====
-- What one side writes is what the other one reads.
use go_util.Prelude.{
  ℕ, ◌≡◌, refl, sym, ap, ◌∙◌, Bool, true, false, Option, none, some, List, [], ◌∷◌, ◌++◌,
  append_assoc, append-nil,
}
use go_util.JsonRpc.Codec.{
  Library, put, encode_to, and_then, write_request, write_requests, read_value, read_message,
}

-- As encoding/json and bufio document it.
pub record IsLibrary {Value Buffer : Type 0} (lib : Library Value Buffer) : Type 0 where
  pub decode_encode :
      (v : Value) (bytes rest : List ℕ)
      → lib.encode v ≡ some bytes
      → lib.decode (bytes ++ rest) ≡ some (v, rest)
  pub taken_write :
      (b : Buffer) (bytes : List ℕ)
      → (lib.write b bytes).1 ≡ true
      → lib.taken (lib.write b bytes).0 ≡ lib.taken b ++ bytes
  pub taken_flush : (b : Buffer) → lib.taken (lib.flush b).0 ≡ lib.taken b
  pub sent_flush : (b : Buffer) → (lib.flush b).1 ≡ true → lib.sent (lib.flush b).0 ≡ lib.taken b

module _ {Value Buffer : Type 0} (lib : Library Value Buffer) (law : IsLibrary lib) where
  pub and_then-true :
      (first : Buffer × Bool) (next : Buffer → Buffer × Bool)
      → (and_then lib first next).1 ≡ true
      → (first.1 ≡ true) × (and_then lib first next ≡ next first.0)
  unfolding and_then
  and_then-true (b, true) next h = (refl, refl)
  and_then-true (b, false) next h = absurd (cc h)

  pub put-taken :
      (b : Buffer) (text : Option (List ℕ))
      → (put lib b text).1 ≡ true
      → (bytes : List ℕ) × (text ≡ some bytes)
        × (lib.taken (put lib b text).0 ≡ lib.taken b ++ bytes)
  unfolding put
  put-taken b none h = absurd (cc h)
  put-taken b (some bytes) h = (bytes, refl, law.taken_write b bytes h)

  -- A request that is written: both values' texts follow what the buffer had, and all of it is sent.
  unfoldable pub Written : Value → Value → Buffer → Buffer → Type 0
  Written r body b after =
      (head : List ℕ) × (tail : List ℕ) × (lib.encode r ≡ some head)
      × (lib.encode body ≡ some tail)
      × (lib.sent after ≡ lib.taken b ++ (head ++ tail))
      × (lib.taken after ≡ lib.sent after)

  pub write_request-Written :
      (r body : Value) (b : Buffer)
      → (write_request lib r body b).1 ≡ true
      → Written r body b (write_request lib r body b).0
  unfolding write_request encode_to Written
  write_request-Written r body b h =
      let first = encode_to lib b r in
      let (ok1, eq1) = and_then-true first _ h in
      let h2 : (and_then lib (encode_to lib first.0 body) (λ b2. lib.flush b2)).1 ≡ true =
        ap (λ t. t.1) (sym eq1) ∙ h in
      let second = encode_to lib first.0 body in
      let (ok2, eq2) = and_then-true second _ h2 in
      let flushed : (lib.flush second.0).1 ≡ true = ap (λ t. t.1) (sym eq2) ∙ h2 in
      let (head, e1, t1) = put-taken b (lib.encode r) ok1 in
      let (tail, e2, t2) = put-taken first.0 (lib.encode body) ok2 in
      let end = ap (λ t. t.0) (eq1 ∙ eq2) in
      let all : lib.taken second.0 ≡ lib.taken b ++ (head ++ tail) =
        t2 ∙ ap (λ t. t ++ tail) t1 ∙ append_assoc (lib.taken b) head tail in
      (
        head,
        tail,
        e1,
        e2,
        ap lib.sent end ∙ law.sent_flush second.0 flushed ∙ all,
        ap lib.taken end
            ∙ law.taken_flush second.0
            ∙ sym (law.sent_flush second.0 flushed)
            ∙ sym (ap lib.sent end),
      )

  pub read_message-texts :
      (r body : Value) (head tail rest : List ℕ)
      → lib.encode r ≡ some head
      → lib.encode body ≡ some tail
      → read_message lib (head ++ (tail ++ rest)) ≡ some (r, body, rest)
  unfolding read_message read_value
  read_message-texts r body head tail rest e1 e2 =
      rw (law.decode_encode r head (tail ++ rest) e1, law.decode_encode body tail rest e2) refl

  -- A stream that starts with these messages, and what follows them.
  pub data Reads : List ℕ → List (Value × Value) → List ℕ → Type 0 where
    nothing : {stream : List ℕ} → Reads stream [] stream
    message :
        {stream next rest : List ℕ} {messages : List (Value × Value)} (r body : Value)
        → read_message lib stream ≡ some (r, body, next)
        → Reads next messages rest
        → Reads stream ((r, body) ∷ messages) rest

  -- However many requests are written one after the other on a connection on which nothing is left in
  -- the buffer, if every call succeeds what is sent is read as these requests, in order, and then what
  -- follows.
  pub write_requests-Reads :
      (messages : List (Value × Value)) (b : Buffer)
      → lib.sent b ≡ lib.taken b
      → (write_requests lib messages b).1 ≡ true
      → (stream : List ℕ) × (lib.sent (write_requests lib messages b).0 ≡ lib.sent b ++ stream)
        × ((rest : List ℕ) → Reads (stream ++ rest) messages rest)
  unfolding write_requests Written
  write_requests-Reads [] b clean h = ([], sym (append-nil (lib.sent b)), λ rest. nothing)
  write_requests-Reads ((r, body) ∷ messages) b clean h =
      let first = write_request lib r body b in
      let (ok, eq) = and_then-true first _ h in
      let (head, tail, e1, e2, s, t) = write_request-Written r body b ok in
      let later : (write_requests lib messages first.0).1 ≡ true = ap (λ p. p.1) (sym eq) ∙ h in
      let (stream, sent_all, reads) = write_requests-Reads messages first.0 (sym t) later in
      (
        (head ++ tail) ++ stream,
        ap (λ p. lib.sent p.0) eq
            ∙ sent_all
            ∙ ap (λ p. p ++ stream) (s ∙ ap (λ p. p ++ (head ++ tail)) (sym clean))
            ∙ append_assoc (lib.sent b) (head ++ tail) stream,
        λ rest.
            message r body
              (ap (read_message lib) (
                  append_assoc (head ++ tail) stream rest ∙ append_assoc head tail (stream ++ rest))
                ∙ read_message-texts r body head tail (stream ++ rest) e1 e2)
              (reads rest),
      )
