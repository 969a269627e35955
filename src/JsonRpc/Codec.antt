-- ===== src/JsonRpc/Codec.antt =====
-- JsonServerCodec of rpc/rpc/codec/server.go and JsonClientCodec of rpc/rpc/codec/client.go. A header
-- or a body is a value; encoding/json and bufio.Writer are arguments.
pub mod Stream
pub mod Refused
use go_util.Prelude.{ℕ, Bool, true, false, Option, none, some, List, [], ◌∷◌, suc}

-- What json.Marshal and a json.Decoder do with values and bytes, and what a bufio.Writer does with
-- bytes: those that it has taken, and those of them that it has sent. A call that fails says false.
pub record Library (Value Buffer : Type 0) : Type 0 where
  pub encode : Value → Option (List ℕ)
  pub decode : List ℕ → Option (Value × List ℕ)
  pub write : Buffer → List ℕ → Buffer × Bool
  pub flush : Buffer → Buffer × Bool
  pub taken : Buffer → List ℕ
  pub sent : Buffer → List ℕ

-- JsonServerCodec, whose connection is closed where rwc_closed is not 0.
pub record ServerCodec (Buffer : Type 0) : Type 0 where
  pub enc_buf : Buffer
  pub closed : Bool
  pub rwc_closed : ℕ

module _ {Value Buffer : Type 0} (lib : Library Value Buffer) where
  -- Encode writes the whole text with one call, and none where the value has no text.
  unfoldable pub put : Buffer → Option (List ℕ) → Buffer × Bool
  put b none = (b, false)
  put b (some bytes) = lib.write b bytes

  unfoldable pub encode_to : Buffer → Value → Buffer × Bool
  encode_to b v = put b (lib.encode v)

  -- What follows a call that has succeeded.
  unfoldable pub and_then : Buffer × Bool → (Buffer → Buffer × Bool) → Buffer × Bool
  and_then (b, false) next = (b, false)
  and_then (b, true) next = next b

  unfoldable pub write_request : Value → Value → Buffer → Buffer × Bool
  write_request r body b =
      and_then (encode_to b r) (λ b1. and_then (encode_to b1 body) (λ b2. lib.flush b2))

  -- Calls one after the other, up to one that fails.
  unfoldable pub write_requests : List (Value × Value) → Buffer → Buffer × Bool
  write_requests [] b = (b, true)
  write_requests ((r, body) ∷ rest) b = and_then (write_request r body b) (write_requests rest)

  -- ReadRequestHeader and ReadRequestBody, one after the other, as ReadResponseHeader and -Body.
  unfoldable pub read_value : List ℕ → Option (Value × List ℕ)
  read_value stream = lib.decode stream

  read_body : Value → Option (Value × List ℕ) → Option (Value × Value × List ℕ)
  read_body r none = none
  read_body r (some (body, stream)) = some (r, body, stream)

  read_after : Option (Value × List ℕ) → Option (Value × Value × List ℕ)
  unfolding read_body
  read_after none = none
  read_after (some (r, stream)) = read_body r (read_value stream)

  unfoldable pub read_message : List ℕ → Option (Value × Value × List ℕ)
  unfolding read_after
  read_message stream = read_after (read_value stream)

  unfoldable pub close : ServerCodec Buffer → ServerCodec Buffer
  close c = elim c.closed [
    | true ↦ c
    | false ↦ record c { closed = true; rwc_closed = suc c.rwc_closed }
  ]

  -- After a value that Encode refused: the flush, and Close where the flush succeeds.
  unfoldable pub refused : ServerCodec Buffer → Buffer × Bool → ServerCodec Buffer × Bool
  refused c (b, false) = (record c { enc_buf = b }, false)
  refused c (b, true) = (close (record c { enc_buf = b }), false)

  unfoldable pub body_written : ServerCodec Buffer → Buffer × Bool → ServerCodec Buffer × Bool
  body_written c (b, false) = refused c (lib.flush b)
  body_written c (b, true) = let f = lib.flush b in (record c { enc_buf = f.0 }, f.1)

  unfoldable pub header_written :
      Value → ServerCodec Buffer → Buffer × Bool → ServerCodec Buffer × Bool
  header_written body c (b, false) = refused c (lib.flush b)
  header_written body c (b, true) = body_written c (encode_to b body)

  unfoldable pub write_response : Value → Value → ServerCodec Buffer → ServerCodec Buffer × Bool
  write_response r body c = header_written body c (encode_to c.enc_buf r)
