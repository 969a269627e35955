-- ===== src/Tests/JsonRpc.antt =====
-- rpc/rpc/codec: a value is a number, its text is the number, and 0 has none.
use go_util.Prelude.{
  ℕ, zero, suc, ◌≡◌, refl, sym, true, false, Option, none, some, List, [], ◌∷◌, ◌++◌, append-nil,
  append_assoc,
}
use go_util.JsonRpc.Codec.{
  Library, ServerCodec, put, encode_to, and_then, write_request, write_requests, read_message,
  close, refused, body_written, header_written, write_response,
}
use go_util.JsonRpc.Codec.Stream.{IsLibrary, Reads, write_requests-Reads}
use go_util.JsonRpc.Codec.Refused.{write_request-misread, write_response-request}

-- What was sent, and what waits in the buffer.
abbrev Buffer : Type 0
Buffer = List ℕ × List ℕ

abbrev text_of : ℕ → Option (List ℕ)
text_of zero = none
text_of (suc n) = some (suc n ∷ [])

abbrev value_at : List ℕ → Option (ℕ × List ℕ)
value_at [] = none
value_at (c ∷ rest) = some (c, rest)

abbrev lib : Library ℕ Buffer
lib = record {
  encode = text_of;
  decode = value_at;
  write = λ b bytes. ((b.0, b.1 ++ bytes), true);
  flush = λ b. ((b.0 ++ b.1, []), true);
  taken = λ b. b.0 ++ b.1;
  sent = λ b. b.0;
}

decode_text :
    (v : ℕ) (bytes rest : List ℕ)
    → text_of v ≡ some bytes
    → value_at (bytes ++ rest) ≡ some (v, rest)
decode_text zero bytes rest h = absurd (cc h)
decode_text (suc n) bytes rest h = let same : (suc n ∷ []) ≡ bytes = cc h in rw (sym same) refl

lib-IsLibrary : IsLibrary lib
lib-IsLibrary = record {
  decode_encode = decode_text;
  taken_write = λ b bytes h. sym (append_assoc b.0 b.1 bytes);
  taken_flush = λ b. append-nil (b.0 ++ b.1);
  sent_flush = λ b h. refl;
}

abbrev clean : Buffer
clean = ([], [])

abbrev requests : List (ℕ × ℕ)
requests = (1, 5) ∷ (2, 6) ∷ []

all_written : (write_requests lib requests clean).1 ≡ true
unfolding write_requests write_request encode_to put and_then
all_written = refl

write_requests-Reads_example :
    (stream : List ℕ) × (lib.sent (write_requests lib requests clean).0 ≡ lib.sent clean ++ stream)
    × ((rest : List ℕ) → Reads lib lib-IsLibrary (stream ++ rest) requests rest)
write_requests-Reads_example =
    write_requests-Reads lib lib-IsLibrary requests clean refl all_written

second_written : (write_request lib 2 6 (write_request lib 1 0 clean).0).1 ≡ true
unfolding write_request encode_to put and_then
second_written = refl

write_request-misread_example :
    (stream : List ℕ) × (rest : List ℕ) × (lib.sent
        (write_request lib 2 6 (write_request lib 1 0 clean).0).0
      ≡ lib.sent clean ++ stream)
    × (read_message lib stream ≡ some (1, 2, rest))
write_request-misread_example =
    write_request-misread lib lib-IsLibrary 1 0 (1 ∷ []) clean refl refl refl refl 2 6
      second_written

abbrev server : ServerCodec Buffer
server = record { enc_buf = clean; closed = false; rwc_closed = 0 }

response_written : (write_response lib 1 5 server).1 ≡ true
unfolding write_response header_written body_written encode_to put
response_written = refl

write_response-request_example :
    ((write_request lib 1 5 server.enc_buf).1 ≡ true)
    × ((write_response lib 1 5 server).0
        ≡ record server { enc_buf = (write_request lib 1 5 server.enc_buf).0 })
write_response-request_example =
    write_response-request lib lib-IsLibrary 1 5 server response_written

-- A body without a text closes the connection, and a second one does not close it again.
closed_once : (write_response lib 1 0 (write_response lib 1 0 server).0).0.rwc_closed ≡ 1
unfolding write_response header_written body_written encode_to put refused close
closed_once = refl
