-- ===== src/Socks/Conn.antt =====
-- A TCP connection as the proxy sees it: what its reads will bring, what was written to it, and whether
-- writes to it succeed;
-- and io.ReadAtLeast and io.ReadFull on it.
use go_util.Prelude.{
  ℕ, ◌-◌, Bool, true, false, List, [], ◌∷◌, ◌++◌, length, take, drop, replicate, leb, Outcome, ok,
  err, panic, stuck,
}

-- What one call of Read has: bytes, or a last batch of bytes with an error (`true` for io.EOF).
pub data Arrival : Type 0 where
  arrived : List ℕ → Arrival
  ended : Bool → List ℕ → Arrival

pub record Conn : Type 0 where
  pub reads : List Arrival
  pub written : List ℕ
  pub writable : Bool

-- The package's error values, and what a read or a dial brought.
pub data Error : Type 0 where
  addr_type version method auth_extra_data req_extra_data command : Error
  io : Error

-- A call that uses the connection.
abbrev pub Run : Type 0 → Type 0
Run A = Conn → Outcome Error A × Conn

abbrev pub go_on : {A B : Type 0} → Outcome Error A → (A → Run B) → Run B
go_on (ok a) f c = f a c
go_on (err e) f c = (err e, c)
go_on panic f c = (panic, c)
go_on stuck f c = (stuck, c)

infixl 5 ◌>>=◌
abbrev pub ◌>>=◌ : {A B : Type 0} → Run A → (A → Run B) → Run B
◌>>=◌ m f c = go_on (m c).0 f (m c).1

abbrev pub lift : {A : Type 0} → Outcome Error A → Run A
lift r c = (r, c)

-- conn.Write, with its error.
abbrev pub write : List ℕ → Run (Unit {0})
write bytes c = elim c.writable [
  | true ↦ (ok tt, record c { written = c.written ++ bytes })
  | false ↦ (err io, c)
]

-- conn.Write, whose error is not looked at.
abbrev pub write_over : List ℕ → Run (Unit {0})
write_over bytes c = elim c.writable [
  | true ↦ (ok tt, record c { written = c.written ++ bytes })
  | false ↦ (ok tt, c)
]

abbrev pub before :
    List ℕ → Outcome Error (List ℕ) × List Arrival → Outcome Error (List ℕ) × List Arrival
before xs (ok ys, rest) = (ok (xs ++ ys), rest)
before xs (err e, rest) = (err e, rest)
before xs (panic, rest) = (panic, rest)
before xs (stuck, rest) = (stuck, rest)

-- What the reads of io.ReadAtLeast bring into `room` bytes of buffer, `least` of them wanted: it
-- reads until it has them. An arrival that the buffer has no room for is left for later reads.
unfoldable pub gather : ℕ → ℕ → List Arrival → Outcome Error (List ℕ) × List Arrival
gather least room [] = elim (leb least 0) [ true ↦ (ok [], []) | false ↦ (err io, []) ]
gather least room (arrived xs ∷ rest) =
    let later = before xs (gather (least - length xs) (room - length xs) rest) in
    elim (leb least 0) [
      | true ↦ (ok [], arrived xs ∷ rest)
      | false ↦ elim (leb (length xs) room) [
        | true ↦ later
        | false ↦ (ok (take room xs), arrived (drop room xs) ∷ rest)
      ]
    ]
gather least room (ended eof xs ∷ rest) = elim (leb least 0) [
  | true ↦ (ok [], ended eof xs ∷ rest)
  | false ↦ elim (leb (length xs) room) [
    | true ↦ elim (leb least (length xs)) [
      | true ↦ (ok xs, ended eof [] ∷ rest)
      | false ↦ (err io, ended eof [] ∷ rest)
    ]
    | false ↦ (ok (take room xs), ended eof (drop room xs) ∷ rest)
  ]
]

-- io.ReadAtLeast(conn, buf, least) with `room` bytes in buf; its value is what was read.
unfoldable pub read_at_least : ℕ → ℕ → Run (List ℕ)
read_at_least least room c =
    let (r, rest) = gather least room c.reads in (r, record c { reads = rest })

-- io.ReadFull(conn, buf[n:m]).
unfoldable pub read_full : ℕ → ℕ → Run (List ℕ)
read_full n m = read_at_least (m - n) (m - n)

-- The buffer of `size` bytes that make([]byte, size) gave, once `xs` was read into it.
abbrev pub buffer : ℕ → List ℕ → List ℕ
buffer size xs = xs ++ replicate (size - length xs) 0
