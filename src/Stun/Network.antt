-- ===== src/Stun/Network.antt =====
-- The packet connection of p2p/go-stun/stun/net.go, as a script of what its calls bring and a log of
-- what was sent. Every finite behaviour of a connection is such a script.
use Prim.Native.String.{String}
use go_util.Prelude.{
  ℕ, ◌≡◌, ◌≢◌, refl, Option, none, some, List, [], ◌∷◌, ◌++◌, length, ok, err, panic, stuck,
}
use go_util.Wire.Slices.{Slice}
use go_util.Stun.Library.{UdpAddr, Go, library}

-- conn.WriteTo: the number of bytes written, or an error.
pub data WriteResult : Type 0 where
  written : ℕ → WriteResult
  write_error : ℕ → WriteResult

-- conn.ReadFrom: the part of the buffer that was filled and the sender, a timeout, another error.
pub data ReadResult : Type 0 where
  datagram : Slice → String → ReadResult
  timed_out : ReadResult
  read_error : ℕ → ReadResult

-- A datagram that went out whole, the address (nil is `none`), and the milliseconds then waited for.
pub record Sent : Type 0 where
  pub content : List ℕ
  pub addr : Option UdpAddr
  pub timeout : ℕ

pub record Net : Type 0 where
  pub local_addr : String
  pub randoms : List (List ℕ)
  pub writes : List WriteResult
  pub deadlines : List (Option ℕ)
  pub reads : List ReadResult
  pub sent : List Sent

-- A call that uses the connection.
abbrev pub Run {ℓ} : Type 0 → Type ℓ → Type ℓ
Run S A = S → Go A × S

-- A value goes on to the rest; an error or a panic ends the run.
abbrev pub go_on {ℓ κ} :
    {S : Type 0} {A : Type ℓ} {B : Type κ} → Go A → (A → Run S B) → S → Go B × S
go_on (ok a) f s = f a s
go_on (err e) f s = (err e, s)
go_on panic f s = (panic, s)
go_on stuck f s = (stuck, s)

infixl 5 ◌>>=◌
abbrev pub ◌>>=◌ {ℓ κ} : {S : Type 0} {A : Type ℓ} {B : Type κ} → Run S A → (A → Run S B) → Run S B
◌>>=◌ m f s = go_on (m s).0 f (m s).1

-- What holds of the rest after a value, and of every run that ends without one, holds of the whole.
pub bind_cases {ℓ κ μ} :
    {S : Type 0} {A : Type ℓ} {B : Type κ} (P : Go B × S → Type μ) (m : Run S A) (f : A → Run S B)
    (s : S)
    → ((a : A) → (m s).0 ≡ ok a → P (f a (m s).1))
    → ((r : Go B) → ((b : B) → r ≢ ok b) → (r ≡ stuck → (m s).0 ≡ stuck) → P (r, (m s).1))
    → P ((m >>= f) s)
bind_cases {A} P m f s values ends = split (m s).0 refl
  where
    split : (r : Go A) → (m s).0 ≡ r → P (go_on r f (m s).1)
    split (ok a) e = values a e
    split (err x) e = ends (err x) (λ b p. cc) (λ p. cc)
    split panic e = ends panic (λ b p. cc) (λ p. cc)
    split stuck e = ends stuck (λ b p. cc) (λ _. e)

abbrev pub lift {ℓ} : {S : Type 0} {A : Type ℓ} → Go A → Run S A
lift r s = (r, s)

-- rand.Read of twelve bytes: it fails where the script has no more.
pub rand_read : Run Net (List ℕ)
rand_read net = elim net.randoms [
  | [] ↦ (err (library 0), net)
  | bytes ∷ rest ↦ (ok bytes, record net { randoms = rest })
]

-- Where the script has no more, the datagram is written whole.
unfoldable pub write_with : List WriteResult → List ℕ → Run Net ℕ
write_with [] bytes net = (ok (length bytes), net)
write_with (written n ∷ rest) bytes net = (ok n, record net { writes = rest })
write_with (write_error e ∷ rest) bytes net = (err (library e), record net { writes = rest })

abbrev pub write_to : List ℕ → Run Net ℕ
write_to bytes net = write_with net.writes bytes net

-- conn.SetReadDeadline(now + timeout), which enters the datagram that went out into the log.
unfoldable pub deadline_with : List (Option ℕ) → Sent → Run Net (Unit {0})
deadline_with [] entry net = (ok tt, record net { sent = net.sent ++ (entry ∷ []) })
deadline_with (none ∷ rest) entry net =
    (ok tt, record net { sent = net.sent ++ (entry ∷ []); deadlines = rest })
deadline_with (some e ∷ rest) entry net =
    (err (library e), record net { sent = net.sent ++ (entry ∷ []); deadlines = rest })

abbrev pub set_read_deadline : Sent → Run Net (Unit {0})
set_read_deadline entry net = deadline_with net.deadlines entry net
