-- ===== src/Stun/Ends.antt =====
-- Calls that come to an end: no loop in them runs out of its fuel.
use go_util.Prelude.{
  ◌≢◌, refl, Bool, true, false, if◌then◌else◌, Option, none, some, ok, err, panic, stuck, or_panic,
  ◌>>=◌,
}
use go_util.Stun.Library.{Go, Error}

pub record Ends {ℓ} {A : Type ℓ} (r : Go A) : Type ℓ where
  pub not_stuck : r ≢ stuck

pub Ends-ok {ℓ} : {A : Type ℓ} (a : A) → Ends {A = A} (ok a)
Ends-ok a = record { not_stuck = λ e. cc }

pub Ends-or_panic {ℓ} : {A : Type ℓ} (o : Option A) → Ends (or_panic {E = Error} o)
Ends-or_panic none = record { not_stuck = λ e. cc }
Ends-or_panic (some a) = record { not_stuck = λ e. cc }

pub Ends-bind {ℓ κ} :
    {A : Type ℓ} {B : Type κ} (m : Go A) {f : A → Go B}
    → Ends m
    → ((a : A) → Ends (f a))
    → Ends (m >>= f)
Ends-bind (ok a) h k = k a
Ends-bind (err e) h k = record { not_stuck = λ e. cc }
Ends-bind panic h k = record { not_stuck = λ e. cc }
Ends-bind stuck h k = absurd (h.not_stuck refl)

pub Ends-if {ℓ} : {A : Type ℓ} (b : Bool) {r t : Go A} → Ends r → Ends t → Ends (if b then r else t)
Ends-if true h k = h
Ends-if false h k = k
