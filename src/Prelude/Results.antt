-- ===== src/Prelude/Results.antt =====
-- What a call of a Go function comes to: a value, an error value, or a run-time panic.
-- `stuck` is no Go outcome: a loop on fuel ran out of it, and theorems rule it out.
use mathlib.Core.Path.{◌≡◌}
use mathlib.Core.Option.{Option, none, some}

pub data Outcome {ℓ} (E : Type 0) (A : Type ℓ) : Type ℓ where
  ok : A → Outcome E A
  err : E → Outcome E A
  panic : Outcome E A
  stuck : Outcome E A

infixl 5 ◌>>=◌
abbrev pub ◌>>=◌ {ℓ κ} :
    {E : Type 0} {A : Type ℓ} {B : Type κ} → Outcome E A → (A → Outcome E B) → Outcome E B
ok a >>= f = f a
err e >>= f = err e
panic >>= f = panic
stuck >>= f = stuck

-- An index, a slice or a nil dereference that Go checks at run time.
abbrev pub or_panic {ℓ} : {E : Type 0} {A : Type ℓ} → Option A → Outcome E A
or_panic none = panic
or_panic (some a) = ok a

-- A bind that succeeds came to its continuation with a value.
pub >>=-continues {ℓ κ} :
    {E : Type 0} {A : Type ℓ} {B : Type κ} (f : A → Outcome E B) (b : B) (m : Outcome E A)
    → (m >>= f) ≡ ok b
    → (a : A) × (f a ≡ ok b)
>>=-continues f b (ok a) h = (a, h)
>>=-continues f b (err e) h = absurd (cc h)
>>=-continues f b panic h = absurd (cc h)
>>=-continues f b stuck h = absurd (cc h)
