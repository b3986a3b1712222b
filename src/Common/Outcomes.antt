-- ===== src/Common/Outcomes.antt =====
-- What a Go function that may fail or panic does: it returns, returns an error, or panics.
use mathlib.Core.Path.{◌≡◌, refl}
use mathlib.Core.Option.{Option, none, some}
use native.Mathlib.Omega.{arith}

pub data Outcome (E A : Type 0) : Type 0 where
  ok : A → Outcome E A
  err : E → Outcome E A
  panic : Outcome E A

infixl 10 ◌>>=◌
abbrev pub ◌>>=◌ : {E A B : Type 0} → Outcome E A → (A → Outcome E B) → Outcome E B
ok a >>= f = f a
err e >>= f = err e
panic >>= f = panic

abbrev pub require : {E A : Type 0} → E → Option A → Outcome E A
require e none = err e
require e (some a) = ok a

-- An index or a slice out of range panics.
abbrev pub in_range : {E A : Type 0} → Option A → Outcome E A
in_range none = panic
in_range (some a) = ok a

pub bind-eq-ok :
    {E A B : Type 0} (x : Outcome E A) (f : A → Outcome E B) {b : B}
    → (x >>= f) ≡ ok b
    → (a : A) × (x ≡ ok a) × (f a ≡ ok b)
bind-eq-ok (ok a) f e = (a, refl, e)
bind-eq-ok (err e') f e = absurd (cc)
bind-eq-ok panic f e = absurd (cc)

pub require-eq-ok : {E A : Type 0} (e : E) (o : Option A) {a : A} → require e o ≡ ok a → o ≡ some a
require-eq-ok e none h = absurd (cc)
require-eq-ok e (some b) h = ground arith
