-- ===== src/Common/Result.antt =====
-- A call that returns a value or throws; the error is the exception's text or a type of its own.
use mathlib.Core.Bool.{Bool, true, false}

pub data Result {ℓ κ} (E : Type κ) (A : Type ℓ) : Type (ℓ ⊔ κ) where
  ok : A → Result E A
  err : E → Result E A

infixl 5 ◌>>=◌ ◌>>◌
abbrev pub ◌>>=◌ {ℓ κ ν} :
    {E : Type ν} {A : Type ℓ} {B : Type κ} → Result E A → (A → Result E B) → Result E B
ok a >>= f = f a
err e >>= f = err e

abbrev pub ◌>>◌ {κ ν} : {E : Type ν} {B : Type κ} → Result E (Unit {0}) → Result E B → Result E B
m >> k = m >>= λ _. k

-- `if (!condition) throw e;`
abbrev pub guard {ν} : {E : Type ν} → Bool → E → Result E (Unit {0})
guard true e = ok tt
guard false e = err e
