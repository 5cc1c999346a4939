-- ===== src/Base/Result.antt =====
-- A value or an error: Go's pair of a result and an error.
use mathlib.Core.Bool.{Bool, true, false}
use mathlib.Core.Path.{◌≡◌, refl}

pub data Result {ℓ κ} (E : Type ℓ) (A : Type κ) : Type (ℓ ⊔ κ) where
  ok : A → Result E A
  err : E → Result E A

infixl 5 ◌>>=◌ ◌>>◌
abbrev pub ◌>>=◌ {ℓ κ μ} :
    {E : Type ℓ} {A : Type κ} {B : Type μ} → Result E A → (A → Result E B) → Result E B
ok a >>= f = f a
err e >>= f = err e

abbrev pub ◌>>◌ {ℓ κ} : {E : Type ℓ} {B : Type κ} → Result E (Unit {0}) → Result E B → Result E B
m >> k = m >>= λ _. k

-- The step of a chain that stops with the error unless the test holds.
abbrev pub guard {ℓ} : {E : Type ℓ} → Bool → E → Result E (Unit {0})
guard true e = ok tt
guard false e = err e

-- What a result promises of the value, if it has one.
abbrev pub Ensures {ℓ κ} : {E : Type ℓ} {A : Type κ} → (A → Type 0) → Result E A → Type 0
Ensures P (ok a) = P a
Ensures P (err e) = Unit

pub Ensures-bind {ℓ κ μ} :
    {E : Type ℓ} {A : Type κ} {B : Type μ} (P : B → Type 0) (m : Result E A) (f : A → Result E B)
    → ((a : A) → m ≡ ok a → Ensures P (f a))
    → Ensures P (m >>= f)
Ensures-bind P (ok a) f h = h a refl
Ensures-bind P (err e) f h = tt

pub Ensures-guard {ℓ κ} :
    {E : Type ℓ} {B : Type κ} (P : B → Type 0) (b : Bool) (e : E) (m : Result E B)
    → (b ≡ true → Ensures P m)
    → Ensures P (guard b e >> m)
Ensures-guard P true e m h = h refl
Ensures-guard P false e m h = tt

pub Ensures-last {ℓ} :
    {E : Type ℓ} (P : Unit {0} → Type 0) (b : Bool) (e : E)
    → (b ≡ true → P tt)
    → Ensures P (guard b e)
Ensures-last P true e h = h refl
Ensures-last P false e h = tt
