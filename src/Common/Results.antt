-- ===== src/Common/Results.antt =====
-- A call that returns a value or an error, as Go's `(T, error)`.
use mathlib.Core.Path.{◌≡◌, refl}

pub data Result {ℓ κ} (E : Type ℓ) (A : Type κ) : Type (ℓ ⊔ κ) where
  ok : A → Result E A
  err : E → Result E A

infixl 10 ◌>>=◌
abbrev pub ◌>>=◌ {ℓ κ μ} :
    {E : Type ℓ} {A : Type κ} {B : Type μ} → Result E A → (A → Result E B) → Result E B
ok a >>= f = f a
err e >>= f = err e

pub err-injective {ℓ κ} :
    {E : Type ℓ} {A : Type κ} (a b : E) → ◌≡◌ {A = Result E A} (err a) (err b) → a ≡ b
err-injective a b h = cc

-- A chain that ends well went well at its first step.
pub >>=-eq-ok {ℓ κ μ} :
    {E : Type ℓ} {A : Type κ} {B : Type μ} (call : Result E A) (rest : A → Result E B) {out : B}
    → (call >>= rest) ≡ ok out
    → (got : A) × (call ≡ ok got) × (rest got ≡ ok out)
>>=-eq-ok (err _) rest ended = cc
>>=-eq-ok (ok got) rest ended = (got, refl, ended)

pub ok-injective {ℓ κ} :
    {E : Type ℓ} {A : Type κ} (a b : A) → ◌≡◌ {A = Result E A} (ok a) (ok b) → a ≡ b
ok-injective a b h = cc
