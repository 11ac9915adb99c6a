-- ===== src/Common/Result.antt =====
-- The `(T, error)` results of Go, with panics as a third case.
use mathlib.Core.Path.{◌≡◌, refl}

pub data Result {ℓ κ} (E : Type ℓ) (A : Type κ) : Type (ℓ ⊔ κ) where
  ok : A → Result E A
  err : E → Result E A
  panicked : Result E A

infixl 5 ◌>>=◌
abbrev pub ◌>>=◌ {ℓ κ μ} :
    {E : Type ℓ} {A : Type κ} {B : Type μ} → Result E A → (A → Result E B) → Result E B
ok a >>= f = f a
err e >>= f = err e
panicked >>= f = panicked

pub >>=_assoc {ℓ κ μ ν} :
    {E : Type ℓ} {A : Type κ} {B : Type μ} {C : Type ν} (m : Result E A) (f : A → Result E B)
    (g : B → Result E C)
    → ((m >>= f) >>= g) ≡ (m >>= λ a. f a >>= g)
>>=_assoc (ok a) f g = refl
>>=_assoc (err e) f g = refl
>>=_assoc panicked f g = refl

pub >>=_ok {ℓ κ} : {E : Type ℓ} {A : Type κ} (m : Result E A) → (m >>= ok) ≡ m
>>=_ok (ok a) = refl
>>=_ok (err e) = refl
>>=_ok panicked = refl

pub >>=_congr {ℓ κ μ} :
    {E : Type ℓ} {A : Type κ} {B : Type μ} (m : Result E A) (f g : A → Result E B)
    → ((a : A) → f a ≡ g a)
    → (m >>= f) ≡ (m >>= g)
>>=_congr (ok a) f g h = h a
>>=_congr (err e) f g h = refl
>>=_congr panicked f g h = refl

-- A property of the value, where there is one.
abbrev pub OnOk {ℓ κ μ} : {E : Type ℓ} {A : Type κ} → (A → Type μ) → Result E A → Type μ
OnOk P (ok a) = P a
OnOk P (err e) = Unit
OnOk P panicked = Unit

pub OnOk->>= {ℓ κ μ ν} :
    {E : Type ℓ} {A : Type κ} {B : Type μ} (Q : B → Type ν) (m : Result E A) (f : A → Result E B)
    → ((a : A) → OnOk Q (f a))
    → OnOk Q (m >>= f)
OnOk->>= Q (ok a) f h = h a
OnOk->>= Q (err e) f h = tt
OnOk->>= Q panicked f h = tt
