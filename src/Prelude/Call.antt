-- ===== src/Prelude/Call.antt =====
-- A Go call either returns or panics (an index or a slice out of range, a division by zero).
use mathlib.Core.Path.{◌≡◌, refl}
use mathlib.Core.Bool.{Bool, true, false}

pub data Go {ℓ} (A : Type ℓ) : Type ℓ where
  ret : A → Go A
  panic : Go A

infixl 5 ◌>>=◌ ◌>>◌
abbrev pub ◌>>=◌ {ℓ κ} : {A : Type ℓ} {B : Type κ} → Go A → (A → Go B) → Go B
ret a >>= f = f a
panic >>= f = panic

abbrev pub ◌>>◌ {ℓ} : {B : Type ℓ} → Go (Unit {0}) → Go B → Go B
m >> k = m >>= λ _. k

-- The bounds check of an index or slice expression.
abbrev pub check : Bool → Go (Unit {0})
check true = ret tt
check false = panic

-- A call that returns is made of calls that return.
pub bind-eq-ret {ℓ κ} :
    {A : Type ℓ} {B : Type κ} (m : Go A) (f : A → Go B) {b : B}
    → (m >>= f) ≡ ret b
    → (a : A) × (m ≡ ret a) × (f a ≡ ret b)
bind-eq-ret (ret a) f h = (a, refl, h)
bind-eq-ret panic f h = cc

abbrev pub Returns {ℓ} : {A : Type ℓ} → Go A → Type ℓ
Returns {A} m = (a : A) × (m ≡ ret a)

pub bind-Returns {ℓ κ} :
    {A : Type ℓ} {B : Type κ} (m : Go A) (f : A → Go B)
    → Returns m
    → ((a : A) → Returns (f a))
    → Returns (m >>= f)
bind-Returns (ret a) f h k = k a
bind-Returns panic f (a, h) k = cc
