-- ===== src/Prelude/Results.antt =====
-- Outcomes of calls that can raise.
use mathlib.Core.Path.{◌≡◌, refl}
use mathlib.Core.Bool.{Bool, true, false}

-- `E` is the type of the exceptions that the calls of a component raise.
pub data Result {ℓ κ} (E : Type ℓ) (A : Type κ) : Type (ℓ ⊔ κ) where
  ok : A → Result E A
  err : E → Result E A

infixl 5 ◌>>=◌ ◌>>◌
abbrev pub ◌>>=◌ {ℓ κ μ} :
    {E : Type ℓ} {A : Type κ} {B : Type μ} → Result E A → (A → Result E B) → Result E B
ok a >>= f = f a
err e >>= f = err e

abbrev pub ◌>>◌ {ℓ κ} : {E : Type ℓ} {B : Type κ} → Result E (Unit {0}) → Result E B → Result E B
m >> k = m >>= λ _. k

-- `if c: raise e`
abbrev pub raise_if {ℓ} : {E : Type ℓ} → Bool → E → Result E (Unit {0})
raise_if true e = err e
raise_if false e = ok tt

-- A chain of calls that returns: the first call has returned, and the rest on its value.
pub bind_ok {ℓ κ μ} :
    {E : Type ℓ} {A : Type κ} {B : Type μ} (r : Result E A) (f : A → Result E B) (b : B)
    → (r >>= f) ≡ ok b
    → (a : A) × (r ≡ ok a) × (f a ≡ ok b)
bind_ok (ok a) f b h = (a, refl, h)
bind_ok (err e) f b h = cc

pub raise_if_ok {ℓ κ} :
    {E : Type ℓ} {B : Type κ} (c : Bool) (e : E) (k : Result E B) (b : B)
    → (raise_if c e >> k) ≡ ok b
    → (c ≡ false) × (k ≡ ok b)
raise_if_ok true e k b h = cc
raise_if_ok false e k b h = (refl, h)

pub bind_at {ℓ κ μ} :
    {E : Type ℓ} {A : Type κ} {B : Type μ} (r : Result E A) (a : A) (f : A → Result E B) (b : B)
    → r ≡ ok a
    → (r >>= f) ≡ ok b
    → f a ≡ ok b
bind_at (ok c) a f b e h = cc
bind_at (err c) a f b e h = cc
