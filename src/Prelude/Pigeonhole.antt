-- ===== src/Prelude/Pigeonhole.antt =====
-- Distinct ids taken from a list are no more than the list is long.
use Prim.Native.Nat.{ℕ, suc, ◌≤◌}
use mathlib.Core.Path.{◌≡◌}
use mathlib.Core.Bool.{true, false}
use mathlib.Core.List.{List, [], ◌∷◌}
use native.Mathlib.Omega.{arith}
use vb_api.Prelude.Tests.{◌==◌, if◌then◌else◌}
use vb_api.Prelude.Lists.{length, contains, Distinct, All}

without : ℕ → List ℕ → List ℕ
without u [] = []
without u (i ∷ is) = if i == u then is else i ∷ without u is

length-without :
    (u : ℕ) (is : List ℕ) → contains u is ≡ true → suc (length (without u is)) ≡ length is
unfolding without
length-without u [] h = cc
length-without u (i ∷ is) h = ground (arith, length-without u is)

contains-without :
    (u v : ℕ) (is : List ℕ)
    → contains v is ≡ true
    → (u == v) ≡ false
    → contains v (without u is) ≡ true
unfolding without
contains-without u v [] h other = cc
contains-without u v (i ∷ is) h other = ground (arith, contains-without u v is)

All-without :
    (u : ℕ) (is js : List ℕ)
    → contains u is ≡ false
    → All (λ i. contains i js ≡ true) is
    → All (λ i. contains i (without u js) ≡ true) is
All-without u [] js fresh h = tt
All-without u (i ∷ is) js fresh h = (
  contains-without u i js h.0 (ground (arith, fresh)),
  All-without u is js (ground (arith, fresh)) h.1,
)

pub Distinct-length_le :
    (is js : List ℕ) → Distinct is → All (λ i. contains i js ≡ true) is → length is ≤ length js
Distinct-length_le [] js d h = omega arith
Distinct-length_le (i ∷ is) js d h = omega (
  arith,
  length-without i js h.0,
  Distinct-length_le is (without i js) d.1 (All-without i is js d.0 h.1),
)
