-- ===== src/Prelude/Lists.antt =====
-- Lists as the rows of a table: filtering and counting by a Boolean test, membership of ids.
use Prim.Native.Nat.{ℕ, zero, suc, ◌+◌, ◌≤◌}
use mathlib.Core.Path.{◌≡◌, refl, ap, subst}
use mathlib.Core.Logic.{inl, inr}
use mathlib.Core.Bool.{Bool, true, false, not, ◌&&◌, ◌||◌}
use mathlib.Core.Option.{Option, none, some}
use mathlib.Core.List.{List, [], ◌∷◌, ◌++◌, map}
use native.Mathlib.Omega.{arith}
use vb_api.Prelude.Tests.{◌==◌, if◌then◌else◌, ==_iff, Bool-cases}

module _ {ℓ} {A : Type ℓ} where
  abbrev pub length : List A → ℕ
  length [] = 0
  length (x ∷ xs) = suc (length xs)

  abbrev pub filter : (A → Bool) → List A → List A
  filter p [] = []
  filter p (x ∷ xs) = if p x then x ∷ filter p xs else filter p xs

  abbrev pub count_if : (A → Bool) → List A → ℕ
  count_if p [] = 0
  count_if p (x ∷ xs) = (if p x then 1 else 0) + count_if p xs

  abbrev pub any : (A → Bool) → List A → Bool
  any p [] = false
  any p (x ∷ xs) = p x || any p xs

  abbrev pub all : (A → Bool) → List A → Bool
  all p [] = true
  all p (x ∷ xs) = p x && all p xs

  -- `.first()` of a query
  abbrev pub find : (A → Bool) → List A → Option A
  find p [] = none
  find p (x ∷ xs) = if p x then some x else find p xs

  abbrev pub take : ℕ → List A → List A
  take zero xs = []
  take (suc n) [] = []
  take (suc n) (x ∷ xs) = x ∷ take n xs

  abbrev pub drop : ℕ → List A → List A
  drop zero xs = xs
  drop (suc n) [] = []
  drop (suc n) (x ∷ xs) = drop n xs

  abbrev pub All {κ} : (A → Type κ) → List A → Type κ
  All P [] = Unit
  All P (x ∷ xs) = P x × All P xs

  pub length-append : (xs ys : List A) → length (xs ++ ys) ≡ length xs + length ys
  length-append [] ys = omega arith
  length-append (x ∷ xs) ys = omega (arith, length-append xs ys)

  pub count_if-append :
      (p : A → Bool) (xs ys : List A) → count_if p (xs ++ ys) ≡ count_if p xs + count_if p ys
  count_if-append p [] ys = omega arith
  count_if-append p (x ∷ xs) ys = omega (arith, count_if-append p xs ys)

  pub count_if-filter :
      (p q : A → Bool) (xs : List A) → count_if p (filter q xs) ≡ count_if (λ x. q x && p x) xs
  count_if-filter p q [] = refl
  count_if-filter p q (x ∷ xs) = ground (arith, count_if-filter p q xs)

  pub length-filter : (p : A → Bool) (xs : List A) → length (filter p xs) ≡ count_if p xs
  length-filter p [] = refl
  length-filter p (x ∷ xs) = ground (arith, length-filter p xs)

  pub any_iff_count_if : (p : A → Bool) (xs : List A) → any p xs ≡ not (count_if p xs == 0)
  any_iff_count_if p [] = refl
  any_iff_count_if p (x ∷ xs) = ground (arith, any_iff_count_if p xs)

  pub count_if_congr :
      (p q : A → Bool) (xs : List A) → All (λ x. p x ≡ q x) xs → count_if p xs ≡ count_if q xs
  count_if_congr p q [] h = refl
  count_if_congr p q (x ∷ xs) h = ground (arith, h.0, count_if_congr p q xs h.1)

  pub All-of {κ} : (P : A → Type κ) → ((x : A) → P x) → (xs : List A) → All P xs
  All-of P h [] = tt
  All-of P h (x ∷ xs) = (h x, All-of P h xs)

  pub find-some : (p : A → Bool) (xs : List A) (a : A) → find p xs ≡ some a → p a ≡ true
  find-some p [] a h = cc
  find-some p (x ∷ xs) a h = ground (arith, find-some p xs a)

pub count_if-map {ℓ κ} :
    {A : Type ℓ} {B : Type κ} (p : B → Bool) (f : A → B) (xs : List A)
    → count_if p (map f xs) ≡ count_if (λ x. p (f x)) xs
count_if-map p f [] = refl
count_if-map p f (x ∷ xs) = ground (arith, count_if-map p f xs)

-- `u in ids`
abbrev pub contains : ℕ → List ℕ → Bool
contains u [] = false
contains u (x ∷ xs) = x == u || contains u xs

-- No id stands twice in the list: what a primary key guarantees.
abbrev pub Distinct : List ℕ → Type 0
Distinct [] = Unit
Distinct (i ∷ is) = (contains i is ≡ false) × Distinct is

pub count_if_of_not_contains :
    (u : ℕ) (is : List ℕ) → contains u is ≡ false → count_if (λ i. i == u) is ≡ 0
count_if_of_not_contains u [] h = refl
count_if_of_not_contains u (i ∷ is) h = ground (arith, count_if_of_not_contains u is)

pub contains_iff_count_if :
    (u : ℕ) (is : List ℕ) → contains u is ≡ not (count_if (λ i. i == u) is == 0)
contains_iff_count_if u [] = refl
contains_iff_count_if u (i ∷ is) = ground (arith, contains_iff_count_if u is)

pub Distinct-count_if_le : (u : ℕ) (is : List ℕ) → Distinct is → count_if (λ i. i == u) is ≤ 1
Distinct-count_if_le u [] d = omega arith
Distinct-count_if_le u (i ∷ is) d = elim (Bool-cases (i == u)) [
  | inl same ↦
      ground (arith, count_if_of_not_contains u is, ap (λ j. contains j is) ((==_iff i u).0 same))
  | inr other ↦ ground (arith, Distinct-count_if_le u is d.1)
]

pub All-zip {ℓ κ μ ν} :
    {A : Type ℓ} {P : A → Type κ} {Q : A → Type μ} {R : A → Type ν}
    → ((x : A) → P x → Q x → R x)
    → (xs : List A) → All P xs
    → All Q xs
    → All R xs
All-zip f [] p q = tt
All-zip f (x ∷ xs) p q = (f x p.0 q.0, All-zip f xs p.1 q.1)

pub All-map {ℓ κ μ} :
    {A : Type ℓ} {P : A → Type κ} {Q : A → Type μ}
    → ((x : A) → P x → Q x)
    → (xs : List A) → All P xs
    → All Q xs
All-map f [] p = tt
All-map f (x ∷ xs) p = (f x p.0, All-map f xs p.1)

pub All-find {ℓ κ} :
    {A : Type ℓ} (P : A → Type κ) (p : A → Bool) (xs : List A) (a : A)
    → find p xs ≡ some a
    → All P xs
    → P a
All-find P p [] a h each = cc
All-find P p (x ∷ xs) a h each = go (All-find P p xs a) (p x) h
  where
    go :
        (find p xs ≡ some a → All P xs → P a)
        → (b : Bool) → (if b then some x else find p xs) ≡ some a
        → P a
    go rest true e = subst P (cc) each.0
    go rest false e = rest e each.1

pub contains-append :
    (u : ℕ) (is js : List ℕ) → contains u (is ++ js) ≡ (contains u is || contains u js)
contains-append u [] js = refl
contains-append u (i ∷ is) js = ground (arith, contains-append u is js)

pub Distinct-snoc :
    (is : List ℕ) (i : ℕ) → Distinct is → contains i is ≡ false → Distinct (is ++ i ∷ [])
Distinct-snoc [] i d h = ground arith
Distinct-snoc (j ∷ is) i d h =
    (ground (arith, contains-append j is (i ∷ []), d.0), Distinct-snoc is i d.1 (ground arith))

pub All-filter {ℓ} : {A : Type ℓ} (p : A → Bool) (xs : List A) → All (λ x. p x ≡ true) (filter p xs)
All-filter p [] = tt
All-filter p (x ∷ xs) = elim (Bool-cases (p x)) [
  | inl kept ↦ rw kept (kept, All-filter p xs)
  | inr dropped ↦ rw dropped (All-filter p xs)
]

pub length-map {ℓ κ} :
    {A : Type ℓ} {B : Type κ} (f : A → B) (xs : List A) → length (map f xs) ≡ length xs
length-map f [] = refl
length-map f (x ∷ xs) = ap suc (length-map f xs)
