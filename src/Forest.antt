-- ===== src/Forest.antt =====
-- Rows that name a parent in the same table: the climb from a row to a root, and what keeps every
-- climb finite. `up_from i` is the parent column of row `i`, and none where there is no such row.
use vb_api.Prelude.{
  ◌≤◌, ◌≡◌, ◌≢◌, refl, ap, sym, ◌∙◌, Uuid, true, false, Option, none, some, List, [], ◌∷◌, length,
  contains, Distinct, All, arith, Bool-cases, inl, inr, ◌==◌, ==_iff, if◌then◌else◌,
}
use mathlib.Core.Path.{subst}

-- `is` are the rows from the start up to a root.
pub data Climb (up_from : Uuid → Option (Option Uuid)) : Option Uuid → List Uuid → Type 0 where
  top : Climb up_from none []
  up :
      {i : Uuid} {p : Option Uuid} {is : List Uuid}
      → up_from i ≡ some p
      → Climb up_from p is
      → Climb up_from (some i) (i ∷ is)

module _ (up_from : Uuid → Option (Option Uuid)) where
  Climb-same_start :
      {o q : Option Uuid} {is js : List Uuid}
      → Climb up_from o is
      → Climb up_from q js
      → o ≡ q
      → is ≡ js
  Climb-same_start top top h = refl
  Climb-same_start top (up e' c') h = cc
  Climb-same_start (up e c) top h = cc
  Climb-same_start (up {i} e c) (up {i = j} e' c') h =
      let same : i ≡ j = cc in let rest = Climb-same_start c c' (cc) in cc

  pub Climb-unique :
      {o : Option Uuid} {is js : List Uuid} → Climb up_from o is → Climb up_from o js → is ≡ js
  Climb-unique c c' = Climb-same_start c c' refl

  -- A row on the way up has a shorter way of its own.
  Climb-suffix :
      {o : Option Uuid} {is : List Uuid} (c : Climb up_from o is) (u : Uuid)
      → contains u is ≡ true
      → (js : List Uuid) × Climb up_from (some u) js × (length js ≤ length is)
  Climb-suffix top u h = cc
  Climb-suffix (up {i} {p} {is} e c) u h = elim (Bool-cases (i == u)) [
    | inl same ↦ (
      i ∷ is,
      subst (λ v. Climb up_from (some v) (i ∷ is)) ((==_iff i u).0 same) (up e c),
      omega arith,
    )
    | inr other ↦
        let (js, d, short) = Climb-suffix c u (ground (arith, other, h)) in
        (js, d, omega (arith, short))
  ]

  Climb-fresh :
      {i : Uuid} {p : Option Uuid} {is : List Uuid}
      → up_from i ≡ some p
      → Climb up_from p is
      → contains i is ≡ false
  Climb-fresh {i} {p} {is} e c = elim (Bool-cases (contains i is)) [
    | inl again ↦
        let (js, d, short) = Climb-suffix c i again in
        let same = Climb-unique d (up e c) in ground (arith, short, ap length same)
    | inr fresh ↦ fresh
  ]

  -- No row is met twice on the way up.
  pub Climb-Distinct : {o : Option Uuid} {is : List Uuid} → Climb up_from o is → Distinct is
  Climb-Distinct top = tt
  Climb-Distinct (up e c) = (Climb-fresh e c, Climb-Distinct c)

-- Where two parent functions agree on the rows of a climb, it is a climb of both.
pub Climb-congr :
    (f g : Uuid → Option (Option Uuid)) {o : Option Uuid} {is : List Uuid}
    → Climb f o is
    → All (λ i. f i ≡ g i) is
    → Climb g o is
Climb-congr f g top h = top
Climb-congr f g (up e c) h = up (sym h.0 ∙ e) (Climb-congr f g c h.1)

module _ (up_from : Uuid → Option (Option Uuid)) where
  -- Where no row has the parent `v`, no climb that starts elsewhere meets `v`.
  pub Climb-avoids :
      (v : Uuid)
      → ((i : Uuid) → up_from i ≢ some (some v))
      → {o : Option Uuid} {is : List Uuid} → Climb up_from o is
      → o ≢ some v
      → contains v is ≡ false
  Climb-avoids v childless top away = refl
  Climb-avoids v childless (up {i} {p} {is} e c) away =
      let rest = Climb-avoids v childless c (λ h. childless i (e ∙ ap some h)) in
      elim (Bool-cases (i == v)) [
        | inl same ↦ absurd (away (ap some ((==_iff i v).0 same)))
        | inr other ↦ ground (arith, other, rest)
      ]

-- The parent of `v` replaced: every climb that went through `v` goes on along the new one.
unfoldable pub reparent :
    Uuid → Option Uuid → (Uuid → Option (Option Uuid)) → Uuid → Option (Option Uuid)
reparent v t up_from i = if i == v then some t else up_from i

module _ (up_from : Uuid → Option (Option Uuid)) (v : Uuid) (t : Option Uuid) where
  reparent_congr :
      (is : List Uuid) → contains v is ≡ false → All (λ i. up_from i ≡ reparent v t up_from i) is
  unfolding reparent
  reparent_congr [] h = tt
  reparent_congr (i ∷ is) h = (ground (arith, h), reparent_congr is (ground (arith, h)))

  -- A row that is moved below one that it is not itself on the way up from leaves a forest.
  pub Climb-reparent :
      {ts : List Uuid}
      → Climb up_from t ts
      → contains v ts ≡ false
      → {o : Option Uuid} {is : List Uuid} → Climb up_from o is
      → (js : List Uuid) × Climb (reparent v t up_from) o js
  unfolding reparent
  Climb-reparent above apart top = ([], top)
  Climb-reparent {ts} above apart (up {i} {p} {is} e c) =
      let (js, d) = Climb-reparent above apart c in
      elim (Bool-cases (i == v)) [
        | inl same ↦ (
          i ∷ ts,
          up (rw same refl)
              (Climb-congr up_from (reparent v t up_from) above (reparent_congr ts apart)),
        )
        | inr other ↦ (i ∷ js, up (rw other e) d)
      ]

-- Where the rows of the first function have the same parents in the second, its climbs are there.
pub Climb-extend :
    (f g : Uuid → Option (Option Uuid)) {o : Option Uuid} {is : List Uuid}
    → ((i : Uuid) (p : Option Uuid) → f i ≡ some p → g i ≡ some p)
    → Climb f o is
    → Climb g o is
Climb-extend f g h top = top
Climb-extend f g h (up {i} {p} e c) = up (h i p e) (Climb-extend f g h c)

-- No row still to come has been visited.
abbrev pub Ahead : List Uuid → List Uuid → Type 0
Ahead visited is = All (λ i. contains i visited ≡ false) is

pub Ahead-cons :
    (u : Uuid) (visited is : List Uuid)
    → contains u is ≡ false
    → Ahead visited is
    → Ahead (u ∷ visited) is
Ahead-cons u visited [] fresh h = tt
Ahead-cons u visited (i ∷ is) fresh h =
    (ground (arith, fresh, h.0), Ahead-cons u visited is (ground (arith, fresh)) h.1)
