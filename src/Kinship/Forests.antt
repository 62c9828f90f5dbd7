-- ===== src/Kinship/Forests.antt =====
-- The Leibverhaeltnisse stay a forest: `validate_parent_id` refuses every circle.
use mathlib.Core.Path.{subst}
use vb_api.Prelude.{
  ◌≡◌, refl, ap, sym, ◌∙◌, Uuid, Text, false, Option, none, some, List, [], ◌∷◌, ◌++◌, contains,
  All, All-map, All-find, arith, Bool-cases, Option-cases, inl, inr, ◌==◌, ==_iff, if◌then◌else◌,
  ok,
}
use vb_api.Forest.{Climb, top, up, Climb-extend, reparent, Climb-reparent}
use vb_api.Kinship.Laws.{
  parent_field, kin, IsKinForest, kin-row, get_member-id, is_self_or_ancestor_lem,
}
use vb_api.Kinship.{
  KinMember, get_member, check_circle, check_parent, validate_parent_id, store_kin,
}

-- A look-up in the table with the row `m` stored, after the one in the table.
abbrev stored : KinMember → Option KinMember → Option KinMember
stored m none = none
stored m (some _) = some m

get_member-store_kin :
    (m : KinMember) (members : List KinMember) (i : Uuid)
    → get_member i (store_kin m members)
      ≡ (if i == m.id then stored m (get_member i members) else get_member i members)
unfolding store_kin
get_member-store_kin m [] i = ground arith
get_member-store_kin m (k ∷ members) i = ground (arith, get_member-store_kin m members i)

kin-store_kin :
    (m k : KinMember) (members : List KinMember) (i : Uuid) (p : Option Uuid)
    → get_member m.id members ≡ some k
    → reparent m.id m.parent_id (kin members) i ≡ some p
    → kin (store_kin m members) i ≡ some p
unfolding reparent
kin-store_kin m k members i p found h = elim (Bool-cases (i == m.id)) [
  | inl same ↦
      let found' = ap (λ j. get_member j members) ((==_iff i m.id).0 same) ∙ found in
      ap parent_field
        (get_member-store_kin m members i ∙ ground (arith, same) ∙ ap (stored m) found')
      ∙ ground (arith, same, h)
  | inr other ↦
      let kept : get_member i (store_kin m members) ≡ get_member i members =
        get_member-store_kin m members i ∙ rw other refl in
      ap parent_field kept ∙ ground (arith, other, h)
]

All-store {κ} :
    (P : KinMember → Type κ) (m : KinMember) (members : List KinMember)
    → P m
    → All P members
    → All P (store_kin m members)
unfolding store_kin
All-store P m [] new each = tt
All-store P m (k ∷ members) new each = elim (Bool-cases (k.id == m.id)) [
  | inl same ↦ rw same (new, All-store P m members new each.1)
  | inr other ↦ rw other (each.0, All-store P m members new each.1)
]

-- A member stored with a parent whose walk does not meet the member.
pub store_kin-IsKinForest :
    (m k : KinMember) (members : List KinMember) (ts : List Uuid)
    → IsKinForest members
    → get_member m.id members ≡ some k
    → Climb (kin members) m.parent_id ts
    → contains m.id ts ≡ false
    → IsKinForest (store_kin m members)
store_kin-IsKinForest m k members ts forest found above apart =
    All-store
      (λ (r : KinMember). (is : List Uuid) × Climb (kin (store_kin m members)) r.parent_id is) m
      members (moved (ts, above))
      (All-map
        (λ (r : KinMember) (way : (is : List Uuid) × Climb (kin members) r.parent_id is). moved way)
        members forest)
  where
    moved :
        {o : Option Uuid}
        → ((is : List Uuid) × Climb (kin members) o is)
        → (js : List Uuid) × Climb (kin (store_kin m members)) o js
    moved (is, c) =
        let (js, c') = Climb-reparent (kin members) m.id m.parent_id above apart c in
        (
          js,
          Climb-extend (reparent m.id m.parent_id (kin members)) (kin (store_kin m members))
              (λ i p. kin-store_kin m k members i p found) c',
        )

kin-walk :
    (members : List KinMember) (i : Uuid) (m : KinMember)
    → IsKinForest members
    → get_member i members ≡ some m
    → (is : List Uuid) × Climb (kin members) (some i) is
kin-walk members i m forest found =
    let (is, c) =
      All-find (λ (r : KinMember). (is : List Uuid) × Climb (kin members) r.parent_id is)
        (λ (r : KinMember). r.id == i) members m found forest in
    (i ∷ is, up (rw found refl) c)

-- A parent that `validate_parent_id` lets through: its walk does not meet the member.
pub validate_parent_id-apart :
    (members : List KinMember) (parent_id : Option Uuid) (org_id : Text) (member_id : Uuid)
    → IsKinForest members
    → validate_parent_id members parent_id org_id (some member_id) ≡ ok tt
    → (ts : List Uuid) × Climb (kin members) parent_id ts × (contains member_id ts ≡ false)
unfolding validate_parent_id check_parent check_circle
validate_parent_id-apart members none org_id member_id forest h = ([], top, refl)
validate_parent_id-apart members (some p) org_id member_id forest h =
    elim (Option-cases (get_member p members)) [
      | inl gone ↦ absurd (ground (arith, gone, h))
      | inr (parent, found) ↦
          let (ts, c) = kin-walk members p parent forest found in
          let key = get_member-id p members parent found in
          let answer =
            is_self_or_ancestor_lem members parent member_id ts
              (ap (λ j. get_member j members) key ∙ found)
              (subst (λ j. Climb (kin members) (some j) ts) (sym key) c) in
          (ts, c, ground (arith, found, answer, h))
    ]

get_member-append :
    (members more : List KinMember) (i : Uuid) (m : KinMember)
    → get_member i members ≡ some m
    → get_member i (members ++ more) ≡ some m
get_member-append [] more i m h = cc
get_member-append (k ∷ members) more i m h = ground (arith, h, get_member-append members more i m)

pub append-IsKinForest :
    (members : List KinMember) (m : KinMember)
    → IsKinForest members
    → (is : List Uuid) × Climb (kin members) m.parent_id is
    → IsKinForest (members ++ m ∷ [])
append-IsKinForest members m forest way = last members (
    All-map
      (λ (r : KinMember) (w : (is : List Uuid) × Climb (kin members) r.parent_id is). longer w)
      members forest)
  where
    longer :
        {o : Option Uuid}
        → ((is : List Uuid) × Climb (kin members) o is)
        → (is : List Uuid) × Climb (kin (members ++ m ∷ [])) o is
    longer (is, c) = (
      is,
      Climb-extend (kin members) (kin (members ++ m ∷ []))
          (λ i p h.
            let (r, found, above) = kin-row (get_member i members) p h in
            rw (get_member-append members (m ∷ []) i r found) (ap some above))
          c,
    )

    last :
        (rows : List KinMember)
        → All
            (λ (r : KinMember). (is : List Uuid) × Climb (kin (members ++ m ∷ [])) r.parent_id is)
            rows
        → All
            (λ (r : KinMember). (is : List Uuid) × Climb (kin (members ++ m ∷ [])) r.parent_id is)
            (rows ++ m ∷ [])
    last [] each = (longer way, tt)
    last (r ∷ rows) each = (each.0, last rows each.1)

-- A parent that `validate_parent_id` lets through is none or a member.
pub validate_parent_id-walk :
    (members : List KinMember) (parent_id : Option Uuid) (org_id : Text)
    → IsKinForest members
    → validate_parent_id members parent_id org_id none ≡ ok tt
    → (ts : List Uuid) × Climb (kin members) parent_id ts
unfolding validate_parent_id check_parent
validate_parent_id-walk members none org_id forest h = ([], top)
validate_parent_id-walk members (some p) org_id forest h =
    elim (Option-cases (get_member p members)) [
      | inl gone ↦ absurd (ground (arith, gone, h))
      | inr (parent, found) ↦ kin-walk members p parent forest found
    ]
