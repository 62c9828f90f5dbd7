-- ===== src/Kinship/Laws.antt =====
-- The walk up the Leibverhaeltnisse ends, and answers what it is asked.
use vb_api.Prelude.{
  ℕ, zero, suc, ◌≤◌, ◌<◌, ◌≡◌, refl, ap, sym, ◌∙◌, Uuid, true, Option, none, some, List, [], ◌∷◌,
  map, length, length-map, contains, Distinct-length_le, All, arith, Bool-cases, inl, inr, ◌==◌,
  ==_iff, find-some,
}
use vb_api.Forest.{Ahead, Ahead-cons, Climb, top, up, Climb-Distinct}
use vb_api.Kinship.{KinMember, get_member, parent_of, ancestor_loop, is_self_or_ancestor}

abbrev pub parent_field : Option KinMember → Option (Option Uuid)
parent_field none = none
parent_field (some m) = some m.parent_id

-- The parent function of the members.
abbrev pub kin : List KinMember → Uuid → Option (Option Uuid)
kin members i = parent_field (get_member i members)

abbrev member_ids : List KinMember → List Uuid
member_ids members = map (λ (m : KinMember). m.id) members

-- From every member the walk along the parents ends at one without a parent.
abbrev pub IsKinForest : List KinMember → Type 0
IsKinForest members =
    All (λ (m : KinMember). (is : List Uuid) × Climb (kin members) m.parent_id is) members

pub kin-row :
    (o : Option KinMember) (p : Option Uuid)
    → parent_field o ≡ some p
    → (m : KinMember) × (o ≡ some m) × (m.parent_id ≡ p)
kin-row none p e = cc
kin-row (some m) p e = (m, refl, cc)

pub get_member-id :
    (i : Uuid) (members : List KinMember) (m : KinMember) → get_member i members ≡ some m → m.id ≡ i
get_member-id i members m h =
    (==_iff m.id i).0 (find-some (λ (k : KinMember). k.id == i) members m h)

get_member-contains :
    (i : Uuid) (members : List KinMember) (m : KinMember)
    → get_member i members ≡ some m
    → contains i (member_ids members) ≡ true
get_member-contains i [] m h = cc
get_member-contains i (k ∷ members) m h = ground (arith, get_member-contains i members m)

kin-contained :
    (members : List KinMember) {o : Option Uuid} {is : List Uuid}
    → Climb (kin members) o is
    → All (λ i. contains i (member_ids members) ≡ true) is
kin-contained members top = tt
kin-contained members (up {i} {p} e c) =
    let (m, found, _) = kin-row (get_member i members) p e in
    (get_member-contains i members m found, kin-contained members c)

kin-length_le :
    (members : List KinMember) {o : Option Uuid} {is : List Uuid}
    → Climb (kin members) o is
    → length is ≤ length members
kin-length_le members {is = is} c = omega (
  arith,
  length-map (λ (m : KinMember). m.id) members,
  Distinct-length_le is (member_ids members) (Climb-Distinct (kin members) c)
      (kin-contained members c),
)

ancestor_loop_lem :
    (n : ℕ) (members : List KinMember) (seen : List Uuid) (v : Uuid) {o : Option Uuid}
    {is : List Uuid}
    → Climb (kin members) o is
    → Ahead seen is
    → length is < n
    → ancestor_loop n members seen (parent_of o members) v ≡ some (contains v is)
unfolding ancestor_loop
ancestor_loop_lem zero members seen v c h lt = absurd (omega arith)
ancestor_loop_lem (suc n) members seen v top h lt = refl
ancestor_loop_lem (suc n) members seen v (up {i} {p} {is} e c) h lt =
    let (m, found, above) = kin-row (get_member i members) p e in
    let key = get_member-id i members m found in
    let fresh = ap (λ j. contains j is) key ∙ (Climb-Distinct (kin members) (up e c)).0 in
    let here = ap (λ j. contains j seen) key ∙ h.0 in
    let same = ap (λ j. j == v) key in
    let rest =
      ancestor_loop_lem n members (m.id ∷ seen) v c (Ahead-cons m.id seen is fresh h.1)
        (omega arith) in
    rw (found, ancestor_loop)
      (rw here (elim (Bool-cases (m.id == v)) [
        | inl hit ↦ rw hit (ap some (ground (arith, same, hit)))
        | inr miss ↦ rw miss (rw above (rest ∙ ap some (ground (arith, same, miss))))
      ]))

-- Where the walk from a member ends, `_is_self_or_ancestor` ends and is the test whether the other
-- member is met on it.
pub is_self_or_ancestor_lem :
    (members : List KinMember) (start : KinMember) (member_id : Uuid) (is : List Uuid)
    → get_member start.id members ≡ some start
    → Climb (kin members) (some start.id) is
    → is_self_or_ancestor members start member_id ≡ some (contains member_id is)
unfolding is_self_or_ancestor
is_self_or_ancestor_lem members start v is found c =
    ap (λ o. ancestor_loop (suc (suc (length members))) members [] o v) (sym found)
    ∙ ancestor_loop_lem (suc (suc (length members))) members [] v c (unseen is)
        (omega (arith, kin-length_le members c))
  where
    unseen : (js : List Uuid) → Ahead [] js
    unseen [] = tt
    unseen (j ∷ js) = (refl, unseen js)
