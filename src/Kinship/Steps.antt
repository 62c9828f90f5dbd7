-- ===== src/Kinship/Steps.antt =====
-- The changes of members as steps, and the forest that they keep.
use mathlib.Core.Path.{subst}
use vb_api.Prelude.{
  ◌≡◌, ap, sym, ◌∙◌, Uuid, Text, Option, none, some, List, [], ◌∷◌, ◌++◌, contains, arith,
  Option-cases, inl, inr, ok,
}
use vb_api.Kinship.Laws.{IsKinForest, get_member-id}
use vb_api.Kinship.Forests.{
  append-IsKinForest, validate_parent_id-walk, validate_parent_id-apart, store_kin-IsKinForest,
}
use vb_api.Kinship.{KinMember, get_member, validate_parent_id, store_kin, create_kin, update_kin}

-- A successful change of the members.
pub data KinStep (members members' : List KinMember) : Type 0 where
  created :
      (new_id : Uuid) (parent_id : Option Uuid) (org_id : Text)
      → create_kin new_id parent_id org_id members ≡ ok members'
      → KinStep members members'
  updated :
      (member_id : Uuid) (parent_id : Option Uuid) (org_id : Text)
      → update_kin member_id parent_id org_id members ≡ ok members'
      → KinStep members members'

create_kin_ok :
    (new_id : Uuid) (parent_id : Option Uuid) (org_id : Text) (members members' : List KinMember)
    → create_kin new_id parent_id org_id members ≡ ok members'
    → (validate_parent_id members parent_id org_id none ≡ ok tt)
      × (members'
          ≡ members ++ record { id = new_id; org_id = some org_id; parent_id = parent_id } ∷ [])
unfolding create_kin
create_kin_ok new_id parent_id org_id members members' h = ground arith

update_kin_ok :
    (member_id : Uuid) (parent_id : Option Uuid) (org_id : Text) (members members' : List KinMember)
    (m : KinMember)
    → get_member member_id members ≡ some m
    → update_kin member_id parent_id org_id members ≡ ok members'
    → (validate_parent_id members parent_id org_id (some member_id) ≡ ok tt)
      × (members' ≡ store_kin (record m { org_id = some org_id; parent_id = parent_id }) members)
unfolding update_kin
update_kin_ok member_id parent_id org_id members members' m found h = ground arith

update_kin-found :
    (member_id : Uuid) (parent_id : Option Uuid) (org_id : Text) (members members' : List KinMember)
    → update_kin member_id parent_id org_id members ≡ ok members'
    → (m : KinMember) × (get_member member_id members ≡ some m)
unfolding update_kin
update_kin-found member_id parent_id org_id members members' h =
    elim (Option-cases (get_member member_id members)) [
      | inl gone ↦ absurd (ground (arith, gone, h))
      | inr there ↦ there
    ]

-- Whichever parent `create_member` and `update_member` accept, nobody becomes an ancestor of oneself:
-- from every member the walk along existing parents still ends at one without a parent.
pub KinStep-IsKinForest :
    (members members' : List KinMember)
    → IsKinForest members
    → KinStep members members'
    → IsKinForest members'
KinStep-IsKinForest members members' forest (created new_id parent_id org_id h) =
    let (valid, written) = create_kin_ok new_id parent_id org_id members members' h in
    subst IsKinForest (sym written) (
      append-IsKinForest members
        (record { id = new_id; org_id = some org_id; parent_id = parent_id }) forest
        (validate_parent_id-walk members parent_id org_id forest valid))
KinStep-IsKinForest members members' forest (updated member_id parent_id org_id h) =
    let (m, found) = update_kin-found member_id parent_id org_id members members' h in
    let (valid, written) = update_kin_ok member_id parent_id org_id members members' m found h in
    let (ts, above, apart) =
      validate_parent_id-apart members parent_id org_id member_id forest valid in
    let key = get_member-id member_id members m found in
    subst IsKinForest (sym written) (
      store_kin-IsKinForest (record m { org_id = some org_id; parent_id = parent_id }) m members ts
        forest (ap (λ j. get_member j members) key ∙ found) above
        (ap (λ j. contains j ts) key ∙ apart))
