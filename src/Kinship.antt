-- ===== src/Kinship.antt =====
-- The Leibverhaeltnisse of app/services/standesdb_service.py: each member may have another one as
-- parent. `validate_parent_id` guards the parent that `create_member` and `update_member` of
-- app/services/standesdb_entry_service.py write; their other guards and columns are left out. The walk
-- up has fuel for two rows more than there are members.
pub mod Laws
pub mod Forests
pub mod Steps
mod Tests
use vb_api.Prelude.{
  ℕ, zero, suc, Uuid, Text, Bool, true, false, not, Option, none, some, List, [], ◌∷◌, ◌++◌, map,
  find, length, contains, is_none, text_eq, ◌==◌, if◌then◌else◌, Result, ok, err, ◌>>=◌, ◌>>◌,
  raise_if,
}

-- The columns of `Member` that the walk reads.
pub record KinMember : Type 0 where
  pub id : Uuid
  pub org_id : Option Text
  pub parent_id : Option Uuid

-- `no_fuel` is no exception: it stands for a walk that does not end.
pub data KinError : Type 0 where
  invalid_parent member_not_found no_fuel : KinError

abbrev pub get_member : Uuid → List KinMember → Option KinMember
get_member i members = find (λ (m : KinMember). m.id == i) members

abbrev pub parent_of : Option Uuid → List KinMember → Option KinMember
parent_of none members = none
parent_of (some i) members = get_member i members

-- The loop of `_is_self_or_ancestor`.
unfoldable pub ancestor_loop :
    ℕ → List KinMember → List Uuid → Option KinMember → Uuid → Option Bool
ancestor_loop zero members seen current member_id = none
ancestor_loop (suc n) members seen none member_id = some false
ancestor_loop (suc n) members seen (some m) member_id = elim (contains m.id seen) [
  | true ↦ some false
  | false ↦ elim (m.id == member_id) [
    | true ↦ some true
    | false ↦ ancestor_loop n members (m.id ∷ seen) (parent_of m.parent_id members) member_id
  ]
]

unfoldable pub is_self_or_ancestor : List KinMember → KinMember → Uuid → Option Bool
unfolding ancestor_loop
is_self_or_ancestor members start member_id =
    ancestor_loop (suc (suc (length members))) members [] (some start) member_id

abbrev pub refuse_circle : Option Bool → Result KinError (Unit {0})
refuse_circle none = err no_fuel
refuse_circle (some b) = raise_if b invalid_parent

-- `member_id and _is_self_or_ancestor(...)`: a new member has no id yet.
unfoldable pub check_circle : List KinMember → KinMember → Option Uuid → Result KinError (Unit {0})
unfolding is_self_or_ancestor
check_circle members parent none = ok tt
check_circle members parent (some i) = refuse_circle (is_self_or_ancestor members parent i)

-- `org_id` of a member equals the organization `o`.
abbrev pub is_org_id : Option Text → Text → Bool
is_org_id none o = false
is_org_id (some p) o = text_eq p o

-- `validate_parent_id`, after the look-up of the parent.
unfoldable pub check_parent :
    List KinMember → Text → Option Uuid → Option KinMember → Result KinError (Unit {0})
unfolding check_circle
check_parent members org_id member_id none = err invalid_parent
check_parent members org_id member_id (some parent) = do
  raise_if (not (is_org_id parent.org_id org_id)) invalid_parent
  check_circle members parent member_id

unfoldable pub validate_parent_id :
    List KinMember → Option Uuid → Text → Option Uuid → Result KinError (Unit {0})
unfolding check_parent
validate_parent_id members none org_id member_id = ok tt
validate_parent_id members (some p) org_id member_id =
    check_parent members org_id member_id (get_member p members)

-- The row `m` in place of the one with its id.
unfoldable pub store_kin : KinMember → List KinMember → List KinMember
store_kin m [] = []
store_kin m (k ∷ members) = (if k.id == m.id then m else k) ∷ store_kin m members

-- `create_member` and `update_member`, as far as they write the parent. The payload's organization
-- is the one that the row gets.
unfoldable pub create_kin :
    Uuid → Option Uuid → Text → List KinMember → Result KinError (List KinMember)
unfolding validate_parent_id
create_kin new_id parent_id org_id members = do
  validate_parent_id members parent_id org_id none
  ok (members ++ record { id = new_id; org_id = some org_id; parent_id = parent_id } ∷ [])

abbrev pub member_or_raise : Option KinMember → Result KinError KinMember
member_or_raise none = err member_not_found
member_or_raise (some m) = ok m

unfoldable pub update_kin :
    Uuid → Option Uuid → Text → List KinMember → Result KinError (List KinMember)
unfolding validate_parent_id store_kin
update_kin member_id parent_id org_id members = do
  m ← member_or_raise (get_member member_id members)
  validate_parent_id members parent_id org_id (some member_id)
  ok (store_kin (record m { org_id = some org_id; parent_id = parent_id }) members)
