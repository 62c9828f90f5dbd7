-- ===== src/Permissions.antt =====
-- The permissions of app/services/permission_service.py: rules over a member's active roles, the
-- organization and the verified address.
pub mod Additive
pub mod Sources
mod Tests
use Prim.Native.String.{String}
use text.Mathlib.Text.{◌==◌ as str_eq}
use vb_api.Prelude.{
  ℕ, Uuid, Bool, true, false, not, ◌&&◌, ◌||◌, Option, none, some, List, [], ◌∷◌, ◌++◌, map, filter,
  any, is_none, is_id, if◌then◌else◌,
}
use vb_api.Calendar.{Date, date_le, date_lt}

-- `s in names`
abbrev pub has : String → List String → Bool
has s names = any (λ t. str_eq t s) names

-- `org == s`
abbrev pub is_org : Option String → String → Bool
is_org none s = false
is_org (some o) s = str_eq o s

-- `email is not None and email in _system_admin_emails()`
abbrev pub is_listed : Option String → List String → Bool
is_listed none emails = false
is_listed (some e) emails = has e emails

-- `Role`
pub record Role : Type 0 where
  pub id : String
  pub group : Option String

-- `MemberRole`, with its role.
pub record MemberRole : Type 0 where
  pub role : Role
  pub startdate : Date
  pub enddate : Option Date

-- The columns of `Member` that the rules read.
pub record RoleHolder : Type 0 where
  pub id : Uuid
  pub org_id : Option String
  pub email : Option String
  pub email_verified : Bool
  pub member_roles : List MemberRole

-- `PermissionRule`: the condition takes role ids, role groups, the organization and the address.
pub record PermissionRule : Type 0 where
  pub permission : String
  pub condition : List String → List String → Option String → Option String → Bool

-- `PERMISSION_RULES`, for the addresses of the server configuration.
unfoldable pub permission_rules : List String → List PermissionRule
permission_rules emails =
    record {
      permission = "archiveAdmin";
      condition = λ rids groups org email.
          is_org org "vbw" && (has "internetreferent" rids || has "archivar2" rids);
    }
    ∷ record {
      permission = "systemAdmin";
      condition = λ rids groups org email.
          (has "internetreferent" rids && is_org org "vbw") || is_listed email emails;
    }
    ∷ record {
      permission = "standesdbContactAdmin";
      condition = λ rids groups org email. has "standesfuehrer" rids;
    }
    ∷ record {
      permission = "standesdbVbwAdmin";
      condition = λ rids groups org email.
          is_org org "vbw" && (has "standesfuehrer" rids || has "internetreferent" rids);
    }
    ∷ record {
      permission = "standesdbVbnAdmin";
      condition = λ rids groups org email. has "standesfuehrer" rids && is_org org "vbn";
    }
    ∷ record {
      permission = "standesdbExport";
      condition = λ rids groups org email.
          (has "chc" groups || has "philchc" groups) || has "standesfuehrer" rids;
    }
    ∷ record {
      permission = "keylist";
      condition = λ rids groups org email. has "chc" groups || has "philchc" groups;
    }
    ∷ record {
      permission = "p4xView";
      condition = λ rids groups org email. has "philchc" groups && is_org org "vbw";
    }
    ∷ record {
      permission = "p4xAdmin";
      condition = λ rids groups org email. has "phil-xxxx" rids && is_org org "vbw";
    }
    ∷ record {
      permission = "publicContentEditor";
      condition = λ rids groups org email.
          (has "internetreferent" rids || has "socialmediareferent" rids) && is_org org "vbw";
    }
    ∷ []

abbrev pub permissions_of : List PermissionRule → List String
permissions_of rules = map (λ (r : PermissionRule). r.permission) rules

-- `_verified_email`
unfoldable pub verified_email : RoleHolder → Option String
verified_email m = if m.email_verified then m.email else none

-- `mr.enddate is None or mr.enddate > today`
abbrev pub not_ended : Option Date → Date → Bool
not_ended none today = true
not_ended (some d) today = date_lt today d

unfoldable pub is_active : Date → MemberRole → Bool
is_active today mr = date_le mr.startdate today && not_ended mr.enddate today

-- `if role.group`: an empty group is none.
abbrev pub group_list : Option String → List String
group_list none = []
group_list (some g) = if str_eq g "" then [] else g ∷ []

-- `_active_roles`; only membership is asked of the two sets.
unfoldable pub active_role_ids : Date → List MemberRole → List String
active_role_ids today [] = []
active_role_ids today (mr ∷ mrs) =
    (if is_active today mr then mr.role.id ∷ [] else []) ++ active_role_ids today mrs

unfoldable pub active_role_groups : Date → List MemberRole → List String
active_role_groups today [] = []
active_role_groups today (mr ∷ mrs) =
    (if is_active today mr then group_list mr.role.group else []) ++ active_role_groups today mrs

-- `permissions_conferred_by_role`
unfoldable pub permissions_conferred_by_role : List String → Role → Option String → List String
unfolding permission_rules
permissions_conferred_by_role emails role org = permissions_of (
    filter (λ (r : PermissionRule). r.condition (role.id ∷ []) (group_list role.group) org none)
      (permission_rules emails))

-- `calculate_permissions`; `superuser` is `DEV_SUPERUSER_ID`. For that member the list is sorted,
-- which matters to no test of membership.
unfoldable pub calculate_permissions : Option Uuid → List String → Date → RoleHolder → List String
unfolding permission_rules verified_email active_role_ids active_role_groups
calculate_permissions superuser emails today m =
    if is_id superuser m.id
    then permissions_of (permission_rules emails)
    else permissions_of (
        filter
          (λ (r : PermissionRule).
            r.condition (active_role_ids today m.member_roles)
              (active_role_groups today m.member_roles) m.org_id (verified_email m))
          (permission_rules emails))
