-- ===== src/Permissions/Sources.antt =====
-- Where a permission comes from: the active roles, one by one, and the addresses of the server
-- configuration.
use Prim.Native.String.{String}
use text.Mathlib.Text.{◌==◌ as str_eq}
use vb_api.Prelude.{
  ◌≡◌, refl, ap, ◌∙◌, Uuid, Bool, true, false, ◌&&◌, ◌||◌, Option, List, [], ◌∷◌, filter, any, All,
  All-zip, is_id, arith,
}
use vb_api.Calendar.{Date}
use vb_api.Permissions.{
  has, is_listed, MemberRole, RoleHolder, PermissionRule, permission_rules, permissions_of,
  verified_email, is_active, active_role_ids, active_role_groups, permissions_conferred_by_role,
  calculate_permissions,
}
use vb_api.Permissions.Additive.{
  met_by_roles, met_by_role, rules-by_role, any_none, has-permissions_of,
}

abbrev is_system_admin : PermissionRule → Bool
is_system_admin r = str_eq r.permission "systemAdmin"

-- The rule for all that a member has.
abbrev met : Date → Option String → Option String → List MemberRole → PermissionRule → Bool
met today org email mrs r =
    r.condition (active_role_ids today mrs) (active_role_groups today mrs) org email

-- Only one rule looks at the address.
rules-by_email :
    (today : Date) (emails : List String) (org email : Option String) (mrs : List MemberRole)
    → All
        (λ (r : PermissionRule).
          met today org email mrs r
          ≡ (met_by_roles today org mrs r || (is_system_admin r && is_listed email emails)))
        (permission_rules emails)
unfolding permission_rules
rules-by_email today emails org email mrs = ground arith

by_role-cons :
    (today : Date) (p : String) (org : Option String) (r : PermissionRule)
    (rs : List PermissionRule) (mrs : List MemberRole)
    → any
        (λ (mr : MemberRole).
          is_active today mr
          && has p
              (permissions_of (filter (λ (q : PermissionRule). met_by_role org q mr) (r ∷ rs))))
        mrs
      ≡ ((any (λ (mr : MemberRole). is_active today mr && met_by_role org r mr) mrs
            && str_eq r.permission p)
          || any
              (λ (mr : MemberRole).
                is_active today mr
                && has p
                    (permissions_of (filter (λ (q : PermissionRule). met_by_role org q mr) rs)))
              mrs)
by_role-cons today p org r rs [] = refl
by_role-cons today p org r rs (mr ∷ mrs) =
    rw
      (
        has-permissions_of p (λ (q : PermissionRule). met_by_role org q mr) r rs,
        by_role-cons today p org r rs mrs,
      )
      (ground arith)

gathered :
    (today : Date) (p : String) (listed : Bool) (mrs : List MemberRole) (org : Option String)
    (c : PermissionRule → Bool) (rs : List PermissionRule)
    → All
        (λ (r : PermissionRule). c r ≡ (
          any (λ (mr : MemberRole). is_active today mr && met_by_role org r mr) mrs
          || (is_system_admin r && listed)))
        rs
    → has p (permissions_of (filter c rs)) ≡ (
        any
          (λ (mr : MemberRole).
            is_active today mr
            && has p (permissions_of (filter (λ (r : PermissionRule). met_by_role org r mr) rs)))
          mrs
        || (any (λ (r : PermissionRule). is_system_admin r && str_eq r.permission p) rs && listed))
gathered today p listed mrs org c [] h = rw (any_none (λ mr. is_active today mr) mrs) refl
gathered today p listed mrs org c (r ∷ rs) h =
    has-permissions_of p c r rs
    ∙ rw (h.0, gathered today p listed mrs org c rs h.1, by_role-cons today p org r rs mrs)
        (ground arith)

or_false : (b : Bool) → (b || false) ≡ b
or_false true = refl
or_false false = refl

-- `systemAdmin` is the permission of one rule.
system_admin_once :
    (p : String) (emails : List String)
    → any
        (λ (r : PermissionRule). is_system_admin r && str_eq r.permission p)
        (permission_rules emails)
      ≡ str_eq "systemAdmin" p
unfolding permission_rules
system_admin_once p emails = or_false (str_eq "systemAdmin" p)

-- A member other than the superuser has a permission exactly if one of the member's active roles alone
-- confers it in the member's organization, or it is `systemAdmin` and the member's verified address is
-- one of the server configuration.
pub calculate_permissions_lem :
    (superuser : Option Uuid) (emails : List String) (today : Date) (m : RoleHolder) (p : String)
    → is_id superuser m.id ≡ false
    → has p (calculate_permissions superuser emails today m) ≡ (
        any
          (λ (mr : MemberRole).
            is_active today mr && has p (permissions_conferred_by_role emails mr.role m.org_id))
          m.member_roles
        || (str_eq "systemAdmin" p && is_listed (verified_email m) emails))
unfolding calculate_permissions permissions_conferred_by_role
calculate_permissions_lem superuser emails today m p h =
    let listed = is_listed (verified_email m) emails in
    rw h (
      gathered today p listed m.member_roles m.org_id
        (met today m.org_id (verified_email m) m.member_roles) (permission_rules emails)
        (All-zip
          {P = λ (r : PermissionRule).
            met today m.org_id (verified_email m) m.member_roles r
            ≡ (met_by_roles today m.org_id m.member_roles r || (is_system_admin r && listed))}
          {Q = λ (r : PermissionRule).
            met_by_roles today m.org_id m.member_roles r
            ≡ any (λ (mr : MemberRole). is_active today mr && met_by_role m.org_id r mr)
                m.member_roles}
          (λ (r : PermissionRule) a b. a ∙ ap (λ c. c || (is_system_admin r && listed)) b)
          (permission_rules emails)
          (rules-by_email today emails m.org_id (verified_email m) m.member_roles)
          (rules-by_role today emails m.org_id m.member_roles))
      ∙ ap
          (λ b.
            any
              (λ (mr : MemberRole).
                is_active today mr && has p (permissions_conferred_by_role emails mr.role m.org_id))
              m.member_roles
            || (b && listed))
          (system_admin_once p emails))
