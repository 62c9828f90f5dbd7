-- ===== src/Permissions/Additive.antt =====
-- Roles add up: what several roles give together, one of them gives alone.
use Prim.Native.String.{String}
use text.Mathlib.Text.{◌==◌ as str_eq}
use vb_api.Prelude.{
  ◌≡◌, refl, ◌∙◌, Bool, true, false, ◌&&◌, ◌||◌, Option, none, List, [], ◌∷◌, ◌++◌, filter, any,
  All, All-map, All-zip, if◌then◌else◌, arith,
}
use vb_api.Calendar.{Date}
use vb_api.Permissions.{
  has, MemberRole, PermissionRule, permission_rules, permissions_of, is_active, group_list,
  active_role_ids, active_role_groups,
}

has-append : (s : String) (xs ys : List String) → has s (xs ++ ys) ≡ (has s xs || has s ys)
has-append s [] ys = refl
has-append s (x ∷ xs) ys = ground (arith, has-append s xs ys)

-- Without an address, the rule is met by two sets of roles together exactly if one of them meets it,
-- and not without a role.
abbrev IsAdditive :
    Option String → List String → List String → List String → List String → PermissionRule → Type 0
IsAdditive org ids ids' groups groups' r =
    (r.condition (ids ++ ids') (groups ++ groups') org none
      ≡ (r.condition ids groups org none || r.condition ids' groups' org none))
    × (r.condition [] [] org none ≡ false)

permission_rules-IsAdditive :
    (emails : List String) (org : Option String) (ids ids' groups groups' : List String)
    → All (IsAdditive org ids ids' groups groups') (permission_rules emails)
unfolding permission_rules
permission_rules-IsAdditive emails org ids ids' groups groups' = ground (
  arith,
  has-append "internetreferent" ids ids',
  has-append "archivar2" ids ids',
  has-append "standesfuehrer" ids ids',
  has-append "phil-xxxx" ids ids',
  has-append "socialmediareferent" ids ids',
  has-append "chc" groups groups',
  has-append "philchc" groups groups',
)

if_active :
    (b : Bool) (i : String) (gs : List String) (org : Option String) (r : PermissionRule)
    → r.condition [] [] org none ≡ false
    → r.condition (if b then i ∷ [] else []) (if b then gs else []) org none
      ≡ (b && r.condition (i ∷ []) gs org none)
if_active true i gs org r h = refl
if_active false i gs org r h = h

-- The rule, for the roles of a member, without an address.
abbrev pub met_by_roles : Date → Option String → List MemberRole → PermissionRule → Bool
met_by_roles today org mrs r =
    r.condition (active_role_ids today mrs) (active_role_groups today mrs) org none

-- The rule, for one role alone.
abbrev pub met_by_role : Option String → PermissionRule → MemberRole → Bool
met_by_role org r mr = r.condition (mr.role.id ∷ []) (group_list mr.role.group) org none

module _ (today : Date) (emails : List String) (org : Option String) where
  pub rules-by_role :
      (mrs : List MemberRole)
      → All
          (λ (r : PermissionRule).
            met_by_roles today org mrs r
            ≡ any (λ (mr : MemberRole). is_active today mr && met_by_role org r mr) mrs)
          (permission_rules emails)
  unfolding active_role_ids active_role_groups
  rules-by_role [] =
      All-map (λ (r : PermissionRule) h. h.1) (permission_rules emails)
        (permission_rules-IsAdditive emails org [] [] [] [])
  rules-by_role (mr ∷ mrs) =
      All-zip
        {P = IsAdditive org (if is_active today mr then mr.role.id ∷ [] else [])
          (active_role_ids today mrs) (if is_active today mr then group_list mr.role.group else [])
          (active_role_groups today mrs)}
        (λ (r : PermissionRule) both rest.
          both.0
          ∙ rw
              (
                if_active (is_active today mr) mr.role.id (group_list mr.role.group) org r both.1,
                rest,
              )
              refl)
        (permission_rules emails)
        (permission_rules-IsAdditive emails org (if is_active today mr then mr.role.id ∷ [] else [])
          (active_role_ids today mrs) (if is_active today mr then group_list mr.role.group else [])
          (active_role_groups today mrs))
        (rules-by_role mrs)

pub any_none :
    (f : MemberRole → Bool) (mrs : List MemberRole) → any (λ mr. f mr && false) mrs ≡ false
any_none f [] = refl
any_none f (mr ∷ mrs) = ground (arith, any_none f mrs)

pub any_or :
    (f g h : MemberRole → Bool) (q : Bool) (mrs : List MemberRole)
    → any (λ mr. f mr && ((g mr && q) || h mr)) mrs
      ≡ ((any (λ mr. f mr && g mr) mrs && q) || any (λ mr. f mr && h mr) mrs)
any_or f g h q [] = refl
any_or f g h q (mr ∷ mrs) = ground (arith, any_or f g h q mrs)

pub has-permissions_of :
    (p : String) (c : PermissionRule → Bool) (r : PermissionRule) (rs : List PermissionRule)
    → has p (permissions_of (filter c (r ∷ rs)))
      ≡ ((c r && str_eq r.permission p) || has p (permissions_of (filter c rs)))
has-permissions_of p c r rs = ground arith
