-- ===== src/Permissions/Tests.antt =====
-- Runs of the permission rules.
use text.Mathlib.Text.{◌==◌ as str_eq}
use vb_api.Prelude.{◌≡◌, refl, true, ◌&&◌, ◌||◌, none, some, [], ◌∷◌, any}
use vb_api.Calendar.{Date, date_le, date_lt}
use vb_api.Permissions.{
  has, is_listed, Role, MemberRole, RoleHolder, verified_email, is_active,
  permissions_conferred_by_role, calculate_permissions,
}
use vb_api.Permissions.Sources.{calculate_permissions_lem}

abbrev treasurer_role : Role
treasurer_role = record { id = "phil-xxxx"; group = some "philchc" }

abbrev admin_role : Role
admin_role = record { id = "internetreferent"; group = some "funktion" }

abbrev today : Date
today = record { year = 2024; month = 5; day = 17 }

-- The second role has ended.
abbrev treasurer : RoleHolder
treasurer = record {
  id = 4;
  org_id = some "vbw";
  email = some "t@example.org";
  email_verified = true;
  member_roles =
      record {
        role = treasurer_role;
        startdate = record { year = 2024; month = 1; day = 1 };
        enddate = none;
      }
      ∷ record {
        role = admin_role;
        startdate = record { year = 2020; month = 1; day = 1 };
        enddate = some today;
      }
      ∷ [];
}

treasurer_permissions :
    calculate_permissions none [] today treasurer
    ≡ "standesdbExport" ∷ "keylist" ∷ "p4xView" ∷ "p4xAdmin" ∷ []
unfolding calculate_permissions is_active date_le date_lt
treasurer_permissions = refl

calculate_permissions_lem_example :
    has "p4xAdmin" (calculate_permissions none ("t@example.org" ∷ []) today treasurer) ≡ (
      any
        (λ (mr : MemberRole).
          is_active today mr
          && has "p4xAdmin"
              (permissions_conferred_by_role ("t@example.org" ∷ []) mr.role treasurer.org_id))
        treasurer.member_roles
      || (str_eq "systemAdmin" "p4xAdmin"
          && is_listed (verified_email treasurer) ("t@example.org" ∷ [])))
calculate_permissions_lem_example =
    calculate_permissions_lem none ("t@example.org" ∷ []) today treasurer "p4xAdmin" refl
