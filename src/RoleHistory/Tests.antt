-- ===== src/RoleHistory/Tests.antt =====
-- Runs of the comparison: one role is revoked, one granted, and one gets an end date.
use vb_api.Prelude.{◌≡◌, refl, none, some, List, [], ◌∷◌}
use vb_api.Calendar.{Date}
use vb_api.RoleHistory.{RoleEntry, granted, period_changed, revoked, diff_role_entries}
use vb_api.RoleHistory.Dict.{last_of}
use vb_api.RoleHistory.Changes.{changes_for}
use vb_api.RoleHistory.Diff.{expected, diff_role_entries_lem}

abbrev start : Date
start = record { year = 2024; month = 3; day = 1 }

abbrev end : Date
end = record { year = 2024; month = 9; day = 1 }

abbrev senior : RoleEntry
senior = record { role_id = b's' ∷ []; startdate = start; enddate = none }

abbrev archivar : RoleEntry
archivar = record { role_id = b'a' ∷ []; startdate = start; enddate = none }

abbrev kassier : RoleEntry
kassier = record { role_id = b'k' ∷ []; startdate = start; enddate = none }

abbrev ended : RoleEntry
ended = record senior { enddate = some end }

abbrev before : List RoleEntry
before = senior ∷ kassier ∷ []

abbrev after : List RoleEntry
after = archivar ∷ ended ∷ []

changes :
    diff_role_entries before after
    ≡ record { action = granted; entry = archivar; previous_enddate = none }
      ∷ record { action = revoked; entry = kassier; previous_enddate = none }
      ∷ record { action = period_changed; entry = ended; previous_enddate = none }
      ∷ []
unfolding diff_role_entries vb_api.Calendar.date_lt
changes = refl

diff_role_entries_lem_example :
    changes_for senior (diff_role_entries before after)
    ≡ expected (last_of senior before) (last_of senior after)
diff_role_entries_lem_example = diff_role_entries_lem before after senior
