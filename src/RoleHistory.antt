-- ===== src/RoleHistory.antt =====
-- app/services/role_history_service.py: the changes between two states of a member's roles, and the
-- entries of the history that they make. Actions are ordered by their values `granted`,
-- `period_changed` and `revoked`.
pub mod Dict
pub mod Changes
pub mod Diff
mod Tests
use vb_api.Prelude.{
  ℕ, Uuid, Text, Bool, true, false, not, ◌&&◌, ◌||◌, Option, none, some, List, [], ◌∷◌, ◌++◌, map,
  filter, find, is_none, ltb, text_eq, ◌==◌, if◌then◌else◌,
}
use vb_api.Calendar.{Date, date_lt, date_eq}
use vb_api.Archive.Permissions.{text_lt}

pub record RoleEntry : Type 0 where
  pub role_id : Text
  pub startdate : Date
  pub enddate : Option Date

pub data RoleAction : Type 0 where
  granted period_changed revoked : RoleAction

pub record RoleChange : Type 0 where
  pub action : RoleAction
  pub entry : RoleEntry
  pub previous_enddate : Option Date

-- The key `(e.role_id, e.startdate)` of both entries is the same.
unfoldable pub same_key : RoleEntry → RoleEntry → Bool
unfolding text_eq date_eq
same_key d e = text_eq d.role_id e.role_id && date_eq d.startdate e.startdate

-- `{(e.role_id, e.startdate): e for e in entries}`, in the order in which the keys came first.
unfoldable pub put_entry : RoleEntry → List RoleEntry → List RoleEntry
put_entry e [] = e ∷ []
put_entry e (d ∷ ds) = let rest = put_entry e ds in if same_key d e then e ∷ ds else d ∷ rest

unfoldable pub dict_onto : List RoleEntry → List RoleEntry → List RoleEntry
unfolding put_entry
dict_onto acc [] = acc
dict_onto acc (e ∷ es) = dict_onto (put_entry e acc) es

-- `d.get(key)` for the key of `e`.
unfoldable pub lookup : RoleEntry → List RoleEntry → Option RoleEntry
unfolding same_key
lookup e ds = find (λ (d : RoleEntry). same_key d e) ds

-- `a != b` on end dates
unfoldable pub same_end : Option Date → Option Date → Bool
same_end none none = true
same_end none (some b) = false
same_end (some a) none = false
same_end (some a) (some b) = date_eq a b

abbrev pub revocation : RoleEntry → RoleChange
revocation e = record { action = revoked; entry = e; previous_enddate = none }

abbrev pub grant : RoleEntry → RoleChange
grant e = record { action = granted; entry = e; previous_enddate = none }

-- The period change for an entry of `old` and what `new` has for its key.
unfoldable pub period_change : RoleEntry → Option RoleEntry → List RoleChange
unfolding same_end
period_change e none = []
period_change e (some f) =
    if same_end e.enddate f.enddate
    then []
    else record { action = period_changed; entry = f; previous_enddate = e.enddate } ∷ []

-- `[... for e in entries]`, with the changes that the body makes of one entry.
unfoldable pub per_entry : (RoleEntry → List RoleChange) → List RoleEntry → List RoleChange
per_entry g [] = []
per_entry g (e ∷ es) = g e ++ per_entry g es

-- The comprehensions of `diff_role_entries`, each for one entry.
unfoldable pub revocation_of : List RoleEntry → RoleEntry → List RoleChange
unfolding lookup
revocation_of new e = if is_none (lookup e new) then revocation e ∷ [] else []

unfoldable pub grant_of : List RoleEntry → RoleEntry → List RoleChange
unfolding lookup
grant_of old e = if is_none (lookup e old) then grant e ∷ [] else []

unfoldable pub period_change_of : List RoleEntry → RoleEntry → List RoleChange
unfolding period_change lookup
period_change_of new e = period_change e (lookup e new)

abbrev pub action_rank : RoleAction → ℕ
action_rank granted = 0
action_rank period_changed = 1
action_rank revoked = 2

-- `(role_id, startdate, action.value)` of the first before that of the second.
unfoldable pub change_lt : RoleChange → RoleChange → Bool
unfolding text_lt
change_lt c d =
    text_lt c.entry.role_id d.entry.role_id
    || (text_eq c.entry.role_id d.entry.role_id
        && (date_lt c.entry.startdate d.entry.startdate
            || (date_eq c.entry.startdate d.entry.startdate
                && ltb (action_rank c.action) (action_rank d.action))))

unfoldable pub insert_change : RoleChange → List RoleChange → List RoleChange
unfolding change_lt
insert_change c [] = c ∷ []
insert_change c (d ∷ ds) =
    let rest = insert_change c ds in if change_lt d c then d ∷ rest else c ∷ d ∷ ds

unfoldable pub sort_changes : List RoleChange → List RoleChange
unfolding insert_change
sort_changes [] = []
sort_changes (c ∷ cs) = insert_change c (sort_changes cs)

unfoldable pub diff_role_entries : List RoleEntry → List RoleEntry → List RoleChange
unfolding dict_onto per_entry revocation_of grant_of period_change_of sort_changes
diff_role_entries before after =
    let old = dict_onto [] before in
    let new = dict_onto [] after in
    sort_changes (
      per_entry (revocation_of new) old
      ++ per_entry (grant_of old) new
      ++ per_entry (period_change_of new) old)

-- `RoleAssignmentEvent`, without its id and its times.
pub record RoleEvent : Type 0 where
  pub member_id : Uuid
  pub role_id : Text
  pub action : RoleAction
  pub startdate : Date
  pub enddate : Option Date
  pub previous_enddate : Option Date
  pub actor_id : Option Uuid

unfoldable pub event_of : Uuid → Option Uuid → RoleChange → RoleEvent
event_of member_id actor_id c = record {
  member_id = member_id;
  role_id = c.entry.role_id;
  action = c.action;
  startdate = c.entry.startdate;
  enddate = c.entry.enddate;
  previous_enddate = c.previous_enddate;
  actor_id = actor_id;
}

unfoldable pub record_role_changes :
    Uuid → List RoleEntry → List RoleEntry → Option Uuid → List RoleEvent → List RoleEvent
unfolding diff_role_entries event_of
record_role_changes member_id before after actor_id events =
    events ++ map (event_of member_id actor_id) (diff_role_entries before after)
