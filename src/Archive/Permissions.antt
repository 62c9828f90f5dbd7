-- ===== src/Archive/Permissions.antt =====
-- Who may look into a directory: `_own_permissions`, `_inherited_permissions`,
-- `get_effective_permissions`, `can_insight` and the guards. A permission is the text
-- `{org}_{state}`. The climb has fuel as in `Tree`.
pub mod Laws
use vb_api.Prelude.{
  ℕ, zero, suc, Uuid, Text, Bool, true, false, not, ◌&&◌, ◌||◌, Option, none, some, List, [], ◌∷◌,
  ◌++◌, map, any, ltb, ◌==◌, text_eq, if◌then◌else◌, Result, ok, err, raise_if,
}
use vb_api.Archive.Store.{
  Grant, ArchiveDir, PermSets, ArchiveUser, is_archive_admin, is_set, get_parent, ArchiveError,
  not_admin, no_insight, no_fuel,
}
use vb_api.Archive.Tree.{enough}

-- `t in texts`
abbrev pub has_text : Text → List Text → Bool
has_text t [] = false
has_text t (s ∷ texts) = text_eq s t || has_text t texts

-- `f"{org_id}_{state_id}"`
abbrev pub permission_key : Text → Text → Text
permission_key org_id state_id = org_id ++ b'_' ∷ state_id

abbrev pub is_known : PermSets → Grant → Bool
is_known sets p = has_text p.org_id sets.orgs && has_text p.state_id sets.states

abbrev pub grant_key : Grant → Text
grant_key p = permission_key p.org_id p.state_id

-- The loop of `_own_permissions`.
unfoldable pub own_loop : PermSets → List Grant → List Text → List Text
own_loop sets [] result = result
own_loop sets (p ∷ ps) result = own_loop sets ps (
    if is_known sets p && not (has_text (grant_key p) result)
    then result ++ grant_key p ∷ []
    else result)

unfoldable pub own_permissions : PermSets → ArchiveDir → List Text
unfolding own_loop
own_permissions sets d = own_loop sets d.archive_permissions []

-- The order of texts by their code points.
unfoldable pub text_lt : Text → Text → Bool
text_lt s [] = false
text_lt [] (y ∷ t) = true
text_lt (x ∷ s) (y ∷ t) = ltb x y || (x == y && text_lt s t)

-- A text put into a sorted list that holds each text once.
unfoldable pub insert_text : Text → List Text → List Text
unfolding text_lt
insert_text t [] = t ∷ []
insert_text t (s ∷ texts) =
    let rest = insert_text t texts in
    if text_eq s t then s ∷ texts else if text_lt t s then t ∷ s ∷ texts else s ∷ rest

-- `sorted(set(texts))`
unfoldable pub sorted_set : List Text → List Text
unfolding insert_text
sorted_set [] = []
sorted_set (t ∷ texts) = insert_text t (sorted_set texts)

-- The body of `get_effective_permissions`, after its two calls.
abbrev pub merged : List Text → Option (List Text) → Option (List Text)
merged own none = none
merged own (some inherited) = some (sorted_set (own ++ inherited))

-- `_inherited_permissions`, with the call of `get_effective_permissions` for the parent written out.
unfoldable pub inherited_loop :
    ℕ → PermSets → List ArchiveDir → Option ArchiveDir → Option (List Text)
unfolding own_permissions sorted_set
inherited_loop zero sets dirs parent = none
inherited_loop (suc n) sets dirs none = some []
inherited_loop (suc n) sets dirs (some p) =
    let above = inherited_loop n sets dirs (get_parent p.archive_dir_id dirs) in
    if is_set p.recursive_permissions then merged (own_permissions sets p) above else above

unfoldable pub inherited_permissions : PermSets → List ArchiveDir → ArchiveDir → Option (List Text)
unfolding inherited_loop
inherited_permissions sets dirs d =
    inherited_loop (enough dirs) sets dirs (get_parent d.archive_dir_id dirs)

unfoldable pub get_effective_permissions :
    PermSets → List ArchiveDir → ArchiveDir → Option (List Text)
unfolding own_permissions inherited_permissions sorted_set
get_effective_permissions sets dirs d =
    merged (own_permissions sets d) (inherited_permissions sets dirs d)

-- `str` of a nullable column
abbrev pub str_of : Option Text → Text
str_of none = b'N' ∷ b'o' ∷ b'n' ∷ b'e' ∷ []
str_of (some t) = t

abbrev pub user_key : ArchiveUser → Text
user_key user = permission_key (str_of user.org_id) (str_of user.state_id)

abbrev pub key_in : Text → Option (List Text) → Option Bool
key_in key none = none
key_in key (some keys) = some (has_text key keys)

unfoldable pub can_insight : ArchiveUser → PermSets → List ArchiveDir → ArchiveDir → Option Bool
unfolding get_effective_permissions
can_insight user sets dirs d = key_in (user_key user) (get_effective_permissions sets dirs d)

unfoldable pub require_admin : ArchiveUser → Result ArchiveError (Unit {0})
unfolding is_archive_admin
require_admin user = raise_if (not (is_archive_admin user)) not_admin

abbrev pub insight_or_raise : Option Bool → Result ArchiveError (Unit {0})
insight_or_raise none = err no_fuel
insight_or_raise (some b) = raise_if (not b) no_insight

unfoldable pub require_insight_or_admin :
    ArchiveUser → PermSets → List ArchiveDir → ArchiveDir → Result ArchiveError (Unit {0})
unfolding is_archive_admin can_insight
require_insight_or_admin user sets dirs d =
    if is_archive_admin user then ok tt else insight_or_raise (can_insight user sets dirs d)
