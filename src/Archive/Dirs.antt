-- ===== src/Archive/Dirs.antt =====
-- The operations on single directories: `create_dir`, `update_dir`, `delete_dir`, `purge_dir` and
-- `restore_dir`. `integrity_error` is the exception of the database where a
-- constraint refuses a statement: a foreign key, with `ON DELETE RESTRICT` or of a row that is
-- written, the unique grants of a directory, or a check on a length. An exception rolls the session back.
pub mod Forests
pub mod Rows
pub mod Grants
pub mod Errors
use vb_api.Prelude.{
  ℕ, Uuid, Text, Bool, true, false, not, ◌&&◌, ◌||◌, Option, none, some, List, [], ◌∷◌, ◌++◌,
  filter, any, all, length, ltb, leb, ◌==◌, is_id, is_none, text_eq, if◌then◌else◌, Result, ok, err,
  ◌>>=◌, ◌>>◌, raise_if,
}
use vb_api.Archive.Store.{
  Grant, ArchiveDir, ArchiveFile, PermSets, ArchiveDb, ArchiveUser, get_dir, get_file, ArchiveError,
  dir_not_found, parent_not_found, target_not_found, not_in_trash, dir_not_empty, into_itself,
  into_own_subtree, no_fuel, unknown_permissions, integrity_error,
}
use vb_api.Archive.Tree.{is_descendant}
use vb_api.Archive.Permissions.{is_known, require_admin}

-- `DirSaveRequest`, after its validation.
pub record DirData : Type 0 where
  pub name : Text
  pub description : Option Text
  pub permissions : List Text
  pub recursive_permissions : Bool
  pub parent_id : Option Uuid

-- `perm.partition("_")`, its first and last part.
unfoldable pub partition : Text → Grant
partition [] = record { org_id = []; state_id = [] }
partition (x ∷ perm) =
    let rest = partition perm in
    if x == b'_'
    then record { org_id = []; state_id = perm }
    else record { org_id = x ∷ rest.org_id; state_id = rest.state_id }

-- `pairs` and `unknown` of `_parse_permissions`.
unfoldable pub known_pairs : PermSets → List Text → List Grant
unfolding partition
known_pairs sets [] = []
known_pairs sets (perm ∷ perms) =
    let rest = known_pairs sets perms in
    if is_known sets (partition perm) then partition perm ∷ rest else rest

unfoldable pub unknown_perms : PermSets → List Text → List Text
unfolding partition
unknown_perms sets [] = []
unknown_perms sets (perm ∷ perms) =
    let rest = unknown_perms sets perms in
    if is_known sets (partition perm) then rest else perm ∷ rest

abbrev pub pairs_unless : List Text → List Grant → Result ArchiveError (List Grant)
pairs_unless [] pairs = ok pairs
pairs_unless (perm ∷ perms) pairs = err (unknown_permissions (perm ∷ perms))

unfoldable pub parse_permissions : PermSets → List Text → Result ArchiveError (List Grant)
unfolding known_pairs unknown_perms
parse_permissions sets perms = pairs_unless (unknown_perms sets perms) (known_pairs sets perms)

-- The unique constraint on the grants of one directory.
abbrev pub same_grant : Grant → Grant → Bool
same_grant p q = text_eq p.org_id q.org_id && text_eq p.state_id q.state_id

unfoldable pub is_repeated : List Grant → Bool
is_repeated [] = false
is_repeated (p ∷ ps) = any (same_grant p) ps || is_repeated ps

-- `description IS NULL OR char_length(description) <= 128`
abbrev pub fits_128 : Option Text → Bool
fits_128 none = true
fits_128 (some t) = leb (length t) 128

-- The checks of the table on a row to be written, and those of its grants, whose foreign keys are
-- `org_id` and `state_id`.
unfoldable pub breaks_constraint : PermSets → ArchiveDir → Bool
unfolding is_repeated
breaks_constraint sets d =
    ltb (length d.name) 3
    || ltb 64 (length d.name)
    || not (fits_128 d.description)
    || is_repeated d.archive_permissions
    || not (all (is_known sets) d.archive_permissions)

-- The foreign key `archive_dir_id` of a row that is inserted.
abbrev pub breaks_parent_key : Option Uuid → List ArchiveDir → Bool
breaks_parent_key none dirs = false
breaks_parent_key (some i) dirs = is_none (get_dir i dirs)

-- The row `d` in place of the one with its id.
unfoldable pub store_dir : ArchiveDir → List ArchiveDir → List ArchiveDir
store_dir d [] = []
store_dir d (e ∷ dirs) = (if e.id == d.id then d else e) ∷ store_dir d dirs

unfoldable pub remove_dir : Uuid → List ArchiveDir → List ArchiveDir
remove_dir i dirs = filter (λ (d : ArchiveDir). not (d.id == i)) dirs

abbrev pub dir_or : ArchiveError → Option ArchiveDir → Result ArchiveError ArchiveDir
dir_or e none = err e
dir_or e (some d) = ok d

-- `if parent_id is not None` and the look-up of the row.
abbrev pub require_dir :
    ArchiveError → Option Uuid → List ArchiveDir → Result ArchiveError (Unit {0})
require_dir e none dirs = ok tt
require_dir e (some i) dirs = raise_if (is_none (get_dir i dirs)) e

unfoldable pub create_dir :
    Uuid → ℕ → DirData → ArchiveUser → ArchiveDb → Result ArchiveError (ArchiveDir × ArchiveDb)
unfolding require_admin parse_permissions breaks_constraint
create_dir new_id now input user db = do
  require_admin user
  require_dir parent_not_found input.parent_id db.dirs
  pairs ← parse_permissions db.sets input.permissions
  let d : ArchiveDir = record {
    id = new_id;
    name = input.name;
    description = input.description;
    archive_dir_id = input.parent_id;
    recursive_permissions = some input.recursive_permissions;
    created_at = now;
    updated_at = some now;
    deleted_at = none;
    archive_permissions = pairs;
  }
  raise_if (breaks_constraint db.sets d || breaks_parent_key d.archive_dir_id db.dirs)
      integrity_error
  ok (d, record db { dirs = db.dirs ++ d ∷ [] })

unfoldable pub update_dir :
    Uuid → DirData → ArchiveUser → ArchiveDb → Result ArchiveError (ArchiveDir × ArchiveDb)
unfolding require_admin parse_permissions breaks_constraint store_dir
update_dir dir_id input user db = do
  require_admin user
  d ← dir_or dir_not_found (get_dir dir_id db.dirs)
  pairs ← parse_permissions db.sets input.permissions
  let d' = record d {
    name = input.name;
    description = input.description;
    recursive_permissions = some input.recursive_permissions;
    archive_permissions = pairs;
  }
  raise_if (breaks_constraint db.sets d') integrity_error
  ok (d', record db { dirs = store_dir d' db.dirs })

-- `_dir_has_content`; the foreign keys of both tables refuse to delete such a row.
unfoldable pub dir_has_content : ArchiveDb → Uuid → Bool
dir_has_content db i =
    any (λ (d : ArchiveDir). is_id d.archive_dir_id i) db.dirs
    || any (λ (f : ArchiveFile). is_id f.archive_dir_id i) db.files

-- `db.delete(dir_obj)`
unfoldable pub delete_row : Uuid → ArchiveDb → Result ArchiveError ArchiveDb
unfolding dir_has_content remove_dir
delete_row i db = do
  raise_if (dir_has_content db i) integrity_error
  ok (record db { dirs = remove_dir i db.dirs })

unfoldable pub delete_dir : ℕ → Uuid → ArchiveUser → ArchiveDb → Result ArchiveError ArchiveDb
unfolding require_admin dir_has_content delete_row store_dir
delete_dir now dir_id user db = do
  require_admin user
  d ← dir_or dir_not_found (get_dir dir_id db.dirs)
  if dir_has_content db d.id
      then ok (record db { dirs = store_dir (record d { deleted_at = some now }) db.dirs })
      else delete_row d.id db

unfoldable pub purge_dir : Uuid → ArchiveUser → ArchiveDb → Result ArchiveError ArchiveDb
unfolding require_admin dir_has_content delete_row
purge_dir dir_id user db = do
  require_admin user
  d ← dir_or dir_not_found (get_dir dir_id db.dirs)
  raise_if (is_none d.deleted_at) not_in_trash
  raise_if (dir_has_content db d.id) dir_not_empty
  delete_row d.id db

unfoldable pub restore_dir : Uuid → ArchiveUser → ArchiveDb → Result ArchiveError ArchiveDb
unfolding require_admin store_dir
restore_dir dir_id user db = do
  require_admin user
  d ← dir_or dir_not_found (get_dir dir_id db.dirs)
  ok (record db { dirs = store_dir (record d { deleted_at = none }) db.dirs })
