-- ===== src/Archive/Receive.antt =====
-- Moves by clipboard: `receive_items`, `_receive_dirs` and `_receive_files`.
pub mod Forests
pub mod Ends
use vb_api.Prelude.{
  ℕ, Uuid, Text, Bool, true, false, Option, none, some, List, [], ◌∷◌, ◌==◌, is_id, if◌then◌else◌,
  Result, ok, err, ◌>>=◌, ◌>>◌, raise_if,
}
use vb_api.Archive.Store.{
  ArchiveDir, ArchiveFile, ArchiveDb, ArchiveUser, get_dir, ArchiveError, target_not_found,
  into_itself, into_own_subtree, no_fuel,
}
use vb_api.Archive.Tree.{is_descendant}
use vb_api.Archive.Permissions.{require_admin}
use vb_api.Archive.Dirs.{store_dir, require_dir}

-- `target_dir_id is not None and _is_descendant(db, target_dir_id, did)`
unfoldable pub target_below : Option Uuid → Uuid → List ArchiveDir → Option Bool
unfolding is_descendant
target_below none did dirs = some false
target_below (some t) did dirs = is_descendant dirs t did

abbrev pub refuse_below : Option Bool → Result ArchiveError (Unit {0})
refuse_below none = err no_fuel
refuse_below (some b) = raise_if b into_own_subtree

-- A round of the loop of `_receive_dirs`, after the look-up of the row.
unfoldable pub receive_dir :
    Option Uuid → Uuid → Option ArchiveDir → List ArchiveDir → Result ArchiveError (List ArchiveDir)
unfolding target_below store_dir
receive_dir target did none dirs = ok dirs
receive_dir target did (some d) dirs = do
  raise_if (is_id target did) into_itself
  refuse_below (target_below target did dirs)
  ok (store_dir (record d { archive_dir_id = target }) dirs)

unfoldable pub receive_dirs :
    Option Uuid → List Uuid → List ArchiveDir → Result ArchiveError (List ArchiveDir)
unfolding receive_dir
receive_dirs target [] dirs = ok dirs
receive_dirs target (did ∷ dids) dirs =
    receive_dir target did (get_dir did dirs) dirs >>= receive_dirs target dids

-- The rows of `_receive_files`: every row with one of the ids gets the directory.
unfoldable pub file_to : Option Uuid → Uuid → List ArchiveFile → List ArchiveFile
file_to target fid [] = []
file_to target fid (f ∷ files) =
    (if f.id == fid then record f { archive_dir_id = target } else f) ∷ file_to target fid files

unfoldable pub receive_files : Option Uuid → List Uuid → List ArchiveFile → List ArchiveFile
unfolding file_to
receive_files target [] files = files
receive_files target (fid ∷ fids) files = receive_files target fids (file_to target fid files)

-- `item_type`
pub data ItemType : Type 0 where
  dir_items file_items : ItemType

unfoldable pub receive_items :
    Option Uuid → ItemType → List Uuid → ArchiveUser → ArchiveDb → Result ArchiveError ArchiveDb
unfolding require_admin receive_dirs receive_files
receive_items target dir_items item_ids user db = do
  require_admin user
  require_dir target_not_found target db.dirs
  dirs ← receive_dirs target item_ids db.dirs
  ok (record db { dirs = dirs })
receive_items target file_items item_ids user db = do
  require_admin user
  require_dir target_not_found target db.dirs
  ok (record db { files = receive_files target item_ids db.files })
