-- ===== src/Archive/Reading.antt =====
-- Reads of the archive: `_require_readable_file`, the listings `get_root_content` and
-- `get_dir_detail`, and `get_file_detail`. A listing holds the rows that the dictionaries of
-- `_dir_short` and `_file_short` are made of, in the order of the table; the order by name, the sets
-- for the selection boxes and the statistics are left out.
pub mod Readable
use vb_api.Prelude.{
  ℕ, Uuid, Text, Bool, true, false, not, ◌&&◌, ◌||◌, Option, none, some, List, [], ◌∷◌, ◌++◌,
  filter, contains, is_id, is_none, ◌==◌, if◌then◌else◌, Result, ok, err, ◌>>=◌, ◌>>◌, raise_if,
}
use vb_api.Archive.Store.{
  ArchiveDir, ArchiveFile, ArchiveStoreItem, ArchiveFileComment, PermSets, ArchiveDb, ArchiveUser,
  is_archive_admin, get_dir, get_file, get_item, ArchiveError, dir_not_found, file_not_found,
  file_forbidden, no_fuel,
}
use vb_api.Archive.Tree.{PathEntry, build_path}
use vb_api.Archive.Permissions.{
  own_permissions, inherited_permissions, get_effective_permissions, can_insight,
  require_insight_or_admin, merged,
}
use vb_api.Archive.Trash.{is_trashed, trashed_dir_ids}
use vb_api.Archive.Dirs.{dir_or}

-- A loop whose fuel is enough has a value.
abbrev pub or_no_fuel {ℓ} : {A : Type ℓ} → Option A → Result ArchiveError A
or_no_fuel none = err no_fuel
or_no_fuel (some a) = ok a

-- `file_obj.store_item.created_by == user.id`
abbrev pub is_uploader : ArchiveUser → Option ArchiveStoreItem → Bool
is_uploader user none = false
is_uploader user (some item) = is_id item.created_by user.id

-- `_require_readable_file` for a file in a directory, after the look-up of the directory.
unfoldable pub require_readable_dir :
    ArchiveDb → ArchiveUser → Option ArchiveDir → Result ArchiveError (Unit {0})
unfolding trashed_dir_ids require_insight_or_admin
require_readable_dir db user none = err file_not_found
require_readable_dir db user (some d) = do
  trash ← or_no_fuel (trashed_dir_ids db.dirs)
  raise_if (contains d.id trash) file_not_found
  require_insight_or_admin user db.sets db.dirs d

-- `_require_readable_file` for a file that is not in the trash, by its directory.
unfoldable pub require_readable_in :
    ArchiveDb
    → Option ArchiveStoreItem
    → ArchiveUser
    → Bool
    → Option Uuid
    → Result ArchiveError (Unit {0})
unfolding require_readable_dir
require_readable_in db item user allow none =
    raise_if (not (allow && is_uploader user item)) file_forbidden
require_readable_in db item user allow (some i) = require_readable_dir db user (get_dir i db.dirs)

-- `allow` is `allow_unfiled_uploader`.
unfoldable pub require_readable_file :
    ArchiveDb → ArchiveFile → ArchiveUser → Bool → Result ArchiveError (Unit {0})
unfolding is_archive_admin require_readable_in
require_readable_file db f user allow =
    if is_archive_admin user
    then ok tt
    else (raise_if (not (is_none f.deleted_at)) file_not_found
        >> require_readable_in db (get_item f.archive_store_item_id db.items) user allow
            f.archive_dir_id)

-- The lists of one half of `_empty_content`.
pub record Bucket {ℓ} (A : Type ℓ) : Type ℓ where
  pub insight : List A
  pub admin : List A
  pub trashed : List A

pub data Place : Type 0 where
  in_insight in_admin in_trashed hidden : Place

abbrev pub place : Bool → Bool → Option ℕ → Place
place admin insight (some t) = if admin then in_trashed else hidden
place admin insight none = if insight then in_insight else if admin then in_admin else hidden

abbrev pub put {ℓ} : {A : Type ℓ} → Place → A → Bucket A → Bucket A
put in_insight a b = record b { insight = a ∷ b.insight }
put in_admin a b = record b { admin = a ∷ b.admin }
put in_trashed a b = record b { trashed = a ∷ b.trashed }
put hidden a b = b

abbrev pub empty_bucket {ℓ} : {A : Type ℓ} → Bucket A
empty_bucket = record { insight = []; admin = []; trashed = [] }

-- `_classify_dir`; the insight is asked for only if the directory is not in the trash.
unfoldable pub classify_dir :
    Bool
    → ArchiveUser
    → ArchiveDb
    → ArchiveDir
    → Bucket ArchiveDir
    → Result ArchiveError (Bucket ArchiveDir)
unfolding can_insight
classify_dir admin user db d bucket = do
  insight ← if is_trashed d then ok false else or_no_fuel (can_insight user db.sets db.dirs d)
  ok (put (place admin insight d.deleted_at) d bucket)

-- The loop over the directories of a listing, the last one first.
unfoldable pub list_dirs :
    Bool → ArchiveUser → ArchiveDb → List ArchiveDir → Result ArchiveError (Bucket ArchiveDir)
unfolding classify_dir
list_dirs admin user db [] = ok empty_bucket
list_dirs admin user db (d ∷ dirs) = list_dirs admin user db dirs >>= classify_dir admin user db d

-- The loop over the files of a listing.
unfoldable pub list_files : Bool → Bool → List ArchiveFile → Bucket ArchiveFile
list_files admin insight [] = empty_bucket
list_files admin insight (f ∷ files) =
    put (place admin insight f.deleted_at) f (list_files admin insight files)

pub record Content : Type 0 where
  pub subdirs : Bucket ArchiveDir
  pub files : Bucket ArchiveFile

unfoldable pub get_root_content : ArchiveUser → ArchiveDb → Result ArchiveError Content
unfolding is_archive_admin list_dirs list_files
get_root_content user db = do
  let admin = is_archive_admin user
  subdirs ← list_dirs admin user db (filter (λ (d : ArchiveDir). is_none d.archive_dir_id) db.dirs)
  ok (record {
    subdirs = subdirs;
    files =
        list_files admin false (filter (λ (f : ArchiveFile). is_none f.archive_dir_id) db.files);
  })

-- `_build_dir_detail_content`
unfoldable pub build_dir_detail_content :
    Bool → ArchiveUser → ArchiveDb → ArchiveDir → Result ArchiveError Content
unfolding list_dirs list_files can_insight
build_dir_detail_content admin user db d = do
  subdirs ←
      list_dirs admin user db (filter (λ (c : ArchiveDir). is_id c.archive_dir_id d.id) db.dirs)
  insight ← or_no_fuel (can_insight user db.sets db.dirs d)
  ok (record {
    subdirs = subdirs;
    files =
        list_files admin insight
          (filter (λ (f : ArchiveFile). is_id f.archive_dir_id d.id) db.files);
  })

pub record DirDetail : Type 0 where
  pub dir : ArchiveDir
  pub path : List PathEntry
  pub effective : List Text
  pub own : List Text
  pub parent : List Text
  pub content : Content

-- `not admin and dir_obj.id in _trashed_dir_ids(db)`
unfoldable pub refuse_trashed : Bool → ArchiveDb → ArchiveDir → Result ArchiveError (Unit {0})
unfolding trashed_dir_ids
refuse_trashed true db d = ok tt
refuse_trashed false db d = do
  trash ← or_no_fuel (trashed_dir_ids db.dirs)
  raise_if (contains d.id trash) dir_not_found

unfoldable pub get_dir_detail : Uuid → ArchiveUser → ArchiveDb → Result ArchiveError DirDetail
unfolding is_archive_admin refuse_trashed require_insight_or_admin build_dir_detail_content
    own_permissions inherited_permissions get_effective_permissions build_path
get_dir_detail dir_id user db = do
  d ← dir_or dir_not_found (get_dir dir_id db.dirs)
  let admin = is_archive_admin user
  refuse_trashed admin db d
  require_insight_or_admin user db.sets db.dirs d
  content ← build_dir_detail_content admin user db d
  let own = own_permissions db.sets d
  inherited ← or_no_fuel (inherited_permissions db.sets db.dirs d)
  effective ← or_no_fuel (merged own (some inherited))
  path ← or_no_fuel (build_path db.dirs d)
  ok (record {
    dir = d;
    path = path;
    effective = effective;
    own = if admin then own else [];
    parent = if admin then inherited else [];
    content = content;
  })
