-- ===== src/Archive/Store.antt =====
-- The tables of the archive (app/models/archive_dir.py, archive_permission.py, archive_file.py,
-- archive_store_item.py and archive_file_comment.py) and the member that asks. A time is a number
-- of microseconds. The columns that only the full-text search reads are left out.
use Prim.Native.String.{String}
use vb_api.Prelude.{ℕ, Uuid, Text, Bool, false, Option, none, some, List, find, ◌==◌}
use vb_api.Permissions.{has}

-- `ArchivePermission`, within the list of its directory.
pub record Grant : Type 0 where
  pub org_id : Text
  pub state_id : Text

pub record ArchiveDir : Type 0 where
  pub id : Uuid
  pub name : Text
  pub description : Option Text
  pub archive_dir_id : Option Uuid
  pub recursive_permissions : Option Bool
  pub created_at : ℕ
  pub updated_at : Option ℕ
  pub deleted_at : Option ℕ
  pub archive_permissions : List Grant

pub record ArchiveStoreItem : Type 0 where
  pub id : Uuid
  pub name : Text
  pub description : Option Text
  pub extension : Text
  pub mime_type : Text
  pub size : ℕ
  pub sha256_hash : Text
  pub created_by : Option Uuid
  pub created_at : ℕ

pub record ArchiveFile : Type 0 where
  pub id : Uuid
  pub archive_dir_id : Option Uuid
  pub description : Option Text
  pub archive_store_item_id : Uuid
  pub created_at : ℕ
  pub deleted_at : Option ℕ

pub record ArchiveFileComment : Type 0 where
  pub id : Uuid
  pub archive_file_id : Uuid
  pub content : Text
  pub created_by : Option Uuid
  pub created_at : ℕ
  pub deleted_at : Option ℕ

-- `_PermSets`: the ids of the organizations and the states.
pub record PermSets : Type 0 where
  pub orgs : List Text
  pub states : List Text

pub record ArchiveDb : Type 0 where
  pub dirs : List ArchiveDir
  pub files : List ArchiveFile
  pub items : List ArchiveStoreItem
  pub comments : List ArchiveFileComment
  pub sets : PermSets

-- The member that asks, with what `calculate_permissions` gives for it.
pub record ArchiveUser : Type 0 where
  pub id : Uuid
  pub org_id : Option Text
  pub state_id : Option Text
  pub permissions : List String

unfoldable pub is_archive_admin : ArchiveUser → Bool
is_archive_admin user = has "archiveAdmin" user.permissions

-- The truth value of a nullable flag.
abbrev pub is_set : Option Bool → Bool
is_set none = false
is_set (some b) = b

-- `db.get(ArchiveDir, i)`
abbrev pub get_dir : Uuid → List ArchiveDir → Option ArchiveDir
get_dir i dirs = find (λ (d : ArchiveDir). d.id == i) dirs

abbrev pub get_file : Uuid → List ArchiveFile → Option ArchiveFile
get_file i files = find (λ (f : ArchiveFile). f.id == i) files

abbrev pub get_item : Uuid → List ArchiveStoreItem → Option ArchiveStoreItem
get_item i items = find (λ (t : ArchiveStoreItem). t.id == i) items

-- `db.get(ArchiveDir, i) if i is not None else None`
abbrev pub get_parent : Option Uuid → List ArchiveDir → Option ArchiveDir
get_parent none dirs = none
get_parent (some i) dirs = get_dir i dirs

-- The exceptions, by their messages. `no_fuel` is no exception: it stands for a climb that does not
-- end.
pub data ArchiveError : Type 0 where
  not_admin no_insight dir_not_found parent_not_found target_not_found : ArchiveError
  not_in_trash dir_not_empty into_itself into_own_subtree no_fuel : ArchiveError
  unknown_permissions : List Text → ArchiveError
  file_not_found file_forbidden already_filed comment_not_found not_own_comment : ArchiveError
  no_extension bad_extension too_small too_large exists_already bad_description : ArchiveError
  integrity_error : ArchiveError
