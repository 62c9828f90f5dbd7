-- ===== src/Archive/Files/Erasure.antt =====
-- The one deletion that cannot be undone: `delete_unfiled_upload`, and `hard_delete_file` of
-- app/services/archive_store_cleanup.py, which removes the stored content that no other file
-- refers to. The storage is an argument: which keys it fails on, and what it lists.
pub mod Laws
pub mod Purged
use vb_api.Prelude.{
  ℕ, Uuid, Text, Bool, true, false, not, ◌&&◌, ◌||◌, Option, none, some, List, [], ◌∷◌, ◌++◌,
  filter, any, is_id, is_none, ◌==◌, if◌then◌else◌, Result, ok, err, ◌>>=◌, ◌>>◌, raise_if,
}
use vb_api.Archive.Store.{
  ArchiveStoreItem, ArchiveFile, ArchiveFileComment, ArchiveDb, ArchiveUser, get_file, get_item,
  ArchiveError, file_not_found, already_filed,
}
use vb_api.Archive.Reading.{is_uploader}
use vb_api.Archive.Files.{file_or_raise}

-- `StorageClient`: whether a call for a key or a prefix raises, and the keys with a prefix.
pub record Storage : Type 0 where
  pub delete_fails : Text → Bool
  pub list_fails : Text → Bool
  pub list_keys : Text → List Text

-- The keys deleted, and the keys and prefixes whose call failed.
pub record S3Outcome : Type 0 where
  pub deleted : List Text
  pub errors : List Text

-- `_delete_s3_key`
unfoldable pub delete_s3_key : Storage → Text → S3Outcome → S3Outcome
delete_s3_key storage key out =
    if storage.delete_fails key
    then record out { errors = out.errors ++ key ∷ [] }
    else record out { deleted = out.deleted ++ key ∷ [] }

unfoldable pub delete_s3_keys : Storage → List Text → S3Outcome → S3Outcome
unfolding delete_s3_key
delete_s3_keys storage [] out = out
delete_s3_keys storage (key ∷ keys) out =
    delete_s3_keys storage keys (delete_s3_key storage key out)

-- `store_path` and `cache_path` are the settings `S3_PATH_ARCHIVE_STORE` and `S3_PATH_ARCHIVE_CACHE`.
module _ (storage : Storage) (store_path cache_path : Text) where
  -- `_purge_s3_object`
  unfoldable pub purge_s3_object : Text → S3Outcome → S3Outcome
  unfolding delete_s3_keys
  purge_s3_object sha256_hash out =
      let out' = delete_s3_key storage (store_path ++ b'/' ∷ sha256_hash) out in
      let cache_prefix = cache_path ++ b'/' ∷ sha256_hash ++ b'.' ∷ [] in
      if storage.list_fails cache_prefix
      then record out' { errors = out'.errors ++ cache_prefix ∷ [] }
      else delete_s3_keys storage (storage.list_keys cache_prefix) out'

  unfoldable pub purge_s3_objects : List ArchiveStoreItem → S3Outcome → S3Outcome
  unfolding purge_s3_object
  purge_s3_objects [] out = out
  purge_s3_objects (item ∷ items) out =
      purge_s3_objects items (purge_s3_object item.sha256_hash out)

abbrev pub is_item_used : Uuid → List ArchiveFile → Bool
is_item_used item_id files = any (λ (f : ArchiveFile). f.archive_store_item_id == item_id) files

abbrev pub list_of : Option ArchiveStoreItem → List ArchiveStoreItem
list_of none = []
list_of (some item) = item ∷ []

-- `_delete_orphaned_store_items` for the one id that `hard_delete_file` passes: the rows deleted.
unfoldable pub orphaned_items : Uuid → ArchiveDb → List ArchiveStoreItem
orphaned_items item_id db =
    if is_item_used item_id db.files then [] else list_of (get_item item_id db.items)

-- The row of the file, with its comments (`ON DELETE CASCADE`).
unfoldable pub delete_file_row : ArchiveFile → ArchiveDb → ArchiveDb
delete_file_row f db = record db {
  files = filter (λ (g : ArchiveFile). not (g.id == f.id)) db.files;
  comments = filter (λ (c : ArchiveFileComment). not (c.archive_file_id == f.id)) db.comments;
}

abbrev pub is_listed_item : List ArchiveStoreItem → ArchiveStoreItem → Bool
is_listed_item items t = any (λ (s : ArchiveStoreItem). s.id == t.id) items

-- `HardDeleteOutcome`
pub record HardDeleteOutcome : Type 0 where
  pub store_item_deleted : Bool
  pub s3 : S3Outcome

abbrev pub is_nonempty : List ArchiveStoreItem → Bool
is_nonempty [] = false
is_nonempty (_ ∷ _) = true

module _ (storage : Storage) (store_path cache_path : Text) where
  unfoldable pub hard_delete_file : ArchiveFile → ArchiveDb → HardDeleteOutcome × ArchiveDb
  unfolding delete_file_row orphaned_items purge_s3_objects
  hard_delete_file f db =
      let db1 = delete_file_row f db in
      let orphaned = orphaned_items f.archive_store_item_id db1 in
      (
        record {
          store_item_deleted = is_nonempty orphaned;
          s3 =
              purge_s3_objects storage store_path cache_path orphaned
                (record { deleted = []; errors = [] });
        },
        record db1 {
          items = filter (λ (t : ArchiveStoreItem). not (is_listed_item orphaned t)) db1.items;
        },
      )

  -- `delete_unfiled_upload`
  unfoldable pub delete_unfiled_upload :
      Uuid → ArchiveUser → ArchiveDb → Result ArchiveError (HardDeleteOutcome × ArchiveDb)
  unfolding hard_delete_file
  delete_unfiled_upload file_id user db = do
    f ← file_or_raise (get_file file_id db.files)
    raise_if (not (is_uploader user (get_item f.archive_store_item_id db.items))) file_not_found
    raise_if (not (is_none f.archive_dir_id)) already_filed
    ok (hard_delete_file f db)
