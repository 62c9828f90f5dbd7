-- ===== src/Archive/Maintenance.antt =====
-- app/services/archive_maintenance_service.py: the operator's deletion and restoration of files in the
-- trash, with the impact of a deletion on the stored content. The display paths are left out.
pub mod Impact
use vb_api.Prelude.{
  ℕ, ◌-◌, Uuid, Text, Bool, true, false, not, ◌&&◌, Option, none, some, List, [], ◌∷◌, map, filter,
  count_if, ltb, ◌==◌, is_id, is_none, if◌then◌else◌, Result, ok, err, ◌>>=◌, ◌>>◌, raise_if,
}
use vb_api.Archive.Store.{ArchiveFile, ArchiveDb, get_file}
use vb_api.Archive.Files.{store_file}
use vb_api.Archive.Files.Erasure.{Storage, HardDeleteOutcome, hard_delete_file}

pub data PurgeImpact : Type 0 where
  duplicate shared sole : PurgeImpact

unfoldable pub classify_impact : ℕ → ℕ → PurgeImpact
classify_impact active_count other_deleted_count =
    if ltb 0 active_count then duplicate else if ltb 0 other_deleted_count then shared else sole

-- `PurgeCandidate`: the row, and the counts of the other files with its content.
pub record PurgeCandidate : Type 0 where
  pub file : ArchiveFile
  pub active_sibling_count : ℕ
  pub other_deleted_sibling_count : ℕ

-- `PurgeCandidate.impact`
unfoldable pub impact : PurgeCandidate → PurgeImpact
unfolding classify_impact
impact c = classify_impact c.active_sibling_count c.other_deleted_sibling_count

-- `ArchiveMaintenanceError`, by its messages.
pub data MaintenanceError : Type 0 where
  unknown_file not_deleted not_sole : MaintenanceError

-- The two counts of `_reference_counts` for one content.
unfoldable pub active_references : ArchiveDb → Uuid → ℕ
active_references db item_id =
    count_if (λ (f : ArchiveFile). f.archive_store_item_id == item_id && is_none f.deleted_at)
      db.files

unfoldable pub deleted_references : ArchiveDb → Uuid → ℕ
deleted_references db item_id =
    count_if (λ (f : ArchiveFile). f.archive_store_item_id == item_id && not (is_none f.deleted_at))
      db.files

-- `_to_candidate`; the file is in the trash, so that it counts among the deleted ones itself.
unfoldable pub to_candidate : ArchiveDb → ArchiveFile → PurgeCandidate
unfolding active_references deleted_references
to_candidate db f = record {
  file = f;
  active_sibling_count = active_references db f.archive_store_item_id;
  other_deleted_sibling_count = deleted_references db f.archive_store_item_id - 1;
}

-- `ORDER BY deleted_at`, rows of one time in the order of the table.
abbrev pub deletion_time : Option ℕ → ℕ
deletion_time none = 0
deletion_time (some t) = t

unfoldable pub insert_by_deletion : ArchiveFile → List ArchiveFile → List ArchiveFile
insert_by_deletion f [] = f ∷ []
insert_by_deletion f (g ∷ files) =
    let rest = insert_by_deletion f files in
    if ltb (deletion_time g.deleted_at) (deletion_time f.deleted_at)
    then g ∷ rest
    else f ∷ g ∷ files

unfoldable pub sort_by_deletion : List ArchiveFile → List ArchiveFile
unfolding insert_by_deletion
sort_by_deletion [] = []
sort_by_deletion (f ∷ files) = insert_by_deletion f (sort_by_deletion files)

unfoldable pub list_deleted_files : ArchiveDb → List PurgeCandidate
unfolding sort_by_deletion to_candidate
list_deleted_files db =
    map (to_candidate db)
      (sort_by_deletion (filter (λ (f : ArchiveFile). not (is_none f.deleted_at)) db.files))

unfoldable pub list_deleted_files_in_dir : Uuid → ArchiveDb → List PurgeCandidate
unfolding sort_by_deletion to_candidate
list_deleted_files_in_dir dir_id db = map (to_candidate db) (
    sort_by_deletion (
      filter (λ (f : ArchiveFile). is_id f.archive_dir_id dir_id && not (is_none f.deleted_at))
        db.files))

unfoldable pub is_still_duplicate : ArchiveDb → PurgeCandidate → Bool
unfolding active_references
is_still_duplicate db c = ltb 0 (active_references db c.file.archive_store_item_id)

-- `_get_soft_deleted_file`, after the look-up of `_get_file`.
abbrev pub soft_deleted : Option ArchiveFile → Result MaintenanceError ArchiveFile
soft_deleted none = err unknown_file
soft_deleted (some f) = if is_none f.deleted_at then err not_deleted else ok f

module _ (storage : Storage) (store_path cache_path : Text) where
  unfoldable pub purge_file :
      Uuid → ArchiveDb → Result MaintenanceError (HardDeleteOutcome × ArchiveDb)
  unfolding hard_delete_file
  purge_file file_id db = do
    f ← soft_deleted (get_file file_id db.files)
    ok (hard_delete_file storage store_path cache_path f db)

abbrev pub is_sole : PurgeImpact → Bool
is_sole sole = true
is_sole shared = false
is_sole duplicate = false

-- `restore_file` of the console.
unfoldable pub restore_sole_file : Uuid → ArchiveDb → Result MaintenanceError ArchiveDb
unfolding impact to_candidate store_file
restore_sole_file file_id db = do
  f ← soft_deleted (get_file file_id db.files)
  raise_if (not (is_sole (impact (to_candidate db f)))) not_sole
  ok (record db { files = store_file (record f { deleted_at = none }) db.files })

-- `_active_duplicates_for_store_items` for one content.
unfoldable pub active_duplicates : Uuid → ArchiveDb → List ArchiveFile
active_duplicates item_id db =
    filter (λ (f : ArchiveFile). f.archive_store_item_id == item_id && is_none f.deleted_at)
      db.files

-- `active_duplicates_of_file`
unfoldable pub active_duplicates_of_file :
    Uuid → ArchiveDb → Result MaintenanceError (List ArchiveFile)
unfolding active_duplicates
active_duplicates_of_file file_id db = of (get_file file_id db.files)
  where
    of : Option ArchiveFile → Result MaintenanceError (List ArchiveFile)
    of none = err unknown_file
    of (some f) = ok (
        filter (λ (g : ArchiveFile). not (g.id == file_id))
          (active_duplicates f.archive_store_item_id db))
