-- ===== src/Archive/FileTests.antt =====
-- Runs of the operations on files of the archive.
use vb_api.Text.{is_blank}
use vb_api.Prelude.{
  text_eq, ◌++◌, ℕ, ◌≤◌, ◌≡◌, ◌≢◌, refl, Uuid, Text, Bool, true, false, not, ◌||◌, Option, none,
  some, List, [], ◌∷◌, All, Result, ok, err, contains, length, map, zero, suc, is_none, arith,
}
use vb_api.Archive.Store.{ArchiveFile, ArchiveStoreItem, ArchiveDb, get_item}
use vb_api.Archive.Files.Erasure.{Storage, HardDeleteOutcome, hard_delete_file, is_item_used}
use vb_api.Archive.Files.Erasure.Laws.{ItemsExist, hard_delete_file-ItemsExist}
use vb_api.Archive.Files.Upload.{UploadFile, Uploaded, is_upload_extension, upload_file}
use vb_api.Archive.Files.Upload.Bounds.{DistinctHashes, upload_file_lem}
use vb_api.Archive.Maintenance.{impact, to_candidate, sole}
use vb_api.Archive.Stats.{ArchiveStats, get_archive_stats}
use vb_api.Archive.Stats.Laws.{get_archive_stats-le}
use vb_api.Archive.Sample.{sample, own_upload, value_or, item, file, shared_file}

abbrev calm : Storage
calm = record { delete_fails = λ key. false; list_fails = λ key. false; list_keys = λ key. [] }

abbrev erased_db : ArchiveDb
erased_db = (hard_delete_file calm (b's' ∷ []) (b'c' ∷ []) own_upload sample).1

hard_delete_file-ItemsExist_example :
    ItemsExist erased_db.items erased_db.files
    × (is_none (get_item 21 erased_db.items) ≡ not (is_item_used 21 erased_db.files))
hard_delete_file-ItemsExist_example =
    hard_delete_file-ItemsExist calm (b's' ∷ []) (b'c' ∷ []) own_upload sample
      (refl, (refl, (refl, tt))) refl

get_archive_stats-le_example :
    (stats : ArchiveStats) × (get_archive_stats sample ≡ ok stats)
    × (stats.unique_object_count ≤ stats.file_count)
get_archive_stats-le_example = get_archive_stats-le sample (refl, (refl, tt))

-- 21 goes with its only file, and 20 stays for the other one.
item_gone : map (λ (t : ArchiveStoreItem). t.id) erased_db.items ≡ 20 ∷ []
unfolding hard_delete_file
item_gone = refl

-- A digest that keeps the content, and an upload of 2048 bytes.
abbrev ones : ℕ → List ℕ
ones zero = []
ones (suc n) = 1 ∷ ones n

abbrev upload : UploadFile
upload = record {
  filename = b'a' ∷ b'.' ∷ b'P' ∷ b'd' ∷ b'f' ∷ [];
  body = ones 2048;
  content_type = [];
}

abbrev uploaded : Uploaded × ArchiveDb
uploaded =
    value_or (record { key = []; content = []; item = item 0 []; file = file 0 none 0 }, sample)
      (upload_file (λ bytes. b'z' ∷ []) (b's' ∷ []) [] 30 31 9 upload (ones 5) 90 sample)

upload_file_lem_example :
    (uploaded.0.key ≡ b's' ∷ b'/' ∷ b'z' ∷ [])
    × (uploaded.0.content ≡ upload.body)
    × (uploaded.0.item.sha256_hash ≡ b'z' ∷ [])
    × (uploaded.1.items ≡ sample.items ++ uploaded.0.item ∷ [])
    × (uploaded.1.files ≡ sample.files ++ uploaded.0.file ∷ [])
    × (uploaded.0.file.archive_store_item_id ≡ uploaded.0.item.id)
    × (uploaded.0.file.archive_dir_id ≡ none)
    × (uploaded.1.dirs ≡ sample.dirs)
    × (uploaded.1.comments ≡ sample.comments)
    × (uploaded.0.item.size ≡ length upload.body)
    × (2048 ≤ uploaded.0.item.size)
    × (uploaded.0.item.size ≤ 10485760)
    × (5 ≤ length (ones 5))
    × (length (ones 5) ≤ 125)
    × (is_upload_extension uploaded.0.item.extension ≡ true)
    × DistinctHashes uploaded.1.items
unfolding upload_file vb_api.Prelude.text_eq vb_api.Text.lower
upload_file_lem_example =
    upload_file_lem (λ bytes. b'z' ∷ []) (b's' ∷ []) [] 30 31 9 upload (ones 5) 90 sample uploaded.1
      uploaded.0 (refl, (refl, tt)) refl

-- A storage with one thumbnail of each content.
abbrev cached : Storage
cached = record calm { list_keys = λ prefix. (prefix ++ b'1' ∷ []) ∷ [] }

abbrev trashed_file : ArchiveFile
trashed_file = record own_upload { deleted_at = some 8 }

abbrev trashed_item : ArchiveStoreItem
trashed_item = item 21 (b'k' ∷ [])

abbrev with_trash : ArchiveDb
with_trash = record sample { files = shared_file ∷ trashed_file ∷ file 12 (some 4) 20 ∷ [] }

-- What the deletion returns, and the tables that it leaves.
abbrev purged : HardDeleteOutcome × ArchiveDb
purged = hard_delete_file cached (b's' ∷ []) (b'c' ∷ []) trashed_file with_trash

object_deleted :
    purged.0.s3.deleted ≡ (b's' ∷ b'/' ∷ b'k' ∷ []) ∷ (b'c' ∷ b'/' ∷ b'k' ∷ b'.' ∷ b'1' ∷ []) ∷ []
unfolding hard_delete_file
object_deleted = refl

-- No other file has the content.
lost_content : impact (to_candidate with_trash trashed_file) ≡ sole
unfolding impact to_candidate
lost_content = refl
