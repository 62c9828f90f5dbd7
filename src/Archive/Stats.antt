-- ===== src/Archive/Stats.antt =====
-- `get_archive_stats`: the counts of the files, directories and stored contents that can be reached.
pub mod Laws
use vb_api.Prelude.{
  ℕ, ◌+◌, Uuid, Text, Bool, true, false, not, ◌&&◌, Option, none, some, List, [], ◌∷◌, map, filter,
  any, count_if, contains, is_none, ◌==◌, text_eq, if◌then◌else◌, Result, ok, ◌>>=◌,
}
use vb_api.Archive.Store.{ArchiveDir, ArchiveFile, ArchiveStoreItem, ArchiveDb, ArchiveError}
use vb_api.Archive.Permissions.{has_text}
use vb_api.Archive.Trash.{is_trashed, trashed_dir_ids}
use vb_api.Archive.Reading.{or_no_fuel}
use vb_api.Archive.Ranking.{sort_desc}

-- The sum of the sizes of the rows.
abbrev pub sum_size : List ArchiveStoreItem → ℕ
sum_size [] = 0
sum_size (t ∷ items) = t.size + sum_size items

-- `archive_dir_id IS NOT NULL AND archive_dir_id NOT IN (under_trash)`
abbrev pub is_filed : List Uuid → Option Uuid → Bool
is_filed under_trash none = false
is_filed under_trash (some i) = not (contains i under_trash)

unfoldable pub is_reachable : List Uuid → ArchiveFile → Bool
is_reachable under_trash f = is_none f.deleted_at && is_filed under_trash f.archive_dir_id

-- `active_file_exists`
unfoldable pub active_file_exists : List Uuid → List ArchiveFile → ArchiveStoreItem → Bool
unfolding is_reachable
active_file_exists under_trash files t =
    any (λ (f : ArchiveFile). f.archive_store_item_id == t.id && is_reachable under_trash f) files

pub record ExtensionCount : Type 0 where
  pub extension : Text
  pub count : ℕ
  pub size : ℕ

-- The groups of `GROUP BY extension`, each extension once.
unfoldable pub extensions : List ArchiveStoreItem → List Text
extensions [] = []
extensions (t ∷ items) =
    let rest = extensions items in if has_text t.extension rest then rest else t.extension ∷ rest

abbrev pub of_extension : Text → List ArchiveStoreItem → List ArchiveStoreItem
of_extension ext items = filter (λ (t : ArchiveStoreItem). text_eq t.extension ext) items

unfoldable pub by_extension : List ArchiveStoreItem → List ExtensionCount
unfolding extensions sort_desc
by_extension items =
    sort_desc (λ (c : ExtensionCount). c.count)
      (map
        (λ ext. record {
          extension = ext;
          count = count_if (λ (t : ArchiveStoreItem). text_eq t.extension ext) items;
          size = sum_size (of_extension ext items);
        })
        (extensions items))

pub record ArchiveStats : Type 0 where
  pub file_count : ℕ
  pub unique_object_count : ℕ
  pub dir_count : ℕ
  pub total_size : ℕ
  pub by_extension : List ExtensionCount

-- `under_trash` is the result of the recursive query.
unfoldable pub stats_of : List Uuid → ArchiveDb → ArchiveStats
unfolding is_reachable active_file_exists by_extension
stats_of under_trash db =
    let objects = filter (active_file_exists under_trash db.files) db.items in
    record {
      file_count = count_if (is_reachable under_trash) db.files;
      unique_object_count = count_if (active_file_exists under_trash db.files) db.items;
      dir_count =
          count_if (λ (d : ArchiveDir). not (is_trashed d) && not (contains d.id under_trash))
            db.dirs;
      total_size = sum_size objects;
      by_extension = by_extension objects;
    }

unfoldable pub get_archive_stats : ArchiveDb → Result ArchiveError ArchiveStats
unfolding trashed_dir_ids stats_of
get_archive_stats db = do
  under_trash ← or_no_fuel (trashed_dir_ids db.dirs)
  ok (stats_of under_trash db)
