-- ===== src/Archive/Search.antt =====
-- `search_archive`: the full-text search and, where it finds nothing, the one that tolerates typing
-- errors; both only show what the member may read. Whether a row matches the query and with which
-- rank is the database's and an argument.
pub mod Seen
pub mod Readable
use vb_api.Prelude.{
  ℕ, Uuid, Text, Bool, true, false, not, ◌&&◌, ◌||◌, Option, none, some, List, [], ◌∷◌, ◌++◌, map,
  filter, contains, length, take, leb, is_none, if◌then◌else◌, Result, ok, err, ◌>>=◌,
}
use vb_api.Archive.Store.{
  ArchiveDir, ArchiveFile, ArchiveDb, ArchiveUser, is_archive_admin, get_parent, ArchiveError,
}
use vb_api.Archive.Permissions.{can_insight}
use vb_api.Archive.Trash.{trashed_dir_ids}
use vb_api.Archive.Reading.{or_no_fuel}
use vb_api.Archive.Requests.{strip}
use vb_api.Archive.Ranking.{sort_desc}

abbrev pub search_limit : ℕ
search_limit = 50

abbrev pub fuzzy_min_query_length : ℕ
fuzzy_min_query_length = 3

-- A query to the tables: which rows match, and with which rank.
pub record Matcher : Type 0 where
  pub dir_matches : ArchiveDir → Bool
  pub dir_rank : ArchiveDir → ℕ
  pub file_matches : ArchiveFile → Bool
  pub file_rank : ArchiveFile → ℕ

pub data SearchHit : Type 0 where
  dir_hit : ArchiveDir → SearchHit
  file_hit : ArchiveFile → SearchHit

-- An entry of `ranked_results`.
pub record Ranked : Type 0 where
  pub rank : ℕ
  pub hit : SearchHit

-- `_search_dirs_exact` and `_search_dirs_fuzzy`
unfoldable pub search_dirs : Matcher → ArchiveDb → List ArchiveDir
unfolding sort_desc
search_dirs m db = take search_limit (
    sort_desc m.dir_rank
      (filter (λ (d : ArchiveDir). is_none d.deleted_at && m.dir_matches d) db.dirs))

-- `_search_files_exact` and `_search_files_fuzzy`
unfoldable pub search_files : Matcher → ArchiveDb → List ArchiveFile
unfolding sort_desc
search_files m db = take search_limit (
    sort_desc m.file_rank
      (filter (λ (f : ArchiveFile). is_none f.deleted_at && m.file_matches f) db.files))

-- `not (d.id in trashed or not can_insight(...))`
unfoldable pub may_see : ArchiveUser → ArchiveDb → List Uuid → ArchiveDir → Result ArchiveError Bool
unfolding can_insight
may_see user db trashed d =
    if contains d.id trashed then ok false else or_no_fuel (can_insight user db.sets db.dirs d)

-- `_collect_dir_hits`
unfoldable pub collect_dir_hits :
    Matcher
    → Bool
    → ArchiveUser
    → ArchiveDb
    → List Uuid
    → List ArchiveDir
    → Result ArchiveError (List Ranked)
unfolding may_see
collect_dir_hits m admin user db trashed [] = ok []
collect_dir_hits m admin user db trashed (d ∷ dirs) = do
  rest ← collect_dir_hits m admin user db trashed dirs
  seen ← if admin then ok true else may_see user db trashed d
  ok (if seen then record { rank = m.dir_rank d; hit = dir_hit d } ∷ rest else rest)

-- The test of `_collect_file_hits` on the directory of the file.
unfoldable pub may_see_parent :
    ArchiveUser → ArchiveDb → List Uuid → Option ArchiveDir → Result ArchiveError Bool
unfolding may_see
may_see_parent user db trashed none = ok false
may_see_parent user db trashed (some d) = may_see user db trashed d

-- `_collect_file_hits`
unfoldable pub collect_file_hits :
    Matcher
    → Bool
    → ArchiveUser
    → ArchiveDb
    → List Uuid
    → List ArchiveFile
    → Result ArchiveError (List Ranked)
unfolding may_see_parent
collect_file_hits m admin user db trashed [] = ok []
collect_file_hits m admin user db trashed (f ∷ files) = do
  rest ← collect_file_hits m admin user db trashed files
  seen ←
      if admin
      then ok true
      else may_see_parent user db trashed (get_parent f.archive_dir_id db.dirs)
  ok (if seen then record { rank = m.file_rank f; hit = file_hit f } ∷ rest else rest)

-- One stage: the hits in directories, then those in files.
unfoldable pub search_stage :
    Matcher → Bool → ArchiveUser → ArchiveDb → List Uuid → Result ArchiveError (List Ranked)
unfolding search_dirs search_files collect_dir_hits collect_file_hits
search_stage m admin user db trashed = do
  dirs ← collect_dir_hits m admin user db trashed (search_dirs m db)
  files ← collect_file_hits m admin user db trashed (search_files m db)
  ok (dirs ++ files)

abbrev pub found_nothing : List Ranked → Bool
found_nothing [] = true
found_nothing (_ ∷ _) = false

-- The trash matters to no admin.
unfoldable pub trash_for : Bool → ArchiveDb → Result ArchiveError (List Uuid)
unfolding trashed_dir_ids
trash_for true db = ok []
trash_for false db = or_no_fuel (trashed_dir_ids db.dirs)

-- `exact` is none where the query has no word (`build_prefix_tsquery_text` is empty).
unfoldable pub exact_stage :
    Option Matcher → Bool → ArchiveUser → ArchiveDb → List Uuid → Result ArchiveError (List Ranked)
unfolding search_stage
exact_stage none admin user db trashed = ok []
exact_stage (some m) admin user db trashed = search_stage m admin user db trashed

unfoldable pub search_archive :
    Option Matcher → Matcher → ArchiveUser → Text → ArchiveDb → Result ArchiveError (List SearchHit)
unfolding is_archive_admin trash_for exact_stage search_stage strip sort_desc
search_archive exact fuzzy user query db = do
  let admin = is_archive_admin user
  trashed ← trash_for admin db
  first ← exact_stage exact admin user db trashed
  ranked ←
      if found_nothing first && leb fuzzy_min_query_length (length (strip query))
      then search_stage fuzzy admin user db trashed
      else ok first
  ok (map (λ (r : Ranked). r.hit) (take search_limit (sort_desc (λ (r : Ranked). r.rank) ranked)))
