-- ===== src/Archive/Search/Readable.antt =====
-- What the search finds, the member may read: the rules of the search, of the listings and of the
-- single files agree.
use mathlib.Core.Path.{subst}
use vb_api.Prelude.{
  ℕ, zero, suc, ◌≡◌, refl, ap, sym, ◌∙◌, Uuid, Text, Bool, true, false, ◌&&◌, Option, none, some,
  List, [], ◌∷◌, ◌++◌, map, filter, take, length, leb, All, All-map, All-filter, arith, Bool-cases,
  inl, inr, is_none, if◌then◌else◌, ok, bind_ok,
}
use vb_api.Archive.Store.{
  ArchiveDir, ArchiveFile, ArchiveDb, ArchiveUser, is_archive_admin, get_parent,
}
use vb_api.Archive.Requests.{strip}
use vb_api.Archive.Ranking.{sort_desc, All-sort_desc}
use vb_api.Archive.Search.Seen.{MayRead, seen_dir, seen_file}
use vb_api.Archive.Search.{
  search_limit, fuzzy_min_query_length, Matcher, SearchHit, dir_hit, file_hit, Ranked, search_dirs,
  search_files, may_see, collect_dir_hits, may_see_parent, collect_file_hits, search_stage,
  found_nothing, trash_for, exact_stage, search_archive,
}

All-take : {A : Type 0} (P : A → Type 0) (n : ℕ) (xs : List A) → All P xs → All P (take n xs)
All-take P zero xs each = tt
All-take P (suc n) [] each = tt
All-take P (suc n) (x ∷ xs) each = (each.0, All-take P n xs each.1)

module _ (user : ArchiveUser) (db : ArchiveDb) (trashed : List Uuid)
    (trash : trash_for (is_archive_admin user) db ≡ ok trashed) where
  abbrev AllRead : List Ranked → Type 0
  AllRead = All (λ (r : Ranked). MayRead user db r.hit)

  -- One more hit, kept or dropped.
  one_more :
      (r : Ranked) (seen : Bool) (rest out : List Ranked)
      → (seen ≡ true → MayRead user db r.hit)
      → AllRead rest
      → (if seen then r ∷ rest else rest) ≡ out
      → AllRead out
  one_more r true rest out read each h = subst AllRead h (read refl, each)
  one_more r false rest out read each h = subst AllRead h each

  collect_dir_hits-read :
      (m : Matcher) (dirs : List ArchiveDir) (out : List Ranked)
      → collect_dir_hits m (is_archive_admin user) user db trashed dirs ≡ ok out
      → AllRead out
  unfolding collect_dir_hits
  collect_dir_hits-read m [] out h = let same : [] ≡ out = cc in subst AllRead same tt
  collect_dir_hits-read m (d ∷ dirs) out h =
      let (rest, before, h1) =
        bind_ok (collect_dir_hits m (is_archive_admin user) user db trashed dirs) _ out h in
      let (seen, judged, h2) =
        bind_ok (if is_archive_admin user then ok true else may_see user db trashed d) _ out h1 in
      one_more (record { rank = m.dir_rank d; hit = dir_hit d }) seen rest out
        (λ kept. seen_dir user db trashed trash d (judged ∙ ap ok kept))
        (collect_dir_hits-read m dirs rest before) (cc)

  collect_file_hits-read :
      (m : Matcher) (files : List ArchiveFile) (out : List Ranked)
      → All (λ (f : ArchiveFile). is_none f.deleted_at ≡ true) files
      → collect_file_hits m (is_archive_admin user) user db trashed files ≡ ok out
      → AllRead out
  unfolding collect_file_hits
  collect_file_hits-read m [] out live h = let same : [] ≡ out = cc in subst AllRead same tt
  collect_file_hits-read m (f ∷ files) out live h =
      let (rest, before, h1) =
        bind_ok (collect_file_hits m (is_archive_admin user) user db trashed files) _ out h in
      let (seen, judged, h2) =
        bind_ok
          (if is_archive_admin user
            then ok true
            else may_see_parent user db trashed (get_parent f.archive_dir_id db.dirs))
          _ out h1 in
      one_more (record { rank = m.file_rank f; hit = file_hit f }) seen rest out
        (λ kept. seen_file user db trashed trash f live.0 (judged ∙ ap ok kept))
        (collect_file_hits-read m files rest live.1 before) (cc)

  search_files-live :
      (m : Matcher) → All (λ (f : ArchiveFile). is_none f.deleted_at ≡ true) (search_files m db)
  unfolding search_files
  search_files-live m =
      let test = λ (f : ArchiveFile). is_none f.deleted_at && m.file_matches f in
      let live = λ (f : ArchiveFile). is_none f.deleted_at ≡ true in
      All-take live search_limit (sort_desc m.file_rank (filter test db.files)) (
        All-sort_desc m.file_rank live (filter test db.files) (
          All-map (λ (f : ArchiveFile) (h : test f ≡ true). ground (arith, h))
            (filter test db.files) (All-filter test db.files)))

  AllRead-append : (rs ss : List Ranked) → AllRead rs → AllRead ss → AllRead (rs ++ ss)
  AllRead-append [] ss p q = q
  AllRead-append (r ∷ rs) ss p q = (p.0, AllRead-append rs ss p.1 q)

  search_stage-read :
      (m : Matcher) (out : List Ranked)
      → search_stage m (is_archive_admin user) user db trashed ≡ ok out
      → AllRead out
  unfolding search_stage
  search_stage-read m out h =
      let admin = is_archive_admin user in
      let (dirs, in_dirs, h1) =
        bind_ok (collect_dir_hits m admin user db trashed (search_dirs m db)) _ out h in
      let (files, in_files, h2) =
        bind_ok (collect_file_hits m admin user db trashed (search_files m db)) _ out h1 in
      let same : dirs ++ files ≡ out = cc in
      subst AllRead same (
        AllRead-append dirs files (collect_dir_hits-read m (search_dirs m db) dirs in_dirs)
          (collect_file_hits-read m (search_files m db) files (search_files-live m) in_files))

  exact_stage-read :
      (m : Option Matcher) (out : List Ranked)
      → exact_stage m (is_archive_admin user) user db trashed ≡ ok out
      → AllRead out
  unfolding exact_stage
  exact_stage-read none out h = let same : [] ≡ out = cc in subst AllRead same tt
  exact_stage-read (some m) out h = search_stage-read m out h

  -- The hits, ranked and cut off.
  hits-read :
      (ranked : List Ranked)
      → AllRead ranked
      → All (MayRead user db) (
          map
            (λ (r : Ranked). r.hit)
            (take search_limit (sort_desc (λ (r : Ranked). r.rank) ranked)))
  hits-read ranked each =
      let P = λ (r : Ranked). MayRead user db r.hit in
      hits (take search_limit (sort_desc (λ (r : Ranked). r.rank) ranked)) (
        All-take P search_limit (sort_desc (λ (r : Ranked). r.rank) ranked)
          (All-sort_desc (λ (r : Ranked). r.rank) P ranked each))
    where
      hits :
          (rs : List Ranked) → AllRead rs → All (MayRead user db) (map (λ (r : Ranked). r.hit) rs)
      hits [] p = tt
      hits (r ∷ rs) p = (p.0, hits rs p.1)

-- Every result of `search_archive`, of either stage, is one that the member may read: a directory
-- passes the guards of `get_dir_detail`, and a file the one of `_require_readable_file`.
pub search_archive-MayRead :
    (exact : Option Matcher) (fuzzy : Matcher) (user : ArchiveUser) (query : Text) (db : ArchiveDb)
    (hits : List SearchHit)
    → search_archive exact fuzzy user query db ≡ ok hits
    → All (MayRead user db) hits
unfolding search_archive
search_archive-MayRead exact fuzzy user query db hits h =
    let admin = is_archive_admin user in
    let (trashed, trash, h1) = bind_ok (trash_for admin db) _ hits h in
    let (first, found, h2) = bind_ok (exact_stage exact admin user db trashed) _ hits h1 in
    let again = found_nothing first && leb fuzzy_min_query_length (length (strip query)) in
    let (ranked, chosen, h3) =
      bind_ok (if again then search_stage fuzzy admin user db trashed else ok first) _ hits h2 in
    let read : All (λ (r : Ranked). MayRead user db r.hit) ranked = elim (Bool-cases again) [
      | inl fuzzily ↦
          search_stage-read user db trashed trash fuzzy ranked (sym (rw fuzzily refl) ∙ chosen)
      | inr exactly ↦
          let same : first ≡ ranked = ground (arith, exactly, chosen) in
          subst (All (λ (r : Ranked). MayRead user db r.hit)) same
            (exact_stage-read user db trashed trash exact first found)
    ] in
    let same : map (λ (r : Ranked). r.hit)
          (take search_limit (sort_desc (λ (r : Ranked). r.rank) ranked))
        ≡ hits =
      cc in
    subst (All (MayRead user db)) same (hits-read user db trashed trash ranked read)
