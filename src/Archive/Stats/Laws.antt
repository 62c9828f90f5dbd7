-- ===== src/Archive/Stats/Laws.antt =====
-- How the counts of the archive bound each other.
use vb_api.Prelude.{
  ◌≤◌, ◌≡◌, refl, sym, ◌∙◌, Uuid, Bool, true, false, List, [], ◌∷◌, map, filter, contains, Distinct,
  All, arith, Bool-cases, inl, inr, length-map, length-filter, ok, Distinct-length_le,
}
use vb_api.Archive.Store.{ArchiveFile, ArchiveStoreItem, ArchiveDb}
use vb_api.Archive.Trash.Rounds.{trashed_dir_ids_total}
use vb_api.Archive.Stats.{
  is_reachable, active_file_exists, ArchiveStats, stats_of, get_archive_stats,
}

abbrev pub item_ids : List ArchiveStoreItem → List Uuid
item_ids items = map (λ (t : ArchiveStoreItem). t.id) items

-- The store items that the files refer to.
abbrev referred : List ArchiveFile → List Uuid
referred files = map (λ (f : ArchiveFile). f.archive_store_item_id) files

module _ (under_trash : List Uuid) where
  active-referred :
      (files : List ArchiveFile) (t : ArchiveStoreItem)
      → active_file_exists under_trash files t
        ≡ contains t.id (referred (filter (is_reachable under_trash) files))
  unfolding active_file_exists
  active-referred [] t = refl
  active-referred (f ∷ files) t = elim (Bool-cases (is_reachable under_trash f)) [
    | inl here ↦ rw here (ground (arith, here, active-referred files t))
    | inr absent ↦ rw absent (ground (arith, absent, active-referred files t))
  ]

  active-Distinct :
      (test : ArchiveStoreItem → Bool) (items : List ArchiveStoreItem)
      → Distinct (item_ids items)
      → Distinct (item_ids (filter test items))
  active-Distinct test [] apart = tt
  active-Distinct test (t ∷ items) apart = elim (Bool-cases (test t)) [
    | inl kept ↦ rw kept (absent items apart.0, active-Distinct test items apart.1)
    | inr dropped ↦ rw dropped (active-Distinct test items apart.1)
  ]
    where
      absent :
          (rows : List ArchiveStoreItem)
          → contains t.id (item_ids rows) ≡ false
          → contains t.id (item_ids (filter test rows)) ≡ false
      absent [] h = refl
      absent (r ∷ rows) h = ground (arith, h, absent rows)

  active-contained :
      (files : List ArchiveFile) (items : List ArchiveStoreItem)
      → All
          (λ i. contains i (referred (filter (is_reachable under_trash) files)) ≡ true)
          (item_ids (filter (active_file_exists under_trash files) items))
  active-contained files [] = tt
  active-contained files (t ∷ items) = elim (Bool-cases (active_file_exists under_trash files t)) [
    | inl kept ↦ rw kept (sym (active-referred files t) ∙ kept, active-contained files items)
    | inr dropped ↦ rw dropped (active-contained files items)
  ]

  stats_of-le :
      (db : ArchiveDb)
      → Distinct (item_ids db.items)
      → (stats_of under_trash db).unique_object_count ≤ (stats_of under_trash db).file_count
  unfolding stats_of
  stats_of-le db apart =
      let objects = filter (active_file_exists under_trash db.files) db.items in
      let files = filter (is_reachable under_trash) db.files in
      omega (
        arith,
        length-filter (active_file_exists under_trash db.files) db.items,
        length-filter (is_reachable under_trash) db.files,
        length-map (λ (t : ArchiveStoreItem). t.id) objects,
        length-map (λ (f : ArchiveFile). f.archive_store_item_id) files,
        Distinct-length_le (item_ids objects) (referred files)
            (active-Distinct (active_file_exists under_trash db.files) db.items apart)
            (active-contained db.files db.items),
      )

-- `get_archive_stats` ends on every table, and it counts no more stored contents than files, as many
-- files can share one content but no file has two.
pub get_archive_stats-le :
    (db : ArchiveDb)
    → Distinct (item_ids db.items)
    → (stats : ArchiveStats) × (get_archive_stats db ≡ ok stats)
      × (stats.unique_object_count ≤ stats.file_count)
unfolding get_archive_stats
get_archive_stats-le db apart =
    let (under_trash, ends) = trashed_dir_ids_total db.dirs in
    (stats_of under_trash db, rw ends refl, stats_of-le under_trash db apart)
