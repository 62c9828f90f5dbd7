-- ===== src/Archive/Dirs/Rows.antt =====
-- A row added below an existing one, and a row removed that has none below it, keep the forest.
use vb_api.Prelude.{
  ◌≡◌, ◌≢◌, refl, ap, sym, Uuid, false, not, Option, some, List, [], ◌∷◌, ◌++◌, filter, any,
  contains, All, All-map, All-zip, All-find, arith, Bool-cases, inl, inr, ◌==◌, ==_self, is_id,
}
use vb_api.Archive.Store.{ArchiveDir, get_dir}
use vb_api.Forest.{Climb-congr, Climb-avoids, Climb-extend}
use vb_api.Archive.Tree.{parent_column, up_from}
use vb_api.Archive.Tree.Laws.{up_from-row}
use vb_api.Archive.Dirs.{remove_dir}
use vb_api.Archive.Dirs.Forests.{Reaches, IsForest}

get_dir-append :
    (dirs more : List ArchiveDir) (i : Uuid) (d : ArchiveDir)
    → get_dir i dirs ≡ some d
    → get_dir i (dirs ++ more) ≡ some d
get_dir-append [] more i d h = cc
get_dir-append (e ∷ dirs) more i d h = ground (arith, h, get_dir-append dirs more i d)

pub append-IsForest :
    (dirs : List ArchiveDir) (d : ArchiveDir)
    → IsForest dirs
    → Reaches dirs d.archive_dir_id
    → IsForest (dirs ++ d ∷ [])
append-IsForest dirs d forest way =
    All-append-one dirs
      (All-map (λ (r : ArchiveDir) (w : Reaches dirs r.archive_dir_id). longer w) dirs forest)
  where
    longer : {o : Option Uuid} → Reaches dirs o → Reaches (dirs ++ d ∷ []) o
    longer (is, c) = (
      is,
      Climb-extend (up_from dirs) (up_from (dirs ++ d ∷ []))
          (λ i p h.
            let (r, found, above) = up_from-row i dirs p h in
            rw (get_dir-append dirs (d ∷ []) i r found) (ap some above))
          c,
    )

    All-append-one :
        (rows : List ArchiveDir)
        → All (λ (r : ArchiveDir). Reaches (dirs ++ d ∷ []) r.archive_dir_id) rows
        → All (λ (r : ArchiveDir). Reaches (dirs ++ d ∷ []) r.archive_dir_id) (rows ++ d ∷ [])
    All-append-one [] each = (longer way, tt)
    All-append-one (r ∷ rows) each = (each.0, All-append-one rows each.1)

get_dir-remove_dir :
    (dirs : List ArchiveDir) (v i : Uuid)
    → (i == v) ≡ false
    → get_dir i (remove_dir v dirs) ≡ get_dir i dirs
unfolding remove_dir
get_dir-remove_dir [] v i other = refl
get_dir-remove_dir (d ∷ dirs) v i other = ground (arith, other, get_dir-remove_dir dirs v i other)

any-All :
    (dirs : List ArchiveDir) (v : Uuid)
    → any (λ (d : ArchiveDir). is_id d.archive_dir_id v) dirs ≡ false
    → All (λ (d : ArchiveDir). d.archive_dir_id ≢ some v) dirs
any-All [] v h = tt
any-All (d ∷ dirs) v h =
    (λ e. ground (arith, ap (λ o. is_id o v) e, ==_self v, h), any-All dirs v (ground (arith, h)))

pub remove_dir-IsForest :
    (dirs : List ArchiveDir) (v : Uuid)
    → IsForest dirs
    → any (λ (d : ArchiveDir). is_id d.archive_dir_id v) dirs ≡ false
    → IsForest (remove_dir v dirs)
unfolding remove_dir
remove_dir-IsForest dirs v forest none_below =
    let away = any-All dirs v none_below in All-filter dirs (All-zip kept dirs forest away)
  where
    childless : (i : Uuid) → up_from dirs i ≢ some (some v)
    childless i h =
        let (d, found, parent) = up_from-row i dirs (some v) h in
        All-find (λ (r : ArchiveDir). r.archive_dir_id ≢ some v) (λ (r : ArchiveDir). r.id == i)
          dirs d found (any-All dirs v none_below) parent

    agree :
        (is : List Uuid)
        → contains v is ≡ false
        → All (λ i. up_from dirs i ≡ up_from (remove_dir v dirs) i) is
    agree [] h = tt
    agree (i ∷ is) h = (
      ap parent_column (sym (get_dir-remove_dir dirs v i (ground (arith, h)))),
      agree is (ground (arith, h)),
    )

    kept :
        (r : ArchiveDir)
        → Reaches dirs r.archive_dir_id
        → r.archive_dir_id ≢ some v
        → Reaches (remove_dir v dirs) r.archive_dir_id
    kept r (is, c) other = (
      is,
      Climb-congr (up_from dirs) (up_from (remove_dir v dirs)) c
          (agree is (Climb-avoids (up_from dirs) v childless c other)),
    )

    All-filter :
        (rows : List ArchiveDir)
        → All (λ (r : ArchiveDir). Reaches (remove_dir v dirs) r.archive_dir_id) rows
        → All
            (λ (r : ArchiveDir). Reaches (remove_dir v dirs) r.archive_dir_id)
            (filter (λ (r : ArchiveDir). not (r.id == v)) rows)
    All-filter [] each = tt
    All-filter (r ∷ rows) each = elim (Bool-cases (r.id == v)) [
      | inl dropped ↦ rw dropped (All-filter rows each.1)
      | inr held ↦ rw held (each.0, All-filter rows each.1)
    ]
