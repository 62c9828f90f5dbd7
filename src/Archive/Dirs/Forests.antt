-- ===== src/Archive/Dirs/Forests.antt =====
-- The operations on single directories keep the table a forest: from every row the climb along the
-- existing parents reaches a root.
use mathlib.Core.Path.{subst}
use vb_api.Prelude.{
  ◌≡◌, refl, ap, sym, ◌∙◌, Uuid, false, Option, none, some, List, [], ◌∷◌, contains, All, All-map,
  All-find, arith, Bool-cases, Option-cases, inl, inr, ◌==◌, ==_iff, if◌then◌else◌, ok,
}
use vb_api.Archive.Store.{ArchiveDir, ArchiveError, get_dir}
use vb_api.Forest.{Climb, top, up, Climb-Distinct, Climb-extend, reparent, Climb-reparent}
use vb_api.Archive.Tree.{parent_column, up_from}
use vb_api.Archive.Dirs.{store_dir, require_dir}

-- The climb from `o` reaches a root.
abbrev pub Reaches : List ArchiveDir → Option Uuid → Type 0
Reaches dirs o = (is : List Uuid) × Climb (up_from dirs) o is

abbrev pub IsForest : List ArchiveDir → Type 0
IsForest dirs = All (λ (d : ArchiveDir). Reaches dirs d.archive_dir_id) dirs

pub IsForest-row :
    (dirs : List ArchiveDir) (i : Uuid) (d : ArchiveDir)
    → IsForest dirs
    → get_dir i dirs ≡ some d
    → Reaches dirs (some i)
IsForest-row dirs i d forest found =
    let (is, c) =
      All-find (λ (e : ArchiveDir). Reaches dirs e.archive_dir_id) (λ (e : ArchiveDir). e.id == i)
        dirs d found forest in
    (i ∷ is, up (rw found refl) c)

-- Tables in which the rows of the first have the parents that they have there.
abbrev Extends : List ArchiveDir → List ArchiveDir → Type 0
Extends dirs dirs' =
    (i : Uuid) (p : Option Uuid) → up_from dirs i ≡ some p → up_from dirs' i ≡ some p

module _ (d : ArchiveDir) where
  All-store {κ} :
      (P : ArchiveDir → Type κ) (dirs : List ArchiveDir)
      → P d
      → All P dirs
      → All P (store_dir d dirs)
  unfolding store_dir
  All-store P [] new each = tt
  All-store P (e ∷ dirs) new each = elim (Bool-cases (e.id == d.id)) [
    | inl same ↦ rw same (new, All-store P dirs new each.1)
    | inr other ↦ rw other (each.0, All-store P dirs new each.1)
  ]

-- A look-up in the table with the row `d` stored, after the one in the table.
abbrev stored : ArchiveDir → Option ArchiveDir → Option ArchiveDir
stored d none = none
stored d (some _) = some d

get_dir-store_dir :
    (d : ArchiveDir) (dirs : List ArchiveDir) (i : Uuid)
    → get_dir i (store_dir d dirs)
      ≡ (if i == d.id then stored d (get_dir i dirs) else get_dir i dirs)
unfolding store_dir
get_dir-store_dir d [] i = ground arith
get_dir-store_dir d (e ∷ dirs) i = ground (arith, get_dir-store_dir d dirs i)

up_from-store_dir :
    (d e : ArchiveDir) (dirs : List ArchiveDir) (i : Uuid) (p : Option Uuid)
    → get_dir d.id dirs ≡ some e
    → reparent d.id d.archive_dir_id (up_from dirs) i ≡ some p
    → up_from (store_dir d dirs) i ≡ some p
unfolding reparent
up_from-store_dir d e dirs i p found h = elim (Bool-cases (i == d.id)) [
  | inl same ↦
      let found' = ap (λ j. get_dir j dirs) ((==_iff i d.id).0 same) ∙ found in
      ap parent_column (get_dir-store_dir d dirs i ∙ ground (arith, same) ∙ ap (stored d) found')
      ∙ ground (arith, same, h)
  | inr other ↦
      let kept : get_dir i (store_dir d dirs) ≡ get_dir i dirs =
        get_dir-store_dir d dirs i ∙ rw other refl in
      ap parent_column kept ∙ ground (arith, other, h)
]

pub store_dir-Reaches :
    (d e : ArchiveDir) (dirs : List ArchiveDir) (ts : List Uuid)
    → get_dir d.id dirs ≡ some e
    → Climb (up_from dirs) d.archive_dir_id ts
    → contains d.id ts ≡ false
    → {o : Option Uuid} → Reaches dirs o
    → Reaches (store_dir d dirs) o
store_dir-Reaches d e dirs ts found above apart (is, c) =
    let (js, c') = Climb-reparent (up_from dirs) d.id d.archive_dir_id above apart c in
    (
      js,
      Climb-extend (reparent d.id d.archive_dir_id (up_from dirs)) (up_from (store_dir d dirs))
          (λ i p. up_from-store_dir d e dirs i p found) c',
    )

-- A stored row keeps the forest if its parent's climb does not meet the row itself.
pub store_dir-IsForest :
    (d e : ArchiveDir) (dirs : List ArchiveDir) (ts : List Uuid)
    → IsForest dirs
    → get_dir d.id dirs ≡ some e
    → Climb (up_from dirs) d.archive_dir_id ts
    → contains d.id ts ≡ false
    → IsForest (store_dir d dirs)
store_dir-IsForest d e dirs ts forest found above apart =
    All-store d (λ (r : ArchiveDir). Reaches (store_dir d dirs) r.archive_dir_id) dirs
      (store_dir-Reaches d e dirs ts found above apart (ts, above))
      (All-map
        (λ (r : ArchiveDir) (way : Reaches dirs r.archive_dir_id).
          store_dir-Reaches d e dirs ts found above apart way)
        dirs forest)

-- A row that keeps its parent keeps the forest.
pub store_same_parent :
    (d e : ArchiveDir) (dirs : List ArchiveDir)
    → IsForest dirs
    → get_dir d.id dirs ≡ some e
    → d.archive_dir_id ≡ e.archive_dir_id
    → IsForest (store_dir d dirs)
store_same_parent d e dirs forest found same =
    let (is, c) =
      All-find (λ (r : ArchiveDir). Reaches dirs r.archive_dir_id)
        (λ (r : ArchiveDir). r.id == d.id) dirs e found forest in
    let c' = subst (λ o. Climb (up_from dirs) o is) (sym same) c in
    let whole : Climb (up_from dirs) (some d.id) (d.id ∷ is) = up (rw found refl) c in
    store_dir-IsForest d e dirs is forest found c' (Climb-Distinct (up_from dirs) whole).0

pub require_dir-Reaches :
    (e : ArchiveError) (o : Option Uuid) (dirs : List ArchiveDir)
    → IsForest dirs
    → require_dir e o dirs ≡ ok tt
    → Reaches dirs o
require_dir-Reaches e none dirs forest h = ([], top)
require_dir-Reaches e (some i) dirs forest h = elim (Option-cases (get_dir i dirs)) [
  | inl gone ↦ ground (arith, gone, h)
  | inr (d, found) ↦ IsForest-row dirs i d forest found
]
