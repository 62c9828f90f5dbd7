-- ===== src/Archive/Tree/Laws.antt =====
-- The climbs up the tree of directories end, and answer what they are asked.
use vb_api.Prelude.{
  ℕ, zero, suc, ◌+◌, ◌≤◌, ◌<◌, ◌≡◌, refl, ap, sym, ◌∙◌, Uuid, Bool, true, false, Option, none, some,
  List, [], ◌∷◌, map, length, length-map, contains, Distinct, All, arith, Bool-cases, Option-cases,
  inl, inr, ◌==◌, ==_iff, is_id, Distinct-length_le, find-some,
}
use vb_api.Archive.Store.{ArchiveDir, get_dir, get_parent}
use vb_api.Forest.{Climb, top, up, Climb-Distinct}
use vb_api.Archive.Tree.{
  parent_column, up_from, dir_ids, enough, PathEntry, path_loop, build_path, descendant_loop,
  is_descendant,
}

pub length-dir_ids : (dirs : List ArchiveDir) → length (dir_ids dirs) ≡ length dirs
length-dir_ids = length-map (λ (d : ArchiveDir). d.id)

pub get_dir-contains :
    (i : Uuid) (dirs : List ArchiveDir) (d : ArchiveDir)
    → get_dir i dirs ≡ some d
    → contains i (dir_ids dirs) ≡ true
get_dir-contains i [] d h = cc
get_dir-contains i (e ∷ dirs) d h = ground (arith, get_dir-contains i dirs d)

pub get_dir-id :
    (i : Uuid) (dirs : List ArchiveDir) (d : ArchiveDir) → get_dir i dirs ≡ some d → d.id ≡ i
get_dir-id i dirs d h = (==_iff d.id i).0 (find-some (λ (c : ArchiveDir). c.id == i) dirs d h)

row_of_column :
    (o : Option ArchiveDir) (p : Option Uuid)
    → parent_column o ≡ some p
    → (d : ArchiveDir) × (o ≡ some d) × (d.archive_dir_id ≡ p)
row_of_column none p e = cc
row_of_column (some d) p e = (d, refl, cc)

-- A row with a parent column is a row of the table.
pub up_from-row :
    (i : Uuid) (dirs : List ArchiveDir) (p : Option Uuid)
    → up_from dirs i ≡ some p
    → (d : ArchiveDir) × (get_dir i dirs ≡ some d) × (d.archive_dir_id ≡ p)
up_from-row i dirs p e = row_of_column (get_dir i dirs) p e

Climb-contained :
    (dirs : List ArchiveDir) {o : Option Uuid} {is : List Uuid}
    → Climb (up_from dirs) o is
    → All (λ i. contains i (dir_ids dirs) ≡ true) is
Climb-contained dirs top = tt
Climb-contained dirs (up {i} {p} e c) =
    let (d, found, _) = up_from-row i dirs p e in
    (get_dir-contains i dirs d found, Climb-contained dirs c)

-- A climb is no longer than the table.
pub Climb-length_le :
    (dirs : List ArchiveDir) {o : Option Uuid} {is : List Uuid}
    → Climb (up_from dirs) o is
    → length is ≤ length dirs
Climb-length_le dirs {is = is} c = omega (
  arith,
  length-dir_ids dirs,
  Distinct-length_le is (dir_ids dirs) (Climb-Distinct (up_from dirs) c) (Climb-contained dirs c),
)

abbrev pub entry_ids : List PathEntry → List Uuid
entry_ids path = map (λ (e : PathEntry). e.id) path

-- `is` in reverse order, then `js`.
abbrev pub reverse_onto : List Uuid → List Uuid → List Uuid
reverse_onto [] js = js
reverse_onto (i ∷ is) js = reverse_onto is (i ∷ js)

path_loop_lem :
    (n : ℕ) (dirs : List ArchiveDir) {o : Option Uuid} {is : List Uuid} (path : List PathEntry)
    → Climb (up_from dirs) o is
    → length is < n
    → (out : List PathEntry) × (path_loop n dirs (get_parent o dirs) path ≡ some out)
      × (entry_ids out ≡ reverse_onto is (entry_ids path))
unfolding path_loop
path_loop_lem zero dirs path c lt = absurd (omega arith)
path_loop_lem (suc n) dirs path top lt = (path, refl, refl)
path_loop_lem (suc n) dirs path (up {i} {p} {is} e c) lt =
    let (d, found, above) = up_from-row i dirs p e in
    let (out, ends, order) =
      path_loop_lem n dirs (record { id = d.id; name = d.name } ∷ path) c (omega arith) in
    (
      out,
      rw found (rw above ends),
      order ∙ ap (λ j. reverse_onto is (j ∷ entry_ids path)) (get_dir-id i dirs d found),
    )

-- `build_path` ends for a directory from which the climb reaches a root, and lists the rows of the
-- climb from the root down to the directory.
pub build_path_lem :
    (dirs : List ArchiveDir) (d : ArchiveDir) (is : List Uuid)
    → get_dir d.id dirs ≡ some d
    → Climb (up_from dirs) (some d.id) is
    → (path : List PathEntry) × (build_path dirs d ≡ some path)
      × (entry_ids path ≡ reverse_onto is [])
unfolding build_path
build_path_lem dirs d is found c =
    let (out, ends, order) =
      path_loop_lem (suc (enough dirs)) dirs [] c (omega (arith, Climb-length_le dirs c)) in
    (out, ap (λ o. path_loop (suc (enough dirs)) dirs o []) (sym found) ∙ ends, order)

descendant_loop_total :
    (n : ℕ) (dirs : List ArchiveDir) (visited : List Uuid) (o : Option Uuid) (v : Uuid)
    → Distinct visited
    → All (λ i. contains i (dir_ids dirs) ≡ true) visited
    → length dirs < n + length visited
    → (b : Bool) × (descendant_loop n dirs visited o v ≡ some b)
unfolding descendant_loop
descendant_loop_total zero dirs visited o v d h lt =
    absurd (omega (arith, length-dir_ids dirs, Distinct-length_le visited (dir_ids dirs) d h))
descendant_loop_total (suc n) dirs visited none v d h lt = (false, refl)
descendant_loop_total (suc n) dirs visited (some c) v d h lt =
    elim (Bool-cases (contains c visited)) [
      | inl again ↦ (false, rw (again, descendant_loop) refl)
      | inr fresh ↦ elim (Option-cases (get_dir c dirs)) [
        | inl gone ↦ (false, rw (fresh, descendant_loop) (rw gone refl))
        | inr (row, found) ↦ elim (Bool-cases (is_id row.archive_dir_id v)) [
          | inl hit ↦ (true, rw (fresh, descendant_loop) (rw found (rw hit refl)))
          | inr miss ↦
              let (b, ends) =
                descendant_loop_total n dirs (c ∷ visited) row.archive_dir_id v (fresh, d)
                  (get_dir-contains c dirs row found, h) (omega arith) in
              (b, rw (fresh, descendant_loop) (rw found (rw miss ends)))
        ]
      ]
    ]

-- `_is_descendant` ends on every table, also on one whose parents run in a circle.
pub is_descendant_total :
    (dirs : List ArchiveDir) (candidate_id ancestor_id : Uuid)
    → (b : Bool) × (is_descendant dirs candidate_id ancestor_id ≡ some b)
unfolding is_descendant
is_descendant_total dirs c v =
    descendant_loop_total (enough dirs) dirs [] (some c) v tt tt (omega arith)
