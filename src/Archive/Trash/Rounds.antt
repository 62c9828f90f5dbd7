-- ===== src/Archive/Trash/Rounds.antt =====
-- The rounds of the query for the trash end: each but the last adds a row.
use vb_api.Prelude.{
  ℕ, zero, suc, ◌+◌, ◌≤◌, ◌<◌, ◌≡◌, refl, ◌∙◌, Uuid, Bool, true, false, not, ◌&&◌, ◌||◌, some, List,
  [], ◌∷◌, ◌++◌, length, contains, Distinct, All, All-map, arith, Bool-cases, inl, inr, ◌==◌,
  ==_self, contains-append, length-append, Distinct-length_le,
}
use vb_api.Archive.Store.{ArchiveDir}
use vb_api.Archive.Tree.{dir_ids, enough}
use vb_api.Archive.Tree.Laws.{length-dir_ids}
use vb_api.Archive.Trash.{
  is_among, is_trashed, trashed_base, new_children, trash_rounds, trashed_dir_ids,
}

-- The ids are those of rows, and none of them is in `seen`.
abbrev pub New : List ArchiveDir → List Uuid → List Uuid → Type 0
New dirs seen is =
    Distinct is × All (λ i. (contains i (dir_ids dirs) && not (contains i seen)) ≡ true) is

New-more :
    (d : ArchiveDir) (dirs : List ArchiveDir) (seen is : List Uuid)
    → New dirs seen is
    → New (d ∷ dirs) seen is
New-more d dirs seen is (apart, each) = (
  apart,
  All-map (λ i (h : (contains i (dir_ids dirs) && not (contains i seen)) ≡ true). ground (arith, h))
      is each,
)

trashed_base-New : (dirs : List ArchiveDir) → New dirs [] (trashed_base dirs)
unfolding trashed_base
trashed_base-New [] = (tt, tt)
trashed_base-New (d ∷ dirs) =
    let (apart, each) = New-more d dirs [] (trashed_base dirs) (trashed_base-New dirs) in
    elim (Bool-cases (is_trashed d && not (contains d.id (trashed_base dirs)))) [
      | inl added ↦ rw added ((ground (arith, added), apart), (ground (arith, ==_self d.id), each))
      | inr left ↦ rw left (apart, each)
    ]

new_children-New :
    (dirs : List ArchiveDir) (result working : List Uuid)
    → New dirs result (new_children dirs result working)
unfolding new_children
new_children-New [] result working = (tt, tt)
new_children-New (d ∷ dirs) result working =
    let rest = new_children dirs result working in
    let (apart, each) = New-more d dirs result rest (new_children-New dirs result working) in
    elim (Bool-cases (
      is_among d.archive_dir_id working
      && not (contains d.id result)
      && not (contains d.id rest))) [
        | inl added ↦
            rw added ((ground (arith, added), apart), (ground (arith, added, ==_self d.id), each))
        | inr left ↦ rw left (apart, each)
      ]

-- Distinct ids of rows.
abbrev pub AreRows : List ArchiveDir → List Uuid → Type 0
AreRows dirs is = Distinct is × All (λ i. contains i (dir_ids dirs) ≡ true) is

New-absent :
    (dirs : List ArchiveDir) (r : Uuid) (result next : List Uuid)
    → All (λ i. (contains i (dir_ids dirs) && not (contains i (r ∷ result))) ≡ true) next
    → contains r next ≡ false
New-absent dirs r result [] each = refl
New-absent dirs r result (i ∷ next) each =
    ground (arith, each.0, New-absent dirs r result next each.1)

append-AreRows :
    (dirs : List ArchiveDir) (result next : List Uuid)
    → AreRows dirs result
    → New dirs result next
    → AreRows dirs (result ++ next)
append-AreRows dirs [] next rows (apart, each) = (
  apart,
  All-map (λ i (h : (contains i (dir_ids dirs) && not (contains i [])) ≡ true). ground (arith, h))
      next each,
)
append-AreRows dirs (r ∷ result) next rows (apart, each) =
    let less =
      All-map
        (λ i (h : (contains i (dir_ids dirs) && not (contains i (r ∷ result))) ≡ true).
          narrow i (contains i (dir_ids dirs)) (r == i) (contains i result) h)
        next each in
    let (distinct, inside) = append-AreRows dirs result next (rows.0.1, rows.1.1) (apart, less) in
    let absent = New-absent dirs r result next each in
    (
      (contains-append r result next ∙ ground (arith, rows.0.0, absent), distinct),
      (rows.1.0, inside),
    )
  where
    narrow : (i : Uuid) (a b c : Bool) → (a && not (b || c)) ≡ true → (a && not c) ≡ true
    narrow i a b c h = ground arith

last_round :
    (n : ℕ) (dirs : List ArchiveDir) (result : List Uuid)
    → 0 < n
    → trash_rounds n dirs result [] ≡ some result
unfolding trash_rounds
last_round zero dirs result lt = absurd (omega arith)
last_round (suc n) dirs result lt = refl

AreRows-length_le :
    (dirs : List ArchiveDir) (is : List Uuid) → AreRows dirs is → length is ≤ length dirs
AreRows-length_le dirs is (apart, inside) =
    omega (arith, length-dir_ids dirs, Distinct-length_le is (dir_ids dirs) apart inside)

trash_rounds_total :
    (n : ℕ) (dirs : List ArchiveDir) (result working : List Uuid)
    → AreRows dirs result
    → suc (length dirs) < n + length result
    → (out : List Uuid) × (trash_rounds n dirs result working ≡ some out)
unfolding trash_rounds
trash_rounds_total zero dirs result working rows lt =
    absurd (omega (arith, AreRows-length_le dirs result rows))
trash_rounds_total (suc n) dirs result [] rows lt = (result, refl)
trash_rounds_total (suc n) dirs result (w ∷ working) rows lt =
    go
      (λ next fresh longer.
        trash_rounds_total n dirs (result ++ next) next (append-AreRows dirs result next rows fresh)
          longer)
      (new_children dirs result (w ∷ working)) (new_children-New dirs result (w ∷ working))
  where
    go :
        ((next : List Uuid)
          → New dirs result next
          → suc (length dirs) < n + length (result ++ next)
          → (out : List Uuid) × (trash_rounds n dirs (result ++ next) next ≡ some out))
        → (next : List Uuid) → New dirs result next
        → (out : List Uuid) × (trash_rounds n dirs (result ++ next) next ≡ some out)
    go more [] fresh = (
      result ++ [],
      last_round n dirs (result ++ []) (omega (arith, AreRows-length_le dirs result rows)),
    )
    go more (c ∷ next) fresh =
        more (c ∷ next) fresh (omega (arith, length-append result (c ∷ next)))

-- The query ends on every table.
pub trashed_dir_ids_total :
    (dirs : List ArchiveDir) → (out : List Uuid) × (trashed_dir_ids dirs ≡ some out)
unfolding trashed_dir_ids
trashed_dir_ids_total dirs =
    trash_rounds_total (suc (enough dirs)) dirs (trashed_base dirs) (trashed_base dirs)
      (append-AreRows dirs [] (trashed_base dirs) (tt, tt) (trashed_base-New dirs)) (omega arith)
