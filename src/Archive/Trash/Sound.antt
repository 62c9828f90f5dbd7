-- ===== src/Archive/Trash/Sound.antt =====
-- What the query for the trash finds lies in the trash or below a row in the trash.
use mathlib.Core.Path.{subst}
use vb_api.Prelude.{
  ℕ, zero, suc, ◌≡◌, refl, Uuid, Bool, true, false, not, ◌&&◌, Option, none, some, List, [], ◌∷◌,
  ◌++◌, any, contains, All, arith, Bool-cases, inl, inr, ◌==◌, ==_iff,
}
use vb_api.Archive.Store.{ArchiveDir, get_dir}
use vb_api.Forest.{Climb, up}
use vb_api.Archive.Tree.{up_from}
use vb_api.Archive.Trash.{is_among, is_trashed, trashed_base, new_children, trash_rounds}

-- The row `i` is in the trash.
abbrev pub row_trashed : Option ArchiveDir → Bool
row_trashed none = false
row_trashed (some d) = is_trashed d

abbrev pub any_trashed : List ArchiveDir → List Uuid → Bool
any_trashed dirs is = any (λ i. row_trashed (get_dir i dirs)) is

-- The way from `i` to a root, on which a row is in the trash.
abbrev pub BelowTrash : List ArchiveDir → Uuid → Type 0
BelowTrash dirs i =
    (is : List Uuid) × Climb (up_from dirs) (some i) is × (any_trashed dirs is ≡ true)

-- Each row is the one that its id finds.
abbrev pub IsKeyed : List ArchiveDir → List ArchiveDir → Type 0
IsKeyed table rows = All (λ (d : ArchiveDir). get_dir d.id table ≡ some d) rows

pub All-contains :
    (P : Uuid → Type 0) (i : Uuid) (is : List Uuid) → contains i is ≡ true → All P is → P i
All-contains P i [] h each = cc
All-contains P i (j ∷ is) h each = elim (Bool-cases (j == i)) [
  | inl same ↦ subst P ((==_iff j i).0 same) each.0
  | inr other ↦ All-contains P i is (ground (arith, other, h)) each.1
]

-- The roots that a row in the trash has, where the table is a forest.
pub base_sound :
    (table rows : List ArchiveDir)
    → IsKeyed table rows
    → All (λ (d : ArchiveDir). (is : List Uuid) × Climb (up_from table) d.archive_dir_id is) rows
    → All (BelowTrash table) (trashed_base rows)
unfolding trashed_base
base_sound table [] keyed ways = tt
base_sound table (d ∷ rows) keyed ways =
    let rest = base_sound table rows keyed.1 ways.1 in
    elim (Bool-cases (is_trashed d && not (contains d.id (trashed_base rows)))) [
      | inl added ↦
          let (is, c) = ways.0 in
          rw added ((d.id ∷ is, up (rw keyed.0 refl) c, rw keyed.0 (ground (arith, added))), rest)
      | inr left ↦ rw left rest
    ]

among_below :
    (table : List ArchiveDir) (o : Option Uuid) (working : List Uuid)
    → All (BelowTrash table) working
    → is_among o working ≡ true
    → (is : List Uuid) × Climb (up_from table) o is × (any_trashed table is ≡ true)
among_below table none working below h = cc
among_below table (some i) working below h = All-contains (BelowTrash table) i working h below

child :
    (table : List ArchiveDir) (d : ArchiveDir) (working : List Uuid)
    → get_dir d.id table ≡ some d
    → All (BelowTrash table) working
    → is_among d.archive_dir_id working ≡ true
    → BelowTrash table d.id
child table d working found below among =
    let (is, c, trashed) = among_below table d.archive_dir_id working below among in
    (d.id ∷ is, up (rw found refl) c, ground (arith, trashed))

children_sound :
    (table rows : List ArchiveDir) (result working : List Uuid)
    → IsKeyed table rows
    → All (BelowTrash table) working
    → All (BelowTrash table) (new_children rows result working)
unfolding new_children
children_sound table [] result working keyed below = tt
children_sound table (d ∷ rows) result working keyed below =
    let rest = children_sound table rows result working keyed.1 below in
    elim (Bool-cases (
      is_among d.archive_dir_id working
      && not (contains d.id result)
      && not (contains d.id (new_children rows result working)))) [
        | inl added ↦ rw added (child table d working keyed.0 below (ground (arith, added)), rest)
        | inr left ↦ rw left rest
      ]

All-append : (P : Uuid → Type 0) (is js : List Uuid) → All P is → All P js → All P (is ++ js)
All-append P [] js p q = q
All-append P (i ∷ is) js p q = (p.0, All-append P is js p.1 q)

pub rounds_sound :
    (n : ℕ) (table : List ArchiveDir) (result working out : List Uuid)
    → IsKeyed table table
    → All (BelowTrash table) result
    → All (BelowTrash table) working
    → trash_rounds n table result working ≡ some out
    → All (BelowTrash table) out
unfolding trash_rounds
rounds_sound zero table result working out keyed below fresh h = cc
rounds_sound (suc n) table result [] out keyed below fresh h =
    subst (All (BelowTrash table)) (cc) below
rounds_sound (suc n) table result (w ∷ working) out keyed below fresh h =
    let next = new_children table result (w ∷ working) in
    let sound = children_sound table table result (w ∷ working) keyed fresh in
    rounds_sound n table (result ++ next) next out keyed
      (All-append (BelowTrash table) result next below sound) sound h
