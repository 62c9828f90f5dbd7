-- ===== src/Archive/Trash/Closed.antt =====
-- What the query for the trash finds is all that lies in the trash or below a row in the trash.
use mathlib.Core.Path.{subst}
use vb_api.Prelude.{
  ℕ, zero, suc, ◌≡◌, refl, ap, sym, ◌∙◌, Uuid, Bool, true, false, not, ◌&&◌, ◌||◌, Option, none,
  some, List, [], ◌∷◌, ◌++◌, contains, Distinct, All, All-map, All-zip, All-find, arith, Bool-cases,
  inl, inr, ◌==◌, ==_iff, ==_self, contains-append,
}
use vb_api.Archive.Store.{ArchiveDir, get_dir}
use vb_api.Forest.{Climb, top, up, Climb-unique}
use vb_api.Archive.Tree.{up_from, dir_ids, enough}
use vb_api.Archive.Tree.Laws.{up_from-row, get_dir-id, get_dir-contains}
use vb_api.Archive.Dirs.Forests.{IsForest}
use vb_api.Archive.Trash.{
  is_among, is_trashed, trashed_base, new_children, trash_rounds, trashed_dir_ids,
}
use vb_api.Archive.Trash.Rounds.{trashed_dir_ids_total}
use vb_api.Archive.Trash.Sound.{
  row_trashed, any_trashed, IsKeyed, All-contains, BelowTrash, base_sound, rounds_sound,
}

-- Every row in the trash is in `result`, and every row below `result` is in it too, or is below the
-- working table.
abbrev IsClosed : List ArchiveDir → List Uuid → List Uuid → Type 0
IsClosed rows result working =
    All
      (λ (d : ArchiveDir).
        ((not (is_trashed d) || contains d.id result)
          && (not (is_among d.archive_dir_id result)
              || is_among d.archive_dir_id working
              || contains d.id result))
        ≡ true)
      rows

base_complete :
    (rows : List ArchiveDir)
    → All
        (λ (d : ArchiveDir). (not (is_trashed d) || contains d.id (trashed_base rows)) ≡ true)
        rows
unfolding trashed_base
base_complete [] = tt
base_complete (d ∷ rows) = (
  ground (arith, ==_self d.id),
  All-map
      (λ (e : ArchiveDir) (h : (not (is_trashed e) || contains e.id (trashed_base rows)) ≡ true).
        ground (arith, h))
      rows (base_complete rows),
)

children_complete :
    (rows : List ArchiveDir) (result working : List Uuid)
    → All
        (λ (d : ArchiveDir).
          (not (is_among d.archive_dir_id working)
            || contains d.id result
            || contains d.id (new_children rows result working))
          ≡ true)
        rows
unfolding new_children
children_complete [] result working = tt
children_complete (d ∷ rows) result working = (
  ground (arith, ==_self d.id),
  All-map
      (λ (e : ArchiveDir)
          (h : (not (is_among e.archive_dir_id working)
              || contains e.id result
              || contains e.id (new_children rows result working))
            ≡ true).
        ground (arith, h))
      rows (children_complete rows result working),
)

is_among-append :
    (o : Option Uuid) (is js : List Uuid) → is_among o (is ++ js) ≡ (is_among o is || is_among o js)
is_among-append none is js = refl
is_among-append (some i) is js = contains-append i is js

step_closed :
    (t r a w n an : Bool)
    → ((not t || r) && (not a || w || r)) ≡ true
    → (not w || r || n) ≡ true
    → ((not t || (r || n)) && (not (a || an) || an || (r || n))) ≡ true
step_closed t r a w n an held added = ground arith

rounds_complete :
    (n : ℕ) (table : List ArchiveDir) (result working out : List Uuid)
    → IsClosed table result working
    → trash_rounds n table result working ≡ some out
    → IsClosed table out []
unfolding trash_rounds
rounds_complete zero table result working out closed h = cc
rounds_complete (suc n) table result [] out closed h =
    subst (λ is. IsClosed table is []) (cc) closed
rounds_complete (suc n) table result (w ∷ working) out closed h =
    let next = new_children table result (w ∷ working) in
    rounds_complete n table (result ++ next) next out
      (All-zip
        (λ (d : ArchiveDir)
            (held : ((not (is_trashed d) || contains d.id result)
                && (not (is_among d.archive_dir_id result)
                    || is_among d.archive_dir_id (w ∷ working)
                    || contains d.id result))
              ≡ true)
            (added : (not (is_among d.archive_dir_id (w ∷ working))
                || contains d.id result
                || contains d.id next)
              ≡ true).
          rw (contains-append d.id result next, is_among-append d.archive_dir_id result next)
            (step_closed (is_trashed d) (contains d.id result) (is_among d.archive_dir_id result)
              (is_among d.archive_dir_id (w ∷ working)) (contains d.id next)
              (is_among d.archive_dir_id next) held added))
        table closed (children_complete table result (w ∷ working)))
      h

base-IsClosed :
    (rows : List ArchiveDir) (ids : List Uuid)
    → All (λ (d : ArchiveDir). (not (is_trashed d) || contains d.id ids) ≡ true) rows
    → IsClosed rows ids ids
base-IsClosed rows ids =
    All-map
      (λ (d : ArchiveDir) (h : (not (is_trashed d) || contains d.id ids) ≡ true). ground (arith, h))
      rows

among_nothing : (o : Option Uuid) → is_among o [] ≡ false
among_nothing none = refl
among_nothing (some i) = refl

IsClosed-Climb :
    (table : List ArchiveDir) (out : List Uuid) {o : Option Uuid} {is : List Uuid}
    → IsClosed table out []
    → Climb (up_from table) o is
    → any_trashed table is ≡ true
    → is_among o out ≡ true
IsClosed-Climb table out closed top h = cc
IsClosed-Climb table out closed (up {i} {p} {is} e c) h =
    let (d, found, above) = up_from-row i table p e in
    let row =
      All-find
        (λ (r : ArchiveDir).
          ((not (is_trashed r) || contains r.id out)
            && (not (is_among r.archive_dir_id out)
                || is_among r.archive_dir_id []
                || contains r.id out))
          ≡ true)
        (λ (r : ArchiveDir). r.id == i) table d found closed in
    let held = ap (λ j. contains j out) (get_dir-id i table d found) in
    let state = ap row_trashed found in
    elim (Bool-cases (is_trashed d)) [
      | inl trashed ↦ ground (arith, row, trashed, held)
      | inr live ↦
          let above_trashed : any_trashed table is ≡ true = ground (arith, h, state, live) in
          let rest = IsClosed-Climb table out closed c above_trashed in
          let among = ap (λ q. is_among q out) above ∙ rest in
          ground (arith, row, among, among_nothing d.archive_dir_id, held)
    ]

Distinct-IsKeyed : (table : List ArchiveDir) → Distinct (dir_ids table) → IsKeyed table table
Distinct-IsKeyed [] apart = tt
Distinct-IsKeyed (d ∷ table) apart = (
  ground (arith, ==_self d.id),
  All-map
      (λ (e : ArchiveDir) (h : get_dir e.id table ≡ some e).
        let known = get_dir-contains e.id table e h in
        elim (Bool-cases (d.id == e.id)) [
          | inl same ↦ absurd (
              ground (
                arith,
                known,
                apart.0,
                ap (λ i. contains i (dir_ids table)) ((==_iff d.id e.id).0 same),
              ))
          | inr other ↦ rw other h
        ])
      table (Distinct-IsKeyed table apart.1),
)

-- For a forest with distinct ids, `_trashed_dir_ids` ends, and a directory is in its result exactly
-- if the directory itself is in the trash or one on its way up to the root is.
pub trashed_dir_ids_lem :
    (dirs : List ArchiveDir) (i : Uuid) (is : List Uuid)
    → Distinct (dir_ids dirs)
    → IsForest dirs
    → Climb (up_from dirs) (some i) is
    → (ids : List Uuid) × (trashed_dir_ids dirs ≡ some ids) × (contains i ids ≡ any_trashed dirs is)
unfolding trashed_dir_ids
trashed_dir_ids_lem dirs i is apart forest c =
    let keyed = Distinct-IsKeyed dirs apart in
    let base = base_sound dirs dirs keyed forest in
    let (ids, ends) = trashed_dir_ids_total dirs in
    let below =
      rounds_sound (suc (enough dirs)) dirs (trashed_base dirs) (trashed_base dirs) ids keyed base
        base ends in
    let closed =
      rounds_complete (suc (enough dirs)) dirs (trashed_base dirs) (trashed_base dirs) ids
        (base-IsClosed dirs (trashed_base dirs) (base_complete dirs)) ends in
    (
      ids,
      ends,
      elim (Bool-cases (any_trashed dirs is)) [
        | inl trashed ↦ IsClosed-Climb dirs ids closed c trashed ∙ sym trashed
        | inr clear ↦ elim (Bool-cases (contains i ids)) [
          | inl found ↦
              let (js, c', trashed) = All-contains (BelowTrash dirs) i ids found below in
              let same = ap (any_trashed dirs) (Climb-unique (up_from dirs) c' c) in
              absurd (ground (arith, trashed, same, clear))
          | inr absent ↦ absent ∙ sym clear
        ]
      ],
    )
