-- ===== src/Archive/Trash.antt =====
-- `_trashed_subtree` and `_trashed_dir_ids`: the recursive query for the directories in the trash
-- and below one in the trash. The database evaluates such a query (`UNION`, so without duplicates)
-- in rounds: the rows that the last round added are the working table of the next one, and the
-- query ends with an empty working table. There is fuel for two rounds more than there are rows.
pub mod Rounds
pub mod Sound
pub mod Closed
use vb_api.Prelude.{
  ℕ, zero, suc, Uuid, Bool, true, false, not, ◌&&◌, Option, none, some, List, [], ◌∷◌, ◌++◌,
  is_none, contains, if◌then◌else◌,
}
use vb_api.Archive.Store.{ArchiveDir}
use vb_api.Archive.Tree.{enough}

-- `column IN ids`, for a nullable column.
abbrev pub is_among : Option Uuid → List Uuid → Bool
is_among none ids = false
is_among (some i) ids = contains i ids

abbrev pub is_trashed : ArchiveDir → Bool
is_trashed d = not (is_none d.deleted_at)

-- `trashed_base`
unfoldable pub trashed_base : List ArchiveDir → List Uuid
trashed_base [] = []
trashed_base (d ∷ dirs) =
    let rest = trashed_base dirs in
    if is_trashed d && not (contains d.id rest) then d.id ∷ rest else rest

-- What a round adds to `result`: the rows below the working table.
unfoldable pub new_children : List ArchiveDir → List Uuid → List Uuid → List Uuid
new_children [] result working = []
new_children (d ∷ dirs) result working =
    let rest = new_children dirs result working in
    if is_among d.archive_dir_id working && not (contains d.id result) && not (contains d.id rest)
    then d.id ∷ rest
    else rest

unfoldable pub trash_rounds : ℕ → List ArchiveDir → List Uuid → List Uuid → Option (List Uuid)
unfolding new_children
trash_rounds zero dirs result working = none
trash_rounds (suc n) dirs result [] = some result
trash_rounds (suc n) dirs result (w ∷ working) =
    trash_rounds n dirs (result ++ new_children dirs result (w ∷ working))
      (new_children dirs result (w ∷ working))

unfoldable pub trashed_dir_ids : List ArchiveDir → Option (List Uuid)
unfolding trashed_base trash_rounds
trashed_dir_ids dirs = trash_rounds (suc (enough dirs)) dirs (trashed_base dirs) (trashed_base dirs)
