-- ===== src/Archive/Tree.antt =====
-- The directories as a forest: the parent of a row, and `build_path` and `_is_descendant`, which
-- climb it. Each climb has fuel for one row more than the table has; `no_fuel` is left when it ends.
pub mod Laws
pub mod Descendant
use vb_api.Prelude.{
  ℕ, zero, suc, Uuid, Text, Bool, true, false, Option, none, some, List, [], ◌∷◌, map, length,
  contains, is_id,
}
use vb_api.Archive.Store.{ArchiveDir, get_dir, get_parent}

-- `archive_dir_id` of a looked-up row.
abbrev pub parent_column : Option ArchiveDir → Option (Option Uuid)
parent_column none = none
parent_column (some d) = some d.archive_dir_id

abbrev pub up_from : List ArchiveDir → Uuid → Option (Option Uuid)
up_from dirs i = parent_column (get_dir i dirs)

abbrev pub dir_ids : List ArchiveDir → List Uuid
dir_ids dirs = map (λ (d : ArchiveDir). d.id) dirs

-- Enough for every loop up the tree.
abbrev pub enough : List ArchiveDir → ℕ
enough dirs = suc (length dirs)

pub record PathEntry : Type 0 where
  pub id : Uuid
  pub name : Text

-- The loop of `build_path`, `path` in reverse order of its appends: the last one first, which is the
-- order after `path.reverse()`.
unfoldable pub path_loop :
    ℕ → List ArchiveDir → Option ArchiveDir → List PathEntry → Option (List PathEntry)
path_loop zero dirs current path = none
path_loop (suc n) dirs none path = some path
path_loop (suc n) dirs (some d) path =
    path_loop n dirs (get_parent d.archive_dir_id dirs) (record { id = d.id; name = d.name } ∷ path)

unfoldable pub build_path : List ArchiveDir → ArchiveDir → Option (List PathEntry)
unfolding path_loop
build_path dirs d = path_loop (suc (enough dirs)) dirs (some d) []

-- The loop of `_is_descendant`.
unfoldable pub descendant_loop : ℕ → List ArchiveDir → List Uuid → Option Uuid → Uuid → Option Bool
descendant_loop zero dirs visited current_id ancestor_id = none
descendant_loop (suc n) dirs visited none ancestor_id = some false
descendant_loop (suc n) dirs visited (some c) ancestor_id = elim (contains c visited) [
  | true ↦ some false
  | false ↦ elim (get_dir c dirs) [
    | none ↦ some false
    | some d ↦ elim (is_id d.archive_dir_id ancestor_id) [
      | true ↦ some true
      | false ↦ descendant_loop n dirs (c ∷ visited) d.archive_dir_id ancestor_id
    ]
  ]
]

unfoldable pub is_descendant : List ArchiveDir → Uuid → Uuid → Option Bool
unfolding descendant_loop
is_descendant dirs candidate_id ancestor_id =
    descendant_loop (enough dirs) dirs [] (some candidate_id) ancestor_id
