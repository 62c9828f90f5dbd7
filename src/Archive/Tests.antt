-- ===== src/Archive/Tests.antt =====
-- Runs of the operations of the archive.
use vb_api.Text.{is_blank}
use vb_api.Prelude.{
  text_eq, ◌++◌, if◌then◌else◌, ℕ, ◌≤◌, ◌≡◌, ◌≢◌, refl, Uuid, Text, Bool, true, false, not, ◌||◌,
  Option, none, some, List, [], ◌∷◌, All, Result, ok, err, contains, length, map, zero, suc,
  is_none, arith,
}
use vb_api.Archive.Store.{ArchiveDir, ArchiveDb, no_fuel, into_own_subtree, dir_not_found}
use vb_api.Forest.{top, up}
use vb_api.Archive.Tree.{PathEntry, build_path, is_descendant}
use vb_api.Archive.Tree.Laws.{entry_ids, build_path_lem}
use vb_api.Archive.Tree.Descendant.{is_descendant_lem}
use vb_api.Archive.Permissions.{has_text, own_permissions, get_effective_permissions}
use vb_api.Archive.Permissions.Laws.{grants, passed_on, get_effective_permissions_lem}
use vb_api.Archive.Dirs.{update_dir}
use vb_api.Archive.Dirs.Forests.{IsForest}
use vb_api.Archive.Dirs.Grants.{own_permissions-update_dir}
use vb_api.Archive.Receive.{dir_items, receive_items}
use vb_api.Archive.Receive.Ends.{receive_items-ends}
use vb_api.Archive.Steps.{received, DirStep-IsForest}
use vb_api.Archive.Trash.{trashed_dir_ids}
use vb_api.Archive.Trash.Sound.{any_trashed}
use vb_api.Archive.Trash.Closed.{trashed_dir_ids_lem}
use vb_api.Archive.Reading.{require_readable_file, get_dir_detail, DirDetail}
use vb_api.Archive.Reading.Readable.{AllIn, get_dir_detail-readable}
use vb_api.Archive.Search.{SearchHit, search_archive}
use vb_api.Archive.Search.Seen.{MayRead}
use vb_api.Archive.Search.Readable.{search_archive-MayRead}
use vb_api.Archive.Requests.{validate_dir_save}
use vb_api.Archive.Sample.{
  vbw_up, dir, sample_dirs, sample, reader, archivist, sample_forest, body, input, any_row,
  value_or,
}

-- 4 moves from the trash to the root, and 2 does not move below 4.
move_out :
    receive_items none dir_items (4 ∷ []) archivist sample
    ≡ ok (record sample {
      dirs =
          dir 1 none
            (some true)
            none
            (record { org_id = b'v' ∷ b'b' ∷ b'w' ∷ []; state_id = b'u' ∷ b'p' ∷ [] } ∷ [])
          ∷ dir 2 (some 1) (some false) none []
          ∷ dir 3 (some 2) none (some 5) []
          ∷ dir 4 none none none []
          ∷ [];
    })
unfolding receive_items
move_out = refl

move_below : receive_items (some 4) dir_items (2 ∷ []) archivist sample ≡ err into_own_subtree
unfolding receive_items
move_below = refl

trash : trashed_dir_ids sample_dirs ≡ some (3 ∷ 4 ∷ [])
unfolding trashed_dir_ids
trash = refl

hidden_dir : get_dir_detail 4 reader sample ≡ err dir_not_found
unfolding get_dir_detail
hidden_dir = refl

inherited :
    get_effective_permissions sample.sets sample_dirs (dir 2 (some 1) (some false) none [])
    ≡ some (vbw_up ∷ [])
unfolding get_effective_permissions text_eq
inherited = refl

abbrev moved : ArchiveDb
moved = value_or sample (receive_items none dir_items (4 ∷ []) archivist sample)

DirStep-IsForest_example : IsForest moved.dirs
unfolding receive_items
DirStep-IsForest_example =
    DirStep-IsForest sample moved sample_forest (received none dir_items (4 ∷ []) archivist refl)

get_effective_permissions_lem_example :
    (keys : List Text) × (get_effective_permissions sample.sets sample_dirs
        (dir 2 (some 1) (some false) none [])
      ≡ some keys)
    × (has_text vbw_up keys ≡ (
        grants sample.sets vbw_up (dir 2 (some 1) (some false) none [])
        || passed_on sample.sets sample_dirs vbw_up (1 ∷ [])))
get_effective_permissions_lem_example =
    get_effective_permissions_lem sample.sets sample_dirs (dir 2 (some 1) (some false) none [])
      (1 ∷ []) vbw_up (up refl top)

abbrev detail : DirDetail
detail =
    value_or
      (record {
        dir = dir 2 none none none [];
        path = [];
        effective = [];
        own = [];
        parent = [];
        content = record {
          subdirs = record { insight = []; admin = []; trashed = [] };
          files = record { insight = []; admin = []; trashed = [] };
        };
      })
      (get_dir_detail 2 reader sample)

get_dir_detail-readable_example :
    AllIn (λ f. require_readable_file sample f reader false ≡ ok tt) detail.content.files
unfolding get_dir_detail text_eq
get_dir_detail-readable_example = get_dir_detail-readable 2 reader sample detail refl

abbrev hits : List SearchHit
hits = value_or [] (search_archive none any_row reader (b'D' ∷ b'i' ∷ b'r' ∷ []) sample)

search_archive-MayRead_example : All (MayRead reader sample) hits
unfolding search_archive is_blank
search_archive-MayRead_example =
    search_archive-MayRead none any_row reader (b'D' ∷ b'i' ∷ b'r' ∷ []) sample hits refl

trashed_dir_ids_lem_example :
    (ids : List Uuid) × (trashed_dir_ids sample_dirs ≡ some ids)
    × (contains 4 ids ≡ any_trashed sample_dirs (4 ∷ 3 ∷ 2 ∷ 1 ∷ []))
trashed_dir_ids_lem_example =
    trashed_dir_ids_lem sample_dirs 4 (4 ∷ 3 ∷ 2 ∷ 1 ∷ []) (refl, (refl, (refl, (refl, tt))))
      sample_forest (up refl (up refl (up refl (up refl top))))

abbrev saved : ArchiveDir × ArchiveDb
saved = value_or (dir 2 none none none [], sample) (update_dir 2 input archivist sample)

own_permissions-update_dir_example : own_permissions saved.1.sets saved.0 ≡ input.permissions
unfolding update_dir validate_dir_save is_blank text_eq
own_permissions-update_dir_example =
    own_permissions-update_dir body input 2 archivist sample saved.1 saved.0 refl refl

receive_items-ends_example :
    receive_items (some 4) dir_items (2 ∷ 4 ∷ []) archivist sample ≢ err no_fuel
receive_items-ends_example = receive_items-ends (some 4) dir_items (2 ∷ 4 ∷ []) archivist sample

is_descendant_lem_example : is_descendant sample_dirs 4 2 ≡ some (contains 2 (3 ∷ 2 ∷ 1 ∷ []))
is_descendant_lem_example =
    is_descendant_lem sample_dirs 4 2 (3 ∷ 2 ∷ 1 ∷ []) (up refl (up refl (up refl (up refl top))))

build_path_lem_example :
    (path : List PathEntry) × (build_path sample_dirs (dir 4 (some 3) none none []) ≡ some path)
    × (entry_ids path ≡ 1 ∷ 2 ∷ 3 ∷ 4 ∷ [])
build_path_lem_example =
    build_path_lem sample_dirs (dir 4 (some 3) none none []) (4 ∷ 3 ∷ 2 ∷ 1 ∷ []) refl
      (up refl (up refl (up refl (up refl top))))
