-- ===== src/Archive/Receive/Ends.antt =====
-- A move by clipboard ends on every table, also on one whose parents run in a circle.
use vb_api.Prelude.{
  ◌≡◌, ◌≢◌, refl, Uuid, Bool, false, Option, none, some, List, [], ◌∷◌, arith, Result, ok, err,
  ◌>>=◌,
}
use vb_api.Archive.Store.{ArchiveDir, ArchiveDb, ArchiveUser, ArchiveError, get_dir, no_fuel}
use vb_api.Archive.Tree.Laws.{is_descendant_total}
use vb_api.Archive.Permissions.{require_admin}
use vb_api.Archive.Receive.{
  ItemType, target_below, receive_dir, receive_dirs, dir_items, file_items, receive_items,
}

target_below-ends :
    (target : Option Uuid) (did : Uuid) (dirs : List ArchiveDir)
    → (b : Bool) × (target_below target did dirs ≡ some b)
unfolding target_below
target_below-ends none did dirs = (false, refl)
target_below-ends (some t) did dirs = is_descendant_total dirs t did

receive_dir-ends :
    (target : Option Uuid) (did : Uuid) (found : Option ArchiveDir) (dirs : List ArchiveDir)
    → receive_dir target did found dirs ≢ err no_fuel
unfolding receive_dir
receive_dir-ends target did none dirs h = cc
receive_dir-ends target did (some d) dirs h =
    let (b, ends) = target_below-ends target did dirs in ground (arith, ends, h)

bind-ends :
    (r : Result ArchiveError (List ArchiveDir))
    (f : List ArchiveDir → Result ArchiveError (List ArchiveDir))
    → r ≢ err no_fuel
    → ((dirs : List ArchiveDir) → f dirs ≢ err no_fuel)
    → (r >>= f) ≢ err no_fuel
bind-ends (ok dirs) f first rest h = rest dirs h
bind-ends (err e) f first rest h = first (cc)

receive_dirs-ends :
    (target : Option Uuid) (dids : List Uuid) (dirs : List ArchiveDir)
    → receive_dirs target dids dirs ≢ err no_fuel
unfolding receive_dirs
receive_dirs-ends target [] dirs = λ h. cc
receive_dirs-ends target (did ∷ dids) dirs =
    bind-ends (receive_dir target did (get_dir did dirs) dirs) (receive_dirs target dids)
      (receive_dir-ends target did (get_dir did dirs) dirs) (receive_dirs-ends target dids)

-- `receive_items` never runs without end: whatever the table, the target and the ids are, it moves
-- the items or raises one of its exceptions.
pub receive_items-ends :
    (target : Option Uuid) (kind : ItemType) (item_ids : List Uuid) (user : ArchiveUser)
    (db : ArchiveDb)
    → receive_items target kind item_ids user db ≢ err no_fuel
unfolding receive_items require_admin
receive_items-ends none dir_items item_ids user db h =
    ground (arith, h, receive_dirs-ends none item_ids db.dirs)
receive_items-ends (some t) dir_items item_ids user db h =
    ground (arith, h, receive_dirs-ends (some t) item_ids db.dirs)
receive_items-ends none file_items item_ids user db h = ground arith
receive_items-ends (some t) file_items item_ids user db h = ground arith
