-- ===== src/Archive/Receive/Forests.antt =====
-- A move by clipboard never makes a circle: `receive_items` keeps the forest.
use mathlib.Core.Path.{subst}
use vb_api.Prelude.{
  ◌≡◌, refl, ap, sym, ◌∙◌, Uuid, false, Option, none, some, List, [], ◌∷◌, contains, arith, is_id,
  ok, bind_ok,
}
use vb_api.Archive.Store.{ArchiveDir, ArchiveDb, ArchiveUser, get_dir, target_not_found}
use vb_api.Forest.{Climb, top, up}
use vb_api.Archive.Tree.{up_from}
use vb_api.Archive.Tree.Laws.{get_dir-id}
use vb_api.Archive.Tree.Descendant.{is_descendant_lem}
use vb_api.Archive.Dirs.{store_dir, require_dir}
use vb_api.Archive.Dirs.Forests.{
  IsForest, Reaches, require_dir-Reaches, store_dir-Reaches, store_dir-IsForest,
}
use vb_api.Archive.Receive.{
  ItemType, target_below, receive_dir, receive_dirs, dir_items, file_items, receive_items,
}

-- A target that `_receive_dirs` accepts for `did` has a climb that does not meet `did`.
accepted-apart :
    (target : Option Uuid) (did : Uuid) (dirs : List ArchiveDir)
    → Reaches dirs target
    → is_id target did ≡ false
    → target_below target did dirs ≡ some false
    → (ts : List Uuid) × Climb (up_from dirs) target ts × (contains did ts ≡ false)
unfolding target_below
accepted-apart none did dirs way other below = ([], top, refl)
accepted-apart (some t) did dirs (ts, up {is = is} e c) other below =
    let answer = is_descendant_lem dirs t did is (up e c) in
    (t ∷ is, up e c, ground (arith, other, below, answer))

receive_dir_ok :
    (target : Option Uuid) (did : Uuid) (d : ArchiveDir) (dirs dirs' : List ArchiveDir)
    → receive_dir target did (some d) dirs ≡ ok dirs'
    → (is_id target did ≡ false)
      × (target_below target did dirs ≡ some false)
      × (dirs' ≡ store_dir (record d { archive_dir_id = target }) dirs)
unfolding receive_dir
receive_dir_ok target did d dirs dirs' h = ground arith

receive_dir-IsForest :
    (target : Option Uuid) (did : Uuid) (found : Option ArchiveDir) (dirs dirs' : List ArchiveDir)
    → IsForest dirs × Reaches dirs target
    → get_dir did dirs ≡ found
    → receive_dir target did found dirs ≡ ok dirs'
    → IsForest dirs' × Reaches dirs' target
unfolding receive_dir
receive_dir-IsForest target did none dirs dirs' (forest, way) found h =
    subst (λ ds. IsForest ds × Reaches ds target) (cc) (forest, way)
receive_dir-IsForest target did (some d) dirs dirs' (forest, way) found h =
    let (other, below, written) = receive_dir_ok target did d dirs dirs' h in
    let (ts, climb, apart) = accepted-apart target did dirs way other below in
    let row : ArchiveDir = record d { archive_dir_id = target } in
    let id_row = get_dir-id did dirs d found in
    let held : get_dir row.id dirs ≡ some d = ap (λ i. get_dir i dirs) id_row ∙ found in
    let clear : contains row.id ts ≡ false = ap (λ i. contains i ts) id_row ∙ apart in
    subst (λ ds. IsForest ds × Reaches ds target) (sym written)
      (
        store_dir-IsForest row d dirs ts forest held climb clear,
        store_dir-Reaches row d dirs ts held climb clear way,
      )

receive_dirs-IsForest :
    (target : Option Uuid) (dids : List Uuid) (dirs dirs' : List ArchiveDir)
    → IsForest dirs × Reaches dirs target
    → receive_dirs target dids dirs ≡ ok dirs'
    → IsForest dirs'
unfolding receive_dirs
receive_dirs-IsForest target [] dirs dirs' (forest, way) h = subst IsForest (cc) forest
receive_dirs-IsForest target (did ∷ dids) dirs dirs' forest h =
    let (next, moved, rest) =
      bind_ok (receive_dir target did (get_dir did dirs) dirs) (receive_dirs target dids) dirs' h in
    receive_dirs-IsForest target dids next dirs'
      (receive_dir-IsForest target did (get_dir did dirs) dirs next forest refl moved) rest

-- The guard and the loop of a move, taken together.
pub receive_items-IsForest :
    (target : Option Uuid) (kind : ItemType) (item_ids : List Uuid) (user : ArchiveUser)
    (db db' : ArchiveDb)
    → IsForest db.dirs
    → receive_items target kind item_ids user db ≡ ok db'
    → IsForest db'.dirs
unfolding receive_items
receive_items-IsForest target dir_items item_ids user db db' forest h =
    let (parent, moved) = dirs_ok in
    receive_dirs-IsForest target item_ids db.dirs db'.dirs
      (forest, require_dir-Reaches target_not_found target db.dirs forest parent) moved
  where
    dirs_ok :
        (require_dir target_not_found target db.dirs ≡ ok tt)
        × (receive_dirs target item_ids db.dirs ≡ ok db'.dirs)
    dirs_ok = ground arith
receive_items-IsForest target file_items item_ids user db db' forest h = subst IsForest same forest
  where
    same : db.dirs ≡ db'.dirs
    same = ground arith
