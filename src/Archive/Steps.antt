-- ===== src/Archive/Steps.antt =====
-- Every operation on directories as a step of the archive, and what all steps keep.
use mathlib.Core.Path.{subst}
use vb_api.Prelude.{
  ℕ, ◌≡◌, refl, ap, sym, ◌∙◌, Uuid, false, Option, none, some, List, [], ◌∷◌, ◌++◌, arith,
  Bool-cases, Option-cases, inl, inr, if◌then◌else◌, ok,
}
use vb_api.Archive.Store.{ArchiveDir, ArchiveDb, ArchiveUser, get_dir, parent_not_found}
use vb_api.Archive.Dirs.{
  DirData, store_dir, remove_dir, require_dir, create_dir, update_dir, dir_has_content, delete_row,
  delete_dir, purge_dir, restore_dir,
}
use vb_api.Archive.Tree.Laws.{get_dir-id}
use vb_api.Archive.Receive.Forests.{receive_items-IsForest}
use vb_api.Archive.Receive.{ItemType, receive_items}
use vb_api.Archive.Dirs.Rows.{append-IsForest, remove_dir-IsForest}
use vb_api.Archive.Dirs.Forests.{IsForest, Reaches, require_dir-Reaches, store_same_parent}

create_dir_ok :
    (new_id : Uuid) (now : ℕ) (input : DirData) (user : ArchiveUser) (db db' : ArchiveDb)
    (d : ArchiveDir)
    → create_dir new_id now input user db ≡ ok (d, db')
    → (require_dir parent_not_found input.parent_id db.dirs ≡ ok tt)
      × (d.archive_dir_id ≡ input.parent_id)
      × (db'.dirs ≡ db.dirs ++ d ∷ [])
unfolding create_dir
create_dir_ok new_id now input user db db' d h = ground arith

update_dir_ok :
    (dir_id : Uuid) (input : DirData) (user : ArchiveUser) (db db' : ArchiveDb) (d e : ArchiveDir)
    → get_dir dir_id db.dirs ≡ some e
    → update_dir dir_id input user db ≡ ok (d, db')
    → (d.id ≡ e.id) × (d.archive_dir_id ≡ e.archive_dir_id) × (db'.dirs ≡ store_dir d db.dirs)
unfolding update_dir
update_dir_ok dir_id input user db db' d e found h = ground arith

delete_dir_ok :
    (now : ℕ) (dir_id : Uuid) (user : ArchiveUser) (db db' : ArchiveDb) (d : ArchiveDir)
    → get_dir dir_id db.dirs ≡ some d
    → delete_dir now dir_id user db ≡ ok db'
    → db'.dirs ≡ (
        if dir_has_content db d.id
        then store_dir (record d { deleted_at = some now }) db.dirs
        else remove_dir d.id db.dirs)
unfolding delete_dir delete_row
delete_dir_ok now dir_id user db db' d found h = ground arith

purge_dir_ok :
    (dir_id : Uuid) (user : ArchiveUser) (db db' : ArchiveDb) (d : ArchiveDir)
    → get_dir dir_id db.dirs ≡ some d
    → purge_dir dir_id user db ≡ ok db'
    → (dir_has_content db d.id ≡ false) × (db'.dirs ≡ remove_dir d.id db.dirs)
unfolding purge_dir delete_row
purge_dir_ok dir_id user db db' d found h = ground arith

restore_dir_ok :
    (dir_id : Uuid) (user : ArchiveUser) (db db' : ArchiveDb) (d : ArchiveDir)
    → get_dir dir_id db.dirs ≡ some d
    → restore_dir dir_id user db ≡ ok db'
    → db'.dirs ≡ store_dir (record d { deleted_at = none }) db.dirs
unfolding restore_dir
restore_dir_ok dir_id user db db' d found h = ground arith

-- A successful change of a directory, by the operation that makes it.
pub data DirStep (db db' : ArchiveDb) : Type 0 where
  created :
      (new_id : Uuid) (now : ℕ) (input : DirData) (user : ArchiveUser) (d : ArchiveDir)
      → create_dir new_id now input user db ≡ ok (d, db')
      → DirStep db db'
  updated :
      (dir_id : Uuid) (input : DirData) (user : ArchiveUser) (d : ArchiveDir)
      → update_dir dir_id input user db ≡ ok (d, db')
      → DirStep db db'
  deleted :
      (now : ℕ) (dir_id : Uuid) (user : ArchiveUser)
      → delete_dir now dir_id user db ≡ ok db'
      → DirStep db db'
  purged : (dir_id : Uuid) (user : ArchiveUser) → purge_dir dir_id user db ≡ ok db' → DirStep db db'
  restored :
      (dir_id : Uuid) (user : ArchiveUser) → restore_dir dir_id user db ≡ ok db' → DirStep db db'
  received :
      (target : Option Uuid) (kind : ItemType) (item_ids : List Uuid) (user : ArchiveUser)
      → receive_items target kind item_ids user db ≡ ok db'
      → DirStep db db'

-- A row with the same id and parent, stored in place of one of the table.
store_row-IsForest :
    (dirs dirs' : List ArchiveDir) (dir_id : Uuid) (d e : ArchiveDir)
    → IsForest dirs
    → get_dir dir_id dirs ≡ some e
    → d.id ≡ e.id
    → d.archive_dir_id ≡ e.archive_dir_id
    → dirs' ≡ store_dir d dirs
    → IsForest dirs'
store_row-IsForest dirs dirs' dir_id d e forest found id parent written =
    let held = ap (λ i. get_dir i dirs) (id ∙ get_dir-id dir_id dirs e found) ∙ found in
    subst IsForest (sym written) (store_same_parent d e dirs forest held parent)

remove_row-IsForest :
    (db : ArchiveDb) (dirs' : List ArchiveDir) (i : Uuid)
    → IsForest db.dirs
    → dir_has_content db i ≡ false
    → dirs' ≡ remove_dir i db.dirs
    → IsForest dirs'
unfolding dir_has_content
remove_row-IsForest db dirs' i forest empty written =
    subst IsForest (sym written) (remove_dir-IsForest db.dirs i forest (ground arith))

module _ (dir_id : Uuid) (user : ArchiveUser) (db db' : ArchiveDb) (forest : IsForest db.dirs) where
  update_dir-IsForest :
      (input : DirData) (d : ArchiveDir)
      → update_dir dir_id input user db ≡ ok (d, db')
      → IsForest db'.dirs
  unfolding update_dir
  update_dir-IsForest input d h = elim (Option-cases (get_dir dir_id db.dirs)) [
    | inl gone ↦ absurd (ground arith)
    | inr (e, found) ↦
        let (id, parent, written) = update_dir_ok dir_id input user db db' d e found h in
        store_row-IsForest db.dirs db'.dirs dir_id d e forest found id parent written
  ]

  delete_dir-IsForest : (now : ℕ) → delete_dir now dir_id user db ≡ ok db' → IsForest db'.dirs
  unfolding delete_dir
  delete_dir-IsForest now h = elim (Option-cases (get_dir dir_id db.dirs)) [
    | inl gone ↦ absurd (ground arith)
    | inr (e, found) ↦
        let written = delete_dir_ok now dir_id user db db' e found h in
        elim (Bool-cases (dir_has_content db e.id)) [
          | inl content ↦
              store_row-IsForest db.dirs db'.dirs dir_id (record e { deleted_at = some now }) e
                forest found refl refl (ground (arith, content, written))
          | inr empty ↦
              remove_row-IsForest db db'.dirs e.id forest empty (ground (arith, empty, written))
        ]
  ]

  purge_dir-IsForest : purge_dir dir_id user db ≡ ok db' → IsForest db'.dirs
  unfolding purge_dir
  purge_dir-IsForest h = elim (Option-cases (get_dir dir_id db.dirs)) [
    | inl gone ↦ absurd (ground arith)
    | inr (e, found) ↦
        let (empty, written) = purge_dir_ok dir_id user db db' e found h in
        remove_row-IsForest db db'.dirs e.id forest empty written
  ]

  restore_dir-IsForest : restore_dir dir_id user db ≡ ok db' → IsForest db'.dirs
  unfolding restore_dir
  restore_dir-IsForest h = elim (Option-cases (get_dir dir_id db.dirs)) [
    | inl gone ↦ absurd (ground arith)
    | inr (e, found) ↦
        store_row-IsForest db.dirs db'.dirs dir_id (record e { deleted_at = none }) e forest found
          refl refl (restore_dir_ok dir_id user db db' e found h)
  ]

-- Every operation on directories, the moves by clipboard included, keeps the table a forest: from
-- every row the climb along parents that exist ends at a root.
pub DirStep-IsForest : (db db' : ArchiveDb) → IsForest db.dirs → DirStep db db' → IsForest db'.dirs
DirStep-IsForest db db' forest (created new_id now input user d h) =
    let (parent, above, written) = create_dir_ok new_id now input user db db' d h in
    let way = require_dir-Reaches parent_not_found input.parent_id db.dirs forest parent in
    subst IsForest (sym written)
      (append-IsForest db.dirs d forest (subst (Reaches db.dirs) (sym above) way))
DirStep-IsForest db db' forest (updated dir_id input user d h) =
    update_dir-IsForest dir_id user db db' forest input d h
DirStep-IsForest db db' forest (deleted now dir_id user h) =
    delete_dir-IsForest dir_id user db db' forest now h
DirStep-IsForest db db' forest (purged dir_id user h) =
    purge_dir-IsForest dir_id user db db' forest h
DirStep-IsForest db db' forest (restored dir_id user h) =
    restore_dir-IsForest dir_id user db db' forest h
DirStep-IsForest db db' forest (received target kind item_ids user h) =
    receive_items-IsForest target kind item_ids user db db' forest h
