-- ===== src/Archive/Files/Erasure/Laws.antt =====
-- An erased file takes its stored content with it exactly if no other file refers to that content.
use mathlib.Core.Path.{subst}
use vb_api.Prelude.{
  ◌≡◌, refl, ap, sym, ◌∙◌, Uuid, Text, Bool, true, false, not, none, List, [], ◌∷◌, filter, All,
  All-zip, arith, Bool-cases, Option-cases, inl, inr, ◌==◌, ==_iff, is_none, find-some,
  if◌then◌else◌,
}
use vb_api.Archive.Store.{ArchiveStoreItem, ArchiveFile, ArchiveDb, get_item}
use vb_api.Archive.Files.Erasure.{
  Storage, is_item_used, list_of, orphaned_items, delete_file_row, is_listed_item, hard_delete_file,
}

-- The store item of every file is a row: what the foreign key of the files demands.
abbrev pub ItemsExist : List ArchiveStoreItem → List ArchiveFile → Type 0
ItemsExist items files =
    All (λ (f : ArchiveFile). is_none (get_item f.archive_store_item_id items) ≡ false) files

abbrev pub unlisted : List ArchiveStoreItem → List ArchiveStoreItem → List ArchiveStoreItem
unlisted gone items = filter (λ (t : ArchiveStoreItem). not (is_listed_item gone t)) items

pub unlisted_nothing : (items : List ArchiveStoreItem) → unlisted [] items ≡ items
unlisted_nothing [] = refl
unlisted_nothing (t ∷ items) = ap (λ ts. t ∷ ts) (unlisted_nothing items)

pub get_item-unlisted :
    (s : ArchiveStoreItem) (i : Uuid) (items : List ArchiveStoreItem)
    → get_item i (unlisted (s ∷ []) items) ≡ (if s.id == i then none else get_item i items)
get_item-unlisted s i [] = ground arith
get_item-unlisted s i (t ∷ items) = ground (arith, get_item-unlisted s i items)

All-kept :
    (p : ArchiveFile → Bool) (P : ArchiveFile → Type 0) (files : List ArchiveFile)
    → All P files
    → All P (filter p files)
All-kept p P [] each = tt
All-kept p P (f ∷ files) each = elim (Bool-cases (p f)) [
  | inl kept ↦ rw kept (each.0, All-kept p P files each.1)
  | inr dropped ↦ rw dropped (All-kept p P files each.1)
]

not_used :
    (i : Uuid) (files : List ArchiveFile)
    → is_item_used i files ≡ false
    → All (λ (f : ArchiveFile). (f.archive_store_item_id == i) ≡ false) files
not_used i [] h = tt
not_used i (f ∷ files) h = (ground (arith, h), not_used i files (ground (arith, h)))

-- The rows that stay, for a content that no file refers to any more.
orphan_removed :
    (i : Uuid) (s : ArchiveStoreItem) (items : List ArchiveStoreItem) (files : List ArchiveFile)
    → s.id ≡ i
    → is_item_used i files ≡ false
    → ItemsExist items files
    → ItemsExist (unlisted (s ∷ []) items) files
      × (is_none (get_item i (unlisted (s ∷ []) items)) ≡ true)
orphan_removed i s items files key free exist = (
  All-zip
      (λ (f : ArchiveFile) (there : is_none (get_item f.archive_store_item_id items) ≡ false)
          (other : (f.archive_store_item_id == i) ≡ false).
        ap is_none (get_item-unlisted s f.archive_store_item_id items)
        ∙ ground (arith, key, other, there))
      files exist (not_used i files free),
  ap is_none (get_item-unlisted s i items) ∙ ground (arith, key),
)

-- The store item after the erasure, by what is left to refer to it.
erased :
    (i : Uuid) (items : List ArchiveStoreItem) (files : List ArchiveFile)
    → ItemsExist items files
    → is_none (get_item i items) ≡ false
    → (gone : List ArchiveStoreItem)
    → gone ≡ (if is_item_used i files then [] else list_of (get_item i items))
    → ItemsExist (unlisted gone items) files
      × (is_none (get_item i (unlisted gone items)) ≡ not (is_item_used i files))
erased i items files exist there gone what = elim (Bool-cases (is_item_used i files)) [
  | inl used ↦
      let nothing : gone ≡ [] = what ∙ rw used refl in
      let same = ap (λ g. unlisted g items) nothing ∙ unlisted_nothing items in
      subst (λ ts. ItemsExist ts files × (is_none (get_item i ts) ≡ not (is_item_used i files)))
        (sym same) (exist, ground (arith, used, there))
  | inr free ↦ elim (Option-cases (get_item i items)) [
    | inl absent ↦ absurd (ground (arith, absent, there))
    | inr (s, found) ↦
        let single : gone ≡ s ∷ [] = what ∙ rw free (rw found refl) in
        let key =
          (==_iff s.id i).0 (find-some (λ (t : ArchiveStoreItem). t.id == i) items s found) in
        let (kept, removed) = orphan_removed i s items files key free exist in
        subst
          (λ g.
            ItemsExist (unlisted g items) files
            × (is_none (get_item i (unlisted g items)) ≡ not (is_item_used i files)))
          (sym single) (kept, ground (arith, removed, free))
  ]
]

module _ (storage : Storage) (store_path cache_path : Text) where
  -- `hard_delete_file` keeps the store item of every remaining file, and the one of the erased file
  -- is gone afterwards exactly if no remaining file refers to it.
  pub hard_delete_file-ItemsExist :
      (f : ArchiveFile) (db : ArchiveDb)
      → ItemsExist db.items db.files
      → is_none (get_item f.archive_store_item_id db.items) ≡ false
      → ItemsExist
          (hard_delete_file storage store_path cache_path f db).1.items
          (hard_delete_file storage store_path cache_path f db).1.files
        × (is_none (
              get_item f.archive_store_item_id
                (hard_delete_file storage store_path cache_path f db).1.items)
            ≡ not (
                is_item_used f.archive_store_item_id
                  (hard_delete_file storage store_path cache_path f db).1.files))
  unfolding hard_delete_file delete_file_row orphaned_items
  hard_delete_file-ItemsExist f db exist there =
      let rest = filter (λ (g : ArchiveFile). not (g.id == f.id)) db.files in
      erased f.archive_store_item_id db.items rest
        (All-kept (λ (g : ArchiveFile). not (g.id == f.id))
          (λ (g : ArchiveFile). is_none (get_item g.archive_store_item_id db.items) ≡ false)
          db.files exist)
        there
        (if is_item_used f.archive_store_item_id rest
          then []
          else list_of (get_item f.archive_store_item_id db.items))
        refl
