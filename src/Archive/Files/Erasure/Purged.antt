-- ===== src/Archive/Files/Erasure/Purged.antt =====
-- The keys of the object storage that the erasure of a stored content deletes.
use mathlib.Core.List.{append_assoc, append-nil}
use vb_api.Prelude.{
  ◌≡◌, refl, ap, sym, ◌∙◌, Uuid, Text, Bool, true, false, not, none, some, List, [], ◌∷◌, ◌++◌,
  filter, arith, Bool-cases, inl, inr, ◌==◌, find-some, is_none, if◌then◌else◌,
}
use vb_api.Archive.Store.{ArchiveStoreItem, ArchiveFile, get_item, get_file}
use vb_api.Archive.Files.Erasure.{
  Storage, S3Outcome, delete_s3_key, delete_s3_keys, purge_s3_object, list_of,
}
use vb_api.Archive.Files.Erasure.Laws.{unlisted, unlisted_nothing, get_item-unlisted}

abbrev pub store_key : Text → Text → Text
store_key store_path sha256_hash = store_path ++ b'/' ∷ sha256_hash

abbrev pub cache_prefix : Text → Text → Text
cache_prefix cache_path sha256_hash = cache_path ++ b'/' ∷ sha256_hash ++ b'.' ∷ []

-- The keys that the storage deletes, of those it is asked for.
abbrev pub deletable : Storage → List Text → List Text
deletable storage keys = filter (λ key. not (storage.delete_fails key)) keys

-- All keys of a content: its object, and what the cache lists for it.
abbrev pub keys_of : Storage → Text → Text → Text → List Text
keys_of storage store_path cache_path sha256_hash =
    store_key store_path sha256_hash
    ∷ (if storage.list_fails (cache_prefix cache_path sha256_hash)
        then []
        else storage.list_keys (cache_prefix cache_path sha256_hash))

deleted-delete_s3_key :
    (storage : Storage) (key : Text) (out : S3Outcome)
    → (delete_s3_key storage key out).deleted ≡ out.deleted ++ deletable storage (key ∷ [])
unfolding delete_s3_key
deleted-delete_s3_key storage key out = elim (Bool-cases (storage.delete_fails key)) [
  | inl fails ↦ rw fails (sym (append-nil out.deleted))
  | inr works ↦ rw works refl
]

deletable-cons :
    (storage : Storage) (key : Text) (keys : List Text)
    → deletable storage (key ∷ keys) ≡ deletable storage (key ∷ []) ++ deletable storage keys
deletable-cons storage key keys = elim (Bool-cases (storage.delete_fails key)) [
  | inl fails ↦ rw fails refl
  | inr works ↦ rw works refl
]

deleted-delete_s3_keys :
    (storage : Storage) (keys : List Text) (out : S3Outcome)
    → (delete_s3_keys storage keys out).deleted ≡ out.deleted ++ deletable storage keys
unfolding delete_s3_keys
deleted-delete_s3_keys storage [] out = sym (append-nil out.deleted)
deleted-delete_s3_keys storage (key ∷ keys) out =
    deleted-delete_s3_keys storage keys (delete_s3_key storage key out)
    ∙ ap (λ ks. ks ++ deletable storage keys) (deleted-delete_s3_key storage key out)
    ∙ append_assoc out.deleted (deletable storage (key ∷ [])) (deletable storage keys)
    ∙ ap (λ ks. out.deleted ++ ks) (sym (deletable-cons storage key keys))

module _ (storage : Storage) (store_path cache_path : Text) where
  pub deleted-purge_s3_object :
      (h : Text)
      → (purge_s3_object storage store_path cache_path h
          (record { deleted = []; errors = [] })).deleted
        ≡ deletable storage (keys_of storage store_path cache_path h)
  unfolding purge_s3_object
  deleted-purge_s3_object h =
      let empty : S3Outcome = record { deleted = []; errors = [] } in
      let first = deleted-delete_s3_key storage (store_key store_path h) empty in
      elim (Bool-cases (storage.list_fails (cache_prefix cache_path h))) [
        | inl fails ↦ rw fails first
        | inr works ↦ rw works (
            deleted-delete_s3_keys storage (storage.list_keys (cache_prefix cache_path h))
              (delete_s3_key storage (store_key store_path h) empty)
            ∙ ap (λ ks. ks ++ deletable storage (storage.list_keys (cache_prefix cache_path h)))
                first
            ∙ sym (
                deletable-cons storage (store_key store_path h)
                  (storage.list_keys (cache_prefix cache_path h))))
      ]

-- The row of a content, once the rows listed for deletion are gone.
pub row_gone :
    (i : Uuid) (item : ArchiveStoreItem) (items : List ArchiveStoreItem) (used : Bool)
    → get_item i items ≡ some item
    → is_none (get_item i (unlisted (if used then [] else list_of (some item)) items)) ≡ not used
row_gone i item items true found =
    ap (λ ts. is_none (get_item i ts)) (unlisted_nothing items) ∙ ap is_none found
row_gone i item items false found =
    let key = find-some (λ (t : ArchiveStoreItem). t.id == i) items item found in
    ap is_none (get_item-unlisted item i items) ∙ rw key refl

pub file_gone :
    (i : Uuid) (files : List ArchiveFile)
    → get_file i (filter (λ (g : ArchiveFile). not (g.id == i)) files) ≡ none
file_gone i [] = refl
file_gone i (f ∷ files) = ground (arith, file_gone i files)
