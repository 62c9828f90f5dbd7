-- ===== src/Archive/Files/Upload/Bounds.antt =====
-- What an upload that is accepted guarantees.
use mathlib.Core.Path.{subst}
use vb_api.Prelude.{
  ℕ, ◌≤◌, ◌≡◌, refl, ap, sym, ◌∙◌, Uuid, Text, Bool, true, false, not, ◌||◌, some, List, [], ◌∷◌,
  ◌++◌, map, length, take, arith, text_eq, Result, ok, ◌>>=◌, ◌>>◌, raise_if, raise_if_ok, bind_at,
  bind_ok, none, Option-cases, inl, inr, zero, suc,
}
use vb_api.Text.{lower}
use vb_api.Archive.Store.{
  ArchiveStoreItem, ArchiveDb, ArchiveError, bad_extension, exists_already, bad_description,
}
use vb_api.Archive.Requests.Laws.{text_eq_sym}
use vb_api.Archive.Files.Upload.{
  is_upload_extension, split_or_raise, mime_type_of, upload_rows, add_upload, upload_content,
  UploadFile, check_size, rsplit, read_content, is_bad_description, hash_exists, Uploaded,
  upload_file,
}

-- No two store items have one hash: the unique column of the table.
abbrev pub DistinctHashes : List ArchiveStoreItem → Type 0
DistinctHashes [] = Unit
DistinctHashes (t ∷ items) = (hash_exists t.sha256_hash items ≡ false) × DistinctHashes items

DistinctHashes-snoc :
    (items : List ArchiveStoreItem) (t : ArchiveStoreItem)
    → DistinctHashes items
    → hash_exists t.sha256_hash items ≡ false
    → DistinctHashes (items ++ t ∷ [])
unfolding hash_exists
DistinctHashes-snoc [] t apart fresh = (refl, tt)
DistinctHashes-snoc (s ∷ items) t apart fresh = (
  snoc items ∙ ground (arith, apart.0, fresh, text_eq_sym t.sha256_hash s.sha256_hash),
  DistinctHashes-snoc items t apart.1 (ground (arith, fresh)),
)
  where
    snoc :
        (rows : List ArchiveStoreItem)
        → hash_exists s.sha256_hash (rows ++ t ∷ [])
          ≡ (hash_exists s.sha256_hash rows || text_eq t.sha256_hash s.sha256_hash)
    snoc [] = ground arith
    snoc (r ∷ rows) = ground (arith, snoc rows)

take-all : (n : ℕ) (xs : List ℕ) → length (take (suc n) xs) ≤ n → take (suc n) xs ≡ xs
take-all n [] h = refl
take-all zero (x ∷ xs) h = absurd (omega arith)
take-all (suc n) (x ∷ xs) h = ap (λ ys. x ∷ ys) (take-all n xs (omega arith))

check_size_ok :
    (low high : ℕ) (content out : List ℕ)
    → check_size low high content ≡ ok out
    → (content ≡ out) × (low ≤ length out) × (length out ≤ high)
unfolding check_size
check_size_ok low high content out h = ground arith

-- The content read is the whole body, and its size is within the bounds.
read_content_ok :
    (body content : List ℕ)
    → read_content body ≡ ok content
    → (content ≡ body) × (2048 ≤ length body) × (length body ≤ 10485760)
unfolding read_content
read_content_ok body content h =
    let (same, low, high) = check_size_ok 2048 10485760 (take 10485761 body) content h in
    let whole = take-all 10485760 body (subst (λ c. length c ≤ 10485760) (sym same) high) in
    let all = sym same ∙ whole in
    (all, subst (λ c. 2048 ≤ length c) all low, subst (λ c. length c ≤ 10485760) all high)

not_bad_description : (t : Text) → is_bad_description t ≡ false → (5 ≤ length t) × (length t ≤ 125)
unfolding is_bad_description
not_bad_description t h = (ground arith, ground arith)

eq_true_of_not : (b : Bool) → not b ≡ false → b ≡ true
eq_true_of_not true h = refl
eq_true_of_not false h = cc

module _ (sha256 : List ℕ → Text) (store_path octets : Text) where
  upload_content_ok :
      (item_id file_id : Uuid) (now : ℕ) (parts : Text × Text) (mime_type description : Text)
      (user_id : Uuid) (content : List ℕ) (db db' : ArchiveDb) (up : Uploaded)
      → upload_content sha256 store_path octets item_id file_id now parts mime_type description
          user_id content db
        ≡ ok (up, db')
      → (hash_exists (sha256 content) db.items ≡ false)
        × (is_bad_description description ≡ false)
        × (up
            ≡ upload_rows store_path item_id file_id now parts mime_type description content
                (sha256 content)
                user_id)
        × (db' ≡ add_upload up db)
  unfolding upload_content
  upload_content_ok item_id file_id now parts mime description user_id content db db' up h =
      let made =
        upload_rows store_path item_id file_id now parts mime description content (sha256 content)
          user_id in
      let last : Result ArchiveError (Uploaded × ArchiveDb) = ok (made, add_upload made db) in
      let (free, next) =
        raise_if_ok (hash_exists (sha256 content) db.items) exists_already
          (raise_if (is_bad_description description) bad_description >> last) (up, db') h in
      let (fine, done) =
        raise_if_ok (is_bad_description description) bad_description last (up, db') next in
      (free, fine, cc, cc)

  upload_file_ok :
      (item_id file_id : Uuid) (now : ℕ) (file : UploadFile) (description : Text) (user_id : Uuid)
      (db db' : ArchiveDb) (up : Uploaded) (parts : Text × Text)
      → rsplit file.filename ≡ some parts
      → upload_file sha256 store_path octets item_id file_id now file description user_id db
        ≡ ok (up, db')
      → (is_upload_extension (map lower parts.1) ≡ true)
        × (content : List ℕ) × (read_content file.body ≡ ok content)
        × (upload_content sha256 store_path octets item_id file_id now parts
              (mime_type_of octets file.content_type)
              description
              user_id
              content
              db
            ≡ ok (up, db'))
  unfolding upload_file
  upload_file_ok item_id file_id now file description user_id db db' up parts split h =
      let mime = mime_type_of octets file.content_type in
      let last : Text × Text → List ℕ → Result ArchiveError (Uploaded × ArchiveDb) = λ ps c.
        upload_content sha256 store_path octets item_id file_id now ps mime description user_id c
          db in
      let checked : Text × Text → Result ArchiveError (Uploaded × ArchiveDb) = λ ps.
        raise_if (not (is_upload_extension (map lower ps.1))) bad_extension
        >> (read_content file.body >>= last ps) in
      let named =
        bind_at (split_or_raise (rsplit file.filename)) parts checked (up, db')
          (ap split_or_raise split) h in
      let (allowed, rest) =
        raise_if_ok (not (is_upload_extension (map lower parts.1))) bad_extension
          (read_content file.body >>= last parts) (up, db') named in
      let (content, read, stored) = bind_ok (read_content file.body) (last parts) (up, db') rest in
      (eq_true_of_not (is_upload_extension (map lower parts.1)) allowed, content, read, stored)

  -- An upload that `upload_file` accepts is stored: the whole body under the key of its digest, one
  -- store item with this digest and the size of the body, and one file that refers to the item and
  -- lies in no directory; all other rows stay. The size lies between 2 and 10240 KB, the description
  -- has 5 to 125 characters, the extension is among those allowed, and no two store items have one
  -- hash afterwards, if none had before.
  pub upload_file_lem :
      (item_id file_id : Uuid) (now : ℕ) (file : UploadFile) (description : Text) (user_id : Uuid)
      (db db' : ArchiveDb) (up : Uploaded)
      → DistinctHashes db.items
      → upload_file sha256 store_path octets item_id file_id now file description user_id db
        ≡ ok (up, db')
      → (up.key ≡ store_path ++ b'/' ∷ sha256 file.body)
        × (up.content ≡ file.body)
        × (up.item.sha256_hash ≡ sha256 file.body)
        × (db'.items ≡ db.items ++ up.item ∷ [])
        × (db'.files ≡ db.files ++ up.file ∷ [])
        × (up.file.archive_store_item_id ≡ up.item.id)
        × (up.file.archive_dir_id ≡ none)
        × (db'.dirs ≡ db.dirs)
        × (db'.comments ≡ db.comments)
        × (up.item.size ≡ length file.body)
        × (2048 ≤ up.item.size)
        × (up.item.size ≤ 10485760)
        × (5 ≤ length description)
        × (length description ≤ 125)
        × (is_upload_extension up.item.extension ≡ true)
        × DistinctHashes db'.items
  unfolding upload_file upload_rows add_upload
  upload_file_lem item_id file_id now file description user_id db db' up distinct h =
      elim (Option-cases (rsplit file.filename)) [
        | inl bare ↦ absurd (ground (arith, bare, h))
        | inr (parts, split) ↦
            let (allowed, content, read, rest) =
              upload_file_ok item_id file_id now file description user_id db db' up parts split h in
            let (free, fine, made, stored) =
              upload_content_ok item_id file_id now parts (mime_type_of octets file.content_type)
                description user_id content db db' up rest in
            let (whole, low, high) = read_content_ok file.body content read in
            let size : up.item.size ≡ length file.body =
              ap (λ (u : Uploaded). u.item.size) made ∙ ap length whole in
            let (short, long) = not_bad_description description fine in
            let hash = ap (λ (u : Uploaded). u.item.sha256_hash) made in
            let fresh = ap (λ t. hash_exists t db.items) hash ∙ free in
            (
              ap (λ (u : Uploaded). u.key) made ∙ ap (λ c. store_path ++ b'/' ∷ sha256 c) whole,
              ap (λ (u : Uploaded). u.content) made ∙ whole,
              hash ∙ ap sha256 whole,
              ap (λ (d : ArchiveDb). d.items) stored,
              ap (λ (d : ArchiveDb). d.files) stored,
              ap (λ (u : Uploaded). u.file.archive_store_item_id) made
                  ∙ sym (ap (λ (u : Uploaded). u.item.id) made),
              ap (λ (u : Uploaded). u.file.archive_dir_id) made,
              ap (λ (d : ArchiveDb). d.dirs) stored,
              ap (λ (d : ArchiveDb). d.comments) stored,
              size,
              omega (arith, size, low),
              omega (arith, size, high),
              short,
              long,
              ap (λ (u : Uploaded). is_upload_extension u.item.extension) made ∙ allowed,
              subst DistinctHashes (sym (ap (λ (d : ArchiveDb). d.items) stored))
                  (DistinctHashes-snoc db.items up.item distinct fresh),
            )
      ]
