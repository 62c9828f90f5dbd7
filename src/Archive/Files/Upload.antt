-- ===== src/Archive/Files/Upload.antt =====
-- `upload_file`: the checks of an upload, and the rows and the stored content that it makes.
pub mod Bounds
use vb_api.Prelude.{
  ℕ, ◌+◌, ◌*◌, Uuid, Text, Bool, true, false, not, ◌&&◌, ◌||◌, Option, none, some, List, [], ◌∷◌,
  ◌++◌, map, any, length, take, ltb, ◌==◌, text_eq, if◌then◌else◌, Result, ok, err, ◌>>=◌, ◌>>◌,
  raise_if,
}
use vb_api.Text.{lower}
use vb_api.Archive.Store.{
  ArchiveStoreItem, ArchiveFile, ArchiveDb, ArchiveError, no_extension, bad_extension, too_small,
  too_large, exists_already, bad_description,
}
use vb_api.Archive.Permissions.{has_text}

abbrev pub upload_min_kb : ℕ
upload_min_kb = 2

abbrev pub upload_max_kb : ℕ
upload_max_kb = 10240

abbrev pub upload_desc_min : ℕ
upload_desc_min = 5

abbrev pub upload_desc_max : ℕ
upload_desc_max = 125

-- `UploadFile`: the body is a list of bytes, and an absent file name is the empty text.
pub record UploadFile : Type 0 where
  pub filename : Text
  pub body : List ℕ
  pub content_type : Text

-- `filename.rsplit(".", 1)`: the part before the last full stop and the one after it, and none
-- without a full stop.
unfoldable pub rsplit : Text → Option (Text × Text)
rsplit [] = none
rsplit (x ∷ s) = elim (rsplit s) [
  | some (name, ext) ↦ some (x ∷ name, ext)
  | none ↦ if x == b'.' then some ([], s) else none
]

abbrev pub upload_extensions : List Text
upload_extensions =
    (b'g' ∷ b'i' ∷ b'f' ∷ [])
    ∷ (b'j' ∷ b'p' ∷ b'g' ∷ [])
    ∷ (b'j' ∷ b'p' ∷ b'e' ∷ b'g' ∷ [])
    ∷ (b'p' ∷ b'n' ∷ b'g' ∷ [])
    ∷ (b'd' ∷ b'o' ∷ b'c' ∷ [])
    ∷ (b'd' ∷ b'o' ∷ b'c' ∷ b'x' ∷ [])
    ∷ (b'x' ∷ b'l' ∷ b's' ∷ [])
    ∷ (b'x' ∷ b'l' ∷ b's' ∷ b'x' ∷ [])
    ∷ (b'p' ∷ b'd' ∷ b'f' ∷ [])
    ∷ (b't' ∷ b'x' ∷ b't' ∷ [])
    ∷ (b'm' ∷ b'p' ∷ b'3' ∷ [])
    ∷ (b'm' ∷ b'p' ∷ b'4' ∷ [])
    ∷ (b'a' ∷ b'v' ∷ b'i' ∷ [])
    ∷ (b'm' ∷ b'p' ∷ b'g' ∷ b'a' ∷ [])
    ∷ (b'a' ∷ b'i' ∷ [])
    ∷ (b'e' ∷ b'p' ∷ b's' ∷ [])
    ∷ []

-- `content_type or "application/octet-stream"`
abbrev pub mime_type_of : Text → Text → Text
mime_type_of fallback [] = fallback
mime_type_of fallback (x ∷ s) = x ∷ s

abbrev pub split_or_raise : Option (Text × Text) → Result ArchiveError (Text × Text)
split_or_raise none = err no_extension
split_or_raise (some parts) = ok parts

unfoldable pub hash_exists : Text → List ArchiveStoreItem → Bool
hash_exists sha256 items = any (λ (t : ArchiveStoreItem). text_eq t.sha256_hash sha256) items

-- The checks of the size, between `low` and `high` bytes.
unfoldable pub check_size : ℕ → ℕ → List ℕ → Result ArchiveError (List ℕ)
check_size low high content = do
  raise_if (ltb (length content) low) too_small
  raise_if (ltb high (length content)) too_large
  ok content

-- `file.file.read(UPLOAD_MAX_KB * 1024 + 1)`, checked.
unfoldable pub read_content : List ℕ → Result ArchiveError (List ℕ)
unfolding check_size
read_content body =
    check_size (upload_min_kb * 1024) (upload_max_kb * 1024) (take (upload_max_kb * 1024 + 1) body)

unfoldable pub is_upload_extension : Text → Bool
is_upload_extension ext = has_text ext upload_extensions

unfoldable pub is_bad_description : Text → Bool
is_bad_description description =
    ltb (length description) upload_desc_min || ltb upload_desc_max (length description)

-- What an upload makes: the call `storage.upload` of a key and its content, and the two rows.
pub record Uploaded : Type 0 where
  pub key : Text
  pub content : List ℕ
  pub item : ArchiveStoreItem
  pub file : ArchiveFile

-- The call and the rows of an accepted upload: `hash` is the digest of the content.
unfoldable pub upload_rows :
    Text → Uuid → Uuid → ℕ → Text × Text → Text → Text → List ℕ → Text → Uuid → Uploaded
upload_rows store_path item_id file_id now parts mime_type description content hash user_id =
    record {
      key = store_path ++ b'/' ∷ hash;
      content = content;
      item = record {
        id = item_id;
        name = parts.0;
        description = some description;
        extension = map lower parts.1;
        mime_type = mime_type;
        size = length content;
        sha256_hash = hash;
        created_by = some user_id;
        created_at = now;
      };
      file = record {
        id = file_id;
        archive_dir_id = none;
        description = some description;
        archive_store_item_id = item_id;
        created_at = now;
        deleted_at = none;
      };
    }

-- `db.add` of both rows.
unfoldable pub add_upload : Uploaded → ArchiveDb → ArchiveDb
add_upload up db = record db { items = db.items ++ up.item ∷ []; files = db.files ++ up.file ∷ [] }

-- `sha256` is the digest of hashlib, `store_path` the setting `S3_PATH_ARCHIVE_STORE`, `octets` the
-- text "application/octet-stream". The content is read up to one byte past the limit.
module _ (sha256 : List ℕ → Text) (store_path octets : Text) where
  -- The part of `upload_file` after the content has been read.
  unfoldable pub upload_content :
      Uuid
      → Uuid
      → ℕ
      → Text × Text
      → Text
      → Text
      → Uuid
      → List ℕ
      → ArchiveDb
      → Result ArchiveError (Uploaded × ArchiveDb)
  unfolding hash_exists is_bad_description upload_rows add_upload
  upload_content item_id file_id now parts mime_type description user_id content db = do
    raise_if (hash_exists (sha256 content) db.items) exists_already
    raise_if (is_bad_description description) bad_description
    let up =
        upload_rows store_path item_id file_id now parts mime_type description content
          (sha256 content) user_id
    ok (up, add_upload up db)

  unfoldable pub upload_file :
      Uuid
      → Uuid
      → ℕ
      → UploadFile
      → Text
      → Uuid
      → ArchiveDb
      → Result ArchiveError (Uploaded × ArchiveDb)
  unfolding rsplit is_upload_extension read_content upload_content
  upload_file item_id file_id now file description user_id db = do
    parts ← split_or_raise (rsplit file.filename)
    raise_if (not (is_upload_extension (map lower parts.1))) bad_extension
    content ← read_content file.body
    upload_content item_id file_id now parts (mime_type_of octets file.content_type) description
        user_id content db
