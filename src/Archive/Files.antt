-- ===== src/Archive/Files.antt =====
-- The operations on files and comments: `update_file`, `delete_file`, `restore_file`,
-- `get_unfiled_uploads`, `create_comment` and `delete_comment`. A look-up of the store item of a
-- file succeeds by the foreign key.
pub mod Erasure
pub mod Upload
use vb_api.Prelude.{
  ℕ, Uuid, Text, Bool, true, false, not, ◌&&◌, ◌||◌, Option, none, some, List, [], ◌∷◌, ◌++◌,
  filter, find, is_id, is_none, count_if, ◌==◌, if◌then◌else◌, Result, ok, err, ◌>>=◌, ◌>>◌,
  raise_if,
}
use vb_api.Archive.Store.{
  ArchiveFile, ArchiveFileComment, ArchiveDb, ArchiveUser, is_archive_admin, get_file, get_item,
  ArchiveError, file_not_found, comment_not_found, not_own_comment,
}
use vb_api.Archive.Permissions.{require_admin}
use vb_api.Archive.Reading.{is_uploader, require_readable_file}

-- The row `f` in place of the one with its id.
unfoldable pub store_file : ArchiveFile → List ArchiveFile → List ArchiveFile
store_file f [] = []
store_file f (g ∷ files) = (if g.id == f.id then f else g) ∷ store_file f files

abbrev pub file_or_raise : Option ArchiveFile → Result ArchiveError ArchiveFile
file_or_raise none = err file_not_found
file_or_raise (some f) = ok f

unfoldable pub update_file :
    Uuid → Option Text → ArchiveUser → ArchiveDb → Result ArchiveError ArchiveDb
unfolding require_admin store_file
update_file file_id description user db = do
  require_admin user
  f ← file_or_raise (get_file file_id db.files)
  ok (record db { files = store_file (record f { description = description }) db.files })

unfoldable pub delete_file : ℕ → Uuid → ArchiveUser → ArchiveDb → Result ArchiveError ArchiveDb
unfolding require_admin store_file
delete_file now file_id user db = do
  require_admin user
  f ← file_or_raise (get_file file_id db.files)
  ok (record db { files = store_file (record f { deleted_at = some now }) db.files })

unfoldable pub restore_file : Uuid → ArchiveUser → ArchiveDb → Result ArchiveError ArchiveDb
unfolding require_admin store_file
restore_file file_id user db = do
  require_admin user
  f ← file_or_raise (get_file file_id db.files)
  ok (record db { files = store_file (record f { deleted_at = none }) db.files })

-- The rows that `get_unfiled_uploads` lists.
unfoldable pub get_unfiled_uploads : ArchiveUser → ArchiveDb → List ArchiveFile
get_unfiled_uploads user db =
    filter
      (λ (f : ArchiveFile).
        is_none f.archive_dir_id
        && is_none f.deleted_at
        && is_uploader user (get_item f.archive_store_item_id db.items))
      db.files

unfoldable pub get_unsorted_upload_count : ArchiveDb → ℕ
get_unsorted_upload_count db =
    count_if (λ (f : ArchiveFile). is_none f.archive_dir_id && is_none f.deleted_at) db.files

abbrev pub get_comment : Uuid → List ArchiveFileComment → Option ArchiveFileComment
get_comment i comments = find (λ (c : ArchiveFileComment). c.id == i) comments

-- `content` is the validated body.
unfoldable pub create_comment :
    Uuid
    → ℕ
    → Uuid
    → Text
    → ArchiveUser
    → ArchiveDb
    → Result ArchiveError (ArchiveFileComment × ArchiveDb)
unfolding require_readable_file
create_comment new_id now file_id content user db = do
  f ← file_or_raise (get_file file_id db.files)
  require_readable_file db f user false
  let c : ArchiveFileComment = record {
    id = new_id;
    archive_file_id = f.id;
    content = content;
    created_by = some user.id;
    created_at = now;
    deleted_at = none;
  }
  ok (c, record db { comments = db.comments ++ c ∷ [] })

unfoldable pub store_comment :
    ArchiveFileComment → List ArchiveFileComment → List ArchiveFileComment
store_comment c [] = []
store_comment c (d ∷ comments) = (if d.id == c.id then c else d) ∷ store_comment c comments

-- `delete_comment`, after the look-ups of the file and the comment.
abbrev pub comment_of :
    Option ArchiveFile → Option ArchiveFileComment → Result ArchiveError ArchiveFileComment
comment_of none c = err comment_not_found
comment_of (some f) none = err comment_not_found
comment_of (some f) (some c) = if c.archive_file_id == f.id then ok c else err comment_not_found

unfoldable pub delete_comment :
    ℕ → Uuid → Uuid → ArchiveUser → ArchiveDb → Result ArchiveError ArchiveDb
unfolding is_archive_admin store_comment
delete_comment now file_id comment_id user db = do
  c ← comment_of (get_file file_id db.files) (get_comment comment_id db.comments)
  raise_if (not (is_id c.created_by user.id) && not (is_archive_admin user)) not_own_comment
  ok (record db { comments = store_comment (record c { deleted_at = some now }) db.comments })
