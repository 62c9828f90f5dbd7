-- ===== src/Archive/Reading/Readable.antt =====
-- What a listing shows, the member may read: the rules of the listings and of the single files agree.
use mathlib.Core.Path.{subst}
use vb_api.Prelude.{
  ℕ, ◌≡◌, refl, ap, sym, ◌∙◌, Uuid, Bool, true, false, ◌||◌, Option, none, some, List, [], ◌∷◌,
  filter, All, All-filter, arith, Bool-cases, Option-cases, inl, inr, ==_iff, is_id, is_none, ok,
}
use vb_api.Archive.Store.{
  ArchiveDir, ArchiveFile, ArchiveDb, ArchiveUser, is_archive_admin, get_dir,
}
use vb_api.Archive.Tree.Laws.{get_dir-id}
use vb_api.Archive.Permissions.{can_insight, require_insight_or_admin}
use vb_api.Archive.Trash.{trashed_dir_ids}
use vb_api.Archive.Reading.{
  require_readable_dir, require_readable_in, require_readable_file, Bucket, place, put, list_files,
  Content, build_dir_detail_content, DirDetail, refuse_trashed, get_dir_detail,
}

-- `P` holds of every row of the three lists.
abbrev pub AllIn : (ArchiveFile → Type 0) → Bucket ArchiveFile → Type 0
AllIn P b = All P b.insight × (All P b.admin) × (All P b.trashed)

put-AllIn :
    (P : ArchiveFile → Type 0) (admin insight : Bool) (o : Option ℕ) (f : ArchiveFile)
    (b : Bucket ArchiveFile)
    → ((admin || is_none o) ≡ true → P f)
    → AllIn P b
    → AllIn P (put (place admin insight o) f b)
put-AllIn P true insight (some t) f b shown held = (held.0, held.1, (shown refl, held.2))
put-AllIn P false insight (some t) f b shown held = held
put-AllIn P admin true none f b shown held = ((shown (ground arith), held.0), held.1, held.2)
put-AllIn P true false none f b shown held = (held.0, (shown refl, held.1), held.2)
put-AllIn P false false none f b shown held = held

list_files-AllIn :
    (P : ArchiveFile → Type 0) (i : Uuid) (admin insight : Bool) (files : List ArchiveFile)
    → ((f : ArchiveFile)
        → is_id f.archive_dir_id i ≡ true
        → (admin || is_none f.deleted_at) ≡ true
        → P f)
    → All (λ (f : ArchiveFile). is_id f.archive_dir_id i ≡ true) files
    → AllIn P (list_files admin insight files)
unfolding list_files
list_files-AllIn P i admin insight [] shown within = (tt, tt, tt)
list_files-AllIn P i admin insight (f ∷ files) shown within =
    put-AllIn P admin insight f.deleted_at f (list_files admin insight files) (shown f within.0)
      (list_files-AllIn P i admin insight files shown within.1)

is_id-eq : (o : Option Uuid) (i : Uuid) → is_id o i ≡ true → o ≡ some i
is_id-eq none i h = cc
is_id-eq (some j) i h = ap some ((==_iff j i).0 h)

get_dir_detail_ok :
    (dir_id : Uuid) (user : ArchiveUser) (db : ArchiveDb) (d : ArchiveDir) (detail : DirDetail)
    → get_dir dir_id db.dirs ≡ some d
    → get_dir_detail dir_id user db ≡ ok detail
    → (refuse_trashed (is_archive_admin user) db d ≡ ok tt)
      × (require_insight_or_admin user db.sets db.dirs d ≡ ok tt)
      × (build_dir_detail_content (is_archive_admin user) user db d ≡ ok detail.content)
unfolding get_dir_detail
get_dir_detail_ok dir_id user db d detail found h = ground arith

content_files :
    (admin : Bool) (user : ArchiveUser) (db : ArchiveDb) (d : ArchiveDir) (content : Content)
    → build_dir_detail_content admin user db d ≡ ok content
    → (insight : Bool) × (content.files
        ≡ list_files admin insight
            (filter (λ (f : ArchiveFile). is_id f.archive_dir_id d.id) db.files))
unfolding build_dir_detail_content
content_files admin user db d content h = elim (Option-cases (can_insight user db.sets db.dirs d)) [
  | inl endless ↦ absurd (ground (arith, endless, h))
  | inr (insight, answer) ↦ (insight, ground (arith, answer, h))
]

-- A file of a directory that the member was let into.
shown-readable :
    (dir_id : Uuid) (user : ArchiveUser) (db : ArchiveDb) (d : ArchiveDir) (f : ArchiveFile)
    → get_dir dir_id db.dirs ≡ some d
    → refuse_trashed (is_archive_admin user) db d ≡ ok tt
    → require_insight_or_admin user db.sets db.dirs d ≡ ok tt
    → is_id f.archive_dir_id d.id ≡ true
    → (is_archive_admin user || is_none f.deleted_at) ≡ true
    → require_readable_file db f user false ≡ ok tt
unfolding require_readable_file require_readable_in require_readable_dir refuse_trashed
shown-readable dir_id user db d f found live insight within shown =
    let own_dir = is_id-eq f.archive_dir_id d.id within in
    let row = ap (λ i. get_dir i db.dirs) (get_dir-id dir_id db.dirs d found) ∙ found in
    elim (Bool-cases (is_archive_admin user)) [
      | inl admin ↦ rw admin refl
      | inr member ↦ elim (Option-cases (trashed_dir_ids db.dirs)) [
        | inl endless ↦ absurd (ground (arith, member, endless, live))
        | inr (trash, ends) ↦ ground (arith, member, own_dir, row, ends, live, insight, shown)
      ]
    ]

-- Every file that `get_dir_detail` lists for a member, in whichever of the three lists, is one that
-- `_require_readable_file` lets the same member read.
pub get_dir_detail-readable :
    (dir_id : Uuid) (user : ArchiveUser) (db : ArchiveDb) (detail : DirDetail)
    → get_dir_detail dir_id user db ≡ ok detail
    → AllIn (λ f. require_readable_file db f user false ≡ ok tt) detail.content.files
unfolding get_dir_detail
get_dir_detail-readable dir_id user db detail h = elim (Option-cases (get_dir dir_id db.dirs)) [
  | inl gone ↦ absurd (ground (arith, gone, h))
  | inr (d, found) ↦
      let admin = is_archive_admin user in
      let (live, entered, built) = get_dir_detail_ok dir_id user db d detail found h in
      let (insight, listed) = content_files admin user db d detail.content built in
      let P = λ (f : ArchiveFile). require_readable_file db f user false ≡ ok tt in
      subst (AllIn P) (sym listed) (
        list_files-AllIn P d.id admin insight
          (filter (λ (f : ArchiveFile). is_id f.archive_dir_id d.id) db.files)
          (λ f within shown. shown-readable dir_id user db d f found live entered within shown)
          (All-filter (λ (f : ArchiveFile). is_id f.archive_dir_id d.id) db.files))
]
