-- ===== src/Archive/Search/Seen.antt =====
-- The test of the search on a single hit is as strict as the guards of the single reads.
use vb_api.Prelude.{
  ◌≡◌, Uuid, true, false, some, List, contains, arith, Bool-cases, Option-cases, inl, inr, is_none,
  if◌then◌else◌, ok,
}
use vb_api.Archive.Store.{
  ArchiveDir, ArchiveFile, ArchiveDb, ArchiveUser, is_archive_admin, get_dir, get_parent,
}
use vb_api.Archive.Permissions.{can_insight, require_insight_or_admin}
use vb_api.Archive.Trash.{trashed_dir_ids}
use vb_api.Archive.Reading.{
  require_readable_dir, require_readable_in, require_readable_file, refuse_trashed,
}
use vb_api.Archive.Search.{SearchHit, dir_hit, file_hit, may_see, may_see_parent, trash_for}

-- The member passes the guards of `get_dir_detail`, or the one of a single file.
abbrev pub MayRead : ArchiveUser → ArchiveDb → SearchHit → Type 0
MayRead user db (dir_hit d) =
    (refuse_trashed (is_archive_admin user) db d ≡ ok tt)
    × (require_insight_or_admin user db.sets db.dirs d ≡ ok tt)
MayRead user db (file_hit f) = require_readable_file db f user false ≡ ok tt

module _ (user : ArchiveUser) (db : ArchiveDb) (trashed : List Uuid)
    (trash : trash_for (is_archive_admin user) db ≡ ok trashed) where
  -- What a member other than an admin may see is not in the trash, and the member has insight.
  seen_member :
      (d : ArchiveDir)
      → is_archive_admin user ≡ false
      → may_see user db trashed d ≡ ok true
      → (trashed_dir_ids db.dirs ≡ some trashed)
        × (contains d.id trashed ≡ false)
        × (can_insight user db.sets db.dirs d ≡ some true)
  unfolding may_see trash_for
  seen_member d member seen = elim (Option-cases (trashed_dir_ids db.dirs)) [
    | inl endless ↦ absurd (ground (arith, member, endless, trash))
    | inr (ids, ends) ↦ elim (Option-cases (can_insight user db.sets db.dirs d)) [
      | inl unknown ↦ absurd (ground (arith, unknown, seen))
      | inr (b, answer) ↦
          (ground (arith, member, ends, trash), ground (arith, seen), ground (arith, answer, seen))
    ]
  ]

  pub seen_dir :
      (d : ArchiveDir)
      → (if is_archive_admin user then ok true else may_see user db trashed d) ≡ ok true
      → MayRead user db (dir_hit d)
  unfolding refuse_trashed require_insight_or_admin
  seen_dir d seen = elim (Bool-cases (is_archive_admin user)) [
    | inl admin ↦ (ground (arith, admin), ground (arith, admin))
    | inr member ↦
        let (trash_ids, live, insight) = seen_member d member (ground (arith, member, seen)) in
        (ground (arith, member, trash_ids, live), ground (arith, member, insight))
  ]

  pub seen_file :
      (f : ArchiveFile)
      → is_none f.deleted_at ≡ true
      → (if is_archive_admin user
          then ok true
          else may_see_parent user db trashed (get_parent f.archive_dir_id db.dirs))
        ≡ ok true
      → MayRead user db (file_hit f)
  unfolding require_readable_file require_readable_in require_readable_dir require_insight_or_admin
      may_see_parent
  seen_file f live seen = elim (Bool-cases (is_archive_admin user)) [
    | inl admin ↦ ground (arith, admin)
    | inr member ↦ elim (Option-cases f.archive_dir_id) [
      | inl unfiled ↦ absurd (ground (arith, member, unfiled, seen))
      | inr (i, filed) ↦ elim (Option-cases (get_dir i db.dirs)) [
        | inl gone ↦ absurd (ground (arith, member, filed, gone, seen))
        | inr (d, found) ↦
            let (trash_ids, clear, insight) =
              seen_member d member (ground (arith, member, filed, found, seen)) in
            ground (arith, member, live, filed, found, trash_ids, clear, insight)
      ]
    ]
  ]
