-- ===== src/Archive/Dirs/Grants.antt =====
-- The grants that a directory is saved with: what is displayed is what was requested.
use mathlib.Core.Path.{subst}
use mathlib.Core.List.{append-nil, append_assoc}
use vb_api.Prelude.{
  ◌≡◌, refl, ap, sym, ◌∙◌, Uuid, Text, true, false, not, some, List, [], ◌∷◌, ◌++◌, map, all,
  contains, arith, Bool-cases, inl, inr, ◌==◌, ==_iff, ok,
}
use vb_api.Archive.Store.{Grant, ArchiveDir, PermSets, ArchiveDb, ArchiveUser}
use vb_api.Archive.Permissions.{has_text, grant_key, is_known, own_loop, own_permissions}
use vb_api.Archive.Dirs.{
  DirData, partition, known_pairs, unknown_perms, pairs_unless, parse_permissions, update_dir,
}
use vb_api.Archive.Requests.{DirSaveRequest, is_perm, validate_dir_save}
use vb_api.Archive.Requests.Laws.{
  Unique, has_text-snoc, text_eq_sym, is_perm-contains, validate_dir_save_ok,
}

-- A key taken apart at its first underscore and put together again.
partition_lem : (p : Text) → contains b'_' p ≡ true → grant_key (partition p) ≡ p
unfolding partition
partition_lem [] h = cc
partition_lem (x ∷ p) h = elim (Bool-cases (x == b'_')) [
  | inl same ↦ rw same (ap (λ y. y ∷ p) (sym ((==_iff x b'_').0 same)))
  | inr other ↦ rw other (ap (λ q. x ∷ q) (partition_lem p (ground (arith, other, h))))
]

pub known_pairs_lem :
    (sets : PermSets) (perms : List Text)
    → all is_perm perms ≡ true
    → unknown_perms sets perms ≡ []
    → (map grant_key (known_pairs sets perms) ≡ perms)
      × (all (is_known sets) (known_pairs sets perms) ≡ true)
unfolding known_pairs unknown_perms
known_pairs_lem sets [] formed known = (refl, refl)
known_pairs_lem sets (p ∷ perms) formed known = elim (Bool-cases (is_known sets (partition p))) [
  | inl here ↦
      let (keys, rest) =
        known_pairs_lem sets perms (ground (arith, formed)) (ground (arith, here, known)) in
      let key = partition_lem p (is_perm-contains p (ground (arith, formed))) in
      rw here (cc, ground (arith, here, rest))
  | inr absent ↦ absurd (ground (arith, absent, known))
]

pub parse_permissions_ok :
    (sets : PermSets) (perms : List Text) (pairs : List Grant)
    → parse_permissions sets perms ≡ ok pairs
    → (unknown_perms sets perms ≡ []) × (pairs ≡ known_pairs sets perms)
unfolding parse_permissions
parse_permissions_ok sets perms pairs h = go (unknown_perms sets perms) h
  where
    go :
        (unknown : List Text)
        → pairs_unless unknown (known_pairs sets perms) ≡ ok pairs
        → (unknown ≡ []) × (pairs ≡ known_pairs sets perms)
    go [] e = (refl, cc)
    go (u ∷ unknown) e = cc

fresh-snoc :
    (key : Text) (result keys : List Text)
    → has_text key keys ≡ false
    → all (λ t. not (has_text t result)) keys ≡ true
    → all (λ t. not (has_text t (result ++ key ∷ []))) keys ≡ true
fresh-snoc key result [] apart fresh = refl
fresh-snoc key result (t ∷ keys) apart fresh =
    ground (
      arith,
      apart,
      fresh,
      has_text-snoc t key result,
      text_eq_sym key t,
      fresh-snoc key result keys,
    )

own_loop_known :
    (sets : PermSets) (ps : List Grant) (result : List Text)
    → all (is_known sets) ps ≡ true
    → Unique (map grant_key ps)
    → all (λ t. not (has_text t result)) (map grant_key ps) ≡ true
    → own_loop sets ps result ≡ result ++ map grant_key ps
unfolding own_loop
own_loop_known sets [] result known u fresh = sym (append-nil result)
own_loop_known sets (p ∷ ps) result known u fresh =
    let new : has_text (grant_key p) result ≡ false = ground (arith, fresh) in
    let here : is_known sets p ≡ true = ground (arith, known) in
    let later = fresh-snoc (grant_key p) result (map grant_key ps) u.0 (ground (arith, fresh)) in
    rw (new, here)
      (own_loop_known sets ps (result ++ grant_key p ∷ []) (ground (arith, known)) u.1 later
        ∙ append_assoc result (grant_key p ∷ []) (map grant_key ps))

nothing_seen : (keys : List Text) → all (λ t. not (has_text t [])) keys ≡ true
nothing_seen [] = refl
nothing_seen (t ∷ keys) = nothing_seen keys

update_dir_grants :
    (dir_id : Uuid) (input : DirData) (user : ArchiveUser) (db db' : ArchiveDb) (d : ArchiveDir)
    → update_dir dir_id input user db ≡ ok (d, db')
    → (db'.sets ≡ db.sets)
      × (parse_permissions db.sets input.permissions ≡ ok d.archive_permissions)
unfolding update_dir
update_dir_grants dir_id input user db db' d h = ground arith

-- The permissions of a directory's body that the validators let through and `update_dir` accepts
-- come back from `_own_permissions` of the updated directory: the same texts in the same order.
pub own_permissions-update_dir :
    (body : DirSaveRequest) (input : DirData) (dir_id : Uuid) (user : ArchiveUser)
    (db db' : ArchiveDb) (d : ArchiveDir)
    → validate_dir_save body ≡ some input
    → update_dir dir_id input user db ≡ ok (d, db')
    → own_permissions db'.sets d ≡ input.permissions
unfolding own_permissions
own_permissions-update_dir body input dir_id user db db' d valid h =
    let (_, _, formed, unique) = validate_dir_save_ok body input valid in
    let (sets, parsed) = update_dir_grants dir_id input user db db' d h in
    let (known, pairs) =
      parse_permissions_ok db.sets input.permissions d.archive_permissions parsed in
    let (keys, all_known) = known_pairs_lem db.sets input.permissions formed known in
    let texts = ap (map grant_key) pairs ∙ keys in
    ap (λ s. own_loop s d.archive_permissions []) sets
    ∙ own_loop_known db.sets d.archive_permissions []
        (ap (all (is_known db.sets)) pairs ∙ all_known) (subst Unique (sym texts) unique)
        (nothing_seen (map grant_key d.archive_permissions))
    ∙ texts
