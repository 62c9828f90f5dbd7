-- ===== src/Archive/Permissions/Laws.antt =====
-- What the effective permissions of a directory are: its own, and those of every directory above it
-- whose permissions are recursive.
use vb_api.Prelude.{
  ℕ, zero, suc, ◌<◌, ◌≡◌, refl, ap, ◌∙◌, Uuid, Text, Bool, true, false, ◌&&◌, ◌||◌, Option, none,
  some, List, [], ◌∷◌, ◌++◌, length, any, arith, Bool-cases, inl, inr, text_eq, text_eq→eq,
}
use vb_api.Archive.Store.{Grant, ArchiveDir, PermSets, is_set, get_dir, get_parent}
use vb_api.Forest.{Climb, top, up}
use vb_api.Archive.Tree.{up_from, enough}
use vb_api.Archive.Tree.Laws.{up_from-row, Climb-length_le}
use vb_api.Archive.Permissions.{
  has_text, grant_key, is_known, own_loop, own_permissions, insert_text, sorted_set, merged,
  inherited_loop, inherited_permissions, get_effective_permissions,
}

-- A grant of `key` to an organization and a state that exist.
abbrev pub grants : PermSets → Text → ArchiveDir → Bool
grants sets key d =
    any (λ (p : Grant). is_known sets p && text_eq (grant_key p) key) d.archive_permissions

-- The row `i` passes `key` on to the directories below it.
abbrev pub passes_on : PermSets → Text → Option ArchiveDir → Bool
passes_on sets key none = false
passes_on sets key (some d) = is_set d.recursive_permissions && grants sets key d

abbrev pub passed_on : PermSets → List ArchiveDir → Text → List Uuid → Bool
passed_on sets dirs key is = any (λ i. passes_on sets key (get_dir i dirs)) is

has_text-append :
    (t : Text) (xs ys : List Text) → has_text t (xs ++ ys) ≡ (has_text t xs || has_text t ys)
has_text-append t [] ys = refl
has_text-append t (x ∷ xs) ys = ground (arith, has_text-append t xs ys)

has_text_of_eq :
    (s t : Text) (texts : List Text) → text_eq s t ≡ true → has_text s texts ≡ has_text t texts
has_text_of_eq s t texts h = ap (λ u. has_text u texts) (text_eq→eq s t h)

own_loop_lem :
    (sets : PermSets) (ps : List Grant) (result : List Text) (key : Text)
    → has_text key (own_loop sets ps result) ≡ (
        has_text key result || any (λ (p : Grant). is_known sets p && text_eq (grant_key p) key) ps)
unfolding own_loop
own_loop_lem sets [] result key = ground arith
own_loop_lem sets (p ∷ ps) result key =
    let kept = own_loop_lem sets ps result key in
    let added = own_loop_lem sets ps (result ++ grant_key p ∷ []) key in
    let append = has_text-append key result (grant_key p ∷ []) in
    elim (Bool-cases (has_text (grant_key p) result)) [
      | inl held ↦ elim (Bool-cases (text_eq (grant_key p) key)) [
        | inl same ↦
            let present = has_text_of_eq (grant_key p) key result same in
            ground (arith, held, same, present, kept)
        | inr other ↦ ground (arith, held, other, kept)
      ]
      | inr new ↦ ground (arith, new, kept, added, append)
    ]

has_text-insert_text :
    (key t : Text) (texts : List Text)
    → has_text key (insert_text t texts) ≡ (text_eq t key || has_text key texts)
unfolding insert_text
has_text-insert_text key t [] = refl
has_text-insert_text key t (s ∷ texts) = elim (Bool-cases (text_eq s t)) [
  | inl same ↦ ground (arith, same, ap (λ u. text_eq u key) (text_eq→eq s t same))
  | inr other ↦ ground (arith, other, has_text-insert_text key t texts)
]

has_text-sorted_set :
    (key : Text) (texts : List Text) → has_text key (sorted_set texts) ≡ has_text key texts
unfolding sorted_set
has_text-sorted_set key [] = refl
has_text-sorted_set key (t ∷ texts) =
    has_text-insert_text key t (sorted_set texts)
    ∙ ap (λ b. text_eq t key || b) (has_text-sorted_set key texts)

pub own_permissions_lem :
    (sets : PermSets) (d : ArchiveDir) (key : Text)
    → has_text key (own_permissions sets d) ≡ grants sets key d
unfolding own_permissions
own_permissions_lem sets d key = own_loop_lem sets d.archive_permissions [] key

merged_lem :
    (own : List Text) (inherited : Option (List Text)) (keys : List Text) (key : Text)
    → inherited ≡ some keys
    → (out : List Text) × (merged own inherited ≡ some out)
      × (has_text key out ≡ (has_text key own || has_text key keys))
merged_lem own none keys key h = cc
merged_lem own (some inherited) keys key h = (
  sorted_set (own ++ inherited),
  refl,
  has_text-sorted_set key (own ++ inherited)
      ∙ has_text-append key own inherited
      ∙ ap (λ ks. has_text key own || has_text key ks) (cc),
)

inherited_loop_lem :
    (n : ℕ) (sets : PermSets) (dirs : List ArchiveDir) (key : Text) {o : Option Uuid}
    {is : List Uuid}
    → Climb (up_from dirs) o is
    → length is < n
    → (keys : List Text) × (inherited_loop n sets dirs (get_parent o dirs) ≡ some keys)
      × (has_text key keys ≡ passed_on sets dirs key is)
unfolding inherited_loop
inherited_loop_lem zero sets dirs key c lt = absurd (omega arith)
inherited_loop_lem (suc n) sets dirs key top lt = ([], refl, refl)
inherited_loop_lem (suc n) sets dirs key (up {i} {p} {is} e c) lt =
    let (d, found, above) = up_from-row i dirs p e in
    let (keys, ends, meaning) = inherited_loop_lem n sets dirs key c (omega arith) in
    let ends' : inherited_loop n sets dirs (get_parent d.archive_dir_id dirs) ≡ some keys =
      rw above ends in
    elim (Bool-cases (is_set d.recursive_permissions)) [
      | inl recursive ↦
          let (out, result, members) =
            merged_lem (own_permissions sets d)
              (inherited_loop n sets dirs (get_parent d.archive_dir_id dirs)) keys key ends' in
          (
            out,
            rw (found, inherited_loop) (rw recursive result),
            rw found (ground (arith, recursive, members, meaning, own_permissions_lem sets d key)),
          )
      | inr plain ↦ (
        keys,
        rw (found, inherited_loop) (rw plain ends'),
        rw found (ground (arith, plain, meaning)),
      )
    ]

-- For a directory from which the climb reaches a root, `get_effective_permissions` ends, and a key
-- is among its result exactly if the directory itself grants it, or a directory above it does whose
-- permissions are recursive. A grant counts only if its organization and its state exist.
pub get_effective_permissions_lem :
    (sets : PermSets) (dirs : List ArchiveDir) (d : ArchiveDir) (is : List Uuid) (key : Text)
    → Climb (up_from dirs) d.archive_dir_id is
    → (keys : List Text) × (get_effective_permissions sets dirs d ≡ some keys)
      × (has_text key keys ≡ (grants sets key d || passed_on sets dirs key is))
unfolding get_effective_permissions inherited_permissions
get_effective_permissions_lem sets dirs d is key c =
    let (inherited, ends, meaning) =
      inherited_loop_lem (enough dirs) sets dirs key c (omega (arith, Climb-length_le dirs c)) in
    let (out, result, members) =
      merged_lem (own_permissions sets d) (inherited_permissions sets dirs d) inherited key ends in
    (out, result, members ∙ ground (arith, own_permissions_lem sets d key, meaning))
