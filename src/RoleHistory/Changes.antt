-- ===== src/RoleHistory/Changes.antt =====
-- The changes say, for each key of an entry, exactly what has happened to it.
use mathlib.Core.List.{append-nil}
use vb_api.Prelude.{
  ◌≤◌, ◌≡◌, refl, ap, sym, ◌∙◌, true, false, Option, none, some, List, [], ◌∷◌, ◌++◌, filter,
  length, arith, Bool-cases, inl, inr, if◌then◌else◌,
}
use vb_api.RoleHistory.{
  RoleEntry, RoleChange, same_key, lookup, per_entry, change_lt, insert_change, sort_changes,
}
use vb_api.RoleHistory.Dict.{lookup-congr, UniqueKeys}

-- The changes for the key of `k`.
abbrev pub changes_for : RoleEntry → List RoleChange → List RoleChange
changes_for k cs = filter (λ (c : RoleChange). same_key c.entry k) cs

abbrev pub found : (RoleEntry → List RoleChange) → Option RoleEntry → List RoleChange
found g none = []
found g (some e) = g e

pub filter-append :
    (k : RoleEntry) (cs ds : List RoleChange)
    → changes_for k (cs ++ ds) ≡ changes_for k cs ++ changes_for k ds
filter-append k [] ds = refl
filter-append k (c ∷ cs) ds = ground (arith, filter-append k cs ds)

-- A body that makes changes for the key of its entry only.
abbrev pub Keyed : (RoleEntry → List RoleChange) → RoleEntry → Type 0
Keyed g k = (e : RoleEntry) → changes_for k (g e) ≡ (if same_key e k then g e else [])

pub changes_for-per_entry :
    (g : RoleEntry → List RoleChange) (k : RoleEntry) (es : List RoleEntry)
    → Keyed g k
    → UniqueKeys es
    → changes_for k (per_entry g es) ≡ found g (lookup k es)
unfolding per_entry lookup
changes_for-per_entry g k [] keyed u = refl
changes_for-per_entry g k (e ∷ es) keyed u =
    let rest = changes_for-per_entry g k es keyed u.1 in
    filter-append k (g e) (per_entry g es) ∙ elim (Bool-cases (same_key e k)) [
      | inl same ↦
          let none_left : lookup k es ≡ none = sym (lookup-congr e k es same) ∙ u.0 in
          let later : changes_for k (per_entry g es) ≡ [] = rest ∙ ap (found g) none_left in
          rw (keyed e) (rw later (rw same (append-nil (g e))))
      | inr other ↦ rw (keyed e) (rw rest (rw other refl))
    ]

insert_change-other :
    (k : RoleEntry) (c : RoleChange) (cs : List RoleChange)
    → same_key c.entry k ≡ false
    → changes_for k (insert_change c cs) ≡ changes_for k cs
unfolding insert_change
insert_change-other k c [] other = ground (arith, other)
insert_change-other k c (d ∷ cs) other = elim (Bool-cases (change_lt d c)) [
  | inl later ↦ rw later (ground (arith, insert_change-other k c cs other))
  | inr here ↦ rw here (ground (arith, other))
]

insert_change-only :
    (k : RoleEntry) (c : RoleChange) (cs : List RoleChange)
    → same_key c.entry k ≡ true
    → changes_for k cs ≡ []
    → changes_for k (insert_change c cs) ≡ c ∷ []
unfolding insert_change
insert_change-only k c [] same empty = ground (arith, same)
insert_change-only k c (d ∷ cs) same empty = elim (Bool-cases (same_key d.entry k)) [
  | inl hit ↦ absurd (ground (arith, hit, empty))
  | inr miss ↦
      let rest = insert_change-only k c cs same (sym (rw miss refl) ∙ empty) in
      elim (Bool-cases (change_lt d c)) [
        | inl later ↦ rw later (rw miss rest)
        | inr here ↦ rw here (rw same (ap (λ ds. c ∷ ds) empty))
      ]
]

pub sort_changes-single :
    (k : RoleEntry) (cs : List RoleChange)
    → length (changes_for k cs) ≤ 1
    → changes_for k (sort_changes cs) ≡ changes_for k cs
unfolding sort_changes
sort_changes-single k [] h = refl
sort_changes-single k (c ∷ cs) h = elim (Bool-cases (same_key c.entry k)) [
  | inl hit ↦
      let alone : changes_for k cs ≡ [] = empty (changes_for k cs) (ground (arith, hit, h)) in
      let rest = sort_changes-single k cs (rw alone (omega arith)) in
      insert_change-only k c (sort_changes cs) hit (rest ∙ alone) ∙ rw hit (rw alone refl)
  | inr miss ↦
      insert_change-other k c (sort_changes cs) miss
      ∙ sort_changes-single k cs (ground (arith, miss, h))
      ∙ rw miss refl
]
  where
    empty : (ds : List RoleChange) → length ds ≤ 0 → ds ≡ []
    empty [] le = refl
    empty (d ∷ ds) le = absurd (omega arith)
