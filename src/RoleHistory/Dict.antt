-- ===== src/RoleHistory/Dict.antt =====
-- The dicts of `diff_role_entries`: each key once, with the last of its entries.
use vb_api.Prelude.{
  ◌≡◌, refl, ap, sym, ◌∙◌, true, false, ◌&&◌, Option, none, some, List, [], ◌∷◌, find, arith,
  Bool-cases, inl, inr, text_eq, text_eq→eq, text_eq_self, if◌then◌else◌,
}
use vb_api.Calendar.{Date, date_eq}
use vb_api.RoleHistory.{RoleEntry, same_key, put_entry, dict_onto, lookup}

date_eq→eq : (a b : Date) → date_eq a b ≡ true → a ≡ b
unfolding date_eq
date_eq→eq a b h = ground arith

same_key-eq :
    (d e : RoleEntry) → same_key d e ≡ true → (d.role_id ≡ e.role_id) × (d.startdate ≡ e.startdate)
unfolding same_key
same_key-eq d e h = (
  text_eq→eq d.role_id e.role_id (ground arith),
  date_eq→eq d.startdate e.startdate (ground arith),
)

pub same_key-left : (d e x : RoleEntry) → same_key d e ≡ true → same_key d x ≡ same_key e x
unfolding same_key
same_key-left d e x h =
    let (role, start) = same_key-eq d e h in
    ap (λ r. text_eq r x.role_id && date_eq d.startdate x.startdate) role
    ∙ ap (λ s. text_eq e.role_id x.role_id && date_eq s x.startdate) start

same_key_self : (e : RoleEntry) → same_key e e ≡ true
unfolding same_key date_eq
same_key_self e = ground (arith, text_eq_self e.role_id)

same_key_sym : (d e : RoleEntry) → same_key d e ≡ false → same_key e d ≡ false
same_key_sym d e h = elim (Bool-cases (same_key e d)) [
  | inl same ↦ absurd (ground (arith, h, same_key-left e d e same, same_key_self e))
  | inr other ↦ other
]

-- Entries with one key find the same.
pub lookup-congr :
    (d e : RoleEntry) (ds : List RoleEntry) → same_key d e ≡ true → lookup d ds ≡ lookup e ds
unfolding lookup same_key
lookup-congr d e ds h =
    let (role, start) = same_key-eq d e h in
    ap (λ r. find (λ (x : RoleEntry). text_eq x.role_id r && date_eq x.startdate d.startdate) ds)
      role
    ∙ ap (λ s. find (λ (x : RoleEntry). text_eq x.role_id e.role_id && date_eq x.startdate s) ds)
        start

-- No two entries have one key: what a dict guarantees.
abbrev pub UniqueKeys : List RoleEntry → Type 0
UniqueKeys [] = Unit
UniqueKeys (e ∷ es) = (lookup e es ≡ none) × UniqueKeys es

lookup-put_entry :
    (k e : RoleEntry) (ds : List RoleEntry)
    → same_key e k ≡ false
    → lookup k (put_entry e ds) ≡ lookup k ds
unfolding lookup put_entry
lookup-put_entry k e [] other = ground (arith, other)
lookup-put_entry k e (d ∷ ds) other = elim (Bool-cases (same_key d e)) [
  | inl same ↦
      let apart = same_key-left d e k same ∙ other in rw same (rw (other, lookup) (rw apart refl))
  | inr differs ↦ rw differs (ground (arith, lookup-put_entry k e ds other))
]

-- The entry that was put last is found.
lookup-put_entry_same :
    (k e : RoleEntry) (ds : List RoleEntry)
    → same_key e k ≡ true
    → lookup k (put_entry e ds) ≡ some e
unfolding lookup put_entry
lookup-put_entry_same k e [] same = rw same refl
lookup-put_entry_same k e (d ∷ ds) same = elim (Bool-cases (same_key d e)) [
  | inl there ↦ rw there (rw same refl)
  | inr differs ↦
      let apart : same_key d k ≡ false = other_key d differs in
      rw differs (rw apart (lookup-put_entry_same k e ds same))
]
  where
    other_key : (d : RoleEntry) → same_key d e ≡ false → same_key d k ≡ false
    other_key d differs = elim (Bool-cases (same_key d k)) [
      | inl hit ↦ absurd (
          ground
            (arith, differs, same_key-left d k e hit, same_key-left e k e same, same_key_self e))
      | inr miss ↦ miss
    ]

-- The last entry of a list with the key of `k`.
abbrev pub last_of : RoleEntry → List RoleEntry → Option RoleEntry
last_of k [] = none
last_of k (e ∷ es) = elim (last_of k es) [
  | some f ↦ some f
  | none ↦ if same_key e k then some e else none
]

abbrev or_else : Option RoleEntry → Option RoleEntry → Option RoleEntry
or_else (some e) o = some e
or_else none o = o

lookup-dict_onto :
    (k : RoleEntry) (acc es : List RoleEntry)
    → lookup k (dict_onto acc es) ≡ or_else (last_of k es) (lookup k acc)
unfolding dict_onto
lookup-dict_onto k acc [] = refl
lookup-dict_onto k acc (e ∷ es) = lookup-dict_onto k (put_entry e acc) es ∙ after (last_of k es)
  where
    after :
        (o : Option RoleEntry)
        → or_else o (lookup k (put_entry e acc))
          ≡ or_else
              (elim o [ some f ↦ some f | none ↦ if same_key e k then some e else none ])
              (lookup k acc)
    after (some f) = refl
    after none = elim (Bool-cases (same_key e k)) [
      | inl same ↦ lookup-put_entry_same k e acc same ∙ rw same refl
      | inr other ↦ lookup-put_entry k e acc other ∙ rw other refl
    ]

-- Of several entries with one key the dict has the last.
pub lookup-dict : (k : RoleEntry) (es : List RoleEntry) → lookup k (dict_onto [] es) ≡ last_of k es
unfolding lookup
lookup-dict k es = lookup-dict_onto k [] es ∙ only (last_of k es)
  where
    only : (o : Option RoleEntry) → or_else o none ≡ o
    only none = refl
    only (some e) = refl

put_entry-UniqueKeys :
    (e : RoleEntry) (ds : List RoleEntry) → UniqueKeys ds → UniqueKeys (put_entry e ds)
unfolding put_entry lookup
put_entry-UniqueKeys e [] u = (refl, tt)
put_entry-UniqueKeys e (d ∷ ds) u = elim (Bool-cases (same_key d e)) [
  | inl same ↦ rw same (sym (lookup-congr d e ds same) ∙ u.0, u.1)
  | inr other ↦
      rw other
        (lookup-put_entry d e ds (same_key_sym d e other) ∙ u.0, put_entry-UniqueKeys e ds u.1)
]

pub dict_onto-UniqueKeys :
    (acc es : List RoleEntry) → UniqueKeys acc → UniqueKeys (dict_onto acc es)
unfolding dict_onto
dict_onto-UniqueKeys acc [] u = u
dict_onto-UniqueKeys acc (e ∷ es) u =
    dict_onto-UniqueKeys (put_entry e acc) es (put_entry-UniqueKeys e acc u)
