-- ===== src/Bookkeeping/Categories/Laws.antt =====
-- What keeps the table of categories in order: distinct names, and no reference without its row.
use Prim.Native.String.{String}
use text.Mathlib.Text.{◌==◌ as str_eq}
use text.Mathlib.TextEquality.{eq_iff}
use vb_api.Prelude.{
  ◌≡◌, ◌↔◌, refl, ap, sym, ◌∙◌, Uuid, Bool, true, false, not, ◌&&◌, ◌||◌, List, [], ◌∷◌, ◌++◌, map,
  filter, any, Distinct, contains, ◌==◌, arith, ok, err, Bool-cases, inl, inr, ==_iff,
  any_iff_count_if, is_none,
}
use vb_api.Bookkeeping.Store.{Category, CategoryFilter, Direct, Db}
use vb_api.Bookkeeping.Categories.{
  CategoryData, integrity_error, create_category, store_category, update_category, is_referenced,
  delete_category,
}

abbrev name_taken_by : String → List Category → Bool
name_taken_by n cs = any (λ (c : Category). str_eq c.name n) cs

-- No two categories have one name, and none one id: the unique columns of the table.
abbrev pub DistinctNames : List Category → Type 0
DistinctNames [] = Unit
DistinctNames (c ∷ cs) = (name_taken_by c.name cs ≡ false) × DistinctNames cs

abbrev pub category_ids : List Category → List Uuid
category_ids cs = map (λ (c : Category). c.id) cs

any-snoc :
    (n : String) (cs : List Category) (c : Category)
    → name_taken_by n (cs ++ c ∷ []) ≡ (name_taken_by n cs || str_eq c.name n)
any-snoc n [] c = ground arith
any-snoc n (d ∷ cs) c = ground (arith, any-snoc n cs c)

DistinctNames-snoc :
    (cs : List Category) (c : Category)
    → DistinctNames cs
    → name_taken_by c.name cs ≡ false
    → DistinctNames (cs ++ c ∷ [])
DistinctNames-snoc [] c h k = ground arith
DistinctNames-snoc (d ∷ cs) c h k = (
  any-snoc d.name cs c ∙ rw h.0 (ground (arith, eq_iff d.name c.name, eq_iff c.name d.name)),
  DistinctNames-snoc cs c h.1 (ground arith),
)

create_category_ok :
    (new_id : Uuid) (input : CategoryData) (db db' : Db) (c : Category)
    → create_category new_id input db ≡ ok (c, db')
    → (name_taken_by input.name db.categories ≡ false)
      × (c.name ≡ input.name)
      × (db'.categories ≡ db.categories ++ c ∷ [])
unfolding create_category
create_category_ok new_id input db db' c e = ground arith

-- A category that is created gets a name that no other has: distinct names stay distinct.
create_category-DistinctNames :
    (new_id : Uuid) (input : CategoryData) (db db' : Db) (c : Category)
    → DistinctNames db.categories
    → create_category new_id input db ≡ ok (c, db')
    → DistinctNames db'.categories × (c.name ≡ input.name)
create_category-DistinctNames new_id input db db' c h e =
    let (free, named, stored) = create_category_ok new_id input db db' c e in
    rw stored (
      DistinctNames-snoc db.categories c h (ap (λ n. name_taken_by n db.categories) named ∙ free),
      named,
    )

direct_count-live :
    (c : Category) (ds : List Direct)
    → any (λ (d : Direct). d.category_id == c.id) ds ≡ (
        any (λ (d : Direct). d.category_id == c.id && is_none d.deleted_at) ds
        || any (λ (d : Direct). d.category_id == c.id && not (is_none d.deleted_at)) ds)
direct_count-live c [] = refl
direct_count-live c (d ∷ ds) = ground (arith, direct_count-live c ds)

-- The deletion of a category raises the database's integrity error exactly if the category is not
-- protected, no filter and no direct assignment that is not deleted refers to it, and a deleted
-- assignment does.
pub delete_category-integrity_error :
    (c : Category) (db : Db)
    → (delete_category c db ≡ err integrity_error) ↔ (
        (c.is_protected ≡ false)
        × (any (λ (f : CategoryFilter). f.category_id == c.id) db.filters ≡ false)
        × (any (λ (d : Direct). d.category_id == c.id && is_none d.deleted_at) db.directs ≡ false)
        × (any (λ (d : Direct). d.category_id == c.id && not (is_none d.deleted_at)) db.directs
            ≡ true))
unfolding delete_category
delete_category-integrity_error c db = (
  λ h. ground (
    arith,
    any_iff_count_if (λ (f : CategoryFilter). f.category_id == c.id) db.filters,
    any_iff_count_if (λ (d : Direct). d.category_id == c.id && is_none d.deleted_at) db.directs,
    direct_count-live c db.directs,
  ),
  λ h. ground (
    arith,
    any_iff_count_if (λ (f : CategoryFilter). f.category_id == c.id) db.filters,
    any_iff_count_if (λ (d : Direct). d.category_id == c.id && is_none d.deleted_at) db.directs,
    direct_count-live c db.directs,
  ),
)

contains-removed :
    (c : Category) (cs : List Category)
    → contains c.id (category_ids (filter (λ (d : Category). not (d.id == c.id)) cs)) ≡ false
contains-removed c [] = refl
contains-removed c (d ∷ cs) = ground (arith, contains-removed c cs)

-- After a deletion that succeeds no filter and no direct assignment refers to the category.
delete_category_ok :
    (c : Category) (db db' : Db)
    → delete_category c db ≡ ok db'
    → (c.is_protected ≡ false)
      × (is_referenced db' c ≡ false)
      × (contains c.id (category_ids db'.categories) ≡ false)
unfolding delete_category
delete_category_ok c db db' h = ground (arith, contains-removed c db.categories)

-- A row other than `c` has the name `n`: what `update_category` looks for.
abbrev dup_in : String → Category → List Category → Bool
dup_in n c cs = any (λ (d : Category). str_eq d.name n && not (d.id == c.id)) cs

name_taken_by-store :
    (n : String) (c : Category) (cs : List Category)
    → name_taken_by n cs ≡ false
    → str_eq c.name n ≡ false
    → name_taken_by n (store_category c cs) ≡ false
unfolding store_category
name_taken_by-store n c [] h k = refl
name_taken_by-store n c (d ∷ cs) h k = ground (arith, name_taken_by-store n c cs)

store_absent :
    (c : Category) (cs : List Category)
    → contains c.id (category_ids cs) ≡ false
    → store_category c cs ≡ cs
unfolding store_category
store_absent c [] h = refl
store_absent c (d ∷ cs) h = ground (arith, store_absent c cs)

free_of_dup :
    (n : String) (c : Category) (cs : List Category)
    → contains c.id (category_ids cs) ≡ false
    → dup_in n c cs ≡ false
    → name_taken_by n cs ≡ false
free_of_dup n c [] h k = refl
free_of_dup n c (d ∷ cs) h k = ground (arith, free_of_dup n c cs)

DistinctNames-store :
    (c : Category) (cs : List Category)
    → Distinct (category_ids cs)
    → DistinctNames cs
    → dup_in c.name c cs ≡ false
    → DistinctNames (store_category c cs)
unfolding store_category
DistinctNames-store c [] d h k = tt
DistinctNames-store c (e ∷ cs) d h k = elim (Bool-cases (e.id == c.id)) [
  | inl same ↦
      let absent : contains c.id (category_ids cs) ≡ false =
        ap (λ i. contains i (category_ids cs)) (sym ((==_iff e.id c.id).0 same)) ∙ d.0 in
      rw (same, store_absent c cs absent) (free_of_dup c.name c cs absent (ground arith), h.1)
  | inr other ↦ rw other (
    name_taken_by-store e.name c cs h.0
        (ground (arith, eq_iff c.name e.name, eq_iff e.name c.name)),
    DistinctNames-store c cs d.1 h.1 (ground arith),
  )
]

update_category_ok :
    (c c' : Category) (input : CategoryData) (db db' : Db)
    → update_category c input db ≡ ok (c', db')
    → (dup_in input.name c db.categories ≡ false)
      × (c'.name ≡ input.name)
      × (c'.id ≡ c.id)
      × (db'.categories ≡ store_category c' db.categories)
unfolding update_category
update_category_ok c c' input db db' e = ground arith

-- Renaming a category to a name that no other row has keeps the names distinct; the row keeps its
-- id. (The ids and names were distinct before.)
update_category-DistinctNames :
    (c c' : Category) (input : CategoryData) (db db' : Db)
    → Distinct (category_ids db.categories)
    → DistinctNames db.categories
    → update_category c input db ≡ ok (c', db')
    → DistinctNames db'.categories × (c'.name ≡ input.name) × (c'.id ≡ c.id)
update_category-DistinctNames c c' input db db' d h e =
    let (free, named, same, stored) = update_category_ok c c' input db db' e in
    rw stored (DistinctNames-store c' db.categories d h (rw (named, same) free), named, same)
