-- ===== src/Bookkeeping/Filters/Laws.antt =====
-- Creating, changing and deleting filters keeps the stored hits fresh.
use vb_api.Prelude.{
  ◌≡◌, refl, ◌∙◌, Uuid, Text, Bool, false, not, List, [], ◌∷◌, filter, Distinct, find, none,
  if◌then◌else◌, All, ◌==◌, arith, ok, Bool-cases, inl, inr,
}
use vb_api.Bookkeeping.Store.{CategoryFilter, Hit, Db}
use vb_api.Bookkeeping.Hits.{apply_all_category_filters}
use vb_api.Bookkeeping.Hits.Expected.{IsFresh, count_hit, expected_hits}
use vb_api.Bookkeeping.Hits.Rebuild.{filter_ids, apply_all_category_filters-IsFresh}
use vb_api.Bookkeeping.Filters.{
  FilterData, filter_row, store_filter, update_category_filter, delete_category_filter,
}

filter_ids-store :
    (f : CategoryFilter) (fs : List CategoryFilter) → filter_ids (store_filter f fs) ≡ filter_ids fs
unfolding store_filter
filter_ids-store f [] = refl
filter_ids-store f (g ∷ fs) = ground (arith, filter_ids-store f fs)

count_hit-drop_filter :
    (u g f : Uuid) (hits : List Hit)
    → (f == g) ≡ false
    → count_hit u g (filter (λ (h : Hit). not (h.filter_id == f)) hits) ≡ count_hit u g hits
count_hit-drop_filter u g f [] k = refl
count_hit-drop_filter u g f (h ∷ hits) k = ground (arith, count_hit-drop_filter u g f hits)

count_hit-without :
    (u g f : Uuid) (hits : List Hit)
    → count_hit u g (filter (λ (h : Hit). not (h.filter_id == f)) hits)
      ≡ (if f == g then 0 else count_hit u g hits)
count_hit-without u g f [] = ground arith
count_hit-without u g f (h ∷ hits) = ground (arith, count_hit-without u g f hits)

-- The row of an id other than the one removed.
find-removed :
    (i f : Uuid) (fs : List CategoryFilter)
    → find (λ (g : CategoryFilter). g.id == i) (filter (λ (g : CategoryFilter). not (g.id == f)) fs)
      ≡ (if f == i then none else find (λ (g : CategoryFilter). g.id == i) fs)
find-removed i f [] = ground arith
find-removed i f (g ∷ fs) = ground (arith, find-removed i f fs)

module _ (ilike : Text → Text → Bool) where
  update_ok :
      (f f' : CategoryFilter) (input : FilterData) (db db' : Db)
      → update_category_filter ilike f input db ≡ ok (f', db')
      → (f' ≡ filter_row f.id input)
        × (apply_all_category_filters ilike false
              (record db { filters = store_filter (filter_row f.id input) db.filters })
            ≡ db')
  unfolding update_category_filter
  update_ok f f' input db db' h = ground arith

  -- A changed filter keeps its id, and the table of hits is fresh for its new criteria and for
  -- every other filter, also if it was not fresh before.
  update_category_filter-IsFresh :
      (f f' : CategoryFilter) (input : FilterData) (db db' : Db)
      → Distinct (filter_ids db.filters)
      → update_category_filter ilike f input db ≡ ok (f', db')
      → IsFresh ilike db' × (f' ≡ filter_row f.id input)
  update_category_filter-IsFresh f f' input db db' d h =
      let (same, stored) = update_ok f f' input db db' h in
      let changed = record db { filters = store_filter (filter_row f.id input) db.filters } in
      rw (← stored) (
        apply_all_category_filters-IsFresh ilike false changed
            (rw (filter_ids-store (filter_row f.id input) db.filters) d),
        same,
      )

  remaining :
      (f : CategoryFilter) (db : Db) (u : Uuid) (fs : List CategoryFilter)
      → All (λ (g : CategoryFilter). count_hit u g.id db.hits ≡ expected_hits ilike db u g) fs
      → All
          (λ (g : CategoryFilter).
            count_hit u g.id (delete_category_filter f db).hits ≡ expected_hits ilike db u g)
          (filter (λ (g : CategoryFilter). not (g.id == f.id)) fs)
  unfolding delete_category_filter
  remaining f db u [] fresh = tt
  remaining f db u (g ∷ fs) fresh = elim (Bool-cases (g.id == f.id)) [
    | inl same ↦ rw same (remaining f db u fs fresh.1)
    | inr other ↦ rw other (
      count_hit-drop_filter u g.id f.id db.hits (ground arith) ∙ fresh.0,
      remaining f db u fs fresh.1,
    )
  ]

  -- Deleting a filter deletes its row and its hits, and no other row or hit; transactions and
  -- assignments stay. Fresh hits stay fresh for the filters that remain.
  pub delete_category_filter-IsFresh :
      (f : CategoryFilter) (db : Db)
      → IsFresh ilike db
      → IsFresh ilike (delete_category_filter f db)
        × ((u i : Uuid)
            → count_hit u i (delete_category_filter f db).hits
              ≡ (if f.id == i then 0 else count_hit u i db.hits))
        × ((i : Uuid)
            → find (λ (g : CategoryFilter). g.id == i) (delete_category_filter f db).filters
              ≡ (if f.id == i then none else find (λ (g : CategoryFilter). g.id == i) db.filters))
        × ((delete_category_filter f db).transactions ≡ db.transactions)
        × ((delete_category_filter f db).directs ≡ db.directs)
  delete_category_filter-IsFresh f db fresh = (
    λ u. unfold delete_category_filter in remaining f db u db.filters (fresh u),
    λ u i. unfold delete_category_filter in count_hit-without u i f.id db.hits,
    λ i. unfold delete_category_filter in find-removed i f.id db.filters,
    unfold delete_category_filter in refl,
    unfold delete_category_filter in refl,
  )
