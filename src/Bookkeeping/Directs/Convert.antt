-- ===== src/Bookkeeping/Directs/Convert.antt =====
-- `filter_to_direct`: the hits of a filter become direct assignments.
use vb_api.Prelude.{
  ◌≡◌, ap, ◌∙◌, Uuid, Text, Bool, true, not, ◌||◌, some, List, [], ◌∷◌, filter, contains, find,
  All-map, All-find, ◌==◌, if◌then◌else◌, arith, ok, Bool-cases, inl, inr, ==_iff,
}
use vb_api.Bookkeeping.Store.{Instant, CategoryFilter, Hit, Db, tx_with_directs}
use vb_api.Bookkeeping.Hits.{get_filter_hits}
use vb_api.Bookkeeping.Hits.Expected.{IsFresh, expected_hits, count_hit, count_matching}
use vb_api.Bookkeeping.Hits.Refresh.{transaction_ids}
use vb_api.Bookkeeping.Directs.{assign_each, filter_to_direct}
use vb_api.Bookkeeping.Directs.Fresh.{HasKeys}
use vb_api.Bookkeeping.Directs.Loop.{
  NoZeroAmount, hit_or_assigned, assign_each_tables, assign_each-IsFresh, assign_each-assigned,
}

module _ (ilike : Text → Text → Bool) (now : Instant) where
  converted : CategoryFilter → Db → Db
  converted f db = assign_each ilike now f.category_id (get_filter_hits db f) db

  nothing_expected :
      (f : CategoryFilter) (db : Db) (u : Uuid)
      → NoZeroAmount (get_filter_hits db f)
      → count_hit u f.id db.hits ≡ expected_hits ilike db u f
      → expected_hits ilike (converted f db) u f ≡ 0
  unfolding converted
  nothing_expected f db u nz fresh =
      rw ((assign_each_tables ilike now f.category_id (get_filter_hits db f) db).0)
        (elim (Bool-cases (count_matching ilike db.transactions u f == 0)) [
          | inl never ↦ ground arith
          | inr some_row ↦ rw (
              assign_each-assigned ilike now f.category_id u (get_filter_hits db f) db nz
                (hit_or_assigned ilike u f db fresh some_row))
        ])

  filter_to_direct_ok :
      (f : CategoryFilter) (db db' : Db)
      → filter_to_direct ilike now f db ≡ ok db'
      → record (converted f db) {
        hits = filter (λ (h : Hit). not (h.filter_id == f.id)) (converted f db).hits;
      }
        ≡ db'
  unfolding filter_to_direct converted
  filter_to_direct_ok f db db' h = ground arith

  count_hit-drop :
      (u g f : Uuid) (hits : List Hit)
      → count_hit u g (filter (λ (h : Hit). not (h.filter_id == f)) hits)
        ≡ (if f == g then 0 else count_hit u g hits)
  count_hit-drop u g f [] = ground arith
  count_hit-drop u g f (h ∷ hits) = ground (arith, count_hit-drop u g f hits)

  converted-IsFresh :
      (f : CategoryFilter) (db : Db)
      → HasKeys db
      → IsFresh ilike db
      → IsFresh ilike (converted f db)
  unfolding converted
  converted-IsFresh f db = assign_each-IsFresh ilike now f.category_id (get_filter_hits db f) db

  converted_filters : (f : CategoryFilter) (db : Db) → (converted f db).filters ≡ db.filters
  unfolding converted
  converted_filters f db = (assign_each_tables ilike now f.category_id (get_filter_hits db f) db).1

  converted-assigned :
      (f : CategoryFilter) (db : Db) (u : Uuid)
      → NoZeroAmount (get_filter_hits db f)
      → contains u (transaction_ids (get_filter_hits db f)) ≡ true
      → contains u (tx_with_directs (converted f db)) ≡ true
  unfolding converted
  converted-assigned f db u nz hit =
      assign_each-assigned ilike now f.category_id u (get_filter_hits db f) db nz
        (rw hit (ground arith))

  -- No hit of the converted filter is left after the loop, before any is deleted.
  no_hit_left :
      (f : CategoryFilter) (db : Db) (u : Uuid)
      → HasKeys db
      → IsFresh ilike db
      → find (λ (g : CategoryFilter). g.id == f.id) db.filters ≡ some f
      → NoZeroAmount (get_filter_hits db f)
      → count_hit u f.id (converted f db).hits ≡ 0
  no_hit_left f db u keys fresh stored nz =
      All-find
        (λ (g : CategoryFilter).
          count_hit u g.id (converted f db).hits ≡ expected_hits ilike (converted f db) u g)
        (λ (g : CategoryFilter). g.id == f.id) (converted f db).filters f
        (ap (find (λ (g : CategoryFilter). g.id == f.id)) (converted_filters f db) ∙ stored)
        (converted-IsFresh f db keys fresh u)
      ∙ nothing_expected f db u nz (
          All-find (λ (g : CategoryFilter). count_hit u g.id db.hits ≡ expected_hits ilike db u g)
            (λ (g : CategoryFilter). g.id == f.id) db.filters f stored (fresh u))

  -- Converting a stored filter, where no transaction it hits has an amount of zero: if the stored
  -- hits were fresh, they are fresh afterwards, and each transaction that was hit has a live direct
  -- assignment. (The ids of transactions and filters are distinct.)
  pub filter_to_direct-IsFresh :
      (f : CategoryFilter) (db db' : Db)
      → HasKeys db
      → IsFresh ilike db
      → find (λ (g : CategoryFilter). g.id == f.id) db.filters ≡ some f
      → NoZeroAmount (get_filter_hits db f)
      → filter_to_direct ilike now f db ≡ ok db'
      → IsFresh ilike db'
        × ((u : Uuid)
            → (not (contains u (transaction_ids (get_filter_hits db f)))
                || contains u (tx_with_directs db'))
              ≡ true)
  filter_to_direct-IsFresh f db db' keys fresh stored nz h = rw (← filter_to_direct_ok f db db' h) (
    λ u.
        All-map
          (λ g counted. elim (Bool-cases (f.id == g.id)) [
            | inl same ↦ ground (
              arith,
              count_hit-drop u g.id f.id (converted f db).hits,
              no_hit_left f db u keys fresh stored nz,
              ap (λ i. count_hit u i (converted f db).hits) ((==_iff f.id g.id).0 same),
            )
            | inr other ↦ ground (arith, count_hit-drop u g.id f.id (converted f db).hits)
          ])
          (converted f db).filters (converted-IsFresh f db keys fresh u),
    λ u. ground (arith, converted-assigned f db u nz),
  )
