-- ===== src/Bookkeeping/Hits/Rebuild.antt =====
-- Rebuilding the stored hits of every filter.
use vb_api.Prelude.{
  ◌≡◌, refl, ◌∙◌, Uuid, Text, Bool, false, not, ◌&&◌, List, [], ◌∷◌, map, arith, filter, contains,
  Distinct, All, ◌==◌, if◌then◌else◌, count_if-append,
}
use vb_api.Bookkeeping.Store.{Transaction, CategoryFilter, Hit, Db, tx_with_directs}
use vb_api.Bookkeeping.Hits.{
  hits_of, matching_transactions, apply_filter_with_cache, apply_filters,
  apply_all_category_filters,
}
use vb_api.Bookkeeping.Hits.Expected.{
  count_hit, count_matching, IsFresh, count_id-matching, count_hit-hits_of,
}

abbrev pub filter_ids : List CategoryFilter → List Uuid
filter_ids fs = map (λ (f : CategoryFilter). f.id) fs

count_hit-drop_filter :
    (tx_id filter_id g : Uuid) (hits : List Hit)
    → count_hit tx_id filter_id (filter (λ (h : Hit). not (h.filter_id == g)) hits)
      ≡ (if g == filter_id then 0 else count_hit tx_id filter_id hits)
count_hit-drop_filter tx_id filter_id g [] = ground arith
count_hit-drop_filter tx_id filter_id g (h ∷ hits) =
    ground (arith, count_hit-drop_filter tx_id filter_id g hits)

module _ (ilike : Text → Text → Bool) where
  count_hit-apply_filter_with_cache :
      (txs : List Transaction) (f : CategoryFilter) (directs : List Uuid) (hits : List Hit)
      (tx_id filter_id : Uuid)
      → count_hit tx_id filter_id (apply_filter_with_cache ilike txs f directs hits) ≡ (
          if f.id == filter_id
          then (if contains tx_id directs then 0 else count_matching ilike txs tx_id f)
          else count_hit tx_id filter_id hits)
  unfolding apply_filter_with_cache
  count_hit-apply_filter_with_cache txs f directs hits tx_id filter_id = ground (
    arith,
    count_if-append (λ (h : Hit). h.transaction_id == tx_id && h.filter_id == filter_id)
        (filter (λ (h : Hit). not (h.filter_id == f.id)) hits)
        (hits_of f.id (matching_transactions ilike txs f directs)),
    count_hit-drop_filter tx_id filter_id f.id hits,
    count_hit-hits_of tx_id filter_id f.id (matching_transactions ilike txs f directs),
    count_id-matching ilike txs f directs tx_id,
  )

  -- A filter that the loop does not meet keeps its hits.
  count_hit-apply_filters_other :
      (txs : List Transaction) (fs : List CategoryFilter) (directs : List Uuid) (hits : List Hit)
      (tx_id filter_id : Uuid)
      → contains filter_id (filter_ids fs) ≡ false
      → count_hit tx_id filter_id (apply_filters ilike txs fs directs hits)
        ≡ count_hit tx_id filter_id hits
  unfolding apply_filters
  count_hit-apply_filters_other txs [] directs hits tx_id filter_id h = refl
  count_hit-apply_filters_other txs (f ∷ fs) directs hits tx_id filter_id h =
      count_hit-apply_filters_other txs fs directs
        (apply_filter_with_cache ilike txs f directs hits) tx_id filter_id (ground arith)
      ∙ ground (arith, count_hit-apply_filter_with_cache txs f directs hits tx_id filter_id)

  pub apply_filters_lem :
      (txs : List Transaction) (fs : List CategoryFilter) (directs : List Uuid) (hits : List Hit)
      (tx_id : Uuid)
      → Distinct (filter_ids fs)
      → All
          (λ (f : CategoryFilter).
            count_hit tx_id f.id (apply_filters ilike txs fs directs hits)
            ≡ (if contains tx_id directs then 0 else count_matching ilike txs tx_id f))
          fs
  unfolding apply_filters
  apply_filters_lem txs [] directs hits tx_id d = tt
  apply_filters_lem txs (f ∷ fs) directs hits tx_id d =
      let hits' = apply_filter_with_cache ilike txs f directs hits in
      (
        count_hit-apply_filters_other txs fs directs hits' tx_id f.id d.0
            ∙ ground (arith, count_hit-apply_filter_with_cache txs f directs hits tx_id f.id),
        apply_filters_lem txs fs directs hits' tx_id d.1,
      )

  -- After a run over every filter, with or without emptying the table first, each filter of the
  -- database has, for every transaction, exactly the hits that the tables ask for: none if the
  -- transaction has a live direct assignment, else one for each live row that the filter matches.
  -- Filter ids are distinct.
  pub apply_all_category_filters-IsFresh :
      (truncate_first : Bool) (db : Db)
      → Distinct (filter_ids db.filters)
      → IsFresh ilike (apply_all_category_filters ilike truncate_first db)
  unfolding apply_all_category_filters
  apply_all_category_filters-IsFresh truncate_first db d tx_id =
      apply_filters_lem db.transactions db.filters (tx_with_directs db)
        (if truncate_first then [] else db.hits) tx_id d
