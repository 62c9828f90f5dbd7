-- ===== src/Bookkeeping/Hits.antt =====
-- The category filter engine of app/services/p4x_category_service.py: which transactions a filter
-- matches, and the table of the hits that it stores. A function takes the rows that it reads and
-- returns the new table of hits, or the new database.
pub mod Expected
pub mod Rebuild
pub mod Refresh
use vb_api.Prelude.{
  ℕ, Uuid, Text, Bool, true, false, not, ◌&&◌, Option, none, some, List, [], ◌∷◌, ◌++◌, map, filter,
  contains, any, length, ◌==◌, if◌then◌else◌,
}
use vb_api.Bookkeeping.Store.{
  Transaction, CategoryFilter, Hit, Db, is_live_transaction, tx_with_directs,
}
use vb_api.Bookkeeping.Criteria.{passes_filter}

-- The hits that one filter adds for a list of transaction ids.
abbrev pub hits_of : Uuid → List Uuid → List Hit
hits_of filter_id ids = map (λ (i : Uuid). record { transaction_id = i; filter_id = filter_id }) ids

module _ (ilike : Text → Text → Bool) where
  -- `_matching_transactions`: the ids of the live transactions that pass.
  unfoldable pub matching_transactions : List Transaction → CategoryFilter → List Uuid → List Uuid
  matching_transactions txs f directs =
      map (λ (t : Transaction). t.id)
        (filter (λ t. is_live_transaction t && passes_filter ilike f directs t) txs)

  -- `_apply_filter_with_cache`: delete the hits of the filter, then add one for each match.
  unfoldable pub apply_filter_with_cache :
      List Transaction → CategoryFilter → List Uuid → List Hit → List Hit
  apply_filter_with_cache txs f directs hits =
      filter (λ (h : Hit). not (h.filter_id == f.id)) hits
      ++ hits_of f.id (matching_transactions txs f directs)

  -- The loop of `apply_all_category_filters_core`.
  unfoldable pub apply_filters :
      List Transaction → List CategoryFilter → List Uuid → List Hit → List Hit
  apply_filters txs [] directs hits = hits
  apply_filters txs (f ∷ fs) directs hits =
      apply_filters txs fs directs (apply_filter_with_cache txs f directs hits)

  -- `apply_single_filter`
  unfoldable pub apply_single_filter : CategoryFilter → Db → Db
  apply_single_filter f db = record db {
    hits = apply_filter_with_cache db.transactions f (tx_with_directs db) db.hits;
  }

  -- `apply_all_category_filters_core` and, with its commit, `apply_all_category_filters`.
  unfoldable pub apply_all_category_filters : Bool → Db → Db
  apply_all_category_filters truncate_first db = record db {
    hits =
        apply_filters db.transactions db.filters (tx_with_directs db)
          (if truncate_first then [] else db.hits);
  }

  -- One round of the loop of `_refresh_transaction_hits`: a hit, if the filter matches the
  -- transaction.
  unfoldable pub refresh_hit : List Transaction → Uuid → CategoryFilter → List Hit
  refresh_hit txs tx_id f =
      if contains tx_id (matching_transactions txs f []) then hits_of f.id (tx_id ∷ []) else []

  unfoldable pub refresh_hits : List Transaction → Uuid → List CategoryFilter → List Hit
  refresh_hits txs tx_id [] = []
  refresh_hits txs tx_id (f ∷ fs) = refresh_hit txs tx_id f ++ refresh_hits txs tx_id fs

  -- `_refresh_transaction_hits`
  unfoldable pub refresh_transaction_hits : Uuid → Bool → Db → Db
  refresh_transaction_hits tx_id assigned db =
      let kept = filter (λ (h : Hit). not (h.transaction_id == tx_id)) db.hits in
      record db {
        hits = if assigned then kept else kept ++ refresh_hits db.transactions tx_id db.filters;
      }

-- `get_filter_hit_count`
unfoldable pub get_filter_hit_count : Db → CategoryFilter → ℕ
get_filter_hit_count db f = length (
    filter
      (λ (h : Hit). h.filter_id == f.id && not (contains h.transaction_id (tx_with_directs db)))
      db.hits)

-- `get_filter_hits`
unfoldable pub get_filter_hits : Db → CategoryFilter → List Transaction
get_filter_hits db f =
    let hit_tx_ids =
      map (λ (h : Hit). h.transaction_id) (filter (λ (h : Hit). h.filter_id == f.id) db.hits) in
    let valid_ids = filter (λ i. not (contains i (tx_with_directs db))) hit_tx_ids in
    filter (λ (t : Transaction). contains t.id valid_ids && is_live_transaction t) db.transactions
