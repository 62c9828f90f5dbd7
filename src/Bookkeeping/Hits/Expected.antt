-- ===== src/Bookkeeping/Hits/Expected.antt =====
-- What the table of hits should hold, stated without the engine, and how the matching query counts.
use vb_api.Prelude.{
  ℕ, ◌≡◌, ap, Uuid, Text, Bool, ◌&&◌, List, [], ◌∷◌, arith, count_if, contains, All, ◌==◌,
  if◌then◌else◌, ==_iff, Bool-cases, inl, inr,
}
use vb_api.Bookkeeping.Store.{
  Transaction, CategoryFilter, Hit, Db, is_live_transaction, tx_with_directs,
}
use vb_api.Bookkeeping.Criteria.{criteria_match, passes_filter}
use vb_api.Bookkeeping.Hits.{hits_of, matching_transactions}

-- How often a hit of this transaction and filter is stored.
abbrev pub count_hit : Uuid → Uuid → List Hit → ℕ
count_hit tx_id filter_id hits =
    count_if (λ (h : Hit). h.transaction_id == tx_id && h.filter_id == filter_id) hits

abbrev pub count_id : Uuid → List Uuid → ℕ
count_id u ids = count_if (λ i. i == u) ids

pub count_hit-hits_of :
    (tx_id filter_id g : Uuid) (ids : List Uuid)
    → count_hit tx_id filter_id (hits_of g ids) ≡ (if g == filter_id then count_id tx_id ids else 0)
count_hit-hits_of tx_id filter_id g [] = ground arith
count_hit-hits_of tx_id filter_id g (i ∷ ids) =
    ground (arith, count_hit-hits_of tx_id filter_id g ids)

module _ (ilike : Text → Text → Bool) where
  -- The rows of this id that are live and meet the filter's criteria.
  abbrev pub count_matching : List Transaction → Uuid → CategoryFilter → ℕ
  count_matching txs tx_id f =
      count_if
        (λ (t : Transaction). t.id == tx_id && (is_live_transaction t && criteria_match ilike f t))
        txs

  -- A transaction with a live direct assignment has no hits; one without has those of the filters
  -- that match it.
  abbrev pub expected_hits : Db → Uuid → CategoryFilter → ℕ
  expected_hits db tx_id f =
      if contains tx_id (tx_with_directs db) then 0 else count_matching db.transactions tx_id f

  -- The stored hits are what the tables of transactions, directs and filters ask for.
  abbrev pub IsFresh : Db → Type 0
  IsFresh db =
      (tx_id : Uuid)
      → All (λ (f : CategoryFilter). count_hit tx_id f.id db.hits ≡ expected_hits db tx_id f)
          db.filters

  pub count_id-matching :
      (txs : List Transaction) (f : CategoryFilter) (directs : List Uuid) (tx_id : Uuid)
      → count_id tx_id (matching_transactions ilike txs f directs)
        ≡ (if contains tx_id directs then 0 else count_matching txs tx_id f)
  unfolding matching_transactions passes_filter
  count_id-matching [] f directs tx_id = ground arith
  count_id-matching (t ∷ txs) f directs tx_id = elim (Bool-cases (t.id == tx_id)) [
    | inl same ↦ ground (
      arith,
      count_id-matching txs f directs tx_id,
      ap (λ i. contains i directs) ((==_iff t.id tx_id).0 same),
    )
    | inr other ↦ ground (arith, count_id-matching txs f directs tx_id)
  ]
