-- ===== src/Bookkeeping/Hits/Refresh.antt =====
-- Bringing the hits of one transaction up to date gives what a rebuild of every filter would.
use vb_api.Prelude.{
  ◌+◌, ◌≤◌, ◌≡◌, refl, Uuid, Text, Bool, false, not, ◌&&◌, List, [], ◌∷◌, map, arith, filter,
  contains, Distinct, All, All-map, All-zip, ◌==◌, if◌then◌else◌, ==_iff, ==_self, count_if-append,
  Bool-cases, inl, inr, Distinct-count_if_le, contains_iff_count_if,
}
use vb_api.Bookkeeping.Store.{Transaction, CategoryFilter, Hit, Direct, Db, tx_with_directs}
use vb_api.Bookkeeping.Hits.{
  matching_transactions, refresh_hit, refresh_hits, refresh_transaction_hits,
}
use vb_api.Bookkeeping.Hits.Expected.{
  count_hit, count_id, count_matching, expected_hits, IsFresh, count_id-matching,
}
use vb_api.Bookkeeping.Hits.Rebuild.{filter_ids}

abbrev pub transaction_ids : List Transaction → List Uuid
transaction_ids ts = map (λ (t : Transaction). t.id) ts

count_hit-drop_transaction :
    (tx_id filter_id g : Uuid) (hits : List Hit)
    → count_hit tx_id filter_id (filter (λ (h : Hit). not (h.transaction_id == g)) hits)
      ≡ (if g == tx_id then 0 else count_hit tx_id filter_id hits)
count_hit-drop_transaction tx_id filter_id g [] = ground arith
count_hit-drop_transaction tx_id filter_id g (h ∷ hits) =
    ground (arith, count_hit-drop_transaction tx_id filter_id g hits)

ids_differ :
    (u : Uuid) (fs : List CategoryFilter)
    → contains u (filter_ids fs) ≡ false
    → All (λ (f : CategoryFilter). (f.id == u) ≡ false) fs
ids_differ u [] h = tt
ids_differ u (f ∷ fs) h = (ground arith, ids_differ u fs (ground arith))

module _ (ilike : Text → Text → Bool) where
  count_matching-le-count_id :
      (txs : List Transaction) (tx_id : Uuid) (f : CategoryFilter)
      → count_matching ilike txs tx_id f ≤ count_id tx_id (transaction_ids txs)
  count_matching-le-count_id [] tx_id f = omega arith
  count_matching-le-count_id (t ∷ txs) tx_id f =
      ground (arith, count_matching-le-count_id txs tx_id f)

  -- With distinct transaction ids a filter matches a transaction once or not at all.
  contains-matching :
      (txs : List Transaction) (tx_id : Uuid) (f : CategoryFilter)
      → Distinct (transaction_ids txs)
      → (if contains tx_id (matching_transactions ilike txs f []) then 1 else 0)
        ≡ count_matching ilike txs tx_id f
  contains-matching txs tx_id f d = ground (
    arith,
    contains_iff_count_if tx_id (matching_transactions ilike txs f []),
    count_id-matching ilike txs f [] tx_id,
    count_matching-le-count_id txs tx_id f,
    Distinct-count_if_le tx_id (transaction_ids txs) d,
  )

  count_hit-refresh_hit :
      (txs : List Transaction) (g : Uuid) (f : CategoryFilter) (tx_id filter_id : Uuid)
      → Distinct (transaction_ids txs)
      → count_hit tx_id filter_id (refresh_hit ilike txs g f)
        ≡ (if g == tx_id && f.id == filter_id then count_matching ilike txs g f else 0)
  unfolding refresh_hit
  count_hit-refresh_hit txs g f tx_id filter_id d = ground (arith, contains-matching txs g f d)

  count_hit-cons :
      (tx_id filter_id g : Uuid) (f : CategoryFilter) (fs : List CategoryFilter)
      (txs : List Transaction)
      → count_hit tx_id filter_id (refresh_hits ilike txs g (f ∷ fs))
        ≡ count_hit tx_id filter_id (refresh_hit ilike txs g f)
          + count_hit tx_id filter_id (refresh_hits ilike txs g fs)
  unfolding refresh_hits
  count_hit-cons tx_id filter_id g f fs txs = count_if-append _ (refresh_hit ilike txs g f) _

  count_hit-refresh_hits_other :
      (txs : List Transaction) (g : Uuid) (fs : List CategoryFilter) (tx_id filter_id : Uuid)
      → Distinct (transaction_ids txs)
      → (g == tx_id && contains filter_id (filter_ids fs)) ≡ false
      → count_hit tx_id filter_id (refresh_hits ilike txs g fs) ≡ 0
  unfolding refresh_hits
  count_hit-refresh_hits_other txs g [] tx_id filter_id d h = refl
  count_hit-refresh_hits_other txs g (f ∷ fs) tx_id filter_id d h = ground (
    arith,
    count_hit-cons tx_id filter_id g f fs txs,
    count_hit-refresh_hit txs g f tx_id filter_id d,
    count_hit-refresh_hits_other txs g fs tx_id filter_id d,
  )

  refresh_hits_lem :
      (txs : List Transaction) (g : Uuid) (fs : List CategoryFilter)
      → Distinct (transaction_ids txs)
      → Distinct (filter_ids fs)
      → All
          (λ (f : CategoryFilter).
            count_hit g f.id (refresh_hits ilike txs g fs) ≡ count_matching ilike txs g f)
          fs
  refresh_hits_lem txs g [] d e = tt
  refresh_hits_lem txs g (f ∷ fs) d e = (
    ground (
      arith,
      count_hit-cons g f.id g f fs txs,
      count_hit-refresh_hit txs g f g f.id d,
      count_hit-refresh_hits_other txs g fs g f.id d (rw (e.0) (ground arith)),
    ),
    All-zip {Q = λ (x : CategoryFilter). (x.id == f.id) ≡ false}
        (λ x now other.
          ground (arith, count_hit-cons g x.id g f fs txs, count_hit-refresh_hit txs g f g x.id d))
        fs (refresh_hits_lem txs g fs d e.1) (ids_differ f.id fs e.0),
  )

  count_hit-refreshed :
      (tx_id u filter_id : Uuid) (assigned : Bool) (db : Db)
      → count_hit u filter_id (refresh_transaction_hits ilike tx_id assigned db).hits
        ≡ (if tx_id == u then 0 else count_hit u filter_id db.hits)
          + (if assigned
              then 0
              else count_hit u filter_id (refresh_hits ilike db.transactions tx_id db.filters))
  unfolding refresh_transaction_hits
  count_hit-refreshed tx_id u filter_id assigned db = ground (
    arith,
    count_hit-drop_transaction u filter_id tx_id db.hits,
    count_if-append (λ (h : Hit). h.transaction_id == u && h.filter_id == filter_id)
        (filter (λ (h : Hit). not (h.transaction_id == tx_id)) db.hits)
        (refresh_hits ilike db.transactions tx_id db.filters),
  )

  -- The refreshed transaction itself: nothing of the old table counts.
  fresh_at :
      (tx_id : Uuid) (assigned : Bool) (db : Db)
      → contains tx_id (tx_with_directs db) ≡ assigned
      → Distinct (transaction_ids db.transactions)
      → Distinct (filter_ids db.filters)
      → All
          (λ (f : CategoryFilter).
            count_hit tx_id f.id (refresh_transaction_hits ilike tx_id assigned db).hits
            ≡ expected_hits ilike db tx_id f)
          db.filters
  fresh_at tx_id assigned db now dt df =
      All-map
        (λ f counted.
          ground (arith, count_hit-refreshed tx_id tx_id f.id assigned db, ==_self tx_id))
        db.filters (refresh_hits_lem db.transactions tx_id db.filters dt df)

  fresh_elsewhere :
      (tx_id u : Uuid) (assigned : Bool) (db : Db) (ds : List Direct)
      → (u == tx_id) ≡ false
      → contains u (tx_with_directs (record db { directs = ds })) ≡ contains u (tx_with_directs db)
      → Distinct (transaction_ids db.transactions)
      → All
          (λ (f : CategoryFilter). count_hit u f.id db.hits ≡ expected_hits ilike db u f)
          db.filters
      → All
          (λ (f : CategoryFilter).
            count_hit u f.id
              (refresh_transaction_hits ilike tx_id assigned (record db { directs = ds })).hits
            ≡ expected_hits ilike (record db { directs = ds }) u f)
          db.filters
  fresh_elsewhere tx_id u assigned db ds other same dt fresh =
      All-map
        (λ f counted. ground (
          arith,
          count_hit-refreshed tx_id u f.id assigned (record db { directs = ds }),
          count_hit-refresh_hits_other db.transactions tx_id db.filters u f.id dt,
        ))
        db.filters fresh

  -- After a change of the directs of one transaction, the refreshed table is fresh if the table was
  -- fresh before; `assigned` says whether the transaction has a live direct assignment now.
  pub refresh_transaction_hits-IsFresh :
      (tx_id : Uuid) (assigned : Bool) (db : Db) (ds : List Direct)
      → contains tx_id (tx_with_directs (record db { directs = ds })) ≡ assigned
      → ((u : Uuid)
          → (u == tx_id) ≡ false
          → contains u (tx_with_directs (record db { directs = ds }))
            ≡ contains u (tx_with_directs db))
      → Distinct (transaction_ids db.transactions)
      → Distinct (filter_ids db.filters)
      → IsFresh ilike db
      → IsFresh ilike (refresh_transaction_hits ilike tx_id assigned (record db { directs = ds }))
  refresh_transaction_hits-IsFresh tx_id assigned db ds now same dt df fresh u =
      unfold refresh_transaction_hits in
      elim (Bool-cases (u == tx_id)) [
        | inl here ↦
            rw ((==_iff u tx_id).0 here)
              (fresh_at tx_id assigned (record db { directs = ds }) now dt df)
        | inr other ↦ fresh_elsewhere tx_id u assigned db ds other (same u other) dt (fresh u)
      ]
