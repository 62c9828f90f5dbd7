-- ===== src/Bookkeeping/Directs/Loop.antt =====
-- The loop of `filter_to_direct`, which assigns each transaction that a filter hits.
use vb_api.Prelude.{
  ◌≡◌, refl, ap, ◌∙◌, Uuid, Text, Bool, true, false, not, ◌&&◌, ◌||◌, some, List, [], ◌∷◌, map,
  filter, contains, All, ◌==◌, arith, ok, Bool-cases, inl, inr, ==_iff,
}
use vb_api.Prelude.Int.{ℤ, pos, eqb_ℤ}
use vb_api.Bookkeeping.Store.{
  Instant, Transaction, CategoryFilter, Hit, Db, is_live_transaction, tx_with_directs,
}
use vb_api.Bookkeeping.Hits.{refresh_transaction_hits, get_filter_hits}
use vb_api.Bookkeeping.Hits.Expected.{IsFresh, expected_hits, count_hit, count_matching}
use vb_api.Bookkeeping.Hits.Refresh.{transaction_ids}
use vb_api.Bookkeeping.Amounts.{Decimal, number, cents, is_total-cents}
use vb_api.Bookkeeping.Directs.{
  Slot, valid_slots, is_empty, repeats_category, sum_differs, write_directs, set_category_direct,
  assign_each,
}
use vb_api.Bookkeeping.Directs.Fresh.{HasKeys, write_directs-IsFresh, tx_with_directs-write_directs}

abbrev single_slot : Uuid → ℤ → List Slot
single_slot c a = record { category_id = some c; amount = some (number (cents a)) } ∷ []

-- The amount of no transaction is zero.
abbrev pub NoZeroAmount : List Transaction → Type 0
NoZeroAmount ts = All (λ (t : Transaction). eqb_ℤ t.amount (pos 0) ≡ false) ts

contains-hit_ids :
    (u f : Uuid) (hits : List Hit)
    → contains u (map (λ (h : Hit). h.transaction_id) (filter (λ (h : Hit). h.filter_id == f) hits))
      ≡ not (count_hit u f hits == 0)
contains-hit_ids u f [] = refl
contains-hit_ids u f (h ∷ hits) = ground (arith, contains-hit_ids u f hits)

contains-filter :
    (u : Uuid) (p : Uuid → Bool) (is : List Uuid)
    → contains u (filter p is) ≡ (contains u is && p u)
contains-filter u p [] = refl
contains-filter u p (i ∷ is) = elim (Bool-cases (i == u)) [
  | inl same ↦ ground (arith, contains-filter u p is, ap p ((==_iff i u).0 same))
  | inr other ↦ ground (arith, contains-filter u p is)
]

module _ (ilike : Text → Text → Bool) where
  contains-valid_rows :
      (u : Uuid) (f : CategoryFilter) (ids : List Uuid) (txs : List Transaction)
      → contains u ids ≡ true
      → (count_matching ilike txs u f == 0) ≡ false
      → contains u (
          transaction_ids
            (filter (λ (t : Transaction). contains t.id ids && is_live_transaction t) txs))
        ≡ true
  contains-valid_rows u f ids [] h k = ground arith
  contains-valid_rows u f ids (t ∷ txs) h k = elim (Bool-cases (t.id == u)) [
    | inl same ↦ ground (
      arith,
      contains-valid_rows u f ids txs h,
      ap (λ i. contains i ids) ((==_iff t.id u).0 same),
    )
    | inr other ↦ ground (arith, contains-valid_rows u f ids txs h)
  ]

  -- In fresh tables, a transaction that the filter matches is one of its hits, or has a live
  -- direct assignment.
  pub hit_or_assigned :
      (u : Uuid) (f : CategoryFilter) (db : Db)
      → count_hit u f.id db.hits ≡ expected_hits ilike db u f
      → (count_matching ilike db.transactions u f == 0) ≡ false
      → (contains u (tx_with_directs db) || contains u (transaction_ids (get_filter_hits db f)))
        ≡ true
  unfolding get_filter_hits
  hit_or_assigned u f db fresh k = elim (Bool-cases (contains u (tx_with_directs db))) [
    | inl assigned ↦ rw assigned
    | inr free ↦ rw free (
        contains-valid_rows u f
          (filter (λ i. not (contains i (tx_with_directs db)))
            (map (λ (h : Hit). h.transaction_id)
              (filter (λ (h : Hit). h.filter_id == f.id) db.hits)))
          db.transactions
          (contains-filter u (λ i. not (contains i (tx_with_directs db))) _
            ∙ rw (contains-hit_ids u f.id db.hits) (ground arith))
          k)
  ]

module _ (ilike : Text → Text → Bool) (now : Instant) where
  one_slot :
      (c : Uuid) (t : Transaction) → sum_differs t (valid_slots (single_slot c t.amount)) ≡ false
  unfolding sum_differs valid_slots
  one_slot c t = ground (arith, is_total-cents t.amount)

  -- The whole amount in one slot is never refused.
  assign_one :
      (c : Uuid) (t : Transaction) (db : Db)
      → set_category_direct ilike now t (single_slot c t.amount) db
        ≡ ok (write_directs ilike now t (valid_slots (single_slot c t.amount)) db)
  unfolding set_category_direct valid_slots repeats_category
  assign_one c t db = ground (arith, one_slot c t)

  valid_slots-single :
      (c : Uuid) (a : ℤ)
      → eqb_ℤ a (pos 0) ≡ false
      → is_empty (valid_slots (single_slot c a)) ≡ false
  unfolding valid_slots
  valid_slots-single c a h = ground arith

  assign_each-cons :
      (c : Uuid) (t : Transaction) (ts : List Transaction) (db : Db)
      → assign_each ilike now c (t ∷ ts) db
        ≡ assign_each ilike now c ts
            (write_directs ilike now t (valid_slots (single_slot c t.amount)) db)
  unfolding assign_each
  assign_each-cons c t ts db = rw (assign_one c t db)

  write_directs_tables :
      (t : Transaction) (slots : List (Uuid × Decimal)) (db : Db)
      → ((write_directs ilike now t slots db).transactions ≡ db.transactions)
        × ((write_directs ilike now t slots db).filters ≡ db.filters)
  unfolding write_directs refresh_transaction_hits
  write_directs_tables t slots db = (refl, refl)

  pub assign_each_tables :
      (c : Uuid) (ts : List Transaction) (db : Db)
      → ((assign_each ilike now c ts db).transactions ≡ db.transactions)
        × ((assign_each ilike now c ts db).filters ≡ db.filters)
  assign_each_tables c [] db = unfold assign_each in (refl, refl)
  assign_each_tables c (t ∷ ts) db =
      let db' = write_directs ilike now t (valid_slots (single_slot c t.amount)) db in
      let (sameT, sameF) = assign_each_tables c ts db' in
      let (oneT, oneF) = write_directs_tables t (valid_slots (single_slot c t.amount)) db in
      rw (assign_each-cons c t ts db) (sameT ∙ oneT, sameF ∙ oneF)

  HasKeys-write_directs :
      (t : Transaction) (slots : List (Uuid × Decimal)) (db : Db)
      → HasKeys db
      → HasKeys (write_directs ilike now t slots db)
  HasKeys-write_directs t slots db keys =
      unfold write_directs refresh_transaction_hits in
      record { transactions = keys.transactions; filters = keys.filters }

  pub assign_each-IsFresh :
      (c : Uuid) (ts : List Transaction) (db : Db)
      → HasKeys db
      → IsFresh ilike db
      → IsFresh ilike (assign_each ilike now c ts db)
  assign_each-IsFresh c [] db keys fresh = unfold assign_each in fresh
  assign_each-IsFresh c (t ∷ ts) db keys fresh =
      let slots = valid_slots (single_slot c t.amount) in
      rw (assign_each-cons c t ts db) (
        assign_each-IsFresh c ts (write_directs ilike now t slots db)
          (HasKeys-write_directs t slots db keys)
          (write_directs-IsFresh ilike now t slots db keys fresh))

  -- A transaction has a live assignment after the loop if it had one before or was in the list.
  pub assign_each-assigned :
      (c u : Uuid) (ts : List Transaction) (db : Db)
      → NoZeroAmount ts
      → (contains u (tx_with_directs db) || contains u (transaction_ids ts)) ≡ true
      → contains u (tx_with_directs (assign_each ilike now c ts db)) ≡ true
  assign_each-assigned c u [] db nz h = unfold assign_each in ground arith
  assign_each-assigned c u (t ∷ ts) db nz h =
      let slots = valid_slots (single_slot c t.amount) in
      rw (assign_each-cons c t ts db) (
        assign_each-assigned c u ts (write_directs ilike now t slots db) nz.1 (
          ground (
            arith,
            valid_slots-single c t.amount nz.0,
            tx_with_directs-write_directs ilike now u t slots db,
          )))
