-- ===== src/Bookkeeping/Directs/Fresh.antt =====
-- Setting and unsetting direct assignments: the stored hits stay what the tables ask for, and the
-- live assignments of a transaction add up to its amount.
use vb_api.Prelude.{
  ◌≤◌, All, map, ◌≡◌, refl, ◌∙◌, Uuid, Text, Bool, false, not, List, [], ◌∷◌, ◌++◌, contains,
  length, suc, ap, Distinct, ◌==◌, if◌then◌else◌, arith, ok, ==_self, ==_iff, Bool-cases, inl, inr,
}
use vb_api.Prelude.Int.{pos, sum, int_laws}
use vb_api.Bookkeeping.Store.{Instant, Transaction, Direct, Db, tx_with_directs}
use vb_api.Bookkeeping.Hits.{refresh_transaction_hits}
use vb_api.Bookkeeping.Hits.Expected.{IsFresh}
use vb_api.Bookkeeping.Hits.Rebuild.{filter_ids}
use vb_api.Bookkeeping.Hits.Refresh.{transaction_ids, refresh_transaction_hits-IsFresh}
use vb_api.Bookkeeping.Amounts.{Decimal, to_cents, is_total-sum}
use vb_api.Bookkeeping.Directs.{
  Slot, valid_slots, amounts, is_empty, sum_differs, soft_delete_directs, new_directs,
  write_directs, set_category_direct, unset_category_direct,
}
use vb_api.Bookkeeping.Directs.Live.{
  live_ids, live_amount, contains-live_ids_append, contains-soft_delete, contains-new_directs,
  live_amount-append, live_amount-soft_delete, live_amount-new_directs,
}

-- The keys of the tables that the engine relies on.
pub record HasKeys (db : Db) : Type 0 where
  pub transactions : Distinct (transaction_ids db.transactions)
  pub filters : Distinct (filter_ids db.filters)

-- Amounts of at most two decimal places.
abbrev pub HasCents : List (Uuid × Decimal) → Type 0
HasCents slots = All (λ (s : Uuid × Decimal). s.1.places ≤ 2) slots

HasCents-amounts :
    (slots : List (Uuid × Decimal))
    → HasCents slots
    → All (λ (d : Decimal). d.places ≤ 2) (amounts slots)
HasCents-amounts [] h = tt
HasCents-amounts (s ∷ slots) h = (h.0, HasCents-amounts slots h.1)

module _ (ilike : Text → Text → Bool) (now : Instant) where
  contains-written :
      (u t : Uuid) (slots : List (Uuid × Decimal)) (ds : List Direct)
      → contains u (live_ids (soft_delete_directs now t ds ++ new_directs t slots))
        ≡ (if t == u then not (is_empty slots) else contains u (live_ids ds))
  contains-written u t slots ds = ground (
    arith,
    contains-live_ids_append u (soft_delete_directs now t ds) (new_directs t slots),
    contains-soft_delete now u t ds,
    contains-new_directs u t slots,
  )

  pub write_directs-IsFresh :
      (t : Transaction) (slots : List (Uuid × Decimal)) (db : Db)
      → HasKeys db
      → IsFresh ilike db
      → IsFresh ilike (write_directs ilike now t slots db)
  unfolding write_directs
  write_directs-IsFresh t slots db keys fresh =
      refresh_transaction_hits-IsFresh ilike t.id (not (is_empty slots)) db
        (soft_delete_directs now t.id db.directs ++ new_directs t.id slots)
        (contains-written t.id t.id slots db.directs ∙ rw (==_self t.id))
        (λ u other. ground (arith, contains-written u t.id slots db.directs)) keys.transactions
        keys.filters fresh

  set_category_direct_ok :
      (t : Transaction) (slots : List Slot) (db db' : Db)
      → set_category_direct ilike now t slots db ≡ ok db'
      → (sum_differs t (valid_slots slots) ≡ false)
        × (write_directs ilike now t (valid_slots slots) db ≡ db')
  unfolding set_category_direct
  set_category_direct_ok t slots db db' h = ground arith

  -- A direct assignment that is accepted leaves the stored hits fresh, if they were fresh and the
  -- ids of the transactions and of the filters are distinct: the hits of the one transaction are
  -- brought up to date as a rebuild of every filter would.
  pub set_category_direct-IsFresh :
      (t : Transaction) (slots : List Slot) (db db' : Db)
      → HasKeys db
      → IsFresh ilike db
      → set_category_direct ilike now t slots db ≡ ok db'
      → IsFresh ilike db'
  set_category_direct-IsFresh t slots db db' keys fresh h =
      rw (← (set_category_direct_ok t slots db db' h).1)
        (write_directs-IsFresh t (valid_slots slots) db keys fresh)

  length-soft_delete :
      (i : Uuid) (ds : List Direct) → length (soft_delete_directs now i ds) ≡ length ds
  unfolding soft_delete_directs
  length-soft_delete i [] = refl
  length-soft_delete i (d ∷ ds) = ap suc (length-soft_delete i ds)

  -- Unsetting the assignments of a transaction: it has no live one afterwards, and the live ones of
  -- every other transaction add up to what they did; no row is removed. Fresh hits stay fresh, if
  -- the ids of the transactions and of the filters are distinct, so that the transaction gets the
  -- hits that the filters give without an assignment. Transactions and filters stay as they were.
  pub unset_category_direct-IsFresh :
      (t : Transaction) (db : Db)
      → HasKeys db
      → IsFresh ilike db
      → IsFresh ilike (unset_category_direct ilike now t db)
        × ((u : Uuid)
            → contains u (tx_with_directs (unset_category_direct ilike now t db))
              ≡ (if t.id == u then false else contains u (tx_with_directs db)))
        × ((u : Uuid)
            → live_amount u (unset_category_direct ilike now t db).directs
              ≡ (if t.id == u then pos 0 else live_amount u db.directs))
        × (length (unset_category_direct ilike now t db).directs ≡ length db.directs)
        × ((unset_category_direct ilike now t db).transactions ≡ db.transactions)
        × ((unset_category_direct ilike now t db).filters ≡ db.filters)
  unfolding unset_category_direct refresh_transaction_hits
  unset_category_direct-IsFresh t db keys fresh = (
    refresh_transaction_hits-IsFresh ilike t.id false db (soft_delete_directs now t.id db.directs)
        (contains-soft_delete now t.id t.id db.directs ∙ rw (==_self t.id))
        (λ u other. ground (arith, contains-soft_delete now u t.id db.directs)) keys.transactions
        keys.filters fresh,
    λ u. contains-soft_delete now u t.id db.directs,
    λ u. live_amount-soft_delete now u t.id db.directs,
    length-soft_delete t.id db.directs,
    refl,
    refl,
  )

  sum_of_accepted :
      (t : Transaction) (slots : List (Uuid × Decimal))
      → HasCents slots
      → sum_differs t slots ≡ false
      → sum (map to_cents (amounts slots)) ≡ (if is_empty slots then pos 0 else t.amount)
  unfolding sum_differs
  sum_of_accepted t [] small h = refl
  sum_of_accepted t (s ∷ slots) small h =
      ground
        (arith, h, is_total-sum t.amount (amounts (s ∷ slots)) (HasCents-amounts (s ∷ slots) small))

  pub tx_with_directs-write_directs :
      (u : Uuid) (t : Transaction) (slots : List (Uuid × Decimal)) (db : Db)
      → contains u (tx_with_directs (write_directs ilike now t slots db))
        ≡ (if t.id == u then not (is_empty slots) else contains u (tx_with_directs db))
  unfolding write_directs refresh_transaction_hits
  tx_with_directs-write_directs u t slots db = contains-written u t.id slots db.directs

  live_amount-write_directs :
      (u : Uuid) (t : Transaction) (slots : List (Uuid × Decimal)) (db : Db)
      → live_amount u (write_directs ilike now t slots db).directs
        ≡ (if t.id == u then sum (map to_cents (amounts slots)) else live_amount u db.directs)
  unfolding write_directs refresh_transaction_hits
  live_amount-write_directs u t slots db =
      live_amount-append u (soft_delete_directs now t.id db.directs) (new_directs t.id slots)
      ∙ grind (
        int_laws,
        live_amount-soft_delete now u t.id db.directs,
        live_amount-new_directs u t.id slots,
      )

  live_amount_elsewhere :
      (u : Uuid) (t : Transaction) (slots : List (Uuid × Decimal)) (db : Db)
      → live_amount u (write_directs ilike now t slots db).directs ≡ (
          if t.id == u
          then live_amount t.id (write_directs ilike now t slots db).directs
          else live_amount u db.directs)
  live_amount_elsewhere u t slots db = elim (Bool-cases (t.id == u)) [
    | inl same ↦ rw (same, (==_iff t.id u).0 same) refl
    | inr other ↦ live_amount-write_directs u t slots db ∙ rw other refl
  ]

  -- After an accepted assignment with at least one usable slot, none with more than two decimal places,
  -- the live assignments of the transaction add up to its amount; with no usable slot, it has no live assignment. The live assignments of
  -- every other transaction add up to what they did before.
  pub set_category_direct_amounts :
      (t : Transaction) (slots : List Slot) (db db' : Db)
      → HasCents (valid_slots slots)
      → set_category_direct ilike now t slots db ≡ ok db'
      → (live_amount t.id db'.directs ≡ (if is_empty (valid_slots slots) then pos 0 else t.amount))
        × (contains t.id (tx_with_directs db') ≡ not (is_empty (valid_slots slots)))
        × ((u : Uuid)
            → live_amount u db'.directs
              ≡ (if t.id == u then live_amount t.id db'.directs else live_amount u db.directs))
  set_category_direct_amounts t slots db db' small h =
      rw (← (set_category_direct_ok t slots db db' h).1) (
        live_amount-write_directs t.id t (valid_slots slots) db
            ∙ rw (==_self t.id) (
                sum_of_accepted t (valid_slots slots) small
                  (set_category_direct_ok t slots db db' h).0),
        tx_with_directs-write_directs t.id t (valid_slots slots) db ∙ rw (==_self t.id),
        λ u. live_amount_elsewhere u t (valid_slots slots) db,
      )
