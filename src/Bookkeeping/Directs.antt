-- ===== src/Bookkeeping/Directs.antt =====
-- Direct category assignments of app/services/p4x_category_service.py. A call ends with the new
-- database, or fails and changes nothing: it returns its message before any write, and a violated
-- unique index of p4x_category_directs rolls its transaction back.
pub mod Live
pub mod Fresh
pub mod Loop
pub mod Convert
use vb_api.Prelude.{
  ℕ, ◌+◌, Uuid, Text, Bool, true, false, not, ◌&&◌, ◌||◌, Option, none, some, List, [], ◌∷◌, ◌++◌,
  map, filter, contains, ◌==◌, if◌then◌else◌, Result, ok, err, ◌>>=◌, ◌>>◌, raise_if,
}
use vb_api.Bookkeeping.Amounts.{Decimal, Amount, number, amount_value, is_total, to_cents, cents}
use vb_api.Bookkeeping.Store.{Instant, Transaction, CategoryFilter, Hit, Direct, Db, is_live_direct}
use vb_api.Bookkeeping.Hits.{refresh_transaction_hits, get_filter_hits}
use vb_api.Bookkeeping.Warnings.{get_warnings_partner, get_warnings_category}

-- One entry of the request; a missing key, `null` and an empty text are absent.
pub record Slot : Type 0 where
  pub category_id : Option Uuid
  pub amount : Option Amount

pub data Failure : Type 0 where
  amounts_differ open_warnings unique_violation : Failure

-- `[s for s in slots if s.get("p4x_category_id") and s.get("amount")]`: the number zero is false, a
-- text is not.
abbrev pub with_value : Uuid → Option Decimal → List (Uuid × Decimal)
with_value c none = []
with_value c (some d) = (c, d) ∷ []

unfoldable pub valid_slot : Slot → List (Uuid × Decimal)
unfolding amount_value
valid_slot s = elim s.category_id [
  | none ↦ []
  | some c ↦ elim s.amount [ none ↦ [] | some a ↦ with_value c (amount_value a) ]
]

unfoldable pub valid_slots : List Slot → List (Uuid × Decimal)
unfolding valid_slot
valid_slots [] = []
valid_slots (s ∷ ss) = valid_slot s ++ valid_slots ss

abbrev pub amounts : List (Uuid × Decimal) → List Decimal
amounts slots = map (λ (s : Uuid × Decimal). s.1) slots

abbrev pub is_empty {ℓ} : {A : Type ℓ} → List A → Bool
is_empty [] = true
is_empty (_ ∷ _) = false

-- `if valid_slots: ... if transaction.amount != total`
unfoldable pub sum_differs : Transaction → List (Uuid × Decimal) → Bool
unfolding is_total
sum_differs t slots = not (is_empty slots) && not (is_total t.amount (amounts slots))

-- The unique index of the live assignments by transaction and category.
unfoldable pub repeats_category : List (Uuid × Decimal) → Bool
repeats_category [] = false
repeats_category ((c, _) ∷ slots) =
    contains c (map (λ (s : Uuid × Decimal). s.0) slots) || repeats_category slots

-- `.update({"deleted_at": now})` on the live assignments of one transaction.
unfoldable pub soft_delete_directs : Instant → Uuid → List Direct → List Direct
soft_delete_directs now tx_id [] = []
soft_delete_directs now tx_id (d ∷ ds) =
    (if d.transaction_id == tx_id && is_live_direct d
      then record d { deleted_at = some now }
      else d)
    ∷ soft_delete_directs now tx_id ds

abbrev pub new_directs : Uuid → List (Uuid × Decimal) → List Direct
new_directs tx_id slots =
    map
      (λ (s : Uuid × Decimal). record {
        transaction_id = tx_id;
        category_id = s.0;
        amount = to_cents s.1;
        deleted_at = none;
      })
      slots

module _ (ilike : Text → Text → Bool) (now : Instant) where
  -- The writes of `_set_category_direct_core`.
  unfoldable pub write_directs : Transaction → List (Uuid × Decimal) → Db → Db
  write_directs t slots db =
      refresh_transaction_hits ilike t.id (not (is_empty slots))
        (record db { directs = soft_delete_directs now t.id db.directs ++ new_directs t.id slots })

  -- `_set_category_direct_core` and, with its commit, `set_category_direct`.
  unfoldable pub set_category_direct : Transaction → List Slot → Db → Result Failure Db
  set_category_direct t slots db = do
    let valid = valid_slots slots
    raise_if (sum_differs t valid) amounts_differ
    raise_if (repeats_category valid) unique_violation
    ok (write_directs t valid db)

  -- `unset_category_direct`
  unfoldable pub unset_category_direct : Transaction → Db → Db
  unset_category_direct t db =
      refresh_transaction_hits ilike t.id false
        (record db { directs = soft_delete_directs now t.id db.directs })

  -- The loop of `filter_to_direct`, which drops the message of a refused assignment.
  unfoldable pub assign_each : Uuid → List Transaction → Db → Db
  assign_each category_id [] db = db
  assign_each category_id (t ∷ ts) db =
      assign_each category_id ts
        (elim (set_category_direct t
          (record { category_id = some category_id; amount = some (number (cents t.amount)) } ∷ [])
          db) [ ok db' ↦ db' | err _ ↦ db ])

  -- `filter_to_direct`
  unfoldable pub filter_to_direct : CategoryFilter → Db → Result Failure Db
  unfolding get_warnings_partner get_warnings_category
  filter_to_direct f db = do
    let partner_count = (get_warnings_partner none db).1
    let category_count = (get_warnings_category none db).1
    raise_if (not (partner_count + category_count == 0)) open_warnings
    let db' = assign_each f.category_id (get_filter_hits db f) db
    ok (record db' { hits = filter (λ (h : Hit). not (h.filter_id == f.id)) db'.hits })
