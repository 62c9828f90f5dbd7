-- ===== src/Bookkeeping/Warnings.antt =====
-- The warnings of app/services/p4x_account_service.py: transactions without a known partner, and
-- transactions without one clear category. Rows of equal booking date keep the order of the table,
-- where SQL leaves their order open.
use vb_api.Prelude.{
  ℕ, Uuid, Text, Bool, false, not, ◌&&◌, ◌||◌, Option, none, some, List, [], ◌∷◌, map, filter,
  count_if, contains, any, length, take, is_none, text_eq, ◌==◌, if◌then◌else◌,
}
use vb_api.Calendar.{date_lt}
use vb_api.Bookkeeping.Store.{Transaction, Partner, Hit, Db, is_live_transaction, tx_with_directs}

-- `iban IN (...)` of SQL over the partners' column, which may hold NULL.
abbrev pub iban_in : Text → List (Option Text) → Bool
iban_in iban [] = false
iban_in iban (none ∷ is) = iban_in iban is
iban_in iban (some i ∷ is) = text_eq i iban || iban_in iban is

-- `iban NOT IN (...)`: with a NULL in the list it is never true.
unfoldable pub iban_not_in : Text → List (Option Text) → Bool
iban_not_in iban is = not (any is_none is) && not (iban_in iban is)

-- Newest booking first; a stable insertion sort.
unfoldable pub insert_by_booking : Transaction → List Transaction → List Transaction
insert_by_booking t [] = t ∷ []
insert_by_booking t (u ∷ us) =
    if date_lt t.booking u.booking then u ∷ insert_by_booking t us else t ∷ u ∷ us

unfoldable pub sort_by_booking : List Transaction → List Transaction
unfolding insert_by_booking
sort_by_booking [] = []
sort_by_booking (t ∷ ts) = insert_by_booking t (sort_by_booking ts)

-- `items[:limit] if limit else items`
abbrev pub limited : Option ℕ → List Transaction → List Transaction
limited none ts = ts
limited (some limit) ts = if limit == 0 then ts else take limit ts

-- The IBANs of the partners that are not deleted.
abbrev pub partner_ibans : Db → List (Option Text)
partner_ibans db =
    map (λ (p : Partner). p.iban) (filter (λ (p : Partner). is_none p.deleted_at) db.partners)

unfoldable pub partner_warnings : Db → List Transaction
unfolding iban_not_in
partner_warnings db =
    filter (λ (t : Transaction). is_live_transaction t && iban_not_in t.iban (partner_ibans db))
      db.transactions

-- `get_warnings_partner`
unfoldable pub get_warnings_partner : Option ℕ → Db → List Transaction × ℕ
unfolding sort_by_booking partner_warnings
get_warnings_partner limit db =
    (limited limit (sort_by_booking (partner_warnings db)), length (partner_warnings db))

-- `hit_counts.get(tx.id, 0)`
abbrev pub hits_of_transaction : Uuid → List Hit → ℕ
hits_of_transaction tx_id hits = count_if (λ (h : Hit). h.transaction_id == tx_id) hits

unfoldable pub category_warnings : Db → List Transaction
category_warnings db =
    filter
      (λ (t : Transaction).
        is_live_transaction t
        && (not (contains t.id (tx_with_directs db))
            && not (hits_of_transaction t.id db.hits == 1)))
      db.transactions

-- `get_warnings_category`
unfoldable pub get_warnings_category : Option ℕ → Db → List Transaction × ℕ
unfolding sort_by_booking category_warnings
get_warnings_category limit db =
    (limited limit (sort_by_booking (category_warnings db)), length (category_warnings db))
