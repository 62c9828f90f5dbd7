-- ===== src/Fees/Payments.antt =====
-- Which transactions are membership fee payments, and whose: `_fee_category_id`,
-- `_fee_category_tx_ids`, `_get_fee_payments_sum` and `_get_fee_payments_list` of
-- app/services/p4x_fee_balance_service.py, and `no_delegation_filter` of p4x_account_service.py.
use Prim.Native.String.{String}
use text.Mathlib.Text.{◌==◌ as str_eq}
use vb_api.Prelude.{
  Uuid, Text, Bool, not, ◌&&◌, ◌||◌, Option, none, some, List, [], ◌∷◌, ◌++◌, map, filter, contains,
  find, is_none, is_id,
}
use vb_api.Prelude.Int.{ℤ, pos, sum, ltb_ℤ}
use vb_api.Calendar.{Date, date_le, date_lt}
use vb_api.Bookkeeping.Store.{
  Transaction, Partner, Category, CategoryFilter, Direct, Hit, Member, Db, is_live_transaction,
  is_live_direct, tx_with_directs,
}
use vb_api.Bookkeeping.Warnings.{iban_in}

abbrev pub fee_category_name : String
fee_category_name = "eingang.mitgliedsbeitrag"

abbrev pub id_of : Option Category → Option Uuid
id_of none = none
id_of (some c) = some c.id

-- `_fee_category_id`
unfoldable pub fee_category_id : Db → Option Uuid
fee_category_id db = id_of (find (λ (c : Category). str_eq c.name fee_category_name) db.categories)

-- `column == fee_category_id`: nothing is equal to a missing category.
abbrev pub is_category : Option Uuid → Uuid → Bool
is_category category u = is_id category u

-- `_fee_category_tx_ids`: the direct assignments to the category, and the hits of its filters
-- without those of directly assigned transactions. Only membership is asked of the set.
unfoldable pub fee_category_tx_ids : Db → List Uuid
unfolding fee_category_id
fee_category_tx_ids db =
    let category = fee_category_id db in
    let direct_tx_ids =
      map (λ (d : Direct). d.transaction_id)
        (filter (λ (d : Direct). is_category category d.category_id && is_live_direct d)
          db.directs) in
    let filter_ids =
      map (λ (f : CategoryFilter). f.id)
        (filter (λ (f : CategoryFilter). is_category category f.category_id) db.filters) in
    let filter_tx_ids =
      map (λ (h : Hit). h.transaction_id)
        (filter (λ (h : Hit). contains h.filter_id filter_ids) db.hits) in
    direct_tx_ids ++ filter (λ i. not (contains i (tx_with_directs db))) filter_tx_ids

-- `no_delegation_filter`
unfoldable pub no_delegation : Transaction → Bool
no_delegation t =
    is_none t.delegating_member_id
    && is_none t.delegating_contact_id
    && is_none t.delegating_account_id
    && is_none t.delegating_special_contact_id

-- The IBANs of a member's partner rows that are not deleted.
unfoldable pub member_ibans : Db → Uuid → List (Option Text)
member_ibans db member_id =
    map (λ (p : Partner). p.iban)
      (filter (λ (p : Partner). is_id p.member_id member_id && is_none p.deleted_at) db.partners)

-- The transactions of the fee category that bring money in.
unfoldable pub is_fee_payment : List Uuid → Transaction → Bool
is_fee_payment tx_ids t = is_live_transaction t && ltb_ℤ (pos 0) t.amount && contains t.id tx_ids

-- `(iban.in_(partner_ibans) & no_delegation_filter()) | (delegating_member_id == member.id)`
unfoldable pub is_paid_by : List (Option Text) → Uuid → Transaction → Bool
is_paid_by ibans member_id t =
    (iban_in t.iban ibans && no_delegation t) || is_id t.delegating_member_id member_id

-- `if not partner_ibans`, `if not fee_cat_tx_ids`
abbrev pub unless_empty {ℓ κ} : {A : Type ℓ} {B : Type κ} → List A → B → B → B
unless_empty [] nothing rest = nothing
unless_empty (_ ∷ _) nothing rest = rest

abbrev pub amounts_of : List Transaction → List ℤ
amounts_of ts = map (λ (t : Transaction). t.amount) ts

-- The payments of a member in the window that a test of the booking date describes.
unfoldable pub payments_within : Db → Member → (Date → Bool) → List Transaction
unfolding member_ibans is_fee_payment is_paid_by
payments_within db m within =
    let ibans = member_ibans db m.id in
    let tx_ids = fee_category_tx_ids db in
    unless_empty ibans [] (
      unless_empty tx_ids [] (
        filter
          (λ (t : Transaction).
            is_fee_payment tx_ids t && within t.booking && is_paid_by ibans m.id t)
          db.transactions))

-- `_get_fee_payments_sum`: from a date up to, but excluding, another.
unfoldable pub get_fee_payments_sum : Db → Member → Date → Date → ℤ
get_fee_payments_sum db m from_date to_date =
    sum (amounts_of (payments_within db m (λ d. date_le from_date d && date_lt d to_date)))

-- `_get_fee_payments_list`: both dates included.
unfoldable pub get_fee_payments_list : Db → Member → Date → Date → List Transaction
get_fee_payments_list db m from_date to_date =
    payments_within db m (λ d. date_le from_date d && date_le d to_date)
