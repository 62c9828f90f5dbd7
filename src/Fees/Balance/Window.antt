-- ===== src/Fees/Balance/Window.antt =====
-- The balance at the last date does not depend on the first: what lies before the first date is in
-- the opening balance, what lies after it in the entries.
use vb_api.Prelude.{
  ℕ, Uuid, Text, ◌+◌, ◌-◌, ◌≤◌, ◌≡◌, refl, ap, ◌∙◌, Bool, true, false, ◌&&◌, ◌||◌, Option, List, [],
  ◌∷◌, ◌++◌, map, filter, arith, get_or_else, if◌then◌else◌, Bool-cases, inl, inr,
}
use native.Mathlib.Nat.{zero-add, add-zero}
use mathlib.Core.List.{map-append}
use vb_api.Prelude.Int.{ℤ, pos, ◌+ℤ◌, ◌-ℤ◌, sum, sum-append, int_laws}
use vb_api.Calendar.{
  Date, date_le, date_lt, first_of_month, day_before, count_months, months_range, months_from,
}
use vb_api.Calendar.Order.{
  month_index, date_le-eq-not_lt, date_le_trans, date_lt-le_trans, date_le_index,
}
use vb_api.Calendar.Months.{
  HasMonth, months_range-append, months_range_shift, count_months_until, count_months_through,
}
use vb_api.Bookkeeping.Store.{Transaction, Member, Db}
use vb_api.Fees.Schedule.{fee_at, fee_step_function, sum_fees_for_period}
use vb_api.Fees.Payments.{
  amounts_of, unless_empty, payments_within, is_fee_payment, is_paid_by, member_ibans,
  fee_category_tx_ids, get_fee_payments_sum, get_fee_payments_list,
}
use vb_api.Fees.Balance.{
  Entry, is_freed, fee_entry, payment_entry, entry_amounts, opening_balance, entries_between,
  balance_between,
}

-- The balance of a member at a date, from the beginning: the initial balance, less the fee of each
-- month through that of the date, plus every payment up to the date.
abbrev pub balance_at : Db → Member → Date → Date → ℤ
balance_at db m init_date end_date =
    let (starts, fees) = fee_step_function db in
    let initial = get_or_else m.p4x_init_balance (pos 0) in
    (if is_freed m
      then initial
      else initial -ℤ sum_fees_for_period starts fees init_date (count_months init_date end_date))
    +ℤ sum (amounts_of (get_fee_payments_list db m init_date end_date))

months_join :
    (init_date start_date : Date) (n k : ℕ)
    → HasMonth init_date
    → HasMonth start_date
    → month_index start_date ≡ month_index init_date + n
    → months_range init_date 0 (n + k) ≡ months_range init_date 0 n ++ months_range start_date 0 k
months_join init_date start_date n k hi hs h =
    months_range-append init_date 0 n k
    ∙ rw (months_range_shift init_date start_date n 0 k hi hs h, zero-add, add-zero)

sum_fees-split :
    (starts : List Date) (fees : List ℤ) (init_date start_date end_date : Date)
    → HasMonth init_date
    → HasMonth start_date
    → month_index init_date ≤ month_index start_date
    → month_index start_date ≤ month_index end_date
    → sum_fees_for_period starts fees init_date (count_months init_date end_date)
      ≡ sum_fees_for_period starts fees init_date
          (count_months init_date (day_before (first_of_month start_date)))
        +ℤ sum_fees_for_period starts fees start_date (count_months start_date end_date)
unfolding sum_fees_for_period months_from
sum_fees-split starts fees init_date start_date end_date hi hs le1 le2 =
    let n = month_index start_date - month_index init_date in
    let k = month_index end_date + 1 - month_index start_date in
    let total : month_index end_date + 1 - month_index init_date ≡ n + k = omega arith in
    rw
      (
        count_months_through init_date end_date,
        count_months_until init_date start_date hi hs,
        count_months_through start_date end_date,
        total,
        months_join init_date start_date n k hi hs (omega arith),
      )
      (ap sum (map-append (fee_at starts fees) (months_range init_date 0 n) _) ∙ sum-append _ _)

window_split :
    (a b c d : Date)
    → date_le a b ≡ true
    → date_le b c ≡ true
    → ((date_le a d && date_lt d b) ≡ true → (date_le a d && date_le d c) ≡ true)
      × ((date_le b d && date_le d c) ≡ true → (date_le a d && date_le d c) ≡ true)
      × ((date_le a d && date_le d c)
          ≡ ((date_le a d && date_lt d b) || (date_le b d && date_le d c)))
      × ((date_le a d && date_lt d b) && (date_le b d && date_le d c) ≡ false)
window_split a b c d h k =
    ground (arith, date_le-eq-not_lt b d, date_le_trans a b d, date_lt-le_trans d b c)

module _ (keep : Transaction → Bool) (paid : Transaction → Bool) where
  abbrev picked : (Date → Bool) → List Transaction → List Transaction
  picked within txs = filter (λ (t : Transaction). keep t && within t.booking && paid t) txs

  sum-split :
      (a b c : Date) (txs : List Transaction)
      → date_le a b ≡ true
      → date_le b c ≡ true
      → sum (amounts_of (picked (λ d. date_le a d && date_le d c) txs))
        ≡ sum (amounts_of (picked (λ d. date_le a d && date_lt d b) txs))
          +ℤ sum (amounts_of (picked (λ d. date_le b d && date_le d c) txs))
  sum-split a b c [] h k = omega int_laws
  sum-split a b c (t ∷ txs) h k =
      grind (int_laws, window_split a b c t.booking h k, sum-split a b c txs h k)

guarded_split :
    (ibans : List (Option Text)) (ids : List Uuid) (xs ys zs : List Transaction)
    → sum (amounts_of xs) ≡ sum (amounts_of ys) +ℤ sum (amounts_of zs)
    → sum (amounts_of (unless_empty ibans [] (unless_empty ids [] xs)))
      ≡ sum (amounts_of (unless_empty ibans [] (unless_empty ids [] ys)))
        +ℤ sum (amounts_of (unless_empty ibans [] (unless_empty ids [] zs)))
guarded_split [] ids xs ys zs h = omega int_laws
guarded_split (i ∷ is) [] xs ys zs h = omega int_laws
guarded_split (i ∷ is) (j ∷ js) xs ys zs h = h

payments-split :
    (db : Db) (m : Member) (a b c : Date)
    → date_le a b ≡ true
    → date_le b c ≡ true
    → sum (amounts_of (get_fee_payments_list db m a c))
      ≡ get_fee_payments_sum db m a b +ℤ sum (amounts_of (get_fee_payments_list db m b c))
unfolding get_fee_payments_list get_fee_payments_sum payments_within
payments-split db m a b c h k =
    guarded_split (member_ibans db m.id) (fee_category_tx_ids db) _ _ _ (
      sum-split (is_fee_payment (fee_category_tx_ids db)) (is_paid_by (member_ibans db m.id) m.id) a
        b c db.transactions h k)

sum-fee_entries :
    (starts : List Date) (fees : List ℤ) (ms : List Date)
    → sum (entry_amounts (map (fee_entry starts fees) ms))
      ≡ pos 0 -ℤ sum (map (fee_at starts fees) ms)
sum-fee_entries starts fees [] = omega int_laws
sum-fee_entries starts fees (d ∷ ms) = rw (sum-fee_entries starts fees ms) (omega int_laws)

amounts-payment_entries :
    (txs : List Transaction) → entry_amounts (map payment_entry txs) ≡ amounts_of txs
amounts-payment_entries [] = refl
amounts-payment_entries (t ∷ txs) = rw (amounts-payment_entries txs)

abbrev charged : Db → Date → Date → List Entry
charged db a b =
    map (fee_entry (fee_step_function db).0 (fee_step_function db).1)
      (months_from a (count_months a b))

sum-entries_between :
    (db : Db) (m : Member) (a b : Date)
    → sum (entry_amounts (entries_between db m a b))
      ≡ (if is_freed m
          then pos 0
          else pos 0
            -ℤ sum_fees_for_period
                (fee_step_function db).0
                (fee_step_function db).1
                a
                (count_months a b))
        +ℤ sum (amounts_of (get_fee_payments_list db m a b))
unfolding entries_between sum_fees_for_period
sum-entries_between db m a b =
    let paid = get_fee_payments_list db m a b in
    elim (Bool-cases (is_freed m)) [
      | inl freed ↦
          rw (freed, amounts-payment_entries (get_fee_payments_list db m a b)) (omega int_laws)
      | inr liable ↦ rw liable (
          ap sum (map-append (λ (e : Entry). e.amount) (charged db a b) (map payment_entry paid))
          ∙ sum-append (entry_amounts (charged db a b)) (entry_amounts (map payment_entry paid))
          ∙ rw (
            sum-fee_entries (fee_step_function db).0 (fee_step_function db).1
                (months_from a (count_months a b)),
            amounts-payment_entries paid,
          ))
    ]

-- Between two dates that lie in order after the first month of a member, the final balance is the
-- balance from the beginning through the last date: it does not depend on the first date.
pub end_balance-eq-balance_at :
    (db : Db) (m : Member) (init_date start_date end_date : Date)
    → HasMonth init_date
    → HasMonth start_date
    → HasMonth end_date
    → date_le init_date start_date ≡ true
    → date_le start_date end_date ≡ true
    → (balance_between db m init_date start_date end_date).end_balance
      ≡ balance_at db m init_date end_date
unfolding balance_between opening_balance
end_balance-eq-balance_at db m init_date start_date end_date hi hs he h k = grind (
  int_laws,
  sum-entries_between db m start_date end_date,
  payments-split db m init_date start_date end_date h k,
  sum_fees-split (fee_step_function db).0 (fee_step_function db).1 init_date start_date end_date hi
      hs (date_le_index init_date start_date hi.month_pos hi.month_le hs.month_pos hs.month_le h)
      (date_le_index start_date end_date hs.month_pos hs.month_le he.month_pos he.month_le k),
)
