-- ===== src/Fees/Tests.antt =====
-- Runs of the fee balances on sample rows.
use vb_api.Calendar.{date_eq}
use vb_api.Prelude.{
  ℕ, ◌≡◌, refl, Uuid, true, false, not, ◌&&◌, none, some, [], ◌∷◌, ◌++◌, arith, is_id, text_eq, ok,
  err,
}
use vb_api.Prelude.Int.{ℤ, pos, negsuc, ◌+ℤ◌, ◌-ℤ◌}
use vb_api.Calendar.{
  Date, is_leap, days_in_month, date_le, date_lt, date_eq, date_max, first_of_month, day_before,
  end_of_month, count_months, month_at, months_range, months_from,
}
use vb_api.Bookkeeping.Store.{Transaction, Direct, Fee, Member, Db}
use vb_api.Fees.Schedule.{
  insert_fee, sort_fees, get_all_fees, bisect_right, sum_fees_for_period, fee_at, fee_step_function,
  fee_for_month, month_in_past, create_fee,
}
use vb_api.Fees.Schedule.Agree.{fee_at-eq-fee_for_month}
use vb_api.Fees.Payments.{
  fee_category_id, fee_category_tx_ids, no_delegation, is_fee_payment, payments_within,
  get_fee_payments_sum, get_fee_payments_list, member_ibans, is_paid_by,
}
use vb_api.Fees.Balance.{
  start_date_for, requested_end, end_date_for, insert_entry, sort_entries, run_balance,
  opening_balance, entries_between, FeeBalance, balance_between, calculate_fee_balance,
  is_fee_member,
}
use vb_api.Fees.Balance.Window.{balance_at}
use vb_api.Fees.Balance.Dates.{IsUsual, calculate_fee_balance-end_balance}
use vb_api.Fees.Balance.Running.{IsRunning, last_balance, InOrder, balance_between-progress}
use vb_api.Fees.BalanceList.{
  member_state, build_member_states, iban_get, fetch_fee_rows, credit, attribute_payments, earliest,
  latest, list_entries, insert_by_balance, sort_by_balance, get_fee_members, paid_states, fee_row,
  iban_rows, iban_values, payment_target, get_fee_balances,
}
use vb_api.Fees.BalanceList.Parity.{single_entries, get_fee_balances_lem}
use vb_api.Fees.BalanceList.Owners.{payment_target_lem}
use vb_api.Fees.BalanceList.Ibans.{is_empty_list}

abbrev date : ℕ → ℕ → ℕ → Date
date y m d = record { year = y; month = m; day = d }

abbrev today : Date
today = date 2024 5 17

abbrev philister : Member
philister = record {
  id = 21;
  org_id = some "vbw";
  state_id = some "up";
  entlassen = false;
  verstorben = false;
  philistrierungsdatum = some (date 2024 1 20);
  p4x_init_date = none;
  p4x_init_balance = some (negsuc 9);
  p4x_freed = none;
  p4x_comment = none;
}

abbrev payment : Uuid → Date → ℤ → Transaction
payment i booking amount = record {
  id = i;
  booking = booking;
  iban = b'A' ∷ [];
  amount = amount;
  subject = [];
  account_id = 1;
  delegating_member_id = none;
  delegating_contact_id = none;
  delegating_account_id = none;
  delegating_special_contact_id = none;
  comment = none;
  attachment = none;
  deleted_at = none;
}

abbrev paid : Uuid → ℤ → Direct
paid t amount = record { transaction_id = t; category_id = 4; amount = amount; deleted_at = none }

abbrev fee_from : Date → ℤ → Fee
fee_from start amount = record { start = start; fee = amount; is_protected = false }

abbrev rows : Db
rows = record {
  transactions = payment 1 (date 2024 2 3) (pos 30) ∷ payment 2 (date 2024 5 2) (pos 20) ∷ [];
  partners =
      record {
        iban = some (b'A' ∷ []);
        member_id = some 21;
        contact_id = none;
        account_id = none;
        special_contact_id = none;
        deleted_at = none;
      }
      ∷ [];
  categories =
      record {
        id = 4;
        name = "eingang.mitgliedsbeitrag";
        label = "";
        background_color = "";
        text_color = "";
        is_protected = true;
      }
      ∷ [];
  directs = paid 1 (pos 30) ∷ paid 2 (pos 20) ∷ [];
  filters = [];
  hits = [];
  accounts = [];
  fees = fee_from (date 2024 3 1) (pos 7) ∷ fee_from (date 2020 1 1) (pos 5) ∷ [];
  members = philister ∷ [];
  contact_ids = [];
  special_contact_ids = [];
}

abbrev balance : FeeBalance
balance = balance_between rows philister (date 2024 1 1) (date 2024 1 1) (date 2024 4 30)

-- January to April cost 5, 5, 7 and 7; the payment of May is not in the balance yet.
balance_of_april : balance.end_balance ≡ negsuc 3
unfolding balance_between opening_balance entries_between run_balance sort_entries insert_entry
    get_fee_payments_sum get_fee_payments_list payments_within member_ibans is_paid_by
    fee_category_tx_ids is_fee_payment date_le fee_step_function first_of_month day_before
    count_months date_lt month_at months_from months_range fee_category_id no_delegation
    bisect_right fee_at get_all_fees insert_fee sort_fees sum_fees_for_period ◌+ℤ◌ ◌-ℤ◌ text_eq
    is_leap days_in_month
balance_of_april = refl

list_of_april :
    get_fee_balances rows today ≡ record { id = 21; p4x_freed = false; end_balance = negsuc 3 } ∷ []
unfolding get_fee_balances sort_by_balance list_entries get_fee_members build_member_states
    paid_states attribute_payments fetch_fee_rows fee_category_tx_ids is_fee_payment date_le
    earliest member_state first_of_month latest day_before credit payment_target count_months
    date_lt end_of_month month_at months_from months_range is_fee_member iban_get iban_rows
    iban_values insert_by_balance fee_category_id no_delegation bisect_right fee_at get_all_fees
    insert_fee sort_fees sum_fees_for_period ◌+ℤ◌ ◌-ℤ◌ text_eq is_leap days_in_month
list_of_april = refl

balance_found : calculate_fee_balance rows today philister none none ≡ some balance
unfolding calculate_fee_balance first_of_month start_date_for end_date_for requested_end date_max
    date_lt day_before days_in_month is_leap is_fee_member
balance_found = refl

today-IsUsual : IsUsual today
today-IsUsual = ground arith

calculate_fee_balance-end_balance_example :
    balance.end_balance
    ≡ balance_at rows philister (first_of_month (date 2024 1 20)) (date 2024 4 30)
unfolding balance_between
calculate_fee_balance-end_balance_example =
    calculate_fee_balance-end_balance rows today philister (date 2024 1 20) none none balance refl
      today-IsUsual (ground arith) tt tt balance_found

balance_between-progress_example :
    IsRunning balance.start_balance balance.progress
    × (last_balance balance.start_balance balance.progress ≡ balance.end_balance)
    × (balance.start_balance +ℤ balance.sum_fees +ℤ balance.sum_payments ≡ balance.end_balance)
    × InOrder balance.progress
balance_between-progress_example =
    balance_between-progress rows philister (date 2024 1 1) (date 2024 1 1) (date 2024 4 30)

fee_at-eq-fee_for_month_example :
    fee_at (fee_step_function rows).0 (fee_step_function rows).1 today ≡ fee_for_month rows today
unfolding date_eq
fee_at-eq-fee_for_month_example = fee_at-eq-fee_for_month rows today (ground arith)

abbrev summer_fee : Fee
summer_fee = fee_from (date 2024 6 1) (pos 9)

abbrev with_summer_fee : Db
with_summer_fee = record rows { fees = rows.fees ++ summer_fee ∷ [] }

summer_fee_accepted : create_fee today 2024 6 (pos 9) rows ≡ ok (summer_fee, with_summer_fee)
unfolding create_fee date_lt first_of_month date_eq
summer_fee_accepted = refl

past_refused : create_fee today 2024 4 (pos 9) rows ≡ err month_in_past
unfolding create_fee date_lt first_of_month
past_refused = refl

payment_target_lem_example :
    is_id
      (payment_target
        (iban_rows (21 ∷ []) rows.partners)
        (iban_values (iban_rows (21 ∷ []) rows.partners))
        (fee_row (payment 1 today (pos 30))))
      21
    ≡ (not (is_empty_list (member_ibans rows 21))
        && is_paid_by (member_ibans rows 21) 21 (payment 1 today (pos 30)))
payment_target_lem_example =
    payment_target_lem rows (21 ∷ []) 21 (payment 1 today (pos 30)) (ground arith) (ground arith)
      (ground arith)

get_fee_balances_lem_example :
    get_fee_balances rows today ≡ sort_by_balance (single_entries rows today (get_fee_members rows))
get_fee_balances_lem_example =
    get_fee_balances_lem rows today (ground arith) (ground arith) (ground arith) (ground arith)
      today-IsUsual (ground arith)
