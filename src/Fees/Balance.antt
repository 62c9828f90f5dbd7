-- ===== src/Fees/Balance.antt =====
-- `calculate_fee_balance` of app/services/p4x_fee_balance_service.py: what a member owes between two
-- dates, with every fee and payment in between. Today's date is an argument.
pub mod Window
pub mod Dates
pub mod Running
use Prim.Native.String.{String}
use text.Mathlib.Text.{◌==◌ as str_eq}
use vb_api.Prelude.{
  ◌==◌, ◌&&◌, ℕ, Bool, true, false, not, Option, none, some, List, [], ◌∷◌, ◌++◌, map, filter,
  length, is_none, get_or_else, if◌then◌else◌,
}
use vb_api.Prelude.Int.{ℤ, pos, ◌+ℤ◌, ◌-ℤ◌, sum}
use vb_api.Calendar.{
  Date, date_le, date_lt, date_max, first_of_month, day_before, end_of_month, count_months,
  months_from,
}
use vb_api.Bookkeeping.Store.{Transaction, Member, Db}
use vb_api.Fees.Schedule.{fee_at, fee_step_function, sum_fees_for_period}
use vb_api.Fees.Payments.{get_fee_payments_sum, get_fee_payments_list}

abbrev pub is_text_eq : Option String → String → Bool
is_text_eq none s = false
is_text_eq (some t) s = str_eq t s

-- `is_fee_member`, and the condition of `get_fee_members` (`FEE_MEMBER_FILTER`).
unfoldable pub is_fee_member : Member → Bool
is_fee_member m =
    is_text_eq m.org_id "vbw" && is_text_eq m.state_id "up" && not m.entlassen && not m.verstorben

-- `member.p4x_init_date or member.philistrierungsdatum`
abbrev pub init_date_of : Member → Option Date
init_date_of m = elim m.p4x_init_date [ some d ↦ some d | none ↦ m.philistrierungsdatum ]

-- `bool(member.p4x_freed)`
abbrev pub is_freed : Member → Bool
is_freed m = elim m.p4x_freed [ some b ↦ b | none ↦ false ]

pub data EntryKind : Type 0 where
  fee payment : EntryKind

-- One entry of `progress`; its `balance` is set by the last loop.
pub record Entry : Type 0 where
  pub kind : EntryKind
  pub booking : Date
  pub amount : ℤ
  pub balance : ℤ

-- `FeeBalanceResult`
pub record FeeBalance : Type 0 where
  pub start_date : Date
  pub start_balance : ℤ
  pub count_fees : ℕ
  pub count_payments : ℕ
  pub sum_fees : ℤ
  pub sum_payments : ℤ
  pub end_date : Date
  pub end_balance : ℤ
  pub progress : List Entry

-- The first date of the balance. A requested date that is missing or does not parse is `none`.
unfoldable pub start_date_for : Date → Option Date → Date
start_date_for init_date none = date_max init_date init_date
start_date_for init_date (some d) = date_max (first_of_month d) init_date

-- The last date: the end of the requested month, or of the month before today's, and never before
-- the end of the first month. The month after December 9999 is no date: it counts as no request, and
-- as a start it is left out.
unfoldable pub requested_end : Date → Option Date → Date
requested_end today none = day_before (first_of_month today)
requested_end today (some d) =
    if d.year == 9999 && d.month == 12 then day_before (first_of_month today) else end_of_month d

unfoldable pub end_date_for : Date → Date → Option Date → Date
unfolding requested_end
end_date_for today start_date requested =
    let end_date = requested_end today requested in
    if date_lt end_date start_date then end_of_month start_date else end_date

abbrev pub fee_entry : List Date → List ℤ → Date → Entry
fee_entry starts fees month = record {
  kind = fee;
  booking = record month { day = 10 };
  amount = pos 0 -ℤ fee_at starts fees month;
  balance = pos 0;
}

abbrev pub payment_entry : Transaction → Entry
payment_entry t = record { kind = payment; booking = t.booking; amount = t.amount; balance = pos 0 }

abbrev pub entry_amounts : List Entry → List ℤ
entry_amounts es = map (λ (e : Entry). e.amount) es

-- `progress.sort(key=lambda e: str(e["booking"]))`: a stable sort; the texts of dates with a year of
-- four digits are ordered as the dates are.
unfoldable pub insert_entry : Entry → List Entry → List Entry
insert_entry e [] = e ∷ []
insert_entry e (d ∷ ds) = if date_lt d.booking e.booking then d ∷ insert_entry e ds else e ∷ d ∷ ds

unfoldable pub sort_entries : List Entry → List Entry
sort_entries [] = []
sort_entries (e ∷ es) = insert_entry e (sort_entries es)

-- The loop over `running_balance`.
unfoldable pub run_balance : ℤ → List Entry → List Entry
run_balance balance [] = []
run_balance balance (e ∷ es) =
    let balance' = balance +ℤ e.amount in record e { balance = balance' } ∷ run_balance balance' es

abbrev pub is_fee_entry : Entry → Bool
is_fee_entry e = elim e.kind [ fee ↦ true | payment ↦ false ]

-- The balance before the first date.
unfoldable pub opening_balance : Db → Member → Date → Date → ℤ
opening_balance db m init_date start_date =
    let (starts, fees) = fee_step_function db in
    let initial = get_or_else m.p4x_init_balance (pos 0) in
    (if is_freed m
      then initial
      else initial
        -ℤ sum_fees_for_period starts fees init_date
            (count_months init_date (day_before (first_of_month start_date))))
    +ℤ get_fee_payments_sum db m init_date start_date

-- The fees and payments from the first to the last date, fees first.
unfoldable pub entries_between : Db → Member → Date → Date → List Entry
entries_between db m start_date end_date =
    let (starts, fees) = fee_step_function db in
    (if is_freed m
      then []
      else map (fee_entry starts fees) (months_from start_date (count_months start_date end_date)))
    ++ map payment_entry (get_fee_payments_list db m start_date end_date)

-- The result, once the dates are known.
unfoldable pub balance_between : Db → Member → Date → Date → Date → FeeBalance
balance_between db m init_date start_date end_date =
    let start_balance = opening_balance db m init_date start_date in
    let entries = entries_between db m start_date end_date in
    let progress = run_balance start_balance (sort_entries entries) in
    let fees = filter is_fee_entry progress in
    let payments = filter (λ e. not (is_fee_entry e)) progress in
    record {
      start_date = start_date;
      start_balance = start_balance;
      count_fees = length fees;
      count_payments = length payments;
      sum_fees = sum (entry_amounts fees);
      sum_payments = sum (entry_amounts payments);
      end_date = end_date;
      end_balance = start_balance +ℤ sum (entry_amounts entries);
      progress = progress;
    }

-- `calculate_fee_balance`
unfoldable pub calculate_fee_balance :
    Db → Date → Member → Option Date → Option Date → Option FeeBalance
unfolding is_fee_member
calculate_fee_balance db today m requested_start requested_end_date =
    if is_fee_member m
    then elim (init_date_of m) [
      | none ↦ none
      | some raw ↦
          let init_date = first_of_month raw in
          let start_date = start_date_for init_date requested_start in
          let end_date = end_date_for today start_date requested_end_date in
          some (balance_between db m init_date start_date end_date)
    ]
    else none
