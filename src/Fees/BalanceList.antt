-- ===== src/Fees/BalanceList.antt =====
-- `get_fee_balances` of app/services/p4x_fee_balance_service.py and its helpers: the final balance of
-- every fee member from a constant number of queries. A dictionary by member id is the list of its
-- values in the order of insertion; member ids are distinct.
pub mod Ibans
pub mod Owners
pub mod Credit
pub mod States
pub mod Entry
pub mod Reach
pub mod Parity
use vb_api.Prelude.{
  Uuid, Text, Bool, true, false, not, ◌&&◌, ◌||◌, Option, none, some, List, [], ◌∷◌, ◌++◌, map,
  filter, find, any, contains, is_none, is_id, get_or_else, text_eq, ◌==◌, if◌then◌else◌,
}
use vb_api.Prelude.Int.{ℤ, pos, ◌+ℤ◌, ◌-ℤ◌, ltb_ℤ}
use vb_api.Calendar.{Date, date_le, date_lt, first_of_month, day_before, end_of_month, count_months}
use vb_api.Bookkeeping.Store.{Transaction, Partner, Member, Fee, Db}
use vb_api.Fees.Schedule.{get_all_fees, fees_of, sum_fees_for_period}
use vb_api.Fees.Payments.{fee_category_tx_ids, is_fee_payment, no_delegation, unless_empty}
use vb_api.Fees.Balance.{is_fee_member, init_date_of, is_freed}

-- `_MemberFeeState`, with the key under which it is stored.
pub record MemberState : Type 0 where
  pub member_id : Uuid
  pub init_date : Date
  pub end_date : Date
  pub fee_sum : ℤ
  pub payment_sum : ℤ

-- `_FeeCategoryTxRow`
pub record FeeRow : Type 0 where
  pub iban : Text
  pub booking : Date
  pub amount : ℤ
  pub delegating_member_id : Option Uuid
  pub no_delegation : Bool

-- `FeeBalanceListEntry`, without the member's display name.
pub record ListEntry : Type 0 where
  pub id : Uuid
  pub p4x_freed : Bool
  pub end_balance : ℤ

-- The body of the loop of `_build_member_states`, once the first date is known.
unfoldable pub member_state : List Date → List ℤ → Date → Member → Date → MemberState
member_state starts fees default_end m raw =
    let init_date = first_of_month raw in
    let end_date = if date_le init_date default_end then default_end else end_of_month init_date in
    record {
      member_id = m.id;
      init_date = init_date;
      end_date = end_date;
      fee_sum =
          if is_freed m
          then pos 0
          else sum_fees_for_period starts fees init_date (count_months init_date end_date);
      payment_sum = pos 0;
    }

-- `_build_member_states`
unfoldable pub build_member_states : List Date → List ℤ → Date → List Member → List MemberState
build_member_states starts fees default_end [] = []
build_member_states starts fees default_end (m ∷ ms) =
    let rest = build_member_states starts fees default_end ms in
    elim (init_date_of m) [
      | none ↦ rest
      | some raw ↦ member_state starts fees default_end m raw ∷ rest
    ]

abbrev iban_row : Option Text → Uuid → List (Text × Uuid)
iban_row none u = []
iban_row (some i) u = (i, u) ∷ []

abbrev owner_row : List Uuid → Partner → List (Text × Uuid)
owner_row member_ids p = elim p.member_id [
  | none ↦ []
  | some u ↦ if contains u member_ids && is_none p.deleted_at then iban_row p.iban u else []
]

-- `_iban_to_member_id_map`, its entries in the order in which they are written.
unfoldable pub iban_rows : List Uuid → List Partner → List (Text × Uuid)
iban_rows member_ids [] = []
iban_rows member_ids (p ∷ ps) = owner_row member_ids p ++ iban_rows member_ids ps

-- `iban_map.get(iban)`: of two entries with one key the later one counts.
unfoldable pub iban_get : Text → List (Text × Uuid) → Option Uuid
iban_get iban [] = none
iban_get iban ((i, u) ∷ rows) =
    let here = if text_eq i iban then some u else none in
    elim (iban_get iban rows) [ some v ↦ some v | none ↦ here ]

-- `set(iban_map.values())`
unfoldable pub iban_values : List (Text × Uuid) → List Uuid
iban_values [] = []
iban_values ((i, u) ∷ rows) =
    if any (λ (r : Text × Uuid). text_eq r.0 i) rows then iban_values rows else u ∷ iban_values rows

abbrev pub fee_row : Transaction → FeeRow
fee_row t = record {
  iban = t.iban;
  booking = t.booking;
  amount = t.amount;
  delegating_member_id = t.delegating_member_id;
  no_delegation = no_delegation t;
}

-- `_fetch_fee_category_transactions`
unfoldable pub fetch_fee_rows : List Uuid → Date → Date → List Transaction → List FeeRow
fetch_fee_rows tx_ids booking_from booking_to txs = unless_empty tx_ids [] (
    map fee_row (
      filter
        (λ (t : Transaction).
          is_fee_payment tx_ids t && date_le booking_from t.booking && date_le t.booking booking_to)
        txs))

abbrev by_iban : List (Text × Uuid) → FeeRow → Option Uuid
by_iban rows r = if r.no_delegation then iban_get r.iban rows else none

-- `target_id` of `_attribute_payment`
unfoldable pub payment_target : List (Text × Uuid) → List Uuid → FeeRow → Option Uuid
payment_target rows owners r = elim r.delegating_member_id [
  | none ↦ by_iban rows r
  | some d ↦ if contains d owners then some d else by_iban rows r
]

abbrev is_credited : List (Text × Uuid) → List Uuid → FeeRow → MemberState → Bool
is_credited rows owners r s =
    is_id (payment_target rows owners r) s.member_id
    && date_le s.init_date r.booking
    && date_le r.booking s.end_date

-- `_attribute_payment`, seen from one state.
unfoldable pub credit : List (Text × Uuid) → List Uuid → FeeRow → MemberState → MemberState
credit rows owners r s =
    if is_credited rows owners r s then record s { payment_sum = s.payment_sum +ℤ r.amount } else s

-- The loop over the rows.
unfoldable pub attribute_payments :
    List (Text × Uuid) → List Uuid → List FeeRow → List MemberState → List MemberState
attribute_payments rows owners [] states = states
attribute_payments rows owners (r ∷ rs) states =
    attribute_payments rows owners rs (map (credit rows owners r) states)

-- `min(s.init_date for s in states.values())`
unfoldable pub earliest : Date → List MemberState → Date
earliest d [] = d
earliest d (s ∷ ss) = earliest (if date_lt s.init_date d then s.init_date else d) ss

-- `max(s.end_date for s in states.values())`
unfoldable pub latest : Date → List MemberState → Date
latest d [] = d
latest d (s ∷ ss) = latest (if date_lt d s.end_date then s.end_date else d) ss

abbrev list_entry : Member → MemberState → ListEntry
list_entry m s = record {
  id = m.id;
  p4x_freed = is_freed m;
  end_balance = get_or_else m.p4x_init_balance (pos 0) -ℤ s.fee_sum +ℤ s.payment_sum;
}

abbrev pub state_of : Uuid → List MemberState → Option MemberState
state_of u states = find (λ (s : MemberState). s.member_id == u) states

unfoldable pub list_entries : List MemberState → List Member → List ListEntry
list_entries states [] = []
list_entries states (m ∷ ms) =
    let rest = list_entries states ms in
    elim (state_of m.id states) [ none ↦ rest | some s ↦ list_entry m s ∷ rest ]

-- `entries.sort(key=lambda e: e["end_balance"])`
unfoldable pub insert_by_balance : ListEntry → List ListEntry → List ListEntry
insert_by_balance e [] = e ∷ []
insert_by_balance e (d ∷ ds) =
    if ltb_ℤ d.end_balance e.end_balance then d ∷ insert_by_balance e ds else e ∷ d ∷ ds

unfoldable pub sort_by_balance : List ListEntry → List ListEntry
sort_by_balance [] = []
sort_by_balance (e ∷ es) = insert_by_balance e (sort_by_balance es)

-- `get_fee_members`
unfoldable pub get_fee_members : Db → List Member
unfolding is_fee_member
get_fee_members db = filter is_fee_member db.members

abbrev pub state_ids : List MemberState → List Uuid
state_ids states = map (λ (s : MemberState). s.member_id) states

-- The states after all payments, for a first state and the others.
unfoldable pub paid_states : Db → MemberState → List MemberState → List MemberState
paid_states db s ss =
    let states = s ∷ ss in
    let rows = iban_rows (state_ids states) db.partners in
    let tx_rows =
      fetch_fee_rows (fee_category_tx_ids db) (earliest s.init_date ss) (latest s.end_date ss)
        db.transactions in
    attribute_payments rows (iban_values rows) tx_rows states

abbrev pub default_end_date : Date → Date
default_end_date today = day_before (first_of_month today)

abbrev pub initial_states : Db → Date → List MemberState
initial_states db today =
    build_member_states (map (λ (f : Fee). first_of_month f.start) (get_all_fees db))
      (fees_of (get_all_fees db)) (default_end_date today) (get_fee_members db)

abbrev pub with_payments : Db → List MemberState → List MemberState
with_payments db [] = []
with_payments db (s ∷ ss) = paid_states db s ss

-- `get_fee_balances`; without any state it returns no entry.
unfoldable pub get_fee_balances : Db → Date → List ListEntry
get_fee_balances db today =
    sort_by_balance (list_entries (with_payments db (initial_states db today)) (get_fee_members db))
