-- ===== src/Fees/BalanceList/Entry.antt =====
-- The entry of one member: the loop over all payments gives what the member's own balance gives.
use vb_api.Prelude.{
  Uuid, Text, ◌≡◌, refl, ap, sym, ◌∙◌, Bool, true, false, Option, none, some, List, [], ◌∷◌, map,
  contains, All, if◌then◌else◌, arith,
}
use vb_api.Prelude.Int.{ℤ, pos, ◌+ℤ◌, ◌-ℤ◌, sum, int_laws}
use vb_api.Calendar.{Date, date_le, date_max, first_of_month}
use vb_api.Calendar.Order.{date_le-eq-not_lt}
use vb_api.Bookkeeping.Store.{Member, Fee, Db}
use vb_api.Fees.Schedule.{get_all_fees, fees_of, starts_of, fee_step_function}
use vb_api.Fees.Payments.{
  amounts_of, fee_category_tx_ids, member_ibans, payments_within, get_fee_payments_list,
}
use vb_api.Fees.Balance.{
  FeeBalance, init_date_of, is_fee_member, is_freed, calculate_fee_balance, start_date_for,
  requested_end, end_date_for, balance_between,
}
use vb_api.Fees.Balance.Window.{balance_at}
use vb_api.Fees.Balance.Dates.{
  IsUsual, balance_for, calculate_fee_balance_lem, calculate_fee_balance-end_balance,
}
use vb_api.Fees.BalanceList.{
  MemberState, FeeRow, ListEntry, member_state, iban_rows, iban_values, fetch_fee_rows, earliest,
  latest, list_entry, state_ids, paid_states, with_payments, default_end_date,
}
use vb_api.Fees.BalanceList.Owners.{payment_target_lem}
use vb_api.Fees.BalanceList.Ibans.{DistinctIbans, HaveIbans}
use vb_api.Fees.BalanceList.Credit.{
  credit_all, credits, attribute_payments-map, credit_all-Credited, credits-fetch_fee_rows,
}

abbrev pub entry_of : Member → Option FeeBalance → Option ListEntry
entry_of m none = none
entry_of m (some b) =
    some (record { id = m.id; p4x_freed = is_freed m; end_balance = b.end_balance })

-- The entry of one member, from that member's own balance.
abbrev pub single_entry : Db → Date → Member → Option ListEntry
single_entry db today m = entry_of m (calculate_fee_balance db today m none none)

abbrev pub ibans_of_members : Db → List MemberState → List (Text × Uuid)
ibans_of_members db states = iban_rows (state_ids states) db.partners

abbrev pub loaded : Db → MemberState → List MemberState → List FeeRow
loaded db s ss =
    fetch_fee_rows (fee_category_tx_ids db) (earliest s.init_date ss) (latest s.end_date ss)
      db.transactions

-- A state after the loop over all payments.
abbrev pub final : Db → MemberState → List MemberState → MemberState → MemberState
final db s ss =
    credit_all (ibans_of_members db (s ∷ ss)) (iban_values (ibans_of_members db (s ∷ ss)))
      (loaded db s ss)

pub with_payments-map :
    (db : Db) (s : MemberState) (ss : List MemberState)
    → with_payments db (s ∷ ss) ≡ map (final db s ss) (s ∷ ss)
unfolding paid_states
with_payments-map db s ss =
    attribute_payments-map (ibans_of_members db (s ∷ ss))
      (iban_values (ibans_of_members db (s ∷ ss))) (loaded db s ss) (s ∷ ss)

-- Every fee starts on the first day of a month, as `create_fee` makes it.
abbrev pub StartOnFirst : List Fee → Type 0
StartOnFirst fs = All (λ (f : Fee). f.start.day ≡ 1) fs

first_of_month_same : (d : Date) → d.day ≡ 1 → first_of_month d ≡ d
unfolding first_of_month
first_of_month_same d h = ground arith

pub starts_same :
    (fs : List Fee) → StartOnFirst fs → map (λ (f : Fee). first_of_month f.start) fs ≡ starts_of fs
starts_same [] h = refl
starts_same (f ∷ fs) h = rw (first_of_month_same f.start h.0, starts_same fs h.1) refl

-- The state of one member as the loop begins.
abbrev first_state : Db → Date → Member → Date → MemberState
first_state db today m raw =
    member_state (starts_of (get_all_fees db)) (fees_of (get_all_fees db)) (default_end_date today)
      m raw

end_date_same :
    (db : Db) (today : Date) (m : Member) (raw : Date)
    → (first_state db today m raw).end_date ≡ (balance_for db today m raw none none).end_date
unfolding member_state balance_between start_date_for end_date_for requested_end date_max
end_date_same db today m raw =
    rw (date_le-eq-not_lt (first_of_month raw) (default_end_date today)) (ground arith)

credits_same :
    (db : Db) (s : MemberState) (ss : List MemberState) (m : Member) (i e : Date)
    → contains m.id (state_ids (s ∷ ss)) ≡ true
    → DistinctIbans db.partners
    → HaveIbans db.partners
    → date_le (earliest s.init_date ss) i ≡ true
    → date_le e (latest s.end_date ss) ≡ true
    → credits
        (ibans_of_members db (s ∷ ss))
        (iban_values (ibans_of_members db (s ∷ ss)))
        m.id
        i
        e
        (loaded db s ss)
      ≡ sum (amounts_of (get_fee_payments_list db m i e))
unfolding get_fee_payments_list payments_within
credits_same db s ss m i e c d h a b =
    credits-fetch_fee_rows (ibans_of_members db (s ∷ ss))
      (iban_values (ibans_of_members db (s ∷ ss))) (fee_category_tx_ids db) (member_ibans db m.id)
      m.id (earliest s.init_date ss) (latest s.end_date ss) i e db.transactions
      (λ t. payment_target_lem db (state_ids (s ∷ ss)) m.id t c d h) a b

sum_up :
    (free : Bool) (initial f p : ℤ)
    → initial -ℤ (if free then pos 0 else f) +ℤ (pos 0 +ℤ p)
      ≡ (if free then initial else initial -ℤ f) +ℤ p
sum_up true initial f p = omega int_laws
sum_up false initial f p = omega int_laws

-- What the loop relies on for one state: its member is among the members whose IBANs are looked up,
-- and its dates are within the dates of the payments that are loaded.
abbrev pub InReach : MemberState → List MemberState → MemberState → Type 0
InReach s ss t =
    (contains t.member_id (state_ids (s ∷ ss)) ≡ true)
    × (date_le (earliest s.init_date ss) t.init_date ≡ true)
    × (date_le t.end_date (latest s.end_date ss) ≡ true)

bulk_end_balance :
    (db : Db) (today : Date) (s : MemberState) (ss : List MemberState) (m : Member) (raw : Date)
    → DistinctIbans db.partners
    → HaveIbans db.partners
    → InReach s ss (first_state db today m raw)
    → (list_entry m (final db s ss (first_state db today m raw))).end_balance
      ≡ balance_at db m (first_of_month raw) (first_state db today m raw).end_date
unfolding fee_step_function member_state
bulk_end_balance db today s ss m raw d h reach =
    let rows = ibans_of_members db (s ∷ ss) in
    let done =
      credit_all-Credited rows (iban_values rows) (loaded db s ss) (first_state db today m raw) in
    let own =
      credits_same db s ss m (first_of_month raw) (first_state db today m raw).end_date reach.0 d h
        reach.1 reach.2 in
    rw (done.same_fees, done.paid, own) (sum_up (is_freed m) _ _ _)

abbrev pub own_entry : Option MemberState → Member → Option ListEntry
own_entry none m = none
own_entry (some s) m = some (list_entry m s)

pub no_first_date :
    (db : Db) (today : Date) (m : Member)
    → init_date_of m ≡ none
    → calculate_fee_balance db today m none none ≡ none
unfolding calculate_fee_balance
no_first_date db today m h = ground arith

pub entry_same :
    (db : Db) (today : Date) (s : MemberState) (ss : List MemberState) (m : Member) (raw : Date)
    → DistinctIbans db.partners
    → HaveIbans db.partners
    → IsUsual today
    → IsUsual raw
    → is_fee_member m ≡ true
    → init_date_of m ≡ some raw
    → InReach s ss (first_state db today m raw)
    → some (list_entry m (final db s ss (first_state db today m raw))) ≡ single_entry db today m
entry_same db today s ss m raw d h ut ur is_member has reach =
    let b = balance_for db today m raw none none in
    let found : calculate_fee_balance db today m none none ≡ some b =
      calculate_fee_balance_lem db today m raw none none has ∙ rw is_member refl in
    let total : (list_entry m (final db s ss (first_state db today m raw))).end_balance
        ≡ b.end_balance =
      bulk_end_balance db today s ss m raw d h reach
      ∙ ap (λ e. balance_at db m (first_of_month raw) e) (end_date_same db today m raw)
      ∙ sym (calculate_fee_balance-end_balance db today m raw none none b has ut ur tt tt found) in
    ap (λ e. some (record { id = m.id; p4x_freed = is_freed m; end_balance = e })) total
    ∙ sym (ap (λ (o : Option FeeBalance). entry_of m o) found)
