-- ===== src/Fees/BalanceList/Parity.antt =====
-- The list of all balances is the list of the single balances, sorted.
use mathlib.Core.Path.{subst}
use vb_api.Prelude.{
  ◌≡◌, refl, ap, sym, ◌∙◌, true, false, Option, none, some, List, [], ◌∷◌, map, Distinct, All,
  All-zip, All-map,
}
use vb_api.Calendar.{Date}
use vb_api.Bookkeeping.Store.{Member, Fee, Db}
use vb_api.Fees.Schedule.{get_all_fees, fees_of, starts_of}
use vb_api.Fees.Schedule.Agree.{All-sort}
use vb_api.Fees.Balance.{init_date_of, is_fee_member}
use vb_api.Fees.Balance.Dates.{IsUsual, IsUsualRequest}
use vb_api.Fees.BalanceList.{
  MemberState, ListEntry, iban_values, list_entry, list_entries, state_of, sort_by_balance,
  get_fee_members, with_payments, default_end_date, get_fee_balances,
}
use vb_api.Fees.BalanceList.States.{
  member_ids, built, OwnState, own_final, All-built, state_of-built,
}
use vb_api.Fees.BalanceList.Ibans.{DistinctIbans, HaveIbans}
use vb_api.Fees.BalanceList.Credit.{credit_all-Credited}
use vb_api.Fees.BalanceList.Reach.{filter-holds, filter-All, filter-Distinct, states-InReach}
use vb_api.Fees.BalanceList.Entry.{
  entry_of, single_entry, ibans_of_members, loaded, final, StartOnFirst, InReach, own_entry,
  with_payments-map, starts_same, no_first_date, entry_same,
}

abbrev and_entry : Option ListEntry → List ListEntry → List ListEntry
and_entry none rest = rest
and_entry (some e) rest = e ∷ rest

-- The balance of each member in turn, without the members who have none.
abbrev pub single_entries : Db → Date → List Member → List ListEntry
single_entries db today [] = []
single_entries db today (m ∷ ms) = and_entry (single_entry db today m) (single_entries db today ms)

-- The first dates of the members, where they have one, are usual dates.
abbrev pub HaveUsualDates : List Member → Type 0
HaveUsualDates ms = All (λ (m : Member). IsUsualRequest (init_date_of m)) ms

list_entries-single :
    (db : Db) (today : Date) (states : List MemberState) (ms : List Member)
    → All (λ (m : Member). own_entry (state_of m.id states) m ≡ single_entry db today m) ms
    → list_entries states ms ≡ single_entries db today ms
unfolding list_entries
list_entries-single db today states [] h = refl
list_entries-single db today states (m ∷ ms) h =
    go (state_of m.id states) ∙ rw (h.0, list_entries-single db today states ms h.1) refl
  where
    go :
        (o : Option MemberState)
        → (elim o [
          | none ↦ list_entries states ms
          | some s ↦ list_entry m s ∷ list_entries states ms
        ])
          ≡ and_entry (own_entry o m) (list_entries states ms)
    go none = refl
    go (some s) = refl

-- A member with what the loop and the member's own balance both rely on.
abbrev BothSame : Db → Date → (MemberState → MemberState) → Member → Type 0
BothSame db today F m =
    own_entry
      (own_final (starts_of (get_all_fees db)) (fees_of (get_all_fees db)) (default_end_date today)
        F (init_date_of m) m)
      m
    ≡ single_entry db today m

own_entry_same :
    (db : Db) (today : Date) (s : MemberState) (ss : List MemberState) (m : Member)
    → DistinctIbans db.partners
    → HaveIbans db.partners
    → IsUsual today
    → is_fee_member m ≡ true
    → IsUsualRequest (init_date_of m)
    → OwnState
        (starts_of (get_all_fees db))
        (fees_of (get_all_fees db))
        (default_end_date today)
        (InReach s ss)
        (init_date_of m)
        m
    → BothSame db today (final db s ss) m
own_entry_same db today s ss m d h ut is_member usual reach = go (init_date_of m) refl usual reach
  where
    go :
        (o : Option Date)
        → init_date_of m ≡ o
        → IsUsualRequest o
        → OwnState
            (starts_of (get_all_fees db))
            (fees_of (get_all_fees db))
            (default_end_date today)
            (InReach s ss)
            o
            m
        → own_entry
            (own_final
              (starts_of (get_all_fees db))
              (fees_of (get_all_fees db))
              (default_end_date today)
              (final db s ss)
              o
              m)
            m
          ≡ single_entry db today m
    go none has u r = sym (ap (λ b. entry_of m b) (no_first_date db today m has))
    go (some raw) has u r = entry_same db today s ss m raw d h ut u is_member has r

final-keeps :
    (db : Db) (s : MemberState) (ss : List MemberState) (t : MemberState)
    → (final db s ss t).member_id ≡ t.member_id
final-keeps db s ss t =
    (credit_all-Credited (ibans_of_members db (s ∷ ss)) (iban_values (ibans_of_members db (s ∷ ss)))
      (loaded db s ss) t).same_member

module _ (db : Db) (today : Date) where
  abbrev states_of : List Member → List MemberState
  states_of ms =
      built (starts_of (get_all_fees db)) (fees_of (get_all_fees db)) (default_end_date today) ms

  each_entry_same :
      (s : MemberState) (ss : List MemberState) (ms : List Member)
      → states_of ms ≡ s ∷ ss
      → DistinctIbans db.partners
      → HaveIbans db.partners
      → IsUsual today
      → Distinct (member_ids ms)
      → All (λ (m : Member). is_fee_member m ≡ true) ms
      → HaveUsualDates ms
      → All
          (λ (m : Member).
            own_entry (state_of m.id (map (final db s ss) (s ∷ ss))) m ≡ single_entry db today m)
          ms
  each_entry_same s ss ms e d h ut distinct members usual =
      let starts = starts_of (get_all_fees db) in
      let fees = fees_of (get_all_fees db) in
      let default_end = default_end_date today in
      All-zip
        {Q = λ (m : Member).
          state_of m.id (map (final db s ss) (s ∷ ss))
          ≡ own_final starts fees default_end (final db s ss) (init_date_of m) m}
        (λ (m : Member) same found. ap (λ o. own_entry o m) found ∙ same) ms
        (All-zip
          (λ (m : Member) (k : (is_fee_member m ≡ true) × IsUsualRequest (init_date_of m)) r.
            own_entry_same db today s ss m d h ut k.0 k.1 r)
          ms (All-zip (λ m a b. (a, b)) ms members usual)
          (All-built starts fees default_end (InReach s ss) ms
            (subst (λ l. All (InReach s ss) l) (sym e) (states-InReach s ss))))
        (subst
          (λ l.
            All
              (λ (m : Member).
                state_of m.id (map (final db s ss) l)
                ≡ own_final starts fees default_end (final db s ss) (init_date_of m) m)
              ms)
          e
          (state_of-built starts fees default_end (final db s ss) (final-keeps db s ss) ms
            distinct))

  -- Without any state no member has a balance.
  no_entries :
      (ms : List Member)
      → states_of ms ≡ []
      → All (λ (m : Member). own_entry (state_of m.id []) m ≡ single_entry db today m) ms
  no_entries ms e =
      All-map (λ (m : Member) impossible. go m (init_date_of m) refl impossible) ms
        (All-built (starts_of (get_all_fees db)) (fees_of (get_all_fees db))
          (default_end_date today) (λ t. true ≡ false) ms
          (subst (λ l. All (λ (t : MemberState). true ≡ false) l) (sym e) tt))
    where
      go :
          (m : Member) (o : Option Date)
          → init_date_of m ≡ o
          → OwnState
              (starts_of (get_all_fees db))
              (fees_of (get_all_fees db))
              (default_end_date today)
              (λ t. true ≡ false)
              o
              m
          → none ≡ single_entry db today m
      go m none has r = sym (ap (λ b. entry_of m b) (no_first_date db today m has))
      go m (some raw) has r = cc

  entries_same :
      (states : List MemberState) (ms : List Member)
      → states_of ms ≡ states
      → DistinctIbans db.partners
      → HaveIbans db.partners
      → IsUsual today
      → Distinct (member_ids ms)
      → All (λ (m : Member). is_fee_member m ≡ true) ms
      → HaveUsualDates ms
      → list_entries (with_payments db states) ms ≡ single_entries db today ms
  entries_same [] ms e d h ut distinct members usual =
      list_entries-single db today [] ms (no_entries ms e)
  entries_same (s ∷ ss) ms e d h ut distinct members usual =
      ap (λ l. list_entries l ms) (with_payments-map db s ss)
      ∙ list_entries-single db today (map (final db s ss) (s ∷ ss)) ms
          (each_entry_same s ss ms e d h ut distinct members usual)

-- The list of all balances, made from a constant number of queries, is the list of the balances that
-- are calculated member by member, sorted by balance. (Member ids and the IBANs of the partners are
-- distinct, each partner row of a member has an IBAN, fees start on the first of a month, and
-- today's date and the members' first dates are dates after the first year.)
pub get_fee_balances_lem :
    (db : Db) (today : Date)
    → Distinct (member_ids db.members)
    → DistinctIbans db.partners
    → HaveIbans db.partners
    → StartOnFirst db.fees
    → IsUsual today
    → HaveUsualDates db.members
    → get_fee_balances db today ≡ sort_by_balance (single_entries db today (get_fee_members db))
unfolding get_fee_balances get_fee_members get_all_fees
get_fee_balances_lem db today distinct d h on_first ut usual = ap sort_by_balance (
    ap (λ l. list_entries (with_payments db l) (get_fee_members db))
      (ap (λ l. built l (fees_of (get_all_fees db)) (default_end_date today) (get_fee_members db))
        (starts_same (get_all_fees db) (All-sort (λ (f : Fee). f.start.day ≡ 1) db.fees on_first)))
    ∙ entries_same db today (states_of db today (get_fee_members db)) (get_fee_members db) refl d h
        ut (filter-Distinct is_fee_member db.members distinct)
        (filter-holds is_fee_member db.members)
        (filter-All is_fee_member (λ (m : Member). IsUsualRequest (init_date_of m)) db.members
          usual))
