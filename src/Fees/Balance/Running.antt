-- ===== src/Fees/Balance/Running.antt =====
-- The entries of a balance: their running balance, their order and their sums.
use vb_api.Prelude.{
  ◌≡◌, refl, ap, ◌∙◌, Bool, true, not, List, [], ◌∷◌, filter, arith, All, All-map, Bool-cases, inl,
  inr,
}
use vb_api.Prelude.Int.{ℤ, ◌+ℤ◌, sum, int_laws}
use vb_api.Calendar.{Date, date_lt, date_le}
use vb_api.Calendar.Order.{date_lt→le, date_le-eq-not_lt, date_le_trans}
use vb_api.Bookkeeping.Store.{Member, Db}
use vb_api.Fees.Balance.{
  Entry, entry_amounts, insert_entry, sort_entries, run_balance, is_fee_entry, entries_between,
  opening_balance, balance_between,
}

-- The balance after the last entry, or the one before if there is none.
abbrev pub last_balance : ℤ → List Entry → ℤ
last_balance balance [] = balance
last_balance balance (e ∷ es) = last_balance e.balance es

-- Every entry's balance is the one before it and its own amount.
abbrev pub IsRunning : ℤ → List Entry → Type 0
IsRunning balance [] = Unit
IsRunning balance (e ∷ es) = (e.balance ≡ balance +ℤ e.amount) × IsRunning e.balance es

-- No entry is booked before the one above it.
abbrev pub InOrder : List Entry → Type 0
InOrder [] = Unit
InOrder (e ∷ es) = All (λ (d : Entry). date_le e.booking d.booking ≡ true) es × InOrder es

run_balance-IsRunning : (b : ℤ) (es : List Entry) → IsRunning b (run_balance b es)
unfolding run_balance
run_balance-IsRunning b [] = tt
run_balance-IsRunning b (e ∷ es) = (refl, run_balance-IsRunning (b +ℤ e.amount) es)

last_balance-run :
    (b : ℤ) (es : List Entry) → last_balance b (run_balance b es) ≡ b +ℤ sum (entry_amounts es)
unfolding run_balance
last_balance-run b [] = omega int_laws
last_balance-run b (e ∷ es) = last_balance-run (b +ℤ e.amount) es ∙ omega int_laws

amounts-run : (b : ℤ) (es : List Entry) → entry_amounts (run_balance b es) ≡ entry_amounts es
unfolding run_balance
amounts-run b [] = refl
amounts-run b (e ∷ es) = rw (amounts-run (b +ℤ e.amount) es)

sum-insert :
    (e : Entry) (es : List Entry)
    → sum (entry_amounts (insert_entry e es)) ≡ e.amount +ℤ sum (entry_amounts es)
unfolding insert_entry
sum-insert e [] = refl
sum-insert e (d ∷ ds) = grind (int_laws, sum-insert e ds)

sum-sort : (es : List Entry) → sum (entry_amounts (sort_entries es)) ≡ sum (entry_amounts es)
unfolding sort_entries
sum-sort [] = refl
sum-sort (e ∷ es) = sum-insert e (sort_entries es) ∙ rw (sum-sort es)

sum-partition :
    (p : Entry → Bool) (es : List Entry)
    → sum (entry_amounts (filter p es)) +ℤ sum (entry_amounts (filter (λ e. not (p e)) es))
      ≡ sum (entry_amounts es)
sum-partition p [] = omega int_laws
sum-partition p (e ∷ es) = grind (int_laws, sum-partition p es)

All-insert :
    (P : Entry → Type 0) (e : Entry) (es : List Entry) → P e → All P es → All P (insert_entry e es)
unfolding insert_entry
All-insert P e [] p h = (p, tt)
All-insert P e (d ∷ ds) p h = elim (Bool-cases (date_lt d.booking e.booking)) [
  | inl before ↦ rw before (h.0, All-insert P e ds p h.1)
  | inr after ↦ rw after (p, h)
]

insert-InOrder : (e : Entry) (es : List Entry) → InOrder es → InOrder (insert_entry e es)
unfolding insert_entry
insert-InOrder e [] h = (tt, tt)
insert-InOrder e (d ∷ ds) h = elim (Bool-cases (date_lt d.booking e.booking)) [
  | inl before ↦ rw before (
    All-insert (λ (x : Entry). date_le d.booking x.booking ≡ true) e ds
        (date_lt→le d.booking e.booking before) h.0,
    insert-InOrder e ds h.1,
  )
  | inr after ↦
      let first : date_le e.booking d.booking ≡ true =
        ground (arith, date_le-eq-not_lt e.booking d.booking) in
      rw after (
        (
          first,
          All-map (λ x later. date_le_trans e.booking d.booking x.booking first later) ds h.0,
        ),
        h,
      )
]

sort-InOrder : (es : List Entry) → InOrder (sort_entries es)
unfolding sort_entries
sort-InOrder [] = tt
sort-InOrder (e ∷ es) = insert-InOrder e (sort_entries es) (sort-InOrder es)

All-run :
    (P : Date → Type 0) (b : ℤ) (es : List Entry)
    → All (λ (e : Entry). P e.booking) es
    → All (λ (e : Entry). P e.booking) (run_balance b es)
unfolding run_balance
All-run P b [] h = tt
All-run P b (e ∷ es) h = (h.0, All-run P (b +ℤ e.amount) es h.1)

run-InOrder : (b : ℤ) (es : List Entry) → InOrder es → InOrder (run_balance b es)
unfolding run_balance
run-InOrder b [] h = tt
run-InOrder b (e ∷ es) h = (
  All-run (λ d. date_le e.booking d ≡ true) (b +ℤ e.amount) es h.0,
  run-InOrder (b +ℤ e.amount) es h.1,
)

-- In a fee balance, each entry's balance is that of the entry above it and its own amount, the first
-- one's that of the start; the last entry has the final balance; the sums of the fees and of the
-- payments lead from the start to the end; and the entries are in the order of their dates.
pub balance_between-progress :
    (db : Db) (m : Member) (init_date start_date end_date : Date)
    → let r = balance_between db m init_date start_date end_date in
      IsRunning r.start_balance r.progress
      × (last_balance r.start_balance r.progress ≡ r.end_balance)
      × (r.start_balance +ℤ r.sum_fees +ℤ r.sum_payments ≡ r.end_balance)
      × InOrder r.progress
unfolding balance_between
balance_between-progress db m init_date start_date end_date =
    let b = opening_balance db m init_date start_date in
    let es = entries_between db m start_date end_date in
    (
      run_balance-IsRunning b (sort_entries es),
      last_balance-run b (sort_entries es) ∙ rw (sum-sort es),
      grind (
        int_laws,
        sum-partition is_fee_entry (run_balance b (sort_entries es)),
        ap sum (amounts-run b (sort_entries es)),
        sum-sort es,
      ),
      run-InOrder b (sort_entries es) (sort-InOrder es),
    )
