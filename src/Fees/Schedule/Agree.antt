-- ===== src/Fees/Schedule/Agree.antt =====
-- The step function over the sorted table and the query for one month find the same fee.
use vb_api.Prelude.{
  ℕ, suc, ◌≡◌, refl, ap, sym, ◌∙◌, Bool, true, false, ◌||◌, List, [], ◌∷◌, ◌++◌, filter, any, All,
  All-map, arith, Bool-cases, inl, inr, ok,
}
use vb_api.Prelude.Int.{ℤ}
use vb_api.Calendar.{Date, date_le, date_lt, date_eq, first_of_month}
use vb_api.Calendar.Order.{date_lt_trans, date_le-eq-not_lt, date_lt_total}
use vb_api.Bookkeeping.Store.{Fee, Db}
use vb_api.Fees.Schedule.{
  insert_fee, sort_fees, starts_of, fees_of, fee_step_function, bisect_right, fee_at, fee_before,
  last_fee, fee_for_month, create_fee,
}

date_eq_sym : (a b : Date) → date_eq a b ≡ date_eq b a
unfolding date_eq
date_eq_sym a b = ground arith

-- Each month has at most one fee: the start is the table's primary key.
abbrev pub DistinctStarts : List Fee → Type 0
DistinctStarts [] = Unit
DistinctStarts (f ∷ fs) =
    (any (λ (g : Fee). date_eq g.start f.start) fs ≡ false) × DistinctStarts fs

abbrev IsAscending : List Fee → Type 0
IsAscending [] = Unit
IsAscending (f ∷ fs) = All (λ (g : Fee). date_lt f.start g.start ≡ true) fs × IsAscending fs

pub All-insert :
    (P : Fee → Type 0) (f : Fee) (fs : List Fee) → P f → All P fs → All P (insert_fee f fs)
unfolding insert_fee
All-insert P f [] p h = (p, tt)
All-insert P f (g ∷ gs) p h = elim (Bool-cases (date_lt g.start f.start)) [
  | inl before ↦ rw before (h.0, All-insert P f gs p h.1)
  | inr after ↦ rw after (p, h)
]

insert-IsAscending :
    (f : Fee) (fs : List Fee)
    → IsAscending fs
    → any (λ (g : Fee). date_eq g.start f.start) fs ≡ false
    → IsAscending (insert_fee f fs)
unfolding insert_fee
insert-IsAscending f [] h k = (tt, tt)
insert-IsAscending f (g ∷ gs) h k = elim (Bool-cases (date_lt g.start f.start)) [
  | inl before ↦ rw before (
    All-insert (λ (x : Fee). date_lt g.start x.start ≡ true) f gs before h.0,
    insert-IsAscending f gs h.1 (ground arith),
  )
  | inr after ↦
      let first : date_lt f.start g.start ≡ true =
        date_lt_total g.start f.start after (ground arith) in
      rw after
        ((first, All-map (λ x later. date_lt_trans f.start g.start x.start first later) gs h.0), h)
]

any-insert :
    (p : Fee → Bool) (f : Fee) (fs : List Fee) → any p (insert_fee f fs) ≡ (p f || any p fs)
unfolding insert_fee
any-insert p f [] = ground arith
any-insert p f (g ∷ gs) = ground (arith, any-insert p f gs)

pub All-sort : (P : Fee → Type 0) (fs : List Fee) → All P fs → All P (sort_fees fs)
unfolding sort_fees
All-sort P [] h = tt
All-sort P (f ∷ fs) h = All-insert P f (sort_fees fs) h.0 (All-sort P fs h.1)

any-sort : (p : Fee → Bool) (fs : List Fee) → any p (sort_fees fs) ≡ any p fs
unfolding sort_fees
any-sort p [] = refl
any-sort p (f ∷ fs) = any-insert p f (sort_fees fs) ∙ rw (any-sort p fs)

sort-IsAscending : (fs : List Fee) → DistinctStarts fs → IsAscending (sort_fees fs)
unfolding sort_fees
sort-IsAscending [] d = tt
sort-IsAscending (f ∷ fs) d =
    insert-IsAscending f (sort_fees fs) (sort-IsAscending fs d.1)
      (any-sort (λ (g : Fee). date_eq g.start f.start) fs ∙ d.0)

-- The fees that have started by `x`.
abbrev started : Date → Fee → Bool
started x f = date_le f.start x

filter-none :
    (x : Date) (fs : List Fee)
    → All (λ (g : Fee). date_lt x g.start ≡ true) fs
    → filter (started x) fs ≡ []
filter-none x [] h = refl
filter-none x (f ∷ fs) h = ground (arith, date_le-eq-not_lt f.start x, filter-none x fs h.1)

filter-insert_out :
    (x : Date) (f : Fee) (fs : List Fee)
    → started x f ≡ false
    → filter (started x) (insert_fee f fs) ≡ filter (started x) fs
unfolding insert_fee
filter-insert_out x f [] h = ground arith
filter-insert_out x f (g ∷ gs) h = ground (arith, filter-insert_out x f gs)

filter-insert_in :
    (x : Date) (f : Fee) (fs : List Fee)
    → IsAscending fs
    → started x f ≡ true
    → filter (started x) (insert_fee f fs) ≡ insert_fee f (filter (started x) fs)
unfolding insert_fee
filter-insert_in x f [] h k = ground arith
filter-insert_in x f (g ∷ gs) h k = elim (Bool-cases (date_lt g.start f.start)) [
  | inl before ↦ ground (
    arith,
    filter-insert_in x f gs h.1 k,
    date_le-eq-not_lt f.start x,
    date_le-eq-not_lt g.start x,
    date_lt_trans x g.start f.start,
  )
  | inr after ↦ elim (Bool-cases (started x g)) [
    | inl in_force ↦ ground arith
    | inr later ↦
        let beyond : date_lt x g.start ≡ true = ground (arith, date_le-eq-not_lt g.start x) in
        ground (
          arith,
          filter-none x gs (All-map (λ y more. date_lt_trans x g.start y.start beyond more) gs h.0),
        )
  ]
]

filter-sort :
    (x : Date) (fs : List Fee)
    → DistinctStarts fs
    → sort_fees (filter (started x) fs) ≡ filter (started x) (sort_fees fs)
unfolding sort_fees
filter-sort x [] d = refl
filter-sort x (f ∷ fs) d = elim (Bool-cases (started x f)) [
  | inl in_force ↦
      rw (in_force, filter-sort x fs d.1)
        (sym (filter-insert_in x f (sort_fees fs) (sort-IsAscending fs d.1) in_force))
  | inr later ↦ rw (later, filter-insert_out x f (sort_fees fs) later) (filter-sort x fs d.1)
]

last_fee-started :
    (x : Date) (f : Fee) (fs : List Fee)
    → IsAscending fs
    → last_fee (f ∷ filter (started x) fs)
      ≡ fee_before (f.fee ∷ fees_of fs) (suc (bisect_right (starts_of fs) x))
unfolding bisect_right
last_fee-started x f [] h = refl
last_fee-started x f (g ∷ gs) h = elim (Bool-cases (started x g)) [
  | inl in_force ↦ ground (arith, last_fee-started x g gs h.1, date_le-eq-not_lt g.start x)
  | inr later ↦
      let beyond : date_lt x g.start ≡ true = ground (arith, date_le-eq-not_lt g.start x) in
      ground (
        arith,
        filter-none x gs (All-map (λ y more. date_lt_trans x g.start y.start beyond more) gs h.0),
      )
]

last_fee-eq :
    (x : Date) (fs : List Fee)
    → IsAscending fs
    → last_fee (filter (started x) fs) ≡ fee_before (fees_of fs) (bisect_right (starts_of fs) x)
unfolding bisect_right
last_fee-eq x [] h = refl
last_fee-eq x (f ∷ fs) h = elim (Bool-cases (started x f)) [
  | inl in_force ↦ ground (arith, last_fee-started x f fs h.1, date_le-eq-not_lt f.start x)
  | inr later ↦
      let beyond : date_lt x f.start ≡ true = ground (arith, date_le-eq-not_lt f.start x) in
      ground (
        arith,
        filter-none x fs (All-map (λ y more. date_lt_trans x f.start y.start beyond more) fs h.0),
      )
]

-- For every date, the binary search in the table that is loaded once finds the fee that the query
-- for that month finds. (No two fees start on one day.)
pub fee_at-eq-fee_for_month :
    (db : Db) (month : Date)
    → DistinctStarts db.fees
    → fee_at (fee_step_function db).0 (fee_step_function db).1 month ≡ fee_for_month db month
unfolding fee_at fee_step_function fee_for_month
fee_at-eq-fee_for_month db month d = sym (
    ap last_fee (filter-sort (first_of_month month) db.fees d)
    ∙ last_fee-eq (first_of_month month) (sort_fees db.fees) (sort-IsAscending db.fees d))

any-snoc : (p : Fee → Bool) (fs : List Fee) (f : Fee) → any p (fs ++ f ∷ []) ≡ (any p fs || p f)
any-snoc p [] f = ground arith
any-snoc p (g ∷ gs) f = ground (arith, any-snoc p gs f)

DistinctStarts-snoc :
    (fs : List Fee) (f : Fee)
    → DistinctStarts fs
    → any (λ (g : Fee). date_eq g.start f.start) fs ≡ false
    → DistinctStarts (fs ++ f ∷ [])
DistinctStarts-snoc [] f d h = ground arith
DistinctStarts-snoc (g ∷ gs) f d h = (
  any-snoc (λ (x : Fee). date_eq x.start g.start) gs f
      ∙ rw d.0 (date_eq_sym f.start g.start ∙ ground arith),
  DistinctStarts-snoc gs f d.1 (ground arith),
)

create_fee_ok :
    (today : Date) (year month : ℕ) (amount : ℤ) (db db' : Db) (f : Fee)
    → create_fee today year month amount db ≡ ok (f, db')
    → (any (λ (g : Fee). date_eq g.start f.start) db.fees ≡ false)
      × (f.start.day ≡ 1)
      × (f.fee ≡ amount)
      × (date_lt f.start (first_of_month today) ≡ false)
      × (db'.fees ≡ db.fees ++ f ∷ [])
unfolding create_fee
create_fee_ok today year month amount db db' f h = ground arith

-- A fee that is created starts on the first of a month, not before the current one, and on a day
-- on which no other fee starts: the starts stay distinct.
create_fee-DistinctStarts :
    (today : Date) (year month : ℕ) (amount : ℤ) (db db' : Db) (f : Fee)
    → DistinctStarts db.fees
    → create_fee today year month amount db ≡ ok (f, db')
    → DistinctStarts db'.fees
      × (f.start.day ≡ 1)
      × (f.fee ≡ amount)
      × (date_lt f.start (first_of_month today) ≡ false)
create_fee-DistinctStarts today year month amount db db' f d h =
    let (free, on_first, paid, not_past, stored) =
      create_fee_ok today year month amount db db' f h in
    (rw stored (DistinctStarts-snoc db.fees f d free), on_first, paid, not_past)
