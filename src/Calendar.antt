-- ===== src/Calendar.antt =====
-- The `date` values of Python's standard library, as the bookkeeping uses them: comparison,
-- `replace(day=1)`, one day less, and the month arithmetic written out in
-- app/services/p4x_fee_balance_service.py (`_count_months`, `_end_of_month`, `_months_from`).
pub mod Order
pub mod Months
use vb_api.Prelude.{
  ℕ, zero, suc, ◌+◌, ◌-◌, ◌*◌, ◌/◌, ◌%◌, ◌≤◌, Bool, not, ◌&&◌, ◌||◌, List, [], ◌∷◌, ltb, leb, ◌==◌,
  if◌then◌else◌,
}
use vb_api.Prelude.Int.{ℤ, sub_ℕ, pos_part}

pub record Date : Type 0 where
  pub year : ℕ
  pub month : ℕ
  pub day : ℕ

unfoldable pub is_leap : ℕ → Bool
is_leap y = y % 4 == 0 && (not (y % 100 == 0) || y % 400 == 0)

unfoldable pub days_in_month : ℕ → ℕ → ℕ
unfolding is_leap
days_in_month y m =
    if m == 2
    then (if is_leap y then 29 else 28)
    else if m == 4 || m == 6 || m == 9 || m == 11
    then 30
    else 31

-- What the constructor of `date` checks.
pub record IsDate (d : Date) : Type 0 where
  pub year_pos : 1 ≤ d.year
  pub month_pos : 1 ≤ d.month
  pub month_le : d.month ≤ 12
  pub day_pos : 1 ≤ d.day
  pub day_le : d.day ≤ days_in_month d.year d.month

-- `a <= b`
unfoldable pub date_le : Date → Date → Bool
date_le a b =
    ltb a.year b.year
    || (a.year == b.year && (ltb a.month b.month || (a.month == b.month && leb a.day b.day)))

-- `a < b`
unfoldable pub date_lt : Date → Date → Bool
date_lt a b =
    ltb a.year b.year
    || (a.year == b.year && (ltb a.month b.month || (a.month == b.month && ltb a.day b.day)))

unfoldable pub date_eq : Date → Date → Bool
date_eq a b = a.year == b.year && a.month == b.month && a.day == b.day

-- `d.replace(day=1)`
unfoldable pub first_of_month : Date → Date
first_of_month d = record d { day = 1 }

-- `d - timedelta(days=1)`
unfoldable pub day_before : Date → Date
day_before d =
    if ltb 1 d.day
    then record d { day = d.day - 1 }
    else if ltb 1 d.month
    then record { year = d.year; month = d.month - 1; day = days_in_month d.year (d.month - 1) }
    else record { year = d.year - 1; month = 12; day = 31 }

-- `max(a, b)`: Python returns its first argument unless the second is larger.
unfoldable pub date_max : Date → Date → Date
unfolding date_lt
date_max a b = if date_lt a b then b else a

-- `_end_of_month`
unfoldable pub end_of_month : Date → Date
unfolding day_before
end_of_month d =
    if d.month == 12
    then day_before (record { year = d.year + 1; month = 1; day = 1 })
    else day_before (record { year = d.year; month = d.month + 1; day = 1 })

-- `_count_months`
unfoldable pub count_months : Date → Date → ℤ
count_months s e = sub_ℕ (e.year * 12 + e.month + 1) (s.year * 12 + s.month)

-- The element `i` of `_months_from`.
unfoldable pub month_at : Date → ℕ → Date
month_at first i = record {
  year = first.year + (first.month - 1 + i) / 12;
  month = (first.month - 1 + i) % 12 + 1;
  day = 1;
}

-- `[date(...) for i in range(a, a + n)]`
unfoldable pub months_range : Date → ℕ → ℕ → List Date
months_range first a zero = []
months_range first a (suc n) = month_at first a ∷ months_range first (suc a) n

-- `_months_from`; a negative number of months is an empty range.
unfoldable pub months_from : Date → ℤ → List Date
months_from first n = months_range first 0 (pos_part n)
