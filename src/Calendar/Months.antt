-- ===== src/Calendar/Months.antt =====
-- Months as an interval of numbers: consecutive ranges of months join, and how many months lie
-- between two dates.
use vb_api.Prelude.{ℕ, zero, suc, ◌+◌, ◌-◌, ◌≤◌, ◌≡◌, refl, ap, ◌∷◌, ◌++◌, arith}
use native.Mathlib.Nat.{zero-add, add-zero, suc-add, add-suc}
use vb_api.Prelude.Int.{pos_part}
use vb_api.Calendar.{
  Date, days_in_month, first_of_month, day_before, end_of_month, count_months, month_at,
  months_range,
}
use vb_api.Calendar.Order.{month_index}

-- What the month arithmetic needs of a date.
pub record HasMonth (d : Date) : Type 0 where
  pub year_pos : 1 ≤ d.year
  pub month_pos : 1 ≤ d.month
  pub month_le : d.month ≤ 12

pub months_range-append :
    (first : Date) (a n k : ℕ)
    → months_range first a (n + k) ≡ months_range first a n ++ months_range first (a + n) k
unfolding months_range
months_range-append first a zero k = rw (zero-add, add-zero)
months_range-append first a (suc n) k =
    rw (suc-add, add-suc, ← suc-add)
      (ap (λ l. month_at first a ∷ l) (months_range-append first (suc a) n k))

month_at_shift :
    (first start : Date) (n i : ℕ)
    → HasMonth first
    → HasMonth start
    → month_index start ≡ month_index first + n
    → month_at start i ≡ month_at first (n + i)
unfolding month_at
month_at_shift first start n i hf hs h = ground arith

pub months_range_shift :
    (first start : Date) (n a k : ℕ)
    → HasMonth first
    → HasMonth start
    → month_index start ≡ month_index first + n
    → months_range start a k ≡ months_range first (n + a) k
unfolding months_range
months_range_shift first start n a zero hf hs h = refl
months_range_shift first start n a (suc k) hf hs h =
    rw (month_at_shift first start n a hf hs h, ← add-suc)
      (ap (λ l. month_at first (n + a) ∷ l) (months_range_shift first start n (suc a) k hf hs h))

pub count_months_until :
    (first start : Date)
    → HasMonth first
    → HasMonth start
    → pos_part (count_months first (day_before (first_of_month start)))
      ≡ month_index start - month_index first
unfolding count_months day_before first_of_month
count_months_until first start hf hs = ground arith

pub count_months_through :
    (first last : Date)
    → pos_part (count_months first last) ≡ month_index last + 1 - month_index first
unfolding count_months
count_months_through first last = ground arith

-- The last day of a month is in the month, and not before its first.
pub end_of_month_lem :
    (d : Date)
    → HasMonth d
    → (month_index (end_of_month d) ≡ month_index d)
      × ((end_of_month d).day ≡ days_in_month d.year d.month)
      × ((end_of_month d).month ≡ d.month)
      × ((end_of_month d).year ≡ d.year)
unfolding end_of_month days_in_month
end_of_month_lem d h = ground arith
