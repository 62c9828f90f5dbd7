-- ===== src/Calendar/Order.antt =====
-- Dates are ordered as the numbers of their days in a calendar of months of 32 days.
use vb_api.Prelude.{ℕ, ◌+◌, ◌*◌, ◌≤◌, ◌≡◌, true, false, not, ltb, leb, arith}
use vb_api.Calendar.{Date, IsDate, days_in_month, date_le, date_lt, date_eq}

-- The number of the month, counted over the years.
abbrev pub month_index : Date → ℕ
month_index d = d.year * 12 + d.month

abbrev pub date_key : Date → ℕ
date_key d = month_index d * 32 + d.day

pub days_in_month_le : (y m : ℕ) → (28 ≤ days_in_month y m) × (days_in_month y m ≤ 31)
unfolding days_in_month
days_in_month_le y m = ground arith

pub date_le-eq-leb :
    (a b : Date) → IsDate a → IsDate b → date_le a b ≡ leb (date_key a) (date_key b)
unfolding date_le
date_le-eq-leb a b ha hb =
    ground (arith, days_in_month_le a.year a.month, days_in_month_le b.year b.month)

pub date_lt-eq-ltb :
    (a b : Date) → IsDate a → IsDate b → date_lt a b ≡ ltb (date_key a) (date_key b)
unfolding date_lt
date_lt-eq-ltb a b ha hb =
    ground (arith, days_in_month_le a.year a.month, days_in_month_le b.year b.month)

pub date_lt_trans : (a b c : Date) → date_lt a b ≡ true → date_lt b c ≡ true → date_lt a c ≡ true
unfolding date_lt
date_lt_trans a b c h k = ground arith

pub date_le-eq-not_lt : (a b : Date) → date_le a b ≡ not (date_lt b a)
unfolding date_le date_lt
date_le-eq-not_lt a b = ground arith

pub date_lt_total : (a b : Date) → date_lt a b ≡ false → date_eq a b ≡ false → date_lt b a ≡ true
unfolding date_lt date_eq
date_lt_total a b h k = ground arith

pub date_le_trans : (a b c : Date) → date_le a b ≡ true → date_le b c ≡ true → date_le a c ≡ true
unfolding date_le
date_le_trans a b c h k = ground arith

pub date_lt-le_trans : (a b c : Date) → date_lt a b ≡ true → date_le b c ≡ true → date_le a c ≡ true
unfolding date_le date_lt
date_lt-le_trans a b c h k = ground arith

pub date_le_index :
    (a b : Date)
    → 1 ≤ a.month
    → a.month ≤ 12
    → 1 ≤ b.month
    → b.month ≤ 12
    → date_le a b ≡ true
    → month_index a ≤ month_index b
unfolding date_le
date_le_index a b la ha lb hb h = ground arith

pub date_lt→le : (a b : Date) → date_lt a b ≡ true → date_le a b ≡ true
unfolding date_lt date_le
date_lt→le a b h = ground arith

pub date_le_self : (d : Date) → date_le d d ≡ true
unfolding date_le
date_le_self d = ground arith
