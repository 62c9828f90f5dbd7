-- ===== src/Fees/Schedule.antt =====
-- The fee of each month: the table p4x_fees as a step function (`get_all_fees`,
-- `_fee_step_function`, `_fee_at`, `fee_for_month`, `_sum_fees_for_period`), and its changes
-- (`create_fee`, `delete_fee`).
pub mod Agree
use vb_api.Prelude.{
  ℕ, zero, suc, ◌+◌, ◌-◌, Bool, true, false, not, ◌&&◌, ◌||◌, Option, none, some, List, [], ◌∷◌,
  ◌++◌, map, filter, any, ◌==◌, if◌then◌else◌, Result, ok, err, ◌>>=◌, ◌>>◌, raise_if,
}
use vb_api.Prelude.Int.{ℤ, pos, sum}
use vb_api.Calendar.{Date, date_le, date_lt, date_eq, first_of_month, months_from}
use vb_api.Bookkeeping.Store.{Fee, Db}

-- `order_by(P4xFee.start)`
unfoldable pub insert_fee : Fee → List Fee → List Fee
insert_fee f [] = f ∷ []
insert_fee f (g ∷ gs) = if date_lt g.start f.start then g ∷ insert_fee f gs else f ∷ g ∷ gs

unfoldable pub sort_fees : List Fee → List Fee
sort_fees [] = []
sort_fees (f ∷ fs) = insert_fee f (sort_fees fs)

-- `get_all_fees`
unfoldable pub get_all_fees : Db → List Fee
get_all_fees db = sort_fees db.fees

abbrev pub starts_of : List Fee → List Date
starts_of fs = map (λ (f : Fee). f.start) fs

abbrev pub fees_of : List Fee → List ℤ
fees_of fs = map (λ (f : Fee). f.fee) fs

-- `_fee_step_function`
unfoldable pub fee_step_function : Db → List Date × List ℤ
unfolding get_all_fees
fee_step_function db = (starts_of (get_all_fees db), fees_of (get_all_fees db))

-- `bisect_right` of the standard library on a sorted list: how many of its first dates are not
-- after `x`.
unfoldable pub bisect_right : List Date → Date → ℕ
bisect_right [] x = 0
bisect_right (s ∷ ss) x = if date_lt x s then 0 else suc (bisect_right ss x)

-- `month_fees[index]`, zero past the end.
abbrev pub fee_at_index : List ℤ → ℕ → ℤ
fee_at_index [] i = pos 0
fee_at_index (f ∷ fs) zero = f
fee_at_index (f ∷ fs) (suc i) = fee_at_index fs i

-- `index = bisect_right(...) - 1`, and zero for an index of -1.
abbrev pub fee_before : List ℤ → ℕ → ℤ
fee_before fs zero = pos 0
fee_before fs (suc i) = fee_at_index fs i

-- `_fee_at`
unfoldable pub fee_at : List Date → List ℤ → Date → ℤ
unfolding bisect_right
fee_at starts fees month = fee_before fees (bisect_right starts (first_of_month month))

abbrev pub last_fee : List Fee → ℤ
last_fee [] = pos 0
last_fee (f ∷ []) = f.fee
last_fee (f ∷ g ∷ gs) = last_fee (g ∷ gs)

-- `fee_for_month`: the query orders by descending start and takes the first row, which is the last
-- of the ascending order.
unfoldable pub fee_for_month : Db → Date → ℤ
fee_for_month db target =
    last_fee (sort_fees (filter (λ (f : Fee). date_le f.start (first_of_month target)) db.fees))

-- `_sum_fees_for_period`
unfoldable pub sum_fees_for_period : List Date → List ℤ → Date → ℤ → ℤ
sum_fees_for_period starts fees first n = sum (map (fee_at starts fees) (months_from first n))

pub data FeeError : Type 0 where
  month_in_past month_taken : FeeError

-- `create_fee`, of a month that is a date, and today's date.
unfoldable pub create_fee : Date → ℕ → ℕ → ℤ → Db → Result FeeError (Fee × Db)
create_fee today year month amount db = do
  let start : Date = record { year = year; month = month; day = 1 }
  raise_if (date_lt start (first_of_month today)) month_in_past
  raise_if (any (λ (f : Fee). date_eq f.start start) db.fees) month_taken
  let f : Fee = record { start = start; fee = amount; is_protected = false }
  ok (f, record db { fees = db.fees ++ f ∷ [] })

-- `delete_fee`, of a start that parses: `none` is its message, that no unprotected fee starts then.
unfoldable pub delete_fee : Date → Db → Option Db
delete_fee start db =
    if any (λ (f : Fee). date_eq f.start start && not f.is_protected) db.fees
    then some (record db {
      fees = filter (λ (f : Fee). not (date_eq f.start start && not f.is_protected)) db.fees;
    })
    else none
