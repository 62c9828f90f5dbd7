-- ===== src/Fees/Balance/Dates.antt =====
-- The dates of a fee balance, and its final balance for every request.
use vb_api.Prelude.{
  ◌≤◌, ◌≡◌, refl, ◌∙◌, true, Option, none, some, arith, if◌then◌else◌, Bool-cases, inl, inr,
}
use vb_api.Calendar.{Date, date_le, date_lt, date_max, first_of_month, day_before, end_of_month}
use vb_api.Calendar.Order.{date_le-eq-not_lt, days_in_month_le}
use vb_api.Calendar.Months.{HasMonth, end_of_month_lem}
use vb_api.Bookkeeping.Store.{Member, Db}
use vb_api.Fees.Balance.{
  FeeBalance, is_fee_member, init_date_of, start_date_for, requested_end, end_date_for,
  balance_between, calculate_fee_balance,
}
use vb_api.Fees.Balance.Window.{balance_at, end_balance-eq-balance_at}

-- A date from which the days before it can be counted: not in the first year.
pub record IsUsual (d : Date) : Type 0 where
  pub year_ge : 2 ≤ d.year
  pub month_pos : 1 ≤ d.month
  pub month_le : d.month ≤ 12

-- Each date of a request, where one is given, is a usual one.
abbrev pub IsUsualRequest : Option Date → Type 0
IsUsualRequest none = Unit
IsUsualRequest (some d) = IsUsual d

pub record IsStart (init_date start_date : Date) : Type 0 where
  pub usual : IsUsual start_date
  pub on_first : start_date.day ≡ 1
  pub not_before : date_le init_date start_date ≡ true

start_date_for-IsStart :
    (raw : Date) (requested : Option Date)
    → IsUsual raw
    → IsUsualRequest requested
    → IsStart (first_of_month raw) (start_date_for (first_of_month raw) requested)
unfolding start_date_for date_max first_of_month date_le
start_date_for-IsStart raw none u v = ground arith
start_date_for-IsStart raw (some d) u v = ground arith

requested_end-HasMonth :
    (today : Date) (requested : Option Date)
    → IsUsual today
    → IsUsualRequest requested
    → HasMonth (requested_end today requested)
unfolding requested_end day_before first_of_month end_of_month
requested_end-HasMonth today none u v = ground arith
requested_end-HasMonth today (some d) u v = ground arith

end_of_month-not_before : (d : Date) → IsUsual d → d.day ≡ 1 → date_le d (end_of_month d) ≡ true
unfolding date_le
end_of_month-not_before d u h = ground (
  arith,
  end_of_month_lem d
      (record { year_pos = omega arith; month_pos = u.month_pos; month_le = u.month_le }),
  days_in_month_le d.year d.month,
)

end_of_month-HasMonth : (d : Date) → IsUsual d → HasMonth (end_of_month d)
end_of_month-HasMonth d u = ground (
  arith,
  end_of_month_lem d
      (record { year_pos = omega arith; month_pos = u.month_pos; month_le = u.month_le }),
)

end_date_for_lem :
    (init_date today start_date : Date) (requested : Option Date)
    → IsStart init_date start_date
    → IsUsual today
    → IsUsualRequest requested
    → HasMonth (end_date_for today start_date requested)
      × (date_le start_date (end_date_for today start_date requested) ≡ true)
unfolding end_date_for
end_date_for_lem init_date today start_date requested s u v =
    elim (Bool-cases (date_lt (requested_end today requested) start_date)) [
      | inl early ↦ rw early (
        end_of_month-HasMonth start_date s.usual,
        end_of_month-not_before start_date s.usual s.on_first,
      )
      | inr late ↦ rw late (
        requested_end-HasMonth today requested u v,
        date_le-eq-not_lt start_date (requested_end today requested) ∙ rw late,
      )
    ]

abbrev pub balance_for : Db → Date → Member → Date → Option Date → Option Date → FeeBalance
balance_for db today m raw requested_start requested_end_date =
    let start_date = start_date_for (first_of_month raw) requested_start in
    balance_between db m (first_of_month raw) start_date
      (end_date_for today start_date requested_end_date)

-- A fee member with a first date has a balance, between the dates that the request stands for.
pub calculate_fee_balance_lem :
    (db : Db) (today : Date) (m : Member) (raw : Date)
    (requested_start requested_end_date : Option Date)
    → init_date_of m ≡ some raw
    → calculate_fee_balance db today m requested_start requested_end_date ≡ (
        if is_fee_member m
        then some (balance_for db today m raw requested_start requested_end_date)
        else none)
unfolding calculate_fee_balance
calculate_fee_balance_lem db today m raw requested_start requested_end_date h = rw h

end_date-balance_between :
    (db : Db) (m : Member) (a b c : Date) → (balance_between db m a b c).end_date ≡ c
unfolding balance_between
end_date-balance_between db m a b c = refl

-- Whatever dates are requested, the final balance of a member is the balance from the member's
-- first month through the last date of the result. (Today, the member's first date and the
-- requested dates are dates after the first year.)
pub calculate_fee_balance-end_balance :
    (db : Db) (today : Date) (m : Member) (raw : Date)
    (requested_start requested_end_date : Option Date) (b : FeeBalance)
    → init_date_of m ≡ some raw
    → IsUsual today
    → IsUsual raw
    → IsUsualRequest requested_start
    → IsUsualRequest requested_end_date
    → calculate_fee_balance db today m requested_start requested_end_date ≡ some b
    → b.end_balance ≡ balance_at db m (first_of_month raw) b.end_date
calculate_fee_balance-end_balance db today m raw rs re b h ut ur us ue e =
    let start = start_date_for-IsStart raw rs ur us in
    let (he, after) =
      end_date_for_lem (first_of_month raw) today (start_date_for (first_of_month raw) rs) re start
        ut ue in
    let same : balance_for db today m raw rs re ≡ b =
      ground (arith, calculate_fee_balance_lem db today m raw rs re h) in
    rw (← same, end_date-balance_between _ _ _ _ _)
      (end_balance-eq-balance_at db m (first_of_month raw) _ _
        (unfold first_of_month in
          record { year_pos = omega arith; month_pos = ur.month_pos; month_le = ur.month_le })
        (record {
          year_pos = omega (arith, start.usual.year_ge);
          month_pos = start.usual.month_pos;
          month_le = start.usual.month_le;
        })
        he start.not_before after)
