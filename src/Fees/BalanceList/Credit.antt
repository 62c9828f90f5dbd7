-- ===== src/Fees/BalanceList/Credit.antt =====
-- What the loop over the payments credits to one state, and the window of dates it loads.
use vb_api.Prelude.{
  Uuid, Text, Option, ◌≡◌, refl, ap, sym, ◌∙◌, Bool, true, false, not, ◌&&◌, List, [], ◌∷◌, map,
  filter, All, is_id, if◌then◌else◌, arith,
}
use vb_api.Prelude.Int.{ℤ, pos, ◌+ℤ◌, sum, int_laws}
use vb_api.Calendar.{Date, date_le, date_lt}
use vb_api.Calendar.Order.{date_le_self}
use vb_api.Bookkeeping.Store.{Transaction}
use vb_api.Fees.Payments.{amounts_of, unless_empty, is_fee_payment, is_paid_by}
use vb_api.Fees.BalanceList.{
  MemberState, FeeRow, fee_row, fetch_fee_rows, payment_target, credit, attribute_payments,
  earliest, latest,
}
use vb_api.Fees.BalanceList.Ibans.{is_empty_list}

le_from : (a b c : Date) → date_le a b ≡ true → (date_le b c && not (date_le a c)) ≡ false
unfolding date_le
le_from a b c h = ground arith

le_to : (a b c : Date) → date_le b c ≡ true → (date_le a b && not (date_le a c)) ≡ false
unfolding date_le
le_to a b c h = ground arith

module _ (rows : List (Text × Uuid)) (owners : List Uuid) where
  -- One state after every row.
  unfoldable pub credit_all : List FeeRow → MemberState → MemberState
  credit_all [] s = s
  credit_all (r ∷ rs) s = credit_all rs (credit rows owners r s)

  -- The sum of the rows that go to one member between two dates.
  unfoldable pub credits : Uuid → Date → Date → List FeeRow → ℤ
  credits u from_date to_date [] = pos 0
  credits u from_date to_date (r ∷ rs) =
      (if is_id (payment_target rows owners r) u
          && date_le from_date r.booking
          && date_le r.booking to_date
        then r.amount
        else pos 0)
      +ℤ credits u from_date to_date rs

  map_self : (states : List MemberState) → states ≡ map (λ s. s) states
  map_self [] = refl
  map_self (s ∷ states) = ap (λ ss. s ∷ ss) (map_self states)

  map_twice :
      (f g : MemberState → MemberState) (states : List MemberState)
      → map g (map f states) ≡ map (λ s. g (f s)) states
  map_twice f g [] = refl
  map_twice f g (s ∷ states) = ap (λ ss. g (f s) ∷ ss) (map_twice f g states)

  pub attribute_payments-map :
      (rs : List FeeRow) (states : List MemberState)
      → attribute_payments rows owners rs states ≡ map (credit_all rs) states
  unfolding attribute_payments credit_all
  attribute_payments-map [] states = map_self states
  attribute_payments-map (r ∷ rs) states =
      attribute_payments-map rs (map (credit rows owners r) states)
      ∙ map_twice (credit rows owners r) (credit_all rs) states

  -- A payment changes only the sum of the payments, by the sum of the rows that are credited.
  pub record Credited (rs : List FeeRow) (s t : MemberState) : Type 0 where
    pub same_member : t.member_id ≡ s.member_id
    pub same_init : t.init_date ≡ s.init_date
    pub same_end : t.end_date ≡ s.end_date
    pub same_fees : t.fee_sum ≡ s.fee_sum
    pub paid : t.payment_sum ≡ s.payment_sum +ℤ credits s.member_id s.init_date s.end_date rs

  credit-same :
      (r : FeeRow) (s : MemberState)
      → ((credit rows owners r s).member_id ≡ s.member_id)
        × ((credit rows owners r s).init_date ≡ s.init_date)
        × ((credit rows owners r s).end_date ≡ s.end_date)
        × ((credit rows owners r s).fee_sum ≡ s.fee_sum)
        × ((credit rows owners r s).payment_sum
            ≡ s.payment_sum
              +ℤ (if is_id (payment_target rows owners r) s.member_id
                    && date_le s.init_date r.booking
                    && date_le r.booking s.end_date
                  then r.amount
                  else pos 0))
  unfolding credit
  credit-same r s = grind int_laws

  pub credit_all-Credited : (rs : List FeeRow) (s : MemberState) → Credited rs s (credit_all rs s)
  unfolding credit_all credits
  credit_all-Credited [] s = record {
    same_member = refl;
    same_init = refl;
    same_end = refl;
    same_fees = refl;
    paid = omega int_laws;
  }
  credit_all-Credited (r ∷ rs) s =
      let step = credit-same r s in
      let rest = credit_all-Credited rs (credit rows owners r s) in
      let to_states : credits (credit rows owners r s).member_id (credit rows owners r s).init_date
            (credit rows owners r s).end_date rs
          ≡ credits s.member_id s.init_date s.end_date rs =
        rw (step.0, step.1, step.2) refl in
      record {
        same_member = rest.same_member ∙ step.0;
        same_init = rest.same_init ∙ step.1;
        same_end = rest.same_end ∙ step.2;
        same_fees = rest.same_fees ∙ step.3;
        paid = rest.paid ∙ rw (to_states, step.4) (omega int_laws);
      }

  -- The rows that are loaded for a wider window give one member what the member's own query gives.
  credits-fetched :
      (tx_ids : List Uuid) (u : Uuid) (goes : Transaction → Bool) (from_date to_date i e : Date)
      → ((t : Transaction) → is_id (payment_target rows owners (fee_row t)) u ≡ goes t)
      → date_le from_date i ≡ true
      → date_le e to_date ≡ true
      → (txs : List Transaction)
      → credits u i e (
          map fee_row (
            filter
              (λ (t : Transaction).
                is_fee_payment tx_ids t && date_le from_date t.booking && date_le t.booking to_date)
              txs))
        ≡ sum (
            amounts_of (
              filter
                (λ (t : Transaction).
                  is_fee_payment tx_ids t && (date_le i t.booking && date_le t.booking e) && goes t)
                txs))
  unfolding credits
  credits-fetched tx_ids u goes from_date to_date i e target a b [] = refl
  credits-fetched tx_ids u goes from_date to_date i e target a b (t ∷ txs) =
      let rest = credits-fetched tx_ids u goes from_date to_date i e target a b txs in
      grind (int_laws, target t, le_from from_date i t.booking a, le_to t.booking e to_date b)

  none_credited :
      (p q : Transaction → Bool) (txs : List Transaction)
      → sum (amounts_of (filter (λ (t : Transaction). p t && q t && false) txs)) ≡ pos 0
  none_credited p q [] = refl
  none_credited p q (t ∷ txs) = ground (arith, none_credited p q txs)

  -- With the early returns of both sides.
  pub credits-fetch_fee_rows :
      (tx_ids : List Uuid) (ibans : List (Option Text)) (u : Uuid) (from_date to_date i e : Date)
      (txs : List Transaction)
      → ((t : Transaction)
          → is_id (payment_target rows owners (fee_row t)) u
            ≡ (not (is_empty_list ibans) && is_paid_by ibans u t))
      → date_le from_date i ≡ true
      → date_le e to_date ≡ true
      → credits u i e (fetch_fee_rows tx_ids from_date to_date txs)
        ≡ sum (
            amounts_of (
              unless_empty ibans [] (
                unless_empty tx_ids [] (
                  filter
                    (λ (t : Transaction).
                      is_fee_payment tx_ids t
                      && (date_le i t.booking && date_le t.booking e)
                      && is_paid_by ibans u t)
                    txs))))
  unfolding fetch_fee_rows
  credits-fetch_fee_rows [] [] u from_date to_date i e txs target a b = unfold credits in refl
  credits-fetch_fee_rows [] (j ∷ js) u from_date to_date i e txs target a b = unfold credits in refl
  credits-fetch_fee_rows (x ∷ xs) [] u from_date to_date i e txs target a b =
      credits-fetched (x ∷ xs) u (λ t. false) from_date to_date i e target a b txs
      ∙ none_credited (λ t. is_fee_payment (x ∷ xs) t)
          (λ t. date_le i t.booking && date_le t.booking e) txs
  credits-fetch_fee_rows (x ∷ xs) (j ∷ js) u from_date to_date i e txs target a b =
      credits-fetched (x ∷ xs) u (is_paid_by (j ∷ js) u) from_date to_date i e target a b txs

le_min :
    (x a d : Date)
    → date_le x (if date_lt a d then a else d) ≡ true
    → (date_le x d ≡ true) × (date_le x a ≡ true)
unfolding date_le date_lt
le_min x a d h = ground arith

le_max :
    (x a d : Date)
    → date_le (if date_lt d a then a else d) x ≡ true
    → (date_le d x ≡ true) × (date_le a x ≡ true)
unfolding date_le date_lt
le_max x a d h = ground arith

-- The window that is loaded begins with the earliest of the states, and ends with the latest.
pub earliest-le :
    (x d : Date) (ss : List MemberState)
    → earliest d ss ≡ x
    → (date_le x d ≡ true) × All (λ (s : MemberState). date_le x s.init_date ≡ true) ss
unfolding earliest
earliest-le x d [] h = (rw (sym h) (date_le_self d), tt)
earliest-le x d (s ∷ ss) h =
    let rest = earliest-le x (if date_lt s.init_date d then s.init_date else d) ss h in
    let both = le_min x s.init_date d rest.0 in (both.0, (both.1, rest.1))

pub le-latest :
    (x d : Date) (ss : List MemberState)
    → latest d ss ≡ x
    → (date_le d x ≡ true) × All (λ (s : MemberState). date_le s.end_date x ≡ true) ss
unfolding latest
le-latest x d [] h = (rw (sym h) (date_le_self d), tt)
le-latest x d (s ∷ ss) h =
    let rest = le-latest x (if date_lt d s.end_date then s.end_date else d) ss h in
    let both = le_max x s.end_date d rest.0 in (both.0, (both.1, rest.1))
