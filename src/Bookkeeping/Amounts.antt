-- ===== src/Bookkeeping/Amounts.antt =====
-- The amounts of a request for direct assignments in app/services/p4x_category_service.py: exact
-- decimals of any number of places, of which p4x_category_directs stores whole cents. Left out are
-- texts that are no number, sums of more than 28 digits, and amounts of more than twelve.
use vb_api.Prelude.{
  ℕ, ◌+◌, ◌-◌, ◌*◌, ◌/◌, ◌^◌, ◌≤◌, ◌≡◌, refl, ap, ◌∙◌, Bool, true, Option, none, some, List, [],
  ◌∷◌, map, All, arith, leb, ltb, if◌then◌else◌,
}
use vb_api.Prelude.Int.{ℤ, pos, pos_part, neg_part, sub_ℕ, ◌+ℤ◌, eqb_ℤ, eq_of_parts, sum}

-- `Decimal`: `digits` divided by ten to the power `places`.
pub record Decimal : Type 0 where
  pub digits : ℤ
  pub places : ℕ

-- `slot["amount"]`: a number, or a text that is not empty.
pub data Amount : Type 0 where
  number text : Decimal → Amount

-- `Decimal(str(...))`, if the amount is true: a number other than zero, or any text.
unfoldable pub amount_value : Amount → Option Decimal
amount_value (number d) = if eqb_ℤ d.digits (pos 0) then none else some d
amount_value (text d) = some d

unfoldable pub times : ℤ → ℕ → ℤ
times a k = sub_ℕ (pos_part a * k) (neg_part a * k)

-- The number of units of ten to the power `- n` in an amount of at most `n` places.
abbrev pub units : ℕ → Decimal → ℤ
units n d = times d.digits (10 ^ (n - d.places))

-- The places of the sum, at least those of a cent.
unfoldable pub common_places : List Decimal → ℕ
common_places [] = 2
common_places (d ∷ ds) = let rest = common_places ds in if ltb rest d.places then d.places else rest

-- `transaction.amount != sum(...)`, where the transaction has whole cents.
unfoldable pub is_total : ℤ → List Decimal → Bool
unfolding common_places times
is_total cents ds =
    let n = common_places ds in eqb_ℤ (times cents (10 ^ (n - 2))) (sum (map (units n) ds))

-- Division by `k`, halves away from zero.
unfoldable pub rounded : ℤ → ℕ → ℤ
rounded a k = sub_ℕ ((pos_part a * 2 + k) / (2 * k)) ((neg_part a * 2 + k) / (2 * k))

-- What `Numeric(12, 2)` stores, in cents.
unfoldable pub to_cents : Decimal → ℤ
unfolding times rounded
to_cents d = if leb d.places 2 then units 2 d else rounded d.digits (10 ^ (d.places - 2))

-- The amount of a transaction.
abbrev pub cents : ℤ → Decimal
cents a = record { digits = a; places = 2 }

pub times_one : (a : ℤ) → times a 1 ≡ a
unfolding times
times_one a = eq_of_parts (times a 1) a (ground arith)

common_places-two :
    (ds : List Decimal) → All (λ (d : Decimal). d.places ≤ 2) ds → common_places ds ≡ 2
unfolding common_places
common_places-two [] h = refl
common_places-two (d ∷ ds) h = ground (arith, common_places-two ds h.1, h.0)

units-to_cents :
    (ds : List Decimal)
    → All (λ (d : Decimal). d.places ≤ 2) ds
    → map (units 2) ds ≡ map to_cents ds
unfolding to_cents
units-to_cents [] h = refl
units-to_cents (d ∷ ds) h =
    let small : leb d.places 2 ≡ true = ground (arith, h.0) in
    rw (small, units-to_cents ds h.1) refl

-- Amounts of whole cents add up to what is stored.
pub is_total-sum :
    (a : ℤ) (ds : List Decimal)
    → All (λ (d : Decimal). d.places ≤ 2) ds
    → is_total a ds ≡ eqb_ℤ a (sum (map to_cents ds))
unfolding is_total
is_total-sum a ds small = rw (common_places-two ds small) (
    ap (λ x. eqb_ℤ x (sum (map (units 2) ds))) (times_one a)
    ∙ ap (λ xs. eqb_ℤ a (sum xs)) (units-to_cents ds small))

pub to_cents-cents : (a : ℤ) → to_cents (cents a) ≡ a
unfolding to_cents
to_cents-cents a = times_one a

eqb_ℤ_self : (a : ℤ) → eqb_ℤ a (a +ℤ pos 0) ≡ true
unfolding ◌+ℤ◌
eqb_ℤ_self a = ground arith

-- The amount of a transaction is its own total.
pub is_total-cents : (a : ℤ) → is_total a (cents a ∷ []) ≡ true
is_total-cents a =
    is_total-sum a (cents a ∷ []) (omega arith, tt)
    ∙ ap (λ x. eqb_ℤ a (x +ℤ pos 0)) (to_cents-cents a)
    ∙ eqb_ℤ_self a
