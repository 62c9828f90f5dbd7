-- ===== src/Fees/BalanceList/Owners.antt =====
-- Who a payment is credited to: the bulk rule names a member exactly if the member's own query finds
-- the payment.
use vb_api.Prelude.{
  Uuid, Text, ◌≡◌, ap, ◌∙◌, Bool, true, not, ◌&&◌, ◌||◌, Option, none, some, List, contains,
  is_none, is_id, ◌==◌, ==_iff, if◌then◌else◌, arith, Bool-cases, inl, inr,
}
use vb_api.Bookkeeping.Store.{Transaction, Db}
use vb_api.Bookkeeping.Warnings.{iban_in}
use vb_api.Fees.Payments.{no_delegation, member_ibans, is_paid_by}
use vb_api.Fees.BalanceList.{iban_rows, iban_get, iban_values, fee_row, payment_target}
use vb_api.Fees.BalanceList.Ibans.{
  DistinctIbans, HaveIbans, is_empty_list, iban_get_lem, contains-owners, iban_in-nonempty,
}

owned_or_not :
    (e u : Uuid) (owners : List Uuid)
    → (contains e owners && e == u) ≡ (contains u owners && e == u)
owned_or_not e u owners = elim (Bool-cases (e == u)) [
  | inl same ↦ ground (arith, ap (λ w. contains w owners) ((==_iff e u).0 same))
  | inr other ↦ ground arith
]

chosen : Option Uuid → Bool → Option Uuid → List Uuid → Option Uuid
chosen none nd target owners = if nd then target else none
chosen (some e) nd target owners = if contains e owners then some e else if nd then target else none

target_is :
    (d : Option Uuid) (nd : Bool) (target : Option Uuid) (owners : List Uuid) (u : Uuid)
    (found : Bool)
    → is_id target u ≡ found
    → (found ≡ true → contains u owners ≡ true)
    → (nd ≡ true → is_none d ≡ true)
    → is_id (chosen d nd target owners) u ≡ (contains u owners && (found && nd || is_id d u))
unfolding chosen
target_is none nd target owners u found a b n = ground (arith, a, b)
target_is (some e) nd target owners u found a b n = ground (arith, n, owned_or_not e u owners)

payment_target-chosen :
    (rows : List (Text × Uuid)) (owners : List Uuid) (t : Transaction)
    → payment_target rows owners (fee_row t)
      ≡ chosen t.delegating_member_id (no_delegation t) (iban_get t.iban rows) owners
unfolding payment_target chosen
payment_target-chosen rows owners t = ground arith

no_delegation-none :
    (t : Transaction) → no_delegation t ≡ true → is_none t.delegating_member_id ≡ true
unfolding no_delegation
no_delegation-none t h = ground arith

-- The bulk rule credits a transaction to a member of the list exactly if that member has a partner
-- row that is not deleted, and the member's own query finds the transaction.
pub payment_target_lem :
    (db : Db) (ids : List Uuid) (u : Uuid) (t : Transaction)
    → contains u ids ≡ true
    → DistinctIbans db.partners
    → HaveIbans db.partners
    → is_id
        (payment_target
          (iban_rows ids db.partners)
          (iban_values (iban_rows ids db.partners))
          (fee_row t))
        u
      ≡ (not (is_empty_list (member_ibans db u)) && is_paid_by (member_ibans db u) u t)
unfolding payment_target is_paid_by member_ibans
payment_target_lem db ids u t c d h =
    let rows = iban_rows ids db.partners in
    let owners = contains-owners ids u db.partners c d h in
    ap (λ o. is_id o u) (payment_target-chosen rows (iban_values rows) t)
    ∙ target_is t.delegating_member_id (no_delegation t) (iban_get t.iban rows) (iban_values rows) u
        (iban_in t.iban (member_ibans db u)) (iban_get_lem t.iban ids u db.partners c d h)
        (λ e. owners ∙ ap not (iban_in-nonempty t.iban (member_ibans db u) e))
        (no_delegation-none t)
    ∙ ap
        (λ b.
          b
          && (iban_in t.iban (member_ibans db u) && no_delegation t
              || is_id t.delegating_member_id u))
        owners
