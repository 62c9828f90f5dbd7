-- ===== src/Bookkeeping/PartnerTests.antt =====
-- Runs of `set_transaction_partner` on the sample rows.
use vb_api.Prelude.{
  ℕ, List, ◌&&◌, ◌||◌, text_eq, ◌≡◌, refl, false, true, not, none, some, is_none, [], ◌∷◌, All,
  arith, ok, err,
}
use vb_api.Bookkeeping.Store.{Db}
use vb_api.Bookkeeping.Sample.{income, rows}
use vb_api.Bookkeeping.Warnings.{iban_in, partner_ibans}
use vb_api.Bookkeeping.Partners.{
  contact, PartnerRef, no_counter_account, partner_missing, set_partners, delegated_by,
  store_transaction, set_transaction_partner,
}
use vb_api.Bookkeeping.Partners.Exclusive.{
  HasOneOwner, HasOneDelegator, set_transaction_partner-HasOneOwner, set_transaction_partner_lem,
}
use vb_api.Fees.BalanceList.Ibans.{DistinctIbans, HaveIbans}

abbrev known : Db
known = record rows { contact_ids = 30 ∷ [] }

abbrev donor : PartnerRef
donor = record { kind = contact; id = 30 }

abbrev with_donor : Db
with_donor = record known {
  partners = set_partners 9 income.iban (some donor) known.partners;
  transactions = store_transaction (delegated_by (some donor) income) known.transactions;
}

donor_accepted :
    set_transaction_partner 9 income (some donor) true (some donor) known ≡ ok with_donor
unfolding set_transaction_partner
donor_accepted = refl

stranger_refused :
    set_transaction_partner 9 income (some (record donor { id = 31 })) false none known
    ≡ err partner_missing
unfolding set_transaction_partner
stranger_refused = refl

cash_refused :
    set_transaction_partner 9 (record income { iban = [] }) (some donor) false none known
    ≡ err no_counter_account
unfolding set_transaction_partner
cash_refused = refl

known-DistinctIbans : DistinctIbans known.partners
unfolding text_eq
known-DistinctIbans = (apart, (λ i. ground arith, tt))
  where
    apart : (i : List ℕ) → (text_eq (b'A' ∷ []) i && (text_eq (b'B' ∷ []) i || false)) ≡ false
    apart [] = refl
    apart (c ∷ s) = ground arith

set_transaction_partner-HasOneOwner_example :
    DistinctIbans with_donor.partners
    × HaveIbans with_donor.partners
    × All HasOneOwner with_donor.partners
    × All HasOneDelegator with_donor.transactions
set_transaction_partner-HasOneOwner_example =
    set_transaction_partner-HasOneOwner 9 income (some donor) true (some donor) known with_donor
      known-DistinctIbans (ground arith) (ground arith) (ground arith) donor_accepted

set_transaction_partner_lem_example :
    iban_in income.iban (partner_ibans with_donor) ≡ not (is_none (some donor))
set_transaction_partner_lem_example =
    set_transaction_partner_lem 9 income (some donor) true (some donor) known with_donor
      donor_accepted
