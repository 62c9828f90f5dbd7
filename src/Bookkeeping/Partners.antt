-- ===== src/Bookkeeping/Partners.antt =====
-- `set_transaction_partner` of app/services/p4x_partner_service.py: the partner of a transaction's
-- IBAN, and the partner on whose behalf a transaction was made. A refused request changes nothing.
pub mod Laws
pub mod Exclusive
use vb_api.Prelude.{
  ℕ, Uuid, Text, Bool, true, false, not, ◌&&◌, Option, none, some, List, [], ◌∷◌, any, all,
  contains, is_none, text_eq, ◌==◌, if◌then◌else◌, Result, ok, err, ◌>>=◌, ◌>>◌, raise_if,
}
use vb_api.Text.{is_blank}
use vb_api.Bookkeeping.Store.{Instant, Transaction, Partner, Account, Member, Db}

-- The types of `_PARTNER_MODELS`, and any other text.
pub data PartnerType : Type 0 where
  member contact account special_contact unknown : PartnerType

-- `PartnerRefInput`
pub record PartnerRef : Type 0 where
  pub kind : PartnerType
  pub id : Uuid

pub data PartnerError : Type 0 where
  no_counter_account partner_missing delegating_missing : PartnerError

-- `find_partner_entity`: whether there is such a row.
unfoldable pub partner_exists : Db → PartnerRef → Bool
partner_exists db r = elim r.kind [
  | member ↦ any (λ (m : Member). m.id == r.id) db.members
  | contact ↦ contains r.id db.contact_ids
  | account ↦ any (λ (a : Account). a.id == r.id) db.accounts
  | special_contact ↦ contains r.id db.special_contact_ids
  | unknown ↦ false
]

abbrev pub when_member : PartnerType → Uuid → Option Uuid
when_member kind i = elim kind [
  | member ↦ some i
  | contact ↦ none
  | account ↦ none
  | special_contact ↦ none
  | unknown ↦ none
]

abbrev pub when_contact : PartnerType → Uuid → Option Uuid
when_contact kind i = elim kind [
  | member ↦ none
  | contact ↦ some i
  | account ↦ none
  | special_contact ↦ none
  | unknown ↦ none
]

abbrev pub when_account : PartnerType → Uuid → Option Uuid
when_account kind i = elim kind [
  | member ↦ none
  | contact ↦ none
  | account ↦ some i
  | special_contact ↦ none
  | unknown ↦ none
]

abbrev pub when_special_contact : PartnerType → Uuid → Option Uuid
when_special_contact kind i = elim kind [
  | member ↦ none
  | contact ↦ none
  | account ↦ none
  | special_contact ↦ some i
  | unknown ↦ none
]

-- The row of an IBAN for a partner: one of its four columns is set, and it is not deleted.
abbrev pub partner_row : Option Text → PartnerRef → Partner
partner_row iban r = record {
  iban = iban;
  member_id = when_member r.kind r.id;
  contact_id = when_contact r.kind r.id;
  account_id = when_account r.kind r.id;
  special_contact_id = when_special_contact r.kind r.id;
  deleted_at = none;
}

-- `P4xPartner.iban == transaction.iban`
abbrev pub has_this_iban : Text → Partner → Bool
has_this_iban iban p = elim p.iban [ none ↦ false | some i ↦ text_eq i iban ]

-- The first row of the IBAN, or a new one, is made the partner's.
unfoldable pub put_partner : Text → PartnerRef → List Partner → List Partner
put_partner iban r [] = partner_row (some iban) r ∷ []
put_partner iban r (p ∷ ps) =
    let rest = put_partner iban r ps in
    if has_this_iban iban p then partner_row p.iban r ∷ ps else p ∷ rest

-- `.update({"deleted_at": now})` on the rows of the IBAN that are not deleted.
unfoldable pub drop_partner : Instant → Text → List Partner → List Partner
drop_partner now iban [] = []
drop_partner now iban (p ∷ ps) =
    (if has_this_iban iban p && is_none p.deleted_at then record p { deleted_at = some now } else p)
    ∷ drop_partner now iban ps

abbrev pub set_partners : Instant → Text → Option PartnerRef → List Partner → List Partner
set_partners now iban none ps = drop_partner now iban ps
set_partners now iban (some r) ps = put_partner iban r ps

-- `_clear_delegating`, and the column that is set after it.
unfoldable pub delegated_by : Option PartnerRef → Transaction → Transaction
delegated_by none t = record t {
  delegating_member_id = none;
  delegating_contact_id = none;
  delegating_account_id = none;
  delegating_special_contact_id = none;
}
delegated_by (some r) t = record t {
  delegating_member_id = when_member r.kind r.id;
  delegating_contact_id = when_contact r.kind r.id;
  delegating_account_id = when_account r.kind r.id;
  delegating_special_contact_id = when_special_contact r.kind r.id;
}

unfoldable pub store_transaction : Transaction → List Transaction → List Transaction
store_transaction t [] = []
store_transaction t (u ∷ us) = (if u.id == t.id then t else u) ∷ store_transaction t us

-- `not transaction.iban.strip()`
abbrev pub is_blank_iban : Text → Bool
is_blank_iban iban = all is_blank iban

abbrev pub is_missing : Db → Option PartnerRef → Bool
is_missing db none = false
is_missing db (some r) = not (partner_exists db r)

-- `has_delegating and delegating_data`
abbrev pub given_if : Bool → Option PartnerRef → Option PartnerRef
given_if true r = r
given_if false r = none

-- `set_transaction_partner`
unfoldable pub set_transaction_partner :
    Instant
    → Transaction
    → Option PartnerRef
    → Bool
    → Option PartnerRef
    → Db
    → Result PartnerError Db
unfolding is_blank partner_exists put_partner drop_partner delegated_by store_transaction
set_transaction_partner now t partner has_delegating delegating db = do
  raise_if (not (is_none partner) && is_blank_iban t.iban) no_counter_account
  raise_if (is_missing db partner) partner_missing
  let delegator = given_if has_delegating delegating
  raise_if (is_missing db delegator) delegating_missing
  ok (record db {
    partners = set_partners now t.iban partner db.partners;
    transactions = store_transaction (delegated_by delegator t) db.transactions;
  })
