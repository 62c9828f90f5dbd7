-- ===== src/Bookkeeping/Partners/Exclusive.antt =====
-- After `set_transaction_partner`: one owner for a row, one delegating partner for a transaction, and
-- an IBAN that is known exactly if a partner was given.
use vb_api.Prelude.{
  ℕ, ◌+◌, ◌≤◌, ◌≡◌, refl, ◌∙◌, Uuid, Text, Bool, true, false, not, ◌&&◌, Option, none, some, List,
  [], ◌∷◌, map, filter, All, is_none, text_eq, text_eq_self, ◌==◌, if◌then◌else◌, ok, arith,
  Bool-cases, inl, inr,
}
use vb_api.Bookkeeping.Store.{Instant, Transaction, Partner, Db}
use vb_api.Bookkeeping.Warnings.{iban_in, partner_ibans}
use vb_api.Bookkeeping.Partners.{
  PartnerType, partner_exists, is_missing, member, contact, account, special_contact, unknown,
  PartnerRef, has_this_iban, put_partner, drop_partner, set_partners, set_transaction_partner,
  given_if, delegated_by, store_transaction, when_member, when_contact, when_account,
  when_special_contact,
}
use vb_api.Bookkeeping.Partners.Laws.{DistinctIbans-set_partners, HaveIbans-set_partners}
use vb_api.Fees.BalanceList.Ibans.{DistinctIbans, HaveIbans}

-- How many of four columns are set.
abbrev count_set : Option Uuid → Option Uuid → Option Uuid → Option Uuid → ℕ
count_set a b c d =
    (if is_none a then 0 else 1)
    + (if is_none b then 0 else 1)
    + (if is_none c then 0 else 1)
    + (if is_none d then 0 else 1)

-- The check of the partners: exactly one of the four columns is set.
abbrev pub HasOneOwner : Partner → Type 0
HasOneOwner p = count_set p.member_id p.contact_id p.account_id p.special_contact_id ≡ 1

-- The check of the transactions: at most one of the four columns is set.
abbrev pub HasOneDelegator : Transaction → Type 0
HasOneDelegator t =
    count_set t.delegating_member_id t.delegating_contact_id t.delegating_account_id
      t.delegating_special_contact_id
    ≤ 1

most_one_column :
    (kind : PartnerType) (i : Uuid)
    → count_set
        (when_member kind i)
        (when_contact kind i)
        (when_account kind i)
        (when_special_contact kind i)
      ≤ 1
most_one_column member i = omega arith
most_one_column contact i = omega arith
most_one_column account i = omega arith
most_one_column special_contact i = omega arith
most_one_column unknown i = omega arith

-- A partner that exists is of a known type, so that its row has an owner.
one_column :
    (db : Db) (kind : PartnerType) (i : Uuid)
    → is_missing db (some (record { kind = kind; id = i })) ≡ false
    → count_set
        (when_member kind i)
        (when_contact kind i)
        (when_account kind i)
        (when_special_contact kind i)
      ≡ 1
unfolding partner_exists
one_column db member i h = refl
one_column db contact i h = refl
one_column db account i h = refl
one_column db special_contact i h = refl
one_column db unknown i h = cc

HasOneOwner-set_partners :
    (db : Db) (now : Instant) (iban : Text) (o : Option PartnerRef) (ps : List Partner)
    → is_missing db o ≡ false
    → All HasOneOwner ps
    → All HasOneOwner (set_partners now iban o ps)
unfolding put_partner drop_partner
HasOneOwner-set_partners db now iban none [] there h = tt
HasOneOwner-set_partners db now iban none (p ∷ ps) there h =
    elim (Bool-cases (has_this_iban iban p && is_none p.deleted_at)) [
      | inl same ↦ rw same (h.0, HasOneOwner-set_partners db now iban none ps there h.1)
      | inr other ↦ rw other (h.0, HasOneOwner-set_partners db now iban none ps there h.1)
    ]
HasOneOwner-set_partners db now iban (some r) [] there h = (one_column db r.kind r.id there, tt)
HasOneOwner-set_partners db now iban (some r) (p ∷ ps) there h =
    elim (Bool-cases (has_this_iban iban p)) [
      | inl same ↦ rw same (one_column db r.kind r.id there, h.1)
      | inr other ↦ rw other (h.0, HasOneOwner-set_partners db now iban (some r) ps there h.1)
    ]

HasOneDelegator-delegated_by :
    (o : Option PartnerRef) (t : Transaction) → HasOneDelegator (delegated_by o t)
unfolding delegated_by
HasOneDelegator-delegated_by none t = omega arith
HasOneDelegator-delegated_by (some r) t = most_one_column r.kind r.id

HasOneDelegator-store_transaction :
    (t : Transaction) (ts : List Transaction)
    → HasOneDelegator t
    → All HasOneDelegator ts
    → All HasOneDelegator (store_transaction t ts)
unfolding store_transaction
HasOneDelegator-store_transaction t [] k h = tt
HasOneDelegator-store_transaction t (u ∷ us) k h = elim (Bool-cases (u.id == t.id)) [
  | inl same ↦ rw same (k, HasOneDelegator-store_transaction t us k h.1)
  | inr other ↦ rw other (h.0, HasOneDelegator-store_transaction t us k h.1)
]

abbrev live_ibans : List Partner → List (Option Text)
live_ibans ps = map (λ (p : Partner). p.iban) (filter (λ (p : Partner). is_none p.deleted_at) ps)

iban_in-put_row :
    (iban : Text) (p : Partner) (rest : List (Option Text))
    → has_this_iban iban p ≡ true
    → iban_in iban (p.iban ∷ rest) ≡ true
iban_in-put_row iban p rest h = go p.iban h
  where
    go :
        (o : Option Text)
        → (elim o [ none ↦ false | some i ↦ text_eq i iban ]) ≡ true
        → iban_in iban (o ∷ rest) ≡ true
    go none k = cc
    go (some j) k = ground arith

iban_in-skip :
    (iban : Text) (p : Partner) (rest : List (Option Text))
    → has_this_iban iban p ≡ false
    → iban_in iban (p.iban ∷ rest) ≡ iban_in iban rest
iban_in-skip iban p rest h = go p.iban h
  where
    go :
        (o : Option Text)
        → (elim o [ none ↦ false | some i ↦ text_eq i iban ]) ≡ false
        → iban_in iban (o ∷ rest) ≡ iban_in iban rest
    go none k = refl
    go (some j) k = ground arith

iban_in-set_partners :
    (now : Instant) (iban : Text) (o : Option PartnerRef) (ps : List Partner)
    → iban_in iban (live_ibans (set_partners now iban o ps)) ≡ not (is_none o)
unfolding put_partner drop_partner
iban_in-set_partners now iban none [] = refl
iban_in-set_partners now iban none (p ∷ ps) = elim (Bool-cases (has_this_iban iban p)) [
  | inl same ↦ elim (Bool-cases (is_none p.deleted_at)) [
    | inl live ↦ rw (same, live) (iban_in-set_partners now iban none ps)
    | inr dead ↦ rw (same, dead, dead) (iban_in-set_partners now iban none ps)
  ]
  | inr other ↦ elim (Bool-cases (is_none p.deleted_at)) [
    | inl live ↦
        rw (other, live) (iban_in-skip iban p _ other ∙ iban_in-set_partners now iban none ps)
    | inr dead ↦ rw (other, dead) (iban_in-set_partners now iban none ps)
  ]
]
iban_in-set_partners now iban (some r) [] = ground (arith, text_eq_self iban)
iban_in-set_partners now iban (some r) (p ∷ ps) = elim (Bool-cases (has_this_iban iban p)) [
  | inl same ↦ rw same (iban_in-put_row iban p _ same)
  | inr other ↦ elim (Bool-cases (is_none p.deleted_at)) [
    | inl live ↦
        rw (other, live) (iban_in-skip iban p _ other ∙ iban_in-set_partners now iban (some r) ps)
    | inr dead ↦ rw (other, dead) (iban_in-set_partners now iban (some r) ps)
  ]
]

-- The request that was accepted.
set_transaction_partner_ok :
    (now : Instant) (t : Transaction) (partner : Option PartnerRef) (has_delegating : Bool)
    (delegating : Option PartnerRef) (db db' : Db)
    → set_transaction_partner now t partner has_delegating delegating db ≡ ok db'
    → record db {
      partners = set_partners now t.iban partner db.partners;
      transactions =
          store_transaction (delegated_by (given_if has_delegating delegating) t) db.transactions;
    }
      ≡ db'
unfolding set_transaction_partner
set_transaction_partner_ok now t partner has_delegating delegating db db' h = ground arith

partner_there :
    (now : Instant) (t : Transaction) (partner : Option PartnerRef) (has_delegating : Bool)
    (delegating : Option PartnerRef) (db db' : Db)
    → set_transaction_partner now t partner has_delegating delegating db ≡ ok db'
    → is_missing db partner ≡ false
unfolding set_transaction_partner
partner_there now t partner has_delegating delegating db db' h = ground arith

-- Setting the partner of a transaction keeps one row for each IBAN, an IBAN for each row of a member,
-- exactly one owner for each row and at most one delegating partner for each transaction.
pub set_transaction_partner-HasOneOwner :
    (now : Instant) (t : Transaction) (partner : Option PartnerRef) (has_delegating : Bool)
    (delegating : Option PartnerRef) (db db' : Db)
    → DistinctIbans db.partners
    → HaveIbans db.partners
    → All HasOneOwner db.partners
    → All HasOneDelegator db.transactions
    → set_transaction_partner now t partner has_delegating delegating db ≡ ok db'
    → DistinctIbans db'.partners
      × HaveIbans db'.partners
      × All HasOneOwner db'.partners
      × All HasOneDelegator db'.transactions
set_transaction_partner-HasOneOwner now t partner has_delegating delegating db db' d h o u done =
    rw (← set_transaction_partner_ok now t partner has_delegating delegating db db' done) (
      DistinctIbans-set_partners now t.iban partner db.partners d,
      HaveIbans-set_partners now t.iban partner db.partners h,
      HasOneOwner-set_partners db now t.iban partner db.partners
          (partner_there now t partner has_delegating delegating db db' done) o,
      HasOneDelegator-store_transaction (delegated_by (given_if has_delegating delegating) t)
          db.transactions (HasOneDelegator-delegated_by (given_if has_delegating delegating) t) u,
    )

-- Once the partner of a transaction is set, its IBAN is among the known IBANs exactly if a partner was
-- given.
pub set_transaction_partner_lem :
    (now : Instant) (t : Transaction) (partner : Option PartnerRef) (has_delegating : Bool)
    (delegating : Option PartnerRef) (db db' : Db)
    → set_transaction_partner now t partner has_delegating delegating db ≡ ok db'
    → iban_in t.iban (partner_ibans db') ≡ not (is_none partner)
set_transaction_partner_lem now t partner has_delegating delegating db db' done =
    rw (← set_transaction_partner_ok now t partner has_delegating delegating db db' done)
      (iban_in-set_partners now t.iban partner db.partners)
