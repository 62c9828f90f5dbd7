-- ===== src/Fees/BalanceList/Ibans.antt =====
-- The table of the members' IBANs that the list of all balances looks payments up in, and what it
-- says of one member.
use vb_api.Prelude.{
  Uuid, Text, ◌≡◌, refl, sym, ap, ◌∙◌, Bool, true, false, not, ◌&&◌, ◌||◌, Option, none, some, List,
  [], ◌∷◌, ◌++◌, map, filter, any, contains, All, is_none, is_id, text_eq, text_eq_self, ◌==◌,
  ==_iff, if◌then◌else◌, arith, Bool-cases, inl, inr,
}
use vb_api.Bookkeeping.Store.{Partner}
use vb_api.Bookkeeping.Warnings.{iban_in}
use vb_api.Fees.BalanceList.{iban_row, owner_row, iban_rows, iban_get, iban_values}

abbrev pub iban_is : Text → Option Text → Bool
iban_is i none = false
iban_is i (some j) = text_eq j i

abbrev pub has_iban : Text → List Partner → Bool
has_iban i ps = any (λ (p : Partner). iban_is i p.iban) ps

-- The column `iban` of p4x_partners is unique, and every row of a member has one.
abbrev pub FreshIban : Partner → List Partner → Type 0
FreshIban p ps = (i : Text) → (iban_is i p.iban && has_iban i ps) ≡ false

no_other :
    (i : Text) (p : Partner) (ps : List Partner)
    → FreshIban p ps
    → iban_is i p.iban ≡ true
    → has_iban i ps ≡ false
no_other i p ps f same = ground (arith, f i)

abbrev pub DistinctIbans : List Partner → Type 0
DistinctIbans [] = Unit
DistinctIbans (p ∷ ps) = FreshIban p ps × DistinctIbans ps

abbrev pub HaveIbans : List Partner → Type 0
HaveIbans ps = All (λ (p : Partner). (is_none p.member_id || not (is_none p.iban)) ≡ true) ps

-- The rows of `member_ibans`, over any list of partners.
abbrev pub ibans_in : List Partner → Uuid → List (Option Text)
ibans_in ps u =
    map (λ (p : Partner). p.iban)
      (filter (λ (p : Partner). is_id p.member_id u && is_none p.deleted_at) ps)

abbrev pub is_empty_list {ℓ} : {A : Type ℓ} → List A → Bool
is_empty_list [] = true
is_empty_list (_ ∷ _) = false

-- What the row of one partner gives for an IBAN.
abbrev own_target : Text → List Uuid → Option Uuid → Option Text → Bool → Option Uuid
own_target i ids none j live = none
own_target i ids (some v) none live = none
own_target i ids (some v) (some j) live =
    if contains v ids && live && text_eq j i then some v else none

abbrev later_or : Option Uuid → Option Uuid → Option Uuid
later_or none own = own
later_or (some v) own = some v

iban_get-owner_row :
    (i : Text) (ids : List Uuid) (p : Partner) (rows : List (Text × Uuid))
    → iban_get i (owner_row ids p ++ rows)
      ≡ later_or (iban_get i rows) (own_target i ids p.member_id p.iban (is_none p.deleted_at))
unfolding iban_get
iban_get-owner_row i ids p rows = ground arith

iban_get-none :
    (i : Text) (ids : List Uuid) (ps : List Partner)
    → has_iban i ps ≡ false
    → iban_get i (iban_rows ids ps) ≡ none
unfolding iban_rows iban_get
iban_get-none i ids [] h = refl
iban_get-none i ids (p ∷ ps) h =
    iban_get-owner_row i ids p (iban_rows ids ps) ∙ ground (arith, iban_get-none i ids ps)

iban_in-none :
    (i : Text) (u : Uuid) (ps : List Partner)
    → has_iban i ps ≡ false
    → iban_in i (ibans_in ps u) ≡ false
iban_in-none i u [] h = refl
iban_in-none i u (p ∷ ps) h = ground (arith, iban_in-none i u ps)

member_or_not :
    (v u : Uuid) (ids : List Uuid) → contains u ids ≡ true → (contains v ids && v == u) ≡ (v == u)
member_or_not v u ids c = elim (Bool-cases (v == u)) [
  | inl same ↦ ground (arith, ap (λ w. contains w ids) ((==_iff v u).0 same))
  | inr other ↦ ground arith
]

own_target_is :
    (i : Text) (ids : List Uuid) (u : Uuid) (p : Partner) (is : List (Option Text))
    → contains u ids ≡ true
    → iban_is i p.iban ≡ true
    → iban_in i is ≡ false
    → is_id (later_or none (own_target i ids p.member_id p.iban (is_none p.deleted_at))) u
      ≡ iban_in i (if is_id p.member_id u && is_none p.deleted_at then p.iban ∷ is else is)
own_target_is i ids u p is c same absent = go p.member_id p.iban same
  where
    go :
        (m : Option Uuid) (j : Option Text)
        → iban_is i j ≡ true
        → is_id (own_target i ids m j (is_none p.deleted_at)) u
          ≡ iban_in i (if is_id m u && is_none p.deleted_at then j ∷ is else is)
    go none j e = ground arith
    go (some v) none e = ground arith
    go (some v) (some j) e = ground (arith, member_or_not v u ids c)

iban_in-cons :
    (i : Text) (u : Uuid) (p : Partner) (ps : List Partner)
    → iban_in i (ibans_in (p ∷ ps) u)
      ≡ iban_in i (
          if is_id p.member_id u && is_none p.deleted_at
          then p.iban ∷ ibans_in ps u
          else ibans_in ps u)
iban_in-cons i u p ps = ground arith

pub iban_get_lem :
    (i : Text) (ids : List Uuid) (u : Uuid) (ps : List Partner)
    → contains u ids ≡ true
    → DistinctIbans ps
    → HaveIbans ps
    → is_id (iban_get i (iban_rows ids ps)) u ≡ iban_in i (ibans_in ps u)
unfolding iban_rows iban_get
iban_get_lem i ids u [] c d h = refl
iban_get_lem i ids u (p ∷ ps) c d h = elim (Bool-cases (iban_is i p.iban)) [
  | inl same ↦
      rw
        (
          iban_get-owner_row i ids p (iban_rows ids ps),
          iban_get-none i ids ps (no_other i p ps d.0 same),
        )
        (own_target_is i ids u p (ibans_in ps u) c same
            (iban_in-none i u ps (no_other i p ps d.0 same))
          ∙ sym (iban_in-cons i u p ps))
  | inr other ↦
      ground
        (arith, iban_get-owner_row i ids p (iban_rows ids ps), iban_get_lem i ids u ps c d.1 h.1)
]

no_key :
    (i : Text) (ids : List Uuid) (ps : List Partner)
    → has_iban i ps ≡ false
    → any (λ (r : Text × Uuid). text_eq r.0 i) (iban_rows ids ps) ≡ false
unfolding iban_rows
no_key i ids [] h = refl
no_key i ids (p ∷ ps) h = ground (arith, no_key i ids ps)

contains-values_step :
    (ids : List Uuid) (u : Uuid) (p : Partner) (rows : List (Text × Uuid))
    → contains u ids ≡ true
    → (is_none p.member_id || not (is_none p.iban)) ≡ true
    → ((i : Text) → iban_is i p.iban ≡ true → any (λ (r : Text × Uuid). text_eq r.0 i) rows ≡ false)
    → contains u (iban_values (owner_row ids p ++ rows))
      ≡ ((is_id p.member_id u && is_none p.deleted_at) || contains u (iban_values rows))
unfolding iban_values
contains-values_step ids u p rows c has free = go p.member_id p.iban has free
  where
    go :
        (m : Option Uuid) (j : Option Text)
        → (is_none m || not (is_none j)) ≡ true
        → ((i : Text) → iban_is i j ≡ true → any (λ (r : Text × Uuid). text_eq r.0 i) rows ≡ false)
        → contains u (
            iban_values (
              (elim m [
                | none ↦ []
                | some v ↦ if contains v ids && is_none p.deleted_at then iban_row j v else []
              ])
              ++ rows))
          ≡ ((is_id m u && is_none p.deleted_at) || contains u (iban_values rows))
    go none j e f = refl
    go (some v) none e f = cc
    go (some v) (some j) e f = ground (arith, f j (text_eq_self j), member_or_not v u ids c)

pub contains-owners :
    (ids : List Uuid) (u : Uuid) (ps : List Partner)
    → contains u ids ≡ true
    → DistinctIbans ps
    → HaveIbans ps
    → contains u (iban_values (iban_rows ids ps)) ≡ not (is_empty_list (ibans_in ps u))
unfolding iban_rows
contains-owners ids u [] c d h = unfold iban_values in refl
contains-owners ids u (p ∷ ps) c d h =
    contains-values_step ids u p (iban_rows ids ps) c h.0
      (λ i e. no_key i ids ps (no_other i p ps d.0 e))
    ∙ ground (arith, contains-owners ids u ps c d.1 h.1)

pub iban_in-nonempty :
    (i : Text) (is : List (Option Text)) → iban_in i is ≡ true → is_empty_list is ≡ false
iban_in-nonempty i [] h = cc
iban_in-nonempty i (j ∷ js) h = refl
