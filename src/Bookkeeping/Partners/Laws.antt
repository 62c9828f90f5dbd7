-- ===== src/Bookkeeping/Partners/Laws.antt =====
-- What the partners' table keeps: one row for an IBAN, and one owner for a row.
use vb_api.Prelude.{
  ◌≡◌, refl, ap, sym, Text, Bool, true, false, ◌&&◌, ◌||◌, Option, none, some, List, [], ◌∷◌,
  text_eq, text_eq→eq, arith, Bool-cases, inl, inr,
}
use vb_api.Bookkeeping.Store.{Instant, Partner}
use vb_api.Bookkeeping.Partners.{PartnerRef, has_this_iban, put_partner, drop_partner, set_partners}
use vb_api.Fees.BalanceList.Ibans.{iban_is, has_iban, DistinctIbans, HaveIbans}

same_iban : (j iban i : Text) → text_eq j iban ≡ true → text_eq iban i ≡ text_eq j i
same_iban j iban i h = ap (λ k. text_eq k i) (sym (text_eq→eq j iban h))

put_row :
    (iban i : Text) (o : Option Text) (rest : Bool)
    → iban_is iban o ≡ true
    → (iban_is i o || rest) ≡ ((iban_is i o || rest) || text_eq iban i)
put_row iban i none rest h = cc
put_row iban i (some j) rest h = ground (arith, same_iban j iban i h)

has_iban-put_partner :
    (iban i : Text) (r : PartnerRef) (ps : List Partner)
    → has_iban i (put_partner iban r ps) ≡ (has_iban i ps || text_eq iban i)
unfolding put_partner
has_iban-put_partner iban i r [] = ground arith
has_iban-put_partner iban i r (p ∷ ps) = elim (Bool-cases (has_this_iban iban p)) [
  | inl same ↦ rw same (put_row iban i p.iban (has_iban i ps) same)
  | inr other ↦ rw (other, has_iban-put_partner iban i r ps) (ground arith)
]

no_clash :
    (iban i : Text) (o : Option Text)
    → iban_is iban o ≡ false
    → (iban_is i o && text_eq iban i) ≡ false
no_clash iban i none h = refl
no_clash iban i (some j) h = elim (Bool-cases (text_eq iban i)) [
  | inl same ↦ rw (← text_eq→eq iban i same) (ground arith)
  | inr other ↦ ground arith
]

DistinctIbans-put_partner :
    (iban : Text) (r : PartnerRef) (ps : List Partner)
    → DistinctIbans ps
    → DistinctIbans (put_partner iban r ps)
unfolding put_partner
DistinctIbans-put_partner iban r [] d = (λ i. ground arith, tt)
DistinctIbans-put_partner iban r (p ∷ ps) d = elim (Bool-cases (has_this_iban iban p)) [
  | inl same ↦ rw same (d.0, d.1)
  | inr other ↦ rw other (
    λ i. ground (arith, d.0 i, has_iban-put_partner iban i r ps, no_clash iban i p.iban other),
    DistinctIbans-put_partner iban r ps d.1,
  )
]

has_iban-drop_partner :
    (now : Instant) (iban i : Text) (ps : List Partner)
    → has_iban i (drop_partner now iban ps) ≡ has_iban i ps
unfolding drop_partner
has_iban-drop_partner now iban i [] = refl
has_iban-drop_partner now iban i (p ∷ ps) = ground (arith, has_iban-drop_partner now iban i ps)

DistinctIbans-drop_partner :
    (now : Instant) (iban : Text) (ps : List Partner)
    → DistinctIbans ps
    → DistinctIbans (drop_partner now iban ps)
unfolding drop_partner
DistinctIbans-drop_partner now iban [] d = tt
DistinctIbans-drop_partner now iban (p ∷ ps) d = (
  λ i. ground (arith, d.0 i, has_iban-drop_partner now iban i ps),
  DistinctIbans-drop_partner now iban ps d.1,
)

pub DistinctIbans-set_partners :
    (now : Instant) (iban : Text) (o : Option PartnerRef) (ps : List Partner)
    → DistinctIbans ps
    → DistinctIbans (set_partners now iban o ps)
DistinctIbans-set_partners now iban none ps d = DistinctIbans-drop_partner now iban ps d
DistinctIbans-set_partners now iban (some r) ps d = DistinctIbans-put_partner iban r ps d

pub HaveIbans-set_partners :
    (now : Instant) (iban : Text) (o : Option PartnerRef) (ps : List Partner)
    → HaveIbans ps
    → HaveIbans (set_partners now iban o ps)
unfolding put_partner drop_partner
HaveIbans-set_partners now iban none [] h = tt
HaveIbans-set_partners now iban none (p ∷ ps) h =
    (ground arith, HaveIbans-set_partners now iban none ps h.1)
HaveIbans-set_partners now iban (some r) [] h = (ground arith, tt)
HaveIbans-set_partners now iban (some r) (p ∷ ps) h = elim (Bool-cases (has_this_iban iban p)) [
  | inl same ↦ rw same (ground arith, h.1)
  | inr other ↦ rw other (h.0, HaveIbans-set_partners now iban (some r) ps h.1)
]
