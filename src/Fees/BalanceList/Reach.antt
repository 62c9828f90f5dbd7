-- ===== src/Fees/BalanceList/Reach.antt =====
-- Which members and states the list of all balances ranges over: the fee members among all members,
-- and every state with what the loop over the payments relies on.
use vb_api.Prelude.{
  Uuid, ◌≡◌, refl, Bool, true, false, not, ◌&&◌, List, [], ◌∷◌, filter, contains, Distinct, All,
  All-zip, ==_self, arith, Bool-cases, inl, inr,
}
use vb_api.Calendar.{date_le}
use vb_api.Bookkeeping.Store.{Member}
use vb_api.Fees.BalanceList.{MemberState, earliest, latest, state_ids}
use vb_api.Fees.BalanceList.States.{member_ids}
use vb_api.Fees.BalanceList.Credit.{earliest-le, le-latest}
use vb_api.Fees.BalanceList.Entry.{InReach}

module _ (p : Member → Bool) where
  pub filter-holds : (ms : List Member) → All (λ m. p m ≡ true) (filter p ms)
  filter-holds [] = tt
  filter-holds (m ∷ ms) = elim (Bool-cases (p m)) [
    | inl kept ↦ rw kept (kept, filter-holds ms)
    | inr dropped ↦ rw dropped (filter-holds ms)
  ]

  pub filter-All : (P : Member → Type 0) (ms : List Member) → All P ms → All P (filter p ms)
  filter-All P [] h = tt
  filter-All P (m ∷ ms) h = elim (Bool-cases (p m)) [
    | inl kept ↦ rw kept (h.0, filter-All P ms h.1)
    | inr dropped ↦ rw dropped (filter-All P ms h.1)
  ]

  filter-absent :
      (i : Uuid) (ms : List Member)
      → contains i (member_ids ms) ≡ false
      → contains i (member_ids (filter p ms)) ≡ false
  filter-absent i [] h = refl
  filter-absent i (m ∷ ms) h = ground (arith, filter-absent i ms)

  pub filter-Distinct :
      (ms : List Member) → Distinct (member_ids ms) → Distinct (member_ids (filter p ms))
  filter-Distinct [] d = tt
  filter-Distinct (m ∷ ms) d = elim (Bool-cases (p m)) [
    | inl kept ↦ rw kept (filter-absent m.id ms d.0, filter-Distinct ms d.1)
    | inr dropped ↦ rw dropped (filter-Distinct ms d.1)
  ]

members-in :
    (states : List MemberState) (us : List Uuid)
    → ((u : Uuid) → (contains u (state_ids states) && not (contains u us)) ≡ false)
    → All (λ (t : MemberState). contains t.member_id us ≡ true) states
members-in [] us h = tt
members-in (t ∷ states) us h = (
  ground (arith, h t.member_id, ==_self t.member_id),
  members-in states us (λ u. ground (arith, h u)),
)

pub states-InReach : (s : MemberState) (ss : List MemberState) → All (InReach s ss) (s ∷ ss)
states-InReach s ss =
    let from = earliest-le (earliest s.init_date ss) s.init_date ss refl in
    let to = le-latest (latest s.end_date ss) s.end_date ss refl in
    All-zip {P = λ (t : MemberState). contains t.member_id (state_ids (s ∷ ss)) ≡ true}
      (λ t inside
          (window : (date_le (earliest s.init_date ss) t.init_date ≡ true)
            × (date_le t.end_date (latest s.end_date ss) ≡ true)).
        (inside, window.0, window.1))
      (s ∷ ss) (members-in (s ∷ ss) (state_ids (s ∷ ss)) (λ u. ground arith))
      (All-zip (λ t a b. (a, b)) (s ∷ ss) from to)
