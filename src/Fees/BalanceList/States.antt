-- ===== src/Fees/BalanceList/States.antt =====
-- The table of the members' states: which states it has, and which one a member's id finds.
use mathlib.Core.Path.{subst}
use vb_api.Prelude.{
  Uuid, ◌≡◌, refl, ap, ◌∙◌, false, Option, none, some, List, [], ◌∷◌, map, contains, Distinct, All,
  All-zip, ◌==◌, ==_self, if◌then◌else◌, arith,
}
use vb_api.Prelude.Int.{ℤ}
use vb_api.Calendar.{Date}
use vb_api.Bookkeeping.Store.{Member}
use vb_api.Fees.Balance.{init_date_of}
use vb_api.Fees.BalanceList.{MemberState, member_state, build_member_states, state_of}

abbrev pub member_ids : List Member → List Uuid
member_ids ms = map (λ (m : Member). m.id) ms

others :
    (i : Uuid) (ms : List Member)
    → contains i (member_ids ms) ≡ false
    → All (λ (n : Member). (i == n.id) ≡ false) ms
others i [] h = tt
others i (m ∷ ms) h = (ground arith, others i ms (ground arith))

module _ (starts : List Date) (fees : List ℤ) (default_end : Date) where
  abbrev pub built : List Member → List MemberState
  built ms = build_member_states starts fees default_end ms

  abbrev and_state : Option Date → Member → List MemberState → List MemberState
  and_state none m rest = rest
  and_state (some raw) m rest = member_state starts fees default_end m raw ∷ rest

  built-cons :
      (m : Member) (ms : List Member) → built (m ∷ ms) ≡ and_state (init_date_of m) m (built ms)
  unfolding build_member_states
  built-cons m ms = go (init_date_of m)
    where
      go :
          (o : Option Date)
          → (elim o [
            | none ↦ built ms
            | some raw ↦ member_state starts fees default_end m raw ∷ built ms
          ])
            ≡ and_state o m (built ms)
      go none = refl
      go (some raw) = refl

  -- What holds of every state holds of the state of every member that has one.
  abbrev pub OwnState : (MemberState → Type 0) → Option Date → Member → Type 0
  OwnState P none m = Unit
  OwnState P (some raw) m = P (member_state starts fees default_end m raw)

  pub All-built :
      (P : MemberState → Type 0) (ms : List Member)
      → All P (built ms)
      → All (λ (m : Member). OwnState P (init_date_of m) m) ms
  All-built P [] h = tt
  All-built P (m ∷ ms) h =
      go (init_date_of m) (All-built P ms) (subst (λ l. All P l) (built-cons m ms) h)
    where
      go :
          (o : Option Date)
          → (All P (built ms) → All (λ (n : Member). OwnState P (init_date_of n) n) ms)
          → All P (and_state o m (built ms))
          → OwnState P o m × All (λ (n : Member). OwnState P (init_date_of n) n) ms
      go none rest k = (tt, rest k)
      go (some raw) rest k = (k.0, rest k.1)

  abbrev pub own_final : (MemberState → MemberState) → Option Date → Member → Option MemberState
  own_final F none m = none
  own_final F (some raw) m = some (F (member_state starts fees default_end m raw))

  abbrev or_state : Option MemberState → Option MemberState → Option MemberState
  or_state none rest = rest
  or_state (some s) rest = some s

  module _ (F : MemberState → MemberState)
      (keeps : (s : MemberState) → (F s).member_id ≡ s.member_id) where
    state_of-cons :
        (u : Uuid) (o : Option Date) (m : Member) (states : List MemberState)
        → state_of u (map F (and_state o m states)) ≡ (
            if m.id == u
            then or_state (own_final F o m) (state_of u (map F states))
            else state_of u (map F states))
    unfolding member_state
    state_of-cons u none m states = ground arith
    state_of-cons u (some raw) m states =
        rw (keeps (member_state starts fees default_end m raw)) (ground arith)

    state_of-absent :
        (u : Uuid) (ms : List Member)
        → contains u (member_ids ms) ≡ false
        → state_of u (map F (built ms)) ≡ none
    state_of-absent u [] h = unfold build_member_states in refl
    state_of-absent u (m ∷ ms) h =
        ap (λ l. state_of u (map F l)) (built-cons m ms)
        ∙ state_of-cons u (init_date_of m) m (built ms)
        ∙ ground (arith, state_of-absent u ms)

    or_state-none : (o : Option MemberState) → or_state o none ≡ o
    or_state-none none = refl
    or_state-none (some s) = refl

    -- Looking up a member's id finds that member's own state.
    pub state_of-built :
        (ms : List Member)
        → Distinct (member_ids ms)
        → All (λ (n : Member). state_of n.id (map F (built ms)) ≡ own_final F (init_date_of n) n) ms
    state_of-built [] d = tt
    state_of-built (m ∷ ms) d = (
      ap (λ l. state_of m.id (map F l)) (built-cons m ms)
          ∙ state_of-cons m.id (init_date_of m) m (built ms)
          ∙ rw (==_self m.id) (
              ap (λ o. or_state (own_final F (init_date_of m) m) o) (state_of-absent m.id ms d.0)
              ∙ or_state-none (own_final F (init_date_of m) m)),
      All-zip
          (λ (n : Member) other found.
            ap (λ l. state_of n.id (map F l)) (built-cons m ms)
            ∙ state_of-cons n.id (init_date_of m) m (built ms)
            ∙ rw other found)
          ms (others m.id ms d.0) (state_of-built ms d.1),
    )
