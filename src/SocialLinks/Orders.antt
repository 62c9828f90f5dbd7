-- ===== src/SocialLinks/Orders.antt =====
-- Distinct ids and orders of the links.
use mathlib.Core.Path.{subst}
use vb_api.Prelude.{
  ℕ, suc, ◌≤◌, ◌≡◌, refl, ap, sym, ◌∙◌, Uuid, Bool, false, Option, none, some, List, [], ◌∷◌, map,
  filter, contains, Distinct, All, All-map, arith, Bool-cases, inl, inr, ◌==◌, ==_self,
}
use vb_api.SocialLinks.{
  SocialLink, Direction, upwards, downwards, max_order, earlier, first_by, find_reorder_neighbor,
}

abbrev pub link_ids : List SocialLink → List Uuid
link_ids links = map (λ (l : SocialLink). l.id) links

abbrev pub orders : List SocialLink → List ℕ
orders links = map (λ (l : SocialLink). l.sort_order) links

abbrev pub SameKeys : SocialLink → SocialLink → Type 0
SameKeys l r = (r.id == l.id) ≡ (r.sort_order == l.sort_order)

-- A row with an id and an order of its own.
SameKeys-apart :
    (l : SocialLink) (links : List SocialLink)
    → contains l.id (link_ids links) ≡ false
    → contains l.sort_order (orders links) ≡ false
    → All (λ (r : SocialLink). SameKeys l r × SameKeys r l) links
SameKeys-apart l [] h k = tt
SameKeys-apart l (r ∷ links) h k = (
  (ground (arith, h, k), ground (arith, h, k)),
  SameKeys-apart l links (ground (arith, h)) (ground (arith, k)),
)

pub All-SameKeys :
    (links : List SocialLink)
    → Distinct (link_ids links)
    → Distinct (orders links)
    → All (λ (l : SocialLink). All (λ (r : SocialLink). SameKeys l r) links) links
All-SameKeys [] d e = tt
All-SameKeys (l ∷ links) d e =
    let cross = SameKeys-apart l links d.0 e.0 in
    (
      (==_self l.id ∙ sym (==_self l.sort_order), All-map (λ r both. both.0) links cross),
      both_ways links (All-map (λ r both. both.1) links cross) (All-SameKeys links d.1 e.1),
    )
  where
    both_ways :
        (rows : List SocialLink)
        → All (λ (r : SocialLink). SameKeys r l) rows
        → All (λ (r : SocialLink). All (λ (s : SocialLink). SameKeys r s) links) rows
        → All (λ (r : SocialLink). All (λ (s : SocialLink). SameKeys r s) (l ∷ links)) rows
    both_ways [] h k = tt
    both_ways (r ∷ rows) h k = ((h.0, k.0), both_ways rows h.1 k.1)

All-filter_of :
    (P : SocialLink → Type 0) (p : SocialLink → Bool) (links : List SocialLink)
    → All P links
    → All P (filter p links)
All-filter_of P p [] each = tt
All-filter_of P p (l ∷ links) each = elim (Bool-cases (p l)) [
  | inl kept ↦ rw kept (each.0, All-filter_of P p links each.1)
  | inr dropped ↦ rw dropped (All-filter_of P p links each.1)
]

-- What every row has, the first one has.
All-first_by :
    (P : SocialLink → Type 0) (before : SocialLink → SocialLink → Bool) (links : List SocialLink)
    (n : SocialLink)
    → All P links
    → first_by before links ≡ some n
    → P n
unfolding first_by
All-first_by P before [] n each h = absurd cc
All-first_by P before (l ∷ links) n each h =
    subst P (ap (λ (o : Option SocialLink). elim o [ none ↦ l | some k ↦ k ]) h)
      (choose (first_by before links) (λ k. All-first_by P before links k each.1))
  where
    choose :
        (o : Option SocialLink) → ((k : SocialLink) → o ≡ some k → P k) → P (earlier before l o)
    choose none rest = each.0
    choose (some k) rest = elim (Bool-cases (before k l)) [
      | inl there ↦ rw there (rest k refl)
      | inr here ↦ rw here each.0
    ]

pub All-neighbor :
    (P : SocialLink → Type 0) (links : List SocialLink) (o : ℕ) (direction : Direction)
    (n : SocialLink)
    → All P links
    → find_reorder_neighbor links o direction ≡ some n
    → P n
unfolding find_reorder_neighbor
All-neighbor P links o upwards n each = All-first_by P _ _ n (All-filter_of P _ links each)
All-neighbor P links o downwards n each = All-first_by P _ _ n (All-filter_of P _ links each)

pub max_order-free :
    (links : List SocialLink) (m : ℕ)
    → max_order links ≤ m
    → contains (suc m) (orders links) ≡ false
unfolding max_order
max_order-free [] m h = refl
max_order-free (l ∷ links) m h = ground (arith, max_order-free links m)
