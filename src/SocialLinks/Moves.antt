-- ===== src/SocialLinks/Moves.antt =====
-- A move exchanges two orders.
use vb_api.Prelude.{
  ℕ, suc, ◌≡◌, refl, ◌∙◌, Uuid, Text, Bool, false, some, List, [], ◌∷◌, ◌++◌, map, contains,
  Distinct, Distinct-snoc, All, All-find, arith, Bool-cases, Option-cases, inl, inr, ◌==◌,
  if◌then◌else◌,
}
use vb_api.SocialLinks.{
  SocialLink, Direction, get_link, max_order, find_reorder_neighbor, create_link, update_link,
  delete_link, set_order, exchange_orders, move_link,
}
use vb_api.SocialLinks.Orders.{
  link_ids, orders, SameKeys, All-SameKeys, All-neighbor, max_order-free,
}

exchanged : ℕ → ℕ → ℕ → ℕ
exchanged a b x = if x == a then b else if x == b then a else x

contains-exchanged :
    (a b x : ℕ) (xs : List ℕ) → contains (exchanged a b x) (map (exchanged a b) xs) ≡ contains x xs
unfolding exchanged
contains-exchanged a b x [] = refl
contains-exchanged a b x (y ∷ xs) = ground (arith, contains-exchanged a b x xs)

Distinct-exchanged : (a b : ℕ) (xs : List ℕ) → Distinct xs → Distinct (map (exchanged a b) xs)
Distinct-exchanged a b [] d = tt
Distinct-exchanged a b (x ∷ xs) d =
    (contains-exchanged a b x xs ∙ d.0, Distinct-exchanged a b xs d.1)

orders-exchange :
    (l n : SocialLink) (rows : List SocialLink)
    → All (λ (r : SocialLink). SameKeys l r) rows
    → All (λ (r : SocialLink). SameKeys n r) rows
    → orders (set_order n.id l.sort_order (set_order l.id n.sort_order rows))
      ≡ map (exchanged l.sort_order n.sort_order) (orders rows)
unfolding set_order exchanged
orders-exchange l n [] h k = refl
orders-exchange l n (r ∷ rows) h k = ground (arith, h.0, k.0, orders-exchange l n rows h.1 k.1)

link_ids-set_order :
    (i : Uuid) (o : ℕ) (rows : List SocialLink) → link_ids (set_order i o rows) ≡ link_ids rows
unfolding set_order
link_ids-set_order i o [] = refl
link_ids-set_order i o (r ∷ rows) = ground (arith, link_ids-set_order i o rows)

-- The ids of the rows, and their orders, are distinct.
pub record AreOrdered (links : List SocialLink) : Type 0 where
  pub ids : Distinct (link_ids links)
  pub orders : Distinct (orders links)

move_link-AreOrdered :
    (l : SocialLink) (direction : Direction) (links : List SocialLink)
    → AreOrdered links
    → get_link l.id links ≡ some l
    → AreOrdered (move_link l direction links)
unfolding move_link exchange_orders
move_link-AreOrdered l direction links fit stored =
    let agree = All-SameKeys links fit.ids fit.orders in
    elim (Option-cases (find_reorder_neighbor links l.sort_order direction)) [
      | inl last ↦ rw last fit
      | inr (n, next) ↦ rw next (record {
        ids =
            rw
              (
                link_ids-set_order n.id l.sort_order (set_order l.id n.sort_order links),
                link_ids-set_order l.id n.sort_order links,
              )
              fit.ids;
        orders =
            rw
              (orders-exchange l n links
                (All-find (λ (r : SocialLink). All (SameKeys r) links)
                  (λ (r : SocialLink). r.id == l.id) links l stored agree)
                (All-neighbor (λ (r : SocialLink). All (SameKeys r) links) links l.sort_order
                  direction n agree next))
              (Distinct-exchanged l.sort_order n.sort_order (orders links) fit.orders);
      })
    ]

link_ids-append :
    (links : List SocialLink) (l : SocialLink)
    → link_ids (links ++ l ∷ []) ≡ link_ids links ++ l.id ∷ []
link_ids-append [] l = refl
link_ids-append (k ∷ links) l = rw (link_ids-append links l)

orders-append :
    (links : List SocialLink) (l : SocialLink)
    → orders (links ++ l ∷ []) ≡ orders links ++ l.sort_order ∷ []
orders-append [] l = refl
orders-append (k ∷ links) l = rw (orders-append links l)

create_link-AreOrdered :
    (new_id : Uuid) (platform label url : Text) (is_enabled : Bool) (links : List SocialLink)
    → AreOrdered links
    → contains new_id (link_ids links) ≡ false
    → AreOrdered (create_link new_id platform label url is_enabled links)
unfolding create_link
create_link-AreOrdered new_id platform label url is_enabled links fit fresh = record {
  ids = rw (link_ids-append links _) (Distinct-snoc (link_ids links) new_id fit.ids fresh);
  orders = rw (orders-append links _) (
      Distinct-snoc (orders links) (suc (max_order links)) fit.orders
        (max_order-free links (max_order links) (omega arith)));
}

update_link_keys :
    (i : Uuid) (label url : Text) (is_enabled : Bool) (links : List SocialLink)
    → (link_ids (update_link i label url is_enabled links) ≡ link_ids links)
      × (orders (update_link i label url is_enabled links) ≡ orders links)
unfolding update_link
update_link_keys i label url is_enabled [] = (refl, refl)
update_link_keys i label url is_enabled (l ∷ links) =
    ground (arith, update_link_keys i label url is_enabled links)

-- Rows that stay.
contains-kept :
    (i x : ℕ) (f : SocialLink → ℕ) (links : List SocialLink)
    → contains x (map f links) ≡ false
    → contains x (map f (delete_link i links)) ≡ false
unfolding delete_link
contains-kept i x f [] h = refl
contains-kept i x f (l ∷ links) h = ground (arith, contains-kept i x f links)

Distinct-kept :
    (i : Uuid) (f : SocialLink → ℕ) (links : List SocialLink)
    → Distinct (map f links)
    → Distinct (map f (delete_link i links))
unfolding delete_link
Distinct-kept i f [] d = tt
Distinct-kept i f (l ∷ links) d = elim (Bool-cases (l.id == i)) [
  | inl gone ↦ rw gone (Distinct-kept i f links d.1)
  | inr stays ↦ rw stays (contains-kept i (f l) f links d.0, Distinct-kept i f links d.1)
]

-- A request of an admin. The id of a new row is one that no row has.
pub data LinkStep (links : List SocialLink) : List SocialLink → Type 0 where
  created :
      (new_id : Uuid) (platform label url : Text) (is_enabled : Bool)
      → contains new_id (link_ids links) ≡ false
      → LinkStep links (create_link new_id platform label url is_enabled links)
  updated :
      (i : Uuid) (label url : Text) (is_enabled : Bool)
      → LinkStep links (update_link i label url is_enabled links)
  moved :
      (l : SocialLink) (direction : Direction)
      → get_link l.id links ≡ some l
      → LinkStep links (move_link l direction links)
  deleted : (i : Uuid) → LinkStep links (delete_link i links)

-- The orders of the links stay distinct, and their ids too, whatever an admin creates, updates, moves
-- or deletes. (A new row gets an id that no row has, and a stored row is moved.)
pub LinkStep-AreOrdered :
    (links links' : List SocialLink) → AreOrdered links → LinkStep links links' → AreOrdered links'
LinkStep-AreOrdered links links' fit (created new_id platform label url is_enabled fresh) =
    create_link-AreOrdered new_id platform label url is_enabled links fit fresh
LinkStep-AreOrdered links links' fit (updated i label url is_enabled) =
    let keys = update_link_keys i label url is_enabled links in
    record { ids = rw (keys.0) fit.ids; orders = rw (keys.1) fit.orders }
LinkStep-AreOrdered links links' fit (moved l direction stored) =
    move_link-AreOrdered l direction links fit stored
LinkStep-AreOrdered links links' fit (deleted i) = record {
  ids = Distinct-kept i (λ (l : SocialLink). l.id) links fit.ids;
  orders = Distinct-kept i (λ (l : SocialLink). l.sort_order) links fit.orders;
}
