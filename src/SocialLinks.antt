-- ===== src/SocialLinks.antt =====
-- app/services/social_links_service.py and app/services/reorder_service.py: the links of the public
-- site to social media, which an admin orders by `sort_order`.
pub mod Orders
pub mod Moves
mod Tests
use vb_api.Prelude.{
  ℕ, suc, Uuid, Text, Bool, true, false, ◌≡◌, Option, none, some, List, [], ◌∷◌, ◌++◌, filter, find,
  map, not, ltb, ◌==◌, if◌then◌else◌,
}

-- `PublicSiteSocialLink`, without its times.
pub record SocialLink : Type 0 where
  pub id : Uuid
  pub platform : Text
  pub label : Text
  pub url : Text
  pub is_enabled : Bool
  pub sort_order : ℕ

pub data Direction : Type 0 where
  upwards downwards : Direction

-- `ORDER BY sort_order`, rows of one order as in the table.
unfoldable pub insert_by_order : SocialLink → List SocialLink → List SocialLink
insert_by_order l [] = l ∷ []
insert_by_order l (k ∷ links) =
    let rest = insert_by_order l links in
    if ltb k.sort_order l.sort_order then k ∷ rest else l ∷ k ∷ links

unfoldable pub list_admin_links : List SocialLink → List SocialLink
unfolding insert_by_order
list_admin_links [] = []
list_admin_links (l ∷ links) = insert_by_order l (list_admin_links links)

unfoldable pub list_enabled_links : List SocialLink → List SocialLink
unfolding list_admin_links
list_enabled_links links = list_admin_links (filter (λ (l : SocialLink). l.is_enabled) links)

abbrev pub get_link : Uuid → List SocialLink → Option SocialLink
get_link i links = find (λ (l : SocialLink). l.id == i) links

-- `max(sort_order)`, or 0 without rows
unfoldable pub max_order : List SocialLink → ℕ
max_order [] = 0
max_order (l ∷ links) =
    let rest = max_order links in if ltb rest l.sort_order then l.sort_order else rest

unfoldable pub create_link : Uuid → Text → Text → Text → Bool → List SocialLink → List SocialLink
unfolding max_order
create_link new_id platform label url is_enabled links =
    links
    ++ record {
      id = new_id;
      platform = platform;
      label = label;
      url = url;
      is_enabled = is_enabled;
      sort_order = suc (max_order links);
    }
      ∷ []

unfoldable pub update_link : Uuid → Text → Text → Bool → List SocialLink → List SocialLink
update_link i label url is_enabled links =
    map
      (λ (l : SocialLink).
        if l.id == i then record l { label = label; url = url; is_enabled = is_enabled } else l)
      links

unfoldable pub delete_link : Uuid → List SocialLink → List SocialLink
delete_link i links = filter (λ (l : SocialLink). not (l.id == i)) links

abbrev pub earlier : (SocialLink → SocialLink → Bool) → SocialLink → Option SocialLink → SocialLink
earlier before l none = l
earlier before l (some k) = if before k l then k else l

-- `order_by(ordering).first()`, where `before` is the ordering.
unfoldable pub first_by : (SocialLink → SocialLink → Bool) → List SocialLink → Option SocialLink
first_by before [] = none
first_by before (l ∷ links) = some (earlier before l (first_by before links))

unfoldable pub find_reorder_neighbor : List SocialLink → ℕ → Direction → Option SocialLink
unfolding first_by
find_reorder_neighbor links current_sort_order upwards =
    first_by (λ (k l : SocialLink). ltb l.sort_order k.sort_order)
      (filter (λ (l : SocialLink). ltb l.sort_order current_sort_order) links)
find_reorder_neighbor links current_sort_order downwards =
    first_by (λ (k l : SocialLink). ltb k.sort_order l.sort_order)
      (filter (λ (l : SocialLink). ltb current_sort_order l.sort_order) links)

unfoldable pub set_order : Uuid → ℕ → List SocialLink → List SocialLink
set_order i o links =
    map (λ (l : SocialLink). if l.id == i then record l { sort_order = o } else l) links

-- `move_link`, after the neighbor was looked for: both rows are written.
unfoldable pub exchange_orders : SocialLink → Option SocialLink → List SocialLink → List SocialLink
unfolding set_order
exchange_orders l none links = links
exchange_orders l (some n) links = set_order n.id l.sort_order (set_order l.id n.sort_order links)

unfoldable pub move_link : SocialLink → Direction → List SocialLink → List SocialLink
unfolding find_reorder_neighbor exchange_orders
move_link l direction links =
    exchange_orders l (find_reorder_neighbor links l.sort_order direction) links
