-- ===== src/SocialLinks/Tests.antt =====
-- Runs of the operations on links.
use vb_api.Prelude.{◌≡◌, refl, Uuid, ℕ, true, List, [], ◌∷◌}
use vb_api.SocialLinks.{SocialLink, upwards, downwards, list_admin_links, move_link}
use vb_api.SocialLinks.Moves.{AreOrdered, moved, LinkStep-AreOrdered}

abbrev link : Uuid → ℕ → SocialLink
link i o = record {
  id = i;
  platform = b'x' ∷ [];
  label = b'X' ∷ [];
  url = b'h' ∷ [];
  is_enabled = true;
  sort_order = o;
}

abbrev links : List SocialLink
links = link 1 1 ∷ link 2 5 ∷ link 3 2 ∷ []

abbrev moved_links : List SocialLink
moved_links = link 1 1 ∷ link 2 2 ∷ link 3 5 ∷ []

moved_up : move_link (link 2 5) upwards links ≡ moved_links
unfolding move_link
moved_up = refl

last_stays : move_link (link 2 5) downwards links ≡ links
unfolding move_link
last_stays = refl

listed : list_admin_links links ≡ link 1 1 ∷ link 3 2 ∷ link 2 5 ∷ []
unfolding list_admin_links
listed = refl

LinkStep-AreOrdered_example : AreOrdered moved_links
unfolding move_link
LinkStep-AreOrdered_example =
    LinkStep-AreOrdered links moved_links
      (record { ids = (refl, (refl, (refl, tt))); orders = (refl, (refl, (refl, tt))) })
      (moved (link 2 5) upwards refl)
