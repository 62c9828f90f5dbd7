-- ===== src/Kinship/Tests.antt =====
-- Runs of the changes of parents: 1 is the parent of 2, and 2 the parent of 3.
use vb_api.Prelude.{◌≡◌, refl, Text, none, some, List, [], ◌∷◌, contains, ok, err}
use vb_api.Forest.{top, up}
use vb_api.Kinship.{KinMember, invalid_parent, is_self_or_ancestor, update_kin}
use vb_api.Kinship.Laws.{IsKinForest, is_self_or_ancestor_lem}
use vb_api.Kinship.Steps.{updated, KinStep-IsKinForest}

abbrev org : Text
org = b'v' ∷ []

abbrev first : KinMember
first = record { id = 1; org_id = some org; parent_id = none }

abbrev third : KinMember
third = record { id = 3; org_id = some org; parent_id = some 2 }

abbrev family : List KinMember
family = first ∷ record { id = 2; org_id = some org; parent_id = some 1 } ∷ third ∷ []

abbrev family_forest : IsKinForest family
family_forest = (([], top), ((1 ∷ [], up refl top), ((2 ∷ 1 ∷ [], up refl (up refl top)), tt)))

circle_refused : update_kin 1 (some 3) org family ≡ err invalid_parent
unfolding update_kin vb_api.Prelude.text_eq
circle_refused = refl

abbrev moved : List KinMember
moved =
    first
    ∷ record { id = 2; org_id = some org; parent_id = some 1 }
    ∷ record { id = 3; org_id = some org; parent_id = some 1 }
    ∷ []

KinStep-IsKinForest_example : IsKinForest moved
unfolding update_kin vb_api.Prelude.text_eq
KinStep-IsKinForest_example =
    KinStep-IsKinForest family moved family_forest (updated 3 (some 1) org refl)

ancestor_found : is_self_or_ancestor family third 1 ≡ some (contains 1 (3 ∷ 2 ∷ 1 ∷ []))
ancestor_found =
    is_self_or_ancestor_lem family third 1 (3 ∷ 2 ∷ 1 ∷ []) refl (up refl (up refl (up refl top)))
