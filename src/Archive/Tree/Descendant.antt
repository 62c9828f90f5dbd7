-- ===== src/Archive/Tree/Descendant.antt =====
-- `_is_descendant` tells whether a directory lies below another one.
use vb_api.Prelude.{
  ℕ, zero, suc, ◌<◌, ◌≡◌, refl, ap, ◌∙◌, Uuid, ◌||◌, Option, some, List, [], ◌∷◌, length, drop,
  contains, arith, Bool-cases, inl, inr, is_id,
}
use vb_api.Archive.Store.{ArchiveDir}
use vb_api.Forest.{Ahead, Ahead-cons, Climb, top, up, Climb-Distinct}
use vb_api.Archive.Tree.{up_from, enough, descendant_loop, is_descendant}
use vb_api.Archive.Tree.Laws.{up_from-row, Climb-length_le}

Climb-first :
    (dirs : List ArchiveDir) {o : Option Uuid} {is : List Uuid} (v : Uuid)
    → Climb (up_from dirs) o is
    → contains v is ≡ (is_id o v || contains v (drop 1 is))
Climb-first dirs v top = refl
Climb-first dirs v (up e c) = refl

descendant_loop_lem :
    (n : ℕ) (dirs : List ArchiveDir) (visited : List Uuid) (v : Uuid) {o : Option Uuid}
    {is : List Uuid}
    → Climb (up_from dirs) o is
    → Ahead visited is
    → length is < n
    → descendant_loop n dirs visited o v ≡ some (contains v (drop 1 is))
unfolding descendant_loop
descendant_loop_lem zero dirs visited v c h lt = absurd (omega arith)
descendant_loop_lem (suc n) dirs visited v top h lt = refl
descendant_loop_lem (suc n) dirs visited v (up {i} {p} {is} e c) h lt =
    let (d, found, above) = up_from-row i dirs p e in
    let fresh = (Climb-Distinct (up_from dirs) (up e c)).0 in
    let rest =
      descendant_loop_lem n dirs (i ∷ visited) v c (Ahead-cons i visited is fresh h.1)
        (omega arith) in
    let first = Climb-first dirs v c in
    rw (h.0, descendant_loop)
      (rw found (
        rw above (elim (Bool-cases (is_id p v)) [
          | inl hit ↦ rw hit (ap some (ground (arith, first, hit)))
          | inr miss ↦ rw miss (rw above (rest ∙ ap some (ground (arith, first, miss))))
        ])))

-- Where the climb from a directory reaches a root, `_is_descendant` is the test whether the other
-- directory is among the rows above it.
pub is_descendant_lem :
    (dirs : List ArchiveDir) (candidate_id ancestor_id : Uuid) (is : List Uuid)
    → Climb (up_from dirs) (some candidate_id) (candidate_id ∷ is)
    → is_descendant dirs candidate_id ancestor_id ≡ some (contains ancestor_id is)
unfolding is_descendant
is_descendant_lem dirs c v is climb =
    descendant_loop_lem (enough dirs) dirs [] v climb (nothing_visited (c ∷ is))
      (omega (arith, Climb-length_le dirs climb))
  where
    nothing_visited : (js : List Uuid) → Ahead [] js
    nothing_visited [] = tt
    nothing_visited (j ∷ js) = (refl, nothing_visited js)
