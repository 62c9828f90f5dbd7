-- ===== src/Archive/Ranking.antt =====
-- Rows in descending order of a rank, equal ranks in the order in which they came.
use vb_api.Prelude.{ℕ, List, [], ◌∷◌, All, ltb, if◌then◌else◌, Bool-cases, inl, inr}

module _ {ℓ} {A : Type ℓ} (rank : A → ℕ) where
  unfoldable pub insert_desc : A → List A → List A
  insert_desc a [] = a ∷ []
  insert_desc a (b ∷ bs) =
      let rest = insert_desc a bs in if ltb (rank a) (rank b) then b ∷ rest else a ∷ b ∷ bs

  unfoldable pub sort_desc : List A → List A
  unfolding insert_desc
  sort_desc [] = []
  sort_desc (a ∷ rows) = insert_desc a (sort_desc rows)

  All-insert_desc {κ} :
      (P : A → Type κ) (a : A) (bs : List A) → P a → All P bs → All P (insert_desc a bs)
  unfolding insert_desc
  All-insert_desc P a [] p each = (p, tt)
  All-insert_desc P a (b ∷ bs) p each = elim (Bool-cases (ltb (rank a) (rank b))) [
    | inl later ↦ rw later (each.0, All-insert_desc P a bs p each.1)
    | inr first ↦ rw first (p, each)
  ]

  pub All-sort_desc {κ} : (P : A → Type κ) (rows : List A) → All P rows → All P (sort_desc rows)
  unfolding sort_desc
  All-sort_desc P [] each = tt
  All-sort_desc P (a ∷ rows) each =
      All-insert_desc P a (sort_desc rows) each.0 (All-sort_desc P rows each.1)
