-- ===== src/Text/Like.antt =====
-- The pattern language of `LIKE ... ESCAPE '\'`, as PostgreSQL documents it, and what an escaped
-- text means in it.
use vb_api.Prelude.{
  ℕ, Text, ◌≡◌, ◌∙◌, inl, inr, refl, sym, ap, Option, none, some, List, [], ◌∷◌, ◌++◌, map, arith,
  ◌==◌, false, ◌||◌, if◌then◌else◌, Bool-cases,
}
use mathlib.Core.List.{append_assoc}
use vb_api.Text.{replace, escape_like}

-- One piece of a pattern: a character that stands for itself, `_` or `%`.
pub data Piece : Type 0 where
  literal : ℕ → Piece
  any_character any_text : Piece

abbrev pub piece : ℕ → Piece
piece c = if c == b'%' then any_text else if c == b'_' then any_character else literal c

abbrev pub prepend : List Piece → Option (List Piece) → Option (List Piece)
prepend ps none = none
prepend ps (some qs) = some (ps ++ qs)

-- A backslash makes the next character stand for itself; a pattern that ends in one is an error.
unfoldable pub pieces : Text → Option (List Piece)
pieces [] = some []
pieces (c ∷ []) = if c == b'\\' then none else some (piece c ∷ [])
pieces (c ∷ d ∷ s) =
    let escaped = pieces s in
    let plain = pieces (d ∷ s) in
    if c == b'\\' then prepend (literal d ∷ []) escaped else prepend (piece c ∷ []) plain

replace-append : (c : ℕ) (r s t : Text) → replace c r (s ++ t) ≡ replace c r s ++ replace c r t
unfolding replace
replace-append c r [] t = refl
replace-append c r (x ∷ s) t =
    rw (replace-append c r s t) (sym (append_assoc (if x == c then r else x ∷ []) _ _))

abbrev escaped : ℕ → Text
escaped c = if c == b'\\' || (c == b'%' || c == b'_') then b'\\' ∷ c ∷ [] else c ∷ []

-- The three replacements of one character.
escape_character :
    (c : ℕ)
    → replace b'_'
        (b'\\' ∷ b'_' ∷ [])
        (replace b'%' (b'\\' ∷ b'%' ∷ []) (if c == b'\\' then b'\\' ∷ b'\\' ∷ [] else c ∷ []))
      ≡ escaped c
unfolding replace
escape_character c = ground arith

escape_like-cons : (c : ℕ) (s : Text) → escape_like (c ∷ s) ≡ escaped c ++ escape_like s
unfolding escape_like
escape_like-cons c s = rw (
  replace-append b'%' _ (if c == b'\\' then b'\\' ∷ b'\\' ∷ [] else c ∷ []) _,
  replace-append b'_' _ _ _,
  escape_character c,
)

pieces-cons :
    (c : ℕ) (s : Text) → (c == b'\\') ≡ false → pieces (c ∷ s) ≡ prepend (piece c ∷ []) (pieces s)
unfolding pieces
pieces-cons c [] h = ground arith
pieces-cons c (d ∷ s) h = ground arith

pieces-backslash : (c : ℕ) (s : Text) → pieces (b'\\' ∷ c ∷ s) ≡ prepend (literal c ∷ []) (pieces s)
unfolding pieces
pieces-backslash c s = refl

prepend-nil : (o : Option (List Piece)) → o ≡ prepend [] o
prepend-nil none = refl
prepend-nil (some ps) = refl

pieces-escaped : (c : ℕ) (s : Text) → pieces (escaped c ++ s) ≡ prepend (literal c ∷ []) (pieces s)
pieces-escaped c s = elim (Bool-cases (c == b'\\' || (c == b'%' || c == b'_'))) [
  | inl special ↦ rw special (pieces-backslash c s)
  | inr plain ↦
      rw (plain, pieces-cons c s (ground arith))
        (ap (λ p. prepend (p ∷ []) (pieces s)) (ground arith))
]

prepend-prepend :
    (ps qs : List Piece) (o : Option (List Piece))
    → prepend ps (prepend qs o) ≡ prepend (ps ++ qs) o
prepend-prepend ps qs none = refl
prepend-prepend ps qs (some rs) = ap some (sym (append_assoc ps qs rs))

-- Escaping makes every character of a text stand for itself: whatever follows it in a pattern, the
-- escaped text reads as its own characters, and no `%`, `_` or backslash in it as a wildcard.
pub pieces-escape_like :
    (s rest : Text) → pieces (escape_like s ++ rest) ≡ prepend (map literal s) (pieces rest)
pieces-escape_like [] rest = unfold escape_like in prepend-nil (pieces rest)
pieces-escape_like (c ∷ s) rest =
    rw (escape_like-cons c s, append_assoc (escaped c) (escape_like s) rest)
      (pieces-escaped c _
        ∙ ap (prepend (literal c ∷ [])) (pieces-escape_like s rest)
        ∙ prepend-prepend (literal c ∷ []) _ _)
