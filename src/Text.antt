-- ===== src/Text.antt =====
-- Text as the services take it apart: `escape_like` of app/services/search_utils.py, and Python's
-- `str.replace`, `str.split`, `str.upper` and `str.lower` at the characters of ASCII.
pub mod Like
use vb_api.Prelude.{
  ℕ, ◌+◌, ◌-◌, Text, Bool, ◌&&◌, ◌||◌, List, [], ◌∷◌, ◌++◌, leb, ◌==◌, if◌then◌else◌,
}

-- `s.replace(c, r)` for one character `c`.
unfoldable pub replace : ℕ → Text → Text → Text
replace c r [] = []
replace c r (x ∷ s) = (if x == c then r else x ∷ []) ++ replace c r s

-- `term.replace("\\", "\\\\").replace("%", "\\%").replace("_", "\\_")`
unfoldable pub escape_like : Text → Text
unfolding replace
escape_like term =
    replace b'_' (b'\\' ∷ b'_' ∷ [])
      (replace b'%' (b'\\' ∷ b'%' ∷ []) (replace b'\\' (b'\\' ∷ b'\\' ∷ []) term))

-- `c.isspace()`, at the characters of ASCII: tab to carriage return, the separators, the blank.
unfoldable pub is_blank : ℕ → Bool
is_blank c = c == 32 || (leb 9 c && leb c 13) || (leb 28 c && leb c 31)

-- `c.upper()`, at the characters of ASCII.
unfoldable pub upper : ℕ → ℕ
upper c = if leb b'a' c && leb c b'z' then c - 32 else c

-- `c.lower()`, at the characters of ASCII.
unfoldable pub lower : ℕ → ℕ
lower c = if leb b'A' c && leb c b'Z' then c + 32 else c
