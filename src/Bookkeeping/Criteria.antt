-- ===== src/Bookkeeping/Criteria.antt =====
-- What a category filter asks of a transaction: `_apply_category_filter_criteria` of
-- app/services/p4x_category_service.py. PostgreSQL's `ILIKE ... ESCAPE '\'` is the parameter
-- `ilike`, of a text and a pattern. Blanks and capitals are those of ASCII, which the validator of
-- a filter's IBAN (`FILTER_IBAN_REGEX`) admits alone.
use vb_api.Prelude.{
  Uuid, Text, Bool, true, not, ◌&&◌, Option, none, some, List, [], ◌∷◌, ◌++◌, map, filter, contains,
  text_eq, ◌==◌,
}
use vb_api.Prelude.Int.{ℤ, leb_ℤ}
use vb_api.Text.{escape_like, is_blank, upper}
use vb_api.Bookkeeping.Store.{Transaction, CategoryFilter, SubjectMode}

-- `"".join(iban.split()).upper()`
unfoldable pub normal_iban : Text → Text
unfolding is_blank upper
normal_iban s = map upper (filter (λ c. not (is_blank c)) s)

-- `if category_filter.iban: ... P4xTransaction.iban == iban`; an empty text is no criterion.
unfoldable pub iban_matches : Option Text → Text → Bool
unfolding normal_iban
iban_matches none iban = true
iban_matches (some []) iban = true
iban_matches (some (c ∷ s)) iban = text_eq iban (normal_iban (c ∷ s))

unfoldable pub min_matches : Option ℤ → ℤ → Bool
min_matches none amount = true
min_matches (some least) amount = leb_ℤ least amount

unfoldable pub max_matches : Option ℤ → ℤ → Bool
max_matches none amount = true
max_matches (some most) amount = leb_ℤ amount most

-- The dictionary of patterns: `%` at an end stands for any text.
unfoldable pub subject_pattern : SubjectMode → Text → Text
subject_pattern SubjectMode.equals s = s
subject_pattern SubjectMode.contains s = b'%' ∷ s ++ b'%' ∷ []
subject_pattern SubjectMode.starts s = s ++ b'%' ∷ []

module _ (ilike : Text → Text → Bool) where
  unfoldable pub subject_matches : SubjectMode → Option Text → Text → Bool
  unfolding subject_pattern escape_like
  subject_matches mode none subject = true
  subject_matches mode (some s) subject = ilike subject (subject_pattern mode (escape_like s))

  -- The criteria on the columns of one transaction.
  unfoldable pub criteria_match : CategoryFilter → Transaction → Bool
  unfolding subject_matches iban_matches min_matches max_matches
  criteria_match f t =
      t.account_id == f.account_id
      && iban_matches f.iban t.iban
      && min_matches f.min_amount t.amount
      && max_matches f.max_amount t.amount
      && subject_matches f.subject_mode f.subject t.subject

  -- `_apply_category_filter_criteria`, with the ids of the directly assigned transactions.
  unfoldable pub passes_filter : CategoryFilter → List Uuid → Transaction → Bool
  passes_filter f directs t = not (contains t.id directs) && criteria_match f t
