-- ===== src/Bookkeeping/Filters.antt =====
-- The operations on category filters of app/services/p4x_category_service.py. `integrity_error` is
-- the exception of the database for a row that a check of the table p4x_category_filters refuses.
pub mod Laws
use Prim.Native.String.{String}
use text.Mathlib.Text.{◌==◌ as str_eq}
use vb_api.Prelude.{
  Uuid, Text, Bool, true, false, not, ◌&&◌, ◌||◌, Option, none, some, List, [], ◌∷◌, ◌++◌, filter,
  any, is_none, ◌==◌, if◌then◌else◌, Result, ok, ◌>>=◌, ◌>>◌, raise_if,
}
use vb_api.Prelude.Int.{ℤ, ltb_ℤ}
use vb_api.Bookkeeping.Store.{Account, Category, CategoryFilter, Hit, Db, SubjectMode}
use vb_api.Bookkeeping.Hits.{apply_all_category_filters}

-- `CategoryFilterSaveRequest`
pub record FilterData : Type 0 where
  pub name : String
  pub account_id : Uuid
  pub iban : Option Text
  pub min_amount : Option ℤ
  pub max_amount : Option ℤ
  pub subject : Option Text
  pub subject_mode : SubjectMode
  pub category_id : Uuid

pub data FilterError : Type 0 where
  no_criterion account_missing category_missing name_taken integrity_error : FilterError

-- The truth value of an optional text: neither missing nor empty.
abbrev pub is_text : Option Text → Bool
is_text none = false
is_text (some []) = false
is_text (some (_ ∷ _)) = true

-- `_validate_category_filter_input`
unfoldable pub validate_filter_input : FilterData → Db → Result FilterError (Unit {0})
validate_filter_input input db = do
  raise_if
      (not (
        is_text input.iban
        || not (is_none input.min_amount)
        || not (is_none input.max_amount)
        || is_text input.subject))
      no_criterion
  raise_if (not (any (λ (a : Account). a.id == input.account_id) db.accounts)) account_missing
  raise_if (not (any (λ (c : Category). c.id == input.category_id) db.categories)) category_missing

-- `p4x_category_filters_min_max_amount_check`
unfoldable pub bounds_crossed : Option ℤ → Option ℤ → Bool
bounds_crossed none most = false
bounds_crossed (some least) none = false
bounds_crossed (some least) (some most) = ltb_ℤ most least

abbrev pub filter_row : Uuid → FilterData → CategoryFilter
filter_row i input = record {
  id = i;
  name = input.name;
  account_id = input.account_id;
  iban = input.iban;
  min_amount = input.min_amount;
  max_amount = input.max_amount;
  subject_mode = input.subject_mode;
  subject = input.subject;
  category_id = input.category_id;
}

-- The row `f` in place of the one with its id.
unfoldable pub store_filter : CategoryFilter → List CategoryFilter → List CategoryFilter
store_filter f [] = []
store_filter f (g ∷ gs) = (if g.id == f.id then f else g) ∷ store_filter f gs

module _ (ilike : Text → Text → Bool) where
  -- `create_category_filter`; the id of the new row is the database's.
  unfoldable pub create_category_filter :
      Uuid → FilterData → Db → Result FilterError (CategoryFilter × Db)
  unfolding validate_filter_input bounds_crossed
  create_category_filter new_id input db = do
    validate_filter_input input db
    raise_if (any (λ (f : CategoryFilter). str_eq f.name input.name) db.filters) name_taken
    raise_if (bounds_crossed input.min_amount input.max_amount) integrity_error
    let f = filter_row new_id input
    ok (f, apply_all_category_filters ilike false (record db { filters = db.filters ++ f ∷ [] }))

  -- `update_category_filter`
  unfoldable pub update_category_filter :
      CategoryFilter → FilterData → Db → Result FilterError (CategoryFilter × Db)
  unfolding validate_filter_input bounds_crossed store_filter
  update_category_filter f input db = do
    validate_filter_input input db
    raise_if
        (any (λ (g : CategoryFilter). str_eq g.name input.name && not (g.id == f.id)) db.filters)
        name_taken
    raise_if (bounds_crossed input.min_amount input.max_amount) integrity_error
    let f' = filter_row f.id input
    ok (
      f',
      apply_all_category_filters ilike false (record db { filters = store_filter f' db.filters }),
    )

-- `delete_category_filter`
unfoldable pub delete_category_filter : CategoryFilter → Db → Db
delete_category_filter f db = record db {
  hits = filter (λ (h : Hit). not (h.filter_id == f.id)) db.hits;
  filters = filter (λ (g : CategoryFilter). not (g.id == f.id)) db.filters;
}
