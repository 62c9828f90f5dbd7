-- ===== src/Bookkeeping/Categories.antt =====
-- The category operations of app/services/p4x_category_service.py. `integrity_error` is the
-- exception of the database where a foreign key (`ON DELETE RESTRICT` of the filters and of the
-- direct assignments, deleted ones included) refuses a statement; the session is rolled back.
pub mod Laws
use Prim.Native.String.{String}
use text.Mathlib.Text.{◌==◌ as str_eq}
use vb_api.Prelude.{
  ℕ, ◌<◌, Uuid, Bool, false, not, ◌&&◌, ◌||◌, List, [], ◌∷◌, ◌++◌, filter, any, count_if, ltb, ◌==◌,
  if◌then◌else◌, Result, ok, ◌>>=◌, ◌>>◌, raise_if,
}
use vb_api.Bookkeeping.Store.{Category, CategoryFilter, Direct, Db, is_live_direct}

-- `CategorySaveRequest`
pub record CategoryData : Type 0 where
  pub name : String
  pub label : String
  pub background_color : String
  pub text_color : String

pub data CategoryError : Type 0 where
  name_taken is_protected in_use integrity_error : CategoryError

-- `get_category_usage`, its two counts.
unfoldable pub filter_count : Db → Category → ℕ
filter_count db c = count_if (λ (f : CategoryFilter). f.category_id == c.id) db.filters

unfoldable pub direct_count : Db → Category → ℕ
direct_count db c = count_if (λ (d : Direct). d.category_id == c.id && is_live_direct d) db.directs

-- `create_category`; the id of the new row is the database's.
unfoldable pub create_category : Uuid → CategoryData → Db → Result CategoryError (Category × Db)
create_category new_id input db = do
  raise_if (any (λ (c : Category). str_eq c.name input.name) db.categories) name_taken
  let c : Category = record {
    id = new_id;
    name = input.name;
    label = input.label;
    background_color = input.background_color;
    text_color = input.text_color;
    is_protected = false;
  }
  ok (c, record db { categories = db.categories ++ c ∷ [] })

-- The row `c` in place of the one with its id.
unfoldable pub store_category : Category → List Category → List Category
store_category c [] = []
store_category c (d ∷ ds) = (if d.id == c.id then c else d) ∷ store_category c ds

-- `update_category`
unfoldable pub update_category : Category → CategoryData → Db → Result CategoryError (Category × Db)
unfolding store_category
update_category c input db = do
  raise_if (any (λ (d : Category). str_eq d.name input.name && not (d.id == c.id)) db.categories)
      name_taken
  let c' = record c {
    name = input.name;
    label = input.label;
    background_color = input.background_color;
    text_color = input.text_color;
  }
  ok (c', record db { categories = store_category c' db.categories })

-- A row that refers to the category, which its foreign key does not let go.
unfoldable pub is_referenced : Db → Category → Bool
is_referenced db c =
    any (λ (f : CategoryFilter). f.category_id == c.id) db.filters
    || any (λ (d : Direct). d.category_id == c.id) db.directs

-- `delete_category`
unfoldable pub delete_category : Category → Db → Result CategoryError Db
unfolding filter_count direct_count is_referenced
delete_category c db = do
  raise_if c.is_protected is_protected
  raise_if (ltb 0 (filter_count db c) || ltb 0 (direct_count db c)) in_use
  raise_if (is_referenced db c) integrity_error
  ok (record db { categories = filter (λ (d : Category). not (d.id == c.id)) db.categories })
