-- ===== src/Bookkeeping/RequestTests.antt =====
-- Runs of the requests that change filters and categories, on the sample rows.
use vb_api.Prelude.{
  ◌≡◌, ◌↔◌, refl, Uuid, true, false, none, some, [], ◌∷◌, ◌++◌, map, arith, text_eq, ◌==◌, any,
  is_none, false, not, ◌&&◌, find, if◌then◌else◌, ok, err,
}
use vb_api.Prelude.Int.{pos}
use vb_api.Bookkeeping.Store.{SubjectMode, Category, CategoryFilter, Direct, Db}
use vb_api.Bookkeeping.Sample.{donations, rent, old_rent, any_income, dues, rows, book}
use vb_api.Text.{escape_like}
use vb_api.Bookkeeping.Hits.{apply_all_category_filters}
use vb_api.Bookkeeping.Hits.Expected.{IsFresh, count_hit}
use vb_api.Bookkeeping.Hits.Rebuild.{apply_all_category_filters-IsFresh}
use vb_api.Bookkeeping.Categories.{
  CategoryData, name_taken, integrity_error, create_category, store_category, update_category,
  delete_category,
}
use vb_api.Bookkeeping.Categories.Laws.{delete_category-integrity_error}
use vb_api.Bookkeeping.Filters.{
  FilterData, no_criterion, filter_row, store_filter, create_category_filter,
  update_category_filter, delete_category_filter,
}
use vb_api.Bookkeeping.Filters.Laws.{delete_category_filter-IsFresh}
use vb_api.Text.Like.{pieces, prepend, literal, pieces-escape_like}

abbrev large_income : FilterData
large_income = record {
  name = "large income";
  account_id = 1;
  iban = some (b'a' ∷ b' ' ∷ []);
  min_amount = some (pos 400);
  max_amount = none;
  subject = none;
  subject_mode = SubjectMode.contains;
  category_id = 4;
}

abbrev with_large_income : Db
with_large_income =
    apply_all_category_filters text_eq false
      (record book { filters = book.filters ++ filter_row 9 large_income ∷ [] })

no_criterion_refused :
    create_category_filter text_eq 9
      (record large_income { iban = some []; min_amount = none })
      book
    ≡ err no_criterion
unfolding create_category_filter
no_criterion_refused = refl

abbrev with_changed_dues : Db
with_changed_dues =
    apply_all_category_filters text_eq false
      (record book { filters = store_filter (filter_row 8 large_income) book.filters })

change_accepted :
    update_category_filter text_eq dues large_income book
    ≡ ok (filter_row 8 large_income, with_changed_dues)
unfolding update_category_filter apply_all_category_filters
change_accepted = refl

delete_category_filter-IsFresh_example :
    IsFresh text_eq (delete_category_filter any_income book)
    × ((u i : Uuid)
        → count_hit u i (delete_category_filter any_income book).hits
          ≡ (if 7 == i then 0 else count_hit u i book.hits))
    × ((i : Uuid)
        → find (λ (g : CategoryFilter). g.id == i) (delete_category_filter any_income book).filters
          ≡ (if 7 == i then none else find (λ (g : CategoryFilter). g.id == i) book.filters))
    × ((delete_category_filter any_income book).transactions ≡ book.transactions)
    × ((delete_category_filter any_income book).directs ≡ book.directs)
delete_category_filter-IsFresh_example =
    delete_category_filter-IsFresh text_eq any_income book
      (apply_all_category_filters-IsFresh text_eq true rows (ground arith))

abbrev interest : CategoryData
interest = record {
  name = "eingang.zinsen";
  label = "Zinsen";
  background_color = "112233";
  text_color = "ffffff";
}

abbrev interest_row : Category
interest_row = record {
  id = 10;
  name = "eingang.zinsen";
  label = "Zinsen";
  background_color = "112233";
  text_color = "ffffff";
  is_protected = false;
}

abbrev with_interest : Db
with_interest = record rows { categories = rows.categories ++ interest_row ∷ [] }

interest_accepted : create_category 10 interest rows ≡ ok (interest_row, with_interest)
unfolding create_category
interest_accepted = refl

name_refused : create_category 10 (record interest { name = "ausgang.miete" }) rows ≡ err name_taken
unfolding create_category
name_refused = refl

abbrev renamed_rent : Category
renamed_rent = record interest_row { id = 5 }

abbrev with_renamed_rent : Db
with_renamed_rent = record rows { categories = store_category renamed_rent rows.categories }

rename_accepted : update_category rent interest rows ≡ ok (renamed_rent, with_renamed_rent)
unfolding update_category
rename_accepted = refl

-- Only a deleted assignment refers to `old_rent`.
old_rent_refused : delete_category old_rent rows ≡ err integrity_error
unfolding delete_category
old_rent_refused = refl

delete_category-integrity_error_example : (delete_category old_rent rows ≡ err integrity_error) ↔ (
    (old_rent.is_protected ≡ false)
    × (any (λ (f : CategoryFilter). f.category_id == 6) rows.filters ≡ false)
    × (any (λ (d : Direct). d.category_id == 6 && is_none d.deleted_at) rows.directs ≡ false)
    × (any (λ (d : Direct). d.category_id == 6 && not (is_none d.deleted_at)) rows.directs ≡ true))
delete_category-integrity_error_example = delete_category-integrity_error old_rent rows

abbrev without_filters : Db
without_filters = record rows { filters = [] }

abbrev without_donations : Db
without_donations = record without_filters { categories = rent ∷ old_rent ∷ [] }

donations_deleted : delete_category donations without_filters ≡ ok without_donations
unfolding delete_category
donations_deleted = refl

pieces-escape_like_example :
    pieces (escape_like (b'5' ∷ b'%' ∷ []) ++ b'%' ∷ [])
    ≡ prepend (map literal (b'5' ∷ b'%' ∷ [])) (pieces (b'%' ∷ []))
pieces-escape_like_example = pieces-escape_like (b'5' ∷ b'%' ∷ []) (b'%' ∷ [])
