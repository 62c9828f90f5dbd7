-- ===== src/Bookkeeping/Tests.antt =====
-- Runs of the bookkeeping on the sample rows.
use vb_api.Prelude.Int.{◌+ℤ◌}
use vb_api.Bookkeeping.Directs.{repeats_category}
use vb_api.Prelude.{
  false, length, ◌≡◌, refl, Uuid, true, not, ◌||◌, none, some, List, [], ◌∷◌, filter, contains,
  arith, text_eq, ◌==◌, if◌then◌else◌, ok, err,
}
use vb_api.Bookkeeping.Directs.{sum_differs}
use vb_api.Prelude.Int.{pos}
use vb_api.Bookkeeping.Store.{Hit, Db, tx_with_directs}
use vb_api.Bookkeeping.Sample.{income, expense, any_income, rows, book}
use vb_api.Bookkeeping.Criteria.{passes_filter, criteria_match}
use vb_api.Bookkeeping.Hits.{
  apply_filters, apply_filter_with_cache, matching_transactions, apply_all_category_filters,
  get_filter_hits,
}
use vb_api.Bookkeeping.Hits.Expected.{IsFresh}
use vb_api.Bookkeeping.Hits.Rebuild.{apply_all_category_filters-IsFresh}
use vb_api.Bookkeeping.Hits.Refresh.{transaction_ids}
use vb_api.Bookkeeping.Directs.{
  Slot, amounts_differ, valid_slots, is_empty, write_directs, assign_each, set_category_direct,
  unset_category_direct, filter_to_direct,
}
use vb_api.Bookkeeping.Hits.{refresh_transaction_hits}
use vb_api.Bookkeeping.Amounts.{number, text, cents, to_cents}
use vb_api.Bookkeeping.Directs.Live.{live_amount}
use vb_api.Bookkeeping.Directs.Fresh.{
  HasKeys, set_category_direct-IsFresh, unset_category_direct-IsFresh, set_category_direct_amounts,
}
use vb_api.Bookkeeping.Directs.Convert.{filter_to_direct-IsFresh}

book-hits : book.hits ≡ record { transaction_id = 1; filter_id = 7 } ∷ []
unfolding apply_all_category_filters apply_filters apply_filter_with_cache matching_transactions
    passes_filter criteria_match
book-hits = refl

apply_all_category_filters-IsFresh_example : IsFresh text_eq book
apply_all_category_filters-IsFresh_example =
    apply_all_category_filters-IsFresh text_eq true rows (ground arith)

book-IsFresh : IsFresh text_eq book
book-IsFresh = apply_all_category_filters-IsFresh text_eq true rows (ground arith)

book-HasKeys : HasKeys book
unfolding apply_all_category_filters
book-HasKeys = record { transactions = ground arith; filters = ground arith }

-- Two parts of the income, one sent as text; an empty slot is dropped.
abbrev split : List Slot
split =
    record { category_id = some 4; amount = some (number (cents (pos 450))) }
    ∷ record { category_id = none; amount = none }
    ∷ record { category_id = some 5; amount = some (text (record { digits = pos 5; places = 1 })) }
    ∷ []

abbrev split_book : Db
split_book = write_directs text_eq 9 income (valid_slots split) book

split_accepted : set_category_direct text_eq 9 income split book ≡ ok split_book
unfolding set_category_direct sum_differs valid_slots ◌+ℤ◌ repeats_category
split_accepted = refl

-- Two amounts with half a cent: twice 2.505 is the total of 5.01, and is stored as twice 2.51.
abbrev halves : List Slot
halves =
    record {
      category_id = some 4;
      amount = some (number (record { digits = pos 2505; places = 3 }));
    }
    ∷ record {
      category_id = some 5;
      amount = some (number (record { digits = pos 2505; places = 3 }));
    }
    ∷ []

halves_accepted :
    set_category_direct text_eq 9 (record income { amount = pos 501 }) halves book
    ≡ ok (write_directs text_eq 9 (record income { amount = pos 501 }) (valid_slots halves) book)
unfolding set_category_direct sum_differs valid_slots ◌+ℤ◌ repeats_category
halves_accepted = refl

halves_stored :
    live_amount 1
      (write_directs text_eq 9
        (record income { amount = pos 501 })
        (valid_slots halves)
        book).directs
    ≡ pos 502
unfolding write_directs refresh_transaction_hits valid_slots ◌+ℤ◌ to_cents
    vb_api.Bookkeeping.Directs.soft_delete_directs apply_all_category_filters
halves_stored = refl

short_refused :
    set_category_direct text_eq 9 income
      (record { category_id = some 4; amount = some (number (cents (pos 450))) } ∷ [])
      book
    ≡ err amounts_differ
unfolding set_category_direct sum_differs valid_slots ◌+ℤ◌
short_refused = refl

set_category_direct-IsFresh_example : IsFresh text_eq split_book
set_category_direct-IsFresh_example =
    set_category_direct-IsFresh text_eq 9 income split book split_book book-HasKeys book-IsFresh
      split_accepted

set_category_direct_amounts_example :
    (live_amount 1 split_book.directs ≡ (if is_empty (valid_slots split) then pos 0 else pos 500))
    × (contains 1 (tx_with_directs split_book) ≡ not (is_empty (valid_slots split)))
    × ((u : Uuid)
        → live_amount u split_book.directs
          ≡ (if 1 == u then live_amount 1 split_book.directs else live_amount u book.directs))
unfolding valid_slots
set_category_direct_amounts_example =
    set_category_direct_amounts text_eq 9 income split book split_book
      (omega arith, (omega arith, tt)) split_accepted

unset_category_direct-IsFresh_example :
    IsFresh text_eq (unset_category_direct text_eq 9 expense book)
    × ((u : Uuid)
        → contains u (tx_with_directs (unset_category_direct text_eq 9 expense book))
          ≡ (if expense.id == u then false else contains u (tx_with_directs book)))
    × ((u : Uuid)
        → live_amount u (unset_category_direct text_eq 9 expense book).directs
          ≡ (if expense.id == u then pos 0 else live_amount u book.directs))
    × (length (unset_category_direct text_eq 9 expense book).directs ≡ length book.directs)
    × ((unset_category_direct text_eq 9 expense book).transactions ≡ book.transactions)
    × ((unset_category_direct text_eq 9 expense book).filters ≡ book.filters)
unset_category_direct-IsFresh_example =
    unset_category_direct-IsFresh text_eq 9 expense book book-HasKeys book-IsFresh

abbrev converted_book : Db
converted_book =
    let db' = assign_each text_eq 9 4 (get_filter_hits book any_income) book in
    record db' { hits = filter (λ (h : Hit). not (h.filter_id == 7)) db'.hits }

conversion : filter_to_direct text_eq 9 any_income book ≡ ok converted_book
unfolding filter_to_direct apply_all_category_filters text_eq apply_filters apply_filter_with_cache
    matching_transactions passes_filter criteria_match
conversion = refl

filter_to_direct-IsFresh_example :
    IsFresh text_eq converted_book
    × ((u : Uuid)
        → (not (contains u (transaction_ids (get_filter_hits book any_income)))
            || contains u (tx_with_directs converted_book))
          ≡ true)
unfolding get_filter_hits apply_all_category_filters apply_filters apply_filter_with_cache
    matching_transactions passes_filter criteria_match
filter_to_direct-IsFresh_example =
    filter_to_direct-IsFresh text_eq 9 any_income book converted_book book-HasKeys book-IsFresh
      (ground arith) (ground arith) conversion
