-- ===== src/Bookkeeping/Sample.antt =====
-- Sample rows of the tables, small enough to follow by eye.
use Prim.Native.String.{String}
use vb_api.Prelude.{ℕ, Uuid, Text, false, Option, none, some, [], ◌∷◌, true, text_eq}
use vb_api.Prelude.Int.{ℤ, pos, negsuc}
use vb_api.Calendar.{Date}
use vb_api.Bookkeeping.Store.{
  SubjectMode, Transaction, Partner, Category, Direct, CategoryFilter, Db,
}
use vb_api.Bookkeeping.Hits.{apply_all_category_filters}

abbrev pub some_day : Date
some_day = record { year = 2024; month = 3; day = 15 }

abbrev pub transaction : Uuid → Text → ℤ → Option ℕ → Transaction
transaction i iban amount deleted = record {
  id = i;
  booking = some_day;
  iban = iban;
  amount = amount;
  subject = b'd' ∷ b'u' ∷ b'e' ∷ [];
  account_id = 1;
  delegating_member_id = none;
  delegating_contact_id = none;
  delegating_account_id = none;
  delegating_special_contact_id = none;
  comment = none;
  attachment = none;
  deleted_at = deleted;
}

abbrev pub income : Transaction
income = transaction 1 (b'A' ∷ []) (pos 500) none

abbrev pub expense : Transaction
expense = transaction 2 (b'B' ∷ []) (negsuc 299) none

abbrev pub partner : Text → Partner
partner iban = record {
  iban = some iban;
  member_id = none;
  contact_id = none;
  account_id = some 1;
  special_contact_id = none;
  deleted_at = none;
}

abbrev pub category : Uuid → String → Category
category i name = record {
  id = i;
  name = name;
  label = name;
  background_color = "000000";
  text_color = "ffffff";
  is_protected = false;
}

abbrev pub donations : Category
donations = category 4 "eingang.spende"

abbrev pub rent : Category
rent = category 5 "ausgang.miete"

abbrev pub old_rent : Category
old_rent = category 6 "ausgang.pacht"

abbrev pub direct : Uuid → Uuid → ℤ → Option ℕ → Direct
direct t c a deleted = record {
  transaction_id = t;
  category_id = c;
  amount = a;
  deleted_at = deleted;
}

abbrev pub any_income : CategoryFilter
any_income = record {
  id = 7;
  name = "income";
  account_id = 1;
  iban = none;
  min_amount = some (pos 1);
  max_amount = none;
  subject_mode = SubjectMode.equals;
  subject = none;
  category_id = 4;
}

abbrev pub dues : CategoryFilter
dues = record any_income {
  id = 8;
  name = "dues";
  min_amount = none;
  max_amount = some (negsuc 0);
  subject = some (b'd' ∷ b'u' ∷ b'e' ∷ []);
}

-- The expense is assigned to `rent`, and was once assigned to `old_rent`.
abbrev pub rows : Db
rows = record {
  transactions = income ∷ expense ∷ transaction 3 (b'C' ∷ []) (pos 9) (some 5) ∷ [];
  partners = partner (b'A' ∷ []) ∷ partner (b'B' ∷ []) ∷ [];
  categories = donations ∷ rent ∷ old_rent ∷ [];
  directs = direct 2 6 (negsuc 299) (some 5) ∷ direct 2 5 (negsuc 299) none ∷ [];
  filters = any_income ∷ dues ∷ [];
  hits = record { transaction_id = 2; filter_id = 8 } ∷ [];
  accounts =
      record {
        id = 1;
        iban = b'X' ∷ [];
        bic = none;
        label = none;
        init_date = none;
        init_balance = pos 0;
        deleted_at = none;
      }
      ∷ [];
  fees = [];
  members = [];
  contact_ids = [];
  special_contact_ids = [];
}

abbrev pub book : Db
book = apply_all_category_filters text_eq true rows
