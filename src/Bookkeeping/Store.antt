-- ===== src/Bookkeeping/Store.antt =====
-- The tables of the bookkeeping (app/models/p4x_*.py) and the columns of members and contacts that
-- it reads. A row's `id` is a uuid, a number here, since ids are only compared. An amount is a
-- number of cents (`Numeric(12, 2)`). A name that is only compared is a `String`, a text that is
-- taken apart a list of code points. `created_at` and `updated_at` are only written, and left out.
use Prim.Native.String.{String}
use vb_api.Prelude.{ℕ, Uuid, Text, Bool, Option, List, is_none, filter, map}
use vb_api.Prelude.Int.{ℤ}
use vb_api.Calendar.{Date}

-- `SubjectMode`
pub data SubjectMode : Type 0 where
  contains equals starts : SubjectMode

-- A point in time of the column type `TIMESTAMPTZ`.
abbrev pub Instant : Type 0
Instant = ℕ

-- `P4xTransaction`
pub record Transaction : Type 0 where
  pub id : Uuid
  pub booking : Date
  pub iban : Text
  pub amount : ℤ
  pub subject : Text
  pub account_id : Uuid
  pub delegating_member_id : Option Uuid
  pub delegating_contact_id : Option Uuid
  pub delegating_account_id : Option Uuid
  pub delegating_special_contact_id : Option Uuid
  pub comment : Option Text
  pub attachment : Option Text
  pub deleted_at : Option Instant

-- `P4xPartner`
pub record Partner : Type 0 where
  pub iban : Option Text
  pub member_id : Option Uuid
  pub contact_id : Option Uuid
  pub account_id : Option Uuid
  pub special_contact_id : Option Uuid
  pub deleted_at : Option Instant

-- `P4xCategory`
pub record Category : Type 0 where
  pub id : Uuid
  pub name : String
  pub label : String
  pub background_color : String
  pub text_color : String
  pub is_protected : Bool

-- `P4xCategoryDirect`
pub record Direct : Type 0 where
  pub transaction_id : Uuid
  pub category_id : Uuid
  pub amount : ℤ
  pub deleted_at : Option Instant

-- `P4xCategoryFilter`
pub record CategoryFilter : Type 0 where
  pub id : Uuid
  pub name : String
  pub account_id : Uuid
  pub iban : Option Text
  pub min_amount : Option ℤ
  pub max_amount : Option ℤ
  pub subject_mode : SubjectMode
  pub subject : Option Text
  pub category_id : Uuid

-- `P4xCategoryFilterHit`
pub record Hit : Type 0 where
  pub transaction_id : Uuid
  pub filter_id : Uuid

-- `P4xAccount`
pub record Account : Type 0 where
  pub id : Uuid
  pub iban : Text
  pub bic : Option Text
  pub label : Option Text
  pub init_date : Option Date
  pub init_balance : ℤ
  pub deleted_at : Option Instant

-- `P4xFee`
pub record Fee : Type 0 where
  pub start : Date
  pub fee : ℤ
  pub is_protected : Bool

-- The columns of `Member` that the bookkeeping reads.
pub record Member : Type 0 where
  pub id : Uuid
  pub org_id : Option String
  pub state_id : Option String
  pub entlassen : Bool
  pub verstorben : Bool
  pub philistrierungsdatum : Option Date
  pub p4x_init_date : Option Date
  pub p4x_init_balance : Option ℤ
  pub p4x_freed : Option Bool
  pub p4x_comment : Option Text

-- What a session sees of the database. Contacts and special contacts are only looked up by id.
pub record Db : Type 0 where
  pub transactions : List Transaction
  pub partners : List Partner
  pub categories : List Category
  pub directs : List Direct
  pub filters : List CategoryFilter
  pub hits : List Hit
  pub accounts : List Account
  pub fees : List Fee
  pub members : List Member
  pub contact_ids : List Uuid
  pub special_contact_ids : List Uuid

-- `deleted_at.is_(None)`
abbrev pub is_live_transaction : Transaction → Bool
is_live_transaction t = is_none t.deleted_at

abbrev pub is_live_direct : Direct → Bool
is_live_direct d = is_none d.deleted_at

-- The ids of the transactions with a direct assignment that is not deleted (`tx_with_directs`).
-- The queries return a set; only membership is asked of it.
abbrev pub tx_with_directs : Db → List Uuid
tx_with_directs db = map (λ (d : Direct). d.transaction_id) (filter is_live_direct db.directs)
