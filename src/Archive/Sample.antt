-- ===== src/Archive/Sample.antt =====
-- A small archive for the tests: 1 "Archiv" is recursive and open to vbw_up, 2 lies below it, 3
-- below 2 is in the trash, and 4 lies below 3. Two files share a stored content, one is unfiled.
use vb_api.Prelude.{
  refl, ℕ, Uuid, Text, Bool, true, false, Option, none, some, List, [], ◌∷◌, Result, ok, err,
}
use vb_api.Archive.Store.{
  Grant, ArchiveDir, ArchiveStoreItem, ArchiveFile, ArchiveDb, ArchiveUser, ArchiveError,
}
use vb_api.Forest.{top, up}
use vb_api.Archive.Dirs.{DirData}
use vb_api.Archive.Dirs.Forests.{IsForest}
use vb_api.Archive.Requests.{DirSaveRequest}
use vb_api.Archive.Search.{Matcher}

abbrev pub vbw : Text
vbw = b'v' ∷ b'b' ∷ b'w' ∷ []

abbrev pub up_state : Text
up_state = b'u' ∷ b'p' ∷ []

abbrev pub vbw_up : Text
vbw_up = b'v' ∷ b'b' ∷ b'w' ∷ b'_' ∷ b'u' ∷ b'p' ∷ []

abbrev pub dir : Uuid → Option Uuid → Option Bool → Option ℕ → List Grant → ArchiveDir
dir id parent recursive deleted grants = record {
  id = id;
  name = b'D' ∷ b'i' ∷ b'r' ∷ [];
  description = none;
  archive_dir_id = parent;
  recursive_permissions = recursive;
  created_at = 1;
  updated_at = none;
  deleted_at = deleted;
  archive_permissions = grants;
}

abbrev pub open_grant : Grant
open_grant = record { org_id = vbw; state_id = up_state }

abbrev pub sample_dirs : List ArchiveDir
sample_dirs =
    dir 1 none (some true) none (open_grant ∷ [])
    ∷ dir 2 (some 1) (some false) none []
    ∷ dir 3 (some 2) none (some 5) []
    ∷ dir 4 (some 3) none none []
    ∷ []

abbrev pub item : Uuid → Text → ArchiveStoreItem
item id hash = record {
  id = id;
  name = b'S' ∷ [];
  description = none;
  extension = b'p' ∷ b'd' ∷ b'f' ∷ [];
  mime_type = [];
  size = 3000;
  sha256_hash = hash;
  created_by = some 90;
  created_at = 1;
}

abbrev pub file : Uuid → Option Uuid → Uuid → ArchiveFile
file id parent item_id = record {
  id = id;
  archive_dir_id = parent;
  description = none;
  archive_store_item_id = item_id;
  created_at = 1;
  deleted_at = none;
}

abbrev pub shared_file : ArchiveFile
shared_file = file 10 (some 2) 20

abbrev pub own_upload : ArchiveFile
own_upload = file 11 none 21

abbrev pub sample : ArchiveDb
sample = record {
  dirs = sample_dirs;
  files = shared_file ∷ own_upload ∷ file 12 (some 4) 20 ∷ [];
  items = item 20 (b'h' ∷ []) ∷ item 21 (b'k' ∷ []) ∷ [];
  comments = [];
  sets = record { orgs = vbw ∷ []; states = up_state ∷ [] };
}

abbrev pub reader : ArchiveUser
reader = record { id = 90; org_id = some vbw; state_id = some up_state; permissions = [] }

abbrev pub archivist : ArchiveUser
archivist = record {
  id = 91;
  org_id = some vbw;
  state_id = none;
  permissions = "archiveAdmin" ∷ [];
}

abbrev pub sample_forest : IsForest sample_dirs
sample_forest = (
  ([], top),
  (
    (1 ∷ [], up refl top),
    ((2 ∷ 1 ∷ [], up refl (up refl top)), ((3 ∷ 2 ∷ 1 ∷ [], up refl (up refl (up refl top))), tt)),
  ),
)

abbrev pub body : DirSaveRequest
body = record {
  name = b' ' ∷ b'A' ∷ b'k' ∷ b't' ∷ b'e' ∷ b'n' ∷ b' ' ∷ [];
  description = none;
  permissions = vbw_up ∷ vbw_up ∷ [];
  recursive_permissions = true;
  parent_id = some 2;
}

abbrev pub input : DirData
input = record {
  name = b'A' ∷ b'k' ∷ b't' ∷ b'e' ∷ b'n' ∷ [];
  description = none;
  permissions = vbw_up ∷ [];
  recursive_permissions = true;
  parent_id = some 2;
}

-- Every row matches.
abbrev pub any_row : Matcher
any_row = record {
  dir_matches = λ d. true;
  dir_rank = λ (d : ArchiveDir). d.id;
  file_matches = λ f. true;
  file_rank = λ (f : ArchiveFile). f.id;
}

-- The value of a call that returns.
abbrev pub value_or {ℓ} : {A : Type ℓ} → A → Result ArchiveError A → A
value_or a (ok b) = b
value_or a (err e) = a
