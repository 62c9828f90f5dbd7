-- ===== src/Archive/Requests.antt =====
-- The request bodies of the archive, app/schemas/archive.py: `DirSaveRequest`, `FileUpdateRequest`
-- and `CommentCreateRequest` with their validators, where none stands for a refused body. The
-- characters are those of ASCII.
pub mod Laws
use vb_api.Prelude.{
  ℕ, Uuid, Text, Bool, true, false, not, ◌&&◌, ◌||◌, Option, none, some, List, [], ◌∷◌, ◌++◌, all,
  length, leb, ltb, ◌==◌, if◌then◌else◌,
}
use vb_api.Text.{is_blank}
use vb_api.Archive.Permissions.{has_text}
use vb_api.Archive.Dirs.{DirData, fits_128}

-- The fields of the body as they arrive.
pub record DirSaveRequest : Type 0 where
  pub name : Text
  pub description : Option Text
  pub permissions : List Text
  pub recursive_permissions : Bool
  pub parent_id : Option Uuid

-- `s.lstrip()` and `s.rstrip()`
unfoldable pub lstrip : Text → Text
lstrip [] = []
lstrip (x ∷ s) = if is_blank x then lstrip s else x ∷ s

abbrev keep_end : ℕ → Text → Text
keep_end x [] = if is_blank x then [] else x ∷ []
keep_end x (y ∷ s) = x ∷ y ∷ s

unfoldable pub rstrip : Text → Text
rstrip [] = []
rstrip (x ∷ s) = keep_end x (rstrip s)

unfoldable pub strip : Text → Text
unfolding lstrip rstrip
strip s = rstrip (lstrip s)

abbrev is_lower : ℕ → Bool
is_lower c = leb b'a' c && leb c b'z'

-- `PERM_REGEX.fullmatch(p)`
unfoldable pub is_perm : Text → Bool
is_perm (a ∷ b ∷ c ∷ u ∷ d ∷ e ∷ []) =
    (is_lower a && is_lower b && is_lower c) && u == b'_' && (is_lower d && is_lower e)
is_perm _ = false

-- The loop of `list(dict.fromkeys(v))`: each text where it first occurs.
unfoldable pub unique_onto : List Text → List Text → List Text
unique_onto result [] = result
unique_onto result (p ∷ ps) =
    unique_onto (if has_text p result then result else result ++ p ∷ []) ps

-- `len(v) < low or len(v) > high`
abbrev pub is_outside : ℕ → ℕ → Text → Bool
is_outside low high v = ltb (length v) low || ltb high (length v)

unfoldable pub validate_name : Text → Option Text
unfolding strip
validate_name v = let w = strip v in if is_outside 3 64 w then none else some w

-- `MAX_PERMISSIONS`
abbrev pub max_permissions : ℕ
max_permissions = 100

unfoldable pub validate_permissions : List Text → Option (List Text)
unfolding is_perm unique_onto
validate_permissions v =
    if leb (length v) max_permissions && all is_perm v then some (unique_onto [] v) else none

unfoldable pub validate_description : Option Text → Option (Option Text)
validate_description v = if fits_128 v then some v else none

unfoldable pub validate_content : Text → Option Text
unfolding strip
validate_content v = let w = strip v in if is_outside 5 1000 w then none else some w

-- The parts of a body once each has been validated.
abbrev pub dir_data :
    DirSaveRequest → Option Text → Option (Option Text) → Option (List Text) → Option DirData
dir_data body none d p = none
dir_data body (some n) none p = none
dir_data body (some n) (some d) none = none
dir_data body (some n) (some d) (some p) = some (record {
  name = n;
  description = d;
  permissions = p;
  recursive_permissions = body.recursive_permissions;
  parent_id = body.parent_id;
})

unfoldable pub validate_dir_save : DirSaveRequest → Option DirData
unfolding validate_name validate_description validate_permissions
validate_dir_save body =
    dir_data body (validate_name body.name) (validate_description body.description)
      (validate_permissions body.permissions)
