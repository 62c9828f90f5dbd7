-- ===== src/Archive/Requests/Laws.antt =====
-- What the validators of a directory's body guarantee.
use mathlib.Core.Path.{subst}
use vb_api.Prelude.{
  ◌≡◌, refl, ap, sym, ◌∙◌, Text, Bool, true, false, ◌&&◌, ◌||◌, Option, none, some, List, [], ◌∷◌,
  ◌++◌, all, contains, arith, Bool-cases, inl, inr, text_eq, text_eq→eq, text_eq_self,
}
use vb_api.Archive.Permissions.{has_text}
use vb_api.Archive.Dirs.{DirData, fits_128}
use vb_api.Archive.Requests.{
  DirSaveRequest, is_perm, unique_onto, is_outside, validate_name, validate_permissions,
  validate_description, dir_data, validate_dir_save,
}

-- No text stands twice in the list.
abbrev pub Unique : List Text → Type 0
Unique [] = Unit
Unique (p ∷ ps) = (has_text p ps ≡ false) × Unique ps

pub is_perm-contains : (p : Text) → is_perm p ≡ true → contains b'_' p ≡ true
unfolding is_perm
is_perm-contains (a ∷ b ∷ c ∷ u ∷ d ∷ e ∷ []) h = ground arith
is_perm-contains _ h = cc

pub has_text-snoc :
    (t p : Text) (ps : List Text) → has_text t (ps ++ p ∷ []) ≡ (has_text t ps || text_eq p t)
has_text-snoc t p [] = ground arith
has_text-snoc t p (q ∷ ps) = ground (arith, has_text-snoc t p ps)

pub text_eq_sym : (s t : Text) → text_eq s t ≡ text_eq t s
text_eq_sym s t = elim (Bool-cases (text_eq s t)) [
  | inl same ↦ ground (arith, same, ap (λ u. text_eq t u) (text_eq→eq s t same), text_eq_self t)
  | inr other ↦ elim (Bool-cases (text_eq t s)) [
    | inl same ↦ ground (arith, other, ap (λ u. text_eq s u) (text_eq→eq t s same), text_eq_self s)
    | inr other' ↦ other ∙ sym other'
  ]
]

Unique-snoc :
    (p : Text) (ps : List Text) → Unique ps → has_text p ps ≡ false → Unique (ps ++ p ∷ [])
Unique-snoc p [] u fresh = (refl, tt)
Unique-snoc p (q ∷ ps) u fresh = (
  ground (arith, u.0, fresh, has_text-snoc q p ps, text_eq_sym p q),
  Unique-snoc p ps u.1 (ground (arith, fresh)),
)

all-snoc :
    (test : Text → Bool) (p : Text) (ps : List Text)
    → all test (ps ++ p ∷ []) ≡ (all test ps && test p)
all-snoc test p [] = ground arith
all-snoc test p (q ∷ ps) = ground (arith, all-snoc test p ps)

unique_onto_lem :
    (result ps : List Text)
    → Unique result
    → all is_perm result ≡ true
    → all is_perm ps ≡ true
    → Unique (unique_onto result ps) × (all is_perm (unique_onto result ps) ≡ true)
unfolding unique_onto
unique_onto_lem result [] u formed rest = (u, formed)
unique_onto_lem result (p ∷ ps) u formed rest = elim (Bool-cases (has_text p result)) [
  | inl again ↦ rw again (unique_onto_lem result ps u formed (ground (arith, rest)))
  | inr fresh ↦ rw fresh (
      unique_onto_lem (result ++ p ∷ []) ps (Unique-snoc p result u fresh)
        (all-snoc is_perm p result ∙ ground (arith, formed, rest)) (ground (arith, rest)))
]

dir_data_ok :
    (body : DirSaveRequest) (n : Option Text) (d : Option (Option Text)) (p : Option (List Text))
    (input : DirData)
    → dir_data body n d p ≡ some input
    → (n ≡ some input.name) × (d ≡ some input.description) × (p ≡ some input.permissions)
dir_data_ok body none d p input h = cc
dir_data_ok body (some n) none p input h = cc
dir_data_ok body (some n) (some d) none input h = cc
dir_data_ok body (some n) (some d) (some p) input h = (cc, cc, cc)

validate_name_ok : (v n : Text) → validate_name v ≡ some n → is_outside 3 64 n ≡ false
unfolding validate_name
validate_name_ok v n h = ground arith

validate_description_ok : (v d : Option Text) → validate_description v ≡ some d → fits_128 d ≡ true
unfolding validate_description
validate_description_ok v d h = ground arith

validate_permissions_ok :
    (v ps : List Text) → validate_permissions v ≡ some ps → Unique ps × (all is_perm ps ≡ true)
unfolding validate_permissions
validate_permissions_ok v ps h = elim (Bool-cases (all is_perm v)) [
  | inl formed ↦
      let result : unique_onto [] v ≡ ps = ground (arith, formed, h) in
      subst (λ qs. Unique qs × (all is_perm qs ≡ true)) result (unique_onto_lem [] v tt refl formed)
  | inr malformed ↦ absurd (ground (arith, malformed, h))
]

-- What a directory's body holds that the validators let through.
pub validate_dir_save_ok :
    (body : DirSaveRequest) (input : DirData)
    → validate_dir_save body ≡ some input
    → (is_outside 3 64 input.name ≡ false)
      × (fits_128 input.description ≡ true)
      × (all is_perm input.permissions ≡ true)
      × Unique input.permissions
unfolding validate_dir_save
validate_dir_save_ok body input h =
    let (n, d, p) =
      dir_data_ok body (validate_name body.name) (validate_description body.description)
        (validate_permissions body.permissions) input h in
    let perms = validate_permissions_ok body.permissions input.permissions p in
    (
      validate_name_ok body.name input.name n,
      validate_description_ok body.description input.description d,
      perms.1,
      perms.0,
    )
