-- ===== src/Auth/Session.antt =====
-- The sessions of app/services/auth_service.py: `refresh_session`, `authenticate_access_token`,
-- `create_user_session`, `logout_user`, `authenticate_user` and `execute_password_reset`. A time is a
-- number of microseconds. The digest and the password check of app/core/security.py, the database's
-- `lower`, the decoding of a signed token, the settings, the clock and the random secrets are
-- arguments. A rejection may end a session, so every operation returns its result and the database.
use vb_api.Prelude.{
  ℕ, ◌+◌, Uuid, Text, Bool, true, false, not, ◌&&◌, Option, none, some, List, [], ◌∷◌, filter, find,
  ltb, text_eq, ◌==◌, if◌then◌else◌, Result, ok, err,
}

-- The columns of `AuthSession`; a `jti` is only compared.
pub record AuthSession : Type 0 where
  pub jti : Uuid
  pub member_id : Uuid
  pub refresh_token_hash : Option Text
  pub last_used_at : ℕ
  pub created_at : ℕ

-- The columns of `Member` that the authentication uses.
pub record AuthMember : Type 0 where
  pub id : Uuid
  pub email : Option Text
  pub auth_password : Option Text
  pub auth_locked : Bool
  pub email_verified_at : Option ℕ
  pub auth_lastlogin : Option ℕ
  pub auth_lastsignal : Option ℕ
  pub auth_lastlogout : Option ℕ

-- `PasswordResetToken`
pub record ResetToken : Type 0 where
  pub id : Uuid
  pub member_id : Uuid
  pub token_hash : Text
  pub created_at : ℕ

pub record AuthDb : Type 0 where
  pub sessions : List AuthSession
  pub members : List AuthMember
  pub resets : List ResetToken

-- The claims `sub` and `jti` of an access token.
pub record AccessToken : Type 0 where
  pub subject : Text
  pub token_jti : Uuid

-- The rejections, by their messages.
pub data AuthError : Type 0 where
  no_session token_reuse session_idle session_expired locked_or_deleted no_email : AuthError
  credentials_invalid account_locked reset_invalid reset_expired : AuthError

abbrev pub Outcome : Type 0 → Type 0
Outcome A = Result AuthError A × AuthDb

-- The truth value of an optional text.
abbrev pub is_given : Option Text → Bool
is_given none = false
is_given (some []) = false
is_given (some (_ ∷ _)) = true

abbrev pub holds_text : Option Text → Text → Bool
holds_text none t = false
holds_text (some s) t = text_eq s t

abbrev pub text_of : Option Text → Text
text_of none = []
text_of (some t) = t

unfoldable pub find_session : Uuid → List AuthSession → Option AuthSession
find_session jti sessions = find (λ (s : AuthSession). s.jti == jti) sessions

unfoldable pub find_member : Uuid → List AuthMember → Option AuthMember
find_member u members = find (λ (m : AuthMember). m.id == u) members

-- `db.delete(session)`, with its commit.
unfoldable pub end_session : Uuid → AuthDb → AuthDb
end_session jti db = record db {
  sessions = filter (λ (s : AuthSession). not (s.jti == jti)) db.sessions;
}

-- The row in place of the one with its `jti`.
unfoldable pub store_session : AuthSession → List AuthSession → List AuthSession
store_session s [] = []
store_session s (t ∷ ts) = (if t.jti == s.jti then s else t) ∷ store_session s ts

unfoldable pub store_member : AuthMember → List AuthMember → List AuthMember
store_member m [] = []
store_member m (n ∷ ns) = (if n.id == m.id then m else n) ∷ store_member m ns

-- `session.refresh_token_hash` and `verify_refresh_secret`; an empty hash is none.
unfoldable pub secret_matches : (Text → Text) → AuthSession → Text → Bool
secret_matches digest s secret =
    is_given s.refresh_token_hash && holds_text s.refresh_token_hash (digest secret)

-- `_is_idle`
unfoldable pub is_idle : ℕ → AuthSession → ℕ → Bool
is_idle idle_timeout s now = ltb (s.last_used_at + idle_timeout) now

module _ (digest : Text → Text) (idle_timeout lifetime : ℕ) where
  -- `_validate_refresh_token`, `_validate_session_expiry` and the checks of the member, in turn:
  -- the reason to end the session, if there is one.
  unfoldable pub refusal : AuthSession → Text → ℕ → Option AuthMember → Option AuthError
  unfolding secret_matches is_idle
  refusal s secret now none =
      if not (secret_matches digest s secret)
      then some token_reuse
      else if is_idle idle_timeout s now
      then some session_idle
      else if ltb (s.created_at + lifetime) now
      then some session_expired
      else some locked_or_deleted
  refusal s secret now (some m) =
      if not (secret_matches digest s secret)
      then some token_reuse
      else if is_idle idle_timeout s now
      then some session_idle
      else if ltb (s.created_at + lifetime) now
      then some session_expired
      else if m.auth_locked
      then some locked_or_deleted
      else if not (is_given m.email)
      then some no_email
      else none

  -- The writes of `refresh_session`, and what it returns: the access token, the session's id and the
  -- new secret.
  unfoldable pub rotate :
      AuthSession → AuthMember → ℕ → Text → AuthDb → Outcome (AccessToken × Uuid × Text)
  unfolding store_session store_member
  rotate s m now new_secret db = (
    ok (record { subject = text_of m.email; token_jti = s.jti }, s.jti, new_secret),
    record db {
      sessions =
          store_session
            (record s { refresh_token_hash = some (digest new_secret); last_used_at = now })
            db.sessions;
      members = store_member (record m { auth_lastsignal = some now }) db.members;
    },
  )

  abbrev pub rotate_or_end :
      AuthSession
      → Option AuthMember
      → Option AuthError
      → ℕ
      → Text
      → AuthDb
      → Outcome (AccessToken × Uuid × Text)
  rotate_or_end s m (some e) now new_secret db = (err e, end_session s.jti db)
  rotate_or_end s none none now new_secret db = (err locked_or_deleted, end_session s.jti db)
  rotate_or_end s (some m) none now new_secret db = rotate s m now new_secret db

  -- `refresh_session`
  unfoldable pub refresh_session :
      Uuid → Text → ℕ → Text → AuthDb → Outcome (AccessToken × Uuid × Text)
  unfolding find_session find_member refusal
  refresh_session session_id secret now new_secret db = elim (find_session session_id db.sessions) [
    | none ↦ (err no_session, db)
    | some s ↦
        let m = find_member s.member_id db.members in
        rotate_or_end s m (refusal s secret now m) now new_secret db
  ]
