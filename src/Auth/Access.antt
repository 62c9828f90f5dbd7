-- ===== src/Auth/Access.antt =====
-- The other operations on sessions of app/services/auth_service.py: login, the check of an access
-- token, logout and the reset of a password.
use vb_api.Prelude.{
  ℕ, ◌+◌, Uuid, Text, Bool, false, not, ◌&&◌, ◌||◌, Option, none, some, List, [], ◌∷◌, ◌++◌, filter,
  find, ltb, text_eq, ◌==◌, if◌then◌else◌, ok, err, Result,
}
use vb_api.Auth.Session.{
  AuthSession, AuthMember, ResetToken, AuthDb, AccessToken, AuthError, Outcome, is_given,
  holds_text, credentials_invalid, account_locked, session_idle, no_email, reset_invalid,
  reset_expired, find_session, end_session, store_session, store_member, is_idle, text_of,
}

pub data LoginReason : Type 0 where
  accepted unknown_email locked wrong_password : LoginReason

-- `func.lower(Member.email) == func.lower(email)`
unfoldable pub find_by_email : (Text → Text) → Text → List AuthMember → Option AuthMember
find_by_email lower email ms =
    find
      (λ (m : AuthMember). elim m.email [ none ↦ false | some e ↦ text_eq (lower e) (lower email) ])
      ms

abbrev hash_or : Text → Option Text → Text
hash_or dummy none = dummy
hash_or dummy (some []) = dummy
hash_or dummy (some (c ∷ s)) = c ∷ s

-- `authenticate_user`; `verify` is the comparison of a password with a stored hash, or with the
-- dummy hash where the member has none.
unfoldable pub authenticate_user :
    (Text → Text)
    → (Text → Text → Bool)
    → Text
    → Text
    → Text
    → AuthDb
    → Option AuthMember × LoginReason
unfolding find_by_email
authenticate_user lower verify dummy email password db =
    elim (find_by_email lower email db.members) [
      | none ↦ (none, unknown_email)
      | some m ↦
          let password_ok = verify password (hash_or dummy m.auth_password) in
          if m.auth_locked
          then (none, locked)
          else if not (is_given m.auth_password) || not password_ok
          then (none, wrong_password)
          else (some m, accepted)
    ]

-- `create_user_session`: the id of the session and its secret are random.
unfoldable pub create_user_session :
    (Text → Text) → AuthMember → Uuid → Text → ℕ → AuthDb → Outcome (AccessToken × Uuid × Text)
unfolding store_member
create_user_session digest m jti secret now db =
    if not (is_given m.email) then (err no_email, db) else (
      ok (record { subject = text_of m.email; token_jti = jti }, jti, secret),
      record db {
        sessions =
            db.sessions
            ++ record {
              jti = jti;
              member_id = m.id;
              refresh_token_hash = some (digest secret);
              last_used_at = now;
              created_at = now;
            }
              ∷ [];
        members = store_member (record m { auth_lastlogin = some now }) db.members;
      },
    )

abbrev signal : ℕ → AuthMember → AuthMember
signal now m = record m { auth_lastsignal = some now }

-- The update of one member by id.
unfoldable pub update_member : (AuthMember → AuthMember) → Uuid → List AuthMember → List AuthMember
update_member f u [] = []
update_member f u (m ∷ ms) = (if m.id == u then f m else m) ∷ update_member f u ms

module _ (idle_timeout touch_interval : ℕ) where
  -- The stamp of `_touch_session`, for a session that is not idle.
  unfoldable pub touch : AuthSession → ℕ → AuthDb → AuthDb
  unfolding store_session update_member
  touch s now db =
      if ltb (s.last_used_at + touch_interval) now
      then record db {
        sessions = store_session (record s { last_used_at = now }) db.sessions;
        members = update_member (signal now) s.member_id db.members;
      }
      else db

  -- The checks of the member behind the address of the token.
  abbrev pub member_of : AuthSession → Option AuthMember → Result AuthError AuthMember
  member_of s none = err credentials_invalid
  member_of s (some m) =
      if not (m.id == s.member_id)
      then err credentials_invalid
      else if m.auth_locked
      then err account_locked
      else ok m

  -- The checks once the session is looked up.
  abbrev pub check_session : AccessToken → Option AuthSession → ℕ → AuthDb → Outcome AuthMember
  check_session t none now db = (err credentials_invalid, db)
  check_session t (some s) now db =
      if is_idle idle_timeout s now then (err session_idle, end_session s.jti db) else (
        member_of s
            (find (λ (m : AuthMember). holds_text m.email t.subject) (touch s now db).members),
        touch s now db,
      )

  -- `authenticate_access_token`, of the claims that were decoded: `none` where that failed.
  unfoldable pub authenticate_access_token : Option AccessToken → ℕ → AuthDb → Outcome AuthMember
  unfolding find_session touch is_idle
  authenticate_access_token none now db = (err credentials_invalid, db)
  authenticate_access_token (some t) now db =
      check_session t (find_session t.token_jti db.sessions) now db

-- The end of the session that is found.
abbrev pub logout_of : Option AuthSession → ℕ → AuthDb → AuthDb
logout_of none now db = db
logout_of (some s) now db = end_session s.jti (record db {
  members = update_member (λ m. record m { auth_lastlogout = some now }) s.member_id db.members;
})

-- `logout_user`, of the `jti` of a token whose expiry is not checked.
unfoldable pub logout_user : Option Uuid → ℕ → AuthDb → AuthDb
unfolding find_session update_member end_session
logout_user none now db = db
logout_user (some jti) now db = logout_of (find_session jti db.sessions) now db

-- Twenty minutes, in microseconds.
abbrev pub reset_lifetime : ℕ
reset_lifetime = 1200000000

abbrev pub without_reset : ResetToken → AuthDb → AuthDb
without_reset r db = record db {
  resets = filter (λ (q : ResetToken). not (q.id == r.id)) db.resets;
}

-- The row of a member and a token.
unfoldable pub find_reset : (Text → Text) → Uuid → Text → AuthDb → Option ResetToken
find_reset digest u token db =
    find (λ (r : ResetToken). r.member_id == u && text_eq r.token_hash (digest token)) db.resets

-- The reset once the token of a member is looked up.
abbrev pub reset_of : AuthMember → Text → ℕ → Option ResetToken → AuthDb → Outcome (Unit {0})
reset_of m new_hash now none db = (err reset_invalid, db)
reset_of m new_hash now (some r) db =
    if ltb (r.created_at + reset_lifetime) now then (err reset_expired, without_reset r db) else (
      ok tt,
      without_reset r (record db {
        members =
            update_member
              (λ n. record n { auth_password = some new_hash; email_verified_at = some now }) m.id
              db.members;
        sessions = filter (λ (s : AuthSession). not (s.member_id == m.id)) db.sessions;
      }),
    )

-- The reset once the member is looked up.
abbrev pub reset_for :
    (Text → Text) → Option AuthMember → Text → Text → ℕ → AuthDb → Outcome (Unit {0})
reset_for digest none token new_hash now db = (err reset_invalid, db)
reset_for digest (some m) token new_hash now db =
    reset_of m new_hash now (find_reset digest m.id token db) db

-- `execute_password_reset`, with the hash of the new password.
unfoldable pub execute_password_reset :
    (Text → Text) → (Text → Text) → Text → Text → Text → ℕ → AuthDb → Outcome (Unit {0})
unfolding find_by_email find_reset update_member
execute_password_reset lower digest email token new_hash now db =
    reset_for digest (find_by_email lower email db.members) token new_hash now db
