-- ===== src/Auth/Login.antt =====
-- A session that was just made can be refreshed: the two operations agree on the secret.
use vb_api.Prelude.{
  ℕ, ◌+◌, ◌≤◌, ◌≡◌, refl, ap, ◌∙◌, Uuid, Text, true, false, none, some, List, [], ◌∷◌, ◌++◌,
  text_eq_self, ok, arith,
}
use vb_api.Auth.Session.{
  AuthSession, AuthMember, AuthDb, AccessToken, Outcome, is_given, text_of, find_session,
  find_member, store_member, secret_matches, is_idle, refusal, rotate, rotate_or_end,
  refresh_session,
}
use vb_api.Auth.Access.{create_user_session}
use vb_api.Auth.Exchange.{refresh_session-some}

find_session-snoc :
    (sessions : List AuthSession) (s : AuthSession)
    → find_session s.jti sessions ≡ none
    → find_session s.jti (sessions ++ s ∷ []) ≡ some s
unfolding find_session
find_session-snoc [] s h = ground arith
find_session-snoc (t ∷ ts) s h = ground (arith, find_session-snoc ts s)

find_member-store :
    (ms : List AuthMember) (m m' : AuthMember)
    → find_member m.id ms ≡ some m
    → m'.id ≡ m.id
    → find_member m.id (store_member m' ms) ≡ some m'
unfolding find_member store_member
find_member-store [] m m' h e = cc
find_member-store (n ∷ ns) m m' h e = ground (arith, find_member-store ns m m')

module _ (digest : Text → Text) (idle_timeout lifetime : ℕ) where
  abbrev fresh_session : AuthMember → Uuid → Text → ℕ → AuthSession
  fresh_session m jti secret now = record {
    jti = jti;
    member_id = m.id;
    refresh_token_hash = some (digest secret);
    last_used_at = now;
    created_at = now;
  }

  refusal-fresh :
      (m : AuthMember) (jti : Uuid) (secret : Text) (now later : ℕ)
      → m.auth_locked ≡ false
      → is_given m.email ≡ true
      → is_given (some (digest secret)) ≡ true
      → later ≤ now + idle_timeout
      → later ≤ now + lifetime
      → refusal digest idle_timeout lifetime
          (fresh_session m jti secret now)
          secret
          later
          (some (record m { auth_lastlogin = some now }))
        ≡ none
  unfolding refusal secret_matches is_idle
  refusal-fresh m jti secret now later a b c d e = ground (arith, text_eq_self (digest secret))

  -- After a login the session's secret can be exchanged, once the new id is one that no session has:
  -- within the idle timeout and the lifetime, for a member that is not locked and has an address, the
  -- refresh is accepted, for the same address and the same session. (The digest is not empty.)
  pub create_user_session-refresh_session :
      (m : AuthMember) (jti : Uuid) (secret : Text) (now later : ℕ) (new_secret : Text)
      (db : AuthDb)
      → find_session jti db.sessions ≡ none
      → find_member m.id db.members ≡ some m
      → m.auth_locked ≡ false
      → is_given m.email ≡ true
      → is_given (some (digest secret)) ≡ true
      → later ≤ now + idle_timeout
      → later ≤ now + lifetime
      → (refresh_session digest idle_timeout lifetime jti secret later new_secret
          (create_user_session digest m jti secret now db).1).0
        ≡ ok (record { subject = text_of m.email; token_jti = jti }, jti, new_secret)
  unfolding create_user_session rotate
  create_user_session-refresh_session m jti secret now later new_secret db fresh found a b c d e =
      let s = fresh_session m jti secret now in
      let m' : AuthMember = record m { auth_lastlogin = some now } in
      let db' : AuthDb = record db {
        sessions = db.sessions ++ s ∷ [];
        members = store_member m' db.members;
      } in
      let checked =
        ap (λ o. refusal digest idle_timeout lifetime s secret later o)
          (find_member-store db.members m m' found refl)
        ∙ refusal-fresh m jti secret now later a b c d e in
      rw b (
        ap (λ (p : Outcome (AccessToken × Uuid × Text)). p.0)
          (refresh_session-some digest idle_timeout lifetime jti secret later new_secret db' s
              (find_session-snoc db.sessions s fresh)
            ∙ ap
                (λ r.
                  rotate_or_end digest idle_timeout lifetime s (find_member m.id db'.members) r
                    later new_secret db')
                checked
            ∙ ap (λ o. rotate_or_end digest idle_timeout lifetime s o none later new_secret db')
                (find_member-store db.members m m' found refl)))
