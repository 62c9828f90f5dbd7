-- ===== src/Auth/Exchange.antt =====
-- What an accepted refresh does to its session.
use vb_api.Prelude.{
  ℕ, ◌+◌, ◌≤◌, ◌≡◌, refl, ap, sym, ◌∙◌, Uuid, Text, true, false, not, Option, none, some, List, [],
  ◌∷◌, filter, text_eq, ◌==◌, Result, ok, err, arith, Option-cases, inl, inr,
}
use vb_api.Auth.Session.{
  AuthSession, AuthMember, AuthDb, AccessToken, AuthError, token_reuse, no_session, is_given,
  find_session, find_member, store_session, secret_matches, is_idle, refusal, rotate, rotate_or_end,
  refresh_session,
}

pub find_session-end_session :
    (jti : Uuid) (sessions : List AuthSession)
    → find_session jti (filter (λ (s : AuthSession). not (s.jti == jti)) sessions) ≡ none
unfolding find_session
find_session-end_session jti [] = refl
find_session-end_session jti (s ∷ ss) = ground (arith, find_session-end_session jti ss)

pub find_session-jti :
    (jti : Uuid) (sessions : List AuthSession) (s : AuthSession)
    → find_session jti sessions ≡ some s
    → s.jti ≡ jti
unfolding find_session
find_session-jti jti [] s h = cc
find_session-jti jti (t ∷ ts) s h = ground (arith, find_session-jti jti ts s)

find_session-store :
    (sessions : List AuthSession) (s s' : AuthSession)
    → find_session s.jti sessions ≡ some s
    → s'.jti ≡ s.jti
    → find_session s.jti (store_session s' sessions) ≡ some s'
unfolding find_session store_session
find_session-store [] s s' h e = cc
find_session-store (t ∷ ts) s s' h e = ground (arith, find_session-store ts s s')

module _ (digest : Text → Text) (idle_timeout lifetime : ℕ) where
  pub refresh_session-none :
      (jti : Uuid) (secret : Text) (now : ℕ) (new_secret : Text) (db : AuthDb)
      → find_session jti db.sessions ≡ none
      → refresh_session digest idle_timeout lifetime jti secret now new_secret db
        ≡ (err no_session, db)
  unfolding refresh_session
  refresh_session-none jti secret now new_secret db h = rw (refresh_session, h) refl

  pub refresh_session-some :
      (jti : Uuid) (secret : Text) (now : ℕ) (new_secret : Text) (db : AuthDb) (s : AuthSession)
      → find_session jti db.sessions ≡ some s
      → refresh_session digest idle_timeout lifetime jti secret now new_secret db
        ≡ rotate_or_end digest idle_timeout lifetime s
            (find_member s.member_id db.members)
            (refusal digest idle_timeout lifetime s secret now (find_member s.member_id db.members))
            now
            new_secret
            db
  unfolding refresh_session
  refresh_session-some jti secret now new_secret db s h = rw (refresh_session, h) refl

  -- What was checked before a secret is exchanged.
  pub record Accepted (s : AuthSession) (secret : Text) (now : ℕ) (db : AuthDb) : Type 0 where
    pub matches : secret_matches digest s secret ≡ true
    pub not_idle : now ≤ s.last_used_at + idle_timeout
    pub not_expired : now ≤ s.created_at + lifetime
    pub member : AuthMember
    pub found : find_member s.member_id db.members ≡ some member
    pub not_locked : member.auth_locked ≡ false
    pub has_email : is_given member.email ≡ true

  refusal-none :
      (s : AuthSession) (secret : Text) (now : ℕ) (o : Option AuthMember)
      → refusal digest idle_timeout lifetime s secret now o ≡ none
      → (secret_matches digest s secret ≡ true)
        × (now ≤ s.last_used_at + idle_timeout)
        × (now ≤ s.created_at + lifetime)
        × ((m : AuthMember) × (o ≡ some m) × (m.auth_locked ≡ false) × (is_given m.email ≡ true))
  unfolding refusal is_idle
  refusal-none s secret now none h = ground arith
  refusal-none s secret now (some m) h =
      (ground arith, ground arith, ground arith, (m, refl, ground arith, ground arith))

  abbrev pub rotated : (s : AuthSession) (now : ℕ) (new_secret : Text) → AuthSession
  rotated s now new_secret = record s {
    refresh_token_hash = some (digest new_secret);
    last_used_at = now;
  }

  -- What an exchange leaves: the checks held, and the session has the digest of the new secret and the
  -- time of its use, and is otherwise the same.
  pub record Exchange (jti : Uuid) (secret : Text) (now : ℕ) (new_secret : Text) (db db' : AuthDb)
      : Type 0 where
    pub session : AuthSession
    pub stored : find_session jti db.sessions ≡ some session
    pub checked : Accepted session secret now db
    pub after : db'.sessions ≡ store_session (rotated session now new_secret) db.sessions

  abbrev session_id_of : Result AuthError (AccessToken × Uuid × Text) → Uuid
  session_id_of (ok r) = r.1
  session_id_of (err e) = 0

  abbrev secret_of : Result AuthError (AccessToken × Uuid × Text) → Text
  secret_of (ok r) = r.2
  secret_of (err e) = []

  was_rotated :
      (s : AuthSession) (now : ℕ) (new_secret : Text) (db db' : AuthDb)
      (r : AccessToken × Uuid × Text) (m : Option AuthMember) (e : Option AuthError)
      → rotate_or_end digest idle_timeout lifetime s m e now new_secret db ≡ (ok r, db')
      → (e ≡ none)
        × (db'.sessions ≡ store_session (rotated s now new_secret) db.sessions)
        × (r.1 ≡ s.jti)
        × (r.2 ≡ new_secret)
  unfolding rotate
  was_rotated s now new_secret db db' r m (some e) h = cc
  was_rotated s now new_secret db db' r none none h = cc
  was_rotated s now new_secret db db' r (some m) none h = (
    refl,
    ap (λ o. o.1.sessions) (sym h),
    ap (λ o. session_id_of o.0) (sym h),
    ap (λ o. secret_of o.0) (sym h),
  )

  pub exchange :
      (jti : Uuid) (secret : Text) (now : ℕ) (new_secret : Text) (db db' : AuthDb)
      (r : AccessToken × Uuid × Text)
      → refresh_session digest idle_timeout lifetime jti secret now new_secret db ≡ (ok r, db')
      → Exchange jti secret now new_secret db db' × (r.1 ≡ jti) × (r.2 ≡ new_secret)
  exchange jti secret now new_secret db db' r h =
      elim (Option-cases (find_session jti db.sessions)) [
        | inl missing ↦
            let impossible = sym (refresh_session-none jti secret now new_secret db missing) ∙ h in
            cc
        | inr (s, stored) ↦
            let done =
              was_rotated s now new_secret db db' r (find_member s.member_id db.members)
                (refusal digest idle_timeout lifetime s secret now
                  (find_member s.member_id db.members))
                (sym (refresh_session-some jti secret now new_secret db s stored) ∙ h) in
            let checks = refusal-none s secret now (find_member s.member_id db.members) done.0 in
            (
              record {
                session = s;
                stored = stored;
                checked = record {
                  matches = checks.0;
                  not_idle = checks.1;
                  not_expired = checks.2;
                  member = checks.3.0;
                  found = checks.3.1;
                  not_locked = checks.3.2;
                  has_email = checks.3.3;
                };
                after = done.1;
              },
              done.2 ∙ find_session-jti jti db.sessions s stored,
              done.3,
            )
      ]

  pub refusal-reuse :
      (s : AuthSession) (secret : Text) (now : ℕ) (o : Option AuthMember)
      → secret_matches digest s secret ≡ false
      → refusal digest idle_timeout lifetime s secret now o ≡ some token_reuse
  unfolding refusal
  refusal-reuse s secret now none h = ground arith
  refusal-reuse s secret now (some m) h = ground arith

  pub old_secret_differs :
      (s : AuthSession) (secret new_secret : Text) (now : ℕ)
      → text_eq (digest new_secret) (digest secret) ≡ false
      → secret_matches digest (rotated s now new_secret) secret ≡ false
  unfolding secret_matches
  old_secret_differs s secret new_secret now h = ground arith

  pub stored_after :
      (jti : Uuid) (secret : Text) (now : ℕ) (new_secret : Text) (db db' : AuthDb)
      (x : Exchange jti secret now new_secret db db')
      → find_session jti db'.sessions ≡ some (rotated x.session now new_secret)
  stored_after jti secret now new_secret db db' x =
      let same = find_session-jti jti db.sessions x.session x.stored in
      ap (λ l. find_session jti l) x.after
      ∙ ap (λ i. find_session i (store_session (rotated x.session now new_secret) db.sessions))
          (sym same)
      ∙ find_session-store db.sessions x.session (rotated x.session now new_secret)
          (ap (λ i. find_session i db.sessions) same ∙ x.stored) refl
