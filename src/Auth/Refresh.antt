-- ===== src/Auth/Refresh.antt =====
-- What the refresh of a session promises: a secret is good for one refresh, and every refusal ends
-- the session.
use vb_api.Prelude.{
  ℕ, ◌≡◌, ap, sym, ◌∙◌, Uuid, Text, false, Option, none, some, text_eq, ok, err, Option-cases, inl,
  inr,
}
use vb_api.Auth.Session.{
  AuthSession, AuthMember, AuthDb, AccessToken, AuthError, token_reuse, find_session, find_member,
  end_session, refusal, rotate, rotate_or_end, refresh_session,
}
use vb_api.Auth.Exchange.{
  Accepted, rotated, exchange, refusal-reuse, old_secret_differs, stored_after,
  refresh_session-none, refresh_session-some, find_session-jti, find_session-end_session,
}

module _ (digest : Text → Text) (idle_timeout lifetime : ℕ) where
  -- A refresh that is accepted found the session, with the digest of the secret that was sent; it was
  -- neither idle nor past its lifetime, and its member is not locked and has an address. Afterwards the
  -- session has the digest of the new secret and the time of its use, and the same beginning. (What is
  -- returned is the session's id and the new secret.)
  pub refresh_session-Accepted :
      (jti : Uuid) (secret : Text) (now : ℕ) (new_secret : Text) (db db' : AuthDb)
      (r : AccessToken × Uuid × Text)
      → refresh_session digest idle_timeout lifetime jti secret now new_secret db ≡ (ok r, db')
      → ((s : AuthSession) × (find_session jti db.sessions ≡ some s)
          × Accepted digest idle_timeout lifetime s secret now db
          × (find_session jti db'.sessions
              ≡ some
                  (record s { refresh_token_hash = some (digest new_secret); last_used_at = now })))
        × (r.1 ≡ jti)
        × (r.2 ≡ new_secret)
  refresh_session-Accepted jti secret now new_secret db db' r h =
      let x = exchange digest idle_timeout lifetime jti secret now new_secret db db' r h in
      (
        (
          x.0.session,
          x.0.stored,
          x.0.checked,
          stored_after digest idle_timeout lifetime jti secret now new_secret db db' x.0,
        ),
        x.1,
        x.2,
      )

  -- A secret is good for one refresh: sent again after it was exchanged, at any time, it is refused as
  -- reused, and the session ends, also for the holder of the new secret. (The digests of the two secrets
  -- differ.)
  pub refresh_session-token_reuse :
      (jti : Uuid) (secret : Text) (now : ℕ) (new_secret : Text) (db db' : AuthDb)
      (r : AccessToken × Uuid × Text) (later : ℕ) (other_secret : Text)
      → refresh_session digest idle_timeout lifetime jti secret now new_secret db ≡ (ok r, db')
      → text_eq (digest new_secret) (digest secret) ≡ false
      → (refresh_session digest idle_timeout lifetime jti secret later other_secret db'
          ≡ (err token_reuse, end_session jti db'))
        × (find_session jti (end_session jti db').sessions ≡ none)
  unfolding end_session
  refresh_session-token_reuse jti secret now new_secret db db' r later other_secret h differ =
      let x = (exchange digest idle_timeout lifetime jti secret now new_secret db db' r h).0 in
      let s' = rotated digest idle_timeout lifetime x.session now new_secret in
      let m = find_member x.session.member_id db'.members in
      (
        refresh_session-some digest idle_timeout lifetime jti secret later other_secret db' s'
              (stored_after digest idle_timeout lifetime jti secret now new_secret db db' x)
            ∙ ap (λ e. rotate_or_end digest idle_timeout lifetime s' m e later other_secret db')
                (refusal-reuse digest idle_timeout lifetime s' secret later m (
                  old_secret_differs digest idle_timeout lifetime x.session secret new_secret now
                    differ))
            ∙ ap (λ i. (err token_reuse, end_session i db'))
                (find_session-jti jti db.sessions x.session x.stored),
        find_session-end_session jti db'.sessions,
      )

  ended :
      (s : AuthSession) (now : ℕ) (new_secret : Text) (db db' : AuthDb) (e : AuthError)
      (m : Option AuthMember) (o : Option AuthError)
      → rotate_or_end digest idle_timeout lifetime s m o now new_secret db ≡ (err e, db')
      → db' ≡ end_session s.jti db
  unfolding rotate
  ended s now new_secret db db' e m (some f) h = ap (λ p. p.1) (sym h)
  ended s now new_secret db db' e none none h = ap (λ p. p.1) (sym h)
  ended s now new_secret db db' e (some m) none h = cc

  -- Every refusal of a refresh leaves no session of that id, and changes no member.
  pub refresh_session-refused :
      (jti : Uuid) (secret : Text) (now : ℕ) (new_secret : Text) (db db' : AuthDb) (e : AuthError)
      → refresh_session digest idle_timeout lifetime jti secret now new_secret db ≡ (err e, db')
      → (find_session jti db'.sessions ≡ none) × (db'.members ≡ db.members)
  unfolding end_session
  refresh_session-refused jti secret now new_secret db db' e h =
      elim (Option-cases (find_session jti db.sessions)) [
        | inl missing ↦
            let unchanged =
              ap (λ p. p.1)
                (sym (
                    refresh_session-none digest idle_timeout lifetime jti secret now new_secret db
                      missing)
                  ∙ h) in
            (
              ap (λ (d : AuthDb). find_session jti d.sessions) (sym unchanged) ∙ missing,
              ap (λ (d : AuthDb). d.members) (sym unchanged),
            )
        | inr (s, stored) ↦
            let gone =
              ended s now new_secret db db' e (find_member s.member_id db.members)
                (refusal digest idle_timeout lifetime s secret now
                  (find_member s.member_id db.members))
                (sym (
                    refresh_session-some digest idle_timeout lifetime jti secret now new_secret db s
                      stored)
                  ∙ h)
              ∙ ap (λ i. end_session i db) (find_session-jti jti db.sessions s stored) in
            (
              ap (λ (d : AuthDb). find_session jti d.sessions) gone
                  ∙ find_session-end_session jti db.sessions,
              ap (λ (d : AuthDb). d.members) gone,
            )
      ]
