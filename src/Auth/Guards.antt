-- ===== src/Auth/Guards.antt =====
-- Who gets in: the check of an access token, and what a logout and a password reset take away.
use vb_api.Prelude.{
  ℕ, ◌+◌, ◌≤◌, ◌≡◌, refl, ap, sym, ◌∙◌, Uuid, Text, Bool, true, false, not, Option, none, some,
  List, [], ◌∷◌, filter, find, any, ltb, ◌==◌, ==_iff, if◌then◌else◌, Result, ok, err, arith,
  Bool-cases, inl, inr,
}
use vb_api.Auth.Session.{
  AuthSession, AuthMember, ResetToken, AuthDb, AccessToken, AuthError, Outcome, session_idle,
  reset_expired, holds_text, find_session, end_session, is_idle,
}
use vb_api.Auth.Access.{
  find_by_email, member_of, touch, check_session, logout_of, reset_of, reset_for,
  authenticate_access_token, logout_user, find_reset, without_reset, reset_lifetime,
  execute_password_reset,
}
use vb_api.Auth.Exchange.{find_session-end_session, find_session-jti}

member_of-ok :
    (idle_timeout touch_interval : ℕ) (s : AuthSession) (o : Option AuthMember) (m : AuthMember)
    → member_of idle_timeout touch_interval s o ≡ ok m
    → (m.id ≡ s.member_id) × (m.auth_locked ≡ false) × (o ≡ some m)
member_of-ok idle_timeout touch_interval s none m h = cc
member_of-ok idle_timeout touch_interval s (some n) m h = elim (Bool-cases (n.id == s.member_id)) [
  | inr other ↦ ground arith
  | inl same ↦ elim (Bool-cases n.auth_locked) [
    | inl locked ↦ ground arith
    | inr free ↦ ground (arith, (==_iff n.id s.member_id).0 same)
  ]
]

past_guard :
    {A : Type 0} (b : Bool) (e : AuthError) (d1 d2 : AuthDb) (x : Result AuthError A) (db' : AuthDb)
    (m : A)
    → ◌≡◌ {A = Outcome A} (if b then (err e, d1) else (x, d2)) (ok m, db')
    → (b ≡ false) × (x ≡ ok m) × (d2 ≡ db')
past_guard true e d1 d2 x db' m h = cc
past_guard {A} false e d1 d2 x db' m h =
    (refl, ap (λ (p : Outcome A). p.0) h, ap (λ (p : Outcome A). p.1) h)

check_session-ok :
    (idle_timeout touch_interval : ℕ) (t : AccessToken) (o : Option AuthSession) (now : ℕ)
    (db db' : AuthDb) (m : AuthMember)
    → check_session idle_timeout touch_interval t o now db ≡ (ok m, db')
    → ((s : AuthSession) × (o ≡ some s)
        × (now ≤ s.last_used_at + idle_timeout)
        × (m.id ≡ s.member_id))
      × (m.auth_locked ≡ false)
unfolding is_idle
check_session-ok idle_timeout touch_interval t none now db db' m h = cc
check_session-ok idle_timeout touch_interval t (some s) now db db' m h =
    let busy =
      past_guard (ltb (s.last_used_at + idle_timeout) now) session_idle (end_session s.jti db)
        (touch idle_timeout touch_interval s now db)
        (member_of idle_timeout touch_interval s (
          find (λ (n : AuthMember). holds_text n.email t.subject)
            (touch idle_timeout touch_interval s now db).members))
        db' m h in
    let checks = member_of-ok idle_timeout touch_interval s _ m busy.1 in
    ((s, refl, ground arith, checks.0), checks.1)

-- An access token lets a member in only if its session is stored and not idle, the session is that
-- member's, and the member is not locked.
pub authenticate_access_token_lem :
    (idle_timeout touch_interval : ℕ) (t : AccessToken) (now : ℕ) (db db' : AuthDb) (m : AuthMember)
    → authenticate_access_token idle_timeout touch_interval (some t) now db ≡ (ok m, db')
    → ((s : AuthSession) × (find_session t.token_jti db.sessions ≡ some s)
        × (now ≤ s.last_used_at + idle_timeout)
        × (m.id ≡ s.member_id))
      × (m.auth_locked ≡ false)
unfolding authenticate_access_token
authenticate_access_token_lem idle_timeout touch_interval t now db db' m h =
    check_session-ok idle_timeout touch_interval t (find_session t.token_jti db.sessions) now db db'
      m h

logout_of-gone :
    (jti : Uuid) (now : ℕ) (db : AuthDb) (o : Option AuthSession)
    → find_session jti db.sessions ≡ o
    → find_session jti (logout_of o now db).sessions ≡ none
unfolding end_session
logout_of-gone jti now db none h = h
logout_of-gone jti now db (some s) h =
    ap (λ i. find_session jti (filter (λ (t : AuthSession). not (t.jti == i)) db.sessions))
      (find_session-jti jti db.sessions s h)
    ∙ find_session-end_session jti db.sessions

-- After a logout no session of that id is left, whether or not there was one.
logout_user_lem :
    (jti : Uuid) (now : ℕ) (db : AuthDb)
    → find_session jti (logout_user (some jti) now db).sessions ≡ none
unfolding logout_user
logout_user_lem jti now db = logout_of-gone jti now db (find_session jti db.sessions) refl

-- No session of this member.
any-member_sessions :
    (u : Uuid) (ss : List AuthSession)
    → any
        (λ (s : AuthSession). s.member_id == u)
        (filter (λ (s : AuthSession). not (s.member_id == u)) ss)
      ≡ false
any-member_sessions u [] = refl
any-member_sessions u (s ∷ ss) = ground (arith, any-member_sessions u ss)

no_reset :
    (u : Uuid) (rs : List ResetToken)
    → any (λ (r : ResetToken). r.id == u) (filter (λ (r : ResetToken). not (r.id == u)) rs) ≡ false
no_reset u [] = refl
no_reset u (r ∷ rs) = ground (arith, no_reset u rs)

-- What a reset leaves: the token was not older than twenty minutes and is used up, and no session of
-- the member is left.
pub record WasReset (m : AuthMember) (r : ResetToken) (now : ℕ) (db' : AuthDb) : Type 0 where
  pub in_time : now ≤ r.created_at + reset_lifetime
  pub used_up : any (λ (q : ResetToken). q.id == r.id) db'.resets ≡ false
  pub signed_out : any (λ (s : AuthSession). s.member_id == m.id) db'.sessions ≡ false

reset_of-ok :
    (m : AuthMember) (new_hash : Text) (now : ℕ) (o : Option ResetToken) (db db' : AuthDb)
    → reset_of m new_hash now o db ≡ (ok tt, db')
    → (r : ResetToken) × (o ≡ some r) × WasReset m r now db'
reset_of-ok m new_hash now none db db' h = cc
reset_of-ok m new_hash now (some r) db db' h =
    let timely =
      past_guard (ltb (r.created_at + reset_lifetime) now) reset_expired (without_reset r db) _
        (ok tt) db' tt h in
    (
      r,
      refl,
      record {
        in_time = ground arith;
        used_up =
            ap (λ (d : AuthDb). any (λ (q : ResetToken). q.id == r.id) d.resets) (sym timely.2)
            ∙ no_reset r.id db.resets;
        signed_out =
            ap (λ (d : AuthDb). any (λ (s : AuthSession). s.member_id == m.id) d.sessions)
              (sym timely.2)
            ∙ any-member_sessions m.id db.sessions;
      },
    )

-- A password reset that succeeds found the member by the address and a token of that member that was
-- not older than twenty minutes; the token is used up, and every session of the member has ended.
pub execute_password_reset-WasReset :
    (lower digest : Text → Text) (email token new_hash : Text) (now : ℕ) (db db' : AuthDb)
    → execute_password_reset lower digest email token new_hash now db ≡ (ok tt, db')
    → (m : AuthMember) × (find_by_email lower email db.members ≡ some m)
      × ((r : ResetToken) × (find_reset digest m.id token db ≡ some r) × WasReset m r now db')
unfolding execute_password_reset
execute_password_reset-WasReset lower digest email token new_hash now db db' h =
    go (find_by_email lower email db.members) h
  where
    go :
        (o : Option AuthMember)
        → reset_for digest o token new_hash now db ≡ (ok tt, db')
        → (m : AuthMember) × (o ≡ some m)
          × ((r : ResetToken) × (find_reset digest m.id token db ≡ some r) × WasReset m r now db')
    go none k = cc
    go (some m) k = (m, refl, reset_of-ok m new_hash now (find_reset digest m.id token db) db db' k)
