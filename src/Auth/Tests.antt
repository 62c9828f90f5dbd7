-- ===== src/Auth/Tests.antt =====
-- Runs of the session operations. The digest here puts one character in front.
use vb_api.Prelude.{
  ◌+◌, ◌≤◌, ◌≡◌, refl, Uuid, Text, false, none, some, [], ◌∷◌, text_eq, ok, err, arith,
}
use vb_api.Auth.Session.{
  AuthSession, AuthMember, ResetToken, AuthDb, AccessToken, token_reuse, session_idle, find_session,
  find_member, end_session, rotate, refresh_session,
}
use vb_api.Auth.Access.{
  create_user_session, authenticate_access_token, find_by_email, find_reset, execute_password_reset,
}
use vb_api.Auth.Exchange.{Accepted}
use vb_api.Auth.Refresh.{
  refresh_session-Accepted, refresh_session-token_reuse, refresh_session-refused,
}
use vb_api.Auth.Guards.{WasReset, authenticate_access_token_lem, execute_password_reset-WasReset}
use vb_api.Auth.Login.{create_user_session-refresh_session}

abbrev marked : Text → Text
marked s = b'#' ∷ s

abbrev same : Text → Text
same s = s

abbrev archivist : AuthMember
archivist = record {
  id = 5;
  email = some (b'a' ∷ []);
  auth_password = some (b'p' ∷ []);
  auth_locked = false;
  email_verified_at = none;
  auth_lastlogin = none;
  auth_lastsignal = none;
  auth_lastlogout = none;
}

abbrev first_session : AuthSession
first_session = record {
  jti = 70;
  member_id = 5;
  refresh_token_hash = some (b'#' ∷ b'x' ∷ []);
  last_used_at = 1000;
  created_at = 900;
}

abbrev reset_row : ResetToken
reset_row = record { id = 3; member_id = 5; token_hash = b'#' ∷ b't' ∷ []; created_at = 900 }

abbrev state : AuthDb
state = record { sessions = first_session ∷ []; members = archivist ∷ []; resets = reset_row ∷ [] }

abbrev exchanged : AuthDb
exchanged = (refresh_session marked 100 500 70 (b'x' ∷ []) 1050 (b'y' ∷ []) state).1

abbrev answer : AccessToken × Uuid × Text
answer = (record { subject = b'a' ∷ []; token_jti = 70 }, 70, b'y' ∷ [])

exchange_accepted :
    refresh_session marked 100 500 70 (b'x' ∷ []) 1050 (b'y' ∷ []) state ≡ (ok answer, exchanged)
unfolding refresh_session text_eq rotate
exchange_accepted = refl

refresh_session-Accepted_example :
    ((s : AuthSession) × (find_session 70 state.sessions ≡ some s)
      × Accepted marked 100 500 s (b'x' ∷ []) 1050 state
      × (find_session 70 exchanged.sessions
          ≡ some (record s { refresh_token_hash = some (b'#' ∷ b'y' ∷ []); last_used_at = 1050 })))
    × (answer.1 ≡ 70)
    × (answer.2 ≡ b'y' ∷ [])
refresh_session-Accepted_example =
    refresh_session-Accepted marked 100 500 70 (b'x' ∷ []) 1050 (b'y' ∷ []) state exchanged answer
      exchange_accepted

refresh_session-token_reuse_example :
    (refresh_session marked 100 500 70 (b'x' ∷ []) 1060 (b'z' ∷ []) exchanged
      ≡ (err token_reuse, end_session 70 exchanged))
    × (find_session 70 (end_session 70 exchanged).sessions ≡ none)
unfolding text_eq
refresh_session-token_reuse_example =
    refresh_session-token_reuse marked 100 500 70 (b'x' ∷ []) 1050 (b'y' ∷ []) state exchanged
      answer 1060 (b'z' ∷ []) exchange_accepted (ground arith)

idle_refused :
    refresh_session marked 100 500 70 (b'x' ∷ []) 1101 (b'y' ∷ []) state
    ≡ (err session_idle, end_session 70 state)
unfolding refresh_session text_eq
idle_refused = refl

refresh_session-refused_example :
    (find_session 70 (end_session 70 state).sessions ≡ none)
    × ((end_session 70 state).members ≡ archivist ∷ [])
unfolding end_session
refresh_session-refused_example =
    refresh_session-refused marked 100 500 70 (b'x' ∷ []) 1101 (b'y' ∷ []) state
      (end_session 70 state) session_idle idle_refused

abbrev token : AccessToken
token = record { subject = b'a' ∷ []; token_jti = 70 }

let_in : authenticate_access_token 100 60 (some token) 1020 state ≡ (ok archivist, state)
unfolding authenticate_access_token text_eq
let_in = refl

authenticate_access_token_lem_example :
    ((s : AuthSession) × (find_session 70 state.sessions ≡ some s)
      × (1020 ≤ s.last_used_at + 100)
      × (5 ≡ s.member_id))
    × (archivist.auth_locked ≡ false)
authenticate_access_token_lem_example =
    authenticate_access_token_lem 100 60 token 1020 state state archivist let_in

abbrev after_reset : AuthDb
after_reset = (execute_password_reset same marked (b'a' ∷ []) (b't' ∷ []) (b'q' ∷ []) 950 state).1

reset_accepted :
    execute_password_reset same marked (b'a' ∷ []) (b't' ∷ []) (b'q' ∷ []) 950 state
    ≡ (ok tt, after_reset)
unfolding execute_password_reset text_eq
reset_accepted = refl

execute_password_reset-WasReset_example :
    (m : AuthMember) × (find_by_email same (b'a' ∷ []) state.members ≡ some m)
    × ((r : ResetToken) × (find_reset marked m.id (b't' ∷ []) state ≡ some r)
        × WasReset m r 950 after_reset)
execute_password_reset-WasReset_example =
    execute_password_reset-WasReset same marked (b'a' ∷ []) (b't' ∷ []) (b'q' ∷ []) 950 state
      after_reset reset_accepted

create_user_session-refresh_session_example :
    (refresh_session marked 100 500 71
      (b'u' ∷ [])
      1100
      (b'v' ∷ [])
      (create_user_session marked archivist 71 (b'u' ∷ []) 1050 state).1).0
    ≡ ok (record { subject = b'a' ∷ []; token_jti = 71 }, 71, b'v' ∷ [])
unfolding find_session find_member
create_user_session-refresh_session_example =
    create_user_session-refresh_session marked 100 500 archivist 71 (b'u' ∷ []) 1050 1100
      (b'v' ∷ []) state refl refl refl refl refl (omega arith) (omega arith)
