-- ===== src/Auth/Requests.antt =====
-- The requests of internal/api/auth.go and internal/api/setup.go, and the middleware RequireSession
-- of internal/auth/middleware.go, over the throttle, the accounts and the sessions. The decoding of
-- a body and the writing of an answer are left out: a request is its decoded values, an answer its
-- status with what it carries.
pub mod Lifecycle
pub mod Setup
use back_orbit.Base.{
  ℕ, Bool, true, false, ◌||◌, Option, none, some, List, [], ◌∷◌, ◌++◌, Bytes, ◌==◌, if◌then◌else◌,
  ltb, length, trim_space, Result, ok, err,
}
use back_orbit.Base.Text.{bytes_eq}
use back_orbit.Auth.RateLimit.{Limiter, allow, record_failure, record_success}
use back_orbit.Auth.Session.{Call, Session, SessionError, SessionStore, create, delete, validate}
use back_orbit.Auth.Password.{Library}
use back_orbit.Auth.Users.{
  Account, Answers, User, UserError, authenticate, create_user, get_by_id, invalid_credentials,
  user_already_set_up,
}
use back_orbit.Auth.Csrf.{Request, Verdict, passed, missing_cookie, invalid_token, csrf_protect}

pub data Event : Type 0 where
  login_failed : Bytes → Event
  login_succeeded admin_account_created : User → Event
  logout_done : User → Event

pub data Answer : Type 0 where
  too_many_attempts wrong_credentials login_error session_error unauthenticated logged_out : Answer
  invalid_username short_password already_set_up setup_error : Answer
  csrf_missing csrf_invalid : Answer
  -- a user with the token set as a cookie and its end
  logged_in account_created : User → Bytes → ℕ → Answer
  session_of_user : User → ℕ → Answer

pub record Server : Type 0 where
  pub limiter : Limiter
  pub accounts : List Account
  pub sessions : SessionStore
  pub emitted : List Event

-- What the clocks, the random reader and the database answer to one request.
pub record World : Type 0 where
  pub allow_now : ℕ
  pub failure_now : ℕ
  pub users : Answers
  pub session : Call

abbrev pub emit : Event → Server → Server
emit e s = record s { emitted = s.emitted ++ (e ∷ []) }

abbrev pub rate_limit_key : Bytes → Bytes → Bytes
rate_limit_key ip username = ip ++ (b':' ∷ username)

abbrev pub refused : UserError → Answer
refused invalid_credentials = wrong_credentials
refused _ = login_error

abbrev pub setup_refused : UserError → Answer
setup_refused user_already_set_up = already_set_up
setup_refused _ = setup_error

module _ (lib : Library) (hash : Bytes → Bytes) where
  -- The end of `handleLogin`, for a user that `Authenticate` accepted.
  unfoldable pub start_session : World → Bytes → Bytes → User → Server → Answer × Server
  start_session w ip agent user s =
      let (made, t) = create hash w.session user.id ip agent s.sessions in
      elim made [
        | err _ ↦ (session_error, record s { sessions = t })
        | ok x ↦ (
          logged_in user x.token x.expires_at,
          emit (login_succeeded user) (record s { sessions = t }),
        )
      ]

  -- `handleLogin`
  unfoldable pub login : World → Bytes → Bytes → Bytes → Bytes → Server → Answer × Server
  login w ip agent username password s =
      let key = rate_limit_key ip username in
      let (l, allowed) = allow s.limiter key w.allow_now in
      if allowed
      then elim (authenticate lib w.users username password s.accounts) [
        | err e ↦ (
          refused e,
          emit (login_failed username) (record s { limiter = record_failure l key w.failure_now }),
        )
        | ok user ↦ start_session w ip agent user (record s { limiter = record_success l key })
      ]
      else (too_many_attempts, record s { limiter = l })

  -- `RequireSession`: the user and the session that it attaches, if it lets the request through.
  unfoldable pub require_session : World → Bytes → Server → Option (User × Session) × Server
  require_session w token s =
      let (found, t) = validate hash w.session token s.sessions in
      let s' = record s { sessions = t } in
      elim found [
        | err _ ↦ (none, s')
        | ok x ↦ elim (get_by_id w.users x.user_id s.accounts) [
          | err _ ↦ (none, s')
          | ok user ↦ (some (user, x), s')
        ]
      ]

  -- `handleLogout`, for the user that RequireSession attached.
  unfoldable pub handle_logout : World → Bytes → User → Server → Answer × Server
  handle_logout w token user s =
      let t = if token == [] then s.sessions else (delete hash w.session token s.sessions).1 in
      (logged_out, emit (logout_done user) (record s { sessions = t }))

  -- A handler behind RequireSession.
  unfoldable pub authorized :
      World → Bytes → (User → Session → Server → Answer × Server) → Server → Answer × Server
  authorized w token handler s =
      let (found, s') = require_session w token s in
      elim found [ none ↦ (unauthenticated, s') | some (user, x) ↦ handler user x s' ]

  -- POST /auth/logout. The session's clean-up and the deletion are separate calls of the database.
  unfoldable pub logout : World → World → Bytes → Server → Answer × Server
  logout w w' token s = authorized w token (λ user x s'. handle_logout w' token user s') s

  -- GET /auth/session
  unfoldable pub session : World → Bytes → Server → Answer × Server
  session w token s = authorized w token (λ user x s'. (session_of_user user x.expires_at, s')) s

  -- The end of `handleSetupAdmin`, for the account just made.
  unfoldable pub first_session : World → Bytes → Bytes → User → Server → Answer × Server
  first_session w ip agent user s =
      let (made, t) = create hash w.session user.id ip agent s.sessions in
      elim made [
        | err _ ↦ (session_error, record s { sessions = t })
        | ok x ↦ (account_created user x.token x.expires_at, record s { sessions = t })
      ]

  -- `handleSetupAdmin` behind the trimming of the name.
  unfoldable pub setup_named : World → Bytes → Bytes → Bytes → Bytes → Server → Answer × Server
  setup_named w ip agent name password s =
      if ltb (length name) 3 || ltb 64 (length name)
      then (invalid_username, s)
      else if ltb (length password) 12
      then (short_password, s)
      else elim (create_user lib w.users name password s.accounts) [
        | err e ↦ (setup_refused e, s)
        | ok (user, table) ↦
            first_session w ip agent user
              (emit (admin_account_created user) (record s { accounts = table }))
      ]

  unfoldable pub setup_admin : World → Bytes → Bytes → Bytes → Bytes → Server → Answer × Server
  setup_admin w ip agent username password s =
      setup_named w ip agent (trim_space username) password s

-- A handler behind CSRFProtect.
unfoldable pub csrf_guarded : Request → (Server → Answer × Server) → Server → Answer × Server
csrf_guarded r handler s = elim (csrf_protect r) [
  | passed ↦ handler s
  | missing_cookie ↦ (csrf_missing, s)
  | invalid_token ↦ (csrf_invalid, s)
]
