-- ===== src/Auth/Requests/Lifecycle.antt =====
-- What a login is good for.
use back_orbit.Base.{
  ℕ, ◌+◌, true, false, some, List, [], ◌∷◌, Bytes, ◌==◌, ltb, length, Result, ok, err, ◌≡◌, ◌≢◌,
  arith, refl, Result-cases, Option-cases, inl, inr, Bool-cases, ◌≤◌, ap, sym, ◌∙◌,
}
use back_orbit.Base.Text.{bytes_eq, bytes_beq_iff}
use back_orbit.Auth.RateLimit.{allow, record_success}
use back_orbit.Auth.Session.{
  Call, Session, SessionError, SessionStore, create, delete, judge, validate, session_not_found,
  session_expired,
}
use back_orbit.Auth.Session.Lifecycle.{create-made, validate-create, validate-delete}
use back_orbit.Auth.Password.{Library, verify_password}
use back_orbit.Auth.Users.{
  Account, Answers, User, UserError, invalid_credentials, authenticate, get_by_id, find_name,
  find_user,
}
use back_orbit.Auth.Requests.{
  Answer, Server, World, emit, logout_done, logged_in, refused, login, logout, require_session,
  start_session, rate_limit_key, logged_out, unauthenticated, handle_logout, authorized, session,
  session_of_user,
}

-- The table holds one account at most, as `CreateUser` sees to.
abbrev pub OneAccount : List Account → Type 0
OneAccount accounts = length accounts ≤ 1

module _ (lib : Library) (hash : Bytes → Bytes) where
  get_by_id-authenticate :
      (q r : Answers) (username password : Bytes) (accounts : List Account) (user : User)
      → OneAccount accounts
      → authenticate lib q username password accounts ≡ ok user
      → r.query_fails ≡ false
      → get_by_id r user.id accounts ≡ ok user
  unfolding authenticate get_by_id find_name find_user
  get_by_id-authenticate q r username password [] user one h works = ground arith
  get_by_id-authenticate q r username password (a ∷ []) user one h works =
      elim (Result-cases (verify_password lib a.password_hash password)) [
        | inl (same, e) ↦ ground (arith, e, bytes_beq_iff a.user.id a.user.id)
        | inr (e, bad) ↦ ground (arith, bad)
      ]
  get_by_id-authenticate q r username password (a ∷ b ∷ accounts) user one h works =
      absurd (omega arith)

  start_session-made :
      (w : World) (ip agent token : Bytes) (ends : ℕ) (user u : User) (s t : Server)
      → start_session lib hash w ip agent user s ≡ (logged_in u token ends, t)
      → (u ≡ user)
        × ((made : Session) × ((create hash w.session user.id ip agent s.sessions).0 ≡ ok made)
            × (made.token ≡ token)
            × (made.expires_at ≡ ends)
            × (t.sessions ≡ (create hash w.session user.id ip agent s.sessions).1)
            × (t.accounts ≡ s.accounts))
  unfolding start_session
  start_session-made w ip agent token ends user u s t h =
      elim (Result-cases (create hash w.session user.id ip agent s.sessions).0) [
        | inr (e, bad) ↦ absurd (ground (arith, bad))
        | inl (made, good) ↦ (
          ground (arith, good),
          (
            made,
            good,
            ground (arith, good),
            ground (arith, good),
            ground (arith, good),
            ground (arith, good),
          ),
        )
      ]

  validate-ok :
      (c : Call) (token : Bytes) (s : SessionStore) (x : Session)
      → (validate hash c token s).0 ≡ ok x
      → ((validate hash c token s).1 ≡ s) × ((token == []) ≡ false)
  unfolding validate judge
  validate-ok c token s x h = ground arith

  require_session-some :
      (w : World) (token : Bytes) (s : Server) (user : User) (x : Session)
      → (require_session lib hash w token s).0 ≡ some (user, x)
      → ((require_session lib hash w token s).1 ≡ s) × ((token == []) ≡ false)
  unfolding require_session
  require_session-some w token s user x h =
      elim (Result-cases (validate hash w.session token s.sessions).0) [
        | inr (e, bad) ↦ absurd (ground (arith, bad))
        | inl (y, good) ↦
            let (same, filled) = validate-ok w.session token s.sessions y good in
            elim (Result-cases (get_by_id w.users y.user_id s.accounts)) [
              | inr (e, bad) ↦ absurd (ground (arith, good, bad))
              | inl (u, known) ↦ (ground (arith, good, known, same), filled)
            ]
      ]

  refused-ne :
      (e : UserError) (user : User) (token : Bytes) (ends : ℕ)
      → refused e ≢ logged_in user token ends
  refused-ne invalid_credentials user token ends = cc
  refused-ne _ user token ends = cc

  session_valid :
      (w : World) (token : Bytes) (s : Server) (x : Session) (user : User)
      → validate hash w.session token s.sessions ≡ (ok x, s.sessions)
      → get_by_id w.users x.user_id s.accounts ≡ ok user
      → session lib hash w token s ≡ (session_of_user user x.expires_at, s)
  unfolding session authorized require_session
  session_valid w token s x user e g = ground (arith, e, g)

  -- The answer of GET /auth/session, from what `Validate` gave.
  abbrev seen : World → List Account → Result SessionError Session → Answer
  seen w accounts (err _) = unauthenticated
  seen w accounts (ok x) = elim (get_by_id w.users x.user_id accounts) [
    | err _ ↦ unauthenticated
    | ok user ↦ session_of_user user x.expires_at
  ]

  session_seen :
      (w : World) (token : Bytes) (s : Server)
      → (session lib hash w token s).0
        ≡ seen w s.accounts (validate hash w.session token s.sessions).0
  unfolding session authorized require_session
  session_seen w token s = elim (Result-cases (validate hash w.session token s.sessions).0) [
    | inr (e, bad) ↦ ground (arith, bad)
    | inl (x, good) ↦ elim (Result-cases (get_by_id w.users x.user_id s.accounts)) [
      | inr (e, bad) ↦ ground (arith, good, bad)
      | inl (u, known) ↦ ground (arith, good, known)
    ]
  ]

  session_refused :
      (w : World) (token : Bytes) (s : Server) (e : SessionError)
      → (validate hash w.session token s.sessions).0 ≡ err e
      → (session lib hash w token s).0 ≡ unauthenticated
  unfolding session authorized require_session
  session_refused w token s e h = rw (session, authorized, require_session, h) refl

  login-made :
      (w : World) (ip agent username password token : Bytes) (ends : ℕ) (user : User) (s t : Server)
      → login lib hash w ip agent username password s ≡ (logged_in user token ends, t)
      → (authenticate lib w.users username password s.accounts ≡ ok user)
        × ((made : Session) × ((create hash w.session user.id ip agent s.sessions).0 ≡ ok made)
            × (made.token ≡ token)
            × (made.expires_at ≡ ends)
            × (t.sessions ≡ (create hash w.session user.id ip agent s.sessions).1)
            × (t.accounts ≡ s.accounts))
  unfolding login
  login-made w ip agent username password token ends user s t h =
      elim (Bool-cases (allow s.limiter (rate_limit_key ip username) w.allow_now).1) [
        | inr stop ↦ absurd (ground (arith, stop))
        | inl go ↦ elim (Result-cases (authenticate lib w.users username password s.accounts)) [
          | inr (e, bad) ↦ absurd (refused-ne e user token ends (ground (arith, go, bad)))
          | inl (u, good) ↦
              let begun : start_session lib hash w ip agent u (record s {
                limiter =
                    record_success (allow s.limiter (rate_limit_key ip username) w.allow_now).0
                      (rate_limit_key ip username);
              })
                  ≡ (logged_in user token ends, t) =
                rw (login, go, good) at h in
              let (same, rest) = start_session-made w ip agent token ends u user _ t begun in
              rw same (good, rest)
        ]
      ]

  -- From a login to the end of its session, the token that the login set as a cookie names the user
  -- who logged in, and no request with it changes anything; after the end it names nobody.
  -- Conditions: one account at most, a token that is not empty, and queries that work.
  pub session-login :
      (w w' : World) (ip agent username password token : Bytes) (ends : ℕ) (user : User)
      (s t : Server)
      → login lib hash w ip agent username password s ≡ (logged_in user token ends, t)
      → OneAccount s.accounts
      → token ≢ []
      → w'.session.fails ≡ false
      → w'.users.query_fails ≡ false
      → (ends ≡ w.session.now + s.sessions.ttl)
        × (ltb ends w'.session.now ≡ false
            → session lib hash w' token t ≡ (session_of_user user ends, t))
        × (ltb ends w'.session.now ≡ true → (session lib hash w' token t).0 ≡ unauthenticated)
  unfolding session authorized require_session
  session-login w w' ip agent username password token ends user s t h one ne works works' =
      let (accepted, (made, created, is_token, at_end, sessions, accounts)) =
        login-made w ip agent username password token ends user s t h in
      let (shape, _, _) = create-made hash w.session user.id ip agent s.sessions made created in
      let owner : made.user_id ≡ user.id = ap (λ (m : Session). m.user_id) shape in
      let known : get_by_id w'.users made.user_id t.accounts ≡ ok user =
        rw (owner, accounts)
          (get_by_id-authenticate w.users w'.users username password s.accounts user one accepted
            works') in
      let (ends_at, early, late) =
        validate-create hash w.session w'.session user.id ip agent s.sessions made created
          (rw is_token ne) works in
      (
        sym at_end ∙ ends_at,
        λ e. rw (← at_end) (
            session_valid w' token t (record made { token = [] }) user
              (rw (sessions, ← is_token) (early (rw at_end e))) known),
        λ e.
            session_refused w' token t session_expired
              (rw (sessions, ← is_token) (late (rw at_end e))),
      )

  -- After a logout its token names nobody. Every token with another hash names whom it named before.
  -- Condition: the deletion works, and for the other token the query works.
  pub session-logout :
      (w1 w2 w' : World) (token other : Bytes) (s t : Server)
      → logout lib hash w1 w2 token s ≡ (logged_out, t)
      → w2.session.fails ≡ false
      → w'.session.fails ≡ false
      → hash other ≢ hash token
      → ((session lib hash w' token t).0 ≡ unauthenticated)
        × ((session lib hash w' other t).0 ≡ (session lib hash w' other s).0)
  unfolding authorized logout handle_logout
  session-logout w1 w2 w' token other s t h works works' ne =
      elim (Option-cases (require_session lib hash w1 token s).0) [
        | inl stop ↦ absurd (ground (arith, stop))
        | inr ((user, x), go) ↦
            let (same, filled) = require_session-some w1 token s user x go in
            let done : (
              logged_out,
              emit (logout_done user)
                  (record s { sessions = (delete hash w2.session token s.sessions).1 }),
            )
                ≡ (logged_out, t) =
              rw (logout, authorized, go, same, handle_logout, filled) at h in
            let after : t.sessions ≡ (delete hash w2.session token s.sessions).1 =
              ap (λ (p : Answer × Server). p.1.sessions) (sym done) in
            let people : t.accounts ≡ s.accounts =
              ap (λ (p : Answer × Server). p.1.accounts) (sym done) in
            let (gone, kept) =
              validate-delete hash w2.session w'.session token other s.sessions works works' ne in
            (
              session_refused w' token t session_not_found (rw after gone),
              rw (session_seen w' other t, session_seen w' other s, after, people, kept) refl,
            )
      ]
