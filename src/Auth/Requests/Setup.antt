-- ===== src/Auth/Requests/Setup.antt =====
-- The set-up of the administrator.
use back_orbit.Base.{
  ℕ, List, [], ◌∷◌, Bytes, length, trim_space, ok, err, ◌≡◌, ◌≢◌, ◌≤◌, arith, Result-cases, inl,
  inr, Bool-cases,
}
use back_orbit.Auth.Password.{Library}
use back_orbit.Auth.Users.{
  Account, Answers, User, UserError, count_failed, user_already_set_up, create_user, has_any_user,
}
use back_orbit.Auth.Users.Administrator.{create_user-made}
use back_orbit.Auth.Requests.{
  Server, World, account_created, admin_account_created, emit, first_session, setup_admin,
  setup_named, setup_refused,
}

module _ (lib : Library) (hash : Bytes → Bytes) where
  create_user_again :
      (q : Answers) (name password : Bytes) (a : Account) (accounts : List Account)
      → (e : UserError) × (create_user lib q name password (a ∷ accounts) ≡ err e)
  unfolding create_user has_any_user
  create_user_again q name password a accounts = elim (Bool-cases q.count_fails) [
    | inl e ↦ (count_failed, ground (arith, e))
    | inr e ↦ (user_already_set_up, ground (arith, e))
  ]

  setup_named_again :
      (w : World) (ip agent name password : Bytes) (a : Account) (accounts : List Account)
      (s : Server)
      → s.accounts ≡ a ∷ accounts
      → (setup_named lib hash w ip agent name password s).1 ≡ s
  unfolding setup_named
  setup_named_again w ip agent name password a accounts s held =
      let (e, no_second) = create_user_again w.users name password a accounts in
      let refusal : create_user lib w.users name password s.accounts ≡ err e = rw held no_second in
      ground (arith, refusal)

  first_session-made :
      (w : World) (ip agent token : Bytes) (ends : ℕ) (u user : User) (s t : Server)
      → first_session lib hash w ip agent u s ≡ (account_created user token ends, t)
      → (user ≡ u) × (t.accounts ≡ s.accounts)
  unfolding first_session
  first_session-made w ip agent token ends u user s t h = ground arith

  setup_refused-ne :
      (e : UserError) (user : User) (token : Bytes) (ends : ℕ)
      → setup_refused e ≢ account_created user token ends
  setup_refused-ne user_already_set_up user token ends = cc
  setup_refused-ne _ user token ends = cc

  setup_named-made :
      (w : World) (ip agent name password token : Bytes) (ends : ℕ) (user : User) (s t : Server)
      → setup_named lib hash w ip agent name password s ≡ (account_created user token ends, t)
      → (3 ≤ length name)
        × (length name ≤ 64)
        × (12 ≤ length password)
        × (create_user lib w.users name password s.accounts ≡ ok (user, t.accounts))
  unfolding setup_named
  setup_named-made w ip agent name password token ends user s t h =
      elim (Result-cases (create_user lib w.users name password s.accounts)) [
        | inr (e, bad) ↦ absurd (ground (arith, bad, setup_refused-ne e user token ends))
        | inl ((u, table), good) ↦
            let begun : first_session lib hash w ip agent u
                  (emit (admin_account_created u) (record s { accounts = table }))
                ≡ (account_created user token ends, t) =
              ground (arith, good) in
            let (same, held) = first_session-made w ip agent token ends u user _ t begun in
            (ground (arith, good), ground (arith, good), ground (arith, good), rw (same, held) good)
      ]

  -- The set-up succeeds only where there is no account. It then holds the account of the trimmed
  -- name, of 3 to 64 bytes, with a password of 12 bytes at least, and no later set-up changes
  -- anything.
  pub setup_admin_once :
      (w : World) (ip agent username password token : Bytes) (ends : ℕ) (user : User) (s t : Server)
      → setup_admin lib hash w ip agent username password s ≡ (account_created user token ends, t)
      → (s.accounts ≡ [])
        × (user.username ≡ trim_space username)
        × (3 ≤ length (trim_space username))
        × (length (trim_space username) ≤ 64)
        × (12 ≤ length password)
        × ((w' : World) (ip' agent' username' password' : Bytes)
            → (setup_admin lib hash w' ip' agent' username' password' t).1 ≡ t)
  unfolding setup_admin
  setup_admin_once w ip agent username password token ends user s t h =
      let name = trim_space username in
      let (long, short, safe, made) =
        setup_named-made w ip agent name password token ends user s t h in
      let (none_yet, (_, _, held), named, _) =
        create_user-made lib w.users name password s.accounts t.accounts user made in
      (
        none_yet,
        named,
        long,
        short,
        safe,
        λ w' ip' agent' username' password'.
            setup_named_again w' ip' agent' (trim_space username') password' _ [] t held,
      )
