-- ===== src/Auth/Users/Administrator.antt =====
-- The one account that the set-up makes.
use back_orbit.Base.{
  Bool, false, some, List, [], ◌∷◌, Bytes, ◌==◌, if◌then◌else◌, ok, err, ◌≡◌, refl, arith,
  Result-cases, inl, inr, ◌≢◌,
}
use back_orbit.Base.Text.{bytes_eq, bytes_beq_iff}
use back_orbit.Auth.Password.{Library, hash_password, verify_password, default_params, key_length}
use back_orbit.Auth.Password.Verified.{verify_password-hash_password}
use back_orbit.Auth.Users.{
  User, Account, Answers, find_name, find_user, has_any_user, insert_user, get_by_id, create_user,
  authenticate, user_already_set_up, invalid_credentials,
}

module _ (lib : Library) where
  -- What `CreateUser` leaves when it succeeds: the table was empty, and holds the one account.
  pub create_user-made :
      (q : Answers) (username password : Bytes) (accounts table : List Account) (user : User)
      → create_user lib q username password accounts ≡ ok (user, table)
      → (accounts ≡ [])
        × ((hash : Bytes) × (hash_password lib q.random password ≡ ok hash)
            × (table ≡ record { user = user; password_hash = hash } ∷ []))
        × (user.username ≡ username)
        × (user.id ≡ q.uuid)
  unfolding create_user has_any_user insert_user find_name find_user
  create_user-made q username password [] table user h =
      elim (Result-cases (hash_password lib q.random password)) [
        | inr (e, bad) ↦ absurd (ground (arith, bad))
        | inl (hash, good) ↦
            (refl, (hash, good, ground (arith, good)), ground (arith, good), ground (arith, good))
      ]
  create_user-made q username password (a ∷ accounts) table user h = absurd (ground arith)

  module _ (r : Answers) (works : r.query_fails ≡ false) (user : User) (hash : Bytes) where
    abbrev one_account : List Account
    one_account = record { user = user; password_hash = hash } ∷ []

    authenticate-one_account :
        (other : Bytes) (same : Bool)
        → verify_password lib hash other ≡ ok same
        → authenticate lib r user.username other one_account
          ≡ (if same then ok user else err invalid_credentials)
    unfolding authenticate find_name
    authenticate-one_account other same v =
        ground (arith, v, bytes_beq_iff user.username user.username)

    authenticate_stranger :
        (name other : Bytes)
        → name ≢ user.username
        → authenticate lib r name other one_account ≡ err invalid_credentials
    unfolding authenticate find_name
    authenticate_stranger name other ne = ground (arith, ne, bytes_beq_iff user.username name)

    get_by_id-one_account : get_by_id r user.id one_account ≡ ok user
    unfolding get_by_id find_user
    get_by_id-one_account = ground (arith, bytes_beq_iff user.id user.id)

  -- After `CreateUser` its account logs in under its own name only, and there with exactly the
  -- passwords to which Argon2id gives the key of its own; its id finds it, and no second account can
  -- be made. Conditions: `salt` is what the random reader delivered, and the later queries work.
  pub authenticate-create_user :
      (q r : Answers) (username password other : Bytes) (accounts table : List Account)
      (user : User) (salt : Bytes)
      → q.random ≡ some salt
      → create_user lib q username password accounts ≡ ok (user, table)
      → r.query_fails ≡ false
      → r.count_fails ≡ false
      → let key = λ (p : Bytes). lib.id_key p salt default_params key_length in
        (authenticate lib r username other table
          ≡ (if key password == key other then ok user else err invalid_credentials))
        × ((name : Bytes)
            → name ≢ username
            → authenticate lib r name other table ≡ err invalid_credentials)
        × (get_by_id r user.id table ≡ ok user)
        × ((name : Bytes) → create_user lib r name other table ≡ err user_already_set_up)
  unfolding create_user has_any_user
  authenticate-create_user q r username password other accounts table user salt drawn h works
        counts =
      let (_, (hash, good, filled), named, _) =
        create_user-made q username password accounts table user h in
      let read : hash_password lib (some salt) password ≡ ok hash = rw drawn at good in
      rw (filled, ← named)
        (
          authenticate-one_account r works user hash other _
              (verify_password-hash_password lib salt password other hash read),
          λ name ne. authenticate_stranger r works user hash name other ne,
          get_by_id-one_account r works user hash,
          λ name. rw (create_user, counts) refl,
        )
