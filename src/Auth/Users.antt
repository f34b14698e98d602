-- ===== src/Auth/Users.antt =====
-- internal/auth/user.go: the accounts. The table `users` is a list of rows; a name and an id are
-- unique in it. `Authenticate` also verifies a fixed hash for an unknown name, for the time that it
-- takes; that has no result.
pub mod Administrator
use back_orbit.Base.{
  ℕ, Bool, true, false, not, ◌||◌, Option, none, some, List, [], ◌∷◌, ◌++◌, Bytes, ◌==◌,
  if◌then◌else◌, Result, ok, err, ◌>>=◌, ◌>>◌, guard, or_fail, map_err,
}
use back_orbit.Base.Text.{bytes_eq}
use back_orbit.Auth.Password.{Library, PasswordError, hash_password, verify_password}

pub data UserError : Type 0 where
  user_exists user_already_set_up invalid_credentials count_failed insert_failed query_failed :
      UserError
  hash_failed : PasswordError → UserError

pub record User : Type 0 where
  pub id : Bytes
  pub username : Bytes
  pub created_at : ℕ
  pub updated_at : ℕ

pub record Account : Type 0 where
  pub user : User
  pub password_hash : Bytes

-- What the clock, the uuid generator, the random reader and the database answer in one call.
pub record Answers : Type 0 where
  pub now : ℕ
  pub uuid : Bytes
  pub random : Option Bytes
  pub count_fails : Bool
  pub insert_fails : Bool
  pub query_fails : Bool

unfoldable pub find_name : Bytes → List Account → Option Account
find_name name [] = none
find_name name (a ∷ accounts) =
    let rest = find_name name accounts in if a.user.username == name then some a else rest

unfoldable pub find_user : Bytes → List Account → Option Account
find_user id [] = none
find_user id (a ∷ accounts) =
    let rest = find_user id accounts in if a.user.id == id then some a else rest

abbrev pub is_some : Option Account → Bool
is_some none = false
is_some (some _) = true

abbrev pub is_cons : List Account → Bool
is_cons [] = false
is_cons (_ ∷ _) = true

-- `HasAnyUser`
unfoldable pub has_any_user : Answers → List Account → Result UserError Bool
has_any_user q accounts = do guard (not q.count_fails) count_failed; ok (is_cons accounts)

-- INSERT INTO users
unfoldable pub insert_user : Answers → Account → List Account → Result UserError (List Account)
insert_user q a accounts = do
  guard
      (not (is_some (find_name a.user.username accounts) || is_some (find_user a.user.id accounts)))
      user_exists
  guard (not q.insert_fails) insert_failed
  ok (accounts ++ (a ∷ []))

-- `GetByID`
unfoldable pub get_by_id : Answers → Bytes → List Account → Result UserError User
get_by_id q id accounts = do
  guard (not q.query_fails) query_failed
  a ← or_fail (find_user id accounts) invalid_credentials
  ok a.user

abbrev pub new_user : Answers → Bytes → User
new_user q username = record {
  id = q.uuid;
  username = username;
  created_at = q.now;
  updated_at = q.now;
}

module _ (lib : Library) where
  -- `CreateUser`: the new user and the table that holds it.
  unfoldable pub create_user :
      Answers → Bytes → Bytes → List Account → Result UserError (User × List Account)
  create_user q username password accounts = do
    any ← has_any_user q accounts
    guard (not any) user_already_set_up
    hash ← map_err hash_failed (hash_password lib q.random password)
    table ← insert_user q (record { user = new_user q username; password_hash = hash }) accounts
    ok (new_user q username, table)

  -- `Authenticate`
  unfoldable pub authenticate : Answers → Bytes → Bytes → List Account → Result UserError User
  authenticate q username password accounts = do
    guard (not q.query_fails) query_failed
    a ← or_fail (find_name username accounts) invalid_credentials
    same ← map_err hash_failed (verify_password lib a.password_hash password)
    guard same invalid_credentials
    ok a.user
