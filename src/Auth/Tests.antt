-- ===== src/Auth/Tests.antt =====
-- Runs of the set-up, of logins and of sessions, and their theorems at concrete inputs. The
-- password functions are a toy that meets what is documented of the real ones.
use back_orbit.Base.{
  ℕ, ◌+◌, ◌-◌, ◌≡◌, ◌≢◌, ◌≤◌, ◌<◌, Any, refl, false, true, none, some, [], ◌∷◌, map, arith, Bytes,
  codes, ok, err, if◌then◌else◌, ◌==◌, length, ltb, trim_space, All,
}
use back_orbit.Base.Text.{ne_of_bytes_beq, bytes_eq, bytes_beq, trim_left, trim_right}
use back_orbit.Secrets.Toy.{fit, fit-length}
use back_orbit.Auth.RateLimit.{new_login_rate_limiter, login_window, login_max_backoff, allow}
use back_orbit.Base.Assoc.{lookup}
use back_orbit.Auth.Password.{
  Library, dollar, hash_password, verify_password, default_params, version, decode_hash, split,
  six_parts, key_length,
}
use back_orbit.Auth.Session.{
  Row, create, insert_row, find_hash, has_id, validate, judge, delete, delete_hash, delete_expired,
}
use back_orbit.Auth.Session.Expiry.{delete_expired-exact, second}
use back_orbit.Auth.Users.{
  Account, User, create_user, has_any_user, insert_user, authenticate, get_by_id, find_name,
  find_user, invalid_credentials, user_already_set_up,
}
use back_orbit.Auth.Users.Administrator.{authenticate-create_user}
use back_orbit.Auth.Requests.{
  Server, World, login, logout, session, setup_admin, setup_named, first_session, start_session,
  authorized, require_session, handle_logout, session_of_user, unauthenticated,
}
use back_orbit.Auth.Requests.Lifecycle.{session-login, session-logout}
use back_orbit.Auth.Requests.Setup.{setup_admin_once}

shift : Bytes → Bytes
shift = map (λ c. 37 + c)

unshift : Bytes → Bytes
unshift = map (λ c. c - 37)

unshift-shift : (b : Bytes) → some (unshift (shift b)) ≡ some b
unfolding shift unshift
unshift-shift [] = refl
unshift-shift (c ∷ b) = ground (arith, unshift-shift b)

shift_plain : (b : Bytes) → All (λ c. c ≢ dollar) (shift b)
unfolding shift
shift_plain [] = tt
shift_plain (c ∷ b) = (λ e. omega (arith, e), shift_plain b)

unfoldable toy : Library
unfolding shift unshift
toy = record {
  id_key = λ p s q n. fit n p;
  encode = shift;
  decode = λ b. some (unshift b);
  scan_version = λ s. if s == codes "v=19" then some version else none;
  scan_params = λ s. if s == codes "m=65536,t=3,p=2" then some default_params else none;
  length-id_key = λ p s q n. fit-length n p;
  decode-encode = unshift-shift;
  encode_plain = shift_plain;
  scan_version_19 = unfold bytes_beq in refl;
  scan_params_default = unfold bytes_beq in refl;
}

world : ℕ → World
world t = record {
  allow_now = t;
  failure_now = t;
  users = record {
    now = t;
    uuid = codes "u-1";
    random = some (codes "salt");
    count_fails = false;
    insert_fails = false;
    query_fails = false;
  };
  session = record {
    now = t;
    uuid = codes "s-1";
    new_token = some (codes "tok");
    fails = false;
    cleanup_fails = false;
  };
}

abbrev digest : Bytes → Bytes
digest b = 7 ∷ b

empty : Server
unfolding new_login_rate_limiter
empty = record {
  limiter = new_login_rate_limiter 5 login_window login_max_backoff;
  accounts = [];
  sessions = record { rows = []; ttl = 1000 };
  emitted = [];
}

abbrev ip : Bytes
ip = codes "10.0.0.1"

abbrev password : Bytes
password = codes "twelve bytes"

abbrev admin : User
admin = record { id = codes "u-1"; username = codes "admin"; created_at = 5; updated_at = 5 }

-- Set up at 5 by a name with spaces round it.
installed : Server
unfolding setup_admin setup_named first_session create insert_row has_id find_hash world empty
    trim_left trim_right create_user has_any_user insert_user hash_password toy find_name find_user
    bytes_beq
installed = (setup_admin toy digest (world 5) ip [] (codes " admin ") password empty).1

setup_admin_once_example :
    (empty.accounts ≡ [])
    × (admin.username ≡ trim_space (codes " admin "))
    × (3 ≤ length (trim_space (codes " admin ")))
    × (length (trim_space (codes " admin ")) ≤ 64)
    × (12 ≤ length password)
    × ((w' : World) (ip' agent' username' password' : Bytes)
        → (setup_admin toy digest w' ip' agent' username' password' installed).1 ≡ installed)
unfolding installed
setup_admin_once_example =
    setup_admin_once toy digest (world 5) ip [] (codes " admin ") password (codes "tok") 1005 admin
      empty installed refl

abbrev account : Account
unfolding hash_password toy
account = record {
  user = admin;
  password_hash = elim (hash_password toy (some (codes "salt")) password) [ ok h ↦ h | err _ ↦ [] ];
}

authenticate-create_user_example :
    (authenticate toy (world 9).users (codes "admin") password (account ∷ []) ≡ (
      if toy.id_key password (codes "salt") default_params key_length
        == toy.id_key password (codes "salt") default_params key_length
      then ok admin
      else err invalid_credentials))
    × ((name : Bytes)
        → name ≢ codes "admin"
        → authenticate toy (world 9).users name password (account ∷ []) ≡ err invalid_credentials)
    × (get_by_id (world 9).users admin.id (account ∷ []) ≡ ok admin)
    × ((name : Bytes)
        → create_user toy (world 9).users name password (account ∷ []) ≡ err user_already_set_up)
unfolding installed
authenticate-create_user_example =
    authenticate-create_user toy (world 5).users (world 9).users (codes "admin") password password
      [] (account ∷ []) admin (codes "salt") refl refl refl refl

-- A login at 20, with a token of its own.
login_world : World
unfolding world
login_world = record (world 20) {
  session = record {
    now = 20;
    uuid = codes "s-2";
    new_token = some (codes "tok2");
    fails = false;
    cleanup_fails = false;
  };
}

entered : Server
unfolding login start_session login_world installed authenticate verify_password decode_hash split
    six_parts allow lookup fit
entered = (login toy digest login_world ip [] (codes "admin") password installed).1

session-login_example :
    (1020 ≡ 20 + installed.sessions.ttl)
    × (ltb 1020 1020 ≡ false
        → session toy digest (world 1020) (codes "tok2") entered
          ≡ (session_of_user admin 1020, entered))
    × (ltb 1020 1020 ≡ true
        → (session toy digest (world 1020) (codes "tok2") entered).0 ≡ unauthenticated)
unfolding entered
session-login_example =
    session-login toy digest login_world (world 1020) ip [] (codes "admin") password (codes "tok2")
      1020 admin installed entered refl (omega arith) (ne_of_bytes_beq _ _ refl) refl refl

left : Server
unfolding logout authorized require_session handle_logout validate judge delete delete_hash entered
    get_by_id
left = (logout toy digest (world 30) (world 31) (codes "tok2") entered).1

session-logout_example :
    ((session toy digest (world 40) (codes "tok2") left).0 ≡ unauthenticated)
    × ((session toy digest (world 40) (codes "tok") left).0
        ≡ (session toy digest (world 40) (codes "tok") entered).0)
unfolding left
session-logout_example =
    session-logout toy digest (world 30) (world 31) (world 40) (codes "tok2") (codes "tok") entered
      left refl refl refl (ne_of_bytes_beq _ _ refl)

-- The other session is still good.
other_session : (session toy digest (world 40) (codes "tok") left).0 ≡ session_of_user admin 1005
unfolding left session
other_session = refl

delete_expired-exact_example :
    let (answer, t) = delete_expired (world 2_000_000_000).session entered.sessions in
    All (λ r. second 2_000_000_000 ≤ second r.expires_at) t.rows
    × ((r : Row)
        → second 2_000_000_000 < second r.expires_at
        → Any (λ x. x ≡ r) entered.sessions.rows
        → Any (λ x. x ≡ r) t.rows)
    × ((n : ℕ) × (answer ≡ ok n) × (n + length t.rows ≡ length entered.sessions.rows))
unfolding world
delete_expired-exact_example =
    delete_expired-exact (world 2_000_000_000).session entered.sessions refl
