-- ===== src/Auth/Session.antt =====
-- internal/auth/session.go: the session store. The table `sessions` (migrations/0001_init.sql) is a
-- list of rows, with a primary key and one row for each hash. SHA-256 is a parameter; a new token is
-- what the random reader delivered, encoded. A time is its nanoseconds.
pub mod Lifecycle
pub mod Expiry
use back_orbit.Base.{
  ℕ, ◌+◌, Bool, true, false, not, ◌||◌, ◌&&◌, Option, none, some, List, [], ◌∷◌, ◌++◌, Bytes, ◌==◌,
  if◌then◌else◌, ltb, Result, ok, err, suc,
}
use back_orbit.Base.Text.{bytes_eq}
use back_orbit.Base.Times.{stored_lt}

pub data SessionError : Type 0 where
  session_not_found session_expired no_token insert_failed query_failed delete_failed : SessionError

-- The returned session; `token` is empty but for a new one.
pub record Session : Type 0 where
  pub id : Bytes
  pub user_id : Bytes
  pub token : Bytes
  pub ip : Bytes
  pub user_agent : Bytes
  pub expires_at : ℕ
  pub created_at : ℕ

pub record Row : Type 0 where
  pub id : Bytes
  pub user_id : Bytes
  pub token_hash : Bytes
  pub ip : Bytes
  pub user_agent : Bytes
  pub expires_at : ℕ
  pub created_at : ℕ

pub record SessionStore : Type 0 where
  pub rows : List Row
  pub ttl : ℕ

unfoldable pub find_hash : Bytes → List Row → Option Row
find_hash h [] = none
find_hash h (r ∷ rs) = let rest = find_hash h rs in if r.token_hash == h then some r else rest

unfoldable pub has_id : Bytes → List Row → Bool
has_id id [] = false
has_id id (r ∷ rs) = r.id == id || has_id id rs

-- DELETE FROM sessions WHERE token_hash = ?
unfoldable pub delete_hash : Bytes → List Row → List Row
delete_hash h [] = []
delete_hash h (r ∷ rs) = let rest = delete_hash h rs in if r.token_hash == h then rest else r ∷ rest

-- DELETE FROM sessions WHERE id = ?
unfoldable pub delete_id : Bytes → List Row → List Row
delete_id id [] = []
delete_id id (r ∷ rs) = let rest = delete_id id rs in if r.id == id then rest else r ∷ rest

-- DELETE FROM sessions WHERE expires_at < ?: how many rows, and the others.
unfoldable pub delete_before : ℕ → List Row → ℕ × List Row
delete_before now [] = (0, [])
delete_before now (r ∷ rs) =
    let (n, rest) = delete_before now rs in
    if stored_lt r.expires_at now then (suc n, rest) else (n, r ∷ rest)

abbrev pub session_of : Row → Session
session_of r = record {
  id = r.id;
  user_id = r.user_id;
  token = [];
  ip = r.ip;
  user_agent = r.user_agent;
  expires_at = r.expires_at;
  created_at = r.created_at;
}

-- What the clock, the random reader, the uuid generator and the database answer in one call.
pub record Call : Type 0 where
  pub now : ℕ
  pub uuid : Bytes
  pub new_token : Option Bytes
  pub fails : Bool
  -- the deletion of an expired session
  pub cleanup_fails : Bool

module _ (hash : Bytes → Bytes) where
  abbrev pub new_row : Call → Bytes → Bytes → Bytes → Bytes → ℕ → Row
  new_row c token user ip agent ttl = record {
    id = c.uuid;
    user_id = user;
    token_hash = hash token;
    ip = ip;
    user_agent = agent;
    expires_at = c.now + ttl;
    created_at = c.now;
  }

  -- The insertion; the table refuses a second row with the id or the hash.
  unfoldable pub insert_row : Call → Row → SessionStore → Option SessionStore
  insert_row c r s =
      if c.fails || has_id r.id s.rows then none else elim (find_hash r.token_hash s.rows) [
        | none ↦ some (record s { rows = s.rows ++ (r ∷ []) })
        | some _ ↦ none
      ]

  -- `Create`
  unfoldable pub create :
      Call → Bytes → Bytes → Bytes → SessionStore → Result SessionError Session × SessionStore
  create c user ip agent s = elim c.new_token [
    | none ↦ (err no_token, s)
    | some token ↦ elim (insert_row c (new_row c token user ip agent s.ttl) s) [
      | none ↦ (err insert_failed, s)
      | some t ↦
          (ok (record (session_of (new_row c token user ip agent s.ttl)) { token = token }), t)
    ]
  ]

  -- The part of `Validate` behind the query.
  unfoldable pub judge : Call → Row → SessionStore → Result SessionError Session × SessionStore
  judge c r s =
      if ltb r.expires_at c.now
      then (
        err session_expired,
        if c.cleanup_fails then s else record s { rows = delete_id r.id s.rows },
      )
      else (ok (session_of r), s)

  -- `Validate`
  unfoldable pub validate : Call → Bytes → SessionStore → Result SessionError Session × SessionStore
  validate c token s =
      if token == []
      then (err session_not_found, s)
      else if c.fails
      then (err query_failed, s)
      else elim (find_hash (hash token) s.rows) [
        | none ↦ (err session_not_found, s)
        | some r ↦ judge c r s
      ]

  -- `Delete`
  unfoldable pub delete :
      Call → Bytes → SessionStore → Result SessionError (Unit {0}) × SessionStore
  delete c token s =
      if c.fails
      then (err delete_failed, s)
      else (ok tt, record s { rows = delete_hash (hash token) s.rows })

-- `DeleteExpired`
unfoldable pub delete_expired : Call → SessionStore → Result SessionError ℕ × SessionStore
delete_expired c s =
    if c.fails
    then (err delete_failed, s)
    else let (n, rows) = delete_before c.now s.rows in (ok n, record s { rows = rows })
