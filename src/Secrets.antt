-- ===== src/Secrets.antt =====
-- internal/secrets/store.go: the encrypted secret store. The two tables of the database are a record
-- (migrations/*.sql: `secret_store` holds at most the row 1, `secrets` has the primary key `id` and
-- a unique index on type and name); the in-memory key is part of the state. A call of the database
-- that fails is chosen by `fails`, and what the clock, the random reader and the uuid generator
-- deliver are fields of `Env`, so that every method is a function. The read-write mutex makes each
-- access to the key one step. `crypto.Zero`, which overwrites copies that are not used again, has
-- no counterpart on values.
pub mod Table
pub mod Access
pub mod Keys
pub mod Rotation
pub mod KeyFile
pub mod Toy
mod Tests
use back_orbit.Base.{
  ℕ, ◌+◌, Bool, true, false, not, ◌&&◌, ◌||◌, Option, none, some, List, [], ◌∷◌, ◌++◌, Bytes, codes,
  length, ltb, ◌==◌, nat_eq, if◌then◌else◌, Result, ok, err, ◌>>=◌, ◌>>◌, guard, or_fail, map_err,
}
use back_orbit.Base.Text.{bytes_eq}
use back_orbit.Crypto.{
  Primitives, CryptoError, KdfParams, default_kdf_params, new_salt, new_key, derive_key, seal,
  open_sealed,
}

-- `Kind.Valid`
unfoldable pub is_valid_kind : Bytes → Bool
is_valid_kind k =
    k == codes "system"
    || k == codes "repository"
    || k == codes "database"
    || k == codes "notification"
    || k == codes "project"

-- The calls of the database.
pub data DbCall : Type 0 where
  count_stores insert_store load_store update_store : DbCall
  select_secret upsert_secret delete_secret : DbCall
  begin_tx select_all update_secret commit_tx : DbCall

pub data Error : Type 0 where
  locked not_initialized already_initialized invalid_passphrase not_found invalid_kind : Error
  short_passphrase empty_name : Error
  crypto : CryptoError → Error
  database : DbCall → Error
  decrypt : Bytes → Bytes → CryptoError → Error

pub record Env : Type 0 where
  pub fails : DbCall → Bool
  pub now : ℕ
  pub uuid : Bytes
  pub salt : Bytes
  pub key : Bytes
  pub nonce : Bytes
  -- the nonce of the n-th secret of a rotation
  pub row_nonce : ℕ → Bytes

pub record KeyRecord : Type 0 where
  pub salt : Bytes
  pub params : KdfParams
  pub wrapped_dek : Bytes
  pub wrapped_dek_nonce : Bytes
  pub key_version : ℕ
  pub created_at : ℕ
  pub updated_at : ℕ

pub record Secret : Type 0 where
  pub id : Bytes
  pub kind : Bytes
  pub name : Bytes
  pub ciphertext : Bytes
  pub nonce : Bytes
  pub key_version : ℕ
  pub created_at : ℕ
  pub updated_at : ℕ

pub record Metadata : Type 0 where
  pub id : Bytes
  pub kind : Bytes
  pub name : Bytes
  pub key_version : ℕ
  pub created_at : ℕ
  pub updated_at : ℕ

pub record Database : Type 0 where
  pub key_record : Option KeyRecord
  pub secrets : List Secret

pub record Store : Type 0 where
  pub db : Database
  pub dek : Option Bytes
  pub key_version : ℕ

-- `NewStore`
unfoldable pub new_store : Database → Store
new_store db = record { db = db; dek = none; key_version = 0 }

abbrev pub minimum_passphrase_length : ℕ
minimum_passphrase_length = 12

-- `fmt.Sprintf("back-orbit/dek/v%d", n)`: the decimal digits come from the standard library.
module _ (digits : ℕ → Bytes) where
  unfoldable pub dek_associated_data : ℕ → Bytes
  dek_associated_data n = codes "back-orbit/dek/v" ++ digits n

unfoldable pub secret_associated_data : Bytes → Bytes → Bytes → Bytes
secret_associated_data id kind name =
    codes "back-orbit/secret/" ++ (id ++ (b'/' ∷ (kind ++ (b'/' ∷ name))))

-- `SELECT ... WHERE type = ? AND name = ?`
unfoldable pub find_secret : Bytes → Bytes → List Secret → Option Secret
find_secret kind name [] = none
find_secret kind name (r ∷ rs) =
    if r.kind == kind && r.name == name then some r else find_secret kind name rs

-- `INSERT ... ON CONFLICT (id) DO UPDATE`
unfoldable pub upsert : Secret → List Secret → List Secret
upsert s [] = s ∷ []
upsert s (r ∷ rs) =
    if r.id == s.id
    then record r {
      ciphertext = s.ciphertext;
      nonce = s.nonce;
      key_version = s.key_version;
      updated_at = s.updated_at;
    }
      ∷ rs
    else r ∷ upsert s rs

-- `DELETE ... WHERE type = ? AND name = ?`
unfoldable pub delete_secrets : Bytes → Bytes → List Secret → List Secret
delete_secrets kind name [] = []
delete_secrets kind name (r ∷ rs) =
    let rest = delete_secrets kind name rs in
    if r.kind == kind && r.name == name then rest else r ∷ rest

unfoldable pub is_initialized : Env → Store → Result Error Bool
is_initialized env s = do
  guard (not (env.fails count_stores)) (database count_stores)
  elim s.db.key_record [ none ↦ ok false | some _ ↦ ok true ]

unfoldable pub is_unlocked : Store → Bool
is_unlocked s = elim s.dek [ none ↦ false | some _ ↦ true ]

unfoldable pub load_key_record : Env → Store → Result Error KeyRecord
load_key_record env s = do
  guard (not (env.fails load_store)) (database load_store)
  or_fail s.db.key_record not_initialized

-- The key and its generation. The copy that Go makes is the value itself.
unfoldable pub current_key : Store → Result Error (Bytes × ℕ)
current_key s = do dek ← or_fail s.dek locked; ok (dek, s.key_version)

unfoldable pub lock : Store → Store
lock s = record s { dek = none; key_version = 0 }

-- `metadata`: the row itself stands for what is read of it.
unfoldable pub metadata : Env → Store → Bytes → Bytes → Result Error Secret
metadata env s kind name = do
  guard (not (env.fails select_secret)) (database select_secret)
  or_fail (find_secret kind name s.db.secrets) not_found

abbrev pub metadata_of : Secret → Metadata
metadata_of r = record {
  id = r.id;
  kind = r.kind;
  name = r.name;
  key_version = r.key_version;
  created_at = r.created_at;
  updated_at = r.updated_at;
}

-- `Delete`: an absent secret is no error.
unfoldable pub delete : Env → Bytes → Bytes → Store → Result Error (Unit {0}) × Store
delete env kind name s =
    if env.fails delete_secret
    then (err (database delete_secret), s)
    else (ok tt, record s { db = record s.db { secrets = delete_secrets kind name s.db.secrets } })
