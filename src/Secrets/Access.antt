-- ===== src/Secrets/Access.antt =====
-- `Put` and `Get` of internal/secrets/store.go.
pub mod RoundTrip
pub mod Binding
pub mod Effects
use back_orbit.Base.{
  ℕ, Bool, not, [], Bytes, ◌==◌, Result, ok, err, ◌>>=◌, ◌>>◌, guard, or_fail, map_err,
}
use back_orbit.Base.Text.{bytes_eq}
use back_orbit.Crypto.{Primitives, seal, open_sealed}
use back_orbit.Secrets.{
  Error, locked, not_found, invalid_kind, empty_name, crypto, database, decrypt, select_secret,
  upsert_secret, Env, Secret, Metadata, Store, is_valid_kind, secret_associated_data, find_secret,
  upsert, current_key, metadata, metadata_of,
}

-- The identity and the time of creation that `Put` writes under: an existing secret keeps its own.
unfoldable pub known_or_new : Env → Result Error Secret → Result Error (Bytes × ℕ)
known_or_new env (ok existing) = ok (existing.id, existing.created_at)
known_or_new env (err not_found) = ok (env.uuid, env.now)
known_or_new env (err e) = err e

module _ (c : Primitives) where
  -- The row that `write` stores.
  unfoldable pub sealed_row :
      Env → Bytes → Bytes → Bytes → Bytes → Bytes → ℕ → ℕ → Result Error Secret
  sealed_row env id kind name value dek version created = do
    sealed ← map_err crypto (seal c dek value (secret_associated_data id kind name) env.nonce)
    guard (not (env.fails upsert_secret)) (database upsert_secret)
    ok (record {
      id = id;
      kind = kind;
      name = name;
      ciphertext = sealed.0;
      nonce = sealed.1;
      key_version = version;
      created_at = created;
      updated_at = env.now;
    })

  -- `Put` up to its write to the database.
  unfoldable pub put_row : Env → Bytes → Bytes → Bytes → Store → Result Error Secret
  put_row env kind name value s = do
    guard (is_valid_kind kind) invalid_kind
    guard (not (name == [])) empty_name
    key ← current_key s
    identity ← known_or_new env (metadata env s kind name)
    sealed_row env identity.0 kind name value key.0 key.1 identity.1

  stored : Store → Result Error Secret → Result Error Metadata × Store
  stored s (err e) = (err e, s)
  stored s (ok r) =
      (ok (metadata_of r), record s { db = record s.db { secrets = upsert r s.db.secrets } })

  unfoldable pub put : Env → Bytes → Bytes → Bytes → Store → Result Error Metadata × Store
  unfolding stored
  put env kind name value s = stored s (put_row env kind name value s)

  unfoldable pub get : Env → Bytes → Bytes → Store → Result Error Bytes
  get env kind name s = do
    key ← current_key s
    guard (not (env.fails select_secret)) (database select_secret)
    row ← or_fail (find_secret kind name s.db.secrets) not_found
    map_err (decrypt kind name)
        (open_sealed c key.0 row.ciphertext row.nonce (secret_associated_data row.id kind name))
