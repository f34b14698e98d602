-- ===== src/Secrets/Rotation.antt =====
-- `RotateDataKey` of internal/secrets/store.go. The transaction works on a copy of the database that
-- replaces the original at the commit: an error before that is the roll-back.
pub mod Rows
pub mod Readers
use back_orbit.Base.{
  ℕ, zero, suc, ◌+◌, Bool, not, some, List, [], ◌∷◌, Bytes, ◌==◌, if◌then◌else◌, Result, ok, err,
  ◌>>=◌, ◌>>◌, guard, map_err,
}
use back_orbit.Base.Text.{bytes_eq}
use back_orbit.Crypto.{Primitives, new_key, derive_key, seal, open_sealed}
use back_orbit.Secrets.{
  Error, crypto, database, decrypt, begin_tx, select_all, update_secret, update_store, commit_tx,
  Env, KeyRecord, Secret, Database, Store, dek_associated_data, secret_associated_data,
  load_key_record,
}
use back_orbit.Secrets.Keys.{no_oracle}

-- `reencrypted`
pub record Reencrypted : Type 0 where
  pub id : Bytes
  pub ciphertext : Bytes
  pub nonce : Bytes

-- `UPDATE secrets SET ... WHERE id = ?`
unfoldable pub update_row : ℕ → ℕ → Reencrypted → List Secret → List Secret
update_row version now u [] = []
update_row version now u (r ∷ rs) =
    let rest = update_row version now u rs in
    if r.id == u.id
    then record r {
      ciphertext = u.ciphertext;
      nonce = u.nonce;
      key_version = version;
      updated_at = now;
    }
      ∷ rest
    else r ∷ rest

-- The second loop.
unfoldable pub apply_updates : Env → ℕ → List Reencrypted → List Secret → Result Error (List Secret)
apply_updates env version [] rows = ok rows
apply_updates env version (u ∷ us) rows = do
  guard (not (env.fails update_secret)) (database update_secret)
  apply_updates env version us (update_row version env.now u rows)

module _ (c : Primitives) where
  unfoldable pub reencrypt_row : Bytes → Bytes → Bytes → Secret → Result Error Reencrypted
  reencrypt_row old new delivered r = do
    let associated = secret_associated_data r.id r.kind r.name
    plaintext ← map_err (decrypt r.kind r.name) (open_sealed c old r.ciphertext r.nonce associated)
    sealed ← map_err crypto (seal c new plaintext associated delivered)
    ok (record { id = r.id; ciphertext = sealed.0; nonce = sealed.1 })

  -- The first loop, from the n-th row on.
  unfoldable pub reencrypt : Bytes → Bytes → Env → ℕ → List Secret → Result Error (List Reencrypted)
  reencrypt old new env n [] = ok []
  reencrypt old new env n (r ∷ rs) = do
    u ← reencrypt_row old new (env.row_nonce n) r
    us ← reencrypt old new env (n + 1) rs
    ok (u ∷ us)

  module _ (digits : ℕ → Bytes) where
    -- The database after the commit, the new key and its generation.
    unfoldable pub rotated : Env → Bytes → Store → Result Error (Database × Bytes × ℕ)
    rotated env passphrase s = do
      r ← load_key_record env s
      kek ← map_err crypto (derive_key c passphrase r.salt r.params)
      old ← no_oracle (
          open_sealed c kek r.wrapped_dek r.wrapped_dek_nonce
            (dek_associated_data digits r.key_version))
      new ← map_err crypto (new_key env.key)
      let version = r.key_version + 1
      guard (not (env.fails begin_tx)) (database begin_tx)
      guard (not (env.fails select_all)) (database select_all)
      updates ← reencrypt old new env 0 s.db.secrets
      rows ← apply_updates env version updates s.db.secrets
      wrapped ← map_err crypto (seal c kek new (dek_associated_data digits version) env.nonce)
      guard (not (env.fails update_store)) (database update_store)
      guard (not (env.fails commit_tx)) (database commit_tx)
      ok (
        record {
          key_record = some (record r {
            wrapped_dek = wrapped.0;
            wrapped_dek_nonce = wrapped.1;
            key_version = version;
            updated_at = env.now;
          });
          secrets = rows;
        },
        new,
        version,
      )

    committed : Store → Result Error (Database × Bytes × ℕ) → Result Error (Unit {0}) × Store
    committed s (err e) = (err e, s)
    committed s (ok (db, new, version)) =
        (ok tt, record { db = db; dek = some new; key_version = version })

    -- One step, for callers one after another: the program commits the transaction before it takes
    -- the mutex and swaps the key in memory, and a `Get` between the two is not modelled.
    unfoldable pub rotate_data_key : Env → Bytes → Store → Result Error (Unit {0}) × Store
    unfolding committed
    rotate_data_key env passphrase s = committed s (rotated env passphrase s)
