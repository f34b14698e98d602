-- ===== src/Secrets/Keys.antt =====
-- `Initialize`, `Unlock` and `ChangeMasterPassphrase` of internal/secrets/store.go. `digits` is the
-- decimal notation of `fmt.Sprintf`.
pub mod Unlocking
use back_orbit.Base.{
  ℕ, Bool, not, some, Bytes, length, ltb, Result, ok, err, ◌>>=◌, ◌>>◌, guard, map_err,
}
use back_orbit.Crypto.{
  Primitives, default_kdf_params, new_salt, new_key, derive_key, seal, open_sealed,
}
use back_orbit.Secrets.{
  Error, already_initialized, invalid_passphrase, short_passphrase, crypto, database, insert_store,
  update_store, Env, KeyRecord, Store, minimum_passphrase_length, dek_associated_data,
  is_initialized, load_key_record,
}

-- Any failure of `crypto.Open` on the wrapped key is reported as a wrong passphrase.
abbrev pub no_oracle {ℓ κ} : {E : Type ℓ} {A : Type κ} → Result E A → Result Error A
no_oracle (ok a) = ok a
no_oracle (err _) = err invalid_passphrase

module _ (c : Primitives) (digits : ℕ → Bytes) where
  -- The key record of a fresh installation, and its key.
  unfoldable pub fresh_keys : Env → Bytes → Store → Result Error (KeyRecord × Bytes)
  fresh_keys env passphrase s = do
    guard (not (ltb (length passphrase) minimum_passphrase_length)) short_passphrase
    initialized ← is_initialized env s
    guard (not initialized) already_initialized
    salt ← map_err crypto (new_salt env.salt)
    kek ← map_err crypto (derive_key c passphrase salt default_kdf_params)
    dek ← map_err crypto (new_key env.key)
    wrapped ← map_err crypto (seal c kek dek (dek_associated_data digits 1) env.nonce)
    guard (not (env.fails insert_store)) (database insert_store)
    ok (
      record {
        salt = salt;
        params = default_kdf_params;
        wrapped_dek = wrapped.0;
        wrapped_dek_nonce = wrapped.1;
        key_version = 1;
        created_at = env.now;
        updated_at = env.now;
      },
      dek,
    )

  installed : Store → Result Error (KeyRecord × Bytes) → Result Error (Unit {0}) × Store
  installed s (err e) = (err e, s)
  installed s (ok (r, dek)) =
      (ok tt, record { db = record s.db { key_record = some r }; dek = some dek; key_version = 1 })

  unfoldable pub initialize : Env → Bytes → Store → Result Error (Unit {0}) × Store
  unfolding installed
  initialize env passphrase s = installed s (fresh_keys env passphrase s)

  -- The data key that a passphrase unwraps from a key record.
  unfoldable pub unwrap : Bytes → KeyRecord → Result Error Bytes
  unwrap passphrase r = do
    kek ← map_err crypto (derive_key c passphrase r.salt r.params)
    no_oracle (
        open_sealed c kek r.wrapped_dek r.wrapped_dek_nonce
          (dek_associated_data digits r.key_version))

  unfoldable pub unlocked_key : Env → Bytes → Store → Result Error (Bytes × ℕ)
  unlocked_key env passphrase s = do
    r ← load_key_record env s
    dek ← unwrap passphrase r
    ok (dek, r.key_version)

  loaded : Store → Result Error (Bytes × ℕ) → Result Error (Unit {0}) × Store
  loaded s (err e) = (err e, s)
  loaded s (ok (dek, version)) = (ok tt, record s { dek = some dek; key_version = version })

  unfoldable pub unlock : Env → Bytes → Store → Result Error (Unit {0}) × Store
  unfolding loaded
  unlock env passphrase s = loaded s (unlocked_key env passphrase s)

  -- The key record that `ChangeMasterPassphrase` writes over the old one.
  unfoldable pub rewrapped : Env → Bytes → Bytes → Store → Result Error KeyRecord
  rewrapped env current next s = do
    guard (not (ltb (length next) minimum_passphrase_length)) short_passphrase
    r ← load_key_record env s
    dek ← unwrap current r
    salt ← map_err crypto (new_salt env.salt)
    kek ← map_err crypto (derive_key c next salt default_kdf_params)
    wrapped ← map_err crypto (seal c kek dek (dek_associated_data digits r.key_version) env.nonce)
    guard (not (env.fails update_store)) (database update_store)
    ok (record r {
      salt = salt;
      params = default_kdf_params;
      wrapped_dek = wrapped.0;
      wrapped_dek_nonce = wrapped.1;
      updated_at = env.now;
    })

  replaced : Store → Result Error KeyRecord → Result Error (Unit {0}) × Store
  replaced s (err e) = (err e, s)
  replaced s (ok r) = (ok tt, record s { db = record s.db { key_record = some r } })

  unfoldable pub change_master_passphrase :
      Env → Bytes → Bytes → Store → Result Error (Unit {0}) × Store
  unfolding replaced
  change_master_passphrase env current next s = replaced s (rewrapped env current next s)
