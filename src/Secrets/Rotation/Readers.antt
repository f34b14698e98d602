-- ===== src/Secrets/Rotation/Readers.antt =====
-- What a rotation means to those who read secrets, and to the next unlock.
use back_orbit.Base.{
  ℕ, ◌+◌, ◌≡◌, refl, sym, ◌∙◌, false, some, List, [], arith, Bytes, ok_or, Result-cases, inl, inr,
  not, ok, ◌>>◌, guard,
}
use back_orbit.Crypto.{Primitives, new_key, derive_key, seal}
use back_orbit.Crypto.Laws.{open_sealed-seal}
use back_orbit.Secrets.{
  database, select_secret, load_store, Env, KeyRecord, Database, Store, dek_associated_data,
  find_secret, load_key_record, current_key, lock,
}
use back_orbit.Secrets.Table.{DistinctIds}
use back_orbit.Secrets.Access.{get}
use back_orbit.Secrets.Keys.{unwrap, unlocked_key, unlock}
use back_orbit.Secrets.Rotation.{Reencrypted, apply_updates, reencrypt, rotated, rotate_data_key}
use back_orbit.Secrets.Rotation.Rows.{
  reencrypt-CarriesAll, loops-rewrite_all, read_row, read_row-rewrite_all,
}

module _ (c : Primitives) (digits : ℕ → Bytes) where
  -- `Get` is the choice of the key, then the reading of one row.
  get-read_row :
      (env : Env) (kind name dek : Bytes) (s : Store)
      → s.dek ≡ some dek
      → get c env kind name s ≡ (do
        guard (not (env.fails select_secret)) (database select_secret)
        read_row c dek kind name (find_secret kind name s.db.secrets))
  unfolding get current_key
  get-read_row env kind name dek s e = ground arith

  module _ (env : Env) (passphrase : Bytes) (s : Store) (r : KeyRecord) (old : Bytes)
      (stored : s.db.key_record ≡ some r) (unwraps : unwrap c digits passphrase r ≡ ok old) where
    -- The steps of a rotation that was committed.
    rotated_rows :
        (db : Database) (new : Bytes) (version : ℕ)
        → rotated c digits env passphrase s ≡ ok (db, new, version)
        → let us = ok_or [] (reencrypt c old new env 0 s.db.secrets) in
          (reencrypt c old new env 0 s.db.secrets ≡ ok us)
          × (apply_updates env (r.key_version + 1) us s.db.secrets ≡ ok db.secrets)
    unfolding rotated unwrap load_key_record
    rotated_rows db new version h = ground arith

    -- The row of the key, and the key.
    rotated_keys :
        (db : Database) (new : Bytes) (version : ℕ)
        → rotated c digits env passphrase s ≡ ok (db, new, version)
        → (new_key env.key ≡ ok new)
          × (version ≡ r.key_version + 1)
          × ((r' : KeyRecord) × (db.key_record ≡ some r')
              × (unwrap c digits passphrase r' ≡ ok new)
              × (r'.key_version ≡ version))
    unfolding rotated unwrap load_key_record
    rotated_keys db new version h =
        let kek : Bytes = ok_or [] (derive_key c passphrase r.salt r.params) in
        let associated = dek_associated_data digits (r.key_version + 1) in
        let sealed : Bytes × Bytes = ok_or ([], []) (seal c kek new associated env.nonce) in
        (
          ground arith,
          ground arith,
          (
            record r {
              wrapped_dek = sealed.0;
              wrapped_dek_nonce = sealed.1;
              key_version = r.key_version + 1;
              updated_at = env.now;
            },
            ground arith,
            ground (arith, open_sealed-seal c kek new associated env.nonce sealed.0 sealed.1),
            ground arith,
          ),
        )

  -- Whether a rotation succeeds or fails, no reader notices: `Get` gives for every kind and name,
  -- whatever the database does then, what it gave before. Condition: the key in memory is the one
  -- that the passphrase unwraps, and the ids of the table are distinct.
  pub get-rotate_data_key :
      (env env' : Env) (passphrase kind name : Bytes) (s : Store) (r : KeyRecord) (old : Bytes)
      → s.db.key_record ≡ some r
      → unwrap c digits passphrase r ≡ ok old
      → s.dek ≡ some old
      → DistinctIds s.db.secrets
      → get c env' kind name (rotate_data_key c digits env passphrase s).1 ≡ get c env' kind name s
  unfolding rotate_data_key
  get-rotate_data_key env env' passphrase kind name s r old stored unwraps held distinct =
      elim (Result-cases (rotated c digits env passphrase s)) [
        | inr (e, failed) ↦ rw failed
        | inl ((db, new, version), done) ↦
            let us : List Reencrypted = ok_or [] (reencrypt c old new env 0 s.db.secrets) in
            let (ren, app) =
              rotated_rows env passphrase s r old stored unwraps db new version done in
            let carried = reencrypt-CarriesAll c old new s.db.secrets us env 0 ren in
            let rows =
              loops-rewrite_all c old new env (r.key_version + 1) us s.db.secrets db.secrets carried
                distinct app in
            rw done (
              get-read_row env' kind name new
                (record { db = db; dek = some new; key_version = version }) refl
              ∙ (rw (
                rows,
                read_row-rewrite_all c old new (r.key_version + 1) env.now kind name us s.db.secrets
                    carried,
              ))
              ∙ sym (get-read_row env' kind name old s held))
      ]

  -- After a committed rotation the passphrase still unlocks: a restart and an unlock lead back to the
  -- very state that the rotation left, with the next generation of the key.
  pub unlock-rotate_data_key :
      (env env' : Env) (passphrase : Bytes) (s s' : Store) (r : KeyRecord) (old : Bytes)
      → s.db.key_record ≡ some r
      → unwrap c digits passphrase r ≡ ok old
      → rotate_data_key c digits env passphrase s ≡ (ok tt, s')
      → env'.fails load_store ≡ false
      → (unlock c digits env' passphrase (lock s') ≡ (ok tt, s'))
        × (s'.key_version ≡ r.key_version + 1)
  unfolding rotate_data_key unlock unlocked_key load_key_record lock
  unlock-rotate_data_key env env' passphrase s s' r old stored unwraps rotates works =
      elim (Result-cases (rotated c digits env passphrase s)) [
        | inr (e, failed) ↦ ground arith
        | inl ((db, new, version), done) ↦
            let (_, next, (r', key', opens, version')) =
              rotated_keys env passphrase s r old stored unwraps db new version done in
            (ground arith, ground arith)
      ]
