-- ===== src/Secrets/Keys/Unlocking.antt =====
-- Restarts: what a passphrase unlocks after `Initialize` and `ChangeMasterPassphrase`.
use back_orbit.Base.{
  ℕ, ◌≡◌, refl, false, some, [], arith, Bytes, inl, inr, ok, ok_or, Result-cases, Option-cases,
}
use back_orbit.Crypto.{Primitives, default_kdf_params, derive_key, open_sealed}
use back_orbit.Crypto.Laws.{open_sealed-seal}
use back_orbit.Secrets.{
  load_store, current_key, Env, KeyRecord, Store, dek_associated_data, load_key_record, lock,
}
use back_orbit.Secrets.Access.{get}
use back_orbit.Secrets.Keys.{
  fresh_keys, initialize, unwrap, unlocked_key, unlock, rewrapped, change_master_passphrase,
}

module _ (c : Primitives) (digits : ℕ → Bytes) where
  fresh_keys-unwrap :
      (env : Env) (passphrase : Bytes) (s : Store) (r : KeyRecord) (dek : Bytes)
      → fresh_keys c digits env passphrase s ≡ ok (r, dek)
      → (unwrap c digits passphrase r ≡ ok dek) × (r.key_version ≡ 1)
  unfolding fresh_keys unwrap
  fresh_keys-unwrap env passphrase s r dek h =
      let kek : Bytes = ok_or [] (derive_key c passphrase r.salt default_kdf_params) in
      (
        ground (
          arith,
          open_sealed-seal c kek dek (dek_associated_data digits 1) env.nonce r.wrapped_dek
              r.wrapped_dek_nonce,
        ),
        ground arith,
      )

  rewrapped_opens :
      (next : Bytes) (r : KeyRecord) (kek dek : Bytes)
      → derive_key c next r.salt r.params ≡ ok kek
      → open_sealed c kek r.wrapped_dek r.wrapped_dek_nonce
          (dek_associated_data digits r.key_version)
        ≡ ok dek
      → unwrap c digits next r ≡ ok dek
  unfolding unwrap
  rewrapped_opens next r kek dek hk ho = ground arith

  -- After `Initialize` the store is unlocked; locked again (or restarted), the same passphrase
  -- unlocks it to the very same state.
  pub unlock-initialize :
      (env env' : Env) (passphrase : Bytes) (s s' : Store)
      → initialize c digits env passphrase s ≡ (ok tt, s')
      → env'.fails load_store ≡ false
      → unlock c digits env' passphrase (lock s') ≡ (ok tt, s')
  unfolding initialize unlock unlocked_key load_key_record lock
  unlock-initialize env env' passphrase s s' h works =
      elim (Result-cases (fresh_keys c digits env passphrase s)) [
        | inr (e, failed) ↦ ground arith
        | inl ((r, dek), made) ↦
            let (opens, version) = fresh_keys-unwrap env passphrase s r dek made in ground arith
      ]

  rewrapped_old :
      (env : Env) (current next : Bytes) (s : Store) (r r' : KeyRecord)
      → s.db.key_record ≡ some r
      → rewrapped c digits env current next s ≡ ok r'
      → unwrap c digits current r ≡ ok (ok_or [] (unwrap c digits current r))
  unfolding rewrapped load_key_record
  rewrapped_old env current next s r r' stored h = ground arith

  rewrapped_new :
      (env : Env) (current next : Bytes) (s : Store) (r r' : KeyRecord) (dek : Bytes)
      → s.db.key_record ≡ some r
      → rewrapped c digits env current next s ≡ ok r'
      → unwrap c digits current r ≡ ok dek
      → (unwrap c digits next r' ≡ ok dek) × (r'.key_version ≡ r.key_version)
  unfolding rewrapped load_key_record
  rewrapped_new env current next s r r' dek stored h opens =
      let kek : Bytes = ok_or [] (derive_key c next r'.salt default_kdf_params) in
      let sealed =
        open_sealed-seal c kek dek (dek_associated_data digits r.key_version) env.nonce
          r'.wrapped_dek r'.wrapped_dek_nonce in
      (rewrapped_opens next r' kek dek (ground arith) (ground (arith, sealed)), ground arith)

  unlock_eq :
      (env : Env) (passphrase : Bytes) (s : Store) (r : KeyRecord) (dek : Bytes)
      → s.db.key_record ≡ some r
      → unwrap c digits passphrase r ≡ ok dek
      → env.fails load_store ≡ false
      → unlock c digits env passphrase (lock s)
        ≡ (ok tt, record { db = s.db; dek = some dek; key_version = r.key_version })
  unfolding unlock unlocked_key load_key_record lock
  unlock_eq env passphrase s r dek stored opens works = ground arith

  -- `Get` reads the key and the secrets, and nothing else of the store.
  get_same :
      (env : Env) (kind name : Bytes) (s t : Store)
      → s.dek ≡ t.dek
      → s.db.secrets ≡ t.db.secrets
      → get c env kind name s ≡ get c env kind name t
  unfolding get current_key
  get_same env kind name s t d e = ground arith

  changed :
      (env : Env) (current next : Bytes) (s s' : Store)
      → change_master_passphrase c digits env current next s ≡ (ok tt, s')
      → (r r' : KeyRecord) × (s.db.key_record ≡ some r)
        × (rewrapped c digits env current next s ≡ ok r')
        × (s' ≡ record s { db = record s.db { key_record = some r' } })
  unfolding change_master_passphrase
  changed env current next s s' h = elim (Option-cases s.db.key_record) [
    | inl missing ↦ absurd (unfold rewrapped load_key_record in ground arith)
    | inr (r, stored) ↦ elim (Result-cases (rewrapped c digits env current next s)) [
      | inr (e, failed) ↦ absurd (ground arith)
      | inl (r', made) ↦ (r, r', stored, made, ground arith)
    ]
  ]

  -- After `ChangeMasterPassphrase` the new passphrase unlocks the store, with the very data key and
  -- the generation that the old one unlocked before the change: no secret is touched, and `Get` gives
  -- for every kind and name what it gave before. Condition: the table can be read when unlocking.
  pub get-change_master_passphrase :
      (env env' env'' : Env) (current next kind name : Bytes) (s s' : Store)
      → change_master_passphrase c digits env current next s ≡ (ok tt, s')
      → env'.fails load_store ≡ false
      → let before = unlock c digits env' current (lock s) in
        let after = unlock c digits env' next (lock s') in
        (before.0 ≡ ok tt)
        × (after.0 ≡ ok tt)
        × ((dek : Bytes) × (before.1.dek ≡ some dek) × (after.1.dek ≡ some dek))
        × (after.1.key_version ≡ before.1.key_version)
        × (after.1.db.secrets ≡ s.db.secrets)
        × (get c env'' kind name after.1 ≡ get c env'' kind name before.1)
  get-change_master_passphrase env env' env'' current next kind name s s' h works =
      let (r, r', stored, made, after) = changed env current next s s' h in
      let dek : Bytes = ok_or [] (unwrap c digits current r) in
      let was = rewrapped_old env current next s r r' stored made in
      let (opens, version) = rewrapped_new env current next s r r' dek stored made was in
      let before = unlock_eq env' current s r dek stored was works in
      let now = unlock_eq env' next s' r' dek (rw after refl) opens works in
      (
        rw before refl,
        rw now refl,
        (dek, rw before refl, rw now refl),
        rw (now, before) version,
        rw now (rw after refl),
        rw (now, before) (get_same env'' kind name _ _ refl (rw after refl)),
      )
