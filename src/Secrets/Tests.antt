-- ===== src/Secrets/Tests.antt =====
-- The secret store over the toy cipher: its theorems at concrete inputs.
use back_orbit.Base.{◌↔◌, ℕ, ◌≡◌, refl, false, Option, none, some, [], ◌∷◌, ◌++◌, Bytes, codes, ok}
use back_orbit.Base.Text.{bytes_eq, bytes_beq, trim_left, trim_right}
use back_orbit.Crypto.{
  default_kdf_params, derive_key, seal, open_sealed, new_key, new_salt, random_bytes, validate,
}
use back_orbit.Secrets.Toy.{toy, fit}
use back_orbit.Secrets.{
  Env, Secret, KeyRecord, Metadata, Store, new_store, is_valid_kind, find_secret, upsert,
  current_key, metadata, lock, is_initialized, load_key_record, secret_associated_data,
  dek_associated_data,
}
use back_orbit.Secrets.Access.{put, get, known_or_new, sealed_row, put_row}
use back_orbit.Secrets.Access.RoundTrip.{get-put}
use back_orbit.Secrets.Keys.{
  initialize, fresh_keys, unlock, unlocked_key, unwrap, change_master_passphrase, rewrapped,
}
use back_orbit.Secrets.Keys.Unlocking.{unlock-initialize, get-change_master_passphrase}
use back_orbit.Secrets.Rotation.{
  rotate_data_key, rotated, reencrypt, reencrypt_row, apply_updates, update_row,
}
use back_orbit.Secrets.Rotation.Readers.{get-rotate_data_key}
use back_orbit.Secrets.KeyFile.{
  KeyFile, unlock_from_file, key_file_passphrase, unlock_from_file-IsKeyFile, IsKeyFile,
}

abbrev tally : ℕ → Bytes
tally n = n ∷ []

env : Env
unfolding fit
env = record {
  fails = λ _. false;
  now = 1000;
  uuid = codes "u-1";
  salt = fit 16 (1 ∷ []);
  key = fit 32 (2 ∷ []);
  nonce = fit 24 (3 ∷ []);
  row_nonce = λ n. fit 24 (n ∷ []);
}

abbrev master : Bytes
master = codes "correct horse battery"

abbrev next : Bytes
next = codes "another long one"

abbrev repository : Bytes
repository = codes "repository"

abbrev main : Bytes
main = codes "main"

fresh : Store
unfolding new_store
fresh = new_store (record { key_record = none; secrets = [] })

-- Initialised. The line opens what the runs below compute through.
ready : Store
unfolding env fresh initialize fresh_keys is_initialized derive_key new_salt new_key random_bytes
    validate seal open_sealed dek_associated_data secret_associated_data default_kdf_params toy lock
    load_key_record unlock unlocked_key unwrap
ready = (initialize toy tally env master fresh).1

-- With one secret.
holding : Store
unfolding ready put put_row sealed_row known_or_new metadata is_valid_kind bytes_beq find_secret
    upsert current_key
holding = (put toy env repository main (codes "pw") ready).1

abbrev written : Metadata
written = record {
  id = codes "u-1";
  kind = repository;
  name = main;
  key_version = 1;
  created_at = 1000;
  updated_at = 1000;
}

get-put_example : get toy env repository main holding ≡ ok (codes "pw")
unfolding holding
get-put_example =
    get-put toy env env repository main (codes "pw") ready holding written tt tt refl refl

later_env : Env
unfolding env
later_env = record env { uuid = codes "u-2" }

-- The secret of another id under the name of this one.
tampered_row : Secret
unfolding toy fit secret_associated_data
tampered_row = record {
  id = codes "u-1";
  kind = repository;
  name = main;
  ciphertext =
      toy.aead_seal (fit 32 (2 ∷ [])) (fit 24 (3 ∷ [])) (codes "stolen")
        (secret_associated_data (codes "u-9") repository (codes "prod"));
  nonce = fit 24 (3 ∷ []);
  key_version = 1;
  created_at = 1000;
  updated_at = 1000;
}

tampered : Store
unfolding holding tampered_row
tampered = record holding { db = record holding.db { secrets = tampered_row ∷ [] } }

unlock-initialize_example : unlock toy tally env master (lock ready) ≡ (ok tt, ready)
unfolding ready
unlock-initialize_example = unlock-initialize toy tally env env master fresh ready refl refl

moved_on : Store
unfolding holding change_master_passphrase rewrapped
moved_on = (change_master_passphrase toy tally env master next holding).1

get-change_master_passphrase_example :
    let before = unlock toy tally env master (lock holding) in
    let after = unlock toy tally env next (lock moved_on) in
    (before.0 ≡ ok tt)
    × (after.0 ≡ ok tt)
    × ((dek : Bytes) × (before.1.dek ≡ some dek) × (after.1.dek ≡ some dek))
    × (after.1.key_version ≡ before.1.key_version)
    × (after.1.db.secrets ≡ holding.db.secrets)
    × (get toy env repository main after.1 ≡ get toy env repository main before.1)
unfolding moved_on
get-change_master_passphrase_example =
    get-change_master_passphrase toy tally env env env master next repository main holding moved_on
      refl refl

turned : Store
unfolding holding rotate_data_key rotated reencrypt reencrypt_row apply_updates update_row
turned = (rotate_data_key toy tally env master holding).1

stored_key : KeyRecord
unfolding holding
stored_key = key_of holding.db.key_record
  where
    key_of : Option KeyRecord → KeyRecord
    key_of none = record {
      salt = [];
      params = default_kdf_params;
      wrapped_dek = [];
      wrapped_dek_nonce = [];
      key_version = 0;
      created_at = 0;
      updated_at = 0;
    }
    key_of (some r) = r

get-rotate_data_key_example :
    get toy env repository main (rotate_data_key toy tally env master holding).1
    ≡ get toy env repository main holding
unfolding holding stored_key
get-rotate_data_key_example =
    get-rotate_data_key toy tally env env master repository main holding stored_key
      (fit 32 (2 ∷ [])) refl refl refl (tt, tt)

key_file : KeyFile
key_file = record {
  is_dir = false;
  size = 22;
  permissions = 0o600;
  content = some (master ++ (b'\n' ∷ []));
}

unlock_from_file-IsKeyFile_example :
    (unlock_from_file toy tally env (codes "/run/secrets/key") (some key_file) (lock ready)
      ≡ (ok tt, ready))
    ↔ ((passphrase : Bytes) × IsKeyFile (codes "/run/secrets/key") (some key_file) passphrase
        × (unlock toy tally env passphrase (lock ready) ≡ (ok tt, ready)))
unfolding ready key_file
unlock_from_file-IsKeyFile_example =
    unlock_from_file-IsKeyFile toy tally env (codes "/run/secrets/key") (some key_file) (lock ready)
      ready

its_passphrase_unlocks :
    unlock_from_file toy tally env (codes "/run/secrets/key") (some key_file) (lock ready)
    ≡ (ok tt, ready)
unfolding ready key_file unlock_from_file key_file_passphrase trim_left trim_right bytes_beq
its_passphrase_unlocks = refl
