-- ===== src/Repositories/Tests.antt =====
-- Runs of the repository service, and its theorems at concrete inputs.
use back_orbit.Base.{
  ◌≡◌, ◌⊎◌, refl, false, true, Bool, Option, none, some, List, [], ◌∷◌, ◌++◌, Bytes, codes, ok, err,
  ◌==◌, if◌then◌else◌,
}
use back_orbit.Base.Text.{bytes_eq, bytes_beq, trim_left, trim_right}
use back_orbit.Base.Paths.{clean, components, is_abs, join, join_slash, resolve, up}
use back_orbit.Crypto.{seal, open_sealed, random_bytes}
use back_orbit.Secrets
use back_orbit.Secrets.{
  find_secret, upsert, current_key, metadata, secret_associated_data, is_valid_kind, not_found,
  delete_secrets,
}
use back_orbit.Secrets.Access
use back_orbit.Secrets.Access.{put, put_row, sealed_row, known_or_new}
use back_orbit.Secrets.Toy.{fit, toy}
use back_orbit.Repositories.{
  DbStep, Repository, State, find_row, delete_rows, get, insert, has_name_or_id, observe_rows,
  update_status, delete, insert_row, database, local, unknown,
}
use back_orbit.Repositories.Locations.{
  Locations, clean_abs, has_prefix, refuse_inside_data_dir, validate_local_path, within_or_equal,
}
use back_orbit.Repositories.Purge.{
  FileSystem, folder, plain, resolved, inspect, is_empty_dir, purge_local_repository,
  verify_restic_layout,
}
use back_orbit.Repositories.Service.{
  Answers, CreateRequest, after_purge, allow_purge, check_create, create, delete_configuration,
  delete_repository, engine_config, purge_data, repository_kind, store_repository, validate_create,
}
use back_orbit.Repositories.Checks.{check, check_result}
use back_orbit.Repositories.Creation.{engine_config-create, create_unfinished}
use back_orbit.Repositories.Deletion.{MayDestroy, delete_repository_orderly}

abbrev never : Secrets.DbCall → Bool
never _ = false

env : Secrets.Env
unfolding fit
env = record {
  fails = never;
  now = 7;
  uuid = codes "x-1";
  salt = [];
  key = [];
  nonce = fit 24 (3 ∷ []);
  row_nonce = λ _. [];
}

-- A directory with restic's signature, behind a link.
abbrev disk : FileSystem
unfolding bytes_beq
disk = record {
  eval_symlinks = λ _. resolved (codes "/mnt/repo");
  lstat = λ _. folder;
  stat = λ p. if p == codes "/mnt/repo/config" then plain else folder;
  is_empty_dir = λ _. some false;
  remove_all_fails = λ _. false;
}

abbrev answers : (DbStep → Bool) → Answers
unfolding env
answers fails = record {
  now = 7;
  checked_at = 8;
  uuid = codes "r-1";
  fails = fails;
  secret_env = env;
  undo_env = env;
  cwd = none;
  probe = λ _. true;
  files = disk;
  record_fails = false;
}

abbrev works : Answers
works = answers (λ _. false)

abbrev places : Option Locations
places = some (record { data_dir = codes "/data"; backup_dir = codes "/backups" })

abbrev request : CreateRequest
request = record {
  name = codes " main ";
  kind = local;
  location = codes " /backups/main ";
  password = codes "pw";
}

abbrev main : Repository
main = record {
  id = codes "r-1";
  name = codes "main";
  kind = local;
  location = codes "/backups/main";
  status = unknown;
  last_error = [];
  last_checked_at = none;
  created_at = 7;
  updated_at = 7;
}

start : State
unfolding fit
start = record {
  rows = [];
  secrets = record {
    db = record { key_record = none; secrets = [] };
    dek = some (fit 32 (2 ∷ []));
    key_version = 1;
  };
  removed = [];
  emitted = [];
}

configured : State
unfolding start create check_create validate_create validate_local_path refuse_inside_data_dir
    clean_abs clean components is_abs resolve up join_slash within_or_equal has_prefix bytes_beq
    trim_left trim_right store_repository put put_row sealed_row known_or_new metadata is_valid_kind
    find_secret upsert current_key seal random_bytes toy secret_associated_data insert
    has_name_or_id env
configured = (create toy works places request start).1

engine_config-create_example :
    engine_config toy works (codes "r-1") configured
    ≡ ok (record { kind = local; location = codes "/backups/main"; password = codes "pw" }, main)
unfolding configured
engine_config-create_example =
    engine_config-create toy works works places request start configured main tt tt refl refl refl

-- The same with an insertion that fails.
abbrev failing : DbStep → Bool
failing insert_row = true
failing _ = false

undone : State
unfolding configured delete_secrets Secrets.delete
undone = (create toy (answers failing) places request start).1

create_unfinished_example :
    (undone.rows ≡ start.rows)
    × ((undone.secrets ≡ start.secrets)
        ⊎ (Access.get toy env repository_kind (codes "r-1") undone.secrets ≡ err not_found))
unfolding undone
create_unfinished_example =
    create_unfinished toy (answers failing) works places request start undone (database insert_row)
      refl refl refl

delete_repository_orderly_example :
    let t = (delete_repository works places (codes "r-1") true configured).1 in
    ((t.removed ≡ configured.removed)
      ⊎ ((true ≡ true)
          × ((r : Repository) × (paths : List Bytes) × (find_row (codes "r-1") configured.rows
                ≡ some r)
              × MayDestroy works places r paths
              × (t.removed ≡ configured.removed ++ paths))))
    × (((t.rows ≡ configured.rows) × (t.secrets ≡ configured.secrets))
        ⊎ ((t.rows ≡ delete_rows (codes "r-1") configured.rows)
            × ((r : Repository) × (find_row (codes "r-1") configured.rows ≡ some r)
                × (true ≡ true → (deleted : Bool) × ((purge_data works places r).0 ≡ ok deleted)))))
delete_repository_orderly_example =
    delete_repository_orderly works places (codes "r-1") true configured

-- The link's target is destroyed, and the row is gone.
destroyed :
    (delete_repository works places (codes "r-1") true configured).1.removed
    ≡ codes "/mnt/repo" ∷ []
unfolding configured delete_repository get find_row purge_data allow_purge purge_local_repository
    inspect is_empty_dir verify_restic_layout join after_purge delete_configuration delete
    delete_rows Secrets.delete
destroyed = refl

checked : State
unfolding configured check engine_config Access.get open_sealed get find_row check_result
    update_status observe_rows
checked = (check toy (λ _. ok 3) works (codes "r-1") configured).1
