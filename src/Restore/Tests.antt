-- ===== src/Restore/Tests.antt =====
-- A restore of a database, and the theorems at it.
use back_orbit.Base.{
  ◌≡◌, ◌≢◌, ◌⊎◌, refl, false, true, none, some, [], ◌∷◌, Bytes, codes, ok, err, Result,
}
use back_orbit.Base.Assoc.{lookup, insert, remove}
use back_orbit.Base.Text.{bytes_eq, bytes_beq, trim_left, trim_right}
use back_orbit.Base.Paths.{base, clean, components, is_abs, join, join_slash, resolve, up}
use back_orbit.BackupRun.{Container, DatabaseDump, Snapshot, exported, files_only}
use back_orbit.Repositories.{local}
use back_orbit.Repositories.Service.{RepositoryConfig}
use back_orbit.Restore.{Run, clone, Job, State, release, update_rows}
use back_orbit.Restore.Reservation.{RestoreError, already_running, reserve, unsupported}
use back_orbit.Restore.Reservation.Exclusive.{IsGivenBack, IsReserved}
use back_orbit.Restore.Database.{
  DatabaseRequest, World, admit, credentials_for, find_export, find_service, find_service_container,
  finish, load_export, load_of, perform, read_env, restore_database, run_database_restore,
}
use back_orbit.Restore.Extraction
use back_orbit.Restore.Extraction.Isolated.{IsPlanned, start-IsReserved}
use back_orbit.Restore.Confirmed.{IsAdmitted, restore_database-IsReserved}
use back_orbit.Restore.Loading.{IsLoaded, IsUntouched, perform-outcome}

abbrev dump : DatabaseDump
dump = record {
  technology = codes "postgresql";
  service = codes "db";
  level = exported;
  path = codes "databases/db.sql";
  command = [];
  user = codes "app";
  bytes = 12;
  note = [];
  restore_check = none;
}

abbrev snapshot : Snapshot
snapshot = record {
  id = codes "sn-1";
  run_id = codes "run-1";
  repository_id = codes "r-1";
  restic_snapshot_id = codes "abc";
  manifest = record {
    schema_version = 1;
    project = codes "shop";
    created_at = 1;
    volumes = [];
    databases = record dump { level = files_only } ∷ dump ∷ [];
  };
  size_bytes = 10;
  files_count = 1;
  verified_at = none;
  verification = record {
    is_ok = true;
    checks = [];
    errors = [];
    files_listed = 1;
    bytes_in_snapshot = 10;
  };
  created_at = 2;
}

abbrev container : Container
container = record { id = codes "c-1"; service = codes "db"; image = codes "postgres" }

abbrev dumped_file : Bytes
dumped_file = codes "/restores/rr-1/staging/db.sql"

abbrev world : World
world = record {
  now = 9;
  uuid = codes "rr-1";
  root = codes "/restores";
  has_docker = true;
  snapshot = λ _. some snapshot;
  containers = λ _. some (container ∷ []);
  config =
      λ _. some (record { kind = local; location = codes "/backups/main"; password = codes "pw" });
  env_value = λ _ _. some (codes "app");
  target_fails = false;
  insert_fails = false;
  update_fails = false;
  restore_snapshot = λ _ _ _ _. ok tt;
  find_extracted = λ _ _. ok dumped_file;
  load = λ _. ok (record { bytes = 12; objects = 3; output = [] });
}

abbrev request : DatabaseRequest
request = record { snapshot_id = codes "sn-1"; service = codes "db"; confirm = codes "db" }

abbrev idle : State
idle = record {
  active = [];
  by_snapshot = [];
  rows = [];
  loads = [];
  emitted = [];
  created = [];
  removed = [];
}

begun : Result RestoreError Job × State
unfolding restore_database admit find_export find_service_container find_service reserve lookup
    insert bytes_beq join clean components is_abs resolve up join_slash
begun = restore_database world request idle

restore_database-IsReserved_example :
    ((job : Job) × IsAdmitted world request job
      × (begun.0 ≡ ok job)
      × IsReserved job.snapshot.id job.run idle begun.1)
    ⊎ ((e : RestoreError) × (begun.0 ≡ err e)
        × IsGivenBack (join world.root world.uuid) e idle begun.1)
unfolding begun
restore_database-IsReserved_example = restore_database-IsReserved world request idle tt

-- It was started.
its_start : (job : Job) × (begun.0 ≡ ok job)
unfolding begun
its_start = (_, refl)

job : Job
unfolding its_start begun
job = its_start.0

perform-outcome_example :
    let t = perform world job begun.1 in
    (IsUntouched job begun.1 t ⊎ IsLoaded world job begun.1 t)
    × (lookup (codes "sn-1") t.by_snapshot ≡ none)
    × ((id : Bytes) → id ≢ codes "sn-1" → lookup id t.by_snapshot ≡ lookup id begun.1.by_snapshot)
unfolding job begun
perform-outcome_example = perform-outcome world job begun.1 refl

the_load :
    (perform world job begun.1).loads
    ≡ record {
      technology = codes "postgresql";
      service = codes "db";
      container_id = codes "c-1";
      user = codes "app";
      password = [];
      path = dumped_file;
    }
      ∷ []
unfolding job begun perform release run_database_restore load_export finish load_of credentials_for
    read_env update_rows base trim_right remove
the_load = refl

abbrev extraction_world : Extraction.World
extraction_world = record {
  now = 9;
  uuid = codes "rr-2";
  root = codes "/restores";
  snapshot = λ _. some snapshot;
  config =
      λ _. some (record { kind = local; location = codes "/backups/main"; password = codes "pw" });
  target_fails = false;
  insert_fails = false;
  update_fails = false;
  restore_snapshot = λ _ _ _. ok (record { files = 1; bytes = 10; warnings = [] });
}

abbrev preview_request : Extraction.ModeText → Extraction.PreviewRequest
preview_request mode = record { snapshot_id = codes "sn-1"; mode = mode; new_project_name = [] }

start-IsReserved_example :
    let (answer, t) = Extraction.start extraction_world (preview_request Extraction.unset) idle in
    ((run : Run) × (sn : Snapshot) × (config : RepositoryConfig) × IsPlanned extraction_world
        (preview_request Extraction.unset)
        run
        sn
        config
      × (answer ≡ ok (run, sn, config))
      × IsReserved sn.id run idle t)
    ⊎ ((e : RestoreError) × (answer ≡ err e)
        × IsGivenBack (join extraction_world.root extraction_world.uuid) e idle t)
start-IsReserved_example =
    start-IsReserved extraction_world (preview_request Extraction.unset) idle tt

-- While the database is being restored, the same snapshot is not extracted.
it_is_refused :
    (Extraction.start extraction_world (preview_request Extraction.unset) begun.1).0
    ≡ err (already_running (codes "rr-1"))
unfolding begun Extraction.start Extraction.plan Extraction.preview Extraction.verdict
it_is_refused = refl

clone_refused :
    (Extraction.start extraction_world (preview_request (Extraction.named clone)) idle).0
    ≡ err unsupported
unfolding Extraction.start Extraction.plan Extraction.preview Extraction.verdict trim_right
    trim_left bytes_beq
clone_refused = refl
