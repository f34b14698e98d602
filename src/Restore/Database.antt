-- ===== src/Restore/Database.antt =====
-- internal/restore/database.go: the restore of one database. Docker, restic, the loader and the
-- search in the extracted tree are answers; the goroutine is a function of its own, as other calls
-- may run between the start and its steps.
use back_orbit.Base.{
  ℕ, Bool, true, false, not, ◌&&◌, Option, none, some, List, [], ◌∷◌, ◌++◌, Bytes, codes, ◌==◌,
  if◌then◌else◌, Result, ok, err, ◌>>=◌, ◌>>◌, guard, or_fail,
}
use back_orbit.Base.Text.{bytes_eq}
use back_orbit.Base.Paths.{base, join}
use back_orbit.BackupRun.{Container, DatabaseDump, ProtectionLevel, Snapshot, exported}
use back_orbit.Repositories.Service.{RepositoryConfig}
use back_orbit.Restore.Reservation.{
  RestoreError, no_docker, no_export, no_repository, not_confirmed, project_missing, reserve,
  service_not_running, snapshot_missing,
}
use back_orbit.Restore.{
  Failure, Job, Load, Run, State, Status, cancelled, cancelled_before_load, cancelled_during_load,
  completed, database, extract_failed, failed, load_failed, no_failure, not_extracted, release,
  restore_ended, running, update_rows,
}

pub record DatabaseRequest : Type 0 where
  pub snapshot_id : Bytes
  pub service : Bytes
  pub confirm : Bytes

-- An error, and whether it or the context says that the run was cancelled.
pub record Interruption : Type 0 where
  pub is_cancelled : Bool
  pub text : Bytes

pub record LoadResult : Type 0 where
  pub bytes : ℕ
  pub objects : ℕ
  pub output : Bytes

pub record World : Type 0 where
  pub now : ℕ
  pub uuid : Bytes
  pub root : Bytes
  pub has_docker : Bool
  pub snapshot : Bytes → Option Snapshot
  -- the live containers of a project
  pub containers : Bytes → Option (List Container)
  pub config : Bytes → Option RepositoryConfig
  pub env_value : Bytes → Bytes → Option Bytes
  pub target_fails : Bool
  pub insert_fails : Bool
  pub update_fails : Bool
  -- repository, snapshot, target, pattern
  pub restore_snapshot : RepositoryConfig → Bytes → Bytes → Bytes → Result Interruption (Unit {0})
  pub find_extracted : Bytes → Bytes → Result Bytes Bytes
  pub load : Load → Result Interruption LoadResult

abbrev pub is_exported : ProtectionLevel → Bool
is_exported exported = true
is_exported _ = false

unfoldable pub find_export : Bytes → List DatabaseDump → Option DatabaseDump
find_export service [] = none
find_export service (d ∷ ds) =
    let rest = find_export service ds in
    if d.service == service && is_exported d.level && not (d.path == []) then some d else rest

unfoldable pub find_service : Bytes → List Container → Option Container
find_service service [] = none
find_service service (c ∷ cs) =
    let rest = find_service service cs in if c.service == service then some c else rest

-- `findServiceContainer`
unfoldable pub find_service_container : World → Bytes → Bytes → Result RestoreError Container
find_service_container w project service = do
  live ← or_fail (w.containers project) project_missing
  or_fail (find_service service live) service_not_running

abbrev first_of : Option Bytes → Bytes → Bytes
first_of (some []) other = other
first_of (some value) other = value
first_of none other = other

-- The helper `read` of `credentialsFor`.
unfoldable pub read_env : World → Bytes → List Bytes → Bytes
read_env w container [] = []
read_env w container (key ∷ keys) =
    let rest = read_env w container keys in first_of (w.env_value container key) rest

unfoldable pub credentials_for : World → Bytes → Bytes → Bytes × Bytes
credentials_for w container technology =
    let read = read_env w container in
    if technology == codes "postgresql"
    then (read (codes "POSTGRES_USER" ∷ []), [])
    else if technology == codes "mysql"
    then (
      read (codes "MYSQL_ROOT_USER" ∷ []),
      read (codes "MYSQL_ROOT_PASSWORD" ∷ codes "MARIADB_ROOT_PASSWORD" ∷ []),
    )
    else if technology == codes "mariadb"
    then (
      read (codes "MARIADB_ROOT_USER" ∷ []),
      read (codes "MARIADB_ROOT_PASSWORD" ∷ codes "MYSQL_ROOT_PASSWORD" ∷ []),
    )
    else if technology == codes "mongodb"
    then (
      read (codes "MONGO_INITDB_ROOT_USERNAME" ∷ []),
      read (codes "MONGO_INITDB_ROOT_PASSWORD" ∷ []),
    )
    else ([], [])

abbrev pub new_run : World → Snapshot → Run
new_run w snapshot = record {
  id = w.uuid;
  snapshot_id = snapshot.id;
  project_name = snapshot.manifest.project;
  mode = database;
  status = running;
  target_path = join w.root w.uuid;
  files_restored = 0;
  bytes_restored = 0;
  warnings = [];
  error = no_failure;
  started_at = w.now;
  ended_at = none;
  created_at = w.now;
}

-- `RestoreDatabase` up to the reservation.
unfoldable pub admit : World → DatabaseRequest → Result RestoreError Job
admit w req = do
  guard (not (req.confirm == []) && req.confirm == req.service) not_confirmed
  guard w.has_docker no_docker
  snapshot ← or_fail (w.snapshot req.snapshot_id) snapshot_missing
  export ← or_fail (find_export req.service snapshot.manifest.databases) no_export
  container ← find_service_container w snapshot.manifest.project req.service
  config ← or_fail (w.config snapshot.repository_id) no_repository
  ok (record {
    run = new_run w snapshot;
    snapshot = snapshot;
    export = export;
    container = container;
    config = config;
  })

-- `RestoreDatabase` up to its goroutine.
unfoldable pub restore_database : World → DatabaseRequest → State → Result RestoreError Job × State
restore_database w req s = elim (admit w req) [
  | err e ↦ (err e, s)
  | ok job ↦
      let (answer, t) = reserve w.target_fails w.insert_fails job.snapshot.id job.run s in
      elim answer [ err e ↦ (err e, t) | ok _ ↦ (ok job, t) ]
]

-- `finish`
unfoldable pub finish : World → Run → Status → Failure → ℕ → State → State
finish w run status failure objects s =
    let ended = record run { status = status; error = failure; ended_at = some w.now } in
    record s {
      rows = if w.update_fails then s.rows else update_rows ended s.rows;
      emitted = s.emitted ++ (restore_ended run.id status objects ∷ []);
    }

-- What is asked of the loader.
unfoldable pub load_of : World → Job → Bytes → Load
load_of w job path =
    let (user, password) = credentials_for w job.container.id job.export.technology in
    record {
      technology = job.export.technology;
      service = job.export.service;
      container_id = job.container.id;
      user = user;
      password = password;
      path = path;
    }

abbrev noted : Bytes → List Bytes → List Bytes
noted [] warnings = warnings
noted output warnings = warnings ++ (output ∷ [])

-- The load and what follows it.
unfoldable pub load_export : World → Job → Bytes → State → State
load_export w job path s =
    let touched = record s { loads = s.loads ++ (load_of w job path ∷ []) } in
    elim (w.load (load_of w job path)) [
      | err e ↦
          if e.is_cancelled
          then finish w job.run cancelled cancelled_during_load 0 touched
          else finish w job.run failed (load_failed e.text) 0 touched
      | ok r ↦
          finish w
            (record job.run {
              bytes_restored = r.bytes;
              warnings = noted r.output job.run.warnings;
            })
            completed no_failure r.objects touched
    ]

-- `runDatabaseRestore`
unfoldable pub run_database_restore : World → Job → State → State
run_database_restore w job s =
    elim (w.restore_snapshot job.config job.snapshot.restic_snapshot_id job.run.target_path
      (codes "*/" ++ base job.export.path)) [
        | err e ↦
            if e.is_cancelled
            then finish w job.run cancelled cancelled_before_load 0 s
            else finish w job.run failed (extract_failed e.text) 0 s
        | ok _ ↦ elim (w.find_extracted job.run.target_path (base job.export.path)) [
          | err text ↦ finish w job.run failed (not_extracted text) 0 s
          | ok path ↦ load_export w job path s
        ]
      ]

-- The goroutine: its deferred calls run when it ends, whatever `os.RemoveAll` answers.
unfoldable pub perform : World → Job → State → State
perform w job s =
    let t = run_database_restore w job s in
    release job.snapshot.id job.run.id
      (record t { removed = t.removed ++ (job.run.target_path ∷ []) })
