-- ===== src/BackupRun/Execute.antt =====
-- `execute` of internal/backuprun/runner.go with what it calls there. The store of runs is part of
-- the state; an early `return` is an error of the chain that carries the state it left, and each
-- branch calls `finishFailed` or `finishCancelled` itself before it, as in the program. The staging directory is a clean path
-- without a slash at its end. Its clearing at the end of a run, which is only logged when it fails,
-- and the log have no counterpart.
pub mod Outcome
pub mod Steps
pub mod Verified
pub mod Contents
pub mod Stored
use back_orbit.Base.{
  ℕ, suc, ◌+◌, Bool, true, false, not, ◌&&◌, ◌||◌, Option, none, some, List, [], ◌∷◌, ◌++◌, Bytes,
  codes, ◌==◌, if◌then◌else◌, Result, ok, err, ◌>>=◌, ◌>>◌, guard, map_err, map,
}
use back_orbit.Base.Text.{bytes_eq}
use back_orbit.BackupRun.{
  add_int64, sub_int64, lt_int64, Status, completed, completed_with_warnings, failed, cancelled,
  Phase, staging, snapshotting, verifying, finished, BackupSource, SourceKind, bind, volume,
  Warning, staged, engine_warning, shortfall, RunError, clearing_staging, staging_volume,
  creating_snapshot, verifying_snapshot, not_verified, recording_failed, cancelled_early,
  ExternalError, VolumeManifest, Manifest, Verification, Snapshot, SnapshotResult, Run, Answers,
  Staged, Container, before_source, after_staging, after_snapshot, after_verification,
}
use back_orbit.BackupRun.Segment.{path_segment}
use back_orbit.BackupRun.Dumps.{DumpResult, dump_databases, manifest_entries, is_dumped}
use back_orbit.BackupRun.Consistency.{database_consistency_warnings}
use back_orbit.BackupRun.Rows.{
  Store, update_run, insert_snapshot, emit, backup_completed, backup_failed, backup_cancelled,
}

-- The variables of `execute`.
pub record Progress : Type 0 where
  pub run : Run
  pub manifest : Manifest
  pub staged_paths : List Bytes
  pub store : Store

-- filepath.Join
abbrev pub join : Bytes → Bytes → Bytes
join dir name = dir ++ (codes "/" ++ name)

-- `wasCancelled`
unfoldable pub was_cancelled : Bool → ExternalError → Bool
was_cancelled ctx_done e =
    if e.is_canceled then true else if e.kind_is_cancelled then true else ctx_done

-- `prefixWarnings`
unfoldable pub prefix_warnings : BackupSource → List Bytes → List Warning
prefix_warnings source [] = []
prefix_warnings source (w ∷ ws) = staged source.kind source.name w ∷ prefix_warnings source ws

abbrev pub volume_manifest : BackupSource → Bytes → Staged → VolumeManifest
volume_manifest source dest r = record {
  name = source.name;
  kind = source.kind;
  mounted_at = source.mounted_at;
  path_in_snapshot = dest;
  files = r.files;
  bytes = r.bytes;
  ownership = r.ownership;
  ownership_preserved = r.ownership_preserved;
  sqlite_databases = r.sqlite_databases;
  warnings = r.warnings;
}

abbrev pub warn : List Warning → Progress → Progress
warn ws p = record p { run = record p.run { warnings = p.run.warnings ++ ws } }

abbrev pub enter : Phase → Progress → Progress
enter phase p = record p { run = record p.run { phase = phase } }

-- The assignments behind a staged source.
unfoldable pub record_staged : BackupSource → Bytes → Staged → Progress → Progress
record_staged source dest r p = record p {
  run = record p.run {
    files_total = add_int64 p.run.files_total r.files;
    bytes_total = add_int64 p.run.bytes_total r.bytes;
    warnings = p.run.warnings ++ prefix_warnings source r.warnings;
  };
  manifest = record p.manifest {
    volumes = p.manifest.volumes ++ (volume_manifest source dest r ∷ []);
  };
  staged_paths = p.staged_paths ++ (dest ∷ []);
}

unfoldable pub add_dump_bytes : ℕ → List DumpResult → ℕ
add_dump_bytes total [] = total
add_dump_bytes total (d ∷ ds) = add_dump_bytes (add_int64 total d.dump.bytes) ds

-- The warning on a snapshot that holds less than was staged.
unfoldable pub shortfall_warnings : Verification → ℕ → List Warning
shortfall_warnings v total =
    if lt_int64 0 v.bytes_in_snapshot && lt_int64 v.bytes_in_snapshot total
    then shortfall v.bytes_in_snapshot total (sub_int64 total v.bytes_in_snapshot) ∷ []
    else []

abbrev pub final_status : List Warning → Status
final_status [] = completed
final_status (_ ∷ _) = completed_with_warnings

abbrev pub new_manifest : Run → Manifest
new_manifest run = record {
  schema_version = 1;
  project = run.project_name;
  created_at = run.started_at;
  volumes = [];
  databases = [];
}

abbrev pub begin : Run → Store → Progress
begin run store = record {
  run = run;
  manifest = new_manifest run;
  staged_paths = [];
  store = store;
}

module _ (a : Answers) where
  -- `persist` and `persistDetached`: a failed update is only logged.
  unfoldable pub persist : Progress → Progress
  persist p =
      let tried = record p.store { updates = suc p.store.updates } in
      record p { store = if a.update_fails p.store.updates then tried else update_run p.run tried }

  unfoldable pub finish_failed : RunError → Progress → Progress
  finish_failed e p =
      let q = persist (record p {
        run = record p.run {
          status = failed;
          phase = finished;
          error = e;
          ended_at = some a.ended_at;
        };
      }) in
      record q { store = emit backup_failed q.run.id q.store }

  unfoldable pub finish_cancelled : Progress → Progress
  finish_cancelled p =
      let q = persist (record p {
        run = record p.run {
          status = cancelled;
          phase = finished;
          error = cancelled_early;
          ended_at = some a.ended_at;
        };
      }) in
      record q { store = emit backup_cancelled q.run.id q.store }

  -- The two finishers behind an error that a cancellation can have caused.
  unfoldable pub stop_with : Bool → ExternalError → RunError → Progress → Progress
  stop_with ctx_done e failure p =
      if was_cancelled ctx_done e then finish_cancelled p else finish_failed failure p

  unfoldable pub clear_staging_dir : Progress → Result Progress Progress
  clear_staging_dir p = elim a.clear_staging [
    | none ↦ ok p
    | some e ↦ err (finish_failed (clearing_staging e.text) p)
  ]

  -- The loop over the sources, from the i-th on.
  unfoldable pub stage_sources : Bytes → ℕ → List BackupSource → Progress → Result Progress Progress
  stage_sources work_dir i [] p = ok p
  stage_sources work_dir i (s ∷ ss) p = do
    guard (not (a.ctx_done (before_source i))) (finish_cancelled p)
    let dest = join work_dir (path_segment s.name)
    r ←
        map_err (λ e. stop_with (a.ctx_done (after_staging i)) e (staging_volume s.name e.text) p)
          (a.stage i s dest)
    stage_sources work_dir (suc i) ss (persist (record_staged s dest r p))

  -- The exports, the manifest's databases, and the warnings on the rest.
  unfoldable pub export_databases : Bytes → List Container → Progress → Progress
  export_databases work_dir containers p =
      let (dumps, warnings) = dump_databases a p.run containers in
      let q = record p {
        run = record p.run {
          warnings = p.run.warnings ++ warnings;
          bytes_total = add_dump_bytes p.run.bytes_total dumps;
        };
        manifest = record p.manifest {
          databases = manifest_entries a p.run dumps p.manifest.volumes;
        };
        staged_paths = elim dumps [
          | [] ↦ p.staged_paths
          | _ ∷ _ ↦ p.staged_paths ++ (join work_dir (codes "back-orbit-dumps") ∷ [])
        ];
      } in
      warn (database_consistency_warnings a p.run.project_id (is_dumped dumps)) (persist q)

  unfoldable pub create : Progress → Result Progress (SnapshotResult × Progress)
  create p = do
    r ←
        map_err (λ e. stop_with (a.ctx_done after_snapshot) e (creating_snapshot e.text) p)
          (a.create_snapshot p.staged_paths)
    ok (
      r,
      record p {
        run = record p.run {
          bytes_added = r.data_added;
          warnings = p.run.warnings ++ map engine_warning r.warnings;
        };
      },
    )

  unfoldable pub verify : SnapshotResult → Progress → Result Progress (Verification × Progress)
  verify r p = do
    v ←
        map_err
          (λ e.
            stop_with (a.ctx_done after_verification) e (verifying_snapshot r.snapshot_id e.text) p)
          (a.verify_snapshot r.snapshot_id)
    guard v.is_ok (finish_failed (not_verified r.snapshot_id v.errors) p)
    ok (v, warn (shortfall_warnings v p.run.bytes_total) p)

  abbrev pub snapshot_of : SnapshotResult → Verification → Progress → Snapshot
  snapshot_of r v p = record {
    id = a.uuid;
    run_id = p.run.id;
    repository_id = p.run.repository_id;
    restic_snapshot_id = r.snapshot_id;
    manifest = p.manifest;
    size_bytes = r.total_bytes;
    files_count = r.total_files;
    verified_at = some a.verified_at;
    verification = v;
    created_at = a.verified_at;
  }

  unfoldable pub record_snapshot :
      SnapshotResult → Verification → Progress → Result Progress (Snapshot × Progress)
  record_snapshot r v p = elim a.insert_snapshot_fails [
    | none ↦
        ok (snapshot_of r v p, record p { store = insert_snapshot (snapshot_of r v p) p.store })
    | some e ↦ err (finish_failed (recording_failed r.snapshot_id e.text) p)
  ]

  unfoldable pub finish_completed : Snapshot → Progress → Progress
  finish_completed snapshot p =
      let q = persist (record p {
        run = record p.run {
          phase = finished;
          status = final_status p.run.warnings;
          ended_at = some a.ended_at;
          snapshot = some snapshot;
        };
      }) in
      record q { store = emit backup_completed q.run.id q.store }

  -- The chain of steps that may return early; the directory, and the project's containers.
  unfoldable pub back_up : Bytes → List Container → Progress → Result Progress (Snapshot × Progress)
  back_up work_dir containers p = do
    cleared ← clear_staging_dir p
    staged_all ← stage_sources work_dir 0 cleared.run.sources (persist (enter staging cleared))
    let exported_all = export_databases work_dir containers staged_all
    (created, p1) ← create (persist (enter snapshotting exported_all))
    (verification, p2) ← verify created (persist (enter verifying p1))
    record_snapshot created verification p2

  -- The end of `execute`, which an early return does not reach.
  unfoldable pub conclude : Result Progress (Snapshot × Progress) → Progress
  conclude (ok (snapshot, p)) = finish_completed snapshot p
  conclude (err p) = p

  unfoldable pub execute : Bytes → List Container → Run → Store → Progress
  execute staging_dir containers run store =
      conclude
        (back_up (join staging_dir (path_segment run.project_name)) containers (begin run store))
