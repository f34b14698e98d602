-- ===== src/BackupRun/Tests.antt =====
-- A project with one volume and a PostgreSQL database whose container is not running, backed up.
use back_orbit.Base.{
  true, false, none, some, [], ◌∷◌, ◌++◌, codes, ok, err, ◌≡◌, ◌≢◌, refl, Any, inl, ◌⊎◌,
}
use back_orbit.Base.Assoc.{lookup, insert}
use back_orbit.Base.Text.{bytes_beq, bytes_eq, ne_of_bytes_beq, trim_right, trim_left}
use back_orbit.BackupRun.{
  Answers, BackupSource, volume, probable, Container, Finding, Manifest, DatabaseDump,
  VolumeManifest, Run, Snapshot, Staged, SnapshotResult, Verification, completed_with_warnings,
  cancelled, done, ExternalError, manual, running, preparing, no_error, files_only, failed,
}
use back_orbit.BackupRun.Segment.{is_safe, path_segment, bounded_segment, safe_rune}
use back_orbit.BackupRun.Segment.Safety.{IsSegment, path_segment-IsSegment, path_segment_shared}
use back_orbit.BackupRun.Dumps.{
  by_service, dump_databases, dump_finding, dump_findings, files_entries, found_entries,
  is_dump_engine, is_dumped, manifest_entries, not_exported_note, sqlite_entries,
}
use back_orbit.Base.Times.{text_lt}
use back_orbit.BackupRun.Consistency.{
  database_consistency_warnings, server_database, append_unique, insert_sorted, note_finding,
  note_findings, note_service, sort_texts,
}
use back_orbit.BackupRun.Consistency.Warned.{Warns, database_consistency_warnings_complete}
use back_orbit.BackupRun.Execute.Stored.{Reports, execute-Reports}
use back_orbit.BackupRun.Rows.{
  find_run, snapshot_for_run, Store, insert_snapshot, update_rows, update_run,
}
use back_orbit.BackupRun.Execute.{
  execute, conclude, back_up, clear_staging_dir, stage_sources, create, verify, record_snapshot,
  finish_completed, persist, export_databases, record_staged, add_dump_bytes, prefix_warnings,
  shortfall_warnings,
}
use back_orbit.BackupRun.Execute.Outcome.{IsFinished, execute-IsFinished}
use back_orbit.BackupRun.Execute.Verified.{IsOutcome, IsUnrecorded, execute-IsOutcome}
use back_orbit.BackupRun.Execute.Contents.{Covers, execute-Covers}
use back_orbit.BackupRun.Runner.{Runner, StartError, start, reserve, activate}
use back_orbit.BackupRun.Runner.Exclusion.{System, Reachable, live_unique}

path_segment-IsSegment_example : IsSegment (path_segment (codes "../../etc"))
path_segment-IsSegment_example = path_segment-IsSegment (codes "../../etc")

path_segment_shared_example :
    (codes "srv" ++ (b'/' ∷ codes "a") ≢ codes "srv" ++ (b'-' ∷ codes "a"))
    × (path_segment (codes "srv" ++ (b'/' ∷ codes "a"))
        ≡ path_segment (codes "srv" ++ (b'-' ∷ codes "a")))
unfolding is_safe
path_segment_shared_example = path_segment_shared (codes "srv") (codes "a") b'/' refl

abbrev postgres : Finding
postgres = record {
  kind = codes "database";
  technology = codes "postgresql";
  service = codes "db";
  confidence = probable;
}

abbrev staged_data : Staged
staged_data = record {
  files = 2;
  bytes = 10;
  ownership = [];
  ownership_preserved = false;
  sqlite_databases = [];
  warnings = [];
}

abbrev written : SnapshotResult
written = record {
  snapshot_id = codes "s1";
  data_added = 10;
  total_bytes = 10;
  total_files = 2;
  warnings = [];
}

abbrev read_back : Verification
read_back = record {
  is_ok = true;
  checks = [];
  errors = [];
  files_listed = 2;
  bytes_in_snapshot = 9;
}

abbrev broken : ExternalError
broken = record { text = codes "broken"; is_canceled = false; kind_is_cancelled = false }

abbrev answers : Answers
answers = record {
  has_blueprints = true;
  has_docker = true;
  blueprint = λ _. some (postgres ∷ []);
  env_value = λ _ _. ok (codes "postgres");
  exporter = λ _ _. err broken;
  verify_restorable = λ _ _. err broken;
  clear_staging = none;
  ctx_done = λ _. false;
  stage = λ _ _ _. ok staged_data;
  create_snapshot = λ _. ok written;
  verify_snapshot = λ _. ok read_back;
  insert_snapshot_fails = none;
  update_fails = λ _. false;
  verified_at = 5;
  ended_at = 6;
  uuid = codes "u";
}

abbrev data_volume : BackupSource
data_volume = record {
  kind = volume;
  name = codes "data";
  mounted_at = codes "/data";
  services = [];
  skipped = [];
}

abbrev first_run : Run
first_run = record {
  id = codes "r1";
  project_id = codes "p1";
  project_name = codes "shop";
  repository_id = codes "repo";
  repository_name = codes "repo";
  trigger = manual;
  status = running;
  phase = preparing;
  volumes = codes "data" ∷ [];
  verify_restores = false;
  sources = data_volume ∷ [];
  files_total = 0;
  bytes_total = 0;
  bytes_added = 0;
  warnings = [];
  error = no_error;
  started_at = 1;
  ended_at = none;
  created_at = 1;
  snapshot = none;
}

abbrev one_run : Store
one_run = record { runs = first_run ∷ []; snapshots = []; events = []; updates = 0 }

database_consistency_warnings_complete_example :
    Any
      (Warns (codes "PostgreSQL") (codes "db"))
      (database_consistency_warnings answers (codes "p1") (λ _. false))
unfolding bytes_beq server_database
database_consistency_warnings_complete_example =
    database_consistency_warnings_complete answers (codes "p1") (codes "PostgreSQL") (λ _. false)
      (postgres ∷ []) postgres refl (ne_of_bytes_beq _ _ refl) refl
      (record { database = refl; server = refl; not_dumped = refl }) (inl refl)

execute-IsFinished_example :
    IsFinished answers first_run one_run (execute answers (codes "/staging") [] first_run one_run)
execute-IsFinished_example = execute-IsFinished answers (codes "/staging") [] first_run one_run

execute-IsOutcome_example :
    ((s : Snapshot) × IsOutcome answers first_run one_run
        (execute answers (codes "/staging") [] first_run one_run)
        s)
    ⊎ IsUnrecorded first_run one_run (execute answers (codes "/staging") [] first_run one_run)
execute-IsOutcome_example = execute-IsOutcome answers (codes "/staging") [] first_run one_run

abbrev data_manifest : VolumeManifest
data_manifest = record {
  name = codes "data";
  kind = volume;
  mounted_at = codes "/data";
  path_in_snapshot = codes "/staging/shop/data";
  files = 2;
  bytes = 10;
  ownership = [];
  ownership_preserved = false;
  sqlite_databases = [];
  warnings = [];
}

abbrev postgres_entry : DatabaseDump
postgres_entry = record {
  technology = codes "postgresql";
  service = codes "db";
  level = files_only;
  path = [];
  command = [];
  user = [];
  bytes = 0;
  note = not_exported_note;
  restore_check = none;
}

abbrev first_snapshot : Snapshot
first_snapshot = record {
  id = codes "u";
  run_id = codes "r1";
  repository_id = codes "repo";
  restic_snapshot_id = codes "s1";
  manifest = record {
    schema_version = 1;
    project = codes "shop";
    created_at = 1;
    volumes = data_manifest ∷ [];
    databases = postgres_entry ∷ [];
  };
  size_bytes = 10;
  files_count = 2;
  verified_at = some 5;
  verification = read_back;
  created_at = 5;
}

first_run-snapshot :
    (execute answers (codes "/staging") [] first_run one_run).run.snapshot ≡ some first_snapshot
unfolding execute conclude back_up clear_staging_dir stage_sources create verify record_snapshot
    finish_completed persist export_databases record_staged manifest_entries path_segment
    dump_databases bounded_segment bytes_beq trim_right dump_findings trim_left dump_finding
    safe_rune is_dump_engine lookup append_unique database_consistency_warnings insert_sorted
    note_finding note_findings note_service server_database sort_texts text_lt by_service
    files_entries found_entries is_dumped sqlite_entries add_dump_bytes prefix_warnings
    shortfall_warnings insert_snapshot update_rows update_run is_safe insert
first_run-snapshot = refl

execute-Covers_example :
    Covers first_run first_snapshot (execute answers (codes "/staging") [] first_run one_run)
execute-Covers_example =
    execute-Covers answers (codes "/staging") [] first_run one_run first_snapshot refl
      first_run-snapshot

row_there : find_run (codes "r1") one_run.runs ≢ none
unfolding find_run bytes_beq
row_there e = cc e

execute-Reports_example :
    let p = execute answers (codes "/staging") [] first_run one_run in
    Reports (codes "r1") p.run p.store
unfolding snapshot_for_run
execute-Reports_example =
    execute-Reports answers (codes "/staging") [] first_run one_run (λ n. refl) row_there refl refl

-- The project is known to the map and live.
abbrev reserved_runner : Runner
reserved_runner = record { active = []; by_project = (codes "p1", codes "r1") ∷ [] }

abbrev one_live : System
one_live = record { runner = reserved_runner; live = (codes "p1", codes "r1") ∷ [] }

one_live-Reachable : Reachable one_live
unfolding reserve lookup insert
one_live-Reachable = Reachable.step _ _ Reachable.start (
    back_orbit.BackupRun.Runner.Exclusion.reserved _ (codes "p1") (codes "r1") reserved_runner refl)

live_unique_example : codes "r1" ≡ codes "r1"
live_unique_example =
    live_unique one_live (codes "p1") (codes "r1") (codes "r1") one_live-Reachable (inl refl)
      (inl refl)
