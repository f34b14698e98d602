-- ===== src/BackupRun.antt =====
-- internal/backuprun: one backup run. Here are the types of run.go, with the sources of
-- internal/projects/sources.go and the findings of internal/projectanalyzer/types.go that a run
-- reads. A warning and an error of a run are the arguments of their format strings. An `int64` is
-- its 64-bit pattern, so sums wrap around. Times are numbers; fields that only the browser shows
-- (durations, evidence, labels) are left out.
pub mod Segment
pub mod Dumps
pub mod Consistency
pub mod Rows
pub mod Runner
pub mod Execute
mod Tests
use back_orbit.Base.{
  ℕ, ◌+◌, ◌-◌, ◌*◌, ◌%◌, ◌^◌, Bool, true, false, not, Option, none, some, List, Bytes, ltb, Result,
}

-- int64
abbrev pub add_int64 : ℕ → ℕ → ℕ
add_int64 a b = (a + b) % 2 ^ 64

abbrev pub sub_int64 : ℕ → ℕ → ℕ
sub_int64 a b = (a + 2 ^ 64 - b) % 2 ^ 64

-- Signed order: the sign bit is flipped.
abbrev pub lt_int64 : ℕ → ℕ → Bool
lt_int64 a b = ltb ((a + 2 ^ 63) % 2 ^ 64) ((b + 2 ^ 63) % 2 ^ 64)

pub data Status : Type 0 where
  running completed_with_warnings completed failed cancelled : Status

abbrev pub done : Status → Bool
done running = false
done _ = true

pub data Phase : Type 0 where
  preparing staging snapshotting verifying finished : Phase

pub data Trigger : Type 0 where
  manual scheduled : Trigger

pub data SourceKind : Type 0 where
  volume bind : SourceKind

pub record BackupSource : Type 0 where
  pub kind : SourceKind
  pub name : Bytes
  pub mounted_at : Bytes
  pub services : List Bytes
  pub skipped : Bytes

-- An error of something the run calls: its text, whether `errors.Is(err, context.Canceled)`, and
-- whether `backup.KindOf(err)` is `ErrKindCancelled`.
pub record ExternalError : Type 0 where
  pub text : Bytes
  pub is_canceled : Bool
  pub kind_is_cancelled : Bool

-- A database of a project, by service and technology.
pub data Warning : Type 0 where
  staged : SourceKind → Bytes → Bytes → Warning
  not_running : Bytes → Bytes → Warning
  not_exported : Bytes → Bytes → Bytes → Warning
  not_test_restored : Bytes → Bytes → Bytes → Warning
  did_not_load : Bytes → Bytes → Bytes → Warning
  copied_as_files : Bytes → List Bytes → Warning
  engine_warning : Bytes → Warning
  shortfall : ℕ → ℕ → ℕ → Warning

pub data RunError : Type 0 where
  no_error : RunError
  clearing_staging : Bytes → RunError
  staging_volume : Bytes → Bytes → RunError
  creating_snapshot : Bytes → RunError
  verifying_snapshot : Bytes → Bytes → RunError
  not_verified : Bytes → List Bytes → RunError
  recording_failed : Bytes → Bytes → RunError
  cancelled_early : RunError
  interrupted : RunError

pub record SqliteCapture : Type 0 where
  pub path : Bytes
  pub method : Bytes
  pub bytes : ℕ

pub record OwnershipEntry : Type 0 where
  pub path : Bytes
  pub uid : ℕ
  pub gid : ℕ
  pub mode : ℕ

pub record VolumeManifest : Type 0 where
  pub name : Bytes
  pub kind : SourceKind
  pub mounted_at : Bytes
  pub path_in_snapshot : Bytes
  pub files : ℕ
  pub bytes : ℕ
  pub ownership : List OwnershipEntry
  pub ownership_preserved : Bool
  pub sqlite_databases : List SqliteCapture
  pub warnings : List Bytes

pub data ProtectionLevel : Type 0 where
  exported consistent files_only : ProtectionLevel

pub record RestoreCheck : Type 0 where
  pub loaded : Bool
  pub objects : ℕ
  pub detail : Bytes

pub record DatabaseDump : Type 0 where
  pub technology : Bytes
  pub service : Bytes
  pub level : ProtectionLevel
  pub path : Bytes
  pub command : Bytes
  pub user : Bytes
  pub bytes : ℕ
  pub note : Bytes
  pub restore_check : Option RestoreCheck

pub record Manifest : Type 0 where
  pub schema_version : ℕ
  pub project : Bytes
  pub created_at : ℕ
  pub volumes : List VolumeManifest
  pub databases : List DatabaseDump

pub record Verification : Type 0 where
  pub is_ok : Bool
  pub checks : List Bytes
  pub errors : List Bytes
  pub files_listed : ℕ
  pub bytes_in_snapshot : ℕ

pub record Snapshot : Type 0 where
  pub id : Bytes
  pub run_id : Bytes
  pub repository_id : Bytes
  pub restic_snapshot_id : Bytes
  pub manifest : Manifest
  pub size_bytes : ℕ
  pub files_count : ℕ
  pub verified_at : Option ℕ
  pub verification : Verification
  pub created_at : ℕ

pub record Run : Type 0 where
  pub id : Bytes
  pub project_id : Bytes
  pub project_name : Bytes
  pub repository_id : Bytes
  pub repository_name : Bytes
  pub trigger : Trigger
  pub status : Status
  pub phase : Phase
  pub volumes : List Bytes
  pub verify_restores : Bool
  pub sources : List BackupSource
  pub files_total : ℕ
  pub bytes_total : ℕ
  pub bytes_added : ℕ
  pub warnings : List Warning
  pub error : RunError
  pub started_at : ℕ
  pub ended_at : Option ℕ
  pub created_at : ℕ
  pub snapshot : Option Snapshot

-- internal/projectanalyzer/types.go
pub data Confidence : Type 0 where
  confirmed probable possible : Confidence

pub record Finding : Type 0 where
  pub kind : Bytes
  pub technology : Bytes
  pub service : Bytes
  pub confidence : Confidence

-- internal/docker/types.go, as far as a run reads it
pub record Container : Type 0 where
  pub id : Bytes
  pub service : Bytes
  pub image : Bytes

-- internal/dbdump: what an exporter is asked and what it answers.
pub record Target : Type 0 where
  pub technology : Bytes
  pub service : Bytes
  pub container_id : Bytes
  pub user : Bytes
  pub password : Bytes

pub record Dump : Type 0 where
  pub technology : Bytes
  pub service : Bytes
  pub path : Bytes
  pub command : Bytes
  pub user : Bytes
  pub bytes : ℕ

-- Which exporter of internal/dbdump.
pub data Exporter : Type 0 where
  postgresql mysql mongodb : Exporter

-- internal/storage: what staging one source produced.
pub record Staged : Type 0 where
  pub files : ℕ
  pub bytes : ℕ
  pub ownership : List OwnershipEntry
  pub ownership_preserved : Bool
  pub sqlite_databases : List SqliteCapture
  pub warnings : List Bytes

-- internal/backup: what restic reported of a snapshot it wrote.
pub record SnapshotResult : Type 0 where
  pub snapshot_id : Bytes
  pub data_added : ℕ
  pub total_bytes : ℕ
  pub total_files : ℕ
  pub warnings : List Bytes

-- The points of a run where `ctx.Err()` is read; a staging step by the position of its source.
pub data Moment : Type 0 where
  before_source : ℕ → Moment
  after_staging : ℕ → Moment
  after_snapshot after_verification : Moment

-- The blueprint is read three times in a run.
pub data Reading : Type 0 where
  for_dumps for_manifest for_warnings : Reading

-- What the things a run calls answer. The n-th update of the run's row is `update_fails n`.
pub record Answers : Type 0 where
  pub has_blueprints : Bool
  pub has_docker : Bool
  pub blueprint : Reading → Option (List Finding)
  pub env_value : Bytes → Bytes → Result ExternalError Bytes
  pub exporter : Exporter → Target → Result ExternalError Dump
  pub verify_restorable : Bytes → Dump → Result ExternalError RestoreCheck
  pub clear_staging : Option ExternalError
  pub ctx_done : Moment → Bool
  pub stage : ℕ → BackupSource → Bytes → Result ExternalError Staged
  pub create_snapshot : List Bytes → Result ExternalError SnapshotResult
  pub verify_snapshot : Bytes → Result ExternalError Verification
  pub insert_snapshot_fails : Option ExternalError
  pub update_fails : ℕ → Bool
  pub verified_at : ℕ
  pub ended_at : ℕ
  pub uuid : Bytes
