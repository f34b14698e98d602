-- ===== src/Restore.antt =====
-- internal/restore: the types of restore.go and database.go, and the state of the restore runner: its
-- reservations, the table `restore_runs`, and a trace of every export that was loaded into a database.
pub mod Reservation
pub mod Database
pub mod Extraction
pub mod Confirmed
pub mod Loading
mod Tests
use back_orbit.Base.{
  ℕ, Bool, true, false, Option, none, some, List, [], ◌∷◌, ◌++◌, Bytes, ◌==◌, if◌then◌else◌,
}
use back_orbit.Base.Assoc.{Assoc, lookup, remove}
use back_orbit.Base.Text.{bytes_eq}
use back_orbit.BackupRun.{Container, DatabaseDump, Snapshot}
use back_orbit.Repositories.Service.{RepositoryConfig}

pub data Mode : Type 0 where
  extract in_place clone database : Mode

pub data Status : Type 0 where
  running completed failed cancelled : Status

-- The text in the column `error`.
pub data Failure : Type 0 where
  no_failure cancelled_before_load cancelled_during_load : Failure
  extract_failed not_extracted load_failed engine_failure : Bytes → Failure
  stopped_while_running : Failure

pub record Run : Type 0 where
  pub id : Bytes
  pub snapshot_id : Bytes
  pub project_name : Bytes
  pub mode : Mode
  pub status : Status
  pub target_path : Bytes
  pub files_restored : ℕ
  pub bytes_restored : ℕ
  pub warnings : List Bytes
  pub error : Failure
  pub started_at : ℕ
  pub ended_at : Option ℕ
  pub created_at : ℕ

-- What `dbdump.Load` was asked: into which container, as whom, and from which file.
pub record Load : Type 0 where
  pub technology : Bytes
  pub service : Bytes
  pub container_id : Bytes
  pub user : Bytes
  pub password : Bytes
  pub path : Bytes

pub data Event : Type 0 where
  restore_started : Bytes → Event
  -- the run, its status and how many objects came back
  restore_ended : Bytes → Status → ℕ → Event

pub record State : Type 0 where
  pub active : List Bytes
  pub by_snapshot : Assoc Bytes Bytes
  pub rows : List Run
  pub loads : List Load
  pub emitted : List Event
  -- the targets that `os.MkdirAll` made and those that `os.RemoveAll` was handed, in order
  pub created : List Bytes
  pub removed : List Bytes

-- What `RestoreDatabase` hands to its goroutine.
pub record Job : Type 0 where
  pub run : Run
  pub snapshot : Snapshot
  pub export : DatabaseDump
  pub container : Container
  pub config : RepositoryConfig

abbrev pub without : Bytes → List Bytes → List Bytes
without id [] = []
without id (x ∷ xs) = let rest = without id xs in if x == id then rest else x ∷ rest

-- `release`
unfoldable pub release : Bytes → Bytes → State → State
release snapshot run s = record s {
  active = without run s.active;
  by_snapshot = elim (lookup snapshot s.by_snapshot) [
    | none ↦ s.by_snapshot
    | some r ↦ if r == run then remove snapshot s.by_snapshot else s.by_snapshot
  ];
}

-- UPDATE restore_runs SET ... WHERE id = ?
unfoldable pub update_rows : Run → List Run → List Run
update_rows r [] = []
update_rows r (x ∷ xs) =
    (if x.id == r.id
      then record x {
        status = r.status;
        files_restored = r.files_restored;
        bytes_restored = r.bytes_restored;
        warnings = r.warnings;
        error = r.error;
        ended_at = r.ended_at;
      }
      else x)
    ∷ update_rows r xs
