-- ===== src/BackupRun/Rows.antt =====
-- internal/backuprun/store.go: the tables `backup_runs` and `snapshots` (migrations/0004_backup_runs.sql)
-- as lists of rows, with the events the runner emits. The JSON columns hold the values themselves.
-- Whether a statement fails is chosen by its caller.
pub mod Interrupted
pub mod Lookup
pub mod Listing
use back_orbit.Base.{
  ℕ, zero, suc, ◌+◌, Bool, true, false, not, ◌||◌, Option, none, some, List, [], ◌∷◌, ◌++◌, Bytes,
  ◌==◌, if◌then◌else◌, Result, ok, err, ltb, leb, nat_eq, take, map,
}
use back_orbit.Base.Text.{bytes_eq}
use back_orbit.Base.Times.{stored_lt}
use back_orbit.BackupRun.{
  Run, Snapshot, Status, running, failed, Phase, finished, RunError, interrupted, done,
}

pub data Action : Type 0 where
  backup_started backup_completed backup_failed backup_cancelled : Action

pub record Store : Type 0 where
  pub runs : List Run
  pub snapshots : List Snapshot
  pub events : List (Action × Bytes)
  -- how many updates of runs were tried
  pub updates : ℕ

-- The columns of a run; the other fields are not stored.
abbrev pub columns : Run → Run
columns run = record run { verify_restores = false; sources = []; snapshot = none }

-- The columns that `UPDATE backup_runs` sets.
abbrev pub updated : Run → Run → Run
updated run row = record row {
  status = run.status;
  phase = run.phase;
  files_total = run.files_total;
  bytes_total = run.bytes_total;
  bytes_added = run.bytes_added;
  warnings = run.warnings;
  error = run.error;
  ended_at = run.ended_at;
}

unfoldable pub update_rows : Run → List Run → List Run
update_rows run [] = []
update_rows run (row ∷ rows) =
    let rest = update_rows run rows in
    if row.id == run.id then updated run row ∷ rest else row ∷ rest

unfoldable pub find_run : Bytes → List Run → Option Run
find_run id [] = none
find_run id (row ∷ rows) = let rest = find_run id rows in if row.id == id then some row else rest

-- `insertRun`; the primary key refuses a second row with the id.
unfoldable pub insert_run : Run → Store → Option Store
insert_run run s = elim (find_run run.id s.runs) [
  | none ↦ some (record s { runs = s.runs ++ (columns run ∷ []) })
  | some _ ↦ none
]

-- `updateRun`
unfoldable pub update_run : Run → Store → Store
update_run run s = record s { runs = update_rows run s.runs }

-- `insertSnapshot`
unfoldable pub insert_snapshot : Snapshot → Store → Store
insert_snapshot snapshot s = record s { snapshots = s.snapshots ++ (snapshot ∷ []) }

abbrev pub emit : Action → Bytes → Store → Store
emit action id s = record s { events = s.events ++ ((action, id) ∷ []) }

-- `snapshotForRun`
unfoldable pub snapshot_for_run : Bytes → List Snapshot → Option Snapshot
snapshot_for_run id [] = none
snapshot_for_run id (s ∷ ss) =
    let rest = snapshot_for_run id ss in if s.run_id == id then some s else rest

abbrev pub attach : Store → Run → Run
attach s run = record run { snapshot = snapshot_for_run run.id s.snapshots }

-- `getRun`
unfoldable pub get_run : Bytes → Store → Option Run
get_run id s = elim (find_run id s.runs) [ none ↦ none | some run ↦ some (attach s run) ]

-- ORDER BY created_at DESC, on the stored texts
unfoldable pub insert_by_date : Run → List Run → List Run
insert_by_date run [] = run ∷ []
insert_by_date run (r ∷ rs) =
    let rest = insert_by_date run rs in
    if stored_lt run.created_at r.created_at then r ∷ rest else run ∷ r ∷ rs

unfoldable pub sort_by_date : List Run → List Run
sort_by_date [] = []
sort_by_date (r ∷ rs) = insert_by_date r (sort_by_date rs)

-- A limit below 1 is 0 here.
abbrev pub effective_limit : ℕ → ℕ
effective_limit limit = if leb limit 0 || ltb 200 limit then 50 else limit

-- `listRuns`
unfoldable pub list_runs : ℕ → Store → List Run
list_runs limit s = map (attach s) (take (effective_limit limit) (sort_by_date s.runs))

abbrev pub interrupted_row : ℕ → Run → Run
interrupted_row now row = record row {
  status = failed;
  phase = finished;
  ended_at = some now;
  error = interrupted;
}

unfoldable pub mark_rows : ℕ → List Run → ℕ × List Run
mark_rows now [] = (0, [])
mark_rows now (row ∷ rows) =
    let (n, rest) = mark_rows now rows in
    if done row.status then (n, row ∷ rest) else (suc n, interrupted_row now row ∷ rest)

-- `markInterruptedRuns`: how many rows, and the tables.
unfoldable pub mark_interrupted_runs : ℕ → Store → ℕ × Store
mark_interrupted_runs now s = let (n, rows) = mark_rows now s.runs in (n, record s { runs = rows })
