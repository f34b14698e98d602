-- ===== src/Restore/Extraction.antt =====
-- internal/restore/restore.go: the preview and the extraction of a snapshot into a new directory, and
-- the statements on the table `restore_runs`.
pub mod Isolated
use back_orbit.Base.{
  ℕ, suc, Bool, true, false, not, ◌&&◌, ◌||◌, Option, none, some, List, [], ◌∷◌, ◌++◌, Bytes, codes,
  ◌==◌, if◌then◌else◌, ltb, leb, map, take, trim_space, Result, ok, err, ◌>>=◌, ◌>>◌, guard,
  or_fail,
}
use back_orbit.Base.Text.{bytes_eq}
use back_orbit.Base.Paths.{join}
use back_orbit.Base.Times.{stored_lt}
use back_orbit.BackupRun.{Snapshot, SourceKind, VolumeManifest}
use back_orbit.Repositories.Service.{RepositoryConfig}
use back_orbit.Restore.{
  Failure, Mode, Run, State, Status, cancelled, clone, completed, database, engine_failure, extract,
  failed, in_place, no_failure, release, restore_ended, running, stopped_while_running, update_rows,
}
use back_orbit.Restore.Reservation.{
  RestoreError, no_repository, reserve, run_not_found, snapshot_missing, unsupported,
}
use back_orbit.Restore.Database.{Interruption}

-- The text of a request's mode.
pub data ModeText : Type 0 where
  unset other_text : ModeText
  named : Mode → ModeText

pub record PreviewRequest : Type 0 where
  pub snapshot_id : Bytes
  pub mode : ModeText
  pub new_project_name : Bytes

pub data Issue : Type 0 where
  isolated_extraction project_bundle_required project_name_required : Issue

pub record Item : Type 0 where
  pub kind : SourceKind
  pub name : Bytes
  pub source_path : Bytes
  pub intended_target : Bytes
  pub files : ℕ
  pub bytes : ℕ

pub record Preview : Type 0 where
  pub snapshot_id : Bytes
  pub project_name : Bytes
  pub mode : Mode
  pub supported : Bool
  pub destructive : Bool
  pub estimated_bytes : ℕ
  pub files : ℕ
  pub items : List Item
  pub warnings : List Issue
  pub blockers : List Issue

pub record Extracted : Type 0 where
  pub files : ℕ
  pub bytes : ℕ
  pub warnings : List Bytes

pub record World : Type 0 where
  pub now : ℕ
  pub uuid : Bytes
  pub root : Bytes
  pub snapshot : Bytes → Option Snapshot
  pub config : Bytes → Option RepositoryConfig
  pub target_fails : Bool
  pub insert_fails : Bool
  pub update_fails : Bool
  -- repository, snapshot and target
  pub restore_snapshot : RepositoryConfig → Bytes → Bytes → Result Interruption Extracted

abbrev item_of : VolumeManifest → Item
item_of v = record {
  kind = v.kind;
  name = v.name;
  source_path = v.path_in_snapshot;
  intended_target = v.name;
  files = v.files;
  bytes = v.bytes;
}

abbrev effective_mode : ModeText → Option Mode
effective_mode unset = some extract
effective_mode (named m) = some m
effective_mode other_text = none

abbrev is_nil : List Issue → Bool
is_nil [] = true
is_nil (_ ∷ _) = false

-- What the switch of `Preview` sets: supported, destructive, warnings and blockers.
unfoldable pub verdict : Mode → Bytes → Option (Bool × Bool × List Issue × List Issue)
verdict extract name = some (true, false, isolated_extraction ∷ [], [])
verdict in_place name = some (false, true, [], project_bundle_required ∷ [])
verdict clone name = some (
  false,
  true,
  [],
  if trim_space name == []
      then project_name_required ∷ project_bundle_required ∷ []
      else project_bundle_required ∷ [],
)
verdict database name = none

-- `Preview`
unfoldable pub preview : World → PreviewRequest → Result RestoreError Preview
preview w req = do
  s ← or_fail (w.snapshot req.snapshot_id) snapshot_missing
  mode ← or_fail (effective_mode req.mode) unsupported
  found ← or_fail (verdict mode req.new_project_name) unsupported
  ok (record {
    snapshot_id = s.id;
    project_name = s.manifest.project;
    mode = mode;
    supported = found.0 && is_nil found.3;
    destructive = found.1;
    estimated_bytes = s.size_bytes;
    files = s.files_count;
    items = map item_of s.manifest.volumes;
    warnings = found.2;
    blockers = found.3;
  })

abbrev pub is_extract : Mode → Bool
is_extract extract = true
is_extract _ = false

abbrev pub new_run : World → Snapshot → Mode → Run
new_run w s mode = record {
  id = w.uuid;
  snapshot_id = s.id;
  project_name = s.manifest.project;
  mode = mode;
  status = running;
  target_path = join w.root w.uuid;
  files_restored = 0;
  bytes_restored = 0;
  warnings = [];
  error = no_failure;
  started_at = w.now;
  ended_at = none;
  created_at = w.now;
}

-- `Start` up to the reservation: the run, the snapshot and its repository.
unfoldable pub plan :
    World → PreviewRequest → Result RestoreError (Run × Snapshot × RepositoryConfig)
plan w req = do
  p ← preview w req
  guard (p.supported && is_extract p.mode) unsupported
  s ← or_fail (w.snapshot req.snapshot_id) snapshot_missing
  config ← or_fail (w.config s.repository_id) no_repository
  ok (new_run w s p.mode, s, config)

-- `Start` up to its goroutine.
unfoldable pub start :
    World → PreviewRequest → State → Result RestoreError (Run × Snapshot × RepositoryConfig) × State
start w req s = elim (plan w req) [
  | err e ↦ (err e, s)
  | ok job ↦
      let (answer, t) = reserve w.target_fails w.insert_fails job.1.id job.0 s in
      elim answer [ err e ↦ (err e, t) | ok _ ↦ (ok job, t) ]
]

-- The run that the goroutine of `Start` ends with.
unfoldable pub ended_run : World → Run → Result Interruption Extracted → Run
ended_run w run (err e) = record run {
  ended_at = some w.now;
  status = if e.is_cancelled then cancelled else failed;
  error = engine_failure e.text;
}
ended_run w run (ok r) = record run {
  ended_at = some w.now;
  status = completed;
  files_restored = r.files;
  bytes_restored = r.bytes;
  warnings = r.warnings;
}

-- The goroutine of `Start`.
unfoldable pub extract_snapshot : World → Run → Snapshot → RepositoryConfig → State → State
extract_snapshot w run s config t =
    let ended = ended_run w run (w.restore_snapshot config s.restic_snapshot_id run.target_path) in
    release s.id run.id (record t {
      rows = if w.update_fails then t.rows else update_rows ended t.rows;
      emitted = t.emitted ++ (restore_ended run.id ended.status 0 ∷ []);
    })

abbrev contains : Bytes → List Bytes → Bool
contains id [] = false
contains id (x ∷ xs) = x == id || contains id xs

-- `Cancel`: the run's context is cancelled, which shows in what its later calls answer.
unfoldable pub cancel : Bytes → State → Result RestoreError (Unit {0})
cancel id s = guard (contains id s.active) run_not_found

abbrev is_running : Status → Bool
is_running running = true
is_running _ = false

-- `CloseInterruptedRuns`: how many rows, and all of them.
unfoldable pub close_rows : ℕ → List Run → ℕ × List Run
close_rows now [] = (0, [])
close_rows now (r ∷ rs) =
    let (n, rest) = close_rows now rs in
    if is_running r.status
    then (
      suc n,
      record r { status = failed; error = stopped_while_running; ended_at = some now } ∷ rest,
    )
    else (n, r ∷ rest)

-- `Get`
unfoldable pub find_run : Bytes → List Run → Option Run
find_run id [] = none
find_run id (r ∷ rs) = let rest = find_run id rs in if r.id == id then some r else rest

unfoldable pub insert_by_date : Run → List Run → List Run
insert_by_date run [] = run ∷ []
insert_by_date run (r ∷ rs) =
    let rest = insert_by_date run rs in
    if stored_lt run.created_at r.created_at then r ∷ rest else run ∷ r ∷ rs

unfoldable pub sort_by_date : List Run → List Run
sort_by_date [] = []
sort_by_date (r ∷ rs) = insert_by_date r (sort_by_date rs)

-- `List`
unfoldable pub list : ℕ → State → List Run
list limit s = take (if leb limit 0 || ltb 100 limit then 25 else limit) (sort_by_date s.rows)
