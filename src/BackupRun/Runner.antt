-- ===== src/BackupRun/Runner.antt =====
-- `Start`, `Cancel` and `release` of internal/backuprun/runner.go. What a call does under the mutex
-- is one function; between two of them other calls may run, which the step relation of
-- Runner/Exclusion lets them do.
pub mod Exclusion
pub mod Starting
use back_orbit.Base.{
  ℕ, Bool, true, false, not, ◌||◌, ◌&&◌, Option, none, some, List, [], ◌∷◌, Bytes, ◌==◌,
  if◌then◌else◌, Result, ok, err, ◌>>=◌, ◌>>◌, guard,
}
use back_orbit.Base.Assoc.{Assoc, lookup, insert, remove}
use back_orbit.Base.Text.{bytes_eq}
use back_orbit.BackupRun.{
  BackupSource, ExternalError, Run, Trigger, manual, running, preparing, no_error,
}
use back_orbit.BackupRun.Rows.{Store, insert_run, emit, backup_started}

pub data StartError : Type 0 where
  lookup_failed : ExternalError → StartError
  nothing_to_back_up docker_unreachable : StartError
  already_running : Bytes → StartError
  insert_failed : StartError

pub record StartRequest : Type 0 where
  pub trigger : Option Trigger
  pub verify_restores : Bool

-- projects.Detail and repositories.Repository, as far as `Start` reads them
pub record Project : Type 0 where
  pub id : Bytes
  pub name : Bytes
  pub docker_available : Bool
  pub sources : List BackupSource

pub record Repository : Type 0 where
  pub id : Bytes
  pub name : Bytes

-- `Backupable`
abbrev pub is_backupable : BackupSource → Bool
is_backupable s = s.skipped == []

unfoldable pub backupable_sources : List BackupSource → List BackupSource
backupable_sources [] = []
backupable_sources (s ∷ ss) =
    let rest = backupable_sources ss in if is_backupable s then s ∷ rest else rest

unfoldable pub names_of_sources : List BackupSource → List Bytes
names_of_sources [] = []
names_of_sources (s ∷ ss) = s.name ∷ names_of_sources ss

abbrev pub trigger_or_manual : Option Trigger → Trigger
trigger_or_manual none = manual
trigger_or_manual (some t) = t

abbrev pub new_run : Bytes → ℕ → StartRequest → Project → Repository → Run
new_run uuid now req project repository = record {
  id = uuid;
  project_id = project.id;
  project_name = project.name;
  repository_id = repository.id;
  repository_name = repository.name;
  trigger = trigger_or_manual req.trigger;
  status = running;
  phase = preparing;
  volumes = names_of_sources (backupable_sources project.sources);
  verify_restores = req.verify_restores;
  sources = backupable_sources project.sources;
  files_total = 0;
  bytes_total = 0;
  bytes_added = 0;
  warnings = [];
  error = no_error;
  started_at = now;
  ended_at = none;
  created_at = now;
  snapshot = none;
}

abbrev lookup_or_fail {ℓ} : {A : Type ℓ} → Result ExternalError A → Result StartError A
lookup_or_fail (ok x) = ok x
lookup_or_fail (err e) = err (lookup_failed e)

abbrev pub is_empty {ℓ} : {A : Type ℓ} → List A → Bool
is_empty [] = true
is_empty (_ ∷ _) = false

-- `Start` up to the mutex. The engine's configuration is only fetched here for its error.
unfoldable pub prepare :
    Bytes
    → ℕ
    → StartRequest
    → Result ExternalError Project
    → Result ExternalError Repository
    → Result ExternalError (Unit {0})
    → Result StartError Run
prepare uuid now req project_answer repository_answer config_answer = do
  project ← lookup_or_fail project_answer
  repository ← lookup_or_fail repository_answer
  _ ← lookup_or_fail config_answer
  guard (not (is_empty (backupable_sources project.sources)) || project.docker_available)
      docker_unreachable
  guard (not (is_empty (backupable_sources project.sources))) nothing_to_back_up
  ok (new_run uuid now req project repository)

-- The two maps of the runner: the runs that can be cancelled, with whether they were, and the run of
-- each project.
pub record Runner : Type 0 where
  pub active : Assoc Bytes Bool
  pub by_project : Assoc Bytes Bytes

-- The first section under the mutex.
unfoldable pub reserve : Bytes → Bytes → Runner → Result StartError Runner
reserve project run s = elim (lookup project s.by_project) [
  | some existing ↦ err (already_running existing)
  | none ↦ ok (record s { by_project = insert project run s.by_project })
]

-- The second one.
unfoldable pub activate : Bytes → Runner → Runner
activate run s = record s { active = insert run false s.active }

-- `Cancel`
unfoldable pub cancel : Bytes → Runner → Option Runner
cancel run s = elim (lookup run s.active) [
  | none ↦ none
  | some _ ↦ some (record s { active = insert run true s.active })
]

-- `release`
unfoldable pub release : Bytes → Bytes → Runner → Runner
release project run s = record s {
  active = remove run s.active;
  by_project = elim (lookup project s.by_project) [
    | none ↦ s.by_project
    | some r ↦ if r == run then remove project s.by_project else s.by_project
  ];
}

-- The insertion of the run's row and what follows it; `fails` is a failure of the database.
unfoldable pub record_start : Bool → Run → Runner → Store → Result StartError Run × Runner × Store
record_start fails run s store = elim (if fails then none else insert_run run store) [
  | none ↦ (err insert_failed, release run.project_id run.id s, store)
  | some t ↦ (ok run, activate run.id s, emit backup_started run.id t)
]

-- `Start` without another call in between.
unfoldable pub start :
    Result StartError Run → Bool → Runner → Store → Result StartError Run × Runner × Store
start (err e) fails s store = (err e, s, store)
start (ok run) fails s store = elim (reserve run.project_id run.id s) [
  | err e ↦ (err e, s, store)
  | ok t ↦ record_start fails run t store
]
