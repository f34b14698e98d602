-- ===== src/BackupRun/Execute/Outcome.antt =====
-- How a run ends.
use back_orbit.Base.{
  true, Option, none, some, List, [], ◌∷◌, ◌++◌, Bytes, Result, ok, err, ◌≡◌, refl, arith, inl, inr,
}
use back_orbit.BackupRun.{
  Answers, Container, Run, Snapshot, Status, cancelled, completed, completed_with_warnings, failed,
  finished, done, running,
}
use back_orbit.BackupRun.Rows.{
  Action, Store, backup_cancelled, backup_completed, backup_failed, update_run,
}
use back_orbit.BackupRun.Execute.{
  Progress, persist, execute, begin, conclude, finish_failed, finish_cancelled, finish_completed,
}
use back_orbit.BackupRun.Execute.Steps.{Ends, IsRecorded, back_up-Ends}

-- The event that says how a run with this status ended.
abbrev pub end_action : Status → Option Action
end_action running = none
end_action completed = some backup_completed
end_action completed_with_warnings = some backup_completed
end_action failed = some backup_failed
end_action cancelled = some backup_cancelled

-- What a finished run is like, after a start from this run and store.
pub record IsFinished (a : Answers) (run : Run) (store : Store) (p : Progress) : Type 0 where
  pub not_running : done p.run.status ≡ true
  pub phase_finished : p.run.phase ≡ finished
  pub has_end : p.run.ended_at ≡ some a.ended_at
  pub same_run : p.run.id ≡ run.id
  pub said_once :
      (action : Action) × (end_action p.run.status ≡ some action)
      × (p.store.events ≡ store.events ++ ((action, run.id) ∷ []))

conclude-IsFinished :
    (a : Answers) (run : Run) (store : Store) (r : Result Progress (Snapshot × Progress))
    → Ends a (begin run store) (λ x. IsRecorded a (begin run store) x.0 x.1) r
    → IsFinished a run store (conclude a r)
unfolding conclude finish_failed finish_cancelled finish_completed persist update_run
conclude-IsFinished a run store (ok (snapshot, p)) h = record {
  not_running = ground arith;
  phase_finished = refl;
  has_end = refl;
  same_run = h.same_run;
  said_once = (backup_completed, ground arith, ground (arith, h.quiet, h.same_run));
}
conclude-IsFinished a run store (err q) (r, h, inl (e, stopped)) = rw stopped (record {
  not_running = refl;
  phase_finished = refl;
  has_end = refl;
  same_run = h.same_id;
  said_once = (backup_failed, refl, ground (arith, h.same_events, h.same_id));
})
conclude-IsFinished a run store (err q) (r, h, inr stopped) = rw stopped (record {
  not_running = refl;
  phase_finished = refl;
  has_end = refl;
  same_run = h.same_id;
  said_once = (backup_cancelled, refl, ground (arith, h.same_events, h.same_id));
})

-- However the things a run calls answer, and on whichever branch it returns, the run is not running
-- any more, its phase is `finished` and it has an end; and it added exactly one event, the one that
-- belongs to its last status.
pub execute-IsFinished :
    (a : Answers) (dir : Bytes) (containers : List Container) (run : Run) (store : Store)
    → IsFinished a run store (execute a dir containers run store)
unfolding execute
execute-IsFinished a dir containers run store =
    conclude-IsFinished a run store _ (back_up-Ends a _ containers (begin run store))
