-- ===== src/BackupRun/Execute/Verified.antt =====
-- A run is completed exactly when it recorded a snapshot that was read back.
use back_orbit.Base.{
  true, some, List, [], ◌∷◌, ◌++◌, Bytes, Result, ok, err, ◌≡◌, refl, arith, inl, inr, ◌⊎◌,
}
use back_orbit.BackupRun.{Answers, Container, Run, Snapshot, failed, cancelled}
use back_orbit.BackupRun.Rows.{Store, update_run}
use back_orbit.BackupRun.Execute.{
  Progress, persist, execute, conclude, finish_failed, finish_cancelled, finish_completed, begin,
  final_status,
}
use back_orbit.BackupRun.Execute.Steps.{Ends, IsRecorded, back_up-Ends}

-- What a run leaves behind, from how it ended.
pub record IsOutcome (a : Answers) (run : Run) (store : Store) (p : Progress) (s : Snapshot)
    : Type 0 where
  pub status_of_warnings : p.run.status ≡ final_status p.run.warnings
  pub recorded : p.store.snapshots ≡ store.snapshots ++ (s ∷ [])
  pub names_run : s.run_id ≡ run.id
  pub attached : p.run.snapshot ≡ some s
  pub good : s.verification.is_ok ≡ true
  pub was_read_back : a.verify_snapshot s.restic_snapshot_id ≡ ok s.verification

pub record IsUnrecorded (run : Run) (store : Store) (p : Progress) : Type 0 where
  pub failed_or_cancelled : (p.run.status ≡ failed) ⊎ (p.run.status ≡ cancelled)
  pub none_recorded : p.store.snapshots ≡ store.snapshots
  pub none_attached : p.run.snapshot ≡ run.snapshot

conclude-IsOutcome :
    (a : Answers) (run : Run) (store : Store) (r : Result Progress (Snapshot × Progress))
    → Ends a (begin run store) (λ x. IsRecorded a (begin run store) x.0 x.1) r
    → ((s : Snapshot) × IsOutcome a run store (conclude a r) s)
      ⊎ IsUnrecorded run store (conclude a r)
unfolding conclude finish_completed finish_failed finish_cancelled persist update_run
conclude-IsOutcome a run store (ok (s, q)) h = inl (
  s,
  record {
    status_of_warnings = refl;
    recorded = ground (arith, h.added);
    names_run = h.of_run;
    attached = refl;
    good = h.is_verified;
    was_read_back = h.read_back;
  },
)
conclude-IsOutcome a run store (err q) (r, h, inl (e, stopped)) = rw stopped (
    inr (record {
      failed_or_cancelled = inl refl;
      none_recorded = ground (arith, h.same_snapshots);
      none_attached = h.same_snapshot;
    }))
conclude-IsOutcome a run store (err q) (r, h, inr stopped) = rw stopped (
    inr (record {
      failed_or_cancelled = inr refl;
      none_recorded = ground (arith, h.same_snapshots);
      none_attached = h.same_snapshot;
    }))

-- A run has one of two outcomes, whatever the things it calls answer. Either it is completed, with
-- warnings exactly when it has some, and it added one snapshot, which names the run and which the
-- engine read back as good; or it failed or was cancelled and added no snapshot.
pub execute-IsOutcome :
    (a : Answers) (dir : Bytes) (containers : List Container) (run : Run) (store : Store)
    → ((s : Snapshot) × IsOutcome a run store (execute a dir containers run store) s)
      ⊎ IsUnrecorded run store (execute a dir containers run store)
unfolding execute
execute-IsOutcome a dir containers run store =
    conclude-IsOutcome a run store _ (back_up-Ends a _ containers (begin run store))
