-- ===== src/BackupRun/Execute/Stored.antt =====
-- What is read of a run after its end.
use back_orbit.Base.{
  ℕ, false, none, some, List, Bytes, Result, ok, err, ◌≡◌, ◌≢◌, refl, arith, Option-cases, inl, inr,
  sym, subst, ◌∙◌,
}
use back_orbit.BackupRun.{Answers, Container, Run, Snapshot}
use back_orbit.BackupRun.Segment.{path_segment}
use back_orbit.BackupRun.Rows.{
  Store, attach, find_run, get_run, snapshot_for_run, update_run, updated,
}
use back_orbit.BackupRun.Rows.Lookup.{find_run-id, find_run-update_rows, snapshot_for_run-append}
use back_orbit.BackupRun.Execute.{
  Progress, persist, execute, conclude, finish_failed, finish_cancelled, finish_completed, back_up,
  begin, join,
}
use back_orbit.BackupRun.Execute.Steps.{Ends, IsRecorded, back_up-Ends}

-- The row shows what the run ended with.
pub record IsReported (run row : Run) : Type 0 where
  pub same_status : row.status ≡ run.status
  pub same_phase : row.phase ≡ run.phase
  pub same_totals :
      (row.files_total ≡ run.files_total)
      × (row.bytes_total ≡ run.bytes_total)
      × (row.bytes_added ≡ run.bytes_added)
  pub same_warnings : row.warnings ≡ run.warnings
  pub same_error : row.error ≡ run.error
  pub same_end : row.ended_at ≡ run.ended_at
  pub same_snapshot : row.snapshot ≡ run.snapshot

abbrev pub Reports : Bytes → Run → Store → Type 0
Reports id run store = (row : Run) × (get_run id store ≡ some row) × IsReported run row

get_run-found :
    (id : Bytes) (s : Store) (row : Run)
    → find_run id s.runs ≡ some row
    → get_run id s ≡ some (attach s row)
unfolding get_run
get_run-found id s row e = rw (get_run, e) refl

persist-found :
    (a : Answers) (p : Progress) (row : Run)
    → a.update_fails p.store.updates ≡ false
    → find_run p.run.id p.store.runs ≡ some row
    → find_run p.run.id (persist a p).store.runs ≡ some (updated p.run row)
unfolding persist update_run
persist-found a p row u e = rw (persist, u) (find_run-update_rows p.run p.store.runs row e)

persist-run : (a : Answers) (p : Progress) → (persist a p).run ≡ p.run
unfolding persist
persist-run a p = refl

persist-snapshots : (a : Answers) (p : Progress) → (persist a p).store.snapshots ≡ p.store.snapshots
unfolding persist update_run
persist-snapshots a p = ground arith

reported :
    (a : Answers) (id : Bytes) (p : Progress)
    → a.update_fails p.store.updates ≡ false
    → p.run.id ≡ id
    → find_run id p.store.runs ≢ none
    → snapshot_for_run id p.store.snapshots ≡ p.run.snapshot
    → Reports id (persist a p).run (persist a p).store
reported a id p u i h s = elim (Option-cases (find_run id p.store.runs)) [
  | inl n ↦ elim (h n) [ ]
  | inr (row, e) ↦
      let found =
        persist-found a p row u (subst (λ j. find_run j p.store.runs ≡ some row) (sym i) e) in
      subst (λ r. Reports id r (persist a p).store) (sym (persist-run a p))
        (
          attach (persist a p).store (updated p.run row),
          get_run-found id (persist a p).store (updated p.run row)
              (subst (λ j. find_run j (persist a p).store.runs ≡ some (updated p.run row)) i found),
          record {
            same_status = refl;
            same_phase = refl;
            same_totals = (refl, refl, refl);
            same_warnings = refl;
            same_error = refl;
            same_end = refl;
            same_snapshot = rw (find_run-id id p.store.runs row e, persist-snapshots a p) s;
          },
        )
]

conclude-Reports :
    (a : Answers) (run : Run) (store : Store) (r : Result Progress (Snapshot × Progress))
    → ((n : ℕ) → a.update_fails n ≡ false)
    → find_run run.id store.runs ≢ none
    → snapshot_for_run run.id store.snapshots ≡ none
    → run.snapshot ≡ none
    → Ends a (begin run store) (λ x. IsRecorded a (begin run store) x.0 x.1) r
    → Reports run.id (conclude a r).run (conclude a r).store
unfolding conclude finish_completed finish_failed finish_cancelled get_run
conclude-Reports a run store (ok (s, q)) u f n w h =
    reported a run.id _ (u q.store.updates) h.same_run (h.row_kept f)
      (rw h.added (snapshot_for_run-append run.id s store.snapshots n h.of_run))
conclude-Reports a run store (err q) u f n w (r, h, how) =
    let unattached : snapshot_for_run run.id r.store.snapshots ≡ r.run.snapshot =
      rw (h.same_snapshots, h.same_snapshot) (n ∙ sym w) in
    elim how [
      | inl (e, stopped) ↦
          rw stopped (reported a run.id _ (u r.store.updates) h.same_id (h.kept f) unattached)
      | inr stopped ↦
          rw stopped (reported a run.id _ (u r.store.updates) h.same_id (h.kept f) unattached)
    ]

-- After a run, `getRun` reports what the run ended with, its snapshot included, however the run
-- ended. Conditions: the run's row is there, no snapshot of it is there before and the run carries
-- none, and no update of its row fails.
pub execute-Reports :
    (a : Answers) (dir : Bytes) (containers : List Container) (run : Run) (store : Store)
    → ((n : ℕ) → a.update_fails n ≡ false)
    → find_run run.id store.runs ≢ none
    → snapshot_for_run run.id store.snapshots ≡ none
    → run.snapshot ≡ none
    → let p = execute a dir containers run store in Reports run.id p.run p.store
unfolding execute
execute-Reports a dir containers run store u f n w =
    conclude-Reports a run store
      (back_up a (join dir (path_segment run.project_name)) containers (begin run store)) u f n w
      (back_up-Ends a _ containers (begin run store))
