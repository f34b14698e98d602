-- ===== src/BackupRun/Execute/Steps.antt =====
-- What the steps of a run keep, and what the last of them records.
use back_orbit.Base.{
  ◌≢◌, subst, sym, none, ℕ, suc, Bool, true, false, List, [], ◌∷◌, ◌++◌, Bytes, Result, ok, err,
  ◌>>=◌, guard, ◌⊎◌, ◌≡◌, refl, arith, Result-cases, Option-cases, Bool-cases, inl, inr, ap, ◌∙◌,
}
use back_orbit.BackupRun.{
  Answers, ExternalError, RunError, clearing_staging, recording_failed, BackupSource, Container,
  Snapshot, SnapshotResult, Verification, Phase, Staged, before_source, snapshotting, verifying,
  staging,
}
use back_orbit.BackupRun.Rows.{find_run, update_run, insert_snapshot}
use back_orbit.BackupRun.Rows.Lookup.{find_run-update_rows_kept}
use back_orbit.BackupRun.Execute.{
  Progress, finish_failed, finish_cancelled, stop_with, was_cancelled, persist, back_up,
  clear_staging_dir, stage_sources, record_staged, create, verify, record_snapshot,
  export_databases, enter, join, snapshot_of,
}
use back_orbit.BackupRun.Segment.{path_segment}

-- What no step before the last changes.
pub record Same (p q : Progress) : Type 0 where
  pub same_snapshots : q.store.snapshots ≡ p.store.snapshots
  pub same_events : q.store.events ≡ p.store.events
  pub same_id : q.run.id ≡ p.run.id
  pub same_snapshot : q.run.snapshot ≡ p.run.snapshot
  pub kept : find_run p.run.id p.store.runs ≢ none → find_run p.run.id q.store.runs ≢ none

Same-trans : (p q r : Progress) → Same p q → Same q r → Same p r
Same-trans p q r f g = record {
  same_snapshots = g.same_snapshots ∙ f.same_snapshots;
  same_events = g.same_events ∙ f.same_events;
  same_id = g.same_id ∙ f.same_id;
  same_snapshot = g.same_snapshot ∙ f.same_snapshot;
  kept = λ h.
      subst (λ i. find_run i r.store.runs ≢ none) f.same_id
        (g.kept (subst (λ i. find_run i q.store.runs ≢ none) (sym f.same_id) (f.kept h)));
}

Same-refl : (p : Progress) → Same p p
Same-refl p = record {
  same_snapshots = refl;
  same_events = refl;
  same_id = refl;
  same_snapshot = refl;
  kept = λ h. h;
}

-- A finisher was called for a state in which none of it had changed.
abbrev pub IsEnded : Answers → Progress → Progress → Type 0
IsEnded a p q =
    (r : Progress) × Same p r
    × (((e : RunError) × (q ≡ finish_failed a e r)) ⊎ (q ≡ finish_cancelled a r))

-- A step from p that returns early was ended by a finisher, and one that goes on leaves Q.
abbrev pub Ends : {A : Type 0} → Answers → Progress → (A → Type 0) → Result Progress A → Type 0
Ends a p Q (ok x) = Q x
Ends a p Q (err q) = IsEnded a p q

Ends-bind :
    {A B : Type 0} (a : Answers) (p : Progress) (Q : A → Type 0) (R : B → Type 0)
    (m : Result Progress A) (f : A → Result Progress B)
    → Ends a p Q m
    → ((x : A) → Q x → Ends a p R (f x))
    → Ends a p R (m >>= f)
Ends-bind a p Q R (ok x) f h next = next x h
Ends-bind a p Q R (err q) f h next = h

Ends-stopped :
    {A : Type 0} (a : Answers) (p : Progress) (Q : A → Type 0) (m : Result Progress A)
    (q : Progress) (e : RunError)
    → m ≡ err (finish_failed a e q)
    → Same p q
    → Ends a p Q m
Ends-stopped a p Q m q e stopped h = subst (λ x. Ends a p Q x) (sym stopped) (q, h, inl (e, refl))

stop_with-IsEnded :
    (a : Answers) (p q : Progress) (ctx_done : Bool) (x : ExternalError) (e : RunError)
    → Same p q
    → IsEnded a p (stop_with a ctx_done x e q)
unfolding stop_with
stop_with-IsEnded a p q ctx_done x e h = elim (Bool-cases (was_cancelled ctx_done x)) [
  | inl c ↦ (q, h, inr (rw (stop_with, c) refl))
  | inr c ↦ (q, h, inl (e, rw (stop_with, c) refl))
]

persist-kept :
    (a : Answers) (p : Progress)
    → find_run p.run.id p.store.runs ≢ none
    → find_run p.run.id (persist a p).store.runs ≢ none
unfolding persist update_run
persist-kept a p h = elim (Bool-cases (a.update_fails p.store.updates)) [
  | inl e ↦ rw (persist, e) h
  | inr e ↦ rw (persist, e) (find_run-update_rows_kept p.run.id p.run p.store.runs h)
]

persist-Same : (a : Answers) (p : Progress) → Same p (persist a p)
unfolding persist update_run
persist-Same a p = record {
  same_snapshots = ground arith;
  same_events = ground arith;
  same_id = refl;
  same_snapshot = refl;
  kept = persist-kept a p;
}

record_staged-Same :
    (s : BackupSource) (dest : Bytes) (r : Staged) (p : Progress)
    → Same p (record_staged s dest r p)
unfolding record_staged
record_staged-Same s dest r p = record {
  same_snapshots = refl;
  same_events = refl;
  same_id = refl;
  same_snapshot = refl;
  kept = λ h. h;
}

export_databases-kept :
    (a : Answers) (dir : Bytes) (containers : List Container) (p : Progress)
    → find_run p.run.id p.store.runs ≢ none
    → find_run p.run.id (export_databases a dir containers p).store.runs ≢ none
unfolding export_databases
export_databases-kept a dir containers p h = persist-kept a _ h

export_databases-Same :
    (a : Answers) (dir : Bytes) (containers : List Container) (p : Progress)
    → Same p (export_databases a dir containers p)
unfolding export_databases persist update_run
export_databases-Same a dir containers p = record {
  same_snapshots = ground arith;
  same_events = ground arith;
  same_id = refl;
  same_snapshot = refl;
  kept = export_databases-kept a dir containers p;
}

stage_sources-Ends :
    (a : Answers) (dir : Bytes) (p : Progress) (i : ℕ) (ss : List BackupSource) (q : Progress)
    → Same p q
    → Ends a p (Same p) (stage_sources a dir i ss q)
unfolding stage_sources
stage_sources-Ends a dir p i [] q h = h
stage_sources-Ends a dir p i (s ∷ ss) q h = elim (Bool-cases (a.ctx_done (before_source i))) [
  | inl e ↦ rw (stage_sources, e) (q, h, inr refl)
  | inr e ↦ elim (Result-cases (a.stage i s (join dir (path_segment s.name)))) [
    | inl (r, f) ↦
        let next = persist a (record_staged s (join dir (path_segment s.name)) r q) in
        rw (stage_sources, e, f)
          (stage_sources-Ends a dir p (suc i) ss next (
            Same-trans p q next h (
              Same-trans q _ next (record_staged-Same s (join dir (path_segment s.name)) r q)
                (persist-Same a _))))
    | inr (x, f) ↦ rw (stage_sources, e, f) (stop_with-IsEnded a p q _ x _ h)
  ]
]

clear_staging_dir-Ends : (a : Answers) (p : Progress) → Ends a p (Same p) (clear_staging_dir a p)
unfolding clear_staging_dir
clear_staging_dir-Ends a p = elim (Option-cases a.clear_staging) [
  | inl e ↦ rw (clear_staging_dir, e) (Same-refl p)
  | inr (x, e) ↦
      Ends-stopped a p (Same p) (clear_staging_dir a p) p (clearing_staging x.text)
        (ground (arith, e)) (Same-refl p)
]

create-Ends : (a : Answers) (p q : Progress) → Same p q → Ends a p (λ x. Same p x.1) (create a q)
unfolding create
create-Ends a p q h = elim (Result-cases (a.create_snapshot q.staged_paths)) [
  | inl (r, e) ↦
      rw (create, e)
        (Same-trans p q _ h (record {
          same_snapshots = refl;
          same_events = refl;
          same_id = refl;
          same_snapshot = refl;
          kept = λ h. h;
        }))
  | inr (x, e) ↦ rw (create, e) (stop_with-IsEnded a p q _ x _ h)
]

abbrev pub IsVerified : Answers → SnapshotResult → Verification → Type 0
IsVerified a r v = (v.is_ok ≡ true) × (a.verify_snapshot r.snapshot_id ≡ ok v)

guard-Ends :
    (a : Answers) (p q : Progress) (b : Bool) → IsEnded a p q → Ends a p (λ _. b ≡ true) (guard b q)
guard-Ends a p q true h = refl
guard-Ends a p q false h = h

verify-Ends :
    (a : Answers) (p : Progress) (r : SnapshotResult) (q : Progress)
    → Same p q
    → Ends a p (λ x. Same p x.1 × IsVerified a r x.0) (verify a r q)
unfolding verify
verify-Ends a p r q h = elim (Result-cases (a.verify_snapshot r.snapshot_id)) [
  | inl (v, e) ↦
      rw (verify, e)
        (Ends-bind a p (λ _. v.is_ok ≡ true) _ (guard v.is_ok _) _
          (guard-Ends a p _ v.is_ok (q, h, inl (_, refl)))
          (λ _ f. (
            Same-trans p q _ h (record {
              same_snapshots = refl;
              same_events = refl;
              same_id = refl;
              same_snapshot = refl;
              kept = λ h. h;
            }),
            (f, refl),
          )))
  | inr (x, e) ↦ rw (verify, e) (stop_with-IsEnded a p q _ x _ h)
]

-- The snapshot is the one row that was added; it is this run's, and the engine read it back as good.
pub record IsRecorded (a : Answers) (p : Progress) (s : Snapshot) (q : Progress) : Type 0 where
  pub added : q.store.snapshots ≡ p.store.snapshots ++ (s ∷ [])
  pub quiet : q.store.events ≡ p.store.events
  pub of_run : s.run_id ≡ p.run.id
  pub same_run : q.run.id ≡ p.run.id
  pub row_kept : find_run p.run.id p.store.runs ≢ none → find_run p.run.id q.store.runs ≢ none
  pub is_verified : s.verification.is_ok ≡ true
  pub read_back : a.verify_snapshot s.restic_snapshot_id ≡ ok s.verification

record_snapshot-Ends :
    (a : Answers) (p : Progress) (r : SnapshotResult) (v : Verification) (q : Progress)
    → Same p q
    → IsVerified a r v
    → Ends a p (λ x. IsRecorded a p x.0 x.1) (record_snapshot a r v q)
unfolding record_snapshot insert_snapshot
record_snapshot-Ends a p r v q h w = elim (Option-cases a.insert_snapshot_fails) [
  | inl e ↦
      rw (record_snapshot, e)
        (record {
          added = ap (λ l. l ++ (snapshot_of a r v q ∷ [])) h.same_snapshots;
          quiet = h.same_events;
          of_run = h.same_id;
          same_run = h.same_id;
          row_kept = h.kept;
          is_verified = w.0;
          read_back = w.1;
        })
  | inr (x, e) ↦
      Ends-stopped a p _ (record_snapshot a r v q) q (recording_failed r.snapshot_id x.text)
        (ground (arith, e)) h
]

entered :
    (a : Answers) (p : Progress) (phase : Phase) (q : Progress)
    → Same p q
    → Same p (persist a (enter phase q))
entered a p phase q h = Same-trans p q _ h (
    Same-trans q (enter phase q) _
      (record {
        same_snapshots = refl;
        same_events = refl;
        same_id = refl;
        same_snapshot = refl;
        kept = λ h. h;
      })
      (persist-Same a (enter phase q)))

pub back_up-Ends :
    (a : Answers) (dir : Bytes) (containers : List Container) (p : Progress)
    → Ends a p (λ x. IsRecorded a p x.0 x.1) (back_up a dir containers p)
unfolding back_up
back_up-Ends a dir containers p =
    Ends-bind a p (Same p) _ (clear_staging_dir a p) _ (clear_staging_dir-Ends a p) (λ cleared h0.
      let begun = persist a (enter staging cleared) in
      Ends-bind a p (Same p) _ (stage_sources a dir 0 cleared.run.sources begun) _
        (stage_sources-Ends a dir p 0 cleared.run.sources begun (entered a p staging cleared h0))
        (λ all h1.
          let out = export_databases a dir containers all in
          let h2 = Same-trans p all out h1 (export_databases-Same a dir containers all) in
          Ends-bind a p (λ x. Same p x.1) _ (create a (persist a (enter snapshotting out))) _
            (create-Ends a p _ (entered a p snapshotting out h2))
            (λ x h3.
              Ends-bind a p (λ y. Same p y.1 × IsVerified a x.0 y.0) _
                (verify a x.0 (persist a (enter verifying x.1))) _
                (verify-Ends a p x.0 _ (entered a p verifying x.1 h3))
                (λ y h4. record_snapshot-Ends a p x.0 y.0 y.1 h4.0 h4.1))))
