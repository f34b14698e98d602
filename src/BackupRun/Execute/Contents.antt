-- ===== src/BackupRun/Execute/Contents.antt =====
-- What the snapshot of a completed run covers.
use back_orbit.Base.{
  ℕ, suc, Bool, true, false, ◌&&◌, none, some, List, [], ◌∷◌, ◌++◌, Bytes, Result, ok, err, ◌>>=◌,
  guard, ◌≡◌, refl, Result-cases, Option-cases, Bool-cases, inl, inr, ap, sym, subst, ◌∙◌,
  append_assoc, append-nil,
}
use back_orbit.BackupRun.{
  Answers, BackupSource, Container, Run, Snapshot, SnapshotResult, Verification, VolumeManifest,
  Warning, completed_with_warnings, Staged, before_source, snapshotting, verifying, staging,
  lt_int64,
}
use back_orbit.BackupRun.Segment.{path_segment}
use back_orbit.BackupRun.Rows.{Store}
use back_orbit.BackupRun.Execute.{
  Progress, persist, execute, conclude, finish_failed, finish_cancelled, finish_completed, back_up,
  begin, clear_staging_dir, stage_sources, record_staged, create, verify, record_snapshot,
  export_databases, enter, warn, final_status, join, shortfall_warnings,
}
use back_orbit.BackupRun.Execute.Steps.{Ends, back_up-Ends}

abbrev pub source_names : List BackupSource → List Bytes
source_names [] = []
source_names (s ∷ ss) = s.name ∷ source_names ss

abbrev pub volume_names : List VolumeManifest → List Bytes
volume_names [] = []
volume_names (v ∷ vs) = v.name ∷ volume_names vs

volume_names-append :
    (xs ys : List VolumeManifest) → volume_names (xs ++ ys) ≡ volume_names xs ++ volume_names ys
volume_names-append [] ys = refl
volume_names-append (x ∷ xs) ys = ap (λ rest. x.name ∷ rest) (volume_names-append xs ys)

abbrev OnOk : {A : Type 0} → (A → Type 0) → Result Progress A → Type 0
OnOk Q (ok x) = Q x
OnOk Q (err _) = Unit

OnOk-bind :
    {A B : Type 0} (Q : A → Type 0) (R : B → Type 0) (m : Result Progress A)
    (f : A → Result Progress B)
    → OnOk Q m
    → ((x : A) → Q x → OnOk R (f x))
    → OnOk R (m >>= f)
OnOk-bind Q R (ok x) f h next = next x h
OnOk-bind Q R (err e) f h next = tt

-- The manifest lists these volumes.
abbrev Lists : List Bytes → Progress → Type 0
Lists names p = volume_names p.manifest.volumes ≡ names

persist-Lists :
    (a : Answers) (names : List Bytes) (p : Progress) → Lists names p → Lists names (persist a p)
unfolding persist
persist-Lists a names p h = h

record_staged-Lists :
    (names : List Bytes) (s : BackupSource) (dest : Bytes) (r : Staged) (p : Progress)
    → Lists names p
    → Lists (names ++ (s.name ∷ [])) (record_staged s dest r p)
unfolding record_staged
record_staged-Lists names s dest r p h =
    volume_names-append p.manifest.volumes _ ∙ ap (λ l. l ++ (s.name ∷ [])) h

stage_sources-OnOk :
    (a : Answers) (dir : Bytes) (names : List Bytes) (i : ℕ) (ss : List BackupSource) (p : Progress)
    → Lists names p
    → OnOk (Lists (names ++ source_names ss)) (stage_sources a dir i ss p)
unfolding stage_sources
stage_sources-OnOk a dir names i [] p h = h ∙ sym (append-nil names)
stage_sources-OnOk a dir names i (s ∷ ss) p h =
    let dest = join dir (path_segment s.name) in
    elim (Bool-cases (a.ctx_done (before_source i))) [
      | inl e ↦ rw (stage_sources, e) tt
      | inr e ↦ elim (Result-cases (a.stage i s (join dir (path_segment s.name)))) [
        | inl (r, f) ↦
            rw (stage_sources, e, f)
              (subst
                (λ l.
                  OnOk (Lists l)
                    (stage_sources a dir (suc i) ss (persist a (record_staged s dest r p))))
                (append_assoc names (s.name ∷ []) (source_names ss))
                (stage_sources-OnOk a dir (names ++ (s.name ∷ [])) (suc i) ss _
                  (persist-Lists a _ _ (record_staged-Lists names s dest r p h))))
        | inr (x, f) ↦ rw (stage_sources, e, f) tt
      ]
    ]

export_databases-Lists :
    (a : Answers) (dir : Bytes) (containers : List Container) (names : List Bytes) (p : Progress)
    → Lists names p
    → Lists names (export_databases a dir containers p)
unfolding export_databases persist
export_databases-Lists a dir containers names p h = h

create-OnOk :
    (a : Answers) (names : List Bytes) (p : Progress)
    → Lists names p
    → OnOk (λ x. Lists names x.1) (create a p)
unfolding create
create-OnOk a names p h = elim (Result-cases (a.create_snapshot p.staged_paths)) [
  | inl (r, e) ↦ rw (create, e) h
  | inr (x, e) ↦ rw (create, e) tt
]

-- Less was read back than was staged.
abbrev pub falls_short : Verification → ℕ → Bool
falls_short v total = lt_int64 0 v.bytes_in_snapshot && lt_int64 v.bytes_in_snapshot total

-- A shortfall is among the warnings, so the status shows it.
abbrev IsWarned : Verification → Progress → Type 0
IsWarned v p =
    falls_short v p.run.bytes_total ≡ true → final_status p.run.warnings ≡ completed_with_warnings

final_status-append :
    (ws : List Warning) (w : Warning) → final_status (ws ++ (w ∷ [])) ≡ completed_with_warnings
final_status-append [] w = refl
final_status-append (x ∷ ws) w = refl

warn-IsWarned :
    (v : Verification) (p : Progress) → IsWarned v (warn (shortfall_warnings v p.run.bytes_total) p)
unfolding shortfall_warnings
warn-IsWarned v p h =
    elim (Bool-cases
      (lt_int64 0 v.bytes_in_snapshot && lt_int64 v.bytes_in_snapshot p.run.bytes_total)) [
        | inl e ↦ rw (shortfall_warnings, e) (final_status-append p.run.warnings _)
        | inr e ↦ cc (h, e)
      ]

abbrev AllListed : List Bytes → Verification × Progress → Type 0
AllListed names y = Lists names y.1 × IsWarned y.0 y.1

guard-OnOk : (b : Bool) (e : Progress) → OnOk (λ _. Unit) (guard b e)
guard-OnOk true e = tt
guard-OnOk false e = tt

Ends-weaken :
    {A : Type 0} (Q : A → Type 0) (a : Answers) (p : Progress) (r : Result Progress A)
    → Ends a p Q r
    → Ends a p (λ _. Unit) r
Ends-weaken Q a p (ok x) h = tt
Ends-weaken Q a p (err x) h = h

verify-OnOk :
    (a : Answers) (names : List Bytes) (r : SnapshotResult) (p : Progress)
    → Lists names p
    → OnOk (AllListed names) (verify a r p)
unfolding verify
verify-OnOk a names r p h = elim (Result-cases (a.verify_snapshot r.snapshot_id)) [
  | inl (v, e) ↦
      rw (verify, e)
        (OnOk-bind (λ _. Unit) (AllListed names) (guard v.is_ok _) _ (guard-OnOk v.is_ok _)
          (λ _ _. (h, warn-IsWarned v p)))
  | inr (x, e) ↦ rw (verify, e) tt
]

-- The snapshot lists one volume for each source, and a shortfall shows in the status.
abbrev IsCovered : List Bytes → Snapshot × Progress → Type 0
IsCovered names (s, p) = (volume_names s.manifest.volumes ≡ names) × IsWarned s.verification p

record_snapshot-OnOk :
    (a : Answers) (names : List Bytes) (r : SnapshotResult) (v : Verification) (p : Progress)
    → AllListed names (v, p)
    → OnOk (IsCovered names) (record_snapshot a r v p)
unfolding record_snapshot
record_snapshot-OnOk a names r v p h = elim (Option-cases a.insert_snapshot_fails) [
  | inl e ↦ rw (record_snapshot, e) h
  | inr (x, e) ↦ rw (record_snapshot, e) tt
]

clear_staging_dir-OnOk :
    (a : Answers) (p : Progress)
    → Lists [] p
    → OnOk (λ c. Lists [] c × (c.run.sources ≡ p.run.sources)) (clear_staging_dir a p)
unfolding clear_staging_dir
clear_staging_dir-OnOk a p h = elim (Option-cases a.clear_staging) [
  | inl e ↦ rw (clear_staging_dir, e) (h, refl)
  | inr (x, e) ↦ rw (clear_staging_dir, e) tt
]

back_up-OnOk :
    (a : Answers) (dir : Bytes) (containers : List Container) (p : Progress)
    → Lists [] p
    → OnOk (IsCovered (source_names p.run.sources)) (back_up a dir containers p)
unfolding back_up
back_up-OnOk a dir containers p h =
    OnOk-bind _ (IsCovered (source_names p.run.sources)) (clear_staging_dir a p) _
      (clear_staging_dir-OnOk a p h)
      (λ c h0.
        let names = source_names p.run.sources in
        OnOk-bind (Lists names) (IsCovered names)
          (stage_sources a dir 0 c.run.sources (persist a (enter staging c))) _
          (subst
            (λ ss.
              OnOk (Lists (source_names ss))
                (stage_sources a dir 0 c.run.sources (persist a (enter staging c))))
            h0.1
            (stage_sources-OnOk a dir [] 0 c.run.sources _
              (persist-Lists a [] (enter staging c) h0.0)))
          (λ all h1.
            let out = export_databases a dir containers all in
            OnOk-bind (λ x. Lists names x.1) (IsCovered names)
              (create a (persist a (enter snapshotting out))) _
              (create-OnOk a names _ (
                persist-Lists a names (enter snapshotting out)
                  (export_databases-Lists a dir containers names all h1)))
              (λ x h3.
                OnOk-bind (AllListed names) (IsCovered names)
                  (verify a x.0 (persist a (enter verifying x.1))) _
                  (verify-OnOk a names x.0 _ (persist-Lists a names (enter verifying x.1) h3))
                  (λ y h4. record_snapshot-OnOk a names x.0 y.0 y.1 h4))))

abbrev pub Covers : Run → Snapshot → Progress → Type 0
Covers run s p =
    (volume_names s.manifest.volumes ≡ source_names run.sources)
    × (falls_short s.verification p.run.bytes_total ≡ true → p.run.status ≡ completed_with_warnings)

conclude-Covers :
    (a : Answers) (run : Run) (store : Store) (s : Snapshot)
    (r : Result Progress (Snapshot × Progress))
    → OnOk (IsCovered (source_names run.sources)) r
    → Ends a (begin run store) (λ _. Unit) r
    → run.snapshot ≡ none
    → (conclude a r).run.snapshot ≡ some s
    → Covers run s (conclude a r)
unfolding conclude finish_completed finish_failed finish_cancelled persist
conclude-Covers a run store s (ok (t, q)) h g n e =
    let same : t ≡ s = cc in subst (λ u. Covers run u (conclude a (ok (t, q)))) same h
conclude-Covers a run store s (err q) h (r, g, how) n e =
    let unattached : q.run.snapshot ≡ r.run.snapshot = elim how [
      | inl (x, stopped) ↦ ap (λ p. p.run.snapshot) stopped
      | inr stopped ↦ ap (λ p. p.run.snapshot) stopped
    ] in
    cc (unattached, g.same_snapshot, n, e)

-- A snapshot that a run carries at its end lists one volume for each of the run's sources, in their
-- order; and when fewer bytes were read back than were staged, and more than none, the run is
-- completed with warnings. The run starts without a snapshot.
pub execute-Covers :
    (a : Answers) (dir : Bytes) (containers : List Container) (run : Run) (store : Store)
    (s : Snapshot)
    → run.snapshot ≡ none
    → (execute a dir containers run store).run.snapshot ≡ some s
    → Covers run s (execute a dir containers run store)
unfolding execute
execute-Covers a dir containers run store s n e =
    let p = begin run store in
    conclude-Covers a run store s
      (back_up a (join dir (path_segment run.project_name)) containers p)
      (back_up-OnOk a _ containers p refl) (Ends-weaken _ a p _ (back_up-Ends a _ containers p)) n e
