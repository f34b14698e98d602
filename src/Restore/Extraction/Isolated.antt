-- ===== src/Restore/Extraction/Isolated.antt =====
-- When an extraction starts.
use back_orbit.Base.{
  true, ◌&&◌, some, ◌≢◌, All, ok, err, ◌≡◌, ◌⊎◌, arith, refl, inl, inr, Option-cases, Result-cases,
  Bool-cases,
}
use back_orbit.Base.Paths.{join}
use back_orbit.BackupRun.{Snapshot}
use back_orbit.Repositories.Service.{RepositoryConfig}
use back_orbit.Restore.{Mode, Run, State, clone, database, extract, in_place}
use back_orbit.Restore.Reservation.{RestoreError, reserve}
use back_orbit.Restore.Reservation.Exclusive.{IsGivenBack, IsReserved, reserve-IsExclusive}
use back_orbit.Restore.Extraction.{
  Preview, PreviewRequest, ModeText, World, effective_mode, is_extract, named, other_text, new_run,
  plan, preview, start, unset, verdict,
}

-- What an extraction was planned for.
pub record IsPlanned (w : World) (req : PreviewRequest) (run : Run) (s : Snapshot)
    (config : RepositoryConfig) : Type 0 where
  pub asked : (req.mode ≡ unset) ⊎ (req.mode ≡ named extract)
  pub snapshot_of : w.snapshot req.snapshot_id ≡ some s
  pub config_of : w.config s.repository_id ≡ some config
  pub extracts : run.mode ≡ extract
  pub has_id : run.id ≡ w.uuid
  pub into : run.target_path ≡ join w.root w.uuid

effective_mode-extract :
    (m : ModeText) (mode : Mode)
    → effective_mode m ≡ some mode
    → is_extract mode ≡ true
    → (m ≡ unset) ⊎ (m ≡ named extract)
effective_mode-extract unset mode h e = inl refl
effective_mode-extract other_text mode h e = absurd (ground arith)
effective_mode-extract (named extract) mode h e = inr refl
effective_mode-extract (named in_place) mode h e = absurd (ground arith)
effective_mode-extract (named clone) mode h e = absurd (ground arith)
effective_mode-extract (named database) mode h e = absurd (ground arith)

is_extract-extract : (m : Mode) → is_extract m ≡ true → m ≡ extract
is_extract-extract m h = ground arith

preview-mode :
    (w : World) (req : PreviewRequest) (p : Preview)
    → preview w req ≡ ok p
    → effective_mode req.mode ≡ some p.mode
unfolding preview
preview-mode w req p h = elim (Option-cases (w.snapshot req.snapshot_id)) [
  | inl e ↦ absurd (ground (arith, e))
  | inr (s, e1) ↦ elim (Option-cases (effective_mode req.mode)) [
    | inl e ↦ absurd (ground (arith, e1, e))
    | inr (mode, e2) ↦ elim (Option-cases (verdict mode req.new_project_name)) [
      | inl e ↦ absurd (ground (arith, e1, e2, e))
      | inr (found, e3) ↦ ground (arith, e1, e2, e3)
    ]
  ]
]

plan-IsPlanned :
    (w : World) (req : PreviewRequest) (run : Run) (s : Snapshot) (config : RepositoryConfig)
    → plan w req ≡ ok (run, s, config)
    → IsPlanned w req run s config
unfolding plan
plan-IsPlanned w req run s config h = elim (Result-cases (preview w req)) [
  | inr (e, bad) ↦ absurd (ground (arith, bad))
  | inl (p, e1) ↦ elim (Bool-cases (p.supported && is_extract p.mode)) [
    | inr e ↦ absurd (ground (arith, e1, e))
    | inl e2 ↦ elim (Option-cases (w.snapshot req.snapshot_id)) [
      | inl e ↦ absurd (ground (arith, e1, e2, e))
      | inr (x, e3) ↦ elim (Option-cases (w.config x.repository_id)) [
        | inl e ↦ absurd (ground (arith, e1, e2, e3, e))
        | inr (c, e4) ↦
            let extracting : is_extract p.mode ≡ true = ground (arith, e2) in
            let this_run : new_run w x p.mode ≡ run = ground (arith, e1, e2, e3, e4) in
            let this_snapshot : x ≡ s = ground (arith, e1, e2, e3, e4) in
            let this_config : c ≡ config = ground (arith, e1, e2, e3, e4) in
            rw (← this_run, ← this_snapshot, ← this_config)
              (record {
                asked = effective_mode-extract req.mode p.mode (preview-mode w req p e1) extracting;
                snapshot_of = e3;
                config_of = e4;
                extracts = is_extract-extract p.mode extracting;
                has_id = refl;
                into = refl;
              })
      ]
    ]
  ]
]

-- `Start` begins a restore only in the mode `extract`, which an unset mode stands for, into the
-- directory of the new run's id, for a snapshot and a repository that exist, and while no other
-- restore of the snapshot is under way; it then holds the reservation, can be cancelled, and has its
-- directory, its row and its event. Where it does not begin, every reservation, what can be cancelled,
-- every row and every event are as they were, and no directory is made, but for one case: where only
-- the insertion of the row failed, the new directory is left behind. Condition: no restore under way
-- has the new run's id.
pub start-IsReserved :
    (w : World) (req : PreviewRequest) (s : State)
    → All (λ id. id ≢ w.uuid) s.active
    → let (answer, t) = start w req s in
      ((run : Run) × (snapshot : Snapshot) × (config : RepositoryConfig) × IsPlanned w req run
          snapshot config
        × (answer ≡ ok (run, snapshot, config))
        × IsReserved snapshot.id run s t)
      ⊎ ((e : RestoreError) × (answer ≡ err e) × IsGivenBack (join w.root w.uuid) e s t)
unfolding start
start-IsReserved w req s fresh = elim (Result-cases (plan w req)) [
  | inr (e, bad) ↦ rw (start, bad) (inr (e, refl, inl refl))
  | inl ((run, snapshot, config), good) ↦
      let kept = reserve w.target_fails w.insert_fails snapshot.id run s in
      let planned = plan-IsPlanned w req run snapshot config good in
      elim (reserve-IsExclusive w.target_fails w.insert_fails snapshot.id run s
        (rw planned.has_id fresh)) [
          | inl (begun, reserved) ↦
              let same : start w req s ≡ (ok (run, snapshot, config), kept.1) =
                ground (arith, good, begun) in
              rw same (inl (run, snapshot, config, planned, refl, reserved))
          | inr (e, stopped, given_back) ↦
              let same : start w req s ≡ (err e, kept.1) = ground (arith, good, stopped) in
              rw (same, ← planned.into) (inr (e, refl, given_back))
        ]
]
