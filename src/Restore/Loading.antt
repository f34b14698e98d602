-- ===== src/Restore/Loading.antt =====
-- What the goroutine of a database restore does.
use back_orbit.Base.{
  ℕ, none, some, [], ◌∷◌, ◌++◌, Bytes, codes, ok, err, ◌≡◌, ◌≢◌, ◌⊎◌, arith, refl, inl, inr,
  Result-cases, Bool-cases, ==_refl,
}
use back_orbit.Base.Assoc.{lookup, remove, lookup-remove}
use back_orbit.Base.Text.{bytes_eq, bytes_beq_iff}
use back_orbit.Base.Paths.{base}
use back_orbit.Restore.{
  Job, State, Status, cancelled, completed, failed, release, restore_ended, running,
}
use back_orbit.Restore.Database.{
  Interruption, LoadResult, World, finish, load_export, load_of, perform, run_database_restore,
}

-- The one event that a restore ends with.
abbrev Ended : Job → State → State → Status → ℕ → Type 0
Ended job s t status objects =
    t.emitted ≡ s.emitted ++ (restore_ended job.run.id status objects ∷ [])

-- A restore that ended without a load.
abbrev pub IsUntouched : Job → State → State → Type 0
IsUntouched job s t =
    (t.loads ≡ s.loads)
    × ((status : Status) × (status ≢ completed) × (status ≢ running) × Ended job s t status 0)

-- One load, of the file that was found, and the status by what the loader answered.
abbrev pub IsLoaded : World → Job → State → State → Type 0
IsLoaded w job s t =
    (path : Bytes) × (w.find_extracted job.run.target_path (base job.export.path) ≡ ok path)
    × (t.loads ≡ s.loads ++ (load_of w job path ∷ []))
    × (((r : LoadResult) × (w.load (load_of w job path) ≡ ok r) × Ended job s t completed r.objects)
        ⊎ ((e : Interruption) × (status : Status) × (w.load (load_of w job path) ≡ err e)
            × (status ≢ completed)
            × (status ≢ running)
            × Ended job s t status 0))

module _ (w : World) (job : Job) (s : State) where
  load_export-IsLoaded :
      (path : Bytes)
      → w.find_extracted job.run.target_path (base job.export.path) ≡ ok path
      → IsLoaded w job s (load_export w job path s)
  unfolding load_export finish
  load_export-IsLoaded path found = elim (Result-cases (w.load (load_of w job path))) [
    | inl (r, good) ↦ (path, found, ground (arith, good), inl (r, good, ground (arith, good)))
    | inr (e, bad) ↦ elim (Bool-cases e.is_cancelled) [
      | inl c ↦ (
        path,
        found,
        ground (arith, bad),
        inr (e, cancelled, bad, cc, cc, ground (arith, bad, c)),
      )
      | inr c ↦
          (path, found, ground (arith, bad), inr (e, failed, bad, cc, cc, ground (arith, bad, c)))
    ]
  ]

  run_database_restore-cases :
      let t = run_database_restore w job s in IsUntouched job s t ⊎ IsLoaded w job s t
  unfolding run_database_restore finish
  run_database_restore-cases =
      elim (Result-cases (
        w.restore_snapshot job.config job.snapshot.restic_snapshot_id job.run.target_path
          (codes "*/" ++ base job.export.path))) [
            | inr (e, bad) ↦ elim (Bool-cases e.is_cancelled) [
              | inl c ↦ inl (ground (arith, bad, c), (cancelled, cc, cc, ground (arith, bad, c)))
              | inr c ↦ inl (ground (arith, bad, c), (failed, cc, cc, ground (arith, bad, c)))
            ]
            | inl (_, good) ↦
                elim (Result-cases (w.find_extracted job.run.target_path (base job.export.path))) [
                  | inr (text, bad) ↦
                      inl (ground (arith, good, bad), (failed, cc, cc, ground (arith, good, bad)))
                  | inl (path, found) ↦
                      let same : run_database_restore w job s ≡ load_export w job path s =
                        ground (arith, good, found) in
                      rw same (inr (load_export-IsLoaded path found))
                ]
          ]

  by_snapshot_same : (run_database_restore w job s).by_snapshot ≡ s.by_snapshot
  unfolding run_database_restore load_export finish
  by_snapshot_same = ground arith

  -- A restore that was started ends. Either nothing was loaded and its last event says that it failed
  -- or was cancelled, or the export was loaded once, from the file found in the extracted tree into
  -- the container of the job; it counts as completed exactly when the loader succeeded. The snapshot
  -- is then free for another restore, if this one held it, and no other reservation changed.
  pub perform-outcome :
      lookup job.snapshot.id s.by_snapshot ≡ some job.run.id
      → let t = perform w job s in
        (IsUntouched job s t ⊎ IsLoaded w job s t)
        × (lookup job.snapshot.id t.by_snapshot ≡ none)
        × ((id : Bytes) → id ≢ job.snapshot.id → lookup id t.by_snapshot ≡ lookup id s.by_snapshot)
  unfolding perform release
  perform-outcome reserved =
      let t = run_database_restore w job s in
      let mine : lookup job.snapshot.id t.by_snapshot ≡ some job.run.id =
        rw by_snapshot_same reserved in
      let freed : (perform w job s).by_snapshot ≡ remove job.snapshot.id s.by_snapshot =
        rw (release, mine, ==_refl job.run.id, by_snapshot_same) refl in
      (
        run_database_restore-cases,
        rw
            (
              freed,
              lookup-remove job.snapshot.id job.snapshot.id s.by_snapshot,
              ==_refl job.snapshot.id,
            )
            refl,
        λ id ne.
            rw (freed, lookup-remove job.snapshot.id id s.by_snapshot)
              (ground (arith, bytes_beq_iff job.snapshot.id id)),
      )
