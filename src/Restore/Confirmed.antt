-- ===== src/Restore/Confirmed.antt =====
-- When the restore of a database starts.
use back_orbit.Base.{
  not, ◌&&◌, some, List, [], ◌∷◌, Bytes, ◌==◌, ok, err, ◌≡◌, ◌≢◌, ◌⊎◌, arith, refl, inl, inr, All,
  Any, Option-cases, Result-cases, Bool-cases,
}
use back_orbit.Base.Text.{bytes_eq, bytes_beq_iff}
use back_orbit.BackupRun.{Container, DatabaseDump, exported}
use back_orbit.Restore.{Job, State}
use back_orbit.Restore.Reservation.{RestoreError, reserve}
use back_orbit.Base.Paths.{join}
use back_orbit.Restore.Reservation.Exclusive.{IsGivenBack, IsReserved, reserve-IsExclusive}
use back_orbit.Restore.Database.{
  DatabaseRequest, World, admit, new_run, find_export, is_exported, find_service,
  find_service_container, restore_database,
}

-- The export of a service: one of the snapshot's dumps that can be replayed.
abbrev pub IsExportOf : Bytes → List DatabaseDump → DatabaseDump → Type 0
IsExportOf service dumps d =
    Any (λ x. x ≡ d) dumps × (d.service ≡ service) × (d.level ≡ exported) × (d.path ≢ [])

find_export-IsExportOf :
    (service : Bytes) (dumps : List DatabaseDump) (d : DatabaseDump)
    → find_export service dumps ≡ some d
    → IsExportOf service dumps d
unfolding find_export
find_export-IsExportOf service [] d h = absurd (ground arith)
find_export-IsExportOf service (x ∷ dumps) d h =
    elim (Bool-cases (x.service == service && is_exported x.level && not (x.path == []))) [
      | inl e ↦
          let same : x ≡ d = ground (arith, e) in
          rw (← same) (
            inl refl,
            ground (arith, e, bytes_beq_iff x.service service),
            ground (arith, e),
            ground (arith, e, bytes_beq_iff x.path []),
          )
      | inr e ↦
          let (here, named, level, path) =
            find_export-IsExportOf service dumps d (ground (arith, e)) in
          (inr here, named, level, path)
    ]

find_service-found :
    (service : Bytes) (cs : List Container) (c : Container)
    → find_service service cs ≡ some c
    → Any (λ x. x ≡ c) cs × (c.service ≡ service)
unfolding find_service
find_service-found service [] c h = absurd (ground arith)
find_service-found service (x ∷ cs) c h = elim (Bool-cases (x.service == service)) [
  | inl e ↦
      let same : x ≡ c = ground (arith, e) in
      (inl same, ground (arith, same, e, bytes_beq_iff x.service service))
  | inr e ↦
      let (here, named) = find_service-found service cs c (ground (arith, e)) in (inr here, named)
]

find_service_container-found :
    (w : World) (project service : Bytes) (c : Container)
    → find_service_container w project service ≡ ok c
    → (live : List Container) × (w.containers project ≡ some live)
      × Any (λ x. x ≡ c) live
      × (c.service ≡ service)
unfolding find_service_container
find_service_container-found w project service c h = elim (Option-cases (w.containers project)) [
  | inl e ↦ absurd (ground (arith, e))
  | inr (live, e) ↦ elim (Option-cases (find_service service live)) [
    | inl n ↦ absurd (ground (arith, e, n))
    | inr (x, found) ↦
        let same : x ≡ c = ground (arith, e, found) in
        let (here, named) = find_service-found service live x found in
        rw (← same) (live, e, here, named)
  ]
]

-- What a job was admitted for.
pub record IsAdmitted (w : World) (req : DatabaseRequest) (job : Job) : Type 0 where
  pub confirmed : req.confirm ≡ req.service
  pub named : req.service ≢ []
  pub snapshot_of : w.snapshot req.snapshot_id ≡ some job.snapshot
  pub export_of : IsExportOf req.service job.snapshot.manifest.databases job.export
  pub into :
      (live : List Container) × (w.containers job.snapshot.manifest.project ≡ some live)
      × Any (λ c. c ≡ job.container) live
      × (job.container.service ≡ req.service)
  pub for_run : job.run ≡ new_run w job.snapshot

admit-IsAdmitted :
    (w : World) (req : DatabaseRequest) (job : Job) → admit w req ≡ ok job → IsAdmitted w req job
unfolding admit
admit-IsAdmitted w req job h = elim (Option-cases (w.snapshot req.snapshot_id)) [
  | inl e ↦ absurd (ground (arith, e))
  | inr (snapshot, e1) ↦ elim (Option-cases (find_export req.service snapshot.manifest.databases)) [
    | inl e ↦ absurd (ground (arith, e1, e))
    | inr (export, e2) ↦
        elim (Result-cases (find_service_container w snapshot.manifest.project req.service)) [
          | inr (x, e) ↦ absurd (ground (arith, e1, e2, e))
          | inl (container, e3) ↦ elim (Option-cases (w.config snapshot.repository_id)) [
            | inl e ↦ absurd (ground (arith, e1, e2, e3, e))
            | inr (config, e4) ↦
                let made : record {
                  run = new_run w snapshot;
                  snapshot = snapshot;
                  export = export;
                  container = container;
                  config = config;
                }
                    ≡ job =
                  ground (arith, e1, e2, e3, e4) in
                rw (← made) (record {
                  confirmed = ground (arith, bytes_beq_iff req.confirm req.service);
                  named =
                      ground (
                        arith,
                        bytes_beq_iff req.confirm req.service,
                        bytes_beq_iff req.confirm [],
                      );
                  snapshot_of = e1;
                  export_of =
                      find_export-IsExportOf req.service snapshot.manifest.databases export e2;
                  into =
                      find_service_container-found w snapshot.manifest.project req.service container
                        e3;
                  for_run = refl;
                })
          ]
        ]
  ]
]

-- A database restore starts only for a request that repeats the name of the service, for an export
-- of that service in the snapshot, into the container that the live project has for it, and while no
-- other restore of the snapshot is under way; it then holds the reservation, can be cancelled, and has
-- its own directory, its row and its event. One that does not start leaves every reservation, what can
-- be cancelled, every row and every event as they were, and makes no directory, but for one case:
-- where only the insertion of the row failed, the new directory is left behind. Nothing is loaded by
-- the start. Condition: no restore under way has the new run's id.
pub restore_database-IsReserved :
    (w : World) (req : DatabaseRequest) (s : State)
    → All (λ id. id ≢ w.uuid) s.active
    → let (answer, t) = restore_database w req s in
      ((job : Job) × IsAdmitted w req job
        × (answer ≡ ok job)
        × IsReserved job.snapshot.id job.run s t)
      ⊎ ((e : RestoreError) × (answer ≡ err e) × IsGivenBack (join w.root w.uuid) e s t)
unfolding restore_database
restore_database-IsReserved w req s fresh = elim (Result-cases (admit w req)) [
  | inr (e, bad) ↦ rw (restore_database, bad) (inr (e, refl, inl refl))
  | inl (job, good) ↦
      let kept = reserve w.target_fails w.insert_fails job.snapshot.id job.run s in
      let admitted = admit-IsAdmitted w req job good in
      let its_id : job.run.id ≡ w.uuid = rw admitted.for_run refl in
      let its_target : job.run.target_path ≡ join w.root w.uuid = rw admitted.for_run refl in
      elim (reserve-IsExclusive w.target_fails w.insert_fails job.snapshot.id job.run s
        (rw its_id fresh)) [
          | inl (begun, reserved) ↦
              let same : restore_database w req s ≡ (ok job, kept.1) =
                ground (arith, good, begun) in
              rw same (inl (job, admitted, refl, reserved))
          | inr (e, stopped, given_back) ↦
              let same : restore_database w req s ≡ (err e, kept.1) =
                ground (arith, good, stopped) in
              rw (same, ← its_target) (inr (e, refl, given_back))
        ]
]
