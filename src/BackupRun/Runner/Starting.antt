-- ===== src/BackupRun/Runner/Starting.antt =====
-- What a call of `Start` leaves in the runner.
use back_orbit.Base.{
  Bool, false, none, some, Bytes, if◌then◌else◌, ok, err, ◌≡◌, ◌≢◌, refl, arith, inl, inr, ◌⊎◌,
  Option-cases, Result-cases,
}
use back_orbit.Base.Assoc.{lookup, insert, lookup-insert, lookup-remove}
use back_orbit.Base.Text.{bytes_eq, bytes_beq_iff}
use back_orbit.BackupRun.{Run}
use back_orbit.BackupRun.Rows.{Store, insert_run}
use back_orbit.BackupRun.Runner.{
  Runner, StartError, activate, cancel, record_start, release, reserve, start,
}
use back_orbit.BackupRun.Runner.Exclusion.{release-by_project, reserve-by_project}

-- The maps of a refused or failed start.
abbrev pub IsUndone : Runner → Runner → Type 0
IsUndone s t = (p : Bytes) → lookup p t.by_project ≡ lookup p s.by_project

-- The project is reserved for the run, and the run can be cancelled.
abbrev pub IsStarted : Run → Runner → Runner → Type 0
IsStarted run s t =
    (lookup run.project_id s.by_project ≡ none)
    × (lookup run.project_id t.by_project ≡ some run.id)
    × (cancel run.id t ≢ none)

reserved-released :
    (run : Run) (s t : Runner)
    → reserve run.project_id run.id s ≡ ok t
    → IsUndone s (release run.project_id run.id t)
reserved-released run s t e p =
    let (n, m) = reserve-by_project run.project_id run.id s t e in
    let held : lookup run.project_id t.by_project ≡ some run.id =
      rw (m, lookup-insert run.project_id run.project_id run.id s.by_project)
        (ground (arith, bytes_beq_iff run.project_id run.project_id)) in
    rw (release-by_project run.project_id run.id t held, m, lookup-remove, lookup-insert)
      (ground (arith, bytes_beq_iff run.project_id p, n))

reserved-activated :
    (run : Run) (s t : Runner)
    → reserve run.project_id run.id s ≡ ok t
    → IsStarted run s (activate run.id t)
unfolding activate cancel
reserved-activated run s t e =
    let (n, m) = reserve-by_project run.project_id run.id s t e in
    let held : lookup run.id (insert run.id false t.active) ≡ some false =
      rw lookup-insert (ground (arith, bytes_beq_iff run.id run.id)) in
    (
      n,
      rw (m, lookup-insert) (ground (arith, bytes_beq_iff run.project_id run.project_id)),
      λ gone. ground (arith, held, gone),
    )

-- A call of `Start`, with no other call in between, either answers with the run, and then the project
-- was free, is reserved for this run, and the run can be cancelled; or it answers with an error and
-- leaves every project as free or reserved as it was.
pub start-outcome :
    (run : Run) (fails : Bool) (s : Runner) (store : Store)
    → let (answer, t, _) = start (ok run) fails s store in
      ((answer ≡ ok run) × IsStarted run s t)
      ⊎ (((e : StartError) × (answer ≡ err e)) × IsUndone s t)
unfolding start record_start
start-outcome run fails s store = elim (Result-cases (reserve run.project_id run.id s)) [
  | inr (x, e) ↦ rw (start, e) (inr ((x, refl), λ p. refl))
  | inl (t, e) ↦ elim (Option-cases (if fails then none else insert_run run store)) [
    | inl n ↦ rw (start, e, record_start, n) (inr ((_, refl), reserved-released run s t e))
    | inr (u, n) ↦ rw (start, e, record_start, n) (inl (refl, reserved-activated run s t e))
  ]
]
