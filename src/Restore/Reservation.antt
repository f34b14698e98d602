-- ===== src/Restore/Reservation.antt =====
-- The reservation of a snapshot by a restore: what `Start` and `RestoreDatabase` of internal/restore
-- do between the mutex and the goroutine.
pub mod Exclusive
use back_orbit.Base.{
  Bool, true, false, Option, none, some, List, [], ◌∷◌, ◌++◌, Bytes, if◌then◌else◌, Result, ok, err,
}
use back_orbit.Base.Assoc.{insert, lookup}
use back_orbit.Base.Text.{bytes_eq}
use back_orbit.Restore.{Run, State, release, restore_started}

pub data RestoreError : Type 0 where
  not_confirmed no_docker snapshot_missing no_export project_missing service_not_running :
      RestoreError
  no_repository target_failed insert_failed unsupported run_not_found query_failed : RestoreError
  already_running : Bytes → RestoreError

-- The flags are failures of the directory's creation and of the insertion. Nothing takes the directory
-- of a run back whose insertion fails.
unfoldable pub reserve : Bool → Bool → Bytes → Run → State → Result RestoreError Run × State
reserve target_fails insert_fails snapshot run s = elim (lookup snapshot s.by_snapshot) [
  | some existing ↦ (err (already_running existing), s)
  | none ↦
      let held = record s { by_snapshot = insert snapshot run.id s.by_snapshot } in
      let made = record held { created = s.created ++ (run.target_path ∷ []) } in
      if target_fails
      then (err target_failed, release snapshot run.id held)
      else if insert_fails
      then (err insert_failed, release snapshot run.id made)
      else (
        ok run,
        record made {
          rows = s.rows ++ (run ∷ []);
          active = run.id ∷ s.active;
          emitted = s.emitted ++ (restore_started run.id ∷ []);
        },
      )
]
