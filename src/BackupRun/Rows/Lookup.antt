-- ===== src/BackupRun/Rows/Lookup.antt =====
-- What a look-up finds after an update or an insertion.
use back_orbit.Base.{
  Option, none, some, List, [], ◌∷◌, ◌++◌, Bytes, ◌==◌, ◌≡◌, ◌≢◌, refl, arith, Bool-cases, inl, inr,
  ap, subst,
}
use back_orbit.Base.Text.{bytes_eq, bytes_beq_iff}
use back_orbit.BackupRun.{Run, Snapshot}
use back_orbit.BackupRun.Rows.{find_run, snapshot_for_run, update_rows, updated}

abbrev updated_if_some : Run → Option Run → Option Run
updated_if_some run none = none
updated_if_some run (some row) = some (updated run row)

-- The update reaches the row that the look-up finds.
pub find_run-update_rows :
    (run : Run) (rows : List Run) (row : Run)
    → find_run run.id rows ≡ some row
    → find_run run.id (update_rows run rows) ≡ some (updated run row)
unfolding find_run update_rows
find_run-update_rows run [] row h = cc
find_run-update_rows run (r ∷ rows) row h = elim (Bool-cases (r.id == run.id)) [
  | inl e ↦ rw (e, e) (ap (updated_if_some run) (rw e at h))
  | inr e ↦ rw (e, e) (find_run-update_rows run rows row (rw e at h))
]

kept_behind :
    (id : Bytes) (new old : Run) (news olds : List Run)
    → new.id ≡ old.id
    → (find_run id olds ≢ none → find_run id news ≢ none)
    → find_run id (old ∷ olds) ≢ none
    → find_run id (new ∷ news) ≢ none
unfolding find_run
kept_behind id new old news olds same next h = elim (Bool-cases (old.id == id)) [
  | inl e ↦ rw (same, e) (λ n. cc n)
  | inr e ↦ rw (same, e) (next (rw e at h))
]

-- An update takes no row away.
pub find_run-update_rows_kept :
    (id : Bytes) (run : Run) (rows : List Run)
    → find_run id rows ≢ none
    → find_run id (update_rows run rows) ≢ none
unfolding find_run update_rows
find_run-update_rows_kept id run [] h = h
find_run-update_rows_kept id run (r ∷ rows) h = elim (Bool-cases (r.id == run.id)) [
  | inl e ↦ rw e (
      kept_behind id (updated run r) r (update_rows run rows) rows refl
        (find_run-update_rows_kept id run rows) h)
  | inr e ↦ rw e (
      kept_behind id r r (update_rows run rows) rows refl (find_run-update_rows_kept id run rows) h)
]

-- The first snapshot of a run is found behind those of other runs.
pub snapshot_for_run-append :
    (id : Bytes) (s : Snapshot) (ss : List Snapshot)
    → snapshot_for_run id ss ≡ none
    → s.run_id ≡ id
    → snapshot_for_run id (ss ++ (s ∷ [])) ≡ some s
unfolding snapshot_for_run
snapshot_for_run-append id s [] h e = ground (arith, bytes_beq_iff s.run_id id, e)
snapshot_for_run-append id s (x ∷ ss) h e =
    ground (arith, h, bytes_beq_iff x.run_id id, snapshot_for_run-append id s ss, e)

abbrev IdIn : Bytes → Option Run → Type 0
IdIn id none = ⊥
IdIn id (some row) = row.id ≡ id

pub find_run-id :
    (id : Bytes) (rows : List Run) (row : Run) → find_run id rows ≡ some row → row.id ≡ id
unfolding find_run
find_run-id id [] row h = cc
find_run-id id (r ∷ rows) row h = elim (Bool-cases (r.id == id)) [
  | inl e ↦ subst (λ o. IdIn id o) (rw e at h) ((bytes_beq_iff r.id id).0 e)
  | inr e ↦ find_run-id id rows row (rw e at h)
]
