-- ===== src/BackupRun/Rows/Interrupted.antt =====
-- Closing interrupted runs.
use back_orbit.Base.{
  ℕ, suc, true, List, [], ◌∷◌, ◌≡◌, refl, All, Bool-cases, inl, inr, map, if◌then◌else◌,
}
use back_orbit.BackupRun.{Run, done}
use back_orbit.BackupRun.Rows.{Store, mark_rows, mark_interrupted_runs, interrupted_row}

-- What becomes of one row.
abbrev pub closed : ℕ → Run → Run
closed now row = if done row.status then row else interrupted_row now row

abbrev pub count_running : List Run → ℕ
count_running [] = 0
count_running (row ∷ rows) = let n = count_running rows in if done row.status then n else suc n

mark_rows-map :
    (now : ℕ) (rows : List Run) → mark_rows now rows ≡ (count_running rows, map (closed now) rows)
unfolding mark_rows
mark_rows-map now [] = refl
mark_rows-map now (row ∷ rows) = elim (Bool-cases (done row.status)) [
  | inl e ↦ rw (mark_rows-map now rows, e) refl
  | inr e ↦ rw (mark_rows-map now rows, e) refl
]

closed-done : (now : ℕ) (row : Run) → done (closed now row).status ≡ true
closed-done now row = elim (Bool-cases (done row.status)) [
  | inl e ↦ rw (e, e) refl
  | inr e ↦ rw e refl
]

All-closed :
    (now : ℕ) (rows : List Run) → All (λ row. done row.status ≡ true) (map (closed now) rows)
All-closed now [] = tt
All-closed now (row ∷ rows) = (closed-done now row, All-closed now rows)

-- After the start-up no run is running: the answer is the number of runs that were, each of them has
-- failed with the time of the start-up as its end, and the other rows and the snapshots are as before.
pub mark_interrupted_runs-All :
    (now : ℕ) (s : Store)
    → let (n, t) = mark_interrupted_runs now s in
      (n ≡ count_running s.runs)
      × (t.runs ≡ map (closed now) s.runs)
      × All (λ row. done row.status ≡ true) t.runs
      × (t.snapshots ≡ s.snapshots)
unfolding mark_interrupted_runs
mark_interrupted_runs-All now s =
    rw (mark_rows-map now s.runs) (refl, refl, All-closed now s.runs, refl)
