-- ===== src/BackupRun/Rows/Listing.antt =====
-- The list of recent runs.
use back_orbit.Base.{
  ℕ, zero, suc, ◌≤◌, ◌/◌, List, [], ◌∷◌, ◌≡◌, refl, All, arith, length, length-take-le, take, map,
  Bool-cases, inl, inr,
}
use back_orbit.Base.Times.{nanos_per_second, stored_lt, stored_lt-false, stored_lt-true}
use back_orbit.BackupRun.{Run}
use back_orbit.BackupRun.Rows.{
  Store, attach, effective_limit, insert_by_date, list_runs, sort_by_date,
}

-- The second of a run's creation.
abbrev pub second_of : Run → ℕ
second_of r = r.created_at / nanos_per_second

-- No run stands before one of a later second.
abbrev pub Newest : List Run → Type 0
Newest [] = Unit
Newest (r ∷ rs) = All (λ x. second_of x ≤ second_of r) rs × Newest rs

All-insert_by_date :
    (n : ℕ) (run : Run) (rs : List Run)
    → second_of run ≤ n
    → All (λ x. second_of x ≤ n) rs
    → All (λ x. second_of x ≤ n) (insert_by_date run rs)
unfolding insert_by_date
All-insert_by_date n run [] h a = (h, tt)
All-insert_by_date n run (r ∷ rs) h a = elim (Bool-cases (stored_lt run.created_at r.created_at)) [
  | inl e ↦ rw (insert_by_date, e) (a.0, All-insert_by_date n run rs h a.1)
  | inr e ↦ rw (insert_by_date, e) (h, a)
]

All-later :
    (m n : ℕ) (rs : List Run)
    → m ≤ n
    → All (λ x. second_of x ≤ m) rs
    → All (λ x. second_of x ≤ n) rs
All-later m n [] h a = tt
All-later m n (r ∷ rs) h (a, b) = (omega (arith, a, h), All-later m n rs h b)

Newest-insert_by_date : (run : Run) (rs : List Run) → Newest rs → Newest (insert_by_date run rs)
unfolding insert_by_date
Newest-insert_by_date run [] h = (tt, tt)
Newest-insert_by_date run (r ∷ rs) h = elim (Bool-cases (stored_lt run.created_at r.created_at)) [
  | inl e ↦
      rw (insert_by_date, e)
        (
          All-insert_by_date (second_of r) run rs (stored_lt-true run.created_at r.created_at e)
              h.0,
          Newest-insert_by_date run rs h.1,
        )
  | inr e ↦
      let le : second_of r ≤ second_of run = stored_lt-false run.created_at r.created_at e in
      rw (insert_by_date, e) ((le, All-later (second_of r) (second_of run) rs le h.0), h)
]

Newest-sort_by_date : (rs : List Run) → Newest (sort_by_date rs)
unfolding sort_by_date
Newest-sort_by_date [] = tt
Newest-sort_by_date (r ∷ rs) = Newest-insert_by_date r (sort_by_date rs) (Newest-sort_by_date rs)

All-attach-take :
    (n m : ℕ) (s : Store) (rs : List Run)
    → All (λ x. second_of x ≤ m) rs
    → All (λ x. second_of x ≤ m) (map (attach s) (take n rs))
All-attach-take zero m s rs a = tt
All-attach-take (suc n) m s [] a = tt
All-attach-take (suc n) m s (r ∷ rs) (a, b) = (a, All-attach-take n m s rs b)

Newest-attach-take :
    (n : ℕ) (s : Store) (rs : List Run) → Newest rs → Newest (map (attach s) (take n rs))
Newest-attach-take zero s rs h = tt
Newest-attach-take (suc n) s [] h = tt
Newest-attach-take (suc n) s (r ∷ rs) h =
    (All-attach-take n (second_of r) s rs h.0, Newest-attach-take n s rs h.1)

length-map : (s : Store) (rs : List Run) → length (map (attach s) rs) ≡ length rs
length-map s [] = refl
length-map s (r ∷ rs) = omega (arith, length-map s rs)

effective_limit-le : (limit : ℕ) → effective_limit limit ≤ 200
effective_limit-le limit = ground arith

-- Whatever limit is asked for, the list of runs has at most 200 of them, and no run stands before
-- one of a later second; within a second the order of the stored texts decides.
pub list_runs-Newest :
    (limit : ℕ) (s : Store) → (length (list_runs limit s) ≤ 200) × Newest (list_runs limit s)
unfolding list_runs
list_runs-Newest limit s =
    let listed = sort_by_date s.runs in
    (
      omega (
        arith,
        length-map s (take (effective_limit limit) listed),
        length-take-le (effective_limit limit) listed,
        effective_limit-le limit,
      ),
      Newest-attach-take (effective_limit limit) s listed (Newest-sort_by_date s.runs),
    )
