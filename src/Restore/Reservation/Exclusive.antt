-- ===== src/Restore/Reservation/Exclusive.antt =====
-- A reservation is taken and recorded, or given back.
use back_orbit.Base.{
  Bool, none, some, List, [], ◌∷◌, ◌++◌, Bytes, Result, ok, err, ◌≡◌, ◌≢◌, ◌⊎◌, arith, refl, inl,
  inr, All, Option-cases, Bool-cases, ==_refl, ◌∙◌, subst, sym,
}
use back_orbit.Base.Assoc.{insert, lookup, lookup-insert, lookup-remove}
use back_orbit.Base.Text.{bytes_eq, bytes_beq_iff}
use back_orbit.Restore.{Run, State, release, restore_started, without}
use back_orbit.Restore.Reservation.{
  RestoreError, already_running, insert_failed, reserve, target_failed,
}

lookup-release :
    (snapshot run id : Bytes) (made : List Bytes) (s : State)
    → lookup snapshot s.by_snapshot ≡ none
    → lookup id
        (release snapshot run (record s {
          by_snapshot = insert snapshot run s.by_snapshot;
          created = made;
        })).by_snapshot
      ≡ lookup id s.by_snapshot
unfolding release
lookup-release snapshot run id made s free =
    let mine : lookup snapshot (insert snapshot run s.by_snapshot) ≡ some run =
      lookup-insert snapshot snapshot run s.by_snapshot ∙ rw (==_refl snapshot) refl in
    rw (release, mine, ==_refl run)
      (ground (
        arith,
        lookup-remove snapshot id (insert snapshot run s.by_snapshot),
        lookup-insert snapshot id run s.by_snapshot,
        bytes_beq_iff snapshot id,
        free,
      ))

-- What was not in the list is not missed.
without-absent : (id : Bytes) (xs : List Bytes) → All (λ x. x ≢ id) xs → without id xs ≡ xs
without-absent id [] h = refl
without-absent id (x ∷ xs) (here, rest) =
    ground (arith, bytes_beq_iff x id, without-absent id xs rest)

-- The snapshot was free and is reserved for the run, which can be cancelled, has its directory and its
-- row, and was announced. The other snapshots are as they were, and nothing was loaded.
abbrev pub IsReserved : Bytes → Run → State → State → Type 0
IsReserved snapshot run s t =
    (lookup snapshot s.by_snapshot ≡ none)
    × (lookup snapshot t.by_snapshot ≡ some run.id)
    × ((id : Bytes) → id ≢ snapshot → lookup id t.by_snapshot ≡ lookup id s.by_snapshot)
    × (t.active ≡ run.id ∷ s.active)
    × (t.rows ≡ s.rows ++ (run ∷ []))
    × (t.emitted ≡ s.emitted ++ (restore_started run.id ∷ []))
    × (t.created ≡ s.created ++ (run.target_path ∷ []))
    × (t.removed ≡ s.removed)
    × (t.loads ≡ s.loads)

-- The state is the same, or it differs at most in the order of the reservations and, where the
-- insertion failed, in the directory that was made for the run.
abbrev pub IsGivenBack : Bytes → RestoreError → State → State → Type 0
IsGivenBack target e s t =
    (t ≡ s)
    ⊎ (((id : Bytes) → lookup id t.by_snapshot ≡ lookup id s.by_snapshot)
        × (t.active ≡ s.active)
        × (t.rows ≡ s.rows)
        × (t.emitted ≡ s.emitted)
        × (t.removed ≡ s.removed)
        × (t.loads ≡ s.loads)
        × (((e ≡ target_failed) × (t.created ≡ s.created))
            ⊎ ((e ≡ insert_failed) × (t.created ≡ s.created ++ (target ∷ [])))))

abbrev pub IsExclusive : Bytes → Run → State → Result RestoreError Run × State → Type 0
IsExclusive snapshot run s (answer, t) =
    ((answer ≡ ok run) × IsReserved snapshot run s t)
    ⊎ ((e : RestoreError) × (answer ≡ err e) × IsGivenBack run.target_path e s t)

module _ (target_fails insert_fails : Bool) (snapshot : Bytes) (run : Run) (s : State) where
  abbrev held : State
  held = record s { by_snapshot = insert snapshot run.id s.by_snapshot }

  abbrev made : State
  made = record held { created = s.created ++ (run.target_path ∷ []) }

  abbrev taken : State
  taken = record made {
    rows = s.rows ++ (run ∷ []);
    active = run.id ∷ s.active;
    emitted = s.emitted ++ (restore_started run.id ∷ []);
  }

  IsReserved-taken : lookup snapshot s.by_snapshot ≡ none → IsReserved snapshot run s taken
  IsReserved-taken free = (
    free,
    lookup-insert snapshot snapshot run.id s.by_snapshot ∙ rw (==_refl snapshot) refl,
    λ id other.
        ground
          (arith, lookup-insert snapshot id run.id s.by_snapshot, bytes_beq_iff snapshot id, other),
    refl,
    refl,
    refl,
    refl,
    refl,
    refl,
  )

  by_result :
      {x : Result RestoreError Run × State}
      → reserve target_fails insert_fails snapshot run s ≡ x
      → IsExclusive snapshot run s x
      → IsExclusive snapshot run s (reserve target_fails insert_fails snapshot run s)
  by_result e r = subst (λ x. IsExclusive snapshot run s x) (sym e) r

  pub reserve-IsExclusive :
      All (λ id. id ≢ run.id) s.active
      → IsExclusive snapshot run s (reserve target_fails insert_fails snapshot run s)
  unfolding reserve release
  reserve-IsExclusive fresh =
      let same = without-absent run.id s.active fresh in
      elim (Option-cases (lookup snapshot s.by_snapshot)) [
        | inr (other, e) ↦
            by_result {x = (err (already_running other), s)} (rw (reserve, e) refl)
              (inr (already_running other, refl, inl refl))
        | inl e ↦ elim (Bool-cases target_fails) [
          | inl f ↦
              by_result {x = (err target_failed, release snapshot run.id held)}
                (rw (reserve, e, f) refl)
                (inr (
                  target_failed,
                  refl,
                  inr (
                    λ id. lookup-release snapshot run.id id s.created s e,
                    same,
                    refl,
                    refl,
                    refl,
                    refl,
                    inl (refl, refl),
                  ),
                ))
          | inr f ↦ elim (Bool-cases insert_fails) [
            | inl g ↦
                by_result {x = (err insert_failed, release snapshot run.id made)}
                  (rw (reserve, e, f, g) refl)
                  (inr (
                    insert_failed,
                    refl,
                    inr (
                      λ id. lookup-release snapshot run.id id made.created s e,
                      same,
                      refl,
                      refl,
                      refl,
                      refl,
                      inr (refl, refl),
                    ),
                  ))
            | inr g ↦
                by_result {x = (ok run, taken)} (rw (reserve, e, f, g) refl)
                  (inl (refl, IsReserved-taken e))
          ]
        ]
      ]
