-- ===== src/Analysis/Confirmed.antt =====
-- What a confirmation means for later analyses.
use back_orbit.Base.{
  ℕ, List, [], ◌∷◌, Option, none, some, ◌≡◌, refl, sym, ap, ◌∙◌, arith, Bytes, Bool-cases, inl, inr,
  ok, err, Result,
}
use back_orbit.Base.Assoc.{insert, lookup, lookup-insert}
use back_orbit.Base.Text.{bytes_beq, bytes_beq_iff, bytes_eq}
use back_orbit.Analysis.{
  AnalysisError, Answers, Blueprint, Detected, Row, Table, analysis_failed, analyze, confirmation,
  new_blueprint, save, saved_row,
}

-- One analysis; its project and what it found.
pub record Analysis : Type 0 where
  pub answers : Answers
  pub project : Bytes
  pub detected : Option Detected

abbrev table_of : Table → Result AnalysisError (Blueprint × Table) → Table
table_of table (ok (bp, saved)) = saved
table_of table (err e) = table

-- Analyses one after another; one that fails leaves the table.
unfoldable pub run_all : List Analysis → Table → Table
run_all [] table = table
run_all (x ∷ xs) table = run_all xs (table_of table (analyze x.answers x.project x.detected table))

-- The row of the project is confirmed, with this fingerprint and at this time.
pub record IsConfirmed (project fingerprint : Bytes) (at : ℕ) (table : Table) : Type 0 where
  pub row : Row
  pub found : lookup project table ≡ some row
  pub print : row.confirmed_fingerprint ≡ some fingerprint
  pub time : row.confirmed_at ≡ some at

pub ok-parts :
    {E A B : Type 0} (a c : A) (b d : B)
    → ◌≡◌ {A = Result E (A × B)} (ok (a, b)) (ok (c, d))
    → (a ≡ c) × (b ≡ d)
ok-parts a c b d h = (ground (arith, h), ground (arith, h))

pub analyze-ok :
    (a : Answers) (project : Bytes) (d : Detected) (table : Table) (bp : Blueprint) (after : Table)
    → analyze a project (some d) table ≡ ok (bp, after)
    → (new_blueprint project a.now d (confirmation project table) ≡ bp)
      × (insert project
            (saved_row
              (new_blueprint project a.now d (confirmation project table))
              (confirmation project table).0
              (confirmation project table).1
              (lookup project table))
            table
          ≡ after)
unfolding analyze save new_blueprint
analyze-ok a project d table bp after h = elim (Bool-cases a.reads) [
  | inr e ↦ ground (arith, rw e at h)
  | inl e ↦ elim (Bool-cases a.writes) [
    | inr f ↦ ground (arith, rw (e, f) at h)
    | inl f ↦ ok-parts _ _ _ _ (rw (e, f) at h)
  ]
]

-- The row of another project is left, and that of the project keeps its confirmation.
saved_row-IsConfirmed :
    (bp : Blueprint) (fp fingerprint : Bytes) (at : Option ℕ) (time : ℕ) (row : Row)
    → row.confirmed_fingerprint ≡ some fingerprint
    → row.confirmed_at ≡ some time
    → ((saved_row bp fp at (some row)).confirmed_fingerprint ≡ some fingerprint)
      × ((saved_row bp fp at (some row)).confirmed_at ≡ some time)
saved_row-IsConfirmed bp fp fingerprint at time row p t = (p, t)

IsConfirmed-analyze :
    (a : Answers) (own project : Bytes) (d : Detected) (fingerprint : Bytes) (time : ℕ)
    (table : Table) (bp : Blueprint) (after : Table)
    → IsConfirmed project fingerprint time table
    → analyze a own (some d) table ≡ ok (bp, after)
    → IsConfirmed project fingerprint time after
IsConfirmed-analyze a own project d fingerprint time table bp after c h =
    let (_, put) = analyze-ok a own d table bp after h in
    let known = confirmation own table in
    let new = new_blueprint own a.now d known in
    elim (Bool-cases (bytes_beq own project)) [
      | inl same ↦
          let key : own ≡ project = (bytes_beq_iff own project).0 same in
          let old : lookup own table ≡ some c.row =
            ap (λ (k : Bytes). lookup k table) key ∙ c.found in
          let (print, at) =
            saved_row-IsConfirmed new known.0 fingerprint known.1 time c.row c.print c.time in
          record {
            row = saved_row new known.0 known.1 (some c.row);
            found =
                sym (ap (λ (t : Table). lookup project t) put)
                ∙ lookup-insert own project (saved_row new known.0 known.1 (lookup own table)) table
                ∙ rw (same, old) refl;
            print = print;
            time = at;
          }
      | inr other ↦ record {
        row = c.row;
        found =
            sym (ap (λ (t : Table). lookup project t) put)
            ∙ lookup-insert own project (saved_row new known.0 known.1 (lookup own table)) table
            ∙ rw other c.found;
        print = c.print;
        time = c.time;
      }
    ]

analyze-none :
    (a : Answers) (project : Bytes) (table : Table)
    → analyze a project none table ≡ err analysis_failed
unfolding analyze
analyze-none a project table = refl

IsConfirmed-step :
    (x : Analysis) (project fingerprint : Bytes) (time : ℕ) (table : Table)
    (r : Result AnalysisError (Blueprint × Table))
    → IsConfirmed project fingerprint time table
    → analyze x.answers x.project x.detected table ≡ r
    → IsConfirmed project fingerprint time (table_of table r)
IsConfirmed-step x project fingerprint time table (err e) c h = c
IsConfirmed-step x project fingerprint time table (ok (bp, after)) c h =
    elim x.detected
        as (λ (o : Option Detected). x.detected ≡ o → IsConfirmed project fingerprint time after) [
          | none ↦ λ e. ground (arith, analyze-none x.answers x.project table, rw e at h)
          | some d ↦ λ e.
              IsConfirmed-analyze x.answers x.project project d fingerprint time table bp after c
                (rw e at h)
        ]
      refl

pub IsConfirmed-run_all :
    (xs : List Analysis) (project fingerprint : Bytes) (time : ℕ) (table : Table)
    → IsConfirmed project fingerprint time table
    → IsConfirmed project fingerprint time (run_all xs table)
unfolding run_all
IsConfirmed-run_all [] project fingerprint time table c = c
IsConfirmed-run_all (x ∷ xs) project fingerprint time table c =
    IsConfirmed-run_all xs project fingerprint time
      (table_of table (analyze x.answers x.project x.detected table))
      (IsConfirmed-step x project fingerprint time table
        (analyze x.answers x.project x.detected table) c refl)
