-- ===== src/Analysis/Drift.antt =====
-- Drift: an analysis that differs from the confirmed one.
use back_orbit.Base.{
  ℕ, List, [], Option, none, some, true, false, not, ◌≡◌, ◌≢◌, refl, sym, ap, ◌∙◌, arith, Bytes,
  Bool-cases, inl, inr, ok, ◌==◌,
}
use back_orbit.Base.Assoc.{insert, lookup, lookup-insert}
use back_orbit.Base.Text.{bytes_beq-ne, bytes_beq_iff, bytes_eq}
use back_orbit.Analysis.{
  Answers, Blueprint, Detected, Row, Table, analyze, confirm, confirmation, confirmed_row, get,
  new_blueprint, saved_row, with_confirmation,
}
use back_orbit.Analysis.Confirmed.{
  Analysis, IsConfirmed, IsConfirmed-run_all, analyze-ok, ok-parts, run_all,
}

-- The row that an analysis leaves: it holds the analysis and its fingerprint.
record IsAnalysed (project : Bytes) (bp : Blueprint) (table : Table) : Type 0 where
  row : Row
  found : lookup project table ≡ some row
  print : row.fingerprint ≡ bp.fingerprint
  analysis : row.analysis ≡ bp

saved_row-parts :
    (bp : Blueprint) (fp : Bytes) (at : Option ℕ) (old : Option Row)
    → ((saved_row bp fp at old).fingerprint ≡ bp.fingerprint)
      × ((saved_row bp fp at old).analysis ≡ bp)
saved_row-parts bp fp at none = (refl, refl)
saved_row-parts bp fp at (some row) = (refl, refl)

analyze-IsAnalysed :
    (a : Answers) (project : Bytes) (d : Detected) (table : Table) (bp : Blueprint) (after : Table)
    → analyze a project (some d) table ≡ ok (bp, after)
    → IsAnalysed project bp after × (bp.fingerprint ≡ d.fingerprint)
unfolding new_blueprint
analyze-IsAnalysed a project d table bp after h =
    let (same, put) = analyze-ok a project d table bp after h in
    let known = confirmation project table in
    let new = new_blueprint project a.now d known in
    let row = saved_row new known.0 known.1 (lookup project table) in
    let (print, analysis) = saved_row-parts new known.0 known.1 (lookup project table) in
    (
      record {
        row = row;
        found =
            sym (ap (λ (t : Table). lookup project t) put)
            ∙ lookup-insert project project row table
            ∙ rw ((bytes_beq_iff project project).1 refl) refl;
        print = print ∙ ap (λ (x : Blueprint). x.fingerprint) same;
        analysis = analysis ∙ same;
      },
      sym (ap (λ (x : Blueprint). x.fingerprint) same),
    )

confirm-ok :
    (a : Answers) (project : Bytes) (table : Table) (row : Row) (bp : Blueprint) (after : Table)
    → lookup project table ≡ some row
    → confirm a project table ≡ ok (bp, after)
    → (record (with_confirmation row.analysis row.confirmed_at) {
      confirmed_at = some a.now;
      drifted = false;
    }
        ≡ bp)
      × (insert project (confirmed_row a.now row) table ≡ after)
unfolding confirm get
confirm-ok a project table row bp after found h = elim (Bool-cases a.reads) [
  | inr e ↦ ground (arith, rw e at h)
  | inl e ↦ elim (Bool-cases a.writes) [
    | inr f ↦ ground (arith, rw (e, found, f) at h)
    | inl f ↦ ok-parts _ _ _ _ (rw (e, found, f) at h)
  ]
]

confirmed-found :
    (now : ℕ) (project : Bytes) (row : Row) (table after : Table)
    → insert project (confirmed_row now row) table ≡ after
    → lookup project after ≡ some (confirmed_row now row)
confirmed-found now project row table after put =
    sym (ap (λ (t : Table). lookup project t) put)
    ∙ lookup-insert project project (confirmed_row now row) table
    ∙ rw ((bytes_beq_iff project project).1 refl) refl

-- An analysis with a fingerprint that is not empty, its confirmation, any analyses of any projects
-- after it, and one more of the project: that one says that the project drifted exactly if its
-- fingerprint is another than the confirmed one, and names the time of the confirmation.
pub analyze-confirmed :
    (a b c : Answers) (project : Bytes) (first last : Detected) (table : Table)
    (bp shown seen : Blueprint) (analysed confirmed after : Table) (between : List Analysis)
    → first.fingerprint ≢ []
    → analyze a project (some first) table ≡ ok (bp, analysed)
    → confirm b project analysed ≡ ok (shown, confirmed)
    → analyze c project (some last) (run_all between confirmed) ≡ ok (seen, after)
    → (seen.drifted ≡ not (first.fingerprint == last.fingerprint))
      × (seen.confirmed_at ≡ some b.now)
unfolding new_blueprint
analyze-confirmed a b c project first last table bp shown seen analysed confirmed after between ne h
      k l =
    let (row, print) = analyze-IsAnalysed a project first table bp analysed h in
    let (_, put) = confirm-ok b project analysed row.row shown confirmed row.found k in
    let kept : IsConfirmed project first.fingerprint b.now (run_all between confirmed) =
      IsConfirmed-run_all between project first.fingerprint b.now confirmed (record {
        row = confirmed_row b.now row.row;
        found = confirmed-found b.now project row.row analysed confirmed put;
        print = ap some (row.print ∙ print);
        time = refl;
      }) in
    let (same, _) = analyze-ok c project last (run_all between confirmed) seen after l in
    let known : confirmation project (run_all between confirmed) ≡ (first.fingerprint, some b.now) =
      rw (kept.found, kept.print, kept.time) refl in
    (
      sym (ap (λ (x : Blueprint). x.drifted) same)
          ∙ rw (known, bytes_beq-ne first.fingerprint [] ne) refl,
      sym (ap (λ (x : Blueprint). x.confirmed_at) same) ∙ rw known refl,
    )

-- After an analysis and its confirmation `Confirm` answers that nothing has drifted, but `Get` goes on
-- to answer what the analysis answered of drift; both name the time of the confirmation.
pub get-confirm :
    (a b : Answers) (project : Bytes) (d : Detected) (table : Table) (bp shown : Blueprint)
    (analysed confirmed : Table)
    → analyze a project (some d) table ≡ ok (bp, analysed)
    → confirm b project analysed ≡ ok (shown, confirmed)
    → (shown.drifted ≡ false)
      × (shown.confirmed_at ≡ some b.now)
      × (get true project confirmed ≡ ok (record bp { confirmed_at = some b.now }))
unfolding get
get-confirm a b project d table bp shown analysed confirmed h k =
    let (row, _) = analyze-IsAnalysed a project d table bp analysed h in
    let (same, put) = confirm-ok b project analysed row.row shown confirmed row.found k in
    (
      sym (ap (λ (x : Blueprint). x.drifted) same),
      sym (ap (λ (x : Blueprint). x.confirmed_at) same),
      rw (confirmed-found b.now project row.row analysed confirmed put)
          (ap (λ (x : Blueprint). ok (record x { confirmed_at = some b.now })) row.analysis),
    )
