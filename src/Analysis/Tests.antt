-- ===== src/Analysis/Tests.antt =====
-- A project that is analysed, confirmed and changed.
use back_orbit.Base.{
  ℕ, Option, [], ◌∷◌, some, none, true, false, not, ◌≡◌, refl, arith, Bytes, codes, ok, ◌==◌,
}
use back_orbit.Base.Assoc.{insert, lookup}
use back_orbit.Base.Text.{bytes_beq, bytes_eq}
use back_orbit.Analysis.{
  Answers, Blueprint, Detected, Finding, Table, analyze, confirm, dump_databases, get, snapshot,
  validate, verify, has_kind, new_blueprint, numbered, plan, save,
}
use back_orbit.Analysis.Confirmed.{run_all}
use back_orbit.Analysis.Drift.{analyze-confirmed, get-confirm}

abbrev database : Finding
database = record {
  id = codes "db";
  kind = codes "database";
  technology = codes "mysql";
  service = codes "db";
}

abbrev found : Bytes → Detected
found fingerprint = record { findings = database ∷ []; warnings = []; fingerprint = fingerprint }

abbrev at : ℕ → Answers
at now = record { reads = true; writes = true; now = now }

abbrev blueprint : Bytes → ℕ → Bytes × Option ℕ → Blueprint
blueprint fingerprint now known = new_blueprint (codes "p") now (found fingerprint) known

-- The confirmed analysis had fingerprint "old", the last one has "new".
abbrev one_row : Bytes → ℕ → Bytes × Option ℕ → Option Bytes → Option ℕ → Table
one_row fingerprint now known print time =
    (
      codes "p",
      record {
        schema_version = 1;
        fingerprint = fingerprint;
        analysis = blueprint fingerprint now known;
        analyzed_at = now;
        confirmed_fingerprint = print;
        confirmed_at = time;
      },
    )
    ∷ []

abbrev fresh : Table
fresh = one_row (codes "old") 1 ([], none) none none

abbrev agreed : Table
agreed = one_row (codes "old") 1 ([], none) (some (codes "old")) (some 2)

abbrev changed : Table
changed = one_row (codes "new") 3 (codes "old", some 2) (some (codes "old")) (some 2)

abbrev reconfirmed : Table
reconfirmed = one_row (codes "new") 3 (codes "old", some 2) (some (codes "new")) (some 4)

first_analysis :
    analyze (at 1) (codes "p") (some (found (codes "old"))) []
    ≡ ok (blueprint (codes "old") 1 ([], none), fresh)
unfolding analyze save new_blueprint lookup insert
first_analysis = refl

first_confirmation :
    confirm (at 2) (codes "p") fresh
    ≡ ok (
      record (blueprint (codes "old") 1 ([], none)) { confirmed_at = some 2; drifted = false },
      agreed,
    )
unfolding confirm get lookup insert bytes_beq
first_confirmation = refl

second_analysis :
    analyze (at 3) (codes "p") (some (found (codes "new"))) (run_all [] agreed)
    ≡ ok (blueprint (codes "new") 3 (codes "old", some 2), changed)
unfolding analyze save new_blueprint lookup insert run_all bytes_beq
second_analysis = refl

analyze-confirmed_example :
    ((blueprint (codes "new") 3 (codes "old", some 2)).drifted ≡ not (codes "old" == codes "new"))
    × ((blueprint (codes "new") 3 (codes "old", some 2)).confirmed_at ≡ some 2)
analyze-confirmed_example =
    analyze-confirmed (at 1) (at 2) (at 3) (codes "p") (found (codes "old")) (found (codes "new"))
      [] (blueprint (codes "old") 1 ([], none))
      (record (blueprint (codes "old") 1 ([], none)) { confirmed_at = some 2; drifted = false })
      (blueprint (codes "new") 3 (codes "old", some 2)) fresh agreed changed []
      (λ e. ground (arith, e)) first_analysis first_confirmation second_analysis

-- The drift that was confirmed away is still shown.
drift_analysis :
    analyze (at 3) (codes "p") (some (found (codes "new"))) agreed
    ≡ ok (blueprint (codes "new") 3 (codes "old", some 2), changed)
unfolding analyze save new_blueprint lookup insert bytes_beq
drift_analysis = refl

drift_confirmation :
    confirm (at 4) (codes "p") changed
    ≡ ok (
      record (blueprint (codes "new") 3 (codes "old", some 2)) {
        confirmed_at = some 4;
        drifted = false;
      },
      reconfirmed,
    )
unfolding confirm get lookup insert bytes_beq
drift_confirmation = refl

still_drifted : (blueprint (codes "new") 3 (codes "old", some 2)).drifted ≡ true
unfolding new_blueprint bytes_beq
still_drifted = refl

abbrev shown : Blueprint
shown = record (blueprint (codes "new") 3 (codes "old", some 2)) {
  confirmed_at = some 4;
  drifted = false;
}

get-confirm_example :
    (shown.drifted ≡ false)
    × (shown.confirmed_at ≡ some 4)
    × (get true (codes "p") reconfirmed
        ≡ ok (record (blueprint (codes "new") 3 (codes "old", some 2)) { confirmed_at = some 4 }))
get-confirm_example =
    get-confirm (at 3) (at 4) (codes "p") (found (codes "new")) agreed
      (blueprint (codes "new") 3 (codes "old", some 2)) shown changed reconfirmed drift_analysis
      drift_confirmation

planned :
    plan (database ∷ [])
    ≡ (record { order = 1; action = validate })
      ∷ (record { order = 2; action = dump_databases })
      ∷ (record { order = 3; action = snapshot })
      ∷ (record { order = 4; action = verify })
      ∷ []
unfolding plan has_kind numbered bytes_beq
planned = refl
