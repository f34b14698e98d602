-- ===== src/Analysis.antt =====
-- internal/projectanalyzer/service.go: the stored blueprint of a project, its confirmation and the
-- test for drift. What the detectors find in the Compose files, the containers and the file system,
-- and its fingerprint, is an argument. The JSON of an analysis stands as the blueprint itself;
-- the audit events are left out.
pub mod Confirmed
pub mod Drift
mod Tests
use back_orbit.Base.{
  ℕ, suc, List, [], ◌∷◌, ◌++◌, Option, none, some, Bool, true, false, not, ◌&&◌, ◌||◌,
  if◌then◌else◌, Bytes, codes, ◌==◌, Result, ok, err, ◌>>=◌, ◌>>◌, guard, or_fail,
}
use back_orbit.Base.Assoc.{Assoc, insert, lookup}
use back_orbit.Base.Text.{bytes_beq, bytes_eq}

pub record Finding : Type 0 where
  pub id : Bytes
  pub kind : Bytes
  pub technology : Bytes
  pub service : Bytes

pub data Action : Type 0 where
  validate dump_databases capture_storage snapshot verify : Action

pub record Step : Type 0 where
  pub order : ℕ
  pub action : Action

pub record Blueprint : Type 0 where
  pub schema_version : ℕ
  pub project_id : Bytes
  pub fingerprint : Bytes
  pub analyzed_at : ℕ
  pub confirmed_at : Option ℕ
  pub drifted : Bool
  pub findings : List Finding
  pub steps : List Step
  pub warnings : List Bytes

pub data AnalysisError : Type 0 where
  blueprint_not_found : AnalysisError
  analysis_failed database_failed : AnalysisError

-- A row of `project_blueprints`; null is `none`.
pub record Row : Type 0 where
  pub schema_version : ℕ
  pub fingerprint : Bytes
  pub analysis : Blueprint
  pub analyzed_at : ℕ
  pub confirmed_fingerprint : Option Bytes
  pub confirmed_at : Option ℕ

abbrev pub Table : Type 0
Table = Assoc Bytes Row

abbrev pub schema_version : ℕ
schema_version = 1

-- What the analysis of a project gives.
pub record Detected : Type 0 where
  pub findings : List Finding
  pub warnings : List Bytes
  pub fingerprint : Bytes

unfoldable pub has_kind : Bytes → List Finding → Bool
has_kind kind [] = false
has_kind kind (f ∷ fs) = let rest = has_kind kind fs in f.kind == kind || rest

abbrev only_if : Bool → Action → List Action → List Action
only_if true action rest = action ∷ rest
only_if false action rest = rest

unfoldable pub numbered : ℕ → List Action → List Step
numbered order [] = []
numbered order (action ∷ actions) =
    record { order = order; action = action } ∷ numbered (suc order) actions

-- `plan`
unfoldable pub plan : List Finding → List Step
plan findings = numbered 1 (
    validate
    ∷ only_if (has_kind (codes "database") findings) dump_databases
        (only_if (has_kind (codes "storage") findings) capture_storage (snapshot ∷ verify ∷ [])))

-- A null text is scanned as an empty one.
abbrev pub text_or_empty : Option Bytes → Bytes
text_or_empty none = []
text_or_empty (some t) = t

abbrev pub confirmation_of : Option Row → Bytes × Option ℕ
confirmation_of none = ([], none)
confirmation_of (some row) = (text_or_empty row.confirmed_fingerprint, row.confirmed_at)

-- `confirmation`, whose missing row `Analyze` takes for no confirmation.
abbrev pub confirmation : Bytes → Table → Bytes × Option ℕ
confirmation project table = confirmation_of (lookup project table)

abbrev pub nullable : Bytes → Option Bytes
nullable [] = none
nullable (c ∷ cs) = some (c ∷ cs)

-- The columns that an existing row keeps.
abbrev pub saved_row : Blueprint → Bytes → Option ℕ → Option Row → Row
saved_row bp confirmed_fp confirmed_at none = record {
  schema_version = bp.schema_version;
  fingerprint = bp.fingerprint;
  analysis = bp;
  analyzed_at = bp.analyzed_at;
  confirmed_fingerprint = nullable confirmed_fp;
  confirmed_at = confirmed_at;
}
saved_row bp confirmed_fp confirmed_at (some old) = record old {
  schema_version = bp.schema_version;
  fingerprint = bp.fingerprint;
  analysis = bp;
  analyzed_at = bp.analyzed_at;
}

-- `save`
unfoldable pub save : Bool → Blueprint → Bytes → Option ℕ → Table → Result AnalysisError Table
save works bp confirmed_fp confirmed_at table =
    guard works database_failed
    >> ok (
        insert bp.project_id (saved_row bp confirmed_fp confirmed_at (lookup bp.project_id table))
          table)

unfoldable pub new_blueprint : Bytes → ℕ → Detected → Bytes × Option ℕ → Blueprint
new_blueprint project now d (confirmed_fp, confirmed_at) = record {
  schema_version = schema_version;
  project_id = project;
  fingerprint = d.fingerprint;
  analyzed_at = now;
  confirmed_at = confirmed_at;
  drifted = not (confirmed_fp == []) && not (confirmed_fp == d.fingerprint);
  findings = d.findings;
  steps = plan d.findings;
  warnings = d.warnings;
}

-- What is answered during one operation.
pub record Answers : Type 0 where
  pub reads : Bool
  pub writes : Bool
  pub now : ℕ

-- `Analyze`, with the table after it. Without a result the analysis failed or was cancelled.
unfoldable pub analyze :
    Answers → Bytes → Option Detected → Table → Result AnalysisError (Blueprint × Table)
analyze a project detected table = do
  d ← or_fail detected analysis_failed
  guard a.reads database_failed
  let known = confirmation project table
  let bp = new_blueprint project a.now d known
  saved ← save a.writes bp known.0 known.1 table
  ok (bp, saved)

abbrev pub with_confirmation : Blueprint → Option ℕ → Blueprint
with_confirmation bp none = bp
with_confirmation bp (some at) = record bp { confirmed_at = some at }

-- `Get`
unfoldable pub get : Bool → Bytes → Table → Result AnalysisError Blueprint
get reads project table = do
  guard reads database_failed
  row ← or_fail (lookup project table) blueprint_not_found
  ok (with_confirmation row.analysis row.confirmed_at)

abbrev pub confirmed_row : ℕ → Row → Row
confirmed_row now row = record row {
  confirmed_fingerprint = some row.fingerprint;
  confirmed_at = some now;
}

abbrev pub confirm_rows : ℕ → Bytes → Option Row → Table → Result AnalysisError Table
confirm_rows now project none table = err blueprint_not_found
confirm_rows now project (some row) table = ok (insert project (confirmed_row now row) table)

-- `Confirm`, with the table after it.
unfoldable pub confirm : Answers → Bytes → Table → Result AnalysisError (Blueprint × Table)
confirm a project table = do
  bp ← get a.reads project table
  guard a.writes database_failed
  confirmed ← confirm_rows a.now project (lookup project table) table
  ok (record bp { confirmed_at = some a.now; drifted = false }, confirmed)
