-- ===== src/BackupRun/Dumps/Accounted.antt =====
-- Each detected database is accounted for: in the run's warnings or in the snapshot's manifest.
use back_orbit.Base.{
  Bool, true, false, some, List, [], ◌∷◌, ◌++◌, Bytes, ◌==◌, arith, ◌≡◌, ◌≢◌, codes, refl, Any,
  Any-append_left, Any-append_right, inl, inr, Result-cases, Option-cases, Bool-cases, ◌⊎◌, map,
  sym, subst,
}
use back_orbit.Base.Assoc.{Assoc}
use back_orbit.Base.Text.{bytes_eq, bytes_beq-ne, bytes_beq_iff}
use back_orbit.BackupRun.{
  Answers, Container, DatabaseDump, Finding, files_only, VolumeManifest, Warning, not_running,
  not_exported, for_dumps, for_manifest, Run,
}
use back_orbit.BackupRun.Dumps.{
  DumpResult, by_service, dump_databases, dump_finding, dump_findings, dump_one, export_from,
  exported_entry, files_entries, found_entries, is_dumped, is_exportable, is_listed_as_files,
  is_database, is_possible, key_of, manifest_entries, running_container, sqlite_entries,
}

-- A warning that says of a database that it was not exported.
abbrev pub SaysNotExported : Finding → Warning → Type 0
SaysNotExported f (not_running t s) = (t ≡ f.technology) × (s ≡ f.service)
SaysNotExported f (not_exported t s _) = (t ≡ f.technology) × (s ≡ f.service)
SaysNotExported f _ = ⊥

abbrev pub IsDumpOf : Finding → DumpResult → Type 0
IsDumpOf f d = d.key ≡ key_of f

-- Exported, or named in a warning.
abbrev pub IsAccounted : Finding → List DumpResult × List Warning → Type 0
IsAccounted f out = Any (IsDumpOf f) out.0 ⊎ Any (SaysNotExported f) out.1

export_from-IsAccounted :
    (a : Answers) (v : Bool) (f : Finding) (c : Container) → IsAccounted f (export_from a v f c)
unfolding export_from
export_from-IsAccounted a v f c = elim (Result-cases (dump_one a f c)) [
  | inl (d, e) ↦ rw (export_from, e) (inl (inl refl))
  | inr (x, e) ↦ rw (export_from, e) (inr (inl (refl, refl)))
]

dump_finding-IsAccounted :
    (a : Answers) (v : Bool) (m : Assoc Bytes Container) (f : Finding)
    → is_exportable f ≡ true
    → IsAccounted f (dump_finding a v m f)
unfolding dump_finding
dump_finding-IsAccounted a v m f h = elim (Option-cases (running_container m f)) [
  | inl e ↦ rw (h, e) (inr (inl (refl, refl)))
  | inr (c, e) ↦ rw (h, e) (export_from-IsAccounted a v f c)
]

abbrev IsAccounted-append :
    (f : Finding) (now later : List DumpResult × List Warning)
    → IsAccounted f now ⊎ IsAccounted f later
    → IsAccounted f (now.0 ++ later.0, now.1 ++ later.1)
IsAccounted-append f now later (inl (inl h)) = inl (Any-append_left (IsDumpOf f) now.0 later.0 h)
IsAccounted-append f now later (inl (inr h)) =
    inr (Any-append_left (SaysNotExported f) now.1 later.1 h)
IsAccounted-append f now later (inr (inl h)) = inl (Any-append_right (IsDumpOf f) now.0 later.0 h)
IsAccounted-append f now later (inr (inr h)) =
    inr (Any-append_right (SaysNotExported f) now.1 later.1 h)

dump_findings-IsAccounted :
    (a : Answers) (v : Bool) (m : Assoc Bytes Container) (f : Finding)
    → is_exportable f ≡ true
    → (fs : List Finding) → Any (λ g. g ≡ f) fs
    → IsAccounted f (dump_findings a v m fs)
unfolding dump_findings
dump_findings-IsAccounted a v m f h [] here = elim here [ ]
dump_findings-IsAccounted a v m f h (g ∷ fs) (inl e) =
    IsAccounted-append f (dump_finding a v m g) (dump_findings a v m fs) (
      inl (
        subst (λ g. IsAccounted f (dump_finding a v m g)) (sym e)
          (dump_finding-IsAccounted a v m f h)))
dump_findings-IsAccounted a v m f h (g ∷ fs) (inr later) =
    IsAccounted-append f (dump_finding a v m g) (dump_findings a v m fs)
      (inr (dump_findings-IsAccounted a v m f h fs later))

-- Every finding of the blueprint that is a database of an engine with an exporter, and more than
-- possible, is exported in a run or named in one of its warnings, when there is an analysis, Docker
-- and a project.
pub dump_databases-IsAccounted :
    (a : Answers) (run : Run) (containers : List Container) (findings : List Finding) (f : Finding)
    → a.has_blueprints ≡ true
    → a.has_docker ≡ true
    → run.project_id ≢ []
    → a.blueprint for_dumps ≡ some findings
    → is_exportable f ≡ true
    → Any (λ g. g ≡ f) findings
    → IsAccounted f (dump_databases a run containers)
unfolding dump_databases
dump_databases-IsAccounted a run containers findings f hb hd hp hf hx here =
    rw (hb, hd, bytes_beq-ne run.project_id [] hp, hf)
      (dump_findings-IsAccounted a run.verify_restores (by_service [] containers) f hx findings
        here)

-- The entry of the manifest for a database that was exported, or for one that was not.
abbrev pub IsEntryOf : Finding → DatabaseDump → Type 0
IsEntryOf f e = (e.technology ≡ f.technology) × (e.service ≡ f.service) × (e.level ≡ files_only)

files_entries-listed :
    (dumps : List DumpResult) (f : Finding)
    → is_listed_as_files dumps f ≡ true
    → (fs : List Finding) → Any (λ g. g ≡ f) fs
    → Any (IsEntryOf f) (files_entries dumps fs)
unfolding files_entries
files_entries-listed dumps f h [] here = elim here [ ]
files_entries-listed dumps f h (g ∷ fs) (inl e) =
    subst (λ g. Any (IsEntryOf f) (files_entries dumps (g ∷ fs))) (sym e)
      (rw h (inl (refl, refl, refl)))
files_entries-listed dumps f h (g ∷ fs) (inr later) =
    elim (Bool-cases (is_listed_as_files dumps g)) [
      | inl e ↦ rw e (inr (files_entries-listed dumps f h fs later))
      | inr e ↦ rw e (files_entries-listed dumps f h fs later)
    ]

exported-listed :
    (dumps : List DumpResult) (key : Bytes)
    → is_dumped dumps key ≡ true
    → Any (λ d. d.key ≡ key) dumps
unfolding is_dumped
exported-listed [] key h = cc
exported-listed (d ∷ ds) key h = elim (Bool-cases (d.key == key)) [
  | inl e ↦ inl ((bytes_beq_iff d.key key).0 e)
  | inr e ↦ inr (exported-listed ds key (ground (arith, e, h)))
]

-- Every finding of the blueprint that is a database other than SQLite, and more than possible, is
-- among the run's dumps or has an entry of its own in the manifest that calls it a copy of files,
-- when there is an analysis and a project.
pub manifest_entries-listed :
    (a : Answers) (run : Run) (dumps : List DumpResult) (volumes : List VolumeManifest)
    (findings : List Finding) (f : Finding)
    → a.has_blueprints ≡ true
    → run.project_id ≢ []
    → a.blueprint for_manifest ≡ some findings
    → is_database f ≡ true
    → f.technology ≢ codes "sqlite"
    → is_possible f.confidence ≡ false
    → Any (λ g. g ≡ f) findings
    → Any (IsDumpOf f) dumps ⊎ Any (IsEntryOf f) (manifest_entries a run dumps volumes)
unfolding manifest_entries found_entries
manifest_entries-listed a run dumps volumes findings f hb hp hf hd ht hc here =
    elim (Bool-cases (is_dumped dumps (key_of f))) [
      | inl e ↦ inl (exported-listed dumps (key_of f) e)
      | inr e ↦ inr (
          Any-append_right (IsEntryOf f) (map exported_entry dumps) _ (
            Any-append_right (IsEntryOf f) (sqlite_entries volumes) _ (
              rw (hb, bytes_beq-ne run.project_id [] hp, hf)
                (files_entries-listed dumps f
                  (rw (hd, bytes_beq-ne f.technology (codes "sqlite") ht, hc, e) refl) findings
                  here))))
    ]
