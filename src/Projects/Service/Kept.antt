-- ===== src/Projects/Service/Kept.antt =====
-- What a scan does to the registry.
use back_orbit.Base.{ℕ, List, Option, none, some, ◌≡◌, refl, subst, arith, Bytes, ok, Result}
use back_orbit.Projects.Registry.{Discovery, Project, ProjectError, upsert_all}
use back_orbit.Projects.Registry.Rows.{UniqueIds}
use back_orbit.Projects.Registry.Scanned.{
  KeepsRows, KeepsRows-refl, Registered, upsert_all-KeepsRows,
}
use back_orbit.Projects.Service.{ScanAnswers, Service, after_upserts, scan, scan_docker}

module _ {V : Type 0} (redacted : V) (text : Bytes → V) (number : ℕ → V) where
  -- A scan in which Docker named these projects and that did not fail.
  abbrev IsScanned :
      List Discovery → Service V → Result ProjectError (List Project) × Service V → Type 0
  IsScanned ds s r =
      KeepsRows s.rows r.1.rows
      × ((listed : List Project) → r.0 ≡ ok listed → Registered ds r.1.rows)

  after_upserts-IsScanned :
      (actor : Bytes) (a : ScanAnswers) (ds : List Discovery) (s : Service V)
      (r : Option ProjectError × List Project)
      → KeepsRows s.rows r.1
      → (r.0 ≡ none → Registered ds r.1)
      → IsScanned ds s (after_upserts redacted text number actor a ds s r)
  after_upserts-IsScanned actor a ds s (none, rows) kept all = (kept, λ _ _. all refl)
  after_upserts-IsScanned actor a ds s (some e, rows) kept all = (kept, λ _ h. ground (arith, h))

  -- In a registry without two rows of one id, a scan, however it ends, loses no row, gives no id
  -- twice, takes no name away and changes no row's name, source, status or time of creation. If it
  -- succeeds every project that Docker named has a row.
  pub scan-KeepsRows :
      (actor : Bytes) (a : ScanAnswers) (s : Service V)
      → UniqueIds s.rows
      → KeepsRows s.rows (scan redacted text number actor a s).1.rows
        × ((ds : List Discovery) (listed : List Project)
            → a.docker ≡ some (some ds)
            → (scan redacted text number actor a s).0 ≡ ok listed
            → Registered ds (scan redacted text number actor a s).1.rows)
  unfolding scan
  scan-KeepsRows actor a s u = by_docker a.docker
    where
      by_docker :
          (docker : Option (Option (List Discovery)))
          → KeepsRows s.rows (scan_docker redacted text number actor a s docker).1.rows
            × ((ds : List Discovery) (listed : List Project)
                → docker ≡ some (some ds)
                → (scan_docker redacted text number actor a s docker).0 ≡ ok listed
                → Registered ds (scan_docker redacted text number actor a s docker).1.rows)
      by_docker none = (KeepsRows-refl s.rows u, λ ds listed e _. ground (arith, e))
      by_docker (some none) = (KeepsRows-refl s.rows u, λ ds listed e _. ground (arith, e))
      by_docker (some (some found)) =
          let (kept, all) = upsert_all-KeepsRows found s.rows u in
          let (rows, named) =
            after_upserts-IsScanned actor a found s (upsert_all found s.rows) kept all in
          (
            rows,
            λ ds listed e h.
                let same : found ≡ ds = ground (arith, e) in
                subst
                  (λ x.
                    Registered x
                      (scan_docker redacted text number actor a s (some (some found))).1.rows)
                  same (named listed h),
          )
