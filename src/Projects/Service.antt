-- ===== src/Projects/Service.antt =====
-- internal/projects/service.go: the operations on the registry of projects. What Docker, the file
-- system, the database, the clock and the random reader answer is an argument of each operation; the
-- audit log is that of internal/events.
pub mod Kept
pub mod Removed
mod Tests
use back_orbit.Base.{
  ℕ, suc, List, [], ◌∷◌, ◌++◌, Option, none, some, Bool, true, false, not, ◌&&◌, ◌||◌,
  if◌then◌else◌, Bytes, codes, ◌==◌, length, Result, ok, err, ◌>>=◌, ◌>>◌, guard, or_fail,
}
use back_orbit.Base.Paths.{clean, is_abs}
use back_orbit.Base.Text.{bytes_beq, bytes_eq}
use back_orbit.BackupRun.Consistency.{append_unique, sort_texts}
use back_orbit.Images.{has_suffix, to_lower}
use back_orbit.Projects.Sources.{has_prefix}
use back_orbit.Events.Recorder.{Event, EventError, InsertAnswers, Recorder, emit, record_event}
use back_orbit.Projects.Registry.{
  Discovery, Project, ProjectError, audit_failed, database_failed, delete_project, docker_failed,
  get_by_id, insert_project, invalid_path, list_projects, project_not_found, registered,
  unprotected, upsert_all,
}

-- `validateProjectPath`
unfoldable pub validate_project_path : Bytes → Result ProjectError Bytes
validate_project_path path = do
  guard (not (path == [])) invalid_path
  guard (is_abs (clean path)) invalid_path
  ok (clean path)

module _ (V : Type 0) where
  pub record Service : Type 0 where
    pub rows : List Project
    pub recorder : Recorder V

-- A file name that the second loop of `detectComposeFiles` takes. Lower case is that of ASCII.
unfoldable pub is_compose_name : Bytes → Bool
is_compose_name name =
    let plain = to_lower name in
    (has_prefix plain (codes "compose.") || has_prefix plain (codes "docker-compose."))
    && (has_suffix plain (codes ".yml") || has_suffix plain (codes ".yaml"))

abbrev pub known_compose_filenames : List Bytes
known_compose_filenames =
    codes "compose.yml"
    ∷ codes "compose.yaml"
    ∷ codes "docker-compose.yml"
    ∷ codes "docker-compose.yaml"
    ∷ []

unfoldable pub has_text : Bytes → List Bytes → Bool
has_text t [] = false
has_text t (x ∷ xs) = let rest = has_text t xs in x == t || rest

unfoldable pub known_files : List Bytes → List Bytes → List Bytes
known_files found [] = []
known_files found (name ∷ names) =
    let rest = known_files found names in if has_text name found then name ∷ rest else rest

unfoldable pub more_files : List Bytes → List Bytes → List Bytes
more_files files [] = files
more_files files (name ∷ found) =
    more_files (if is_compose_name name then append_unique files name else files) found

-- `detectComposeFiles`: the names of the files of the directory, if it could be read.
unfoldable pub detect_compose_files : Option (List Bytes) → List Bytes
detect_compose_files none = []
detect_compose_files (some found) =
    sort_texts (more_files (known_files found known_compose_filenames) found)

-- A scan: none where Docker is not configured, and none below it where it cannot be asked.
pub record ScanAnswers : Type 0 where
  pub docker : Option (Option (List Discovery))
  pub lists : Bool
  pub audit : InsertAnswers

pub record RegisterAnswers : Type 0 where
  pub new_id : Bytes
  pub now : ℕ
  pub directory : Option (List Bytes)
  pub inserts : Bool
  pub audit : InsertAnswers

pub record RemoveAnswers : Type 0 where
  pub reads : Bool
  pub audit : InsertAnswers
  pub deletes : Bool

module _ {V : Type 0} where
  abbrev pub after_delete :
      Service V → Result ProjectError (List Project) → Result ProjectError (Unit {0}) × Service V
  after_delete s (err e) = (err e, s)
  after_delete s (ok rows) = (ok tt, record s { rows = rows })

  abbrev pub after_audit :
      Bool
      → Bytes
      → Service V
      → Result EventError (Unit {0}) × Recorder V
      → Result ProjectError (Unit {0}) × Service V
  after_audit deletes id s (err e, r) = (err audit_failed, record s { recorder = r })
  after_audit deletes id s (ok _, r) =
      after_delete (record s { recorder = r }) (delete_project deletes id s.rows)

-- The values of metadata: texts, numbers and the mark of what was taken out.
module _ {V : Type 0} (redacted : V) (text : Bytes → V) (number : ℕ → V) where
  abbrev pub scanned_event : Bytes → List Discovery → Event V
  scanned_event actor ds = record {
    id = [];
    action = codes "project.scanned";
    actor_user_id = actor;
    target_type = [];
    target_id = [];
    metadata = some ((codes "discoveredCount", number (length ds)) ∷ []);
    created_at = none;
  }

  abbrev pub after_upserts :
      Bytes
      → ScanAnswers
      → List Discovery
      → Service V
      → Option ProjectError × List Project
      → Result ProjectError (List Project) × Service V
  after_upserts actor a ds s (some e, rows) = (err e, record s { rows = rows })
  after_upserts actor a ds s (none, rows) = (
    list_projects a.lists rows,
    record { rows = rows; recorder = emit redacted a.audit (scanned_event actor ds) s.recorder },
  )

  abbrev pub scan_docker :
      Bytes
      → ScanAnswers
      → Service V
      → Option (Option (List Discovery))
      → Result ProjectError (List Project) × Service V
  scan_docker actor a s none = (list_projects a.lists s.rows, s)
  scan_docker actor a s (some none) = (err docker_failed, s)
  scan_docker actor a s (some (some ds)) = after_upserts actor a ds s (upsert_all ds s.rows)

  -- `Scan`
  unfoldable pub scan :
      Bytes → ScanAnswers → Service V → Result ProjectError (List Project) × Service V
  scan actor a s = scan_docker actor a s a.docker

  abbrev pub registered_project : Bytes → Bytes → RegisterAnswers → Project
  registered_project name path a = record {
    id = a.new_id;
    name = name;
    compose_path = path;
    compose_files = detect_compose_files a.directory;
    source = registered;
    status = unprotected;
    created_at = a.now;
    updated_at = a.now;
  }

  abbrev pub registered_event : Bytes → Project → Event V
  registered_event actor p = record {
    id = [];
    action = codes "project.registered";
    actor_user_id = actor;
    target_type = codes "project";
    target_id = p.id;
    metadata = some (
        (codes "name", text p.name)
        ∷ (codes "composePath", text p.compose_path)
        ∷ (codes "composeFilesFound", number (length p.compose_files))
        ∷ []);
    created_at = none;
  }

  abbrev pub after_insert :
      Bytes
      → RegisterAnswers
      → Project
      → Service V
      → Result ProjectError (List Project)
      → Result ProjectError Project × Service V
  after_insert actor a p s (err e) = (err e, s)
  after_insert actor a p s (ok rows) = (
    ok p,
    record { rows = rows; recorder = emit redacted a.audit (registered_event actor p) s.recorder },
  )

  abbrev pub register_at :
      Bytes
      → Bytes
      → RegisterAnswers
      → Service V
      → Result ProjectError Bytes
      → Result ProjectError Project × Service V
  register_at actor name a s (err e) = (err e, s)
  register_at actor name a s (ok path) =
      let p = registered_project name path a in
      after_insert actor a p s (insert_project a.inserts p s.rows)

  -- `Register`
  unfoldable pub register :
      Bytes → Bytes → Bytes → RegisterAnswers → Service V → Result ProjectError Project × Service V
  register actor name path a s = register_at actor name a s (validate_project_path path)

  abbrev pub removed_event : Bytes → Bytes → Project → Event V
  removed_event actor id p = record {
    id = [];
    action = codes "project.removed";
    actor_user_id = actor;
    target_type = codes "project";
    target_id = id;
    metadata =
        some ((codes "name", text p.name) ∷ (codes "effect", text (codes "registry-only")) ∷ []);
    created_at = none;
  }

  abbrev pub remove_found :
      Bytes
      → Bytes
      → RemoveAnswers
      → Service V
      → Result ProjectError Project
      → Result ProjectError (Unit {0}) × Service V
  remove_found actor id a s (err e) = (err e, s)
  remove_found actor id a s (ok p) =
      after_audit a.deletes id s
        (record_event redacted a.audit (removed_event actor id p) s.recorder)

  -- `Remove`
  unfoldable pub remove :
      Bytes → Bytes → RemoveAnswers → Service V → Result ProjectError (Unit {0}) × Service V
  remove actor id a s =
      remove_found actor id a s
        (guard a.reads database_failed >> or_fail (get_by_id id s.rows) project_not_found)
