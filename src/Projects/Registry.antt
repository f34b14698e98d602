-- ===== src/Projects/Registry.antt =====
-- internal/projects/store.go: the table `projects` with its unique ids and names. Whether the database
-- does what it is asked is an argument of each operation.
pub mod Rows
pub mod Scanned
use back_orbit.Base.{
  ℕ, suc, List, [], ◌∷◌, ◌++◌, Option, none, some, Bool, true, false, not, ◌&&◌, ◌||◌,
  if◌then◌else◌, Bytes, codes, ◌==◌, length, Result, ok, err, ◌>>=◌, ◌>>◌, guard, or_fail,
}
use back_orbit.Base.Paths.{clean, is_abs}
use back_orbit.Base.Text.{bytes_beq, bytes_eq}
use back_orbit.Base.Times.{text_lt}
use back_orbit.BackupRun.Consistency.{append_unique, sort_texts}
use back_orbit.Images.{has_suffix, to_lower}
use back_orbit.Projects.Sources.{has_prefix}
use back_orbit.Events.Recorder.{Event, EventError, InsertAnswers, Recorder, emit, record_event}

pub data Source : Type 0 where
  discovered registered : Source

pub data Status : Type 0 where
  healthy warning failed running paused unprotected : Status

-- `Record` of the source.
pub record Project : Type 0 where
  pub id : Bytes
  pub name : Bytes
  pub compose_path : Bytes
  pub compose_files : List Bytes
  pub source : Source
  pub status : Status
  pub created_at : ℕ
  pub updated_at : ℕ

pub data ProjectError : Type 0 where
  project_exists project_not_found invalid_path database_failed docker_failed audit_failed :
      ProjectError

-- The first row that passes a test; there is at most one for an id or a name.
unfoldable pub find_row : (Project → Bool) → List Project → Option Project
find_row test [] = none
find_row test (p ∷ ps) = let rest = find_row test ps in if test p then some p else rest

abbrev pub has_id : Bytes → Project → Bool
has_id id p = p.id == id

abbrev pub has_name : Bytes → Project → Bool
has_name name p = p.name == name

-- `getByID` and `getByName`, where the query itself works.
abbrev pub get_by_id : Bytes → List Project → Option Project
get_by_id id rows = find_row (has_id id) rows

abbrev pub get_by_name : Bytes → List Project → Option Project
get_by_name name rows = find_row (has_name name) rows

abbrev is_none : Option Project → Bool
is_none none = true
is_none (some _) = false

-- `insert`: the primary key and the unique index on names refuse a second row.
unfoldable pub insert_project : Bool → Project → List Project → Result ProjectError (List Project)
insert_project works p rows = do
  guard works database_failed
  guard (is_none (get_by_id p.id rows) && is_none (get_by_name p.name rows)) project_exists
  ok (rows ++ (p ∷ []))

-- The columns that `update` writes.
abbrev pub updated_row : Project → Project → Project
updated_row p row = record row {
  compose_path = p.compose_path;
  compose_files = p.compose_files;
  status = p.status;
  updated_at = p.updated_at;
}

unfoldable pub update_rows : Project → List Project → List Project
update_rows p [] = []
update_rows p (row ∷ rows) =
    let rest = update_rows p rows in
    if has_id p.id row then updated_row p row ∷ rest else row ∷ rest

-- What Docker tells of one Compose project, and what is answered on the way.
pub record Discovery : Type 0 where
  pub name : Bytes
  pub working_dir : Bytes
  pub config_files : List Bytes
  pub reads : Bool
  pub writes : Bool
  pub now : ℕ
  pub new_id : Bytes

abbrev pub refreshed : Discovery → Project → Project
refreshed d p = record p {
  compose_path = d.working_dir;
  compose_files = d.config_files;
  updated_at = d.now;
}

abbrev pub new_project : Discovery → Project
new_project d = record {
  id = d.new_id;
  name = d.name;
  compose_path = d.working_dir;
  compose_files = d.config_files;
  source = discovered;
  status = unprotected;
  created_at = d.now;
  updated_at = d.now;
}

abbrev pub upsert_found :
    Discovery → Option Project → List Project → Result ProjectError (List Project)
upsert_found d (some p) rows =
    guard d.writes database_failed >> ok (update_rows (refreshed d p) rows)
upsert_found d none rows = insert_project d.writes (new_project d) rows

-- `upsertDiscovered`
unfoldable pub upsert_discovered : Discovery → List Project → Result ProjectError (List Project)
upsert_discovered d rows =
    guard d.reads database_failed >> upsert_found d (get_by_name d.name rows) rows

abbrev pub go_on :
    (List Project → Option ProjectError × List Project)
    → List Project
    → Result ProjectError (List Project)
    → Option ProjectError × List Project
go_on rest rows (err e) = (some e, rows)
go_on rest rows (ok next) = rest next

-- The loop of `Scan`: an error ends it, and what was written before stays.
unfoldable pub upsert_all : List Discovery → List Project → Option ProjectError × List Project
upsert_all [] rows = (none, rows)
upsert_all (d ∷ ds) rows = go_on (upsert_all ds) rows (upsert_discovered d rows)

unfoldable pub delete_id : Bytes → List Project → List Project
delete_id id [] = []
delete_id id (p ∷ ps) = let rest = delete_id id ps in if has_id id p then rest else p ∷ rest

-- `delete`
unfoldable pub delete_project : Bool → Bytes → List Project → Result ProjectError (List Project)
delete_project works id rows = do
  guard works database_failed
  guard (not (is_none (get_by_id id rows))) project_not_found
  ok (delete_id id rows)

-- `list`
unfoldable pub insert_by_name : Project → List Project → List Project
insert_by_name p [] = p ∷ []
insert_by_name p (q ∷ qs) =
    let rest = insert_by_name p qs in if text_lt q.name p.name then q ∷ rest else p ∷ q ∷ qs

unfoldable pub sort_by_name : List Project → List Project
sort_by_name [] = []
sort_by_name (p ∷ ps) = insert_by_name p (sort_by_name ps)

abbrev pub list_projects : Bool → List Project → Result ProjectError (List Project)
list_projects works rows = guard works database_failed >> ok (sort_by_name rows)
