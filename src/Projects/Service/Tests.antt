-- ===== src/Projects/Service/Tests.antt =====
-- A registry with one project.
use back_orbit.Base.{ℕ, List, [], ◌∷◌, some, true, ◌≡◌, ◌⊎◌, refl, Bytes, codes, ok, err}
use back_orbit.Base.Paths.{clean, components, is_abs, join_slash, resolve, up}
use back_orbit.Base.Text.{bytes_beq}
use back_orbit.Base.Times.{text_lt}
use back_orbit.BackupRun.Consistency.{append_unique, insert_sorted, sort_texts}
use back_orbit.Events.Broker.{new_broker}
use back_orbit.Events.Recorder.{InsertAnswers}
use back_orbit.Images.{has_suffix}
use back_orbit.Projects.Registry.{
  Discovery, Project, ProjectError, discovered, find_row, healthy, unprotected, insert_project,
  registered, update_rows, upsert_all, upsert_discovered,
}
use back_orbit.Projects.Registry.Scanned.{KeepsRows, Registered}
use back_orbit.Projects.Service.{
  RemoveAnswers, ScanAnswers, Service, detect_compose_files, has_text, is_compose_name, known_files,
  more_files, remove, scan, validate_project_path,
}
use back_orbit.Projects.Service.Kept.{scan-KeepsRows}
use back_orbit.Projects.Service.Removed.{IsForgotten, remove-IsForgotten}
use back_orbit.Projects.Sources.{has_prefix}

abbrev shop : Project
shop = record {
  id = codes "p1";
  name = codes "shop";
  compose_path = codes "/srv/shop";
  compose_files = [];
  source = registered;
  status = healthy;
  created_at = 1;
  updated_at = 1;
}

abbrev service : Service Bytes
service = record { rows = shop ∷ []; recorder = record { log = []; broker = new_broker } }

abbrev stored : InsertAnswers
stored = record { new_id = codes "e1"; now = 5; encodes = true; inserts = true }

abbrev seen : Bytes → Bytes → Discovery
seen name id = record {
  name = name;
  working_dir = codes "/new";
  config_files = [];
  reads = true;
  writes = true;
  now = 5;
  new_id = id;
}

abbrev both : List Discovery
both = seen (codes "shop") (codes "p2") ∷ seen (codes "blog") (codes "p3") ∷ []

abbrev scanned : ScanAnswers
scanned = record { docker = some (some both); lists = true; audit = stored }

abbrev text : Bytes → Bytes
text t = t

abbrev number : ℕ → Bytes
number n = n ∷ []

scan-KeepsRows_example :
    KeepsRows (shop ∷ []) (scan [] text number (codes "u") scanned service).1.rows
    × ((ds : List Discovery) (listed : List Project)
        → some (some both) ≡ some (some ds)
        → (scan [] text number (codes "u") scanned service).0 ≡ ok listed
        → Registered ds (scan [] text number (codes "u") scanned service).1.rows)
unfolding find_row
scan-KeepsRows_example = scan-KeepsRows [] text number (codes "u") scanned service (refl, tt)

-- The known project keeps its id, source and status; the other one is new.
rescanned :
    (scan [] text number (codes "u") scanned service).1.rows
    ≡ (record shop { compose_path = codes "/new"; updated_at = 5 })
      ∷ (record shop {
        id = codes "p3";
        name = codes "blog";
        compose_path = codes "/new";
        source = discovered;
        status = unprotected;
        created_at = 5;
        updated_at = 5;
      })
      ∷ []
unfolding scan upsert_all upsert_discovered insert_project update_rows find_row bytes_beq
rescanned = refl

abbrev removal : RemoveAnswers
removal = record { reads = true; audit = stored; deletes = true }

remove-IsForgotten_example :
    (((remove [] text number (codes "u") (codes "p1") removal service).0 ≡ ok tt)
      × IsForgotten
          (codes "p1")
          service
          (remove [] text number (codes "u") (codes "p1") removal service).1)
    ⊎ (((e : ProjectError) × ((remove [] text number (codes "u") (codes "p1") removal service).0
            ≡ err e))
        × ((remove [] text number (codes "u") (codes "p1") removal service).1.rows ≡ shop ∷ []))
remove-IsForgotten_example =
    remove-IsForgotten [] text number (codes "u") (codes "p1") removal service

compose_files :
    detect_compose_files
      (some (codes "readme.md" ∷ codes "docker-compose.prod.yml" ∷ codes "compose.yml" ∷ []))
    ≡ codes "compose.yml" ∷ codes "docker-compose.prod.yml" ∷ []
unfolding detect_compose_files known_files more_files is_compose_name has_text has_prefix has_suffix
    bytes_beq append_unique sort_texts insert_sorted text_lt
compose_files = refl

no_way_up : validate_project_path (codes "/srv/../../etc/") ≡ ok (codes "/etc")
unfolding validate_project_path clean components resolve join_slash is_abs bytes_beq up
no_way_up = refl
