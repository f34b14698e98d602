-- ===== src/BackupRun/Dumps.antt =====
-- internal/backuprun/dumps.go: the exports of a run and what its manifest says of each database.
pub mod Accounted
use back_orbit.Base.{
  ℕ, Bool, true, false, not, ◌&&◌, ◌||◌, Option, none, some, List, [], ◌∷◌, ◌++◌, Bytes, codes,
  ◌==◌, if◌then◌else◌, Result, ok, err, ◌>>=◌, map_err, map,
}
use back_orbit.Base.Assoc.{Assoc, lookup, insert}
use back_orbit.Base.Text.{bytes_eq}
use back_orbit.BackupRun.{
  Answers, BackupSource, Confidence, confirmed, probable, possible, Container, DatabaseDump, Dump,
  Exporter, ExternalError, Finding, ProtectionLevel, exported, consistent, files_only, RestoreCheck,
  Target, VolumeManifest, SqliteCapture, Warning, not_running, not_exported, not_test_restored,
  did_not_load, for_dumps, for_manifest, Run,
}

-- `dumpEngines`
unfoldable pub is_dump_engine : Bytes → Bool
is_dump_engine t =
    t == codes "postgresql" || t == codes "mysql" || t == codes "mariadb" || t == codes "mongodb"

-- `credentialKeys`
unfoldable pub user_keys : Bytes → List Bytes
user_keys t =
    if t == codes "postgresql"
    then codes "POSTGRES_USER" ∷ []
    else if t == codes "mysql"
    then codes "MYSQL_ROOT_USER" ∷ []
    else if t == codes "mariadb"
    then codes "MARIADB_ROOT_USER" ∷ []
    else if t == codes "mongodb"
    then codes "MONGO_INITDB_ROOT_USERNAME" ∷ []
    else []

unfoldable pub password_keys : Bytes → List Bytes
password_keys t =
    if t == codes "mysql"
    then codes "MYSQL_ROOT_PASSWORD" ∷ codes "MARIADB_ROOT_PASSWORD" ∷ []
    else if t == codes "mariadb"
    then codes "MARIADB_ROOT_PASSWORD" ∷ codes "MYSQL_ROOT_PASSWORD" ∷ []
    else if t == codes "mongodb"
    then codes "MONGO_INITDB_ROOT_PASSWORD" ∷ []
    else []

pub record DumpResult : Type 0 where
  pub dump : Dump
  pub key : Bytes
  pub check : Option RestoreCheck

-- finding.Service + ":" + finding.Technology
abbrev pub key_of : Finding → Bytes
key_of f = f.service ++ (codes ":" ++ f.technology)

abbrev pub is_database : Finding → Bool
is_database f = f.kind == codes "database"

abbrev pub is_possible : Confidence → Bool
is_possible possible = true
is_possible _ = false

-- `containers[container.Service] = container` for every container of a service
unfoldable pub by_service : Assoc Bytes Container → List Container → Assoc Bytes Container
by_service m [] = m
by_service m (c ∷ cs) = by_service (if c.service == [] then m else insert c.service c m) cs

abbrev pub is_exportable : Finding → Bool
is_exportable f = is_database f && is_dump_engine f.technology && not (is_possible f.confidence)

abbrev pub running_container : Assoc Bytes Container → Finding → Option Container
running_container containers f = elim (lookup f.service containers) [
  | none ↦ none
  | some c ↦ if c.id == [] then none else some c
]

abbrev wrap : Bytes → ExternalError → ExternalError
wrap prefix e = record e { text = prefix ++ e.text }

module _ (a : Answers) where
  unfoldable pub first_env_value : Bytes → List Bytes → Result ExternalError Bytes
  first_env_value container [] = ok []
  first_env_value container (key ∷ keys) = do
    value ← a.env_value container key
    if value == [] then first_env_value container keys else ok value

  -- The last `switch` of `dumpOne`.
  unfoldable pub export_with : Bytes → Target → Result ExternalError Dump
  export_with t target =
      if t == codes "postgresql"
      then a.exporter Exporter.postgresql target
      else if t == codes "mysql" || t == codes "mariadb"
      then a.exporter Exporter.mysql target
      else if t == codes "mongodb"
      then a.exporter Exporter.mongodb target
      else err (record {
        text = codes "no exporter for " ++ t;
        is_canceled = false;
        kind_is_cancelled = false;
      })

  unfoldable pub dump_one : Finding → Container → Result ExternalError Dump
  dump_one f c = do
    user ←
        map_err (wrap (codes "read the database user: "))
          (first_env_value c.id (user_keys f.technology))
    password ←
        map_err (wrap (codes "read the database credentials: "))
          (first_env_value c.id (password_keys f.technology))
    export_with f.technology (record {
      technology = f.technology;
      service = f.service;
      container_id = c.id;
      user = user;
      password = password;
    })

  -- The `switch` behind `verifyRestores`.
  unfoldable pub test_restore : Finding → Container → Dump → Option RestoreCheck × List Warning
  test_restore f c d = elim (a.verify_restorable c.image d) [
    | err e ↦ (none, not_test_restored f.technology f.service e.text ∷ [])
    | ok check ↦ (
      some check,
      if check.loaded then [] else did_not_load f.technology f.service check.detail ∷ [],
    )
  ]

  -- The part of the loop's body behind the look-up of the container.
  unfoldable pub export_from : Bool → Finding → Container → List DumpResult × List Warning
  export_from verify_restores f c = elim (dump_one f c) [
    | err e ↦ ([], not_exported f.technology f.service e.text ∷ [])
    | ok d ↦
        let checked = if verify_restores then test_restore f c d else (none, []) in
        (record { dump = d; key = key_of f; check = checked.0 } ∷ [], checked.1)
  ]

  -- One turn of the loop over the findings: the dump it adds, if any, and its warnings.
  unfoldable pub dump_finding :
      Bool → Assoc Bytes Container → Finding → List DumpResult × List Warning
  dump_finding verify_restores containers f =
      if is_exportable f
      then elim (running_container containers f) [
        | none ↦ ([], not_running f.technology f.service ∷ [])
        | some c ↦ export_from verify_restores f c
      ]
      else ([], [])

  unfoldable pub dump_findings :
      Bool → Assoc Bytes Container → List Finding → List DumpResult × List Warning
  dump_findings verify_restores containers [] = ([], [])
  dump_findings verify_restores containers (f ∷ fs) =
      let now = dump_finding verify_restores containers f in
      let later = dump_findings verify_restores containers fs in
      (now.0 ++ later.0, now.1 ++ later.1)

  -- The dumps, and the warnings that are appended to the run's.
  unfoldable pub dump_databases : Run → List Container → List DumpResult × List Warning
  dump_databases run containers =
      if not a.has_blueprints || not a.has_docker || run.project_id == []
      then ([], [])
      else elim (a.blueprint for_dumps) [
        | none ↦ ([], [])
        | some findings ↦ dump_findings run.verify_restores (by_service [] containers) findings
      ]

-- `dumpedKeys`, and `exported` of `manifestEntries`
unfoldable pub is_dumped : List DumpResult → Bytes → Bool
is_dumped [] key = false
is_dumped (d ∷ ds) key = d.key == key || is_dumped ds key

abbrev exported_entry : DumpResult → DatabaseDump
exported_entry d = record {
  technology = d.dump.technology;
  service = d.dump.service;
  level = exported;
  path = d.dump.path;
  command = d.dump.command;
  user = d.dump.user;
  bytes = d.dump.bytes;
  note = [];
  restore_check = d.check;
}

abbrev sqlite_entry : Bytes → SqliteCapture → DatabaseDump
sqlite_entry volume capture = record {
  technology = codes "sqlite";
  service = volume;
  level = consistent;
  path = volume ++ (codes "/" ++ capture.path);
  command = [];
  user = [];
  bytes = capture.bytes;
  note = capture.method;
  restore_check = none;
}

abbrev pub not_exported_note : Bytes
not_exported_note =
    codes
      "Back-Orbit does not export this engine yet, so only its data directory was copied. That restores if the service was stopped, and may not if it was running."

abbrev files_entry : Finding → DatabaseDump
files_entry f = record {
  technology = f.technology;
  service = f.service;
  level = files_only;
  path = [];
  command = [];
  user = [];
  bytes = 0;
  note = not_exported_note;
  restore_check = none;
}

unfoldable pub sqlite_entries : List VolumeManifest → List DatabaseDump
sqlite_entries [] = []
sqlite_entries (v ∷ vs) = map (sqlite_entry v.name) v.sqlite_databases ++ sqlite_entries vs

abbrev pub is_listed_as_files : List DumpResult → Finding → Bool
is_listed_as_files dumps f =
    is_database f
    && not (f.technology == codes "sqlite")
    && not (is_possible f.confidence)
    && not (is_dumped dumps (key_of f))

-- The last loop.
unfoldable pub files_entries : List DumpResult → List Finding → List DatabaseDump
files_entries dumps [] = []
files_entries dumps (f ∷ fs) =
    let rest = files_entries dumps fs in
    if is_listed_as_files dumps f then files_entry f ∷ rest else rest

module _ (a : Answers) where
  unfoldable pub found_entries : Bytes → List DumpResult → List DatabaseDump
  found_entries project_id dumps =
      if not a.has_blueprints || project_id == [] then [] else elim (a.blueprint for_manifest) [
        | none ↦ []
        | some findings ↦ files_entries dumps findings
      ]

  unfoldable pub manifest_entries : Run → List DumpResult → List VolumeManifest → List DatabaseDump
  manifest_entries run dumps volumes =
      map exported_entry dumps ++ (sqlite_entries volumes ++ found_entries run.project_id dumps)
