-- ===== src/BackupRun/Consistency.antt =====
-- internal/backuprun/consistency.go: the warnings on databases that were copied as files.
pub mod Warned
use back_orbit.Base.{
  ℕ, Bool, true, false, not, ◌&&◌, ◌||◌, Option, none, some, List, [], ◌∷◌, ◌++◌, Bytes, codes,
  ◌==◌, if◌then◌else◌, ltb, nat_beq, map,
}
use back_orbit.Base.Assoc.{Assoc, lookup, insert}
use back_orbit.Base.Times.{text_lt}
use back_orbit.Base.Text.{bytes_eq}
use back_orbit.BackupRun.{Answers, Finding, Warning, copied_as_files, for_warnings}
use back_orbit.BackupRun.Dumps.{key_of, is_database}

-- `serverDatabases`
unfoldable pub server_database : Bytes → Option Bytes
server_database t =
    if t == codes "postgresql"
    then some (codes "PostgreSQL")
    else if t == codes "mysql"
    then some (codes "MySQL")
    else if t == codes "mariadb"
    then some (codes "MariaDB")
    else if t == codes "mongodb"
    then some (codes "MongoDB")
    else if t == codes "redis"
    then some (codes "Redis")
    else if t == codes "valkey"
    then some (codes "Valkey")
    else none

unfoldable pub append_unique : List Bytes → Bytes → List Bytes
append_unique [] v = v ∷ []
append_unique (x ∷ xs) v = let rest = append_unique xs v in if x == v then x ∷ xs else x ∷ rest

-- sort.Strings
unfoldable pub insert_sorted : Bytes → List Bytes → List Bytes
insert_sorted v [] = v ∷ []
insert_sorted v (x ∷ xs) =
    let rest = insert_sorted v xs in if text_lt x v then x ∷ rest else v ∷ x ∷ xs

unfoldable pub sort_texts : List Bytes → List Bytes
sort_texts [] = []
sort_texts (x ∷ xs) = insert_sorted x (sort_texts xs)

abbrev pub names_in : Option (List Bytes) → List Bytes
names_in none = []
names_in (some names) = names

abbrev pub names_of : Assoc Bytes (List Bytes) → Bytes → List Bytes
names_of m label = names_in (lookup label m)

-- The test of `services[label]`, and the entry it makes.
unfoldable pub note_service : Bytes → Bytes → Assoc Bytes (List Bytes) → Assoc Bytes (List Bytes)
note_service label service m =
    if service == []
    then elim (lookup label m) [ none ↦ insert label [] m | some names ↦ m ]
    else insert label (append_unique (names_of m label) service) m

-- One turn of the loop over the findings.
unfoldable pub note_finding :
    (Bytes → Bool) → Finding → Assoc Bytes (List Bytes) → Assoc Bytes (List Bytes)
note_finding dumped f m =
    if is_database f
    then elim (server_database f.technology) [
      | none ↦ m
      | some label ↦ if dumped (key_of f) then m else note_service label f.service m
    ]
    else m

unfoldable pub note_findings :
    (Bytes → Bool) → List Finding → Assoc Bytes (List Bytes) → Assoc Bytes (List Bytes)
note_findings dumped [] m = m
note_findings dumped (f ∷ fs) m = note_findings dumped fs (note_finding dumped f m)

abbrev pub labels : Assoc Bytes (List Bytes) → List Bytes
labels [] = []
labels ((l, _) ∷ m) = l ∷ labels m

abbrev pub copied_warning : Assoc Bytes (List Bytes) → Bytes → Warning
copied_warning m label = copied_as_files label (sort_texts (names_of m label))

unfoldable pub database_consistency_warnings : Answers → Bytes → (Bytes → Bool) → List Warning
database_consistency_warnings a project_id dumped =
    if not a.has_blueprints || project_id == [] then [] else elim (a.blueprint for_warnings) [
      | none ↦ []
      | some findings ↦
          let services = note_findings dumped findings [] in
          map (copied_warning services) (sort_texts (labels services))
    ]
