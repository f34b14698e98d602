-- ===== src/Repositories.antt =====
-- internal/repositories: the configured destinations of backups. Here are the types of
-- repository.go, the statements of store.go on the table `repositories`, a list of rows with a
-- primary key and unique names, and the state that the service works on.
pub mod Locations
pub mod Purge
pub mod Service
pub mod Creation
pub mod Checks
pub mod Deletion
mod Tests
use back_orbit.Base.{
  ℕ, Bool, true, false, not, ◌||◌, Option, none, some, List, [], ◌∷◌, ◌++◌, Bytes, codes, ◌==◌,
  if◌then◌else◌, Result, ok, err, ◌>>=◌, ◌>>◌, guard, or_fail,
}
use back_orbit.Base.Text.{bytes_eq}
use back_orbit.Secrets

pub data RepositoryKind : Type 0 where
  local sftp s3 : RepositoryKind
  other_kind : Bytes → RepositoryKind

pub data Status : Type 0 where
  unknown uninitialized ready error : Status

pub record Repository : Type 0 where
  pub id : Bytes
  pub name : Bytes
  pub kind : RepositoryKind
  pub location : Bytes
  pub status : Status
  pub last_error : Bytes
  pub last_checked_at : Option ℕ
  pub created_at : ℕ
  pub updated_at : ℕ

-- The statements on the table that can fail.
pub data DbStep : Type 0 where
  get_row insert_row update_row delete_row : DbStep

pub data RepositoryError : Type 0 where
  repository_not_found name_taken invalid_kind : RepositoryError
  -- empty name, empty password, empty location, relative path; inside or round the data directory; not writable
  empty_name empty_password empty_location relative_location : RepositoryError
  inside_data_dir contains_data_dir not_writable : RepositoryError
  database : DbStep → RepositoryError
  secret : Secrets.Error → RepositoryError
  -- the errors of purge.go
  resolve_failed inspect_failed read_failed delete_failed not_a_repository : RepositoryError
  engine_failed not_audited : RepositoryError

pub data Event : Type 0 where
  repository_created repository_checked repository_initialized : Bytes → Event
  -- whether the data went too
  repository_deleted : Bytes → Bool → Event

-- The tables, the directories that were handed to `os.RemoveAll`, and the events.
pub record State : Type 0 where
  pub rows : List Repository
  pub secrets : Secrets.Store
  pub removed : List Bytes
  pub emitted : List Event

unfoldable pub find_row : Bytes → List Repository → Option Repository
find_row id [] = none
find_row id (r ∷ rs) = let rest = find_row id rs in if r.id == id then some r else rest

unfoldable pub has_name_or_id : Repository → List Repository → Bool
has_name_or_id r [] = false
has_name_or_id r (x ∷ xs) = x.name == r.name || x.id == r.id || has_name_or_id r xs

unfoldable pub delete_rows : Bytes → List Repository → List Repository
delete_rows id [] = []
delete_rows id (r ∷ rs) = let rest = delete_rows id rs in if r.id == id then rest else r ∷ rest

unfoldable pub observe_rows : Bytes → Status → Bytes → ℕ → ℕ → List Repository → List Repository
observe_rows id status last_error checked_at now [] = []
observe_rows id status last_error checked_at now (r ∷ rs) =
    (if r.id == id
      then record r {
        status = status;
        last_error = last_error;
        last_checked_at = some checked_at;
        updated_at = now;
      }
      else r)
    ∷ observe_rows id status last_error checked_at now rs

-- `store.get`
unfoldable pub get : (DbStep → Bool) → Bytes → List Repository → Result RepositoryError Repository
get fails id rows = do
  guard (not (fails get_row)) (database get_row)
  or_fail (find_row id rows) repository_not_found

-- `store.insert`: a unique index that is violated is a taken name, whichever it is.
unfoldable pub insert :
    (DbStep → Bool) → Repository → List Repository → Result RepositoryError (List Repository)
insert fails r rows = do
  guard (not (fails insert_row)) (database insert_row)
  guard (not (has_name_or_id r rows)) name_taken
  ok (rows ++ (r ∷ []))

-- `store.updateStatus`
unfoldable pub update_status :
    (DbStep → Bool)
    → Bytes
    → Status
    → Bytes
    → ℕ
    → ℕ
    → List Repository
    → Result RepositoryError (List Repository)
update_status fails id status last_error checked_at now rows = do
  guard (not (fails update_row)) (database update_row)
  ok (observe_rows id status last_error checked_at now rows)

-- `store.delete`
unfoldable pub delete :
    (DbStep → Bool) → Bytes → List Repository → Result RepositoryError (List Repository)
delete fails id rows = do
  guard (not (fails delete_row)) (database delete_row)
  ok (delete_rows id rows)
