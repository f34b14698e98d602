-- ===== src/Repositories/Service.antt =====
-- internal/repositories/service.go: the operations on repositories, over the table, the secret store
-- and the engine.
use back_orbit.Base.{
  ℕ, Bool, true, false, not, ◌&&◌, Option, none, some, List, [], ◌∷◌, ◌++◌, Bytes, codes, ◌==◌,
  if◌then◌else◌, trim_space, Result, ok, err, ◌>>=◌, ◌>>◌, guard, map_err,
}
use back_orbit.Base.Text.{bytes_eq}
use back_orbit.Base.Paths.{is_abs}
use back_orbit.Crypto.{Primitives}
use back_orbit.Secrets
use back_orbit.Secrets.Access
use back_orbit.Repositories.{
  DbStep, Repository, RepositoryError, RepositoryKind, State, Status, delete, get, insert, local,
  sftp, s3, other_kind, unknown, repository_created, repository_deleted, invalid_kind, empty_name,
  empty_password, empty_location, relative_location, secret, not_audited,
}
use back_orbit.Repositories.Locations.{Locations, refuse_inside_data_dir, validate_local_path}
use back_orbit.Repositories.Purge.{FileSystem, purge_local_repository}

pub record CreateRequest : Type 0 where
  pub name : Bytes
  pub kind : RepositoryKind
  pub location : Bytes
  pub password : Bytes

-- What the clock, the uuid generator, the databases and the file system answer in one call.
pub record Answers : Type 0 where
  pub now : ℕ
  pub checked_at : ℕ
  pub uuid : Bytes
  pub fails : DbStep → Bool
  pub secret_env : Secrets.Env
  pub undo_env : Secrets.Env
  pub cwd : Option Bytes
  pub probe : Bytes → Bool
  pub files : FileSystem
  pub record_fails : Bool

-- What `backup.KindOf` says of an engine's error.
pub data ErrorKind : Type 0 where
  missing_repository existing_repository other_error : ErrorKind

pub record EngineError : Type 0 where
  pub kind : ErrorKind
  pub text : Bytes

pub record RepositoryConfig : Type 0 where
  pub kind : RepositoryKind
  pub location : Bytes
  pub password : Bytes

pub record CheckResult : Type 0 where
  pub status : Status
  pub snapshot_count : ℕ
  pub error : Bytes

abbrev pub repository_kind : Bytes
repository_kind = codes "repository"

unfoldable pub validate_create : CreateRequest → Result RepositoryError (Unit {0})
validate_create req = do
  guard (not (trim_space req.name == [])) empty_name
  guard (not (req.password == [])) empty_password
  guard (not (trim_space req.location == [])) empty_location
  elim req.kind [
    | local ↦ guard (is_abs (trim_space req.location)) relative_location
    | sftp ↦ err invalid_kind
    | s3 ↦ err invalid_kind
    | other_kind _ ↦ err invalid_kind
  ]

abbrev pub is_local : RepositoryKind → Bool
is_local local = true
is_local _ = false

-- The checks of `Create`.
unfoldable pub check_create :
    Answers → Option Locations → CreateRequest → Result RepositoryError (Unit {0})
check_create a places req = do
  validate_create req
  elim places [
    | none ↦ ok tt
    | some l ↦
        if is_local req.kind
        then validate_local_path a.cwd a.probe l (trim_space req.location)
        else ok tt
  ]

abbrev pub new_repository : Answers → CreateRequest → Repository
new_repository a req = record {
  id = a.uuid;
  name = trim_space req.name;
  kind = req.kind;
  location = trim_space req.location;
  status = unknown;
  last_error = [];
  last_checked_at = none;
  created_at = a.now;
  updated_at = a.now;
}

module _ (c : Primitives) where
  -- `Create` behind its checks.
  unfoldable pub store_repository :
      Answers → Repository → Bytes → State → Result RepositoryError Repository × State
  store_repository a r password s =
      let (put, kept) = Access.put c a.secret_env repository_kind r.id password s.secrets in
      elim put [
        | err e ↦ (err (secret e), record s { secrets = kept })
        | ok _ ↦ elim (insert a.fails r s.rows) [
          | err e ↦ (
            err e,
            record s { secrets = (Secrets.delete a.undo_env repository_kind r.id kept).1 },
          )
          | ok rows ↦ (
            ok r,
            record s {
              rows = rows;
              secrets = kept;
              emitted = s.emitted ++ (repository_created r.id ∷ []);
            },
          )
        ]
      ]

  -- `Create`
  unfoldable pub create :
      Answers → Option Locations → CreateRequest → State → Result RepositoryError Repository × State
  create a places req s = elim (check_create a places req) [
    | err e ↦ (err e, s)
    | ok _ ↦ store_repository a (new_repository a req) req.password s
  ]

  -- `engineConfig`
  unfoldable pub engine_config :
      Answers → Bytes → State → Result RepositoryError (RepositoryConfig × Repository)
  engine_config a id s = do
    r ← get a.fails id s.rows
    password ← map_err secret (Access.get c a.secret_env repository_kind r.id s.secrets)
    ok (record { kind = r.kind; location = r.location; password = password }, r)

unfoldable pub allow_purge : Answers → Option Locations → Bytes → Result RepositoryError (Unit {0})
allow_purge a places location = elim places [
  | none ↦ ok tt
  | some l ↦ refuse_inside_data_dir a.cwd l location
]

-- The part of `Delete` that destroys data, when it was asked for: whether data was deleted, and what
-- was handed to `os.RemoveAll`.
unfoldable pub purge_data :
    Answers → Option Locations → Repository → Result RepositoryError Bool × List Bytes
purge_data a places r =
    if is_local r.kind
    then elim (allow_purge a places r.location) [
      | err e ↦ (err e, [])
      | ok _ ↦ purge_local_repository a.files r.location
    ]
    else (err invalid_kind, [])

-- `Delete` behind the deletion of the data.
unfoldable pub delete_configuration :
    Answers → Bytes → Bool → State → Result RepositoryError (Unit {0}) × State
delete_configuration a id data_deleted s = elim (delete a.fails id s.rows) [
  | err e ↦ (err e, s)
  | ok rows ↦
      let (gone, kept) = Secrets.delete a.secret_env repository_kind id s.secrets in
      let s' = record s { rows = rows; secrets = kept } in
      elim gone [
        | err e ↦ (err (secret e), s')
        | ok _ ↦ if data_deleted && a.record_fails then (err not_audited, s') else (
          ok tt,
          record s' { emitted = s.emitted ++ (repository_deleted id data_deleted ∷ []) },
        )
      ]
]

-- `Delete` behind the purge, which gave the answer and the paths.
unfoldable pub after_purge :
    Answers
    → Bytes
    → Result RepositoryError Bool
    → List Bytes
    → State
    → Result RepositoryError (Unit {0}) × State
after_purge a id purged paths s =
    let s' = record s { removed = s.removed ++ paths } in
    elim purged [
      | err e ↦ (err e, s')
      | ok data_deleted ↦ delete_configuration a id data_deleted s'
    ]

-- `Delete`; the flag is `DeleteData`.
unfoldable pub delete_repository :
    Answers → Option Locations → Bytes → Bool → State → Result RepositoryError (Unit {0}) × State
delete_repository a places id with_data s = elim (get a.fails id s.rows) [
  | err e ↦ (err e, s)
  | ok r ↦
      if with_data
      then after_purge a id (purge_data a places r).0 (purge_data a places r).1 s
      else after_purge a id (ok false) [] s
]
