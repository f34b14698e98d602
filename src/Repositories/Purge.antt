-- ===== src/Repositories/Purge.antt =====
-- internal/repositories/purge.go: the deletion of a repository's data. What the file system answers
-- is a record; the result carries the directory that was handed to `os.RemoveAll`, if one was.
use back_orbit.Base.{
  Bool, true, false, not, Option, none, some, List, [], ◌∷◌, Bytes, codes, if◌then◌else◌, Result,
  ok, err, ◌>>=◌, ◌>>◌, guard,
}
use back_orbit.Base.Paths.{join}
use back_orbit.Repositories.{
  RepositoryError, delete_failed, inspect_failed, not_a_repository, read_failed, resolve_failed,
}

pub data Stat : Type 0 where
  failed plain folder : Stat

pub data Resolution : Type 0 where
  absent unresolvable : Resolution
  resolved : Bytes → Resolution

pub record FileSystem : Type 0 where
  pub eval_symlinks : Bytes → Resolution
  pub lstat : Bytes → Stat
  pub stat : Bytes → Stat
  -- whether a directory has no entries
  pub is_empty_dir : Bytes → Option Bool
  pub remove_all_fails : Bytes → Bool

abbrev pub is_folder : Stat → Bool
is_folder folder = true
is_folder _ = false

abbrev pub is_plain : Stat → Bool
is_plain plain = true
is_plain _ = false

unfoldable pub verify_restic_layout : FileSystem → Bytes → Result RepositoryError (Unit {0})
verify_restic_layout fs dir = do
  guard (is_plain (fs.stat (join dir (codes "config")))) not_a_repository
  guard (is_folder (fs.stat (join dir (codes "keys")))) not_a_repository

unfoldable pub is_empty_dir : FileSystem → Bytes → Result RepositoryError Bool
is_empty_dir fs dir = elim (fs.is_empty_dir dir) [ none ↦ err read_failed | some b ↦ ok b ]

-- The guards, for the directory that the path resolved to: whether it is empty.
unfoldable pub inspect : FileSystem → Bytes → Result RepositoryError Bool
inspect fs dir = elim (fs.lstat dir) [
  | failed ↦ err inspect_failed
  | plain ↦ err not_a_repository
  | folder ↦ do
    empty ← is_empty_dir fs dir
    if empty then ok tt else verify_restic_layout fs dir
    ok empty
]

-- `purgeLocalRepository`
unfoldable pub purge_local_repository :
    FileSystem → Bytes → Result RepositoryError Bool × List Bytes
purge_local_repository fs path = elim (fs.eval_symlinks path) [
  | absent ↦ (ok false, [])
  | unresolvable ↦ (err resolve_failed, [])
  | resolved dir ↦ elim (inspect fs dir) [
    | err e ↦ (err e, [])
    | ok empty ↦ (if fs.remove_all_fails dir then err delete_failed else ok (not empty), dir ∷ [])
  ]
]
