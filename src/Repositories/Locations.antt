-- ===== src/Repositories/Locations.antt =====
-- internal/repositories/locations.go: where a local repository may lie. The file system's answer to
-- the probe of a directory is an argument.
use back_orbit.Base.{
  Bool, true, false, not, ◌||◌, Option, none, some, [], ◌∷◌, ◌++◌, Bytes, ◌==◌, nat_eq,
  if◌then◌else◌, Result, ok, ◌>>◌, guard,
}
use back_orbit.Base.Text.{bytes_eq}
use back_orbit.Base.Paths.{clean, is_abs, join, slash}
use back_orbit.Repositories.{RepositoryError, contains_data_dir, inside_data_dir, not_writable}

pub record Locations : Type 0 where
  pub data_dir : Bytes
  pub backup_dir : Bytes

-- `filepath.Abs` with the working directory, if it is known.
unfoldable pub clean_abs : Option Bytes → Bytes → Bytes
clean_abs cwd path =
    if path == []
    then []
    else if is_abs path
    then clean path
    else elim cwd [ none ↦ clean path | some d ↦ join d path ]

unfoldable pub new_locations : Option Bytes → Bytes → Bytes → Locations
new_locations cwd data_dir backup_dir = record {
  data_dir = clean_abs cwd data_dir;
  backup_dir = clean_abs cwd backup_dir;
}

-- strings.HasPrefix
unfoldable pub has_prefix : Bytes → Bytes → Bool
has_prefix s [] = true
has_prefix [] (p ∷ ps) = false
has_prefix (c ∷ s) (p ∷ ps) = let rest = has_prefix s ps in if c == p then rest else false

unfoldable pub within_or_equal : Bytes → Bytes → Bool
within_or_equal child root = child == root || has_prefix child (root ++ (slash ∷ []))

unfoldable pub refuse_inside_data_dir :
    Option Bytes → Locations → Bytes → Result RepositoryError (Unit {0})
refuse_inside_data_dir cwd l path = if l.data_dir == [] then ok tt else do
  guard (not (within_or_equal (clean_abs cwd path) l.data_dir)) inside_data_dir
  guard (not (within_or_equal l.data_dir (clean_abs cwd path))) contains_data_dir

-- `probe` is what `probeWritable` finds.
unfoldable pub validate_local_path :
    Option Bytes → (Bytes → Bool) → Locations → Bytes → Result RepositoryError (Unit {0})
validate_local_path cwd probe l path = do
  refuse_inside_data_dir cwd l path
  guard (probe (clean_abs cwd path)) not_writable
