-- ===== src/Images.antt =====
-- internal/imageref/imageref.go: whether an image is the software that a pattern names. References
-- are bytes; lower case and white space are those of ASCII.
pub mod Segments
mod Tests
use back_orbit.Base.{
  ℕ, ◌+◌, List, [], ◌∷◌, ◌++◌, Option, none, some, Bool, true, false, not, ◌&&◌, ◌||◌,
  if◌then◌else◌, leb, nat_beq, Bytes, codes, ◌==◌, map, ◌≡◌, refl,
}
use back_orbit.Base.Text.{bytes_beq, bytes_eq, trim, trim_left, trim_right, trim_space}
use back_orbit.Base.Paths.{slash, is_slash}

-- strings.ToLower
abbrev pub lower : ℕ → ℕ
lower c = if leb b'A' c && leb c b'Z' then c + 32 else c

abbrev pub to_lower : Bytes → Bytes
to_lower = map lower

-- The pattern as it is compared.
unfoldable pub normal_pattern : Bytes → Bytes
normal_pattern pattern = trim is_slash (to_lower (trim_space pattern))

-- strings.HasSuffix
unfoldable pub has_suffix : Bytes → Bytes → Bool
has_suffix [] suffix = bytes_beq [] suffix
has_suffix (c ∷ cs) suffix = let rest = has_suffix cs suffix in bytes_beq (c ∷ cs) suffix || rest

unfoldable pub matches_normal : Bytes → Bytes → Bool
matches_normal path pattern =
    if pattern == [] || path == []
    then false
    else if path == pattern
    then true
    else has_suffix path (slash ∷ pattern)

-- `Matches`
abbrev pub matches : Bytes → Bytes → Bool
matches path pattern = matches_normal path (normal_pattern pattern)

-- `MatchesAny`
unfoldable pub matches_any : Bytes → List Bytes → Bool
matches_any path [] = false
matches_any path (pattern ∷ patterns) =
    let rest = matches_any path patterns in matches path pattern || rest

-- strings.ContainsAny, and what stands before and behind the first such byte.
module _ (found : ℕ → Bool) where
  unfoldable pub contains : Bytes → Bool
  contains [] = false
  contains (c ∷ cs) = let rest = contains cs in found c || rest

  unfoldable pub before : Bytes → Bytes
  before [] = []
  before (c ∷ cs) = let rest = before cs in if found c then [] else c ∷ rest

  unfoldable pub behind : Bytes → Bytes
  behind [] = []
  behind (c ∷ cs) = let rest = behind cs in if found c then cs else rest

abbrev pub is_at : ℕ → Bool
is_at c = nat_beq c b'@'

abbrev pub is_colon : ℕ → Bool
is_colon c = nat_beq c b':'

abbrev pub is_host_byte : ℕ → Bool
is_host_byte c = nat_beq c b'.' || nat_beq c b':'

-- A colon behind the last slash starts a tag.
unfoldable pub cut_tag : Bytes → Bytes
cut_tag [] = []
cut_tag (c ∷ cs) =
    let rest = cut_tag cs in
    if contains is_slash (c ∷ cs) then c ∷ rest else before is_colon (c ∷ cs)

abbrev pub is_host : Bytes → Bool
is_host head = contains is_host_byte head || head == codes "localhost"

-- The first component is a registry if it looks like a host.
unfoldable pub cut_registry : Bytes → Bytes
cut_registry image =
    let head = before is_slash image in
    if contains is_slash image && not (head == []) && is_host head
    then behind is_slash image
    else image

-- `RepositoryPath`
unfoldable pub repository_path : Bytes → Bytes
repository_path image =
    trim is_slash (cut_registry (cut_tag (before is_at (to_lower (trim_space image)))))

-- `RepositoryPaths`
unfoldable pub repository_paths : List Bytes → List Bytes
repository_paths [] = []
repository_paths (image ∷ images) =
    let rest = repository_paths images in
    let path = repository_path image in if path == [] then rest else path ∷ rest

-- `LastSegment`
unfoldable pub last_segment : Bytes → Bytes
last_segment [] = []
last_segment (c ∷ cs) =
    let rest = last_segment cs in
    if contains is_slash cs then rest else if is_slash c then cs else c ∷ cs
