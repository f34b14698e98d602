-- ===== src/Base/Paths.antt =====
-- Go's `filepath` on Unix, by the components of a path.
pub mod Components
use Prim.Native.Nat.{ℕ}
use mathlib.Core.Path.{◌≡◌, refl}
use mathlib.Core.Bool.{Bool, false, ◌||◌}
use mathlib.Core.List.{List, [], ◌∷◌, ◌++◌, reverse}
use back_orbit.Base.Tests.{if◌then◌else◌, nat_beq, ◌==◌}
use back_orbit.Base.Text.{Bytes, codes, trim_right, bytes_eq, bytes_beq}

abbrev pub slash : ℕ
slash = b'/'

abbrev push_byte : ℕ → List Bytes → List Bytes
push_byte c [] = (c ∷ []) ∷ []
push_byte c (w ∷ ws) = (c ∷ w) ∷ ws

-- What stands between the slashes.
unfoldable pub components : Bytes → List Bytes
components [] = [] ∷ []
components (c ∷ cs) =
    let rest = components cs in if nat_beq c slash then [] ∷ rest else push_byte c rest

unfoldable pub is_abs : Bytes → Bool
is_abs [] = false
is_abs (c ∷ _) = nat_beq c slash

abbrev pub dot_dot : Bytes
dot_dot = codes ".."

-- `..` on the components before it, the last first. A rooted path stops at the root.
unfoldable pub up : Bool → List Bytes → List Bytes
up rooted [] = if rooted then [] else dot_dot ∷ []
up rooted (w ∷ ws) = if w == dot_dot then dot_dot ∷ w ∷ ws else ws

-- The elements that `Clean` keeps, the last first.
unfoldable pub resolve : Bool → List Bytes → List Bytes → List Bytes
resolve rooted [] before = before
resolve rooted (w ∷ ws) before = resolve rooted ws (
    if w == [] || w == codes "."
    then before
    else if w == dot_dot
    then up rooted before
    else w ∷ before)

unfoldable pub join_slash : List Bytes → Bytes
join_slash [] = []
join_slash (w ∷ []) = w
join_slash (w ∷ v ∷ ws) = w ++ (slash ∷ join_slash (v ∷ ws))

-- filepath.Clean
unfoldable pub clean : Bytes → Bytes
clean path =
    let rooted = is_abs path in
    let kept = join_slash (reverse (resolve rooted (components path) [])) in
    if rooted then slash ∷ kept else if kept == [] then codes "." else kept

-- filepath.Join of two elements
unfoldable pub join : Bytes → Bytes → Bytes
join a b =
    if a == []
    then (if b == [] then [] else clean b)
    else if b == []
    then clean a
    else clean (a ++ (slash ∷ b))

-- The last of the components.
abbrev last_of : List Bytes → Bytes
last_of [] = []
last_of (w ∷ []) = w
last_of (w ∷ v ∷ ws) = last_of (v ∷ ws)

abbrev pub is_slash : ℕ → Bool
is_slash c = nat_beq c slash

-- filepath.Base
unfoldable pub base : Bytes → Bytes
base path =
    let trimmed = trim_right is_slash path in
    if path == []
    then codes "."
    else if trimmed == []
    then slash ∷ []
    else last_of (components trimmed)

cleaned : clean (codes "/srv//a/./b/../c/") ≡ codes "/srv/a/c"
unfolding clean components resolve up join_slash is_abs bytes_beq
cleaned = refl

above_root : clean (codes "/../../etc") ≡ codes "/etc"
unfolding clean components resolve up join_slash is_abs bytes_beq
above_root = refl

relative : clean (codes "a/../../b") ≡ codes "../b"
unfolding clean components resolve up join_slash is_abs bytes_beq
relative = refl
