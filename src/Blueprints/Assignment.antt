-- ===== src/Blueprints/Assignment.antt =====
-- internal/protectionblueprints/match.go, `assign`: every required role gets an image of its own.
-- Images and roles are their indices. `visited` lists the indices whose flag is set; in `role_of` and
-- `assigned` an index without an entry stands for -1.
pub mod Moves
pub mod Stuck
pub mod Augment
pub mod Complete
pub mod Roles
pub mod Exact
use back_orbit.Base.{
  ℕ, zero, suc, List, Bytes, [], ◌∷◌, Option, none, some, Bool, true, false, not, ◌&&◌, ◌||◌,
  nat_beq, length,
}
use back_orbit.Base.Assoc.{Assoc, insert, lookup}
use back_orbit.Base.Distinct.{elem, indices}
use back_orbit.Base.Tests.{nat_eq}
use back_orbit.Images.{matches_any}

pub record Search : Type 0 where
  pub visited : List ℕ
  pub role_of : Assoc ℕ ℕ
  pub assigned : Assoc ℕ ℕ

abbrev pub mark : ℕ → Search → Search
mark index s = record s { visited = index ∷ s.visited }

abbrev pub place : ℕ → ℕ → Search → Search
place role index s = record s {
  role_of = insert index role s.role_of;
  assigned = insert role index s.assigned;
}

-- The parts of one round of the loop: `move` is the recursive call for the holder of an image,
-- `others` the rest of the loop.
module _ (move : ℕ → Search → Bool × Search) (others : Search → Bool × Search)
    (role index : ℕ) where
  abbrev pub take_moved : Bool × Search → Bool × Search
  take_moved (true, s) = (true, place role index s)
  take_moved (false, s) = others s

  abbrev pub take_from : Option ℕ → Search → Bool × Search
  take_from none s = (true, place role index s)
  take_from (some holder) s = take_moved (move holder s)

  abbrev pub try_image : Bool → Search → Bool × Search
  try_image true s = others s
  try_image false s = take_from (lookup index s.role_of) (mark index s)

module _ (fits : ℕ → ℕ → Bool) where
  unfoldable pub try_images : (ℕ → Search → Bool × Search) → ℕ → List ℕ → Search → Bool × Search
  try_images move role [] s = (false, s)
  try_images move role (index ∷ rest) s =
      let others = try_images move role rest in
      try_image move others role index (elem index s.visited || not (fits role index)) s

  -- `augment`. Every call that goes deeper has marked one more image.
  unfoldable pub augment : ℕ → List ℕ → ℕ → Search → Bool × Search
  augment zero images role s = (false, s)
  augment (suc fuel) images role s = try_images (augment fuel images) role images s

  -- The loop over the roles, each with fresh flags.
  unfoldable pub assign_roles : List ℕ → List ℕ → Search → Bool × Search
  assign_roles images [] s = (true, s)
  assign_roles images (role ∷ roles) s =
      let (found, next) = augment (suc (length images)) images role (record s { visited = [] }) in
      let (complete, last) = assign_roles images roles next in (found && complete, last)

-- The element at an index; where there is none, the empty value, which fits nothing.
abbrev pub image_at : List Bytes → ℕ → Bytes
image_at [] i = []
image_at (x ∷ xs) zero = x
image_at (x ∷ xs) (suc i) = image_at xs i

abbrev pub group_at : List (List Bytes) → ℕ → List Bytes
group_at [] i = []
group_at (x ∷ xs) zero = x
group_at (x ∷ xs) (suc i) = group_at xs i

abbrev pub fits : List Bytes → List (List Bytes) → ℕ → ℕ → Bool
fits images groups role index = matches_any (image_at images index) (group_at groups role)

abbrev pub unassigned : Search
unassigned = record { visited = []; role_of = []; assigned = [] }

-- `assign`
unfoldable pub assign : List Bytes → List (List Bytes) → Bool × Search
assign images groups =
    assign_roles (fits images groups) (indices (length images)) (indices (length groups)) unassigned
