-- ===== src/Blueprints/Assignment/Exact.antt =====
-- `assign` as a whole.
use back_orbit.Base.{
  ℕ, zero, suc, ◌<◌, List, [], ◌∷◌, Option, none, some, Bool, true, ◌≡◌, refl, arith, length, Bytes,
  Option-cases, inl, inr,
}
use back_orbit.Base.Assoc.{lookup}
use back_orbit.Base.Distinct.{Distinct-indices, elem, elem-indices, indices}
use back_orbit.Base.Tests.{nat_eq}
use back_orbit.Images.{matches_any}
use back_orbit.Blueprints.Assignment.{Search, assign, fits, group_at, image_at, unassigned}
use back_orbit.Blueprints.Assignment.Moves.{IsConsistent}
use back_orbit.Blueprints.Assignment.Roles.{AreFree, IsFilled, assign_roles-IsFilled}

abbrev pub chosen_for : Option ℕ → ℕ
chosen_for none = 0
chosen_for (some i) = i

-- The image that `assigned` names for a role.
abbrev pub image_of : Bool × Search → ℕ → ℕ
image_of answer r = chosen_for (lookup r answer.1.assigned)

-- A choice of different images for the groups, each of which matches a pattern of its group.
pub record IsAssignment (images : List Bytes) (groups : List (List Bytes)) (choice : ℕ → ℕ)
    : Type 0 where
  pub matched :
      (r : ℕ)
      → r < length groups
      → matches_any (image_at images (choice r)) (group_at groups r) ≡ true
  pub inside : (r : ℕ) → r < length groups → choice r < length images
  pub apart : (r q : ℕ) → r < length groups → q < length groups → choice r ≡ choice q → r ≡ q

fits-bounded :
    (images : List Bytes) (groups : List (List Bytes)) (r i : ℕ)
    → fits images groups r i ≡ true
    → r < length groups
unfolding matches_any
fits-bounded images [] r i h = ground (arith, h)
fits-bounded images (g ∷ groups) zero i h = omega arith
fits-bounded images (g ∷ groups) (suc r) i h = omega (arith, fits-bounded images groups r i h)

module _ (images : List Bytes) (groups : List (List Bytes)) where
  IsConsistent-unassigned : IsConsistent (fits images groups) (indices (length images)) unassigned
  unfolding lookup
  IsConsistent-unassigned = record {
    held = λ r i e. ground (arith, e);
    back = λ r i e. ground (arith, e);
    fit = λ r i e. ground (arith, e);
    known = λ r i e. ground (arith, e);
  }

  assign-IsFilled :
      IsFilled
        (fits images groups)
        (indices (length images))
        (indices (length groups))
        (indices (length groups))
        unassigned
        (assign images groups)
  unfolding assign AreFree lookup
  assign-IsFilled =
      assign_roles-IsFilled (fits images groups) (indices (length images)) (indices (length groups))
        (indices (length groups)) unassigned (λ r e. e) (Distinct-indices (length groups))
        IsConsistent-unassigned (λ r e. refl)

  -- Every role below the number of groups has an image that is noted for it.
  pub image_of-held :
      (assign images groups).0 ≡ true
      → (r : ℕ) → r < length groups
      → lookup r (assign images groups).1.assigned ≡ some (image_of (assign images groups) r)
  image_of-held e r h =
      let inside : elem r (indices (length groups)) ≡ true = (elem-indices (length groups) r).1 h in
      let there = assign-IsFilled.filled e r inside in
      elim (Option-cases (lookup r (assign images groups).1.assigned)) [
        | inl o ↦ elim (there o) [ ]
        | inr (i, o) ↦ rw o refl
      ]

-- `assign` answers that it is complete exactly if different images can be chosen for all groups, each
-- matching its group, whatever order the images stand in; what it has then assigned is such a choice.
pub assign-exact :
    (images : List Bytes) (groups : List (List Bytes))
    → ((assign images groups).0 ≡ true
        → IsAssignment images groups (image_of (assign images groups)))
      × ((choice : ℕ → ℕ) → IsAssignment images groups choice → (assign images groups).0 ≡ true)
assign-exact images groups =
    let shown = assign-IsFilled images groups in
    let size = elem-indices (length groups) in
    (
      λ e. record {
        matched = λ r h. shown.consistent.fit r _ (image_of-held images groups e r h);
        inside = λ r h.
            (elem-indices (length images) _).0
              (shown.consistent.known r _ (image_of-held images groups e r h));
        apart = λ r q hr hq same.
            let left = shown.consistent.held r _ (image_of-held images groups e r hr) in
            let right = shown.consistent.held q _ (image_of-held images groups e q hq) in
            ground (arith, left, right, same);
      },
      λ choice c.
          shown.complete choice
            (record {
              fit = λ r h. c.matched r ((size r).0 h);
              known =
                  λ r h. (elem-indices (length images) (choice r)).1 (c.inside r ((size r).0 h));
              apart = λ r q hr hq. c.apart r q ((size r).0 hr) ((size q).0 hq);
            })
            (λ q i e. (size q).1 (fits-bounded images groups q i e)),
    )
