-- ===== src/Blueprints/Assignment/Augment.antt =====
-- The search for one role: it ends, and either gives the role an image or leaves every assignment.
use back_orbit.Base.{
  ℕ, zero, suc, ◌+◌, ◌≤◌, ◌<◌, List, [], ◌∷◌, some, Bool, true, false, not, ◌||◌, ◌≡◌, arith,
  length, Bool-cases, Option-cases, inl, inr,
}
use back_orbit.Base.Assoc.{lookup}
use back_orbit.Base.Distinct.{elem, length-le_of_Distinct}
use back_orbit.Base.Tests.{nat_eq}
use back_orbit.Blueprints.Assignment.{Search, augment, mark, take_moved, try_image, try_images}
use back_orbit.Blueprints.Assignment.Stuck.{
  IsStuck-nil, IsStuck-skip, IsReady-mark, IsReady-stuck, IsMoved-stuck, IsStuck-deeper,
}
use back_orbit.Blueprints.Assignment.Moves.{IsMoved, IsMoved-place, IsMoved-take, IsReady, IsStuck}

module _ (fits : ℕ → ℕ → Bool) (images : List ℕ) where
  abbrev pub IsAnswer : ℕ → List ℕ → Search → Bool × Search → Type 0
  IsAnswer role todo s (true, t) = IsMoved fits images role s t
  IsAnswer role todo s (false, t) = IsStuck fits images role todo s t

  -- Every image that is not marked yet costs one unit of fuel.
  abbrev pub IsFueled : ℕ → Search → Type 0
  IsFueled fuel s = length images < fuel + length s.visited

  -- What the recursive call does, where it has fuel for it.
  abbrev Answers : ℕ → (ℕ → Search → Bool × Search) → Type 0
  Answers fuel move =
      (holder : ℕ) (s : Search)
      → IsReady fits images holder s
      → IsFueled fuel s
      → IsAnswer holder images s (move holder s)

  module _ (fuel : ℕ) (move : ℕ → Search → Bool × Search) (answers : Answers fuel move) where
    abbrev IsRest : ℕ → List ℕ → (Search → Bool × Search) → Type 0
    IsRest role rest others =
        (s : Search)
        → IsReady fits images role s
        → IsFueled (suc fuel) s
        → IsAnswer role rest s (others s)

    take_moved-IsAnswer :
        (role index holder : ℕ) (rest : List ℕ) (others : Search → Bool × Search) (s : Search)
        (r : Bool × Search)
        → IsRest role rest others
        → IsReady fits images role s
        → IsFueled (suc fuel) s
        → elem index images ≡ true
        → fits role index ≡ true
        → elem index s.visited ≡ false
        → lookup index s.role_of ≡ some holder
        → IsAnswer holder images (mark index s) r
        → IsAnswer role (index ∷ rest) s (take_moved move others role index r)
    take_moved-IsAnswer role index holder rest others s (true, t) ih h _ inside fit fresh taken m =
        IsMoved-take fits images role index holder s t h inside fit fresh taken m
    take_moved-IsAnswer role index holder rest others s (false, t) ih h f inside fit fresh taken k =
        after (others t)
          (ih t (IsReady-stuck fits images role index holder s t h k) (omega (arith, f, k.longer)))
      where
        after : (r : Bool × Search) → IsAnswer role rest t r → IsAnswer role (index ∷ rest) s r
        after (true, u) m = IsMoved-stuck fits images role index holder s t u k m
        after (false, u) m = IsStuck-deeper fits images role index holder rest s t u taken k m

    try_image-IsAnswer :
        (role index : ℕ) (rest : List ℕ) (others : Search → Bool × Search) (s : Search)
        → IsRest role rest others
        → IsReady fits images role s
        → IsFueled (suc fuel) s
        → elem index images ≡ true
        → IsAnswer role
            (index ∷ rest)
            s
            (try_image move others role index (elem index s.visited || not (fits role index)) s)
    try_image-IsAnswer role index rest others s ih h f inside =
        elim (Bool-cases (elem index s.visited || not (fits role index))) [
          | inl skip ↦ rw skip (skipped skip (others s) (ih s h f))
          | inr tried ↦ rw tried (elim (Option-cases (lookup index s.role_of)) [
            | inl free ↦ rw free (
                IsMoved-place fits images role index s h inside (ground (arith, tried))
                  (ground (arith, tried)) free)
            | inr (holder, taken) ↦ rw taken (
                take_moved-IsAnswer role index holder rest others s (move holder (mark index s)) ih
                  h f inside (ground (arith, tried)) (ground (arith, tried)) taken
                  (answers holder (mark index s)
                    (IsReady-mark fits images role index holder s h inside (ground (arith, tried))
                      taken)
                    (omega (arith, f))))
          ])
        ]
      where
        skipped :
            (elem index s.visited || not (fits role index)) ≡ true
            → (r : Bool × Search) → IsAnswer role rest s r
            → IsAnswer role (index ∷ rest) s r
        skipped skip (true, t) m = m
        skipped skip (false, t) k = IsStuck-skip fits images role index rest s t skip k

    try_images-IsAnswer :
        (role : ℕ) (todo : List ℕ)
        → ((i : ℕ) → elem i todo ≡ true → elem i images ≡ true)
        → IsRest role todo (try_images fits move role todo)
    unfolding try_images
    try_images-IsAnswer role [] inside s h f = IsStuck-nil fits images role s h
    try_images-IsAnswer role (index ∷ rest) inside s h f =
        try_image-IsAnswer role index rest (try_images fits move role rest) s
          (try_images-IsAnswer role rest (λ i e. inside i (ground (arith, e)))) h f
          (inside index (ground arith))

  -- With fuel for every image the search is never cut short.
  pub augment-IsAnswer :
      (fuel role : ℕ) (s : Search)
      → IsReady fits images role s
      → IsFueled fuel s
      → IsAnswer role images s (augment fits fuel images role s)
  unfolding augment
  augment-IsAnswer zero role s h f =
      let bound : length s.visited ≤ length images =
        length-le_of_Distinct s.visited images h.marked.distinct h.marked.within in
      absurd (omega (arith, f, bound))
  augment-IsAnswer (suc fuel) role s h f =
      try_images-IsAnswer fuel (augment fits fuel images) (augment-IsAnswer fuel) role images
        (λ i e. e) s h f
