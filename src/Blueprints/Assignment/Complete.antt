-- ===== src/Blueprints/Assignment/Complete.antt =====
-- A search fails only where no assignment of all roles exists.
use back_orbit.Base.{
  ℕ, ◌≤◌, List, [], ◌∷◌, Option, none, some, Bool, true, false, ◌≡◌, refl, sym, ◌∙◌, arith, length,
  map, Bool-cases, inl, inr,
}
use back_orbit.Base.Assoc.{lookup}
use back_orbit.Base.Distinct.{
  Distinct, Distinct-map, elem, elem-map, length-le_of_Distinct, length-map,
}
use back_orbit.Base.Tests.{nat_eq}
use back_orbit.Blueprints.Assignment.{Search}
use back_orbit.Blueprints.Assignment.Moves.{IsReady, IsStuck}

-- A choice of different images for the roles, each of which fits its role.
pub record IsChoice (fits : ℕ → ℕ → Bool) (images roles : List ℕ) (choice : ℕ → ℕ) : Type 0 where
  pub fit : (r : ℕ) → elem r roles ≡ true → fits r (choice r) ≡ true
  pub known : (r : ℕ) → elem r roles ≡ true → elem (choice r) images ≡ true
  pub apart : (r q : ℕ) → elem r roles ≡ true → elem q roles ≡ true → choice r ≡ choice q → r ≡ q

module _ (fits : ℕ → ℕ → Bool) (images roles : List ℕ) (choice : ℕ → ℕ)
    (chosen : IsChoice fits images roles choice)
    (bounded : (r i : ℕ) → fits r i ≡ true → elem r roles ≡ true) where
  holder_of : Option ℕ → ℕ
  holder_of none = 0
  holder_of (some h) = h

  -- The image that the holder of an image could have instead.
  abbrev other : Search → ℕ → ℕ
  other s i = choice (holder_of (lookup i s.role_of))

  module _ (role : ℕ) (s t : Search) (wanted : elem role roles ≡ true)
      (free : lookup role s.assigned ≡ none) (fresh : s.visited ≡ [])
      (h : IsReady fits images role s) (k : IsStuck fits images role images s t) where
    -- A marked image has a holder, which is one of the roles.
    held :
        (i : ℕ)
        → elem i t.visited ≡ true
        → (r : ℕ) × (lookup r s.assigned ≡ some i)
          × (elem r roles ≡ true)
          × (other s i ≡ choice r)
          × (elem (choice r) t.visited ≡ true)
    unfolding holder_of
    held i e =
        let (r, noted, all) = k.closed i e (rw fresh refl) in
        let own : lookup r s.assigned ≡ some i = h.consistent.back r i noted in
        let inside : elem r roles ≡ true = bounded r i (h.consistent.fit r i own) in
        (
          r,
          own,
          inside,
          rw noted refl,
          all (choice r) (chosen.known r inside) (chosen.fit r inside),
        )

    mine : elem (choice role) t.visited ≡ true
    mine = k.tried (choice role) (chosen.known role wanted) (chosen.fit role wanted)

    others_apart : elem (choice role) (map (other s) t.visited) ≡ false
    others_apart = elim (Bool-cases (elem (choice role) (map (other s) t.visited))) [
      | inl e ↦
          let (i, inside, q) = elem-map (other s) (choice role) t.visited e in
          let (r, own, among, p, _) = held i inside in
          let same : r ≡ role = chosen.apart r role among wanted (sym p ∙ q) in
          ground (arith, own, same, free)
      | inr e ↦ e
    ]

    others_Distinct : Distinct (map (other s) t.visited)
    others_Distinct = Distinct-map (other s) t.visited k.marked.distinct (λ i j ei ej e.
        let (r, own, among, p, _) = held i ei in
        let (q, own2, among2, p2, _) = held j ej in
        let same : r ≡ q = chosen.apart r q among among2 (sym p ∙ e ∙ p2) in
        ground (arith, own, own2, same))

    inside_all :
        (i : ℕ) → elem i (choice role ∷ map (other s) t.visited) ≡ true → elem i t.visited ≡ true
    inside_all i e = elim (Bool-cases (elem i (map (other s) t.visited))) [
      | inl listed ↦
          let (j, inside, q) = elem-map (other s) i t.visited listed in
          let (r, _, _, p, marked) = held j inside in
          let same : choice r ≡ i = sym p ∙ q in ground (arith, marked, same)
      | inr unlisted ↦ ground (arith, mine, e, unlisted)
    ]

    -- The role and the holders of the marked images would need more images than are marked.
    pub stuck_impossible : ⊥
    stuck_impossible =
        let bound : length (choice role ∷ map (other s) t.visited) ≤ length t.visited =
          length-le_of_Distinct (choice role ∷ map (other s) t.visited) t.visited
            (others_apart, others_Distinct) inside_all in
        omega (arith, bound, length-map (other s) t.visited)
