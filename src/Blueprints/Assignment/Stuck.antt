-- ===== src/Blueprints/Assignment/Stuck.antt =====
-- The steps of a search that goes on after a failure.
use back_orbit.Base.{
  ℕ, List, [], ◌∷◌, some, Bool, true, false, not, ◌||◌, ◌≡◌, refl, ◌∙◌, ◌⊎◌, arith, nat_beq,
  Bool-cases, inl, inr,
}
use back_orbit.Base.Assoc.{lookup}
use back_orbit.Base.Distinct.{elem}
use back_orbit.Base.Tests.{nat_eq}
use back_orbit.Blueprints.Assignment.{Search, mark}
use back_orbit.Blueprints.Assignment.Moves.{IsMarked, IsMoved, IsReady, IsStuck}

module _ (fits : ℕ → ℕ → Bool) (images : List ℕ) where
  pub IsStuck-nil :
      (role : ℕ) (s : Search) → IsReady fits images role s → IsStuck fits images role [] s s
  IsStuck-nil role s h = record {
    same_role_of = refl;
    same_assigned = refl;
    grown = λ i e. e;
    tried = λ i e _. ground (arith, e);
    closed = λ i e f. ground (arith, e, f);
    marked = h.marked;
    longer = omega arith;
  }

  pub IsStuck-skip :
      (role index : ℕ) (rest : List ℕ) (s t : Search)
      → (elem index s.visited || not (fits role index)) ≡ true
      → IsStuck fits images role rest s t
      → IsStuck fits images role (index ∷ rest) s t
  IsStuck-skip role index rest s t skip h = record {
    same_role_of = h.same_role_of;
    same_assigned = h.same_assigned;
    grown = h.grown;
    tried = λ i e f. elim (Bool-cases (nat_beq index i)) [
      | inl same ↦ ground (arith, same, f, skip, h.grown index)
      | inr other ↦ ground (arith, other, e, f, h.tried i)
    ];
    closed = h.closed;
    marked = h.marked;
    longer = h.longer;
  }

  IsMarked-mark :
      (index : ℕ) (s : Search)
      → elem index images ≡ true
      → elem index s.visited ≡ false
      → IsMarked fits images s
      → IsMarked fits images (mark index s)
  IsMarked-mark index s inside fresh h = record {
    distinct = (fresh, h.distinct);
    within = λ i e. elim (Bool-cases (nat_beq index i)) [
      | inl same ↦ ground (arith, same, inside)
      | inr other ↦ ground (arith, other, e, h.within i)
    ];
  }

  pub IsReady-mark :
      (role index holder : ℕ) (s : Search)
      → IsReady fits images role s
      → elem index images ≡ true
      → elem index s.visited ≡ false
      → lookup index s.role_of ≡ some holder
      → IsReady fits images holder (mark index s)
  IsReady-mark role index holder s h inside fresh taken = record {
    consistent = record {
      held = h.consistent.held;
      back = h.consistent.back;
      fit = h.consistent.fit;
      known = h.consistent.known;
    };
    marked = IsMarked-mark index s inside fresh h.marked;
    mine = λ i e. ground (arith, e, h.consistent.back holder index taken);
  }

  -- A search that found nothing leaves the loop as ready as it was.
  pub IsReady-stuck :
      (role index holder : ℕ) (s t : Search)
      → IsReady fits images role s
      → IsStuck fits images holder images (mark index s) t
      → IsReady fits images role t
  IsReady-stuck role index holder s t h k = record {
    consistent = record {
      held = rw (k.same_role_of, k.same_assigned) h.consistent.held;
      back = rw (k.same_role_of, k.same_assigned) h.consistent.back;
      fit = rw k.same_assigned h.consistent.fit;
      known = rw k.same_assigned h.consistent.known;
    };
    marked = k.marked;
    mine = rw k.same_assigned (λ i e. k.grown i (ground (arith, h.mine i e)));
  }

  pub IsMoved-stuck :
      (role index holder : ℕ) (s t u : Search)
      → IsStuck fits images holder images (mark index s) t
      → IsMoved fits images role t u
      → IsMoved fits images role s u
  IsMoved-stuck role index holder s t u k m =
      let grown : (i : ℕ) → elem i s.visited ≡ true → elem i t.visited ≡ true =
        λ i e. k.grown i (ground (arith, e)) in
      record {
        chosen = m.chosen;
        took = m.took;
        new = elim (Bool-cases (elem m.chosen s.visited)) [
          | inl e ↦ ground (arith, grown m.chosen e, m.new)
          | inr e ↦ e
        ];
        held = m.held;
        back = rw k.same_assigned at m.back;
        fit = m.fit;
        known = m.known;
        images_kept = λ i e. ground (arith, k.same_role_of, m.images_kept i (grown i e));
        roles_kept = λ r ne p. ground (
          arith,
          k.same_assigned,
          m.roles_kept r ne (rw k.same_assigned (λ i e. grown i (p i e))),
        );
        stays = rw k.same_assigned at m.stays;
      }

  pub IsStuck-deeper :
      (role index holder : ℕ) (rest : List ℕ) (s t u : Search)
      → lookup index s.role_of ≡ some holder
      → IsStuck fits images holder images (mark index s) t
      → IsStuck fits images role rest t u
      → IsStuck fits images role (index ∷ rest) s u
  IsStuck-deeper role index holder rest s t u taken k h = record {
    same_role_of = h.same_role_of ∙ k.same_role_of;
    same_assigned = h.same_assigned ∙ k.same_assigned;
    grown = λ i e. h.grown i (k.grown i (ground (arith, e)));
    tried = λ i e f. elim (Bool-cases (nat_beq index i)) [
      | inl same ↦ h.grown i (k.grown i (ground (arith, same)))
      | inr other ↦ ground (arith, other, e, f, h.tried i)
    ];
    closed =
        λ i e f. closed_at i e f (Bool-cases (elem i t.visited)) (Bool-cases (nat_beq index i));
    marked = h.marked;
    longer = omega (arith, h.longer, k.longer);
  }
    where
      closed_at :
          (i : ℕ)
          → elem i u.visited ≡ true
          → elem i s.visited ≡ false
          → (elem i t.visited ≡ true) ⊎ (elem i t.visited ≡ false)
          → (nat_beq index i ≡ true) ⊎ (nat_beq index i ≡ false)
          → (g : ℕ) × (lookup i s.role_of ≡ some g)
            × ((j : ℕ) → elem j images ≡ true → fits g j ≡ true → elem j u.visited ≡ true)
      closed_at i e f (inl before) (inl same) =
          (holder, ground (arith, same, taken), λ j inside fit. h.grown j (k.tried j inside fit))
      closed_at i e f (inl before) (inr other) =
          let (g, noted, all) = k.closed i before (ground (arith, other, f)) in
          (g, noted, λ j inside fit. h.grown j (all j inside fit))
      closed_at i e f (inr after) _ =
          let (g, noted, all) = h.closed i e after in (g, rw k.same_role_of at noted, all)
