-- ===== src/Blueprints/Assignment/Roles.antt =====
-- The loop over the roles.
use back_orbit.Base.{
  ℕ, suc, List, [], ◌∷◌, none, some, Bool, true, false, ◌≡◌, ◌≢◌, refl, ◌∙◌, arith, length, nat_beq,
  Bool-cases, inl, inr,
}
use back_orbit.Base.Assoc.{lookup}
use back_orbit.Base.Distinct.{Distinct, elem}
use back_orbit.Base.Tests.{nat_eq}
use back_orbit.Blueprints.Assignment.{Search, assign_roles, augment}
use back_orbit.Blueprints.Assignment.Augment.{IsAnswer, augment-IsAnswer}
use back_orbit.Blueprints.Assignment.Complete.{IsChoice, stuck_impossible}
use back_orbit.Blueprints.Assignment.Moves.{IsConsistent, IsReady}

module _ (fit : ℕ → ℕ → Bool) (images all : List ℕ) where
  -- The roles of the list have no image yet.
  unfoldable pub AreFree : List ℕ → Search → Type 0
  AreFree roles s = (r : ℕ) → elem r roles ≡ true → lookup r s.assigned ≡ none

  -- Nothing that was assigned is lost, and if all searches succeeded every role has an image. If all
  -- roles can have images at all, they do succeed.
  pub record IsFilled (roles : List ℕ) (s : Search) (r : Bool × Search) : Type 0 where
    pub consistent : IsConsistent fit images r.1
    pub stays : (q : ℕ) → lookup q r.1.assigned ≡ none → lookup q s.assigned ≡ none
    pub filled : r.0 ≡ true → (q : ℕ) → elem q roles ≡ true → lookup q r.1.assigned ≢ none
    pub complete :
        (choice : ℕ → ℕ)
        → IsChoice fit images all choice
        → ((q i : ℕ) → fit q i ≡ true → elem q all ≡ true)
        → r.0 ≡ true

  abbrev again : Search → Search
  again s = record s { visited = [] }

  IsReady-again :
      (role : ℕ) (s : Search)
      → IsConsistent fit images s
      → lookup role s.assigned ≡ none
      → IsReady fit images role (again s)
  IsReady-again role s c free = record {
    consistent = record { held = c.held; back = c.back; fit = c.fit; known = c.known };
    marked = record { distinct = tt; within = λ i e. ground (arith, e) };
    mine = λ i e. ground (arith, e, free);
  }

  -- What one search does to the assignment, with fresh flags.
  record IsNext (role : ℕ) (rest : List ℕ) (s : Search) (r : Bool × Search) : Type 0 where
    consistent : IsConsistent fit images r.1
    stays : (q : ℕ) → lookup q r.1.assigned ≡ none → lookup q s.assigned ≡ none
    filled : r.0 ≡ true → lookup role r.1.assigned ≢ none
    free : AreFree rest r.1
    complete :
        (choice : ℕ → ℕ)
        → IsChoice fit images all choice
        → ((q i : ℕ) → fit q i ≡ true → elem q all ≡ true)
        → r.0 ≡ true

  IsNext-of_IsAnswer :
      (role : ℕ) (rest : List ℕ) (s : Search) (r : Bool × Search)
      → elem role all ≡ true
      → Distinct (role ∷ rest)
      → IsConsistent fit images s
      → AreFree (role ∷ rest) s
      → IsAnswer fit images role images (again s) r
      → IsNext role rest s r
  unfolding AreFree
  IsNext-of_IsAnswer role rest s (true, t) wanted d c free m =
      let own : lookup role s.assigned ≡ none = free role (ground arith) in
      record {
        consistent = record {
          held = m.held;
          back = λ r i e.
              m.back r i e (λ (o : lookup role s.assigned ≡ some i). ground (arith, o, own));
          fit = m.fit;
          known = m.known;
        };
        stays = m.stays;
        filled = λ _ e. ground (arith, e, m.took);
        free = λ q e.
            let apart : q ≢ role = λ o. ground (arith, o, e, d.0) in
            let before : lookup q s.assigned ≡ none = free q (ground (arith, e)) in
            m.roles_kept q apart (λ i o. ground (arith, o, before)) ∙ before;
        complete = λ _ _ _. refl;
      }
  IsNext-of_IsAnswer role rest s (false, t) wanted d c free k =
      let own : lookup role s.assigned ≡ none = free role (ground arith) in
      record {
        consistent = record {
          held = rw (k.same_role_of, k.same_assigned) c.held;
          back = rw (k.same_role_of, k.same_assigned) c.back;
          fit = rw k.same_assigned c.fit;
          known = rw k.same_assigned c.known;
        };
        stays = rw k.same_assigned (λ q e. e);
        filled = λ e. ground (arith, e);
        free = rw k.same_assigned (λ q e. free q (ground (arith, e)));
        complete = λ choice chosen bounded.
            elim (stuck_impossible fit images all choice chosen bounded role (again s) t wanted own
              refl (IsReady-again role s c own) k) [ ];
      }

  pub assign_roles-IsFilled :
      (roles : List ℕ) (s : Search)
      → ((r : ℕ) → elem r roles ≡ true → elem r all ≡ true)
      → Distinct roles
      → IsConsistent fit images s
      → AreFree roles s
      → IsFilled roles s (assign_roles fit images roles s)
  unfolding assign_roles AreFree
  assign_roles-IsFilled [] s among d c free = record {
    consistent = c;
    stays = λ q e. e;
    filled = λ _ q e. ground (arith, e);
    complete = λ _ _ _. refl;
  }
  assign_roles-IsFilled (role ∷ roles) s among d c free =
      let found = augment fit (suc (length images)) images role (again s) in
      let next = IsNext-of_IsAnswer role roles s found (among role (ground arith)) d c free (
        augment-IsAnswer fit images (suc (length images)) role (again s)
          (IsReady-again role s c (free role (ground arith))) (omega arith)) in
      let rest =
        assign_roles-IsFilled roles found.1 (λ r e. among r (ground (arith, e))) d.1 next.consistent
          next.free in
      record {
        consistent = rest.consistent;
        stays = λ q e. next.stays q (rest.stays q e);
        filled = λ e q inside. elim (Bool-cases (nat_beq role q)) [
          | inl same ↦ λ o. ground (arith, same, next.filled (ground (arith, e)), rest.stays q o)
          | inr other ↦ rest.filled (ground (arith, e)) q (ground (arith, other, inside))
        ];
        complete = λ choice chosen bounded.
            ground
              (arith, next.complete choice chosen bounded, rest.complete choice chosen bounded);
      }
