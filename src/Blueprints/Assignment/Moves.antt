-- ===== src/Blueprints/Assignment/Moves.antt =====
-- What one call of `augment` does to the assignment.
use back_orbit.Base.{ℕ, ◌≤◌, List, none, some, Bool, true, false, ◌≡◌, ◌≢◌, arith, length}
use back_orbit.Base.Assoc.{lookup, lookup-insert}
use back_orbit.Base.Tests.{nat_eq}
use back_orbit.Base.Distinct.{Distinct, elem}
use back_orbit.Blueprints.Assignment.{Search, mark, place}

module _ (fits : ℕ → ℕ → Bool) (images : List ℕ) where
  -- Both tables describe one assignment of fitting images to roles.
  pub record IsConsistent (s : Search) : Type 0 where
    pub held : (r i : ℕ) → lookup r s.assigned ≡ some i → lookup i s.role_of ≡ some r
    pub back : (r i : ℕ) → lookup i s.role_of ≡ some r → lookup r s.assigned ≡ some i
    pub fit : (r i : ℕ) → lookup r s.assigned ≡ some i → fits r i ≡ true
    pub known : (r i : ℕ) → lookup r s.assigned ≡ some i → elem i images ≡ true

  -- The flags stand for different images of the list.
  pub record IsMarked (s : Search) : Type 0 where
    pub distinct : Distinct s.visited
    pub within : (i : ℕ) → elem i s.visited ≡ true → elem i images ≡ true

  -- A call for a role: the image that the role holds, if it holds one, is marked.
  pub record IsReady (role : ℕ) (s : Search) : Type 0 where
    pub consistent : IsConsistent s
    pub marked : IsMarked s
    pub mine : (i : ℕ) → lookup role s.assigned ≡ some i → elem i s.visited ≡ true

  -- A call that found an image. Only the image that the role held before may still be noted for it.
  pub record IsMoved (role : ℕ) (s t : Search) : Type 0 where
    pub chosen : ℕ
    pub took : lookup role t.assigned ≡ some chosen
    pub new : elem chosen s.visited ≡ false
    pub held : (r i : ℕ) → lookup r t.assigned ≡ some i → lookup i t.role_of ≡ some r
    pub back :
        (r i : ℕ)
        → lookup i t.role_of ≡ some r
        → lookup role s.assigned ≢ some i
        → lookup r t.assigned ≡ some i
    pub fit : (r i : ℕ) → lookup r t.assigned ≡ some i → fits r i ≡ true
    pub known : (r i : ℕ) → lookup r t.assigned ≡ some i → elem i images ≡ true
    pub images_kept : (i : ℕ) → elem i s.visited ≡ true → lookup i t.role_of ≡ lookup i s.role_of
    pub roles_kept :
        (r : ℕ)
        → r ≢ role
        → ((i : ℕ) → lookup r s.assigned ≡ some i → elem i s.visited ≡ true)
        → lookup r t.assigned ≡ lookup r s.assigned
    pub stays : (r : ℕ) → lookup r t.assigned ≡ none → lookup r s.assigned ≡ none

  -- A call that found none has looked at every image that fits, and so has every holder it met.
  pub record IsStuck (role : ℕ) (todo : List ℕ) (s t : Search) : Type 0 where
    pub same_role_of : t.role_of ≡ s.role_of
    pub same_assigned : t.assigned ≡ s.assigned
    pub grown : (i : ℕ) → elem i s.visited ≡ true → elem i t.visited ≡ true
    pub tried : (i : ℕ) → elem i todo ≡ true → fits role i ≡ true → elem i t.visited ≡ true
    pub closed :
        (i : ℕ)
        → elem i t.visited ≡ true
        → elem i s.visited ≡ false
        → (h : ℕ) × (lookup i s.role_of ≡ some h)
          × ((k : ℕ) → elem k images ≡ true → fits h k ≡ true → elem k t.visited ≡ true)
    pub marked : IsMarked t
    pub longer : length s.visited ≤ length t.visited

  -- The image is free.
  pub IsMoved-place :
      (role index : ℕ) (s : Search)
      → IsReady role s
      → elem index images ≡ true
      → fits role index ≡ true
      → elem index s.visited ≡ false
      → lookup index s.role_of ≡ none
      → IsMoved role s (place role index (mark index s))
  IsMoved-place role index s h inside fit fresh free = record {
    chosen = index;
    took = ground (arith, lookup-insert role role index s.assigned);
    new = fresh;
    held = λ r i e. ground (
      arith,
      e,
      lookup-insert role r index s.assigned,
      lookup-insert index i role s.role_of,
      h.consistent.held r i,
    );
    back = λ r i e other. ground (
      arith,
      e,
      other,
      lookup-insert role r index s.assigned,
      lookup-insert index i role s.role_of,
      h.consistent.back r i,
    );
    fit = λ r i e. ground (arith, e, lookup-insert role r index s.assigned, h.consistent.fit r i);
    known =
        λ r i e. ground (arith, e, lookup-insert role r index s.assigned, h.consistent.known r i);
    images_kept = λ i e. ground (arith, e, lookup-insert index i role s.role_of);
    roles_kept = λ r ne _. ground (arith, ne, lookup-insert role r index s.assigned);
    stays = λ r e. ground (arith, e, lookup-insert role r index s.assigned);
  }

  -- The holder of the image has moved to another one.
  pub IsMoved-take :
      (role index holder : ℕ) (s t : Search)
      → IsReady role s
      → elem index images ≡ true
      → fits role index ≡ true
      → elem index s.visited ≡ false
      → lookup index s.role_of ≡ some holder
      → IsMoved holder (mark index s) t
      → IsMoved role s (place role index t)
  IsMoved-take role index holder s t h inside fit fresh taken m =
      let noted : lookup index t.role_of ≡ some holder =
        ground (arith, m.images_kept index, taken) in
      let own : lookup holder s.assigned ≡ some index = h.consistent.back holder index taken in
      let apart : role ≢ holder = λ e. ground (arith, e, own, h.mine index) in
      let marked_before : (r i : ℕ)
          → (lookup r s.assigned ≡ some i → elem i s.visited ≡ true)
          → lookup r s.assigned ≡ some i
          → elem i (mark index s).visited ≡ true =
        λ r i p e. ground (arith, p e) in
      let unmoved : lookup role t.assigned ≡ lookup role s.assigned =
        m.roles_kept role apart (λ i. marked_before role i (h.mine i)) in
      record {
        chosen = index;
        took = ground (arith, lookup-insert role role index t.assigned);
        new = fresh;
        held = λ r i e. ground (
          arith,
          e,
          lookup-insert role r index t.assigned,
          lookup-insert index i role t.role_of,
          m.held r i,
          m.took,
          m.new,
          noted,
        );
        back = λ r i e other. ground (
          arith,
          e,
          other,
          lookup-insert role r index t.assigned,
          lookup-insert index i role t.role_of,
          m.back r i,
          own,
          unmoved,
        );
        fit = λ r i e. ground (arith, e, lookup-insert role r index t.assigned, m.fit r i);
        known = λ r i e. ground (arith, e, lookup-insert role r index t.assigned, m.known r i);
        images_kept =
            λ i e. ground (arith, e, lookup-insert index i role t.role_of, m.images_kept i);
        roles_kept = λ r ne p.
            let away : r ≢ holder = λ e. ground (arith, e, own, p index) in
            ground (
              arith,
              ne,
              lookup-insert role r index t.assigned,
              m.roles_kept r away (λ i. marked_before r i (p i)),
            );
        stays = λ r e. ground (arith, e, lookup-insert role r index t.assigned, m.stays r);
      }
