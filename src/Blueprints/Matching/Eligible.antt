-- ===== src/Blueprints/Matching/Eligible.antt =====
-- Which templates fit, and what their score says.
use back_orbit.Base.{
  ℕ, zero, suc, ◌+◌, ◌*◌, ◌≤◌, ◌<◌, List, [], ◌∷◌, ◌++◌, some, Bool, true, ◌≡◌, refl, sym, ap, ◌∙◌,
  ◌↔◌, arith, length, map, subst, All, Bytes, Bool-cases, inl, inr,
}
use back_orbit.Base.Assoc.{lookup}
use back_orbit.Base.Tests.{nat_eq}
use native.Mathlib.Nat.{div-le_of_le-mul, le-div_iff_mul-le}
use back_orbit.Blueprints.Assignment.{Search, assign}
use back_orbit.Blueprints.Assignment.Exact.{IsAssignment, assign-exact, image_of, image_of-held}
use back_orbit.Blueprints.Catalog.{Template}
use back_orbit.Blueprints.Matching.{
  Fit, all_evidenced, eligible_fit, evidences, is_assigned, labels, match_template, role_labels,
  score_of, any_image_matches, optional_image_label, optional_technology_label,
}

-- What `matchTemplate` asks for: images for the roles, and the technologies.
pub record IsEligible (t : Template) (images technologies : List Bytes) : Type 0 where
  pub choice : ℕ → ℕ
  pub images_fit : IsAssignment images t.match.required_image_groups choice
  pub technologies_known : All (λ x. evidences technologies x ≡ true) t.match.required_technologies

all_evidenced-All :
    (known required : List Bytes)
    → (all_evidenced known required ≡ true) ↔ All (λ x. evidences known x ≡ true) required
unfolding all_evidenced
all_evidenced-All known [] = ((λ h. tt), (λ h. refl))
all_evidenced-All known (x ∷ xs) =
    let ih = all_evidenced-All known xs in
    (λ h. (ground (arith, h), ih.0 (ground (arith, h))), λ h. ground (arith, h.0, ih.1 h.1))

match_template-cases :
    (t : Template) (images technologies : List Bytes) (fit : Fit)
    → match_template t images technologies ≡ some fit
    → ((assign images t.match.required_image_groups).0 ≡ true)
      × (all_evidenced technologies t.match.required_technologies ≡ true)
      × (fit ≡ eligible_fit t images technologies (assign images t.match.required_image_groups).1)
unfolding match_template
match_template-cases t images technologies fit h =
    (ground (arith, h), ground (arith, h), ground (arith, h))

-- A template fits exactly if different images can be chosen for its required roles and all its
-- required technologies are evidenced.
pub match_template-IsEligible :
    (t : Template) (images technologies : List Bytes)
    → ((fit : Fit) × (match_template t images technologies ≡ some fit))
      ↔ IsEligible t images technologies
unfolding match_template
match_template-IsEligible t images technologies =
    let groups = t.match.required_image_groups in
    let exact = assign-exact images groups in
    let known = all_evidenced-All technologies t.match.required_technologies in
    (
      λ (fit, h).
          let (complete, evidenced, _) = match_template-cases t images technologies fit h in
          record {
            choice = image_of (assign images groups);
            images_fit = exact.0 complete;
            technologies_known = known.0 evidenced;
          },
      λ h.
          let complete : (assign images groups).0 ≡ true = exact.1 h.choice h.images_fit in
          let evidenced : all_evidenced technologies t.match.required_technologies ≡ true =
            known.1 h.technologies_known in
          (
            eligible_fit t images technologies (assign images groups).1,
            rw (complete, evidenced) refl,
          ),
    )

module _ {ℓ} {A : Type ℓ} (test : A → Bool) (name : A → Bytes) where
  length-labels :
      (xs : List A)
      → length (labels test name xs).matched + length (labels test name xs).missing ≡ length xs
  unfolding labels
  length-labels [] = refl
  length-labels (x ∷ xs) = elim (Bool-cases (test x)) [
    | inl e ↦ rw e (omega (arith, length-labels xs))
    | inr e ↦ rw e (omega (arith, length-labels xs))
  ]

-- With every role assigned no role is missing.
role_labels-assigned :
    (s : Search) (index : ℕ) (groups : List (List Bytes))
    → ((r : ℕ) → index ≤ r → r < index + length groups → is_assigned (lookup r s.assigned) ≡ true)
    → (length (role_labels s index groups).matched ≡ length groups)
      × ((role_labels s index groups).missing ≡ [])
unfolding role_labels
role_labels-assigned s index [] h = (refl, refl)
role_labels-assigned s index (g ∷ groups) h =
    let (found, none_missing) =
      role_labels-assigned s (suc index) groups
        (λ r a b. h r (omega (arith, a)) (omega (arith, b))) in
    rw (h index (omega arith) (omega arith)) (ap suc found, none_missing)

length-append : {A : Type 0} (xs ys : List A) → length (xs ++ ys) ≡ length xs + length ys
length-append [] ys = omega arith
length-append (x ∷ xs) ys = omega (arith, length-append xs ys)

length-map : {A : Type 0} (f : A → Bytes) (xs : List A) → length (map f xs) ≡ length xs
length-map f [] = refl
length-map f (x ∷ xs) = ap suc (length-map f xs)

score_of-le : (present total : ℕ) → present ≤ total → score_of present total ≤ 100
score_of-le present zero h = omega arith
score_of-le present (suc t) h =
    div-le_of_le-mul (suc t) {m = present * 100} {n = 100} (omega (arith, h))

score_of-full :
    (present total : ℕ) → present ≤ total → (score_of present total ≡ 100) ↔ (present ≡ total)
score_of-full present zero h = ((λ _. omega (arith, h)), (λ _. refl))
score_of-full present (suc t) h =
    let bound = le-div_iff_mul-le {k = suc t} {x = 100} {y = present * 100} (omega arith) in
    (
      λ e. omega (arith, h, bound.0 (omega (arith, e))),
      λ e. omega (arith, score_of-le present (suc t) h, bound.1 (omega (arith, e))),
    )

-- All that the template asks for.
abbrev pub total_of : Template → ℕ
total_of t =
    (length t.match.required_image_groups + length t.match.required_technologies)
    + (length t.match.optional_image_groups + length t.match.optional_technologies)

empty_of_length : (xs : List Bytes) → length xs ≡ 0 → xs ≡ []
empty_of_length [] h = refl
empty_of_length (x ∷ xs) h = ground (arith, h)

-- The parts of the result's score.
record IsScored (t : Template) (fit : Fit) : Type 0 where
  covers : length fit.matched + length fit.missing ≡ total_of t
  scored : fit.score ≡ score_of (length fit.matched) (total_of t)

eligible_fit-IsScored :
    (t : Template) (images technologies : List Bytes)
    → (assign images t.match.required_image_groups).0 ≡ true
    → IsScored t
        (eligible_fit t images technologies (assign images t.match.required_image_groups).1)
unfolding eligible_fit
eligible_fit-IsScored t images technologies complete =
    let groups = t.match.required_image_groups in
    let s = (assign images groups).1 in
    let (roles, none_missing) =
      role_labels-assigned s 0 groups
        (λ r _ b. rw (image_of-held images groups complete r (omega (arith, b))) refl) in
    let optional_images =
      length-labels (any_image_matches images) optional_image_label t.match.optional_image_groups in
    let optional_technologies =
      length-labels (evidences technologies) optional_technology_label
        t.match.optional_technologies in
    record {
      covers =
          simp (none_missing, length-append, length-map)
            (omega (arith, roles, optional_images, optional_technologies));
      scored =
          ap (λ (p : ℕ). score_of p (total_of t))
            (simp (length-append, length-map) (omega (arith, roles)));
    }

-- For a template that fits, what is matched and what is missing is together what the template
-- describes; the score is the share that is matched in hundredths, at most 100, and 100 exactly if
-- nothing is missing.
pub match_template-score :
    (t : Template) (images technologies : List Bytes) (fit : Fit)
    → match_template t images technologies ≡ some fit
    → (length fit.matched + length fit.missing ≡ total_of t)
      × (fit.score ≡ score_of (length fit.matched) (total_of t))
      × (fit.score ≤ 100)
      × ((fit.score ≡ 100) ↔ (fit.missing ≡ []))
match_template-score t images technologies fit h =
    let (complete, _, same) = match_template-cases t images technologies fit h in
    let shown : IsScored t fit =
      subst (IsScored t) (sym same) (eligible_fit-IsScored t images technologies complete) in
    let bound : length fit.matched ≤ total_of t = omega (arith, shown.covers) in
    let full = score_of-full (length fit.matched) (total_of t) bound in
    (
      shown.covers,
      shown.scored,
      rw shown.scored (score_of-le (length fit.matched) (total_of t) bound),
      (
        λ e.
            empty_of_length fit.missing
              (omega (arith, full.0 (sym shown.scored ∙ e), shown.covers)),
        λ e. shown.scored ∙ full.1 (omega (arith, ap length e, shown.covers)),
      ),
    )
