-- ===== src/Blueprints/Matching/Ranked.antt =====
-- The order of the results.
use back_orbit.Base.{◌≤◌, List, [], ◌∷◌, some, false, ◌≡◌, length, All, Bytes}
use back_orbit.Base.Times.{text_lt}
use back_orbit.Blueprints.Catalog.{Template}
use back_orbit.Blueprints.Matching.{Fit, match_template}

-- The first result explains more components, or as many with a higher score, or as many with the same
-- score and no later name.
pub record Leads (a b : Fit) : Type 0 where
  pub explains : length b.matched ≤ length a.matched
  pub scores : length b.matched ≡ length a.matched → b.score ≤ a.score
  pub named :
      length b.matched ≡ length a.matched
      → b.score ≡ a.score
      → text_lt b.template_id a.template_id ≡ false

abbrev pub Ranked : List Fit → Type 0
Ranked [] = Unit
Ranked (a ∷ rest) = All (Leads a) rest × Ranked rest

module _ (images technologies : List Bytes) (fit : Fit) where
  abbrev IsFitOf : Template → Type 0
  IsFitOf t = match_template t images technologies ≡ some fit
