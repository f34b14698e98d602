-- ===== src/Blueprints/Matching.antt =====
-- internal/protectionblueprints/match.go: which templates fit a project, and in which order.
pub mod Eligible
pub mod Ranked
use back_orbit.Base.{
  ℕ, zero, suc, ◌+◌, ◌*◌, ◌/◌, List, [], ◌∷◌, ◌++◌, Option, none, some, Bool, true, false, not,
  ◌&&◌, ◌||◌, if◌then◌else◌, ltb, nat_beq, Bytes, codes, ◌==◌, length, map,
}
use back_orbit.Base.Assoc.{lookup}
use back_orbit.Base.Tests.{nat_eq}
use back_orbit.Base.Text.{bytes_beq, bytes_eq, trim_space}
use back_orbit.Base.Times.{text_lt}
use back_orbit.Blueprints.Assignment.{Search, assign}
use back_orbit.Blueprints.Catalog.{Match, Plan, Template}
use back_orbit.Images.{matches_any, repository_paths, to_lower}

pub record Evidence : Type 0 where
  pub images : List Bytes
  pub technologies : List Bytes

-- `Result` of the source.
pub record Fit : Type 0 where
  pub template_id : Bytes
  pub name : Bytes
  pub version : Bytes
  pub category : Bytes
  pub score : ℕ
  pub matched : List Bytes
  pub missing : List Bytes
  pub plan : Plan

-- `normalize`
unfoldable pub normalize : List Bytes → List Bytes
normalize [] = []
normalize (value ∷ values) =
    let rest = normalize values in
    let plain = to_lower (trim_space value) in if plain == [] then rest else plain ∷ rest

unfoldable pub has_value : List Bytes → Bytes → Bool
has_value [] wanted = false
has_value (value ∷ values) wanted = let rest = has_value values wanted in value == wanted || rest

-- `contains`
abbrev pub evidences : List Bytes → Bytes → Bool
evidences values wanted = has_value values (to_lower (trim_space wanted))

-- `anyImageMatches`
unfoldable pub any_image_matches : List Bytes → List Bytes → Bool
any_image_matches [] patterns = false
any_image_matches (path ∷ paths) patterns =
    let rest = any_image_matches paths patterns in matches_any path patterns || rest

-- strings.Join(group, " or ")
unfoldable pub join_or : List Bytes → Bytes
join_or [] = []
join_or (w ∷ []) = w
join_or (w ∷ v ∷ ws) = w ++ (codes " or " ++ join_or (v ∷ ws))

-- The labels that go to `Matched` and to `Missing`, in order, and how many are found.
pub record Labels : Type 0 where
  pub matched : List Bytes
  pub missing : List Bytes

abbrev pub put_label : Bool → Bytes → Labels → Labels
put_label true label ls = record ls { matched = label ∷ ls.matched }
put_label false label ls = record ls { missing = label ∷ ls.missing }

abbrev pub no_labels : Labels
no_labels = record { matched = []; missing = [] }

-- The labels of one list of conditions.
unfoldable pub labels {ℓ} : {A : Type ℓ} → (A → Bool) → (A → Bytes) → List A → Labels
labels test name [] = no_labels
labels test name (a ∷ rest) = put_label (test a) (name a) (labels test name rest)

abbrev pub is_assigned : Option ℕ → Bool
is_assigned none = false
is_assigned (some i) = true

abbrev pub required_label : List Bytes → Bytes
required_label group = codes "required image role: " ++ join_or group

unfoldable pub role_labels : Search → ℕ → List (List Bytes) → Labels
role_labels s index [] = no_labels
role_labels s index (group ∷ groups) =
    put_label (is_assigned (lookup index s.assigned)) (required_label group)
      (role_labels s (suc index) groups)

-- The loop over the required technologies returns at the first that is not evidenced.
unfoldable pub all_evidenced : List Bytes → List Bytes → Bool
all_evidenced known [] = true
all_evidenced known (technology ∷ rest) =
    let others = all_evidenced known rest in evidences known technology && others

abbrev pub technology_label : Bytes → Bytes
technology_label technology = codes "required technology: " ++ technology

abbrev pub optional_image_label : List Bytes → Bytes
optional_image_label group = codes "optional image: " ++ join_or group

abbrev pub optional_technology_label : Bytes → Bytes
optional_technology_label technology = codes "optional technology: " ++ technology

abbrev pub score_of : ℕ → ℕ → ℕ
score_of present zero = 100
score_of present (suc total) = present * 100 / suc total

-- The result for a template whose required evidence is there.
unfoldable pub eligible_fit : Template → List Bytes → List Bytes → Search → Fit
eligible_fit template images technologies s =
    let m = template.match in
    let roles = role_labels s 0 m.required_image_groups in
    let images_found =
      labels (any_image_matches images) optional_image_label m.optional_image_groups in
    let technologies_found =
      labels (evidences technologies) optional_technology_label m.optional_technologies in
    let required = length m.required_image_groups + length m.required_technologies in
    let optional = length m.optional_image_groups + length m.optional_technologies in
    let found = length images_found.matched + length technologies_found.matched in
    record {
      template_id = template.metadata.id;
      name = template.metadata.name;
      version = template.metadata.version;
      category = template.metadata.category;
      score = score_of (required + found) (required + optional);
      matched =
          roles.matched
          ++ (map technology_label m.required_technologies
              ++ (images_found.matched ++ technologies_found.matched));
      missing = roles.missing ++ (images_found.missing ++ technologies_found.missing);
      plan = template.plan;
    }

-- `matchTemplate`
unfoldable pub match_template : Template → List Bytes → List Bytes → Option Fit
match_template template images technologies =
    let (complete, s) = assign images template.match.required_image_groups in
    if complete && all_evidenced technologies template.match.required_technologies
    then some (eligible_fit template images technologies s)
    else none

-- The order of the results.
unfoldable pub ranks_before : Fit → Fit → Bool
ranks_before a b =
    if not (nat_beq (length a.matched) (length b.matched))
    then ltb (length b.matched) (length a.matched)
    else if not (nat_beq a.score b.score)
    then ltb b.score a.score
    else text_lt a.template_id b.template_id

unfoldable pub insert_ranked : Fit → List Fit → List Fit
insert_ranked a [] = a ∷ []
insert_ranked a (b ∷ bs) =
    let rest = insert_ranked a bs in if ranks_before b a then b ∷ rest else a ∷ b ∷ bs

unfoldable pub sort_ranked : List Fit → List Fit
sort_ranked [] = []
sort_ranked (a ∷ rest) = insert_ranked a (sort_ranked rest)

abbrev pub add_fit : Option Fit → List Fit → List Fit
add_fit none fits = fits
add_fit (some fit) fits = fit ∷ fits

unfoldable pub eligible_fits : List Template → List Bytes → List Bytes → List Fit
eligible_fits [] images technologies = []
eligible_fits (template ∷ templates) images technologies =
    add_fit (match_template template images technologies)
      (eligible_fits templates images technologies)

-- `Catalog.Match`
unfoldable pub match_catalog : List Template → Evidence → List Fit
match_catalog templates evidence =
    sort_ranked
      (eligible_fits templates (repository_paths evidence.images) (normalize evidence.technologies))
