-- ===== src/Blueprints/Tests.antt =====
-- The catalog and its matching at concrete inputs.
use back_orbit.Base.{
  ℕ, zero, suc, ◌<◌, List, [], ◌∷◌, Option, some, true, ◌≡◌, refl, arith, codes, Bytes, ok, length,
  All, ◌+◌, ◌≤◌, ◌↔◌, if◌then◌else◌, nat_beq,
}
use back_orbit.Base.Assoc.{insert, lookup}
use back_orbit.Base.Text.{bytes_beq, trim_left, trim_right}
use back_orbit.Base.Times.{text_lt}
use back_orbit.Images.{
  contains, has_suffix, last_segment, matches_any, matches_normal, normal_pattern,
}
use back_orbit.Blueprints.Assignment.{assign, group_at, image_at, assign_roles, augment, try_images}
use back_orbit.Blueprints.Assignment.Exact.{IsAssignment, assign-exact}
use back_orbit.Blueprints.Catalog.{
  File, Match, Plan, Template, add_files, add_templates, all_bytes, has_id, insert_by_id,
  load_builtin, read_file, sort_by_id, valid_id, validate, validate_groups, validate_pattern,
  validate_patterns,
}
use back_orbit.Blueprints.Catalog.Loaded.{Ascending, IsValid, load_builtin-Ascending}
use back_orbit.Blueprints.Matching.{
  Fit, all_evidenced, any_image_matches, eligible_fit, has_value, labels, match_template, score_of,
}
use back_orbit.Blueprints.Matching.Eligible.{match_template-IsEligible, match_template-score}
use back_orbit.Blueprints.Matching.Ranked.{Ranked}

-- Two roles; the first would take the only image of the second.
abbrev images : List Bytes
images = codes "library/postgres" ∷ codes "immich-app/postgres" ∷ []

abbrev groups : List (List Bytes)
groups = (codes "postgres" ∷ []) ∷ (codes "library/postgres" ∷ []) ∷ []

abbrev choice : ℕ → ℕ
choice r = if nat_beq r 0 then 1 else 0

abbrev postgres : Match
postgres = record {
  required_image_groups = groups;
  optional_image_groups = (codes "redis" ∷ codes "valkey" ∷ []) ∷ [];
  required_technologies = codes "PostgreSQL" ∷ [];
  optional_technologies = [];
}

abbrev no_plan : Plan
no_plan = record {
  classification = [];
  consistency = [];
  required_data = [];
  database_strategy = [];
  include_hints = [];
  exclude_hints = [];
  warnings = [];
  restore_checks = [];
}

abbrev template : Bytes → Template
template id = record {
  api_version = codes "back-orbit.io/v1alpha1";
  kind = codes "ProtectionTemplate";
  metadata = record {
    id = id;
    name = codes "Two databases";
    version = codes "1";
    category = [];
    upstream = [];
    tags = [];
  };
  match = postgres;
  plan = no_plan;
}

images_matched :
    (r : ℕ) → r < 2 → matches_any (image_at images (choice r)) (group_at groups r) ≡ true
unfolding matches_any matches_normal normal_pattern has_suffix bytes_beq trim_left trim_right
images_matched zero h = refl
images_matched (suc zero) h = refl
images_matched (suc (suc r)) h = absurd (omega (arith, h))

images_IsAssignment : IsAssignment images groups choice
images_IsAssignment = record {
  matched = images_matched;
  inside = λ r h. ground (arith, h);
  apart = λ r q hr hq e. ground (arith, hr, hq, e);
}

assign-exact_example : (assign images groups).0 ≡ true
assign-exact_example = (assign-exact images groups).1 choice images_IsAssignment

moved : (assign images groups).1.assigned ≡ (0, 1) ∷ (1, 0) ∷ []
unfolding assign assign_roles augment try_images matches_any matches_normal normal_pattern
    has_suffix bytes_beq trim_left trim_right lookup insert
moved = refl

abbrev technologies : List Bytes
technologies = codes "postgresql" ∷ []

match_template-IsEligible_example :
    (fit : Fit) × (match_template (template (codes "two")) images technologies ≡ some fit)
unfolding all_evidenced has_value bytes_beq trim_left trim_right
match_template-IsEligible_example =
    (match_template-IsEligible (template (codes "two")) images technologies).1 (record {
      choice = choice;
      images_fit = images_IsAssignment;
      technologies_known = (refl, tt);
    })

abbrev found : Bytes → Fit
found id = eligible_fit (template id) images technologies (assign images groups).1

found_computed :
    match_template (template (codes "two")) images technologies ≡ some (found (codes "two"))
unfolding match_template assign assign_roles augment try_images matches_any matches_normal
    normal_pattern has_suffix bytes_beq trim_left trim_right lookup insert all_evidenced has_value
found_computed = refl

-- Three of four components are there.
score_computed : (found (codes "two")).score ≡ 75
unfolding eligible_fit labels any_image_matches matches_any matches_normal normal_pattern has_suffix
    bytes_beq trim_left trim_right
score_computed = refl

match_template-score_example :
    (length (found (codes "two")).matched + length (found (codes "two")).missing ≡ 4)
    × ((found (codes "two")).score ≡ score_of (length (found (codes "two")).matched) 4)
    × ((found (codes "two")).score ≤ 100)
    × (((found (codes "two")).score ≡ 100) ↔ ((found (codes "two")).missing ≡ []))
match_template-score_example =
    match_template-score (template (codes "two")) images technologies (found (codes "two"))
      found_computed

abbrev files : Option (List File)
files = some (
    record {
      opens = true;
      decoded = some (record {
        schema_version = 1;
        templates = template (codes "two") ∷ template (codes "other") ∷ [];
      });
      closes = true;
    }
    ∷ [])

loaded : load_builtin files ≡ ok (template (codes "other") ∷ template (codes "two") ∷ [])
unfolding load_builtin add_files add_templates read_file validate validate_groups validate_pattern
    validate_patterns valid_id all_bytes has_id insert_by_id sort_by_id contains last_segment
    bytes_beq trim_left trim_right text_lt
loaded = refl

load_builtin-Ascending_example :
    All IsValid (template (codes "other") ∷ template (codes "two") ∷ [])
    × Ascending (template (codes "other") ∷ template (codes "two") ∷ [])
load_builtin-Ascending_example =
    load_builtin-Ascending files (template (codes "other") ∷ template (codes "two") ∷ []) loaded
