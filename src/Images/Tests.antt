-- ===== src/Images/Tests.antt =====
-- Image references at concrete inputs.
use back_orbit.Base.{[], ◌∷◌, ◌≡◌, refl, arith, true, false, codes}
use back_orbit.Base.Paths.{components}
use back_orbit.Base.Text.{bytes_beq, trim_left, trim_right}
use back_orbit.Images.{
  before, behind, contains, cut_registry, cut_tag, has_suffix, last_segment, matches,
  matches_normal, normal_pattern, repository_path,
}
use back_orbit.Images.Segments.{matches-components}

registry_and_tag :
    repository_path (codes " ghcr.io:5000/Immich-App/immich-server:v2.7.5@sha256:ab")
    ≡ codes "immich-app/immich-server"
unfolding repository_path cut_registry cut_tag contains before behind bytes_beq trim_left trim_right
registry_and_tag = refl

neighbour : matches (codes "library/mongo-express") (codes "mongo") ≡ false
unfolding matches_normal normal_pattern has_suffix bytes_beq trim_left trim_right
neighbour = refl

namespaced : matches (codes "immich-app/postgres") (codes " Postgres/") ≡ true
unfolding matches_normal normal_pattern has_suffix bytes_beq trim_left trim_right
namespaced = refl

bare_tag : last_segment (codes "valkey/valkey:8") ≡ codes "valkey:8"
unfolding last_segment contains
bare_tag = refl

-- "library/postgres" ends with the segment "postgres".
matches-components_example : matches (codes "library/postgres") (codes " Postgres/") ≡ true
unfolding normal_pattern components trim_left trim_right
matches-components_example =
    (matches-components (codes "library/postgres") (codes " Postgres/")).1
      ((λ e. ground (arith, e)), (codes "library" ∷ [], refl))
