-- ===== src/Images/Segments.antt =====
-- A pattern is compared by whole segments.
use back_orbit.Base.{
  ℕ, List, [], ◌∷◌, ◌++◌, true, ◌≡◌, ◌≢◌, ◌↔◌, ◌⊎◌, sym, ap, ◌∙◌, arith, Bytes, bytes_beq,
  bytes_beq_iff, bytes_eq, Bool-cases, inl, inr,
}
use back_orbit.Base.Paths.{components, join_slash, slash}
use back_orbit.Base.Paths.Components.{
  components-append, components-cons, join_slash-append, join_slash-components,
}
use back_orbit.Base.Text.{bytes_beq-ne}
use back_orbit.Images.{has_suffix, matches, matches_normal, normal_pattern}

-- The path ends with the text.
EndsWith : Bytes → Bytes → Type 0
EndsWith s t = (front : Bytes) × (s ≡ front ++ t)

has_suffix-append : (front t : Bytes) → has_suffix (front ++ t) t ≡ true
unfolding has_suffix
has_suffix-append [] [] = ground (arith, bytes_beq_iff [] [])
has_suffix-append [] (c ∷ t) = ground (arith, bytes_beq_iff (c ∷ t) (c ∷ t))
has_suffix-append (c ∷ front) t = ground (arith, has_suffix-append front t)

has_suffix-EndsWith : (s t : Bytes) → has_suffix s t ≡ true → EndsWith s t
unfolding has_suffix EndsWith
has_suffix-EndsWith [] t h = ([], (bytes_beq_iff [] t).0 h)
has_suffix-EndsWith (c ∷ s) t h = elim (Bool-cases (bytes_beq (c ∷ s) t)) [
  | inl e ↦ ([], (bytes_beq_iff (c ∷ s) t).0 e)
  | inr e ↦
      let (front, p) = has_suffix-EndsWith s t (ground (arith, e, h)) in
      (c ∷ front, ap (λ (r : Bytes). c ∷ r) p)
]

-- The last components of the path.
IsLastOf : Bytes → Bytes → Type 0
IsLastOf p path = (front : List Bytes) × (components path ≡ front ++ components p)

IsLastOf-of_matches : (path p : Bytes) → matches_normal path p ≡ true → (p ≢ []) × IsLastOf p path
unfolding matches_normal IsLastOf EndsWith
IsLastOf-of_matches path p h = (
  λ e. ground (arith, h, (bytes_beq_iff p []).1 e),
  elim (Bool-cases (bytes_beq path p)) [
    | inl e ↦ ([], ap components ((bytes_beq_iff path p).0 e))
    | inr e ↦
        let (front, q) = has_suffix-EndsWith path (slash ∷ p) (ground (arith, e, h)) in
        (components front, ap components q ∙ components-append front p)
  ],
)

-- The path, put together again from its components.
path_of_IsLastOf : (path p : Bytes) → IsLastOf p path → (path ≡ p) ⊎ EndsWith path (slash ∷ p)
unfolding IsLastOf EndsWith
path_of_IsLastOf path p ([], e) =
    inl (sym (join_slash-components path) ∙ ap join_slash e ∙ join_slash-components p)
path_of_IsLastOf path p (x ∷ xs, e) =
    let (y, ys, q) = components-cons p in
    let whole : path ≡ join_slash (x ∷ xs) ++ (slash ∷ join_slash (y ∷ ys)) =
      sym (join_slash-components path)
      ∙ ap join_slash e
      ∙ ap (λ (ws : List Bytes). join_slash ((x ∷ xs) ++ ws)) q
      ∙ join_slash-append x xs y ys in
    let tail : join_slash (y ∷ ys) ≡ p = ap join_slash (sym q) ∙ join_slash-components p in
    inr (join_slash (x ∷ xs), whole ∙ ap (λ (t : Bytes). join_slash (x ∷ xs) ++ (slash ∷ t)) tail)

append-ne : (front t : Bytes) (c : ℕ) → front ++ (c ∷ t) ≢ []
append-ne [] t c e = ground (arith, e)
append-ne (d ∷ front) t c e = ground (arith, e)

matches_of_path :
    (path p : Bytes)
    → p ≢ []
    → (path ≡ p) ⊎ EndsWith path (slash ∷ p)
    → matches_normal path p ≡ true
unfolding matches_normal EndsWith
matches_of_path path p ne (inl e) =
    ground (arith, e, bytes_beq-ne p [] ne, (bytes_beq_iff path p).1 e)
matches_of_path path p ne (inr (front, e)) =
    let long : path ≢ [] = λ (q : path ≡ []). append-ne front p slash (sym e ∙ q) in
    ground (
      arith,
      bytes_beq-ne p [] ne,
      bytes_beq-ne path [] long,
      ap (λ (s : Bytes). has_suffix s (slash ∷ p)) e,
      has_suffix-append front (slash ∷ p),
    )

-- `Matches` answers true exactly if the pattern, in lower case and without white space and slashes
-- around it, is not empty and its components are the last components of the path.
pub matches-components :
    (path pattern : Bytes)
    → (matches path pattern ≡ true) ↔ (
        (normal_pattern pattern ≢ [])
        × ((front : List Bytes) × (components path ≡ front ++ components (normal_pattern pattern))))
unfolding IsLastOf
matches-components path pattern =
    let p = normal_pattern pattern in
    (
      IsLastOf-of_matches path p,
      λ (ne, last). matches_of_path path p ne (path_of_IsLastOf path p last),
    )
