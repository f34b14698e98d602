-- ===== src/BackupRun/Segment/Safety.antt =====
-- A segment is one directory name inside the staging root, and which names share one.
use back_orbit.Base.{
  ℕ, zero, suc, ◌≤◌, ◌≡◌, ◌≢◌, refl, ap, true, false, [], ◌∷◌, ◌++◌, map, arith, Bytes, codes,
  length, take, ltb, All, trim, length-take-le, Bool-cases, inl, inr,
}
use back_orbit.Base.Text.{bytes_beq, bytes_eq, trim_left, trim_right, cons_kept}
use back_orbit.BackupRun.Segment.{
  is_safe, safe_rune, dot_or_dash, max_segment, bounded_segment, path_segment,
}

abbrev pub Safe : Bytes → Type 0
Safe = All (λ r. is_safe r ≡ true)

-- The first byte can be neither `.` nor `-`; there is one.
abbrev pub StartsPlain : Bytes → Type 0
StartsPlain [] = ⊥
StartsPlain (r ∷ _) = dot_or_dash r ≡ false

safe_rune-is_safe : (r : ℕ) → is_safe (safe_rune r) ≡ true
unfolding safe_rune
safe_rune-is_safe r = ground arith

Safe-map : (name : Bytes) → Safe (map safe_rune name)
Safe-map [] = tt
Safe-map (r ∷ name) = (safe_rune-is_safe r, Safe-map name)

Safe-trim_left : (s : Bytes) → Safe s → Safe (trim_left dot_or_dash s)
unfolding trim_left
Safe-trim_left [] h = tt
Safe-trim_left (r ∷ s) h = elim (Bool-cases (dot_or_dash r)) [
  | inl e ↦ rw e (Safe-trim_left s h.1)
  | inr e ↦ rw e h
]

Safe-cons_kept : (r : ℕ) (s : Bytes) → is_safe r ≡ true → Safe s → Safe (cons_kept dot_or_dash r s)
Safe-cons_kept r [] hr h = elim (Bool-cases (dot_or_dash r)) [
  | inl e ↦ rw e tt
  | inr e ↦ rw e (hr, tt)
]
Safe-cons_kept r (x ∷ s) hr h = (hr, h)

Safe-trim_right : (s : Bytes) → Safe s → Safe (trim_right dot_or_dash s)
unfolding trim_right
Safe-trim_right [] h = tt
Safe-trim_right (r ∷ s) h = Safe-cons_kept r (trim_right dot_or_dash s) h.0 (Safe-trim_right s h.1)

Safe-take : (n : ℕ) (s : Bytes) → Safe s → Safe (take n s)
Safe-take zero s h = tt
Safe-take (suc n) [] h = tt
Safe-take (suc n) (r ∷ s) h = (h.0, Safe-take n s h.1)

-- Empty, or with a plain first byte.
abbrev Trimmed : Bytes → Type 0
Trimmed [] = Unit
Trimmed (r ∷ _) = dot_or_dash r ≡ false

Trimmed-trim_left : (s : Bytes) → Trimmed (trim_left dot_or_dash s)
unfolding trim_left
Trimmed-trim_left [] = tt
Trimmed-trim_left (r ∷ s) = elim (Bool-cases (dot_or_dash r)) [
  | inl e ↦ rw e (Trimmed-trim_left s)
  | inr e ↦ rw e e
]

Trimmed-cons_kept :
    (r : ℕ) (s : Bytes) → dot_or_dash r ≡ false → Trimmed (cons_kept dot_or_dash r s)
Trimmed-cons_kept r [] h = rw h h
Trimmed-cons_kept r (x ∷ s) h = h

Trimmed-trim_right : (s : Bytes) → Trimmed s → Trimmed (trim_right dot_or_dash s)
unfolding trim_right
Trimmed-trim_right [] h = tt
Trimmed-trim_right (r ∷ s) h = Trimmed-cons_kept r (trim_right dot_or_dash s) h

-- What the segment of a name is like.
pub record IsSegment (s : Bytes) : Type 0 where
  pub starts_plain : StartsPlain s
  pub short : length s ≤ max_segment
  pub only_safe : Safe s

Safe-unnamed : Safe (codes "unnamed")
unfolding is_safe
Safe-unnamed = (refl, (refl, (refl, (refl, (refl, (refl, (refl, tt)))))))

bounded_segment-IsSegment : (s : Bytes) → Trimmed s → Safe s → IsSegment (bounded_segment s)
unfolding bounded_segment bytes_beq
bounded_segment-IsSegment [] t h = record {
  starts_plain = refl;
  short = omega arith;
  only_safe = Safe-unnamed;
}
bounded_segment-IsSegment (r ∷ s) t h = elim (Bool-cases (ltb max_segment (length (r ∷ s)))) [
  | inl e ↦ rw e (record {
    starts_plain = t;
    short = length-take-le max_segment (r ∷ s);
    only_safe = Safe-take max_segment (r ∷ s) h;
  })
  | inr e ↦ rw e (record { starts_plain = t; short = ground arith; only_safe = h })
]

-- Whatever a name holds, its segment is not empty, has at most 96 bytes, starts with neither a dot
-- nor a dash (so it is not `.` or `..`), and is made of letters, digits, `-`, `_` and `.` alone (so
-- it holds no separator).
pub path_segment-IsSegment : (name : Bytes) → IsSegment (path_segment name)
unfolding path_segment
path_segment-IsSegment name =
    let left = trim_left dot_or_dash (map safe_rune name) in
    bounded_segment-IsSegment _ (Trimmed-trim_right left (Trimmed-trim_left (map safe_rune name)))
      (Safe-trim_right left (Safe-trim_left (map safe_rune name) (Safe-map name)))

safe_rune_idem : (r : ℕ) → safe_rune (safe_rune r) ≡ safe_rune r
unfolding safe_rune
safe_rune_idem r = ground arith

map-safe_rune_idem : (name : Bytes) → map safe_rune (map safe_rune name) ≡ map safe_rune name
map-safe_rune_idem [] = refl
map-safe_rune_idem (r ∷ name) = cc (safe_rune_idem r, map-safe_rune_idem name)

map-safe_rune-replaced :
    (before after : Bytes) (r : ℕ)
    → is_safe r ≡ false
    → map safe_rune (before ++ (r ∷ after)) ≡ map safe_rune (before ++ (b'-' ∷ after))
unfolding safe_rune is_safe
map-safe_rune-replaced [] after r h = ground arith
map-safe_rune-replaced (x ∷ before) after r h =
    ap (λ rest. safe_rune x ∷ rest) (map-safe_rune-replaced before after r h)

replaced-≢ :
    (before after : Bytes) (r : ℕ)
    → is_safe r ≡ false
    → before ++ (r ∷ after) ≢ before ++ (b'-' ∷ after)
unfolding is_safe
replaced-≢ [] after r h e = ground arith
replaced-≢ (x ∷ before) after r h e = replaced-≢ before after r h cc

-- A name that holds a rune which is replaced is another name than the one with a dash in place of
-- that rune, and the two have the same segment.
pub path_segment_shared :
    (before after : Bytes) (r : ℕ)
    → is_safe r ≡ false
    → (before ++ (r ∷ after) ≢ before ++ (b'-' ∷ after))
      × (path_segment (before ++ (r ∷ after)) ≡ path_segment (before ++ (b'-' ∷ after)))
unfolding path_segment
path_segment_shared before after r h = (
  replaced-≢ before after r h,
  ap (λ s. bounded_segment (trim dot_or_dash s)) (map-safe_rune-replaced before after r h),
)
