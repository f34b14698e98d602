-- ===== src/Base/Paths/Components.antt =====
-- Paths and their components.
use Prim.Native.Nat.{ℕ}
use mathlib.Core.Path.{◌≡◌, refl, sym, ap, ◌∙◌}
use mathlib.Core.Logic.{inl, inr}
use mathlib.Core.List.{List, [], ◌∷◌, ◌++◌, append_assoc}
use back_orbit.Base.Tests.{nat_beq, nat_beq_iff, Bool-cases}
use back_orbit.Base.Text.{Bytes}
use back_orbit.Base.Paths.{components, join_slash, push_byte, slash}

pub components-cons : (s : Bytes) → (w : Bytes) × (ws : List Bytes) × (components s ≡ w ∷ ws)
unfolding components
components-cons [] = ([], [], refl)
components-cons (c ∷ cs) = elim (Bool-cases (nat_beq c slash)) [
  | inl e ↦ ([], components cs, rw e refl)
  | inr e ↦ let (w, ws, p) = components-cons cs in (c ∷ w, ws, rw (e, p) refl)
]

push_byte-append :
    (c : ℕ) (s : Bytes) (ys : List Bytes)
    → push_byte c (components s ++ ys) ≡ push_byte c (components s) ++ ys
push_byte-append c s ys = let (w, ws, p) = components-cons s in rw p refl

pub components-append : (a b : Bytes) → components (a ++ (slash ∷ b)) ≡ components a ++ components b
unfolding components
components-append [] b = refl
components-append (c ∷ a) b = elim (Bool-cases (nat_beq c slash)) [
  | inl e ↦ rw (e, components-append a b) refl
  | inr e ↦ rw (e, components-append a b) (push_byte-append c a (components b))
]

join_slash-push_byte :
    (c : ℕ) (w : Bytes) (ws : List Bytes) → join_slash ((c ∷ w) ∷ ws) ≡ c ∷ join_slash (w ∷ ws)
unfolding join_slash
join_slash-push_byte c w [] = refl
join_slash-push_byte c w (v ∷ ws) = refl

pub join_slash-components : (s : Bytes) → join_slash (components s) ≡ s
unfolding components join_slash
join_slash-components [] = refl
join_slash-components (c ∷ s) =
    let (w, ws, p) = components-cons s in
    let ih : join_slash (w ∷ ws) ≡ s = ap join_slash (sym p) ∙ join_slash-components s in
    elim (Bool-cases (nat_beq c slash)) [
      | inl e ↦ rw (e, p, ih) (ap (λ (d : ℕ). d ∷ s) (sym ((nat_beq_iff c slash).0 e)))
      | inr e ↦ rw (e, p, join_slash-push_byte c w ws, ih) refl
    ]

pub join_slash-append :
    (x : Bytes) (xs : List Bytes) (y : Bytes) (ys : List Bytes)
    → join_slash ((x ∷ xs) ++ (y ∷ ys)) ≡ join_slash (x ∷ xs) ++ (slash ∷ join_slash (y ∷ ys))
unfolding join_slash
join_slash-append x [] y ys = refl
join_slash-append x (v ∷ xs) y ys = simp (join_slash-append v xs y ys, append_assoc)
