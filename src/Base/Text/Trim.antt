-- ===== src/Base/Text/Trim.antt =====
-- Laws of trimming.
use back_orbit.Base.Lists.{All}
use back_orbit.Base.Text.{Bytes, trim_right, cons_kept}
use Prim.Native.Nat.{ℕ}
use mathlib.Core.Path.{◌≡◌, refl, ap, ◌∙◌}
use mathlib.Core.Logic.{◌⊎◌, inl, inr}
use back_orbit.Base.Tests.{Bool-cases}
use mathlib.Core.Bool.{Bool, true, false}
use mathlib.Core.List.{[], ◌∷◌, ◌++◌}
use native.Mathlib.Omega.{arith}

module _ (cut : ℕ → Bool) where
  trim_right-cut : (t : Bytes) → All (λ b. cut b ≡ true) t → trim_right cut t ≡ []
  unfolding trim_right
  trim_right-cut [] h = refl
  trim_right-cut (x ∷ t) h = rw (trim_right-cut t h.1) (ground arith)

  -- What is cut behind a text changes nothing.
  pub trim_right-append :
      (s t : Bytes) → All (λ b. cut b ≡ true) t → trim_right cut (s ++ t) ≡ trim_right cut s
  unfolding trim_right
  trim_right-append [] t h = trim_right-cut t h
  trim_right-append (x ∷ s) t h = ap (cons_kept cut x) (trim_right-append s t h)

  cons_kept-split :
      (x : ℕ) (kept t : Bytes)
      → All (λ b. cut b ≡ true) t
      → (u : Bytes) × All (λ b. cut b ≡ true) u × (x ∷ (kept ++ t) ≡ cons_kept cut x kept ++ u)
  cons_kept-split x [] t h = elim (Bool-cases (cut x)) [
    | inl e ↦ (x ∷ t, (e, h), rw e refl)
    | inr e ↦ (t, h, rw e refl)
  ]
  cons_kept-split x (y ∷ kept) t h = (t, h, refl)

  -- What is cut stands behind what is kept.
  pub trim_right-split :
      (s : Bytes) → (t : Bytes) × All (λ b. cut b ≡ true) t × (s ≡ trim_right cut s ++ t)
  unfolding trim_right
  trim_right-split [] = ([], tt, refl)
  trim_right-split (x ∷ s) =
      let (t, only, whole) = trim_right-split s in
      let (u, cut_off, same) = cons_kept-split x (trim_right cut s) t only in
      (u, cut_off, ap (λ r. x ∷ r) whole ∙ same)

  -- What is kept ends in something that is not cut.
  pub trim_right-last :
      (s : Bytes)
      → (trim_right cut s ≡ [])
        ⊎ ((start : Bytes) × (last : ℕ) × (trim_right cut s ≡ start ++ (last ∷ []))
            × (cut last ≡ false))
  unfolding trim_right
  trim_right-last [] = inl refl
  trim_right-last (x ∷ s) = elim (trim_right-last s) [
    | inl none_left ↦ elim (Bool-cases (cut x)) [
      | inl e ↦ inl (rw (none_left, e) refl)
      | inr e ↦ inr ([], x, rw (none_left, e) refl, e)
    ]
    | inr (start, last, same, e) ↦ inr (x ∷ start, last, rw same (cons_kept-snoc x start last), e)
  ]
    where
      cons_kept-snoc :
          (x : ℕ) (start : Bytes) (last : ℕ)
          → cons_kept cut x (start ++ (last ∷ [])) ≡ x ∷ (start ++ (last ∷ []))
      cons_kept-snoc x [] last = refl
      cons_kept-snoc x (y ∷ start) last = refl

  pub trim_right-snoc :
      (start : Bytes) (last : ℕ)
      → cut last ≡ false
      → trim_right cut (start ++ (last ∷ [])) ≡ start ++ (last ∷ [])
  unfolding trim_right
  trim_right-snoc [] last e = rw e refl
  trim_right-snoc (x ∷ []) last e = rw e refl
  trim_right-snoc (x ∷ y ∷ start) last e = rw (trim_right-snoc (y ∷ start) last e) refl
