-- ===== src/Base/Times/Order.antt =====
-- The order of texts.
use mathlib.Core.Path.{◌≡◌, refl}
use mathlib.Core.Bool.{true, false}
use mathlib.Core.List.{[], ◌∷◌}
use mathlib.Core.Logic.{◌≢◌, inl, inr}
use native.Mathlib.Omega.{arith}
use back_orbit.Base.Tests.{nat_beq, Bool-cases}
use back_orbit.Base.Text.{Bytes}
use back_orbit.Base.Times.{text_lt}

pub text_lt-asymm : (a b : Bytes) → text_lt a b ≡ true → text_lt b a ≡ false
unfolding text_lt
text_lt-asymm [] [] h = ground (arith, h)
text_lt-asymm [] (y ∷ b) h = refl
text_lt-asymm (x ∷ a) [] h = ground (arith, h)
text_lt-asymm (x ∷ a) (y ∷ b) h = ground (arith, h, text_lt-asymm a b)

pub text_lt-neg_trans :
    (a b c : Bytes) → text_lt b a ≡ false → text_lt c b ≡ false → text_lt c a ≡ false
unfolding text_lt
text_lt-neg_trans [] [] c h k = k
text_lt-neg_trans [] (y ∷ b) [] h k = refl
text_lt-neg_trans [] (y ∷ b) (z ∷ c) h k = refl
text_lt-neg_trans (x ∷ a) [] c h k = ground (arith, h)
text_lt-neg_trans (x ∷ a) (y ∷ b) [] h k = ground (arith, k)
text_lt-neg_trans (x ∷ a) (y ∷ b) (z ∷ c) h k = ground (arith, h, k, text_lt-neg_trans a b c)

pub text_lt_trans : (a b c : Bytes) → text_lt a b ≡ true → text_lt b c ≡ true → text_lt a c ≡ true
unfolding text_lt
text_lt_trans [] [] c h k = k
text_lt_trans [] (y ∷ b) [] h k = ground (arith, k)
text_lt_trans [] (y ∷ b) (z ∷ c) h k = refl
text_lt_trans (x ∷ a) [] c h k = ground (arith, h)
text_lt_trans (x ∷ a) (y ∷ b) [] h k = ground (arith, k)
text_lt_trans (x ∷ a) (y ∷ b) (z ∷ c) h k = ground (arith, h, k, text_lt_trans a b c)

pub text_lt-total : (a b : Bytes) → text_lt a b ≡ false → a ≢ b → text_lt b a ≡ true
unfolding text_lt
text_lt-total [] [] h ne = elim (ne refl) [ ]
text_lt-total [] (y ∷ b) h ne = ground (arith, h)
text_lt-total (x ∷ a) [] h ne = refl
text_lt-total (x ∷ a) (y ∷ b) h ne = elim (Bool-cases (text_lt b a)) [
  | inl e ↦ ground (arith, h, e)
  | inr e ↦ elim (Bool-cases (nat_beq x y)) [
    | inl same ↦
        let apart : a ≢ b = λ (p : a ≡ b). ne (ground (arith, same, p)) in
        ground (arith, h, e, same, text_lt-total a b (ground (arith, h, same)) apart)
    | inr other ↦ ground (arith, h, other)
  ]
]
