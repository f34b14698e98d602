-- ===== src/Base/Times.antt =====
-- Times in the database: a text in Go's format RFC3339Nano, which SQL compares as a text. A time is
-- its nanoseconds. Up to the second such texts have one width, so they compare as the seconds do;
-- behind it stands the fraction without the zeros at its end, and `Z`.
pub mod Order
use Prim.Native.Nat.{ℕ, zero, suc, ◌+◌, ◌/◌, ◌%◌, ◌≤◌}
use mathlib.Core.Path.{◌≡◌, refl}
use mathlib.Core.Bool.{Bool, true, false, ◌&&◌, ◌||◌}
use mathlib.Core.List.{[], ◌∷◌, ◌++◌}
use native.Mathlib.Omega.{arith}
use back_orbit.Base.Tests.{if◌then◌else◌, ltb, nat_beq}
use back_orbit.Base.Text.{Bytes, trim_right}

-- Go's order of strings, and SQLite's of texts.
unfoldable pub text_lt : Bytes → Bytes → Bool
text_lt [] [] = false
text_lt [] (y ∷ ys) = true
text_lt (x ∷ xs) [] = false
text_lt (x ∷ xs) (y ∷ ys) = let rest = text_lt xs ys in ltb x y || nat_beq x y && rest

abbrev pub nanos_per_second : ℕ
nanos_per_second = 1_000_000_000

-- The last `count` decimal digits.
unfoldable pub last_digits : ℕ → ℕ → Bytes
last_digits zero n = []
last_digits (suc count) n = last_digits count (n / 10) ++ ((b'0' + n % 10) ∷ [])

abbrev is_zero_digit : ℕ → Bool
is_zero_digit c = nat_beq c b'0'

-- What stands behind the second.
unfoldable pub fraction : ℕ → Bytes
fraction nanos =
    if nat_beq nanos 0
    then b'Z' ∷ []
    else b'.' ∷ (trim_right is_zero_digit (last_digits 9 nanos) ++ (b'Z' ∷ []))

-- `a < b` on stored times.
unfoldable pub stored_lt : ℕ → ℕ → Bool
stored_lt a b =
    let second_a = a / nanos_per_second in
    let second_b = b / nanos_per_second in
    ltb second_a second_b
    || nat_beq second_a second_b
      && text_lt (fraction (a % nanos_per_second)) (fraction (b % nanos_per_second))

pub stored_lt-true : (a b : ℕ) → stored_lt a b ≡ true → a / nanos_per_second ≤ b / nanos_per_second
unfolding stored_lt
stored_lt-true a b h = ground arith

pub stored_lt-false :
    (a b : ℕ) → stored_lt a b ≡ false → b / nanos_per_second ≤ a / nanos_per_second
unfolding stored_lt
stored_lt-false a b h = ground arith

-- Half a second past a full one stands before it.
half_before_full : stored_lt 5_500_000_000 5_000_000_000 ≡ true
unfolding stored_lt fraction last_digits trim_right text_lt
half_before_full = refl
