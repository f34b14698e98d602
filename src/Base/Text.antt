-- ===== src/Base/Text.antt =====
-- Go strings and byte slices: lists of bytes.
pub mod Trim
use Prim.Native.Nat.{ℕ}
use Prim.Native.Char.{code}
use Prim.Native.String.{String}
use mathlib.Core.Path.{◌≡◌}
use mathlib.Core.Logic.{◌↔◌, ◌≢◌}
use mathlib.Core.Bool.{Bool, true, false, ◌&&◌, ◌||◌}
use mathlib.Core.List.{List, [], ◌∷◌}
use native.Mathlib.Omega.{arith}
use back_orbit.Base.Tests.{nat_beq, if◌then◌else◌, Eq}

abbrev pub Bytes : Type 0
Bytes = List ℕ

-- The bytes of an ASCII literal.
abbrev pub codes : String → Bytes
codes String.[] = []
codes (String.◌∷◌ c s) = code c ∷ codes s

unfoldable pub bytes_beq : Bytes → Bytes → Bool
bytes_beq [] [] = true
bytes_beq (x ∷ xs) (y ∷ ys) = nat_beq x y && bytes_beq xs ys
bytes_beq _ _ = false

pub bytes_beq_iff : (a b : Bytes) → (bytes_beq a b ≡ true) ↔ (a ≡ b)
unfolding bytes_beq
bytes_beq_iff (x ∷ a) (y ∷ b) = ground (arith, bytes_beq_iff a b)
bytes_beq_iff _ _ = ground arith

instance abbrev pub bytes_eq : Eq Bytes
bytes_eq = record { beq = bytes_beq; beq_iff = bytes_beq_iff }

-- strings.TrimRight, TrimLeft and Trim, with the cutset as a test.
module _ (cut : ℕ → Bool) where
  unfoldable pub trim_left : Bytes → Bytes
  trim_left [] = []
  trim_left (x ∷ xs) = let rest = trim_left xs in if cut x then rest else x ∷ xs

  abbrev pub cons_kept : ℕ → Bytes → Bytes
  cons_kept x [] = if cut x then [] else x ∷ []
  cons_kept x (y ∷ ys) = x ∷ y ∷ ys

  unfoldable pub trim_right : Bytes → Bytes
  trim_right [] = []
  trim_right (x ∷ xs) = cons_kept x (trim_right xs)

  abbrev pub trim : Bytes → Bytes
  trim s = trim_right (trim_left s)

-- strings.TrimSpace on ASCII.
abbrev pub is_space : ℕ → Bool
is_space c =
    nat_beq c b' '
    || nat_beq c b'\t'
    || nat_beq c b'\n'
    || nat_beq c b'\r'
    || nat_beq c 11
    || nat_beq c 12

abbrev pub trim_space : Bytes → Bytes
trim_space = trim is_space

pub ne_of_bytes_beq : (a b : Bytes) → bytes_beq a b ≡ false → a ≢ b
ne_of_bytes_beq a b h e = cc ((bytes_beq_iff a b).1 e)

pub bytes_beq-ne : (a b : Bytes) → a ≢ b → bytes_beq a b ≡ false
bytes_beq-ne a b h = ground (arith, bytes_beq_iff a b)
