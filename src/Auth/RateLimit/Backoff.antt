-- ===== src/Auth/RateLimit/Backoff.antt =====
-- The length of a block: the int64 shift of ratelimit.go, and where it wraps.
use native.Mathlib.Nat.{pow-suc}
use native.Mathlib.Decide.{dec_lt}
use back_orbit.Base.{
  ℕ, zero, suc, ◌+◌, ◌-◌, ◌*◌, ◌%◌, ◌^◌, ◌≤◌, ◌<◌, min, ◌≡◌, refl, Bool, true, ◌&&◌, arith, ◌==◌,
  nat_eq, eq_of_==,
}
use back_orbit.Auth.RateLimit.{backoff, login_window, login_max_backoff}

-- A block is never longer than the configured maximum.
pub backoff-le : (w m k : ℕ) → backoff w m k ≤ m
unfolding backoff
backoff-le w m k = ground arith

-- As long as the shift does not leave the int64 range, it is a doubling up to the maximum.
pub backoff_exact :
    (w m k : ℕ) → 0 < w * 2 ^ k → w * 2 ^ k < 2 ^ 63 → backoff w m k ≡ min (w * 2 ^ k) m
unfolding backoff
backoff_exact w m k pos h = ground arith

-- A test that holds for the first `count` numbers.
first_hold : (ℕ → Bool) → ℕ → Bool
first_hold test zero = true
first_hold test (suc count) = first_hold test count && test count

first_hold_at :
    (test : ℕ → Bool) (count k : ℕ) → k < count → first_hold test count ≡ true → test k ≡ true
unfolding first_hold
first_hold_at test (suc count) k below all = ground (arith, first_hold_at test count k)
first_hold_at test zero k below all = absurd (omega arith)

abbrev as_configured : ℕ → Bool
as_configured k =
    backoff login_window login_max_backoff k == min (login_window * 2 ^ k) login_max_backoff

table : first_hold as_configured 64 ≡ true
unfolding first_hold backoff
table = refl

-- Above 64 bits the shift leaves nothing.
pow_64 : (j : ℕ) → 2 ^ (j + 64) ≡ 2 ^ j * 2 ^ 64
pow_64 zero = refl
pow_64 (suc j) =
    let e : suc j + 64 ≡ suc (j + 64) = omega arith in
    rw (e, pow-suc) (omega (arith, pow_64 j, pow-suc 2 j))

shifted_out : (j w : ℕ) → (w * 2 ^ (j + 64)) % 2 ^ 64 ≡ 0
shifted_out j w = rw pow_64 (omega arith)

pow-pos : (j : ℕ) → 0 < 2 ^ j
pow-pos zero = omega arith
pow-pos (suc j) = rw pow-suc (omega (arith, pow-pos j))

long_shift : (j : ℕ) → login_max_backoff ≤ login_window * 2 ^ (j + 64)
long_shift j = rw pow_64 (omega (arith, pow-pos j))

backoff_long : (j w m : ℕ) → backoff w m (j + 64) ≡ m
unfolding backoff
backoff_long j w m = rw shifted_out

-- With the constants of server.go the block after the failure number 6 + k is 15 minutes doubled
-- k times, an hour at most, for every k: the wrap-around of the shift never gives another value.
pub backoff_configured :
    (k : ℕ)
    → backoff login_window login_max_backoff k ≡ min (login_window * 2 ^ k) login_max_backoff
backoff_configured k = elim (dec_lt k 64) [
  | yes h ↦ eq_of_== _ _ (first_hold_at as_configured 64 k h table)
  | no h ↦
      let e : k ≡ (k - 64) + 64 = omega arith in
      rw e (rw backoff_long (omega (arith, long_shift (k - 64))))
]

-- The first block lasts one window.
pub backoff-zero : (w m : ℕ) → 0 < w → w ≤ m → m < 2 ^ 63 → backoff w m 0 ≡ w
unfolding backoff
backoff-zero w m pos le h = ground arith
