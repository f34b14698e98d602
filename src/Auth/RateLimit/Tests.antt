-- ===== src/Auth/RateLimit/Tests.antt =====
-- Runs of the throttle, and its theorems at concrete inputs.
use back_orbit.Base.{
  ℕ, ◌+◌, ◌-◌, ◌≡◌, refl, true, false, List, [], ◌∷◌, arith, Bool, Bytes, codes, ltb, leb, length,
  if◌then◌else◌, ◌≢◌,
}
use back_orbit.Base.Assoc.{lookup, insert}
use back_orbit.Base.Text.{bytes_eq, bytes_beq}
use back_orbit.Auth.RateLimit.{
  Limiter, new_login_rate_limiter, allow, backoff, counted_on, count_failure, record_failure,
}
use back_orbit.Auth.RateLimit.Lockout.{record_failures, lockout}
use back_orbit.Auth.RateLimit.Gate.{logins, never_past_window}

abbrev small : Limiter
unfolding new_login_rate_limiter
small = new_login_rate_limiter 2 100 400

abbrev alice : Bytes
alice = codes "10.0.0.1:alice"

abbrev bob : Bytes
bob = codes "10.0.0.1:bob"

third_failure_blocks :
    (allow (record_failures small alice (1000 ∷ 1010 ∷ 1020 ∷ [])) alice 1119).1 ≡ false
unfolding new_login_rate_limiter record_failures record_failure count_failure counted_on backoff
    allow lookup insert bytes_beq
third_failure_blocks = refl

lockout_example :
    (allow
      (record_failure (record_failures small alice (1000 ∷ 1010 ∷ [])) alice 1020)
      alice
      1119).1
    ≡ (if ltb 2 (length {A = ℕ} (1010 ∷ []) + 2)
        then leb (1020 + backoff 100 400 (length {A = ℕ} (1010 ∷ []) + 1 - 2)) 1119
        else true)
unfolding new_login_rate_limiter lookup
lockout_example =
    lockout small alice 1000 (1010 ∷ []) 1020 1119 refl (omega arith) (omega arith) (omega arith)

alice_not_bob : alice ≢ bob
alice_not_bob e = cc

abbrev guesses : List (ℕ × ℕ × Bool)
guesses =
    (1000, 1003, false)
    ∷ (1010, 1013, false)
    ∷ (1020, 1023, false)
    ∷ (1050, 1053, false)
    ∷ (1121, 1121, false)
    ∷ (1130, 1133, false)
    ∷ (1140, 1143, false)
    ∷ []

never_past_window_example :
    (allow (logins (new_login_rate_limiter 2 100 400) alice guesses) alice 1250).1 ≡ true
never_past_window_example =
    never_past_window 2 100 400 alice guesses 1250
      (record {
        attempts_pos = omega arith;
        window_pos = omega arith;
        in_order = omega arith;
        in_range = omega arith;
      })
      (omega arith) (omega arith)
