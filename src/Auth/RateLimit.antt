-- ===== src/Auth/RateLimit.antt =====
-- internal/auth/ratelimit.go: the login throttle, and its use by the login handler of
-- internal/api/auth.go. A time is its nanoseconds since Go's zero time, which is 0; every call of
-- `time.Now` is an argument `now`. The mutex makes each method one step.
pub mod Backoff
pub mod Lockout
pub mod Gate
mod Tests
use back_orbit.Base.{
  ℕ, ◌+◌, ◌-◌, ◌*◌, ◌%◌, ◌^◌, Bool, true, false, ◌&&◌, ◌||◌, Option, none, some, [], Bytes, ltb,
  leb, ◌==◌, nat_eq, if◌then◌else◌,
}
use back_orbit.Base.Text.{bytes_eq}
use back_orbit.Base.Assoc.{Assoc, lookup, insert, remove}

pub record Attempts : Type 0 where
  pub failures : ℕ
  pub window_start : ℕ
  pub blocked_until : ℕ

pub record Limiter : Type 0 where
  pub records : Assoc Bytes Attempts
  pub max_attempts : ℕ
  pub window : ℕ
  pub max_backoff : ℕ

unfoldable pub new_login_rate_limiter : ℕ → ℕ → ℕ → Limiter
new_login_rate_limiter max_attempts window max_backoff = record {
  records = [];
  max_attempts = max_attempts;
  window = window;
  max_backoff = max_backoff;
}

-- The body of `Allow` behind the read of the map. `Before` is `<`, and a difference of times is
-- compared with the window only from above, so the stop of `-` at 0 changes no answer.
allow_record : Limiter → Bytes → ℕ → Option Attempts → Limiter × Bool
allow_record l key now none = (l, true)
allow_record l key now (some rec) =
    if ltb now rec.blocked_until
    then (l, false)
    else if ltb l.window (now - rec.window_start) && rec.blocked_until == 0
    then (record l { records = remove key l.records }, true)
    else (l, true)

unfoldable pub allow : Limiter → Bytes → ℕ → Limiter × Bool
unfolding allow_record
allow l key now = allow_record l key now (lookup key l.records)

-- `window << k` on an int64, and the test that follows it. The number computed is the bit pattern:
-- it is negative from 2 ^ 63 on.
pub backoff : ℕ → ℕ → ℕ → ℕ
backoff window max_backoff k =
    let b = (window * 2 ^ k) % 2 ^ 64 in
    if leb (2 ^ 63) b || b == 0 || ltb max_backoff b then max_backoff else b

-- The record that a failure is counted on: the stored one, or a new one where there is none or
-- its window has passed.
pub counted_on : ℕ → ℕ → Option Attempts → Attempts
counted_on window now none = record { failures = 0; window_start = now; blocked_until = 0 }
counted_on window now (some rec) =
    if ltb window (now - rec.window_start)
    then record { failures = 0; window_start = now; blocked_until = 0 }
    else rec

pub count_failure : Limiter → ℕ → Attempts → Attempts
count_failure l now rec =
    let n = rec.failures + 1 in
    if ltb l.max_attempts n
    then record rec {
      failures = n;
      blocked_until = now + backoff l.window l.max_backoff (n - l.max_attempts - 1);
    }
    else record rec { failures = n }

pub record_failure : Limiter → Bytes → ℕ → Limiter
record_failure l key now = record l {
  records =
      insert key (count_failure l now (counted_on l.window now (lookup key l.records))) l.records;
}

pub record_success : Limiter → Bytes → Limiter
record_success l key = record l { records = remove key l.records }

-- What `handleLogin` does to the throttle: a refused request ends there, and another one is
-- counted by whether `Authenticate` (the flag) accepted it. `Allow` reads the clock at `now`, and
-- `RecordFailure`, after the password check, at `later`. The result says if it was let through.
pub handle_login : Limiter → Bytes → ℕ → ℕ → Bool → Limiter × Bool
handle_login l key now later authenticated =
    let (l', allowed) = allow l key now in
    if allowed
    then (if authenticated then record_success l' key else record_failure l' key later, true)
    else (l', false)

-- The constants of internal/api/server.go, in nanoseconds.
abbrev pub second : ℕ
second = 1_000_000_000

abbrev pub login_max_attempts : ℕ
login_max_attempts = 5

abbrev pub login_window : ℕ
login_window = 15 * 60 * second

abbrev pub login_max_backoff : ℕ
login_max_backoff = 60 * 60 * second
