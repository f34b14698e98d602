-- ===== src/Auth/RateLimit/Lockout.antt =====
-- What repeated failures inside one window lead to, and that a key is throttled by itself.
use back_orbit.Base.{
  ap, ℕ, suc, ◌+◌, ◌-◌, ◌≤◌, ◌<◌, ◌≡◌, ◌≢◌, refl, ◌∙◌, Bool, true, Option, none, some, List, [],
  ◌∷◌, arith, Bytes, ltb, leb, if◌then◌else◌, length, All, ==_refl,
}
use back_orbit.Base.Text.{bytes_beq_iff, bytes_eq}
use back_orbit.Base.Assoc.{lookup, lookup-insert, lookup-remove}
use back_orbit.Auth.RateLimit.{
  Attempts, Limiter, allow, backoff, counted_on, count_failure, record_failure, record_success,
  handle_login,
}

-- The throttle after failures of one key at these times.
unfoldable pub record_failures : Limiter → Bytes → List ℕ → Limiter
record_failures l key [] = l
record_failures l key (t ∷ ts) = record_failures (record_failure l key t) key ts

pub lookup-record_failure_self :
    (l : Limiter) (key : Bytes) (now : ℕ)
    → lookup key (record_failure l key now).records
      ≡ some (count_failure l now (counted_on l.window now (lookup key l.records)))
unfolding record_failure
lookup-record_failure_self l key now = rw (lookup-insert, ==_refl key)

-- `n` failures have been counted in the window that began at `start`.
record Counting (l : Limiter) (key : Bytes) (start n : ℕ) : Type 0 where
  until : ℕ
  stored :
      lookup key l.records
      ≡ some (record { failures = n; window_start = start; blocked_until = until })
  unblocked : n ≤ l.max_attempts → until ≡ 0

Counting-record_failure :
    (l : Limiter) (key : Bytes) (start n t : ℕ)
    → t - start ≤ l.window
    → Counting l key start n
    → Counting (record_failure l key t) key start (suc n)
unfolding count_failure counted_on
Counting-record_failure l key start n t near c = record {
  until =
      if ltb l.max_attempts (n + 1)
      then t + backoff l.window l.max_backoff (n + 1 - l.max_attempts - 1)
      else c.until;
  stored = lookup-record_failure_self l key t ∙ rw c.stored (ground arith);
  unblocked = unfold record_failure in ground (arith, c.unblocked);
}

Counting-start :
    (l : Limiter) (key : Bytes) (t : ℕ)
    → lookup key l.records ≡ none
    → 0 < l.max_attempts
    → Counting (record_failure l key t) key t 1
unfolding count_failure counted_on
Counting-start l key t e pos = record {
  until = 0;
  stored = lookup-record_failure_self l key t ∙ rw e (ground arith);
  unblocked = λ _. refl;
}

module _ {key : Bytes} {start : ℕ} where
  Counting-record_failures :
      (ts : List ℕ) (l : Limiter) (n : ℕ)
      → All (λ t. t - start ≤ l.window) ts
      → Counting l key start n
      → Counting (record_failures l key ts) key start (n + length ts)
  unfolding record_failures
  Counting-record_failures [] l n h c = let e : n + 0 ≡ n = omega arith in rw e c
  Counting-record_failures (t ∷ ts) l n h c =
      let e : n + suc (length ts) ≡ suc n + length ts = omega arith in
      rw e (
        Counting-record_failures ts (record_failure l key t) (suc n) (unfold record_failure in h.1)
          (Counting-record_failure l key start n t h.0 c))

config-record_failures :
    (ts : List ℕ) (l : Limiter) (key : Bytes)
    → let l' = record_failures l key ts in
      (l'.max_attempts ≡ l.max_attempts) × (l'.window ≡ l.window) × (l'.max_backoff ≡ l.max_backoff)
unfolding record_failures record_failure
config-record_failures [] l key = (refl, refl, refl)
config-record_failures (t ∷ ts) l key = config-record_failures ts (record_failure l key t) key

-- The answer for a key whose record is known.
allow-stored :
    (l : Limiter) (key : Bytes) (now : ℕ) {rec : Attempts}
    → lookup key l.records ≡ some rec
    → (allow l key now).1 ≡ leb rec.blocked_until now
unfolding allow
allow-stored l key now e = rw e (ground arith)

same_backoff : {w v m n : ℕ} → w ≡ v → m ≡ n → (k : ℕ) → backoff w m k ≡ backoff v n k
same_backoff p q k = cc

shift_eq : (k m : ℕ) → suc k + 1 - m - 1 ≡ k + 1 - m
shift_eq k m = omega arith

lockout_last :
    (l0 l : Limiter) (key : Bytes) (t0 k t now : ℕ)
    → (l.max_attempts ≡ l0.max_attempts) × (l.window ≡ l0.window) × (l.max_backoff ≡ l0.max_backoff)
    → Counting l key t0 (suc k)
    → t - t0 ≤ l0.window
    → (allow (record_failure l key t) key now).1 ≡ (
        if ltb l0.max_attempts (k + 2)
        then leb (t + backoff l0.window l0.max_backoff (k + 1 - l0.max_attempts)) now
        else true)
unfolding count_failure counted_on
lockout_last l0 l key t0 k t now (m, w, b) c near =
    allow-stored (record_failure l key t) key now (lookup-record_failure_self l key t)
    ∙ rw c.stored (
        ground (
          arith,
          c.unblocked,
          same_backoff w b (suc k + 1 - l.max_attempts - 1),
          ap (backoff l0.window l0.max_backoff) (shift_eq k l0.max_attempts),
        ))

-- From a key with no record, failures at `t0`, then at `ts`, then at `t`, all within one window of
-- `t0`: if there are more of them than `max_attempts`, the key is refused exactly until `t` plus
-- the back-off for the surplus; if there are no more, it is let through at any time.
pub lockout :
    (l : Limiter) (key : Bytes) (t0 : ℕ) (ts : List ℕ) (t now : ℕ)
    → lookup key l.records ≡ none
    → 0 < l.max_attempts
    → All (λ u. u - t0 ≤ l.window) ts
    → t - t0 ≤ l.window
    → (allow (record_failure (record_failures l key (t0 ∷ ts)) key t) key now).1 ≡ (
        if ltb l.max_attempts (length ts + 2)
        then leb (t + backoff l.window l.max_backoff (length ts + 1 - l.max_attempts)) now
        else true)
unfolding record_failures record_failure
lockout l key t0 ts t now fresh pos near at =
    let l1 = record_failure l key t0 in
    let l2 = record_failures l1 key ts in
    let e : suc (length ts) ≡ 1 + length ts = omega arith in
    let c : Counting l2 key t0 (suc (length ts)) =
      rw e (Counting-record_failures ts l1 1 near (Counting-start l key t0 fresh pos)) in
    lockout_last l l2 key t0 (length ts) t now (config-record_failures ts l1 key) c at

lookup-allow_other :
    (l : Limiter) (key other : Bytes) (now : ℕ)
    → key ≢ other
    → lookup other (allow l key now).0.records ≡ lookup other l.records
unfolding allow
lookup-allow_other l key other now ne =
    ground (arith, lookup-remove key other l.records, bytes_beq_iff key other)

lookup-handle_login_other :
    (l : Limiter) (key other : Bytes) (now later : ℕ) (authenticated : Bool)
    → key ≢ other
    → lookup other (handle_login l key now later authenticated).0.records ≡ lookup other l.records
unfolding handle_login record_success record_failure
lookup-handle_login_other l key other now later authenticated ne =
    let l' = (allow l key now).0 in
    ground (
      arith,
      lookup-allow_other l key other now ne,
      bytes_beq_iff key other,
      lookup-remove key other l'.records,
      lookup-insert key other
          (count_failure l' later (counted_on l'.window later (lookup key l'.records))) l'.records,
    )

answer : Limiter → ℕ → Option Attempts → Bool
answer l now none = true
answer l now (some rec) = leb rec.blocked_until now

allow-answer :
    (l : Limiter) (key : Bytes) (now : ℕ)
    → (allow l key now).1 ≡ answer l now (lookup key l.records)
unfolding allow answer
allow-answer l key now = ground arith

-- What happens to one key changes nothing for another.
pub other_key :
    (l : Limiter) (key other : Bytes) (now verdict later : ℕ) (authenticated : Bool)
    → key ≢ other
    → (allow (handle_login l key now verdict authenticated).0 other later).1
      ≡ (allow l other later).1
unfolding answer
other_key l key other now verdict later authenticated ne = ground (
  arith,
  allow-answer (handle_login l key now verdict authenticated).0 other later,
  allow-answer l other later,
  lookup-handle_login_other l key other now verdict authenticated ne,
)
