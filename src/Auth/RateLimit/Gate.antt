-- ===== src/Auth/RateLimit/Gate.antt =====
-- The throttle as the login handler drives it: requests for one key, one after another.
use back_orbit.Base.{
  ℕ, ◌+◌, ◌-◌, ◌^◌, ◌≤◌, ◌<◌, ◌≡◌, refl, ◌∙◌, Bool, true, false, ◌&&◌, Option, none, some, List, [],
  ◌∷◌, arith, Bytes, ltb, ◌==◌, nat_eq, if◌then◌else◌, ==_refl, Bool-cases, Option-cases, inl, inr,
}
use back_orbit.Base.Text.{bytes_eq}
use back_orbit.Base.Assoc.{lookup, remove, lookup-remove}
use back_orbit.Auth.RateLimit.{
  Attempts, Limiter, new_login_rate_limiter, allow, backoff, counted_on, count_failure,
  record_failure, record_success, handle_login,
}
use back_orbit.Auth.RateLimit.Backoff.{backoff-zero}
use back_orbit.Auth.RateLimit.Lockout.{lookup-record_failure_self}

-- What the record of a key looks like after requests up to time `last`.
record Settled (m w last : ℕ) (rec : Attempts) : Type 0 where
  begun : rec.window_start ≤ last
  counted : 1 ≤ rec.failures
  moved : 2 ≤ rec.failures → rec.window_start < last
  open_below : rec.failures ≤ m → rec.blocked_until ≡ 0
  one_surplus : rec.failures ≤ m + 1
  past_window : m < rec.failures → rec.window_start + w < rec.blocked_until
  short : rec.blocked_until ≤ last + w

abbrev SettledAt : ℕ → ℕ → ℕ → Option Attempts → Type 0
SettledAt m w last none = Unit
SettledAt m w last (some rec) = Settled m w last rec

-- The limits that the constants of server.go meet.
pub record IsSane (max_attempts window max_backoff : ℕ) : Type 0 where
  pub attempts_pos : 0 < max_attempts
  pub window_pos : 0 < window
  pub in_order : window ≤ max_backoff
  pub in_range : max_backoff < 2 ^ 63

at_surplus : (w m n k : ℕ) → n ≡ k + 1 → backoff w m (n - k - 1) ≡ backoff w m 0
at_surplus w m n k e = let z : n - k - 1 ≡ 0 = omega arith in rw z

-- A failure that was let through is counted on a record that stays settled.
Settled-count_failure :
    (l : Limiter) (last now : ℕ) (o : Option Attempts)
    → IsSane l.max_attempts l.window l.max_backoff
    → last < now
    → SettledAt l.max_attempts l.window last o
    → ((rec : Attempts) → o ≡ some rec → rec.blocked_until ≤ now)
    → Settled l.max_attempts l.window now (count_failure l now (counted_on l.window now o))
unfolding count_failure counted_on
Settled-count_failure l last now none sane lt s ok = record {
  begun = ground arith;
  counted = ground arith;
  moved = ground arith;
  open_below = ground arith;
  one_surplus = ground arith;
  past_window = ground (arith, sane.attempts_pos);
  short = ground (arith, sane.attempts_pos);
}
Settled-count_failure l last now (some rec) sane lt s ok =
    let first = backoff-zero l.window l.max_backoff sane.window_pos sane.in_order sane.in_range in
    let at = at_surplus l.window l.max_backoff (rec.failures + 1) l.max_attempts in
    record {
      begun = ground (arith, ok rec refl);
      counted = ground (arith, ok rec refl);
      moved = ground (arith, ok rec refl);
      open_below = ground (arith, ok rec refl);
      one_surplus = ground (arith, ok rec refl, sane.attempts_pos);
      past_window = ground (arith, ok rec refl, sane.attempts_pos, first, at);
      short = ground (arith, ok rec refl, sane.attempts_pos, first, at);
    }

config-handle_login :
    (l : Limiter) (key : Bytes) (now later : ℕ) (authenticated : Bool)
    → let l' = (handle_login l key now later authenticated).0 in
      (l'.max_attempts ≡ l.max_attempts) × (l'.window ≡ l.window) × (l'.max_backoff ≡ l.max_backoff)
unfolding handle_login allow record_failure record_success
config-handle_login l key now later authenticated = ground arith

-- Reading the map first: what `Allow` leaves of the record, and its answer.
allow-none :
    (l : Limiter) (key : Bytes) (now : ℕ)
    → lookup key l.records ≡ none
    → allow l key now ≡ (l, true)
unfolding allow
allow-none l key now e = rw e

allow-some :
    (l : Limiter) (key : Bytes) (now : ℕ) {rec : Attempts}
    → lookup key l.records ≡ some rec
    → allow l key now ≡ (
        if ltb now rec.blocked_until
        then (l, false)
        else if ltb l.window (now - rec.window_start) && rec.blocked_until == 0
        then (record l { records = remove key l.records }, true)
        else (l, true))
unfolding allow
allow-some l key now e = rw e

SettledAt-later :
    (m w last now : ℕ) (o : Option Attempts)
    → last < now
    → SettledAt m w last o
    → SettledAt m w now o
SettledAt-later m w last now none lt s = tt
SettledAt-later m w last now (some rec) lt s = ground arith

module _ (l : Limiter) (key : Bytes) (last now later : ℕ)
    (sane : IsSane l.max_attempts l.window l.max_backoff) (lt : last < now) (le : now ≤ later) where
  abbrev After : Limiter → Type 0
  After l' = SettledAt l.max_attempts l.window later (lookup key l'.records)

  After-success : After (record_success l key)
  unfolding record_success
  After-success = rw (lookup-remove, ==_refl key) tt

  module _ (s : SettledAt l.max_attempts l.window last (lookup key l.records)) where
    After-failure :
        ((rec : Attempts) → lookup key l.records ≡ some rec → rec.blocked_until ≤ later)
        → After (record_failure l key later)
    After-failure due =
        rw lookup-record_failure_self
          (Settled-count_failure l last later (lookup key l.records) sane (omega arith) s due)

    After-allowed :
        (authenticated : Bool)
        → ((rec : Attempts) → lookup key l.records ≡ some rec → rec.blocked_until ≤ now)
        → allow l key now ≡ (l, true)
        → After (handle_login l key now later authenticated).0
    unfolding handle_login
    After-allowed true due e = rw e After-success
    After-allowed false due e = rw e (After-failure (λ rec f. let d = due rec f in omega arith))

    After-refused :
        (authenticated : Bool)
        → allow l key now ≡ (l, false)
        → After (handle_login l key now later authenticated).0
    unfolding handle_login
    After-refused authenticated e =
        rw e (
          SettledAt-later l.max_attempts l.window last later (lookup key l.records) (omega arith) s)

-- A record that `Allow` drops is counted on as if there had been none.
after_dropped :
    (l : Limiter) (key : Bytes) (last now later : ℕ) (authenticated : Bool)
    → IsSane l.max_attempts l.window l.max_backoff
    → last < now
    → now ≤ later
    → allow l key now ≡ (record l { records = remove key l.records }, true)
    → SettledAt l.max_attempts l.window later
        (lookup key (handle_login l key now later authenticated).0.records)
unfolding handle_login
after_dropped l key last now later authenticated sane lt le e =
    let l' = record l { records = remove key l.records } in
    let gone : lookup key l'.records ≡ none = rw (lookup-remove, ==_refl key) in
    elim (Bool-cases authenticated) [
      | inl y ↦ rw (e, y) (After-success l' key last now later sane lt le)
      | inr n ↦
          rw (e, n)
            (After-failure l' key last now later sane lt le (rw gone tt)
              (λ rec f. ground (arith, gone)))
    ]

lookup-handle_login :
    (l : Limiter) (key : Bytes) (last now later : ℕ) (authenticated : Bool)
    → IsSane l.max_attempts l.window l.max_backoff
    → last < now
    → now ≤ later
    → SettledAt l.max_attempts l.window last (lookup key l.records)
    → SettledAt l.max_attempts l.window later
        (lookup key (handle_login l key now later authenticated).0.records)
lookup-handle_login l key last now later authenticated sane lt le s =
    elim (Option-cases (lookup key l.records)) [
      | inl e ↦
          After-allowed l key last now later sane lt le s authenticated (λ rec f. ground arith)
            (allow-none l key now e)
      | inr (rec, e) ↦ elim (Bool-cases (ltb now rec.blocked_until)) [
        | inl early ↦
            After-refused l key last now later sane lt le s authenticated
              (rw (allow-some l key now e, early))
        | inr due ↦
            elim (Bool-cases (ltb l.window (now - rec.window_start) && rec.blocked_until == 0)) [
              | inl old ↦
                  after_dropped l key last now later authenticated sane lt le
                    (rw (allow-some l key now e, due, old))
              | inr kept ↦
                  After-allowed l key last now later sane lt le s authenticated
                    (λ r f. ground arith) (rw (allow-some l key now e, due, kept))
            ]
      ]
    ]

-- The requests of one key: when each comes, when its verdict is there, and what `Authenticate` said.
pub logins : Limiter → Bytes → List (ℕ × ℕ × Bool) → Limiter
logins l key [] = l
logins l key ((now, later, authenticated) ∷ rest) =
    logins (handle_login l key now later authenticated).0 key rest

abbrev pub Increasing : ℕ → List (ℕ × ℕ × Bool) → Type 0
Increasing last [] = Unit
Increasing last ((now, later, _) ∷ rest) = (last < now) × (now ≤ later) × Increasing later rest

abbrev pub last_time : ℕ → List (ℕ × ℕ × Bool) → ℕ
last_time last [] = last
last_time last ((now, later, _) ∷ rest) = last_time later rest

logins-SettledAt :
    (rs : List (ℕ × ℕ × Bool)) (l : Limiter) (key : Bytes) (last m w b : ℕ)
    → (l.max_attempts ≡ m) × (l.window ≡ w) × (l.max_backoff ≡ b)
    → IsSane m w b
    → Increasing last rs
    → SettledAt m w last (lookup key l.records)
    → SettledAt m w (last_time last rs) (lookup key (logins l key rs).records)
unfolding logins
logins-SettledAt [] l key last m w b c sane inc s = s
logins-SettledAt ((now, later, a) ∷ rs) l key last m w b c sane inc s =
    let c' = config-handle_login l key now later a in
    logins-SettledAt rs (handle_login l key now later a).0 key later m w b
      (c'.0 ∙ c.0, c'.1 ∙ c.1, c'.2 ∙ c.2) sane inc.2
      (rw (← c.0, ← c.1)
        (lookup-handle_login l key last now later a (rw (← c.0, ← c.1, ← c.2) at sane) inc.0 inc.1
          (rw (← c.0, ← c.1) at s)))

short_of : (m w last : ℕ) (rec : Attempts) → Settled m w last rec → rec.blocked_until ≤ last + w
short_of m w last rec s = s.short

allow_after :
    (m w last now : ℕ) (l : Limiter) (key : Bytes)
    → SettledAt m w last (lookup key l.records)
    → last + w ≤ now
    → (allow l key now).1 ≡ true
allow_after m w last now l key s h = elim (Option-cases (lookup key l.records)) [
  | inl e ↦ rw (allow-none l key now e)
  | inr (rec, e) ↦ rw (allow-some l key now e) (ground (arith, short_of m w last rec (rw e at s)))
]

-- However long the history of requests for a key, one window after the last of them the key is let
-- through: no block lasts longer than one window, also where `max_backoff` is larger. This is for
-- requests that come one after another: each comes strictly after the verdict on the one before.
pub never_past_window :
    (m w b : ℕ) (key : Bytes) (rs : List (ℕ × ℕ × Bool)) (now : ℕ)
    → IsSane m w b
    → Increasing 0 rs
    → last_time 0 rs + w ≤ now
    → (allow (logins (new_login_rate_limiter m w b) key rs) key now).1 ≡ true
never_past_window m w b key rs now sane inc h =
    let l = logins (new_login_rate_limiter m w b) key rs in
    let s : SettledAt m w (last_time 0 rs) (lookup key l.records) =
      logins-SettledAt rs (new_login_rate_limiter m w b) key 0 m w b
        (unfold new_login_rate_limiter in (refl, refl, refl)) sane inc
        (unfold new_login_rate_limiter lookup in tt) in
    allow_after m w (last_time 0 rs) now l key s h
