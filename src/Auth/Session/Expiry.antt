-- ===== src/Auth/Session/Expiry.antt =====
-- What the periodic clean-up of sessions takes away.
use back_orbit.Base.{
  ℕ, ◌+◌, ◌/◌, ◌<◌, ◌≤◌, true, false, List, [], ◌∷◌, ◌≡◌, refl, All, Any, arith, Bool-cases, inl,
  inr, length, ok,
}
use back_orbit.Base.Times.{nanos_per_second, stored_lt, stored_lt-false, stored_lt-true}
use back_orbit.Auth.Session.{Call, Row, SessionStore, delete_before, delete_expired}

abbrev pub second : ℕ → ℕ
second t = t / nanos_per_second

delete_before-left :
    (now : ℕ) (rs : List Row) → All (λ r. second now ≤ second r.expires_at) (delete_before now rs).1
unfolding delete_before
delete_before-left now [] = tt
delete_before-left now (r ∷ rs) = elim (Bool-cases (stored_lt r.expires_at now)) [
  | inl e ↦ rw (delete_before, e) (delete_before-left now rs)
  | inr e ↦ rw (delete_before, e) (stored_lt-false r.expires_at now e, delete_before-left now rs)
]

second_clash :
    (now : ℕ) (r x : Row)
    → second now < second r.expires_at
    → x ≡ r
    → stored_lt x.expires_at now ≡ true
    → ⊥
second_clash now r x later q e =
    let le : second x.expires_at ≤ second now = stored_lt-true x.expires_at now e in
    let same : second x.expires_at ≡ second r.expires_at = cc q in omega (arith, later, le, same)

delete_before-kept :
    (now : ℕ) (r : Row) (rs : List Row)
    → second now < second r.expires_at
    → Any (λ x. x ≡ r) rs
    → Any (λ x. x ≡ r) (delete_before now rs).1
unfolding delete_before
delete_before-kept now r [] later here = elim here [ ]
delete_before-kept now r (x ∷ xs) later here = elim (Bool-cases (stored_lt x.expires_at now)) [
  | inl e ↦
      rw (delete_before, e)
        (elim here [
          | inl q ↦ absurd (second_clash now r x later q e)
          | inr h ↦ delete_before-kept now r xs later h
        ])
  | inr e ↦
      rw (delete_before, e)
        (elim here [ inl q ↦ inl q | inr h ↦ inr (delete_before-kept now r xs later h) ])
]

delete_before-count :
    (now : ℕ) (rs : List Row)
    → (delete_before now rs).0 + length (delete_before now rs).1 ≡ length rs
unfolding delete_before
delete_before-count now [] = refl
delete_before-count now (r ∷ rs) = elim (Bool-cases (stored_lt r.expires_at now)) [
  | inl e ↦ rw (delete_before, e) (omega (arith, delete_before-count now rs))
  | inr e ↦ rw (delete_before, e) (omega (arith, delete_before-count now rs))
]

-- `DeleteExpired` keeps no session that ended in an earlier second than the present one, keeps each
-- that ends in a later second, and answers how many it deleted. Condition: the statement does not
-- fail. Within the present second the order of the stored texts decides.
pub delete_expired-exact :
    (c : Call) (s : SessionStore)
    → c.fails ≡ false
    → let (answer, t) = delete_expired c s in
      All (λ r. second c.now ≤ second r.expires_at) t.rows
      × ((r : Row)
          → second c.now < second r.expires_at
          → Any (λ x. x ≡ r) s.rows
          → Any (λ x. x ≡ r) t.rows)
      × ((n : ℕ) × (answer ≡ ok n) × (n + length t.rows ≡ length s.rows))
unfolding delete_expired
delete_expired-exact c s works =
    rw (delete_expired, works)
      (
        delete_before-left c.now s.rows,
        λ r later here. delete_before-kept c.now r s.rows later here,
        ((delete_before c.now s.rows).0, refl, delete_before-count c.now s.rows),
      )
