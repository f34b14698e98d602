-- ===== src/Secrets/Access/Effects.antt =====
-- What `Put` does to the state as a whole.
use back_orbit.Base.{◌≡◌, some, arith, Bytes, Result-cases, Option-cases, inl, inr, ok, err}
use back_orbit.Crypto.{Primitives}
use back_orbit.Secrets.{Env, Error, Metadata, Store, current_key}
use back_orbit.Secrets.Access.{put, put_row}

module _ (c : Primitives) (env : Env) (kind name value : Bytes) (s t : Store) where
  -- A failed `Put` changes nothing.
  pub put_unchanged : (e : Error) → put c env kind name value s ≡ (err e, t) → t ≡ s
  unfolding put
  put_unchanged e h = elim (Result-cases (put_row c env kind name value s)) [
    | inl (row, good) ↦ absurd (ground (arith, good))
    | inr (x, bad) ↦ ground (arith, bad)
  ]

  -- A successful one found the store unlocked, and leaves it so.
  pub put_unlocked :
      (m : Metadata) → put c env kind name value s ≡ (ok m, t) → (key : Bytes) × (t.dek ≡ some key)
  unfolding put put_row current_key
  put_unlocked m h = elim (Option-cases s.dek) [
    | inl e ↦ absurd (ground (arith, e))
    | inr (key, e) ↦ (
      key,
      elim (Result-cases (put_row c env kind name value s)) [
        | inl (row, good) ↦ ground (arith, good, e)
        | inr (x, bad) ↦ absurd (ground (arith, bad))
      ],
    )
  ]
