-- ===== src/Secrets/Rotation/Rows.antt =====
-- The two loops of a rotation, row by row: every secret opens to the same bytes under the new key.
use back_orbit.Base.{
  ℕ, ◌+◌, ◌≡◌, ◌≢◌, refl, Option, none, some, List, [], ◌∷◌, arith, Bytes, ◌==◌, All, Bool-cases,
  inl, inr, Result, ok, err, map_err, ok_or, ◌∙◌, sym, ◌&&◌,
}
use back_orbit.Base.Text.{bytes_eq, bytes_beq_iff}
use back_orbit.Crypto.{Primitives, open_sealed}
use back_orbit.Crypto.Laws.{open_sealed-seal}
use back_orbit.Secrets.{Error, decrypt, not_found, Env, Secret, secret_associated_data, find_secret}
use back_orbit.Secrets.Table.{Fresh, DistinctIds}
use back_orbit.Secrets.Rotation.{Reencrypted, update_row, apply_updates, reencrypt_row, reencrypt}

-- The row `r` with what the update writes into it.
abbrev pub rewritten : ℕ → ℕ → Reencrypted → Secret → Secret
rewritten version now u r = record r {
  ciphertext = u.ciphertext;
  nonce = u.nonce;
  key_version = version;
  updated_at = now;
}

update_row-Fresh :
    (version now : ℕ) (u : Reencrypted) (rs : List Secret)
    → Fresh u.id rs
    → update_row version now u rs ≡ rs
unfolding update_row
update_row-Fresh version now u [] h = refl
update_row-Fresh version now u (r ∷ rs) h =
    ground (arith, bytes_beq_iff r.id u.id, update_row-Fresh version now u rs h.1)

-- The updates of a rotation, each written into its row.
abbrev pub rewrite_all : ℕ → ℕ → List Reencrypted → List Secret → List Secret
rewrite_all version now [] rs = rs
rewrite_all version now (u ∷ us) [] = []
rewrite_all version now (u ∷ us) (r ∷ rs) =
    rewritten version now u r ∷ rewrite_all version now us rs

-- The update `u` is for the row `r`, and holds what `r` holds, under the new key.
pub record Carries (c : Primitives) (old new : Bytes) (u : Reencrypted) (r : Secret) : Type 0 where
  pub same_id : u.id ≡ r.id
  pub plaintext : Bytes
  pub opens_old :
      open_sealed c old r.ciphertext r.nonce (secret_associated_data r.id r.kind r.name)
      ≡ ok plaintext
  pub opens_new :
      open_sealed c new u.ciphertext u.nonce (secret_associated_data r.id r.kind r.name)
      ≡ ok plaintext

abbrev pub CarriesAll : Primitives → Bytes → Bytes → List Reencrypted → List Secret → Type 0
CarriesAll c old new [] [] = Unit
CarriesAll c old new (u ∷ us) (r ∷ rs) = Carries c old new u r × CarriesAll c old new us rs
CarriesAll c old new _ _ = ⊥

module _ (c : Primitives) (old new : Bytes) where
  reencrypt_row-Carries :
      (delivered : Bytes) (r : Secret) (u : Reencrypted)
      → reencrypt_row c old new delivered r ≡ ok u
      → Carries c old new u r
  unfolding reencrypt_row
  reencrypt_row-Carries delivered r u h =
      let associated = secret_associated_data r.id r.kind r.name in
      let plaintext = ok_or [] (open_sealed c old r.ciphertext r.nonce associated) in
      record {
        same_id = ground arith;
        plaintext = plaintext;
        opens_old = ground arith;
        opens_new =
            ground
              (arith, open_sealed-seal c new plaintext associated delivered u.ciphertext u.nonce);
      }

  reencrypt-cons :
      (r : Secret) (rs : List Secret) (env : Env) (n : ℕ) (u : Reencrypted) (us : List Reencrypted)
      → reencrypt c old new env n (r ∷ rs) ≡ ok (u ∷ us)
      → (reencrypt_row c old new (env.row_nonce n) r ≡ ok u)
        × (reencrypt c old new env (n + 1) rs ≡ ok us)
  unfolding reencrypt
  reencrypt-cons r rs env n u us h = ground arith

  pub reencrypt-CarriesAll :
      (rs : List Secret) (us : List Reencrypted) (env : Env) (n : ℕ)
      → reencrypt c old new env n rs ≡ ok us
      → CarriesAll c old new us rs
  reencrypt-CarriesAll [] [] env n h = tt
  reencrypt-CarriesAll [] (u ∷ us) env n h = unfold reencrypt in ground arith
  reencrypt-CarriesAll (r ∷ rs) [] env n h = unfold reencrypt in ground arith
  reencrypt-CarriesAll (r ∷ rs) (u ∷ us) env n h =
      let (first, rest) = reencrypt-cons r rs env n u us h in
      (
        reencrypt_row-Carries (env.row_nonce n) r u first,
        reencrypt-CarriesAll rs us env (n + 1) rest,
      )

-- The second loop writes each update into its own row and nothing else.
abbrev update_all : ℕ → ℕ → List Reencrypted → List Secret → List Secret
update_all version now [] rs = rs
update_all version now (u ∷ us) rs = update_all version now us (update_row version now u rs)

apply_updates-update_all :
    (env : Env) (version : ℕ) (us : List Reencrypted) (rs out : List Secret)
    → apply_updates env version us rs ≡ ok out
    → out ≡ update_all version env.now us rs
unfolding apply_updates
apply_updates-update_all env version [] rs out h = ground arith
apply_updates-update_all env version (u ∷ us) rs out h =
    apply_updates-update_all env version us (update_row version env.now u rs) out (ground arith)

module _ (version now : ℕ) where
  update_row_other :
      (u : Reencrypted) (r : Secret) (rs : List Secret)
      → u.id ≢ r.id
      → update_row version now u (r ∷ rs) ≡ r ∷ update_row version now u rs
  unfolding update_row
  update_row_other u r rs ne = ground (arith, bytes_beq_iff r.id u.id)

  update_row_own :
      (u : Reencrypted) (r : Secret) (rs : List Secret)
      → u.id ≡ r.id
      → Fresh r.id rs
      → update_row version now u (r ∷ rs) ≡ rewritten version now u r ∷ rs
  unfolding update_row
  update_row_own u r rs e h =
      ground (arith, bytes_beq_iff r.id u.id, update_row-Fresh version now u rs (rw e h))

  update_all_other :
      (us : List Reencrypted) (r : Secret) (rs : List Secret)
      → All (λ u. u.id ≢ r.id) us
      → update_all version now us (r ∷ rs) ≡ r ∷ update_all version now us rs
  update_all_other [] r rs h = refl
  update_all_other (u ∷ us) r rs h =
      rw (update_row_other u r rs h.0) (update_all_other us r (update_row version now u rs) h.1)

  module _ (c : Primitives) (old new : Bytes) where
    CarriesAll-ids :
        (i : Bytes) (us : List Reencrypted) (rs : List Secret)
        → CarriesAll c old new us rs
        → Fresh i rs
        → All (λ u. u.id ≢ i) us
    CarriesAll-ids i [] rs ca h = tt
    CarriesAll-ids i (u ∷ us) [] ca h = absurd ca
    CarriesAll-ids i (u ∷ us) (r ∷ rs) ca h =
        ((λ e. h.0 (sym (ca.0.same_id) ∙ e)), CarriesAll-ids i us rs ca.1 h.1)

    update_all-rewrite_all :
        (us : List Reencrypted) (rs : List Secret)
        → CarriesAll c old new us rs
        → DistinctIds rs
        → update_all version now us rs ≡ rewrite_all version now us rs
    update_all-rewrite_all [] rs ca d = refl
    update_all-rewrite_all (u ∷ us) [] ca d = absurd ca
    update_all-rewrite_all (u ∷ us) (r ∷ rs) ca d = rw (update_row_own u r rs ca.0.same_id d.0) (
        update_all_other us (rewritten version now u r) rs (CarriesAll-ids r.id us rs ca.1 d.0)
        ∙ rw (update_all-rewrite_all us rs ca.1 d.1))

module _ (c : Primitives) (old new : Bytes) (env : Env) (version : ℕ) where
  -- What the two loops leave in the table.
  pub loops-rewrite_all :
      (us : List Reencrypted) (rs out : List Secret)
      → CarriesAll c old new us rs
      → DistinctIds rs
      → apply_updates env version us rs ≡ ok out
      → out ≡ rewrite_all version env.now us rs
  loops-rewrite_all us rs out ca d h =
      apply_updates-update_all env version us rs out h
      ∙ update_all-rewrite_all version env.now c old new us rs ca d

-- Reading one secret with a key that is at hand.
abbrev pub read_row : Primitives → Bytes → Bytes → Bytes → Option Secret → Result Error Bytes
read_row c key kind name none = err not_found
read_row c key kind name (some r) =
    map_err (decrypt kind name)
      (open_sealed c key r.ciphertext r.nonce (secret_associated_data r.id kind name))

module _ (c : Primitives) (old new : Bytes) (version now : ℕ) (kind name : Bytes) where
  read_row-Carries :
      (u : Reencrypted) (r : Secret)
      → r.kind ≡ kind
      → r.name ≡ name
      → Carries c old new u r
      → read_row c new kind name (some (rewritten version now u r))
        ≡ read_row c old kind name (some r)
  read_row-Carries u r ek en ca = rw (← ek, ← en) (rw (ca.opens_new, ca.opens_old))

  pub read_row-rewrite_all :
      (us : List Reencrypted) (rs : List Secret)
      → CarriesAll c old new us rs
      → read_row c new kind name (find_secret kind name (rewrite_all version now us rs))
        ≡ read_row c old kind name (find_secret kind name rs)
  unfolding find_secret
  read_row-rewrite_all [] [] ca = refl
  read_row-rewrite_all (u ∷ us) (r ∷ rs) ca = elim (Bool-cases (r.kind == kind && r.name == name)) [
    | inl e ↦ rw e (
        read_row-Carries u r (ground (arith, bytes_beq_iff r.kind kind))
          (ground (arith, bytes_beq_iff r.name name)) ca.0)
    | inr e ↦ rw e (read_row-rewrite_all us rs ca.1)
  ]
  read_row-rewrite_all _ _ ca = absurd ca
