-- ===== src/Crypto/Laws.antt =====
-- What the callers of internal/crypto rely on.
use back_orbit.Base.{
  ℕ, zero, suc, ◌≤◌, ◌≡◌, ◌≢◌, refl, none, [], ◌∷◌, arith, Bytes, length, take, nat_eq, ok, err,
  List,
}
use back_orbit.Crypto.{
  decrypt_failed, Primitives, KdfParams, key_size, nonce_size, random_bytes, new_key, derive_key,
  seal, open_sealed, validate,
}

length-take : {A : Type 0} (n : ℕ) (xs : List A) → n ≤ length xs → length (take n xs) ≡ n
length-take zero xs h = refl
length-take (suc n) [] h = elim h [ ]
length-take (suc n) (x ∷ xs) h = omega (arith, length-take n xs)

pub random_bytes-length : (n : ℕ) (d b : Bytes) → random_bytes n d ≡ ok b → length b ≡ n
unfolding random_bytes
random_bytes-length n d b h = ground (arith, length-take n d)

pub new_key-length : (d k : Bytes) → new_key d ≡ ok k → length k ≡ key_size
unfolding new_key
new_key-length d k h = random_bytes-length key_size d k h

module _ (c : Primitives) where
  pub derive_key-length :
      (passphrase salt : Bytes) (p : KdfParams) (k : Bytes)
      → derive_key c passphrase salt p ≡ ok k
      → length k ≡ key_size
  unfolding derive_key validate
  derive_key-length passphrase salt p k h =
      ground (arith, c.id_key_length passphrase salt p.time_cost p.memory_kib p.parallelism)

  -- What is sealed opens to the same bytes, with the key, the nonce and the associated data it was
  -- sealed with.
  pub open_sealed-seal :
      (key plaintext associated delivered ciphertext nonce : Bytes)
      → seal c key plaintext associated delivered ≡ ok (ciphertext, nonce)
      → open_sealed c key ciphertext nonce associated ≡ ok plaintext
  unfolding seal open_sealed
  open_sealed-seal key plaintext associated delivered ciphertext nonce h = ground (
    arith,
    c.aead_open_seal key nonce plaintext associated,
    random_bytes-length nonce_size delivered nonce,
  )

  pub seal-key_size :
      (key plaintext associated delivered : Bytes) {r : Bytes × Bytes}
      → seal c key plaintext associated delivered ≡ ok r
      → length key ≡ key_size
  unfolding seal
  seal-key_size key plaintext associated delivered h = ground arith

  pub open_sealed-none :
      (key ciphertext nonce associated : Bytes)
      → length key ≡ key_size
      → length nonce ≡ nonce_size
      → c.aead_open key nonce ciphertext associated ≡ none
      → open_sealed c key ciphertext nonce associated ≡ err decrypt_failed
  unfolding open_sealed
  open_sealed-none key ciphertext nonce associated hk hn e = ground arith

-- The authentication of the associated data, as AEADs document it: what was sealed with some
-- associated data does not open with other. It is a hypothesis where it is used.
abbrev pub BindsAssociated : Primitives → Type 0
BindsAssociated c =
    (key nonce plaintext associated other : Bytes)
    → associated ≢ other
    → c.aead_open key nonce (c.aead_seal key nonce plaintext associated) other ≡ none
