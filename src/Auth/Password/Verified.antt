-- ===== src/Auth/Password/Verified.antt =====
-- A password hash is read back as it was written.
use back_orbit.Base.{
  ℕ, none, some, [], ◌∷◌, ◌++◌, Bytes, codes, ◌==◌, nat_eq, nat_beq_iff, ok, ◌≡◌, All, ◌≢◌, refl,
  arith,
}
use back_orbit.Base.Text.{bytes_eq, bytes_beq}
use back_orbit.Auth.Password.{
  Library, decode_hash, default_params, dollar, hash_password, key_length, six_parts, split,
  verify_password,
}

split-append :
    (sep : ℕ) (a b : Bytes) → All (λ c. c ≢ sep) a → split sep (a ++ (sep ∷ b)) ≡ a ∷ split sep b
unfolding split
split-append sep [] b h = ground (arith, nat_beq_iff sep sep)
split-append sep (c ∷ cs) b h = ground (arith, nat_beq_iff c sep, split-append sep cs b h.1)

split_whole : (sep : ℕ) (a : Bytes) → All (λ c. c ≢ sep) a → split sep a ≡ a ∷ []
unfolding split
split_whole sep [] h = refl
split_whole sep (c ∷ cs) h = ground (arith, nat_beq_iff c sep, split_whole sep cs h.1)

pub hash_password-none :
    (lib : Library) (password hash : Bytes) → hash_password lib none password ≢ ok hash
unfolding hash_password
hash_password-none lib password hash h = cc h

module _ (lib : Library) (salt : Bytes) where
  abbrev text : Bytes → Bytes
  text password =
      codes "$argon2id$v=19$m=65536,t=3,p=2$"
      ++ (lib.encode salt
          ++ (dollar ∷ lib.encode (lib.id_key password salt default_params key_length)))

  text_of :
      (password encoded : Bytes)
      → hash_password lib (some salt) password ≡ ok encoded
      → text password ≡ encoded
  unfolding hash_password
  text_of password encoded h = cc h

  split_text :
      (password : Bytes)
      → split dollar (text password)
        ≡ []
          ∷ codes "argon2id"
          ∷ codes "v=19"
          ∷ codes "m=65536,t=3,p=2"
          ∷ lib.encode salt
          ∷ lib.encode (lib.id_key password salt default_params key_length)
          ∷ []
  unfolding split
  split_text password =
      let key = lib.id_key password salt default_params key_length in
      let last = split_whole dollar (lib.encode key) (lib.encode_plain key) in
      rw (split-append dollar (lib.encode salt) (lib.encode key) (lib.encode_plain salt))
        (rw last refl)

  -- The fields of a hash, read back.
  pub decode_hash-hash_password :
      (password encoded : Bytes)
      → hash_password lib (some salt) password ≡ ok encoded
      → decode_hash lib encoded
        ≡ ok (default_params, salt, lib.id_key password salt default_params key_length)
  unfolding decode_hash six_parts bytes_beq
  decode_hash-hash_password password encoded h =
      rw (decode_hash, ← text_of password encoded h, split_text password)
        (rw
          (
            six_parts, lib.scan_version_19, lib.scan_params_default, lib.decode-encode,
            lib.decode-encode,
          )
          refl)

  -- A password is accepted against the hash of another exactly when Argon2id gives both one key.
  pub verify_password-hash_password :
      (password other encoded : Bytes)
      → hash_password lib (some salt) password ≡ ok encoded
      → verify_password lib encoded other
        ≡ ok (
            lib.id_key password salt default_params key_length
            == lib.id_key other salt default_params key_length)
  unfolding verify_password
  verify_password-hash_password password other encoded h =
      rw (verify_password, decode_hash-hash_password password encoded h, lib.length-id_key) refl
