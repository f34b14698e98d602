-- ===== src/Auth/Password.antt =====
-- internal/auth/password.go: password hashes. Argon2id, the random reader, RawStdEncoding and
-- `fmt.Sscanf` are parameters.
pub mod Verified
use back_orbit.Base.{
  ℕ, Bool, true, false, Option, none, some, List, [], ◌∷◌, ◌++◌, Bytes, codes, ◌==◌, if◌then◌else◌,
  nat_eq, length, Result, ok, err, ◌>>=◌, ◌>>◌, guard, or_fail, ◌≡◌, All, ◌≢◌,
}
use back_orbit.Base.Text.{bytes_eq}

pub data PasswordError : Type 0 where
  no_salt invalid_format invalid_version unsupported_version invalid_params invalid_salt
        invalid_digest :
      PasswordError

-- `keyLength` and `saltLength` are no part of the text.
pub record Params : Type 0 where
  pub memory : ℕ
  pub iterations : ℕ
  pub parallelism : ℕ

abbrev pub default_params : Params
default_params = record { memory = 65_536; iterations = 3; parallelism = 2 }

abbrev pub key_length : ℕ
key_length = 32

abbrev pub version : ℕ
version = 19

abbrev pub dollar : ℕ
dollar = b'$'

-- The functions of other packages, and what is documented of them.
pub record Library : Type 0 where
  -- password, salt, parameters, length
  pub id_key : Bytes → Bytes → Params → ℕ → Bytes
  pub encode : Bytes → Bytes
  pub decode : Bytes → Option Bytes
  -- `Sscanf(s, "v=%d")` and `Sscanf(s, "m=%d,t=%d,p=%d")`
  pub scan_version : Bytes → Option ℕ
  pub scan_params : Bytes → Option Params
  pub length-id_key : (p s : Bytes) (q : Params) (n : ℕ) → length (id_key p s q n) ≡ n
  pub decode-encode : (b : Bytes) → decode (encode b) ≡ some b
  pub encode_plain : (b : Bytes) → All (λ c. c ≢ dollar) (encode b)
  pub scan_version_19 : scan_version (codes "v=19") ≡ some version
  pub scan_params_default : scan_params (codes "m=65536,t=3,p=2") ≡ some default_params

abbrev pub cons_head : ℕ → List Bytes → List Bytes
cons_head c [] = (c ∷ []) ∷ []
cons_head c (w ∷ ws) = (c ∷ w) ∷ ws

-- strings.Split with a separator of one byte
unfoldable pub split : ℕ → Bytes → List Bytes
split sep [] = [] ∷ []
split sep (c ∷ cs) = let rest = split sep cs in if c == sep then [] ∷ rest else cons_head c rest

unfoldable pub six_parts : List Bytes → Option (Bytes × Bytes × Bytes × Bytes × Bytes)
six_parts (_ ∷ a ∷ b ∷ c ∷ d ∷ e ∷ []) = some (a, b, c, d, e)
six_parts _ = none

module _ (lib : Library) where
  -- `HashPassword`, with the salt that the random reader delivered, if it did.
  unfoldable pub hash_password : Option Bytes → Bytes → Result PasswordError Bytes
  hash_password random password = do
    salt ← or_fail random no_salt
    ok (
        codes "$argon2id$v=19$m=65536,t=3,p=2$"
        ++ (lib.encode salt
            ++ (dollar ∷ lib.encode (lib.id_key password salt default_params key_length))))

  unfoldable pub decode_hash : Bytes → Result PasswordError (Params × Bytes × Bytes)
  decode_hash encoded = do
    parts ← or_fail (six_parts (split dollar encoded)) invalid_format
    guard (parts.0 == codes "argon2id") invalid_format
    found ← or_fail (lib.scan_version parts.1) invalid_version
    guard (found == version) unsupported_version
    params ← or_fail (lib.scan_params parts.2) invalid_params
    salt ← or_fail (lib.decode parts.3) invalid_salt
    hash ← or_fail (lib.decode parts.4) invalid_digest
    ok (params, salt, hash)

  -- `VerifyPassword`
  unfoldable pub verify_password : Bytes → Bytes → Result PasswordError Bool
  verify_password encoded password = do
    stored ← decode_hash encoded
    ok (stored.2 == lib.id_key password stored.1 stored.0 (length stored.2))
