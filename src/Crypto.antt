-- ===== src/Crypto.antt =====
-- internal/crypto/crypto.go: the checks around Argon2id and XChaCha20-Poly1305. The two primitives
-- come from golang.org/x/crypto: they are a record of functions here, with the two facts about them
-- that the code relies on. What the random reader delivers is an argument of each call.
pub mod Laws
use back_orbit.Base.{
  ℕ, ◌*◌, ◌≡◌, Bool, Option, none, some, Bytes, length, take, ltb, leb, ◌==◌, nat_eq, Result, ok,
  err, ◌>>=◌, ◌>>◌, guard,
}

abbrev pub key_size : ℕ
key_size = 32

abbrev pub nonce_size : ℕ
nonce_size = 24

abbrev pub salt_size : ℕ
salt_size = 16

-- `argon2.IDKey` at length `key_size`, and the AEAD that `chacha20poly1305.NewX` returns for a key.
pub record Primitives : Type 0 where
  pub id_key : Bytes → Bytes → ℕ → ℕ → ℕ → Bytes
  pub aead_seal : Bytes → Bytes → Bytes → Bytes → Bytes
  pub aead_open : Bytes → Bytes → Bytes → Bytes → Option Bytes
  pub id_key_length :
      (passphrase salt : Bytes) (t m p : ℕ) → length (id_key passphrase salt t m p) ≡ key_size
  pub aead_open_seal :
      (key nonce plaintext associated : Bytes)
      → length key ≡ key_size
      → length nonce ≡ nonce_size
      → aead_open key nonce (aead_seal key nonce plaintext associated) associated ≡ some plaintext

pub data CryptoError : Type 0 where
  decrypt_failed bad_time_cost bad_memory_cost bad_parallelism short_salt bad_key_size
        random_failed :
      CryptoError

pub record KdfParams : Type 0 where
  pub time_cost : ℕ  -- uint32
  pub memory_kib : ℕ  -- uint32
  pub parallelism : ℕ  -- uint8

unfoldable pub default_kdf_params : KdfParams
default_kdf_params = record { time_cost = 4; memory_kib = 256 * 1024; parallelism = 4 }

-- `randomBytes`: `io.ReadFull` fails if the reader delivers too little.
unfoldable pub random_bytes : ℕ → Bytes → Result CryptoError Bytes
random_bytes n delivered = do guard (leb n (length delivered)) random_failed; ok (take n delivered)

unfoldable pub new_salt : Bytes → Result CryptoError Bytes
new_salt = random_bytes salt_size

unfoldable pub new_key : Bytes → Result CryptoError Bytes
new_key = random_bytes key_size

-- The cases of the switch, in its order.
unfoldable pub validate : KdfParams → Result CryptoError (Unit {0})
validate p = do
  guard (leb 1 p.time_cost) bad_time_cost
  guard (leb (8 * 1024) p.memory_kib) bad_memory_cost
  guard (leb 1 p.parallelism) bad_parallelism

module _ (c : Primitives) where
  unfoldable pub derive_key : Bytes → Bytes → KdfParams → Result CryptoError Bytes
  derive_key passphrase salt p = do
    guard (leb salt_size (length salt)) short_salt
    validate p
    ok (c.id_key passphrase salt p.time_cost p.memory_kib p.parallelism)

  -- The ciphertext and the nonce.
  unfoldable pub seal : Bytes → Bytes → Bytes → Bytes → Result CryptoError (Bytes × Bytes)
  seal key plaintext associated delivered = do
    guard (length key == key_size) bad_key_size
    nonce ← random_bytes nonce_size delivered
    ok (c.aead_seal key nonce plaintext associated, nonce)

  opened : Option Bytes → Result CryptoError Bytes
  opened none = err decrypt_failed
  opened (some plaintext) = ok plaintext

  unfoldable pub open_sealed : Bytes → Bytes → Bytes → Bytes → Result CryptoError Bytes
  unfolding opened
  open_sealed key ciphertext nonce associated = do
    guard (length key == key_size) bad_key_size
    guard (length nonce == nonce_size) decrypt_failed
    opened (c.aead_open key nonce ciphertext associated)
