-- ===== src/Secrets/Access/Binding.antt =====
-- A ciphertext is bound to the row it was made for: `secretAssociatedData` of
-- internal/secrets/store.go tells rows apart, so a row that was handed another row's ciphertext
-- does not decrypt.
use back_orbit.Base.{
  ◌≡◌, ◌≢◌, false, none, some, [], ◌∷◌, ◌++◌, arith, Bytes, length, All, inl, inr, ◌⊎◌, err,
}
use back_orbit.Crypto.{Primitives, decrypt_failed, key_size, nonce_size}
use back_orbit.Crypto.Laws.{BindsAssociated, open_sealed-none}
use back_orbit.Secrets.{
  decrypt, select_secret, Env, Secret, Store, find_secret, current_key, secret_associated_data,
}
use back_orbit.Secrets.Access.{get}

abbrev pub NoSlash : Bytes → Type 0
NoSlash = All (λ b. b ≢ b'/')

-- What stands before the first slash is determined.
split_slash :
    (a b x y : Bytes)
    → NoSlash a
    → NoSlash b
    → a ++ (b'/' ∷ x) ≡ b ++ (b'/' ∷ y)
    → (a ≡ b) × (x ≡ y)
split_slash [] [] x y ha hb e = ground arith
split_slash [] (d ∷ b) x y ha hb e = absurd (hb.0 (ground arith))
split_slash (d ∷ a) [] x y ha hb e = absurd (ha.0 (ground arith))
split_slash (d ∷ a) (d' ∷ b) x y ha hb e =
    let (p, q) = split_slash a b x y ha.1 hb.1 (ground arith) in (ground arith, q)

-- Two rows have the same associated data only if they agree in id, kind and name, provided that
-- ids and kinds hold no slash (they are uuids and one of five words); names may hold any byte.
pub associated_data_injective :
    (id kind name id' kind' name' : Bytes)
    → NoSlash id
    → NoSlash kind
    → NoSlash id'
    → NoSlash kind'
    → secret_associated_data id kind name ≡ secret_associated_data id' kind' name'
    → (id ≡ id') × (kind ≡ kind') × (name ≡ name')
unfolding secret_associated_data
associated_data_injective id kind name id' kind' name' hi hk hi' hk' e =
    let (ei, rest) = split_slash id id' _ _ hi hi' (cc) in
    let (ek, en) = split_slash kind kind' name name' hk hk' rest in (ei, ek, en)

differ : {a b x y u v : Bytes} → (a ≡ b) × (x ≡ y) × (u ≡ v) → (a ≢ b) ⊎ (x ≢ y) ⊎ (u ≢ v) → ⊥
differ (p, q, r) (inl n) = n p
differ (p, q, r) (inr (inl n)) = n q
differ (p, q, r) (inr (inr n)) = n r

-- Where the row found under `kind` and `name` holds a ciphertext that was sealed for another secret
-- (another id, kind or name), `Get` reports the failed decryption and no value.
pub get_moved_ciphertext :
    (c : Primitives) (env : Env) (kind name key plaintext id' kind' name' : Bytes) (s : Store)
    (r : Secret)
    → BindsAssociated c
    → env.fails select_secret ≡ false
    → s.dek ≡ some key
    → length key ≡ key_size
    → length r.nonce ≡ nonce_size
    → find_secret kind name s.db.secrets ≡ some r
    → NoSlash r.id
    → NoSlash kind
    → NoSlash id'
    → NoSlash kind'
    → (id' ≢ r.id) ⊎ (kind' ≢ kind) ⊎ (name' ≢ name)
    → r.ciphertext ≡ c.aead_seal key r.nonce plaintext (secret_associated_data id' kind' name')
    → get c env kind name s ≡ err (decrypt kind name decrypt_failed)
unfolding get current_key
get_moved_ciphertext c env kind name key plaintext id' kind' name' s r binds works held hk hn found
      hi hkd hi' hkd' other moved =
    let apart : secret_associated_data id' kind' name' ≢ secret_associated_data r.id kind name =
      λ e.
        differ (associated_data_injective id' kind' name' r.id kind name hi' hkd' hi hkd e) other in
    let closed : c.aead_open key r.nonce r.ciphertext (secret_associated_data r.id kind name)
        ≡ none =
      rw moved (binds key r.nonce plaintext _ _ apart) in
    let failed =
      open_sealed-none c key r.ciphertext r.nonce (secret_associated_data r.id kind name) hk hn
        closed in
    ground arith
