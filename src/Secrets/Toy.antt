-- ===== src/Secrets/Toy.antt =====
-- A cipher that meets what the store relies on, for runs of the store: it binds the key, the nonce
-- and the associated data, and hides nothing.
use back_orbit.Base.{
  ℕ, zero, suc, ◌≡◌, ◌≢◌, refl, ap, Option, none, some, [], ◌∷◌, arith, Bytes, length,
  if◌then◌else◌, ◌==◌, nat_eq, nat_beq_iff,
}
use back_orbit.Crypto.{Primitives}
use back_orbit.Crypto.Laws.{BindsAssociated}

unfoldable pub bind : Bytes → Bytes → Bytes
bind [] p = 0 ∷ p
bind (x ∷ a) p = suc x ∷ bind a p

unfoldable pub unbind : Bytes → Bytes → Option Bytes
unbind [] (zero ∷ p) = some p
unbind (x ∷ a) (suc y ∷ c) = if x == y then unbind a c else none
unbind _ _ = none

unbind-bind : (a p : Bytes) → unbind a (bind a p) ≡ some p
unfolding bind unbind
unbind-bind [] p = refl
unbind-bind (x ∷ a) p = ground (arith, unbind-bind a p)

unbind-bind_other : (a b p : Bytes) → a ≢ b → unbind b (bind a p) ≡ none
unfolding bind unbind
unbind-bind_other [] [] p ne = absurd (ne refl)
unbind-bind_other [] (y ∷ b) p ne = refl
unbind-bind_other (x ∷ a) [] p ne = refl
unbind-bind_other (x ∷ a) (y ∷ b) p ne = ground (arith, nat_beq_iff y x, unbind-bind_other a b p)

-- Exactly n bytes: cut off, or filled up with zeros.
unfoldable pub fit : ℕ → Bytes → Bytes
fit zero s = []
fit (suc n) [] = 0 ∷ fit n []
fit (suc n) (x ∷ s) = x ∷ fit n s

pub fit-length : (n : ℕ) (s : Bytes) → length (fit n s) ≡ n
unfolding fit
fit-length zero s = refl
fit-length (suc n) [] = ap suc (fit-length n [])
fit-length (suc n) (x ∷ s) = ap suc (fit-length n s)

unfoldable pub then_unbind : Bytes → Option Bytes → Option Bytes
then_unbind a none = none
then_unbind a (some c) = unbind a c

pub toy_seal : Bytes → Bytes → Bytes → Bytes → Bytes
toy_seal key nonce plaintext associated = bind key (bind nonce (bind associated plaintext))

pub toy_open : Bytes → Bytes → Bytes → Bytes → Option Bytes
toy_open key nonce ciphertext associated =
    then_unbind associated (then_unbind nonce (unbind key ciphertext))

pub toy_open-seal :
    (key nonce plaintext associated : Bytes)
    → toy_open key nonce (toy_seal key nonce plaintext associated) associated ≡ some plaintext
unfolding toy_open toy_seal then_unbind
toy_open-seal key nonce plaintext associated = simp unbind-bind

unfoldable pub toy : Primitives
unfolding toy_seal toy_open bind unbind fit then_unbind
toy = record {
  id_key = λ passphrase salt t m p. fit 32 passphrase;
  aead_seal = toy_seal;
  aead_open = toy_open;
  id_key_length = λ passphrase salt t m p. fit-length 32 passphrase;
  aead_open_seal =
      λ key nonce plaintext associated hk hn. toy_open-seal key nonce plaintext associated;
}

pub toy-BindsAssociated : BindsAssociated toy
unfolding toy_open toy_seal then_unbind toy
toy-BindsAssociated key nonce plaintext associated other ne =
    simp (unbind-bind, unbind-bind_other associated other plaintext ne)
