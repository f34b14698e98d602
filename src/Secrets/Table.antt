-- ===== src/Secrets/Table.antt =====
-- The table `secrets` under the statements of internal/secrets/store.go: what a select finds after
-- an upsert or a delete, and the constraints that the schema puts on the rows.
use back_orbit.Base.{
  ◌≡◌, ◌≢◌, refl, sym, ◌∙◌, false, ◌&&◌, none, some, List, [], ◌∷◌, arith, Bytes, ◌==◌, All,
  Bool-cases, inl, inr, ◌⊎◌,
}
use back_orbit.Base.Text.{bytes_eq, bytes_beq_iff}
use back_orbit.Secrets.{Secret, find_secret, upsert, delete_secrets}

-- No row has this id.
abbrev pub Fresh : Bytes → List Secret → Type 0
Fresh i = All (λ r. r.id ≢ i)

-- The primary key.
abbrev pub DistinctIds : List Secret → Type 0
DistinctIds [] = Unit
DistinctIds (r ∷ rs) = Fresh r.id rs × DistinctIds rs

-- A row with the id of `s` is the row of the same kind and name.
abbrev pub Owned : Secret → List Secret → Type 0
Owned s = All (λ r. r.id ≡ s.id → (r.kind ≡ s.kind) × (r.name ≡ s.name))

-- The row `r` with what an upsert of `s` writes into it.
abbrev pub overwritten : Secret → Secret → Secret
overwritten s r = record r {
  ciphertext = s.ciphertext;
  nonce = s.nonce;
  key_version = s.key_version;
  updated_at = s.updated_at;
}

module _ (kind name : Bytes) where
  find-Fresh :
      (i : Bytes) (rs : List Secret) (e : Secret)
      → Fresh i rs
      → find_secret kind name rs ≡ some e
      → e.id ≢ i
  unfolding find_secret
  find-Fresh i [] e f h = cc
  find-Fresh i (r ∷ rs) e f h = elim (Bool-cases (r.kind == kind && r.name == name)) [
    | inl hit ↦ λ p. f.0 (ground arith)
    | inr miss ↦ find-Fresh i rs e f.1 (ground arith)
  ]

  -- An upsert under the id of the row that is there is what the next select finds.
  pub find-upsert_known :
      (s e : Secret) (rs : List Secret)
      → DistinctIds rs
      → s.id ≡ e.id
      → find_secret kind name rs ≡ some e
      → find_secret kind name (upsert s rs) ≡ some (overwritten s e)
  unfolding find_secret upsert
  find-upsert_known s e [] d i h = cc
  find-upsert_known s e (r ∷ rs) d i h = elim (Bool-cases (r.kind == kind && r.name == name)) [
    | inl hit ↦ ground (arith, bytes_beq_iff r.id s.id)
    | inr miss ↦
        let rest : find_secret kind name rs ≡ some e = ground arith in
        let other = find-Fresh r.id rs e d.0 rest in
        ground (arith, bytes_beq_iff r.id s.id, find-upsert_known s e rs d.1 i rest)
  ]

  -- An upsert under a new id is found where nothing was found before.
  pub find-upsert_new :
      (s : Secret) (rs : List Secret)
      → Fresh s.id rs
      → s.kind ≡ kind
      → s.name ≡ name
      → find_secret kind name rs ≡ none
      → find_secret kind name (upsert s rs) ≡ some s
  unfolding find_secret upsert
  find-upsert_new s [] f ek en h =
      ground (arith, bytes_beq_iff s.kind kind, bytes_beq_iff s.name name)
  find-upsert_new s (r ∷ rs) f ek en h =
      ground (arith, bytes_beq_iff r.id s.id, find-upsert_new s rs f.1 ek en)

  -- No other select finds anything new.
  pub find-upsert_other :
      (s : Secret) (rs : List Secret)
      → Owned s rs
      → (s.kind == kind && s.name == name) ≡ false
      → find_secret kind name (upsert s rs) ≡ find_secret kind name rs
  unfolding find_secret upsert
  find-upsert_other s [] o ne = ground arith
  find-upsert_other s (r ∷ rs) o ne =
      ground (arith, bytes_beq_iff r.id s.id, o.0, find-upsert_other s rs o.1 ne)

  -- A delete leaves nothing to find.
  pub find-delete_secrets :
      (rs : List Secret) → find_secret kind name (delete_secrets kind name rs) ≡ none
  unfolding find_secret delete_secrets
  find-delete_secrets [] = refl
  find-delete_secrets (r ∷ rs) = ground (arith, find-delete_secrets rs)

  pub find-delete_secrets_other :
      (kind' name' : Bytes) (rs : List Secret)
      → (kind' ≢ kind) ⊎ (name' ≢ name)
      → find_secret kind name (delete_secrets kind' name' rs) ≡ find_secret kind name rs
  unfolding find_secret delete_secrets
  find-delete_secrets_other kind' name' [] ne = refl
  find-delete_secrets_other kind' name' (r ∷ rs) ne = ground (
    arith,
    bytes_beq_iff r.kind kind,
    bytes_beq_iff r.name name,
    bytes_beq_iff r.kind kind',
    bytes_beq_iff r.name name',
    find-delete_secrets_other kind' name' rs ne,
  )

pub Owned-of_Fresh : (s : Secret) (rs : List Secret) → Fresh s.id rs → Owned s rs
Owned-of_Fresh s [] f = tt
Owned-of_Fresh s (r ∷ rs) f = ((λ e. absurd (f.0 e)), Owned-of_Fresh s rs f.1)

-- The id of a row that was found belongs to its kind and name.
pub Owned-of_find :
    (s e : Secret) (rs : List Secret)
    → DistinctIds rs
    → s.id ≡ e.id
    → find_secret s.kind s.name rs ≡ some e
    → Owned s rs
unfolding find_secret
Owned-of_find s e [] d i h = tt
Owned-of_find s e (r ∷ rs) d i h = elim (Bool-cases (r.kind == s.kind && r.name == s.name)) [
  | inl hit ↦
      let own : r ≡ e = ground arith in
      (
        (λ _. (
          ground (arith, bytes_beq_iff r.kind s.kind),
          ground (arith, bytes_beq_iff r.name s.name),
        )),
        Owned-of_Fresh s rs (rw (i, ← own) d.0),
      )
  | inr miss ↦
      let rest : find_secret s.kind s.name rs ≡ some e = ground arith in
      (
        (λ p. absurd (find-Fresh s.kind s.name r.id rs e d.0 rest (sym i ∙ sym p))),
        Owned-of_find s e rs d.1 i rest,
      )
]
