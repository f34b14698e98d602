-- ===== src/Secrets/Access/RoundTrip.antt =====
-- What `Get` gives after a `Put` or a `Delete`.
use back_orbit.Base.{
  ℕ, ◌≡◌, ◌≢◌, sym, ◌∙◌, false, ◌&&◌, Option, none, some, [], arith, Bytes, ◌==◌, inl, inr, ◌⊎◌, ap,
  Result, ok, err, ok_or, Result-cases, Option-cases,
}
use back_orbit.Base.Text.{bytes_eq, bytes_beq_iff}
use back_orbit.Crypto.{Primitives, open_sealed}
use back_orbit.Crypto.Laws.{open_sealed-seal}
use back_orbit.Secrets.{
  Error, not_found, select_secret, delete_secret, Env, Secret, Metadata, Store, find_secret, upsert,
  current_key, metadata, metadata_of, secret_associated_data, delete,
}
use back_orbit.Secrets.Table.{
  Fresh, DistinctIds, Owned, overwritten, Owned-of_Fresh, Owned-of_find, find-upsert_known,
  find-upsert_new, find-upsert_other, find-delete_secrets, find-delete_secrets_other,
}
use back_orbit.Secrets.Access.{known_or_new, sealed_row, put_row, put, get}

abbrev the_key : Option Bytes → Bytes
the_key none = []
the_key (some k) = k

module _ (c : Primitives) (env : Env) (kind name value : Bytes) (s : Store) where
  sealed_row_parts :
      (id key : Bytes) (version created : ℕ) (row : Secret)
      → sealed_row c env id kind name value key version created ≡ ok row
      → (row.id ≡ id)
        × (row.kind ≡ kind)
        × (row.name ≡ name)
        × (open_sealed c key row.ciphertext row.nonce (secret_associated_data row.id kind name)
            ≡ ok value)
  unfolding sealed_row
  sealed_row_parts id key version created row h =
      let associated = secret_associated_data id kind name in
      (
        ground arith,
        ground arith,
        ground arith,
        ground (arith, open_sealed-seal c key value associated env.nonce row.ciphertext row.nonce),
      )

  abbrev identity : Bytes × ℕ
  identity = ok_or ([], 0) (known_or_new env (metadata env s kind name))

  put_row_parts :
      (row : Secret)
      → put_row c env kind name value s ≡ ok row
      → (s.dek ≡ some (the_key s.dek))
        × (known_or_new env (metadata env s kind name) ≡ ok identity)
        × (sealed_row c env identity.0 kind name value (the_key s.dek) s.key_version identity.1
            ≡ ok row)
  unfolding put_row current_key
  put_row_parts row h = (ground arith, ground arith, ground arith)

-- An existing secret keeps its identity, and a new one takes the generated id.
known_or_new_cases :
    (env : Env) (kind name : Bytes) (s : Store) (i : Bytes) (t : ℕ)
    → known_or_new env (metadata env s kind name) ≡ ok (i, t)
    → ((e : Secret) × (find_secret kind name s.db.secrets ≡ some e) × (i ≡ e.id))
      ⊎ ((find_secret kind name s.db.secrets ≡ none) × (i ≡ env.uuid))
unfolding known_or_new metadata
known_or_new_cases env kind name s i t h =
    elim (Option-cases (find_secret kind name s.db.secrets)) [
      | inl e ↦ inr (e, ground arith)
      | inr (r, e) ↦ inl (r, e, ground arith)
    ]

-- The row that a successful `Put` writes, and how it lies in the table.
record Written (c : Primitives) (env : Env) (kind name value : Bytes) (s : Store) (row : Secret)
    : Type 0 where
  key : Bytes
  held : s.dek ≡ some key
  same_kind : row.kind ≡ kind
  same_name : row.name ≡ name
  opens :
      open_sealed c key row.ciphertext row.nonce (secret_associated_data row.id kind name)
      ≡ ok value
  place :
      ((e : Secret) × (find_secret kind name s.db.secrets ≡ some e) × (row.id ≡ e.id))
      ⊎ ((find_secret kind name s.db.secrets ≡ none) × (row.id ≡ env.uuid))

put_row-Written :
    (c : Primitives) (env : Env) (kind name value : Bytes) (s : Store) (row : Secret)
    → put_row c env kind name value s ≡ ok row
    → Written c env kind name value s row
put_row-Written c env kind name value s row h =
    let (held, who, sealed) = put_row_parts c env kind name value s row h in
    let who_is = identity c env kind name value s in
    let (ei, ek, en, opens) =
      sealed_row_parts c env kind name value s who_is.0 (the_key s.dek) s.key_version who_is.1 row
        sealed in
    record {
      key = the_key s.dek;
      held = held;
      same_kind = ek;
      same_name = en;
      opens = opens;
      place = rw ei (known_or_new_cases env kind name s who_is.0 who_is.1 who);
    }

-- The row that stands under the kind and the name after the write opens like the written one.
find-Written :
    (c : Primitives) (env : Env) (kind name value : Bytes) (s : Store) (row : Secret)
    → DistinctIds s.db.secrets
    → Fresh env.uuid s.db.secrets
    → (w : Written c env kind name value s row)
    → (r : Secret) × (find_secret kind name (upsert row s.db.secrets) ≡ some r)
      × (open_sealed c w.key r.ciphertext r.nonce (secret_associated_data r.id kind name)
          ≡ ok value)
find-Written c env kind name value s row d f w = elim w.place [
  | inl (e, found, i) ↦ (
    overwritten row e,
    find-upsert_known kind name row e s.db.secrets d i found,
    rw (← i) w.opens,
  )
  | inr (missing, i) ↦ (
    row,
    find-upsert_new kind name row s.db.secrets (rw i f) w.same_kind w.same_name missing,
    w.opens,
  )
]

Written-Owned :
    (c : Primitives) (env : Env) (kind name value : Bytes) (s : Store) (row : Secret)
    → DistinctIds s.db.secrets
    → Fresh env.uuid s.db.secrets
    → Written c env kind name value s row
    → Owned row s.db.secrets
Written-Owned c env kind name value s row d f w = elim w.place [
  | inl (e, found, i) ↦ Owned-of_find row e s.db.secrets d i (rw (w.same_kind, w.same_name) found)
  | inr (missing, i) ↦ Owned-of_Fresh row s.db.secrets (rw i f)
]

-- What `put` left, if it succeeded.
put_outcome :
    (c : Primitives) (env : Env) (kind name value : Bytes) (s : Store)
    → ((row : Secret) × (put_row c env kind name value s ≡ ok row)
        × (put c env kind name value s ≡ (
          ok (metadata_of row),
          record s { db = record s.db { secrets = upsert row s.db.secrets } },
        )))
      ⊎ ((e : Error) × (put c env kind name value s ≡ (err e, s)))
unfolding put
put_outcome c env kind name value s = elim (Result-cases (put_row c env kind name value s)) [
  | inl (row, e) ↦ inl (row, e, rw e)
  | inr (x, e) ↦ inr (x, rw e)
]

get_by :
    (c : Primitives) (env : Env) (kind name key value : Bytes) (s : Store) (r : Secret)
    → s.dek ≡ some key
    → env.fails select_secret ≡ false
    → find_secret kind name s.db.secrets ≡ some r
    → open_sealed c key r.ciphertext r.nonce (secret_associated_data r.id kind name) ≡ ok value
    → get c env kind name s ≡ ok value
unfolding get current_key
get_by c env kind name key value s r held works found opens = ground arith

-- After a successful `Put`, `Get` gives back the value, be the secret new or replaced. Conditions:
-- the ids of the table are distinct, the generated id is none of them, and the select works.
pub get-put :
    (c : Primitives) (env env' : Env) (kind name value : Bytes) (s s' : Store) (m : Metadata)
    → DistinctIds s.db.secrets
    → Fresh env.uuid s.db.secrets
    → put c env kind name value s ≡ (ok m, s')
    → env'.fails select_secret ≡ false
    → get c env' kind name s' ≡ ok value
get-put c env env' kind name value s s' m d f h works = elim (put_outcome c env kind name value s) [
  | inr (x, failed) ↦ absurd (ground arith)
  | inl (row, made, done) ↦
      let w = put_row-Written c env kind name value s row made in
      let (r, found, opens) = find-Written c env kind name value s row d f w in
      let after : s' ≡ record s { db = record s.db { secrets = upsert row s.db.secrets } } =
        ap (λ (p : Result Error Metadata × Store). p.1) (sym h ∙ done) in
      rw after (
        get_by c env' kind name w.key value
          (record s { db = record s.db { secrets = upsert row s.db.secrets } }) r w.held works found
          opens)
]

-- A `Put`, successful or not, changes nothing for any other kind and name.
pub get-put_other :
    (c : Primitives) (env env' : Env) (kind name value kind' name' : Bytes) (s : Store)
    → DistinctIds s.db.secrets
    → Fresh env.uuid s.db.secrets
    → (kind ≢ kind') ⊎ (name ≢ name')
    → get c env' kind' name' (put c env kind name value s).1 ≡ get c env' kind' name' s
unfolding get current_key
get-put_other c env env' kind name value kind' name' s d f ne =
    elim (put_outcome c env kind name value s) [
      | inr (x, failed) ↦ rw failed
      | inl (row, made, done) ↦
          let w = put_row-Written c env kind name value s row made in
          let miss : (row.kind == kind' && row.name == name') ≡ false = ground (
            arith,
            w.same_kind,
            w.same_name,
            bytes_beq_iff row.kind kind',
            bytes_beq_iff row.name name',
          ) in
          rw done (
            rw (
              find-upsert_other kind' name' row s.db.secrets
                (Written-Owned c env kind name value s row d f w) miss))
    ]

-- After a `Delete` that succeeded the secret is gone, and every other one reads as before; deleting
-- a secret that is not there is no error.
pub get-delete :
    (c : Primitives) (env env' : Env) (kind name kind' name' key : Bytes) (s : Store)
    → env.fails delete_secret ≡ false
    → env'.fails select_secret ≡ false
    → s.dek ≡ some key
    → (kind ≢ kind') ⊎ (name ≢ name')
    → ((delete env kind name s).0 ≡ ok tt)
      × (get c env' kind name (delete env kind name s).1 ≡ err not_found)
      × (get c env' kind' name' (delete env kind name s).1 ≡ get c env' kind' name' s)
unfolding get current_key delete
get-delete c env env' kind name kind' name' key s deletes works held ne = (
  ground arith,
  ground (arith, find-delete_secrets kind name s.db.secrets),
  ground (arith, find-delete_secrets_other kind' name' kind name s.db.secrets ne),
)
