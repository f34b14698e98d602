-- ===== src/Repositories/Creation.antt =====
-- What `Create` leaves behind.
use back_orbit.Base.{
  Bool, false, Option, some, List, [], ◌∷◌, ◌++◌, Bytes, trim_space, Result, ok, err, ◌≡◌, ◌⊎◌,
  arith, inl, inr, Result-cases, ap, ◌∙◌,
}
use back_orbit.Base.Text.{bytes_eq, bytes_beq_iff}
use back_orbit.Crypto.{Primitives}
use back_orbit.Secrets
use back_orbit.Secrets.{delete_secret, select_secret, not_found}
use back_orbit.Secrets.Table.{DistinctIds, Fresh}
use back_orbit.Secrets.Access
use back_orbit.Secrets.Access.RoundTrip.{get-put, get-delete}
use back_orbit.Secrets.Access.Effects.{put_unchanged, put_unlocked}
use back_orbit.Repositories.{
  DbStep, Repository, RepositoryError, State, find_row, get, get_row, has_name_or_id, insert, local,
}
use back_orbit.Repositories.Locations.{Locations}
use back_orbit.Repositories.Service.{
  Answers, CreateRequest, RepositoryConfig, check_create, create, engine_config, new_repository,
  repository_kind, store_repository, validate_create,
}

find_row-insert :
    (r : Repository) (rows : List Repository)
    → has_name_or_id r rows ≡ false
    → find_row r.id (rows ++ (r ∷ [])) ≡ some r
unfolding find_row has_name_or_id
find_row-insert r [] h = ground (arith, bytes_beq_iff r.id r.id)
find_row-insert r (x ∷ xs) h = ground (arith, find_row-insert r xs)

get-found :
    (fails : DbStep → Bool) (r : Repository) (rows : List Repository)
    → fails get_row ≡ false
    → find_row r.id rows ≡ some r
    → get fails r.id rows ≡ ok r
unfolding get
get-found fails r rows reads found = ground (arith, found)

abbrev config_with :
    RepositoryConfig → Repository → Result RepositoryError (RepositoryConfig × Repository)
config_with x r = ok (x, r)

insert-made :
    (a : Answers) (r : Repository) (rows after : List Repository)
    → insert a.fails r rows ≡ ok after
    → (after ≡ rows ++ (r ∷ [])) × (has_name_or_id r rows ≡ false)
unfolding insert
insert-made a r rows after h = ground arith

validate_create-local : (req : CreateRequest) → validate_create req ≡ ok tt → req.kind ≡ local
unfolding validate_create
validate_create-local req h = ground arith

check_create-local :
    (a : Answers) (places : Option Locations) (req : CreateRequest)
    → check_create a places req ≡ ok tt
    → req.kind ≡ local
unfolding check_create
check_create-local a places req h = elim (Result-cases (validate_create req)) [
  | inl (_, good) ↦ validate_create-local req good
  | inr (e, bad) ↦ absurd (ground (arith, bad))
]

module _ (c : Primitives) (a : Answers) (s t : State) where
  -- What the second half of `Create` made, when it succeeded.
  store_repository-made :
      (r x : Repository) (password : Bytes)
      → store_repository c a r password s ≡ (ok x, t)
      → (x ≡ r)
        × (has_name_or_id r s.rows ≡ false)
        × (t.rows ≡ s.rows ++ (r ∷ []))
        × ((m : Secrets.Metadata) × (Access.put c a.secret_env repository_kind r.id password
                s.secrets
              ≡ (ok m, t.secrets)))
  unfolding store_repository
  store_repository-made r x password h =
      let put = Access.put c a.secret_env repository_kind r.id password s.secrets in
      elim (Result-cases put.0) [
        | inr (e, bad) ↦ absurd (ground (arith, bad))
        | inl (m, good) ↦ elim (Result-cases (insert a.fails r s.rows)) [
          | inr (e, bad) ↦ absurd (ground (arith, good, bad))
          | inl (rows, done) ↦
              let (grown, fresh) = insert-made a r s.rows rows done in
              (
                ground (arith, good, done),
                fresh,
                ground (arith, good, done, grown),
                (m, ground (arith, good, done)),
              )
        ]
      ]

  -- What it left, when it failed.
  store_repository-failed :
      (r : Repository) (password : Bytes) (e : RepositoryError)
      → store_repository c a r password s ≡ (err e, t)
      → (t.rows ≡ s.rows)
        × ((t.secrets ≡ s.secrets)
            ⊎ ((m : Secrets.Metadata) × (kept : Secrets.Store) × (Access.put c a.secret_env
                    repository_kind r.id password s.secrets
                  ≡ (ok m, kept))
                × (t.secrets ≡ (Secrets.delete a.undo_env repository_kind r.id kept).1)))
  unfolding store_repository
  store_repository-failed r password e h =
      let put = Access.put c a.secret_env repository_kind r.id password s.secrets in
      elim (Result-cases put.0) [
        | inr (x, bad) ↦
            let same : put.1 ≡ s.secrets =
              put_unchanged c a.secret_env repository_kind r.id password s.secrets put.1 x
                (ground (arith, bad)) in
            (ground (arith, bad), inl (ground (arith, bad, same)))
        | inl (m, good) ↦ elim (Result-cases (insert a.fails r s.rows)) [
          | inl (rows, done) ↦ absurd (ground (arith, good, done))
          | inr (x, bad) ↦ (
            ground (arith, good, bad),
            inr (m, put.1, ground (arith, good), ground (arith, good, bad)),
          )
        ]
      ]

module _ (c : Primitives) (a b : Answers) (places : Option Locations) (req : CreateRequest)
    (s t : State) where
  create-stored :
      (r : Repository)
      → create c a places req s ≡ (ok r, t)
      → (req.kind ≡ local)
        × (store_repository c a (new_repository a req) req.password s ≡ (ok r, t))
  unfolding create
  create-stored r h = elim (Result-cases (check_create a places req)) [
    | inl (_, good) ↦ (check_create-local a places req good, ground (arith, good))
    | inr (e, bad) ↦ absurd (ground (arith, bad))
  ]

  -- What `Create` made can be used: the engine gets the location without the space round it, the
  -- kind and the password of the request. Conditions: the secrets have distinct ids, the new one is
  -- not among them, and the later reads work.
  pub engine_config-create :
      (r : Repository)
      → DistinctIds s.secrets.db.secrets
      → Fresh a.secret_env.uuid s.secrets.db.secrets
      → create c a places req s ≡ (ok r, t)
      → b.fails get_row ≡ false
      → b.secret_env.fails select_secret ≡ false
      → engine_config c b r.id t
        ≡ ok (
          record { kind = local; location = trim_space req.location; password = req.password },
          r,
        )
  unfolding engine_config
  engine_config-create r distinct fresh h reads opens =
      let (kind, stored) = create-stored r h in
      let (same, new, grown, (m, done)) =
        store_repository-made c a s t (new_repository a req) r req.password stored in
      let password =
        get-put c a.secret_env b.secret_env repository_kind (new_repository a req).id req.password
          s.secrets t.secrets m distinct fresh done opens in
      let found : find_row r.id t.rows ≡ some r =
        rw (same, grown) (find_row-insert (new_repository a req) s.rows new) in
      let got : get b.fails r.id t.rows ≡ ok r = get-found b.fails r t.rows reads found in
      let opened : Access.get c b.secret_env repository_kind r.id t.secrets ≡ ok req.password =
        rw same password in
      let kind_of : r.kind ≡ local = ap (λ (x : Repository). x.kind) same ∙ kind in
      let place_of : r.location ≡ trim_space req.location =
        ap (λ (x : Repository). x.location) same in
      rw (engine_config, got, opened)
        (ap (λ (x : RepositoryConfig). config_with x r) (cc (kind_of, place_of)))

  -- A failed `Create` leaves the table as it was, and in the secret store either nothing changed or
  -- there is no password under the new id. Conditions: the deletion that undoes the write works, and
  -- so does the read that looks for it.
  pub create_unfinished :
      (e : RepositoryError)
      → create c a places req s ≡ (err e, t)
      → a.undo_env.fails delete_secret ≡ false
      → b.secret_env.fails select_secret ≡ false
      → (t.rows ≡ s.rows)
        × ((t.secrets ≡ s.secrets)
            ⊎ (Access.get c b.secret_env repository_kind a.uuid t.secrets ≡ err not_found))
  unfolding create
  create_unfinished e h undoes reads = elim (Result-cases (check_create a places req)) [
    | inr (x, bad) ↦ (ground (arith, bad), inl (ground (arith, bad)))
    | inl (_, good) ↦
        let begun : store_repository c a (new_repository a req) req.password s ≡ (err e, t) =
          ground (arith, good) in
        let (rows, kept) =
          store_repository-failed c a s t (new_repository a req) req.password e begun in
        (
          rows,
          elim kept [
            | inl same ↦ inl same
            | inr (m, after, put, undone) ↦
                let (key, held) =
                  put_unlocked c a.secret_env repository_kind a.uuid req.password s.secrets after m
                    put in
                inr (
                  rw undone
                    (get-delete c a.undo_env b.secret_env repository_kind a.uuid [] [] key after
                      undoes reads held (inl (λ q. cc q))).1)
          ],
        )
  ]
