-- ===== src/Repositories/Checks.antt =====
-- `Check` and `Initialize` of internal/repositories/service.go. What the engine answers to the
-- configuration that it is given is an argument.
use back_orbit.Base.{
  ℕ, Option, none, some, List, [], ◌∷◌, ◌++◌, Bytes, codes, ◌==◌, if◌then◌else◌, Result, ok, err,
  ok_or, ◌≡◌, ◌≢◌, ◌∙◌, arith, Result-cases, Option-cases, inl, inr, refl,
}
use back_orbit.Base.Text.{bytes_eq, bytes_beq_iff}
use back_orbit.Crypto.{Primitives}
use back_orbit.Secrets.Access
use back_orbit.Repositories.{
  Repository, RepositoryError, State, Status, find_row, get, observe_rows, update_status, ready,
  uninitialized, error, engine_failed, repository_checked, repository_initialized,
}
use back_orbit.Repositories.Service.{
  Answers, repository_kind, CheckResult, EngineError, ErrorKind, RepositoryConfig, engine_config,
  existing_repository, missing_repository,
}

-- The default case of the switch of `Check`.
abbrev failed_result : EngineError → ErrorKind → CheckResult
failed_result e missing_repository = record {
  status = uninitialized;
  snapshot_count = 0;
  error = codes "no repository at this location yet";
}
failed_result e _ = record { status = error; snapshot_count = 0; error = e.text }

-- The switch of `Check`, on how many snapshots the engine listed.
unfoldable pub check_result : Result EngineError ℕ → CheckResult
check_result (ok n) = record { status = ready; snapshot_count = n; error = [] }
check_result (err e) = failed_result e e.kind

-- The rows after an update whose error is dropped.
abbrev pub try_update : Answers → Bytes → Status → Bytes → List Repository → List Repository
try_update a id status text rows =
    ok_or rows (update_status a.fails id status text a.checked_at a.now rows)

module _ (c : Primitives) (list_snapshots : RepositoryConfig → Result EngineError ℕ) where
  -- `Check`: the result, and the error of the update, if it failed.
  unfoldable pub check :
      Answers
      → Bytes
      → State
      → Result RepositoryError (CheckResult × Option RepositoryError) × State
  check a id s = elim (engine_config c a id s) [
    | err e ↦ (err e, s)
    | ok (config, r) ↦
        let found = check_result (list_snapshots config) in
        elim (update_status a.fails r.id found.status found.error a.checked_at a.now s.rows) [
          | err e ↦ (ok (found, some e), s)
          | ok rows ↦ (
            ok (found, none),
            record s { rows = rows; emitted = s.emitted ++ (repository_checked r.id ∷ []) },
          )
        ]
  ]

-- An engine that did not initialize: a repository that is there already is no failure.
abbrev refused_initialize :
    Answers
    → Repository
    → EngineError
    → ErrorKind
    → State
    → Result RepositoryError (Unit {0}) × State
refused_initialize a r e existing_repository s =
    (ok tt, record s { rows = try_update a r.id ready [] s.rows })
refused_initialize a r e _ s =
    (err engine_failed, record s { rows = try_update a r.id error e.text s.rows })

module _ (c : Primitives) (init_repository : RepositoryConfig → Result EngineError (Unit {0})) where
  -- `Initialize`
  unfoldable pub initialize : Answers → Bytes → State → Result RepositoryError (Unit {0}) × State
  initialize a id s = elim (engine_config c a id s) [
    | err e ↦ (err e, s)
    | ok (config, r) ↦ elim (init_repository config) [
      | err e ↦ refused_initialize a r e e.kind s
      | ok _ ↦ elim (update_status a.fails r.id ready [] a.checked_at a.now s.rows) [
        | err e ↦ (err e, s)
        | ok rows ↦ (
          ok tt,
          record s { rows = rows; emitted = s.emitted ++ (repository_initialized r.id ∷ []) },
        )
      ]
    ]
  ]

find_row-observe_rows :
    (id other : Bytes) (status : Status) (text : Bytes) (checked now : ℕ) (rows : List Repository)
    → find_row other (observe_rows id status text checked now rows) ≡ elim (find_row other rows) [
      | none ↦ none
      | some r ↦ some (
          if id == other
          then record r {
            status = status;
            last_error = text;
            last_checked_at = some checked;
            updated_at = now;
          }
          else r)
    ]
unfolding find_row observe_rows
find_row-observe_rows id other status text checked now [] = refl
find_row-observe_rows id other status text checked now (r ∷ rows) = ground (
  arith,
  bytes_beq_iff r.id id,
  bytes_beq_iff r.id other,
  bytes_beq_iff id other,
  find_row-observe_rows id other status text checked now rows,
)

find_row-id :
    (id : Bytes) (rows : List Repository) (r : Repository) → find_row id rows ≡ some r → r.id ≡ id
unfolding find_row
find_row-id id [] r h = absurd (ground arith)
find_row-id id (x ∷ rows) r h = ground (arith, bytes_beq_iff x.id id, find_row-id id rows r)

get-row :
    (a : Answers) (id : Bytes) (rows : List Repository) (r : Repository)
    → get a.fails id rows ≡ ok r
    → find_row id rows ≡ some r
unfolding get
get-row a id rows r h = ground arith

engine_config-row :
    (c : Primitives) (a : Answers) (id : Bytes) (s : State) (config : RepositoryConfig)
    (r : Repository)
    → engine_config c a id s ≡ ok (config, r)
    → find_row id s.rows ≡ some r
unfolding engine_config
engine_config-row c a id s config r h = elim (Result-cases (get a.fails id s.rows)) [
  | inr (e, bad) ↦ absurd (ground (arith, bad))
  | inl (x, good) ↦ elim (Result-cases (Access.get c a.secret_env repository_kind x.id s.secrets)) [
    | inr (e, bad) ↦ absurd (ground (arith, good, bad))
    | inl (password, opened) ↦
        let same : x ≡ r = ground (arith, good, opened) in rw (← same) (get-row a id s.rows x good)
  ]
]

update_status-made :
    (a : Answers) (id : Bytes) (status : Status) (text : Bytes) (rows after : List Repository)
    → update_status a.fails id status text a.checked_at a.now rows ≡ ok after
    → after ≡ observe_rows id status text a.checked_at a.now rows
unfolding update_status
update_status-made a id status text rows after h = ground arith

-- A `Check` whose result was stored changes nothing but what was observed of that one repository,
-- and stores exactly the status and the error that it answered.
pub check_observed :
    (c : Primitives) (list_snapshots : RepositoryConfig → Result EngineError ℕ) (a : Answers)
    (id : Bytes) (s t : State) (found : CheckResult)
    → check c list_snapshots a id s ≡ (ok (found, none), t)
    → ((r : Repository) × (find_row id s.rows ≡ some r)
        × (find_row id t.rows
            ≡ some (record r {
              status = found.status;
              last_error = found.error;
              last_checked_at = some a.checked_at;
              updated_at = a.now;
            })))
      × ((other : Bytes) → other ≢ id → find_row other t.rows ≡ find_row other s.rows)
      × (t.secrets ≡ s.secrets)
unfolding check
check_observed c list_snapshots a id s t found h = elim (Result-cases (engine_config c a id s)) [
  | inr (e, bad) ↦ absurd (ground (arith, bad))
  | inl ((config, r), good) ↦
      let seen = check_result (list_snapshots config) in
      elim (Result-cases
        (update_status a.fails r.id seen.status seen.error a.checked_at a.now s.rows)) [
          | inr (e, bad) ↦ absurd (ground (arith, good, bad))
          | inl (rows, done) ↦
              let here = engine_config-row c a id s config r good in
              let named = find_row-id id s.rows r here in
              let same : seen ≡ found = ground (arith, good, done) in
              let grown : t.rows
                  ≡ observe_rows id found.status found.error a.checked_at a.now s.rows =
                ground (arith, good, done)
                ∙ (update_status-made a r.id seen.status seen.error s.rows rows done
                    ∙ rw (same, named) refl) in
              (
                (
                  r,
                  here,
                  rw
                      (
                        grown,
                        find_row-observe_rows id id found.status found.error a.checked_at a.now
                            s.rows,
                        here,
                      )
                      (ground (arith, bytes_beq_iff id id)),
                ),
                λ other ne.
                    rw
                      (
                        grown,
                        find_row-observe_rows id other found.status found.error a.checked_at a.now
                            s.rows,
                      )
                      (elim (Option-cases (find_row other s.rows)) [
                        | inl e ↦ rw e refl
                        | inr (x, e) ↦ rw e (ground (arith, bytes_beq_iff id other))
                      ]),
                ground (arith, good, done),
              )
        ]
]
