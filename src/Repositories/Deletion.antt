-- ===== src/Repositories/Deletion.antt =====
-- What `Delete` destroys, and in which order.
use back_orbit.Base.{
  Bool, true, false, Option, some, List, [], ◌∷◌, ◌++◌, Bytes, codes, Result, ok, err, ◌≡◌, ◌≢◌,
  ◌⊎◌, arith, refl, inl, inr, Bool-cases, Result-cases, ◌∙◌, append-nil,
}
use back_orbit.Base.Text.{bytes_eq, bytes_beq_iff}
use back_orbit.Base.Paths.{join}
use back_orbit.Secrets
use back_orbit.Repositories.{
  RepositoryKind, Repository, RepositoryError, State, delete, delete_rows, find_row, get, local,
}
use back_orbit.Repositories.Locations.{
  Locations, clean_abs, refuse_inside_data_dir, within_or_equal,
}
use back_orbit.Repositories.Purge.{
  FileSystem, Resolution, folder, plain, inspect, is_empty_dir, purge_local_repository, resolved,
  verify_restic_layout, absent, unresolvable,
}
use back_orbit.Repositories.Service.{
  Answers, after_purge, repository_kind, allow_purge, delete_configuration, delete_repository,
  is_local, purge_data,
}

-- A directory that may be destroyed for a path: the path leads there, and it is empty or has
-- restic's `config` file and `keys` directory.
abbrev pub IsPurgeable : FileSystem → Bytes → Bytes → Type 0
IsPurgeable fs path dir =
    (fs.eval_symlinks path ≡ resolved dir)
    × (fs.lstat dir ≡ folder)
    × ((fs.is_empty_dir dir ≡ some true)
        ⊎ ((fs.stat (join dir (codes "config")) ≡ plain)
            × (fs.stat (join dir (codes "keys")) ≡ folder)))

-- By its text, the path neither lies in the data directory nor contains it; links are not followed.
abbrev pub IsApart : Option Bytes → Bytes → Bytes → Type 0
IsApart cwd data_dir path =
    (within_or_equal (clean_abs cwd path) data_dir ≡ false)
    × (within_or_equal data_dir (clean_abs cwd path) ≡ false)

Resolution-cases :
    (r : Resolution) → ((r ≡ absent) ⊎ (r ≡ unresolvable)) ⊎ ((dir : Bytes) × (r ≡ resolved dir))
Resolution-cases absent = inl (inl refl)
Resolution-cases unresolvable = inl (inr refl)
Resolution-cases (resolved dir) = inr (dir, refl)

inspect-IsPurgeable :
    (fs : FileSystem) (path dir : Bytes) (empty : Bool)
    → fs.eval_symlinks path ≡ resolved dir
    → inspect fs dir ≡ ok empty
    → IsPurgeable fs path dir
unfolding inspect is_empty_dir verify_restic_layout
inspect-IsPurgeable fs path dir empty leads h = (leads, ground arith, ground arith)

purge_local_repository-paths :
    (fs : FileSystem) (path : Bytes)
    → let (answer, paths) = purge_local_repository fs path in
      (paths ≡ []) ⊎ ((dir : Bytes) × IsPurgeable fs path dir × (paths ≡ dir ∷ []))
unfolding purge_local_repository
purge_local_repository-paths fs path = elim (Resolution-cases (fs.eval_symlinks path)) [
  | inl e ↦ inl (elim e [ inl q ↦ ground (arith, q) | inr q ↦ ground (arith, q) ])
  | inr (dir, leads) ↦ elim (Result-cases (inspect fs dir)) [
    | inl (empty, good) ↦
        inr (dir, inspect-IsPurgeable fs path dir empty leads good, ground (arith, leads, good))
    | inr (e, bad) ↦ inl (ground (arith, leads, bad))
  ]
]

refuse_inside_data_dir-IsApart :
    (cwd : Option Bytes) (l : Locations) (path : Bytes)
    → refuse_inside_data_dir cwd l path ≡ ok tt
    → l.data_dir ≢ []
    → IsApart cwd l.data_dir path
unfolding refuse_inside_data_dir
refuse_inside_data_dir-IsApart cwd l path h ne =
    (ground (arith, bytes_beq_iff l.data_dir []), ground (arith, bytes_beq_iff l.data_dir []))

is_local-local : (k : RepositoryKind) → is_local k ≡ true → k ≡ local
is_local-local k h = ground arith

delete-made :
    (a : Answers) (id : Bytes) (rows after : List Repository)
    → delete a.fails id rows ≡ ok after
    → after ≡ delete_rows id rows
unfolding delete
delete-made a id rows after h = ground arith

module _ (a : Answers) (places : Option Locations) where
  -- What `Delete` may destroy of a repository.
  abbrev pub MayDestroy : Repository → List Bytes → Type 0
  MayDestroy r paths =
      (r.kind ≡ local)
      × ((l : Locations) → places ≡ some l → l.data_dir ≢ [] → IsApart a.cwd l.data_dir r.location)
      × ((dir : Bytes) × IsPurgeable a.files r.location dir × (paths ≡ dir ∷ []))

  allow_purge-IsApart :
      (location : Bytes) (l : Locations)
      → allow_purge a places location ≡ ok tt
      → places ≡ some l
      → l.data_dir ≢ []
      → IsApart a.cwd l.data_dir location
  unfolding allow_purge
  allow_purge-IsApart location l h here ne =
      refuse_inside_data_dir-IsApart a.cwd l location (ground (arith, here)) ne

  purge_data-paths :
      (r : Repository) → ((purge_data a places r).1 ≡ []) ⊎ MayDestroy r (purge_data a places r).1
  unfolding purge_data
  purge_data-paths r = elim (Bool-cases (is_local r.kind)) [
    | inr far ↦ inl (ground (arith, far))
    | inl near ↦ elim (Result-cases (allow_purge a places r.location)) [
      | inr (e, bad) ↦ inl (ground (arith, near, bad))
      | inl (_, good) ↦
          let same : (purge_data a places r).1 ≡ (purge_local_repository a.files r.location).1 =
            ground (arith, near, good) in
          rw same (elim (purge_local_repository-paths a.files r.location) [
            | inl nothing ↦ inl nothing
            | inr (dir, may, only) ↦ inr (
              is_local-local r.kind near,
              λ l here ne. allow_purge-IsApart r.location l good here ne,
              (dir, may, only),
            )
          ])
    ]
  ]

  delete_configuration-parts :
      (id : Bytes) (data_deleted : Bool) (s : State)
      → let t = (delete_configuration a id data_deleted s).1 in
        (t.removed ≡ s.removed)
        × (((t.rows ≡ s.rows) × (t.secrets ≡ s.secrets)) ⊎ (t.rows ≡ delete_rows id s.rows))
  unfolding delete_configuration
  delete_configuration-parts id data_deleted s = elim (Result-cases (delete a.fails id s.rows)) [
    | inr (e, bad) ↦ (ground (arith, bad), inl (ground (arith, bad), ground (arith, bad)))
    | inl (rows, good) ↦
        let less : rows ≡ delete_rows id s.rows = delete-made a id s.rows rows good in
        elim (Result-cases (Secrets.delete a.secret_env repository_kind id s.secrets).0) [
          | inr (e, bad) ↦ (ground (arith, good, bad), inr (ground (arith, good, bad, less)))
          | inl (_, gone) ↦ (ground (arith, good, gone), inr (ground (arith, good, gone, less)))
        ]
  ]

  after_purge-removed :
      (id : Bytes) (purged : Result RepositoryError Bool) (paths : List Bytes) (s : State)
      → (after_purge a id purged paths s).1.removed ≡ s.removed ++ paths
  unfolding after_purge
  after_purge-removed id (err e) paths s = refl
  after_purge-removed id (ok n) paths s =
      (delete_configuration-parts id n (record s { removed = s.removed ++ paths })).0

  after_purge-rows :
      (id : Bytes) (purged : Result RepositoryError Bool) (paths : List Bytes) (s : State)
      → let t = (after_purge a id purged paths s).1 in
        ((t.rows ≡ s.rows) × (t.secrets ≡ s.secrets))
        ⊎ ((t.rows ≡ delete_rows id s.rows) × ((n : Bool) × (purged ≡ ok n)))
  unfolding after_purge
  after_purge-rows id (err e) paths s = inl (refl, refl)
  after_purge-rows id (ok n) paths s =
      elim (delete_configuration-parts id n (record s { removed = s.removed ++ paths })).1 [
        | inl kept ↦ inl kept
        | inr less ↦ inr (less, (n, refl))
      ]

  get-found :
      (id : Bytes) (rows : List Repository) (r : Repository)
      → get a.fails id rows ≡ ok r
      → find_row id rows ≡ some r
  unfolding get
  get-found id rows r h = ground arith

  -- `Delete` hands at most one directory to `os.RemoveAll`, and only where it was asked for the data:
  -- the repository is local, the text of its location, made absolute and cleaned, neither lies in the
  -- data directory nor contains it, if one is configured, and the directory is where the location
  -- leads once symbolic links are followed, and is empty or a restic repository. Nothing is said of how
  -- the place that the links lead to lies to the data directory. The row goes only after the data: as
  -- long as that deletion fails, row and password stay.
  pub delete_repository_orderly :
      (id : Bytes) (with_data : Bool) (s : State)
      → let t = (delete_repository a places id with_data s).1 in
        ((t.removed ≡ s.removed)
          ⊎ ((with_data ≡ true)
              × ((r : Repository) × (paths : List Bytes) × (find_row id s.rows ≡ some r)
                  × MayDestroy r paths
                  × (t.removed ≡ s.removed ++ paths))))
        × (((t.rows ≡ s.rows) × (t.secrets ≡ s.secrets))
            ⊎ ((t.rows ≡ delete_rows id s.rows)
                × ((r : Repository) × (find_row id s.rows ≡ some r)
                    × (with_data ≡ true
                        → (deleted : Bool) × ((purge_data a places r).0 ≡ ok deleted)))))
  unfolding delete_repository
  delete_repository_orderly id with_data s = elim (Result-cases (get a.fails id s.rows)) [
    | inr (e, bad) ↦ (inl (ground (arith, bad)), inl (ground (arith, bad), ground (arith, bad)))
    | inl (r, good) ↦ elim (Bool-cases with_data) [
      | inr off ↦
          let same : delete_repository a places id with_data s ≡ after_purge a id (ok false) [] s =
            ground (arith, good, off) in
          rw same (
            inl (after_purge-removed id (ok false) [] s ∙ append-nil s.removed),
            elim (after_purge-rows id (ok false) [] s) [
              | inl kept ↦ inl kept
              | inr (less, _) ↦
                  inr (less, (r, get-found id s.rows r good, λ on. absurd (cc (on, off))))
            ],
          )
      | inl on ↦
          let (answer, paths) = purge_data a places r in
          let same : delete_repository a places id with_data s ≡ after_purge a id answer paths s =
            ground (arith, good, on) in
          rw same (
            elim (purge_data-paths r) [
              | inl nothing ↦
                  inl (after_purge-removed id answer paths s ∙ rw nothing (append-nil s.removed))
              | inr may ↦ inr (
                on,
                (r, paths, get-found id s.rows r good, may, after_purge-removed id answer paths s),
              )
            ],
            elim (after_purge-rows id answer paths s) [
              | inl kept ↦ inl kept
              | inr (less, worked) ↦ inr (less, (r, get-found id s.rows r good, λ _. worked))
            ],
          )
    ]
  ]
