-- ===== src/Projects/Registry/Scanned.antt =====
-- What a scan does to the rows.
use back_orbit.Base.{
  subst, List, [], ◌∷◌, ◌++◌, Option, none, some, Bool, ◌≡◌, refl, sym, ap, ◌∙◌, arith, All, Bytes,
  Bool-cases, Option-cases, Result-cases, inl, inr, ok,
}
use back_orbit.Base.Text.{bytes_beq, bytes_beq_iff, bytes_eq}
use back_orbit.Projects.Registry.{
  Discovery, Project, ProjectError, get_by_id, go_on, get_by_name, has_id, has_name, insert_project,
  new_project, refreshed, update_rows, updated_row, upsert_all, upsert_discovered,
}
use back_orbit.Projects.Registry.Rows.{
  IsKeptAs, UniqueIds, UniqueIds-append, UniqueIds-update_rows, find_row-append-none,
  find_row-append-some, get_by_id-find_row, get_by_id-update_rows, get_by_name-update_rows,
}

-- No row is lost, none changes its identity, and no name goes.
pub record KeepsRows (rows next : List Project) : Type 0 where
  pub unique : UniqueIds next
  pub rows_kept :
      (id : Bytes) (p : Project)
      → get_by_id id rows ≡ some p
      → (q : Project) × (get_by_id id next ≡ some q) × IsKeptAs p q
  pub names_kept :
      (name : Bytes) (p : Project)
      → get_by_name name rows ≡ some p
      → (q : Project) × (get_by_name name next ≡ some q)

IsKeptAs-refl : (p : Project) → IsKeptAs p p
IsKeptAs-refl p = record { id = refl; name = refl; source = refl; status = refl; created_at = refl }

pub KeepsRows-refl : (rows : List Project) → UniqueIds rows → KeepsRows rows rows
KeepsRows-refl rows u = record {
  unique = u;
  rows_kept = λ id p h. (p, h, IsKeptAs-refl p);
  names_kept = λ name p h. (p, h);
}

KeepsRows-trans :
    (rows next last : List Project)
    → KeepsRows rows next
    → KeepsRows next last
    → KeepsRows rows last
KeepsRows-trans rows next last h k = record {
  unique = k.unique;
  rows_kept = λ id p found.
      let (q, there, same) = h.rows_kept id p found in
      let (r, last_there, last_same) = k.rows_kept id q there in
      (
        r,
        last_there,
        record {
          id = last_same.id ∙ same.id;
          name = last_same.name ∙ same.name;
          source = last_same.source ∙ same.source;
          status = last_same.status ∙ same.status;
          created_at = last_same.created_at ∙ same.created_at;
        },
      );
  names_kept =
      λ name p found. let (q, there) = h.names_kept name p found in k.names_kept name q there;
}

KeepsRows-update_rows :
    (d : Discovery) (rows : List Project) (found : Project)
    → UniqueIds rows
    → get_by_name d.name rows ≡ some found
    → KeepsRows rows (update_rows (refreshed d found) rows)
KeepsRows-update_rows d rows found u h = record {
  unique = UniqueIds-update_rows (refreshed d found) rows u;
  rows_kept = λ id p there. elim (Bool-cases (bytes_beq id found.id)) [
    | inl hit ↦
        let key : id ≡ found.id = (bytes_beq_iff id found.id).0 hit in
        let own = get_by_id-find_row (has_name d.name) rows found u h in
        let both : some found ≡ some p =
          sym own ∙ ap (λ (i : Bytes). get_by_id i rows) (sym key) ∙ there in
        let same : found ≡ p = ground (arith, both) in
        (
          updated_row (refreshed d found) p,
          rw (get_by_id-update_rows (refreshed d found) rows id, there, hit) refl,
          record {
            id = refl;
            name = refl;
            source = refl;
            status = ap (λ (x : Project). x.status) same;
            created_at = refl;
          },
        )
    | inr miss ↦ (
      p,
      rw (get_by_id-update_rows (refreshed d found) rows id, there, miss) refl,
      IsKeptAs-refl p,
    )
  ];
  names_kept = get_by_name-update_rows (refreshed d found) rows;
}

-- A row that the table takes.
pub KeepsRows-insert_project :
    (works : Bool) (p : Project) (rows next : List Project)
    → UniqueIds rows
    → insert_project works p rows ≡ ok next
    → KeepsRows rows next × ((q : Project) × (get_by_name p.name next ≡ some q))
unfolding insert_project
KeepsRows-insert_project works p rows next u h = elim (Bool-cases works) [
  | inr e ↦ ground (arith, rw e at h)
  | inl e ↦ elim (Option-cases (get_by_id p.id rows)) [
    | inr (q, taken) ↦ ground (arith, rw (e, taken) at h)
    | inl free ↦ elim (Option-cases (get_by_name p.name rows)) [
      | inr (q, taken) ↦ ground (arith, rw (e, free, taken) at h)
      | inl unnamed ↦
          let same : rows ++ (p ∷ []) ≡ next = ground (arith, rw (e, free, unnamed) at h) in
          subst (λ t. KeepsRows rows t × ((q : Project) × (get_by_name p.name t ≡ some q))) same
            (
              record {
                unique = UniqueIds-append rows p u free;
                rows_kept = λ id q there.
                    (q, find_row-append-some (has_id id) rows p q there, IsKeptAs-refl q);
                names_kept =
                    λ name q there. (q, find_row-append-some (has_name name) rows p q there);
              },
              (
                p,
                rw
                    (
                      find_row-append-none (has_name p.name) rows p unnamed,
                      (bytes_beq_iff p.name p.name).1 refl,
                    )
                    refl,
              ),
            )
    ]
  ]
]

upsert_discovered-KeepsRows :
    (d : Discovery) (rows next : List Project)
    → UniqueIds rows
    → upsert_discovered d rows ≡ ok next
    → KeepsRows rows next × ((q : Project) × (get_by_name d.name next ≡ some q))
unfolding upsert_discovered
upsert_discovered-KeepsRows d rows next u h = elim (Bool-cases d.reads) [
  | inr e ↦ ground (arith, rw e at h)
  | inl e ↦ elim (Option-cases (get_by_name d.name rows)) [
    | inl missing ↦
        KeepsRows-insert_project d.writes (new_project d) rows next u (rw (e, missing) at h)
    | inr (found, there) ↦ elim (Bool-cases d.writes) [
      | inr stuck ↦ ground (arith, rw (e, there, stuck) at h)
      | inl works ↦
          let same : update_rows (refreshed d found) rows ≡ next =
            ground (arith, rw (e, there, works) at h) in
          subst (λ t. KeepsRows rows t × ((q : Project) × (get_by_name d.name t ≡ some q))) same
            (
              KeepsRows-update_rows d rows found u there,
              get_by_name-update_rows (refreshed d found) rows d.name found there,
            )
    ]
  ]
]

-- Every name of the list has a row.
abbrev pub Registered : List Discovery → List Project → Type 0
Registered ds rows = All (λ d. (q : Project) × (get_by_name d.name rows ≡ some q)) ds

pub upsert_all-KeepsRows :
    (ds : List Discovery) (rows : List Project)
    → UniqueIds rows
    → KeepsRows rows (upsert_all ds rows).1
      × ((upsert_all ds rows).0 ≡ none → Registered ds (upsert_all ds rows).1)
unfolding upsert_all
upsert_all-KeepsRows [] rows u = (KeepsRows-refl rows u, λ _. tt)
upsert_all-KeepsRows (d ∷ ds) rows u = elim (Result-cases (upsert_discovered d rows)) [
  | inr (e, bad) ↦
      subst Scanned (ap (go_on (upsert_all ds) rows) (sym bad))
        (KeepsRows-refl rows u, λ h. ground (arith, h))
  | inl (next, good) ↦
      let (first, (q, named)) = upsert_discovered-KeepsRows d rows next u good in
      let (rest, listed) = upsert_all-KeepsRows ds next first.unique in
      subst Scanned (ap (go_on (upsert_all ds) rows) (sym good)) (
        KeepsRows-trans rows next (upsert_all ds next).1 first rest,
        λ h. (rest.names_kept d.name q named, listed h),
      )
]
  where
    Scanned : Option ProjectError × List Project → Type 0
    Scanned r = KeepsRows rows r.1 × (r.0 ≡ none → Registered (d ∷ ds) r.1)
