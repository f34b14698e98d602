-- ===== src/Projects/Registry/Rows.antt =====
-- Finding, adding and updating rows.
use back_orbit.Base.{
  List, [], ◌∷◌, ◌++◌, Option, none, some, Bool, true, false, ◌≡◌, refl, sym, ap, ◌∙◌, arith, Bytes,
  Bool-cases, inl, inr, if◌then◌else◌,
}
use back_orbit.Base.Text.{bytes_beq, bytes_beq-ne, bytes_beq_iff, bytes_eq, ne_of_bytes_beq}
use back_orbit.Projects.Registry.{
  Project, find_row, get_by_id, get_by_name, has_id, update_rows, updated_row,
}

-- No two rows have one id.
abbrev pub UniqueIds : List Project → Type 0
UniqueIds [] = Unit
UniqueIds (p ∷ ps) = (get_by_id p.id ps ≡ none) × UniqueIds ps

-- The same project: all but where its files lie and when that was seen.
pub record IsKeptAs (p q : Project) : Type 0 where
  pub id : q.id ≡ p.id
  pub name : q.name ≡ p.name
  pub source : q.source ≡ p.source
  pub status : q.status ≡ p.status
  pub created_at : q.created_at ≡ p.created_at

find_row-test :
    (test : Project → Bool) (rows : List Project) (p : Project)
    → find_row test rows ≡ some p
    → test p ≡ true
unfolding find_row
find_row-test test [] p h = ground (arith, h)
find_row-test test (q ∷ rows) p h = elim (Bool-cases (test q)) [
  | inl e ↦ let same : q ≡ p = ground (arith, rw e at h) in sym (ap test same) ∙ e
  | inr e ↦ find_row-test test rows p (rw e at h)
]

-- With unique ids a row that is found by a test is the one of its id.
pub get_by_id-find_row :
    (test : Project → Bool) (rows : List Project) (p : Project)
    → UniqueIds rows
    → find_row test rows ≡ some p
    → get_by_id p.id rows ≡ some p
unfolding find_row
get_by_id-find_row test [] p u h = ground (arith, h)
get_by_id-find_row test (q ∷ rows) p u h = elim (Bool-cases (test q)) [
  | inl e ↦
      let same : q ≡ p = ground (arith, rw e at h) in
      let own : bytes_beq q.id p.id ≡ true =
        (bytes_beq_iff q.id p.id).1 (ap (λ (x : Project). x.id) same) in
      rw own (ap some same)
  | inr e ↦
      let below = get_by_id-find_row test rows p u.1 (rw e at h) in
      elim (Bool-cases (bytes_beq q.id p.id)) [
        | inl own ↦
            let same : q.id ≡ p.id = (bytes_beq_iff q.id p.id).0 own in
            let there : get_by_id q.id rows ≡ some p =
              ap (λ (i : Bytes). get_by_id i rows) same ∙ below in
            ground (arith, there, u.0)
        | inr other ↦ rw other below
      ]
]

find_row-append :
    (test : Project → Bool) (rows : List Project) (p : Project)
    → find_row test (rows ++ (p ∷ []))
      ≡ (elim (find_row test rows) [ some q ↦ some q | none ↦ (if test p then some p else none) ])
unfolding find_row
find_row-append test [] p = refl
find_row-append test (q ∷ rows) p = elim (Bool-cases (test q)) [
  | inl e ↦ rw e refl
  | inr e ↦ rw e (find_row-append test rows p)
]

pub find_row-append-some :
    (test : Project → Bool) (rows : List Project) (p q : Project)
    → find_row test rows ≡ some q
    → find_row test (rows ++ (p ∷ [])) ≡ some q
find_row-append-some test rows p q h = rw (find_row-append test rows p, h) refl

pub find_row-append-none :
    (test : Project → Bool) (rows : List Project) (p : Project)
    → find_row test rows ≡ none
    → find_row test (rows ++ (p ∷ [])) ≡ (if test p then some p else none)
find_row-append-none test rows p h = rw (find_row-append test rows p, h) refl

pub UniqueIds-append :
    (rows : List Project) (p : Project)
    → UniqueIds rows
    → get_by_id p.id rows ≡ none
    → UniqueIds (rows ++ (p ∷ []))
unfolding find_row
UniqueIds-append [] p u h = (refl, tt)
UniqueIds-append (q ∷ rows) p u h = elim (Bool-cases (bytes_beq q.id p.id)) [
  | inl e ↦ ground (arith, rw e at h)
  | inr e ↦
      let apart : bytes_beq p.id q.id ≡ false =
        bytes_beq-ne p.id q.id (λ (s : p.id ≡ q.id). ne_of_bytes_beq q.id p.id e (sym s)) in
      (
        rw (find_row-append-none (has_id q.id) rows p u.0, apart) refl,
        UniqueIds-append rows p u.1 (rw e at h),
      )
]

-- An update changes the row of its id and no other.
abbrev pub updated_if : Bool → Project → Option Project → Option Project
updated_if hit p none = none
updated_if true p (some q) = some (updated_row p q)
updated_if false p (some q) = some q

pub get_by_id-update_rows :
    (p : Project) (rows : List Project) (id : Bytes)
    → get_by_id id (update_rows p rows) ≡ updated_if (bytes_beq id p.id) p (get_by_id id rows)
unfolding find_row update_rows
get_by_id-update_rows p [] id = refl
get_by_id-update_rows p (q ∷ rows) id =
    let ih = get_by_id-update_rows p rows id in
    elim (Bool-cases (bytes_beq q.id id)) [
      | inl here ↦
          let same : q.id ≡ id = (bytes_beq_iff q.id id).0 here in
          let test : bytes_beq q.id p.id ≡ bytes_beq id p.id =
            ap (λ (i : Bytes). bytes_beq i p.id) same in
          elim (Bool-cases (bytes_beq id p.id)) [
            | inl hit ↦ rw (test ∙ hit, hit, here) refl
            | inr miss ↦ rw (test ∙ miss, miss, here) refl
          ]
      | inr there ↦ elim (Bool-cases (bytes_beq q.id p.id)) [
        | inl hit ↦ rw (hit, there) ih
        | inr miss ↦ rw (miss, there) ih
      ]
    ]

pub UniqueIds-update_rows :
    (p : Project) (rows : List Project) → UniqueIds rows → UniqueIds (update_rows p rows)
unfolding update_rows
UniqueIds-update_rows p [] u = tt
UniqueIds-update_rows p (q ∷ rows) u =
    let fresh : get_by_id q.id (update_rows p rows) ≡ none =
      rw (get_by_id-update_rows p rows q.id, u.0) refl in
    elim (Bool-cases (bytes_beq q.id p.id)) [
      | inl e ↦ rw e (fresh, UniqueIds-update_rows p rows u.1)
      | inr e ↦ rw e (fresh, UniqueIds-update_rows p rows u.1)
    ]

pub get_by_name-update_rows :
    (p : Project) (rows : List Project) (name : Bytes) (q : Project)
    → get_by_name name rows ≡ some q
    → (r : Project) × (get_by_name name (update_rows p rows) ≡ some r)
unfolding find_row update_rows
get_by_name-update_rows p [] name q h = ground (arith, h)
get_by_name-update_rows p (row ∷ rows) name q h = elim (Bool-cases (bytes_beq row.name name)) [
  | inl named ↦ elim (Bool-cases (bytes_beq row.id p.id)) [
    | inl e ↦ (updated_row p row, rw (e, named) refl)
    | inr e ↦ (row, rw (e, named) refl)
  ]
  | inr other ↦
      let (r, found) = get_by_name-update_rows p rows name q (rw other at h) in
      elim (Bool-cases (bytes_beq row.id p.id)) [
        | inl e ↦ (r, rw (e, other) found)
        | inr e ↦ (r, rw (e, other) found)
      ]
]
