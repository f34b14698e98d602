-- ===== src/Blueprints/Catalog/Loaded.antt =====
-- A catalog that was loaded.
use back_orbit.Base.{
  subst, List, [], ◌∷◌, ◌++◌, Option, none, some, true, false, ◌≡◌, ◌≢◌, sym, arith, All, Bytes,
  Bool-cases, Result-cases, ok, inl, inr,
}
use back_orbit.Base.Text.{bytes_beq_iff}
use back_orbit.Base.Times.{text_lt}
use back_orbit.Base.Times.Order.{text_lt-total, text_lt_trans}
use back_orbit.Blueprints.Catalog.{
  File, Template, add_files, add_templates, has_id, insert_by_id, load_builtin, read_file,
  sort_by_id, validate,
}

abbrev pub IsValid : Template → Type 0
IsValid t = validate t ≡ ok tt

-- The first name comes before the second.
abbrev pub Precedes : Template → Template → Type 0
Precedes t u = text_lt t.metadata.id u.metadata.id ≡ true

abbrev pub Ascending : List Template → Type 0
Ascending [] = Unit
Ascending (t ∷ ts) = All (Precedes t) ts × Ascending ts

-- Nothing has the name of another template.
Separate : List Template → Type 0
Separate [] = Unit
Separate (t ∷ ts) = (has_id t.metadata.id ts ≡ false) × Separate ts

has_id-append :
    (id : Bytes) (ts : List Template) (t : Template)
    → has_id id ts ≡ false
    → t.metadata.id ≢ id
    → has_id id (ts ++ (t ∷ [])) ≡ false
unfolding has_id
has_id-append id [] t h ne = ground (arith, h, bytes_beq_iff t.metadata.id id)
has_id-append id (u ∷ ts) t h ne = ground (arith, h, has_id-append id ts t (ground (arith, h)) ne)

has_id-ne :
    (id : Bytes) (t : Template) (ts : List Template)
    → has_id id (t ∷ ts) ≡ false
    → (t.metadata.id ≢ id) × (has_id id ts ≡ false)
unfolding has_id
has_id-ne id t ts h =
    ((λ e. ground (arith, h, (bytes_beq_iff t.metadata.id id).1 e)), ground (arith, h))

Separate-append :
    (ts : List Template) (t : Template)
    → Separate ts
    → has_id t.metadata.id ts ≡ false
    → Separate (ts ++ (t ∷ []))
unfolding Separate
Separate-append [] t s h = (h, tt)
Separate-append (u ∷ ts) t s h =
    let (ne, rest) = has_id-ne t.metadata.id u ts h in
    (has_id-append u.metadata.id ts t s.0 (λ e. ne (sym e)), Separate-append ts t s.1 rest)

All-append_one :
    (ts : List Template) (t : Template) → All IsValid ts → IsValid t → All IsValid (ts ++ (t ∷ []))
All-append_one [] t h v = (v, tt)
All-append_one (u ∷ ts) t h v = (h.0, All-append_one ts t h.1 v)

abbrev IsKept : List Template → Type 0
IsKept ts = All IsValid ts × Separate ts

add_templates-IsKept :
    (all ts known : List Template) → IsKept all → add_templates all ts ≡ ok known → IsKept known
unfolding add_templates
add_templates-IsKept all [] known k h = ground (arith, h)
add_templates-IsKept all (t ∷ ts) known k h = elim (Result-cases (validate t)) [
  | inr (e, bad) ↦ ground (arith, rw bad at h)
  | inl (tt, good) ↦ elim (Bool-cases (has_id t.metadata.id all)) [
    | inl double ↦ ground (arith, rw (good, double) at h)
    | inr new ↦
        add_templates-IsKept (all ++ (t ∷ [])) ts known
          (All-append_one all t k.0 good, Separate-append all t k.1 new) (rw (good, new) at h)
  ]
]

add_files-IsKept :
    (all : List Template) (files : List File) (known : List Template)
    → IsKept all
    → add_files all files ≡ ok known
    → IsKept known
unfolding add_files
add_files-IsKept all [] known k h = ground (arith, h)
add_files-IsKept all (file ∷ files) known k h = elim (Result-cases (read_file file)) [
  | inr (e, bad) ↦ ground (arith, rw bad at h)
  | inl (document, good) ↦ elim (Result-cases (add_templates all document.templates)) [
    | inr (e, bad) ↦ ground (arith, rw (good, bad) at h)
    | inl (next, added) ↦
        add_files-IsKept next files known (add_templates-IsKept all document.templates next k added)
          (rw (good, added) at h)
  ]
]

has_id-insert_by_id :
    (id : Bytes) (t : Template) (ts : List Template)
    → has_id id ts ≡ false
    → t.metadata.id ≢ id
    → has_id id (insert_by_id t ts) ≡ false
unfolding has_id insert_by_id
has_id-insert_by_id id t [] h ne = ground (arith, h, bytes_beq_iff t.metadata.id id)
has_id-insert_by_id id t (u ∷ us) h ne =
    ground (arith, h, bytes_beq_iff t.metadata.id id, has_id-insert_by_id id t us)

All-insert_by_id :
    (P : Template → Type 0) (t : Template) (ts : List Template)
    → P t
    → All P ts
    → All P (insert_by_id t ts)
unfolding insert_by_id
All-insert_by_id P t [] p h = (p, tt)
All-insert_by_id P t (u ∷ us) p h = elim (Bool-cases (text_lt u.metadata.id t.metadata.id)) [
  | inl e ↦ rw e (h.0, All-insert_by_id P t us p h.1)
  | inr e ↦ rw e (p, h)
]

All-Precedes :
    (t u : Template) (us : List Template) → Precedes t u → All (Precedes u) us → All (Precedes t) us
All-Precedes t u [] p h = tt
All-Precedes t u (v ∷ us) p h =
    (text_lt_trans t.metadata.id u.metadata.id v.metadata.id p h.0, All-Precedes t u us p h.1)

Ascending-insert_by_id :
    (t : Template) (us : List Template)
    → has_id t.metadata.id us ≡ false
    → Ascending us
    → Ascending (insert_by_id t us)
unfolding insert_by_id
Ascending-insert_by_id t [] h a = (tt, tt)
Ascending-insert_by_id t (u ∷ us) h a =
    let (ne, rest) = has_id-ne t.metadata.id u us h in
    elim (Bool-cases (text_lt u.metadata.id t.metadata.id)) [
      | inl e ↦
          rw e (All-insert_by_id (Precedes u) t us e a.0, Ascending-insert_by_id t us rest a.1)
      | inr e ↦
          let first = text_lt-total u.metadata.id t.metadata.id e ne in
          rw e ((first, All-Precedes t u us first a.0), a)
    ]

has_id-sort_by_id :
    (id : Bytes) (ts : List Template) → has_id id ts ≡ false → has_id id (sort_by_id ts) ≡ false
unfolding sort_by_id
has_id-sort_by_id id [] h = h
has_id-sort_by_id id (t ∷ ts) h =
    let (ne, rest) = has_id-ne id t ts h in
    has_id-insert_by_id id t (sort_by_id ts) (has_id-sort_by_id id ts rest) ne

sort_by_id-IsKept :
    (ts : List Template) → IsKept ts → All IsValid (sort_by_id ts) × Ascending (sort_by_id ts)
unfolding sort_by_id Separate
sort_by_id-IsKept [] k = (tt, tt)
sort_by_id-IsKept (t ∷ ts) k =
    let (valid, ascending) = sort_by_id-IsKept ts (k.0.1, k.1.1) in
    (
      All-insert_by_id IsValid t (sort_by_id ts) k.0.0 valid,
      Ascending-insert_by_id t (sort_by_id ts) (has_id-sort_by_id t.metadata.id ts k.1.0) ascending,
    )

-- Whatever the files hold, every template of a catalog that loads has passed the validation, and the
-- ids are all different and in ascending order.
pub load_builtin-Ascending :
    (files : Option (List File)) (templates : List Template)
    → load_builtin files ≡ ok templates
    → All IsValid templates × Ascending templates
unfolding load_builtin Separate
load_builtin-Ascending none templates h = ground (arith, h)
load_builtin-Ascending (some files) templates h = elim (Result-cases (add_files [] files)) [
  | inr (e, bad) ↦ ground (arith, rw bad at h)
  | inl (all, good) ↦
      let same : sort_by_id all ≡ templates = ground (arith, rw good at h) in
      subst (λ ts. All IsValid ts × Ascending ts) same
        (sort_by_id-IsKept all (add_files-IsKept [] files all (tt, tt) good))
]
