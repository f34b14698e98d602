-- ===== src/BackupRun/Consistency/Warned.antt =====
-- Each server database that was copied as files is named in a warning.
use back_orbit.Base.{
  Bool, true, false, Option, none, some, List, [], ◌∷◌, Bytes, ◌==◌, ◌≡◌, ◌≢◌, refl, arith, Any,
  inl, inr, ◌⊎◌, sym, subst, Option-cases, Bool-cases, map,
}
use back_orbit.Base.Assoc.{Assoc, lookup, insert, lookup-insert}
use back_orbit.Base.Text.{bytes_eq, bytes_beq_iff, bytes_beq-ne}
use back_orbit.BackupRun.{Answers, Finding, Warning, copied_as_files, for_warnings}
use back_orbit.BackupRun.Dumps.{key_of, is_database}
use back_orbit.Base.Times.{text_lt}
use back_orbit.BackupRun.Consistency.{
  append_unique, copied_warning, database_consistency_warnings, insert_sorted, labels, names_in,
  names_of, note_finding, note_findings, note_service, server_database, sort_texts,
}

abbrev Has : Bytes → List Bytes → Type 0
Has v = Any (λ x. x ≡ v)

Has-append_unique : (v : Bytes) (xs : List Bytes) → Has v (append_unique xs v)
unfolding append_unique
Has-append_unique v [] = inl refl
Has-append_unique v (x ∷ xs) = elim (Bool-cases (x == v)) [
  | inl e ↦ rw (append_unique, e) (inl ((bytes_beq_iff x v).0 e))
  | inr e ↦ rw (append_unique, e) (inr (Has-append_unique v xs))
]

append_unique-keeps : (u v : Bytes) (xs : List Bytes) → Has u xs → Has u (append_unique xs v)
unfolding append_unique
append_unique-keeps u v [] h = elim h [ ]
append_unique-keeps u v (x ∷ xs) h = elim (Bool-cases (x == v)) [
  | inl e ↦ rw (append_unique, e) h
  | inr e ↦
      rw (append_unique, e) (elim h [ inl g ↦ inl g | inr g ↦ inr (append_unique-keeps u v xs g) ])
]

Has-insert_sorted :
    (u v : Bytes) (xs : List Bytes) → (v ≡ u) ⊎ Has u xs → Has u (insert_sorted v xs)
unfolding insert_sorted
Has-insert_sorted u v [] h = h
Has-insert_sorted u v (x ∷ xs) h = elim (Bool-cases (text_lt x v)) [
  | inl e ↦
      rw (insert_sorted, e)
        (elim h [
          | inl g ↦ inr (Has-insert_sorted u v xs (inl g))
          | inr (inl g) ↦ inl g
          | inr (inr g) ↦ inr (Has-insert_sorted u v xs (inr g))
        ])
  | inr e ↦ rw (insert_sorted, e) h
]

Has-sort_texts : (u : Bytes) (xs : List Bytes) → Has u xs → Has u (sort_texts xs)
unfolding sort_texts
Has-sort_texts u [] h = h
Has-sort_texts u (x ∷ xs) (inl h) = Has-insert_sorted u x (sort_texts xs) (inl h)
Has-sort_texts u (x ∷ xs) (inr h) =
    Has-insert_sorted u x (sort_texts xs) (inr (Has-sort_texts u xs h))

abbrev NotedIn : Bytes → Option (List Bytes) → Type 0
NotedIn service o = (o ≢ none) × ((service ≡ []) ⊎ Has service (names_in o))

-- The label has an entry, which names the service when there is one.
abbrev Noted : Bytes → Bytes → Assoc Bytes (List Bytes) → Type 0
Noted label service m = NotedIn service (lookup label m)

Has-labels :
    (label : Bytes) (m : Assoc Bytes (List Bytes)) → lookup label m ≢ none → Has label (labels m)
unfolding lookup
Has-labels label [] h = elim (h refl) [ ]
Has-labels label ((l, ns) ∷ m) h = elim (Bool-cases (l == label)) [
  | inl e ↦ inl ((bytes_beq_iff l label).0 e)
  | inr e ↦ inr (Has-labels label m (λ n. h (rw (lookup, e) n)))
]

there :
    (label service : Bytes) (ns : List Bytes) (m : Assoc Bytes (List Bytes))
    → lookup label m ≡ some ns
    → (service ≡ []) ⊎ Has service ns
    → Noted label service m
there label service ns m q h = subst (NotedIn service) (sym q) ((λ n. cc n), h)

insert-Noted :
    (label service : Bytes) (ns : List Bytes) (m : Assoc Bytes (List Bytes))
    → (service ≡ []) ⊎ Has service ns
    → Noted label service (insert label ns m)
insert-Noted label service ns m h =
    there label service ns (insert label ns m)
      (rw (lookup-insert label label ns m) (ground (arith, bytes_beq_iff label label))) h

insert-keeps :
    (label service l : Bytes) (ns : List Bytes) (m : Assoc Bytes (List Bytes))
    → Noted label service m
    → (l ≡ label → (service ≡ []) ⊎ Has service ns)
    → Noted label service (insert l ns m)
insert-keeps label service l ns m h new = elim (Bool-cases (l == label)) [
  | inl e ↦
      there label service ns (insert l ns m) (rw (lookup-insert l label ns m, e) refl)
        (new ((bytes_beq_iff l label).0 e))
  | inr e ↦ subst (NotedIn service) (sym (rw (lookup-insert l label ns m, e) refl)) h
]

still :
    (label service l s : Bytes) (m : Assoc Bytes (List Bytes))
    → l ≡ label
    → (service ≡ []) ⊎ Has service (names_of m label)
    → (service ≡ []) ⊎ Has service (append_unique (names_of m l) s)
still label service l s m q (inl h) = inl h
still label service l s m q (inr h) = inr (
    append_unique-keeps service s (names_of m l)
      (subst (λ k. Has service (names_of m k)) (sym q) h))

note_service-Noted :
    (label service : Bytes) (m : Assoc Bytes (List Bytes))
    → Noted label service (note_service label service m)
unfolding note_service
note_service-Noted label service m = elim (Bool-cases (service == [])) [
  | inl e ↦ elim (Option-cases (lookup label m)) [
    | inl n ↦
        rw (note_service, e, n)
          (insert-Noted label service [] m (inl ((bytes_beq_iff service []).0 e)))
    | inr (ns, n) ↦
        rw (note_service, e, n) (there label service ns m n (inl ((bytes_beq_iff service []).0 e)))
  ]
  | inr e ↦
      rw (note_service, e)
        (insert-Noted label service _ m (inr (Has-append_unique service (names_of m label))))
]

note_service-keeps :
    (label service l s : Bytes) (m : Assoc Bytes (List Bytes))
    → Noted label service m
    → Noted label service (note_service l s m)
unfolding note_service
note_service-keeps label service l s m h = elim (Bool-cases (s == [])) [
  | inl e ↦ elim (Option-cases (lookup l m)) [
    | inl n ↦
        rw (note_service, e, n)
          (insert-keeps label service l [] m h (λ q. elim (h.0 (cc (q, n))) [ ]))
    | inr (ns, n) ↦ rw (note_service, e, n) h
  ]
  | inr e ↦
      rw (note_service, e)
        (insert-keeps label service l _ m h (λ q. still label service l s m q h.1))
]

note_finding-keeps :
    (dumped : Bytes → Bool) (label service : Bytes) (f : Finding) (m : Assoc Bytes (List Bytes))
    → Noted label service m
    → Noted label service (note_finding dumped f m)
unfolding note_finding
note_finding-keeps dumped label service f m h = elim (Bool-cases (is_database f)) [
  | inr e ↦ rw (note_finding, e) h
  | inl e ↦ elim (Option-cases (server_database f.technology)) [
    | inl g ↦ rw (note_finding, e, g) h
    | inr (l, g) ↦ elim (Bool-cases (dumped (key_of f))) [
      | inl d ↦ rw (note_finding, e, g, d) h
      | inr d ↦ rw (note_finding, e, g, d) (note_service-keeps label service l f.service m h)
    ]
  ]
]

note_findings-keeps :
    (dumped : Bytes → Bool) (label service : Bytes) (fs : List Finding)
    (m : Assoc Bytes (List Bytes))
    → Noted label service m
    → Noted label service (note_findings dumped fs m)
unfolding note_findings
note_findings-keeps dumped label service [] m h = h
note_findings-keeps dumped label service (f ∷ fs) m h =
    note_findings-keeps dumped label service fs _ (note_finding-keeps dumped label service f m h)

-- A finding that has to be warned of.
pub record IsCopied (dumped : Bytes → Bool) (label : Bytes) (f : Finding) : Type 0 where
  pub database : is_database f ≡ true
  pub server : server_database f.technology ≡ some label
  pub not_dumped : dumped (key_of f) ≡ false

note_findings-Noted :
    (dumped : Bytes → Bool) (label : Bytes) (f : Finding)
    → IsCopied dumped label f
    → (fs : List Finding) (m : Assoc Bytes (List Bytes)) → Any (λ g. g ≡ f) fs
    → Noted label f.service (note_findings dumped fs m)
unfolding note_findings note_finding
note_findings-Noted dumped label f h [] m here = elim here [ ]
note_findings-Noted dumped label f h (g ∷ fs) m (inl e) =
    subst (λ g. Noted label f.service (note_findings dumped (g ∷ fs) m)) (sym e)
      (note_findings-keeps dumped label f.service fs _ (
        rw (note_finding, h.database, h.server, h.not_dumped)
          (note_service-Noted label f.service m)))
note_findings-Noted dumped label f h (g ∷ fs) m (inr later) =
    note_findings-Noted dumped label f h fs _ later

-- A warning on the label that names the service, when there is one.
abbrev pub Warns : Bytes → Bytes → Warning → Type 0
Warns label service (copied_as_files l names) =
    (l ≡ label) × ((service ≡ []) ⊎ Any (λ x. x ≡ service) names)
Warns label service _ = ⊥

Warns-map :
    (services : Assoc Bytes (List Bytes)) (label service : Bytes) (ls : List Bytes)
    → (service ≡ []) ⊎ Has service (names_of services label)
    → Has label ls
    → Any (Warns label service) (map (copied_warning services) ls)
Warns-map services label service [] h here = elim here [ ]
Warns-map services label service (l ∷ ls) h (inl e) = inl (
  e,
  elim h [
    | inl g ↦ inl g
    | inr g ↦ inr (
        Has-sort_texts service (names_of services l)
          (subst (λ k. Has service (names_of services k)) (sym e) g))
  ],
)
Warns-map services label service (l ∷ ls) h (inr later) =
    inr (Warns-map services label service ls h later)

-- Every finding of the blueprint that is a server's database, and that was not dumped, is named in a
-- warning of the run: by the label of its engine, and by its service when it has one. There is an
-- analysis and a project.
pub database_consistency_warnings_complete :
    (a : Answers) (project_id label : Bytes) (dumped : Bytes → Bool) (findings : List Finding)
    (f : Finding)
    → a.has_blueprints ≡ true
    → project_id ≢ []
    → a.blueprint for_warnings ≡ some findings
    → IsCopied dumped label f
    → Any (λ g. g ≡ f) findings
    → Any (Warns label f.service) (database_consistency_warnings a project_id dumped)
unfolding database_consistency_warnings
database_consistency_warnings_complete a project_id label dumped findings f hb hp hf hc here =
    let services = note_findings dumped findings [] in
    let noted = note_findings-Noted dumped label f hc findings [] here in
    rw (database_consistency_warnings, hb, bytes_beq-ne project_id [] hp, hf)
      (Warns-map services label f.service (sort_texts (labels services)) noted.1
        (Has-sort_texts label (labels services) (Has-labels label services noted.0)))
