-- ===== src/Projects/Service/Removed.antt =====
-- What removing a project does.
use back_orbit.Base.{
  ℕ, List, [], ◌∷◌, ◌++◌, none, some, Bool, false, ◌≡◌, ◌≢◌, ◌⊎◌, refl, sym, ap, ◌∙◌, arith, Bytes,
  codes, Bool-cases, Option-cases, inl, inr, ok, err, Result,
}
use back_orbit.Base.Text.{bytes_beq, bytes_beq-ne, bytes_beq_iff, bytes_eq}
use back_orbit.Events.Recorder.{Event, EventError, Recorder, record_event}
use back_orbit.Events.Recorder.Published.{record_event-outcome}
use back_orbit.Projects.Registry.{
  Project, ProjectError, audit_failed, database_failed, delete_id, delete_project, find_row,
  get_by_id, project_not_found,
}
use back_orbit.Projects.Service.{
  RemoveAnswers, Service, after_audit, after_delete, remove, remove_found, removed_event,
}

get_by_id-delete_id : (id : Bytes) (rows : List Project) → get_by_id id (delete_id id rows) ≡ none
unfolding find_row delete_id
get_by_id-delete_id id [] = refl
get_by_id-delete_id id (p ∷ ps) = elim (Bool-cases (bytes_beq p.id id)) [
  | inl e ↦ rw e (get_by_id-delete_id id ps)
  | inr e ↦ rw (e, e) (get_by_id-delete_id id ps)
]

get_by_id-delete_other :
    (id j : Bytes) (rows : List Project)
    → j ≢ id
    → get_by_id j (delete_id id rows) ≡ get_by_id j rows
unfolding find_row delete_id
get_by_id-delete_other id j [] ne = refl
get_by_id-delete_other id j (p ∷ ps) ne =
    let ih = get_by_id-delete_other id j ps ne in
    elim (Bool-cases (bytes_beq p.id id)) [
      | inl e ↦
          let own : p.id ≡ id = (bytes_beq_iff p.id id).0 e in
          let apart : bytes_beq p.id j ≡ false =
            bytes_beq-ne p.id j (λ (s : p.id ≡ j). ne (sym s ∙ own)) in
          rw (e, apart) ih
      | inr e ↦ elim (Bool-cases (bytes_beq p.id j)) [
        | inl here ↦ rw (e, here) refl
        | inr there ↦ rw (e, there) ih
      ]
    ]

module _ {V : Type 0} where
  -- The removal was noted in the log before, and only the row of this id is gone.
  pub record IsForgotten (id : Bytes) (s t : Service V) : Type 0 where
    pub noted : Event V
    pub logged : t.recorder.log ≡ s.recorder.log ++ (noted ∷ [])
    pub action : noted.action ≡ codes "project.removed"
    pub target : noted.target_id ≡ id
    pub gone : get_by_id id t.rows ≡ none
    pub others : (j : Bytes) → j ≢ id → get_by_id j t.rows ≡ get_by_id j s.rows

  abbrev IsRemoval : Bytes → Service V → Result ProjectError (Unit {0}) × Service V → Type 0
  IsRemoval id s r =
      ((r.0 ≡ ok tt) × IsForgotten id s r.1)
      ⊎ (((e : ProjectError) × (r.0 ≡ err e)) × (r.1.rows ≡ s.rows))

  -- The deletion behind a removal that is noted in the log.
  after_delete-IsRemoval :
      (deletes : Bool) (id : Bytes) (p : Project) (s : Service V) (noted : Event V) (r : Recorder V)
      → r.log ≡ s.recorder.log ++ (noted ∷ [])
      → noted.action ≡ codes "project.removed"
      → noted.target_id ≡ id
      → get_by_id id s.rows ≡ some p
      → IsRemoval id s (after_delete (record s { recorder = r }) (delete_project deletes id s.rows))
  unfolding delete_project
  after_delete-IsRemoval deletes id p s noted r logged action target there =
      elim (Bool-cases deletes) [
        | inl e ↦
            rw (e, there)
              (inl (
                refl,
                record {
                  noted = noted;
                  logged = logged;
                  action = action;
                  target = target;
                  gone = get_by_id-delete_id id s.rows;
                  others = λ j ne. get_by_id-delete_other id j s.rows ne;
                },
              ))
        | inr e ↦ rw e (inr ((database_failed, refl), refl))
      ]

  after_audit-stored :
      (deletes : Bool) (id : Bytes) (p : Project) (s : Service V) (noted : Event V)
      (answer : Result EventError (Unit {0}) × Recorder V)
      → answer.0 ≡ ok tt
      → answer.1.log ≡ s.recorder.log ++ (noted ∷ [])
      → noted.action ≡ codes "project.removed"
      → noted.target_id ≡ id
      → get_by_id id s.rows ≡ some p
      → IsRemoval id s (after_audit deletes id s answer)
  after_audit-stored deletes id p s noted (ok _, r) h logged action target there =
      after_delete-IsRemoval deletes id p s noted r logged action target there
  after_audit-stored deletes id p s noted (err e, r) h logged action target there =
      ground (arith, h)

  after_audit-failed :
      (deletes : Bool) (id : Bytes) (s : Service V)
      (answer : Result EventError (Unit {0}) × Recorder V) (e : EventError)
      → answer.0 ≡ err e
      → IsRemoval id s (after_audit deletes id s answer)
  after_audit-failed deletes id s (ok _, r) e h = ground (arith, h)
  after_audit-failed deletes id s (err f, r) e h = inr ((audit_failed, refl), refl)

  module _ (redacted : V) (text : Bytes → V) (number : ℕ → V) where
    remove_found-IsRemoval :
        (actor id : Bytes) (a : RemoveAnswers) (s : Service V) (p : Project)
        → get_by_id id s.rows ≡ some p
        → IsRemoval id s (remove_found redacted text number actor id a s (ok p))
    remove_found-IsRemoval actor id a s p there =
        let event = removed_event redacted text number actor id p in
        let answer = record_event redacted a.audit event s.recorder in
        elim (record_event-outcome redacted a.audit event s.recorder) [
          | inl (_, answered, (stored, same, put)) ↦
              after_audit-stored a.deletes id p s stored answer answered
                (ap (λ (r : Recorder V). r.log) put) same.action same.target there
          | inr (_, (e, answered), put) ↦ after_audit-failed a.deletes id s answer e answered
        ]

    -- `Remove` succeeds only behind an event in the log that says that the project of this id was
    -- removed; then the row of the id is gone and every other is as it was. If it fails no row has
    -- changed.
    pub remove-IsForgotten :
        (actor id : Bytes) (a : RemoveAnswers) (s : Service V)
        → (((remove redacted text number actor id a s).0 ≡ ok tt)
            × IsForgotten id s (remove redacted text number actor id a s).1)
          ⊎ (((e : ProjectError) × ((remove redacted text number actor id a s).0 ≡ err e))
              × ((remove redacted text number actor id a s).1.rows ≡ s.rows))
    unfolding remove
    remove-IsForgotten actor id a s = elim (Bool-cases a.reads) [
      | inr e ↦ rw e (inr ((database_failed, refl), refl))
      | inl e ↦ elim (Option-cases (get_by_id id s.rows)) [
        | inl missing ↦ rw (e, missing) (inr ((project_not_found, refl), refl))
        | inr (p, there) ↦ rw (e, there) (remove_found-IsRemoval actor id a s p there)
      ]
    ]
