-- ===== src/Events/Recorder/Published.antt =====
-- What is stored and what is published.
use back_orbit.Base.{
  [], ◌∷◌, ◌++◌, Option, none, some, true, false, ◌&&◌, ◌≡◌, ◌⊎◌, refl, All, Bytes, Bool-cases, inl,
  inr, ok, err,
}
use back_orbit.Base.Assoc.{Assoc}
use back_orbit.Events.Broker.{publish}
use back_orbit.Events.Recorder.{
  Event, EventError, encode_failed, insert_failed, InsertAnswers, Recorder, completed, insert_event,
  is_sensitive, record_event, redact_entries,
}
use back_orbit.Images.{to_lower}

module _ {V : Type 0} (redacted : V) where
  abbrev pub IsRedacted : Option (Assoc Bytes V) → Type 0
  IsRedacted none = Unit
  IsRedacted (some entries) = All (λ e. is_sensitive (to_lower e.0) ≡ true → e.1 ≡ redacted) entries

  redact_entries-IsRedacted :
      (entries : Assoc Bytes V) → IsRedacted (some (redact_entries redacted entries))
  unfolding redact_entries
  redact_entries-IsRedacted [] = tt
  redact_entries-IsRedacted ((key, value) ∷ rest) =
      ((λ e. rw e refl), redact_entries-IsRedacted rest)

  completed-IsRedacted :
      (a : InsertAnswers) (event : Event V)
      → (m : Option (Assoc Bytes V)) → event.metadata ≡ m
      → IsRedacted (completed redacted a event).metadata
  completed-IsRedacted a event none e = rw e tt
  completed-IsRedacted a event (some entries) e = rw e (redact_entries-IsRedacted entries)

  -- One stored event: it says who did what to which target, and no sensitive key has its value.
  pub record IsStoredFor (event stored : Event V) : Type 0 where
    pub action : stored.action ≡ event.action
    pub actor : stored.actor_user_id ≡ event.actor_user_id
    pub target_type : stored.target_type ≡ event.target_type
    pub target : stored.target_id ≡ event.target_id
    pub clean : IsRedacted stored.metadata

  -- `Record` answers that all is well exactly if the encoding and the insertion succeed. Then one event
  -- is added to the log and the same event is published: it has the action, the actor and the target
  -- of the call, and the value of no sensitive key. Otherwise the log stays as it is, and what is
  -- published is the event of the call itself, its sensitive values included.
  pub record_event-outcome :
      (a : InsertAnswers) (event : Event V) (r : Recorder V)
      → ((a.encodes && a.inserts ≡ true)
          × ((record_event redacted a event r).0 ≡ ok tt)
          × ((stored : Event V) × IsStoredFor event stored
              × ((record_event redacted a event r).1
                  ≡ record { log = r.log ++ (stored ∷ []); broker = publish stored r.broker })))
        ⊎ ((a.encodes && a.inserts ≡ false)
            × ((e : EventError) × ((record_event redacted a event r).0 ≡ err e))
            × ((record_event redacted a event r).1
                ≡ record { log = r.log; broker = publish event r.broker }))
  unfolding record_event insert_event
  record_event-outcome a event r = elim (Bool-cases a.encodes) [
    | inl e ↦ elim (Bool-cases a.inserts) [
      | inl i ↦ inl (
          rw (e, i)
            (
              refl,
              refl,
              (
                completed redacted a event,
                record {
                  action = refl;
                  actor = refl;
                  target_type = refl;
                  target = refl;
                  clean = completed-IsRedacted a event event.metadata refl;
                },
                refl,
              ),
            ))
      | inr i ↦ inr (rw (e, i) (refl, (insert_failed, refl), refl))
    ]
    | inr e ↦ inr (rw e (refl, (encode_failed, refl), refl))
  ]
