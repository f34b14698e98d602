-- ===== src/Events/Recorder.antt =====
-- internal/events: event.go, `Insert` of store.go and recorder.go. The values of an event's metadata
-- are of any type; nil metadata is an option's `none`. What the random reader, the clock, the JSON
-- encoder and the database answer for one insertion is a record of answers.
pub mod Published
mod Tests
use back_orbit.Base.{
  ℕ, List, [], ◌∷◌, ◌++◌, Option, none, some, Bool, true, false, not, ◌||◌, if◌then◌else◌, Bytes,
  codes, ◌==◌, Result, ok, err, ◌>>=◌, ◌>>◌, guard, map,
}
use back_orbit.Base.Assoc.{Assoc}
use back_orbit.Base.Text.{bytes_beq, bytes_eq}
use back_orbit.Events.Broker.{Broker, publish}
use back_orbit.Images.{to_lower}

pub data EventError : Type 0 where
  encode_failed insert_failed : EventError

pub record InsertAnswers : Type 0 where
  pub new_id : Bytes
  pub now : ℕ
  pub encodes : Bool
  pub inserts : Bool

-- `sensitiveMetadataKeys`
unfoldable pub is_sensitive : Bytes → Bool
is_sensitive key =
    key == codes "password"
    || key == codes "secret"
    || key == codes "token"
    || key == codes "credential"
    || key == codes "credentials"
    || key == codes "apikey"
    || key == codes "api_key"

module _ (V : Type 0) where
  -- The zero time is `none`.
  pub record Event : Type 0 where
    pub id : Bytes
    pub action : Bytes
    pub actor_user_id : Bytes
    pub target_type : Bytes
    pub target_id : Bytes
    pub metadata : Option (Assoc Bytes V)
    pub created_at : Option ℕ

  -- The audit table and the live subscribers.
  pub record Recorder : Type 0 where
    pub log : List Event
    pub broker : Broker Event

module _ {V : Type 0} (redacted : V) where
  unfoldable pub redact_entries : Assoc Bytes V → Assoc Bytes V
  redact_entries [] = []
  redact_entries ((key, value) ∷ rest) =
      (key, (if is_sensitive (to_lower key) then redacted else value)) ∷ redact_entries rest

  -- `redactMetadata`
  abbrev pub redact_metadata : Option (Assoc Bytes V) → Option (Assoc Bytes V)
  redact_metadata none = none
  redact_metadata (some entries) = some (redact_entries entries)

  abbrev pub time_or : ℕ → Option ℕ → Option ℕ
  time_or now none = some now
  time_or now (some t) = some t

  abbrev pub completed : InsertAnswers → Event V → Event V
  completed a event = record event {
    id = if event.id == [] then a.new_id else event.id;
    created_at = time_or a.now event.created_at;
    metadata = redact_metadata event.metadata;
  }

  -- `Store.Insert`
  unfoldable pub insert_event :
      InsertAnswers → Event V → List (Event V) → Result EventError (Event V × List (Event V))
  insert_event a event log = do
    let stored = completed a event
    guard a.encodes encode_failed
    guard a.inserts insert_failed
    ok (stored, log ++ (stored ∷ []))

  abbrev pub emitted :
      Event V → Recorder V → Result EventError (Event V × List (Event V)) → Recorder V
  emitted event r (ok (stored, log)) = record { log = log; broker = publish stored r.broker }
  emitted event r (err e) = record r { broker = publish event r.broker }

  -- `Emit`
  unfoldable pub emit : InsertAnswers → Event V → Recorder V → Recorder V
  emit a event r = emitted event r (insert_event a event r.log)

  abbrev pub recorded_answer :
      Result EventError (Event V × List (Event V)) → Result EventError (Unit {0})
  recorded_answer (ok _) = ok tt
  recorded_answer (err e) = err e

  -- `Record`, which publishes as `Emit` does and reports the failure.
  unfoldable pub record_event :
      InsertAnswers → Event V → Recorder V → Result EventError (Unit {0}) × Recorder V
  record_event a event r =
      let inserted = insert_event a event r.log in
      (recorded_answer inserted, emitted event r inserted)
