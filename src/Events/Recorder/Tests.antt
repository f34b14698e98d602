-- ===== src/Events/Recorder/Tests.antt =====
-- An event with a password among its metadata, whose insertion fails.
use back_orbit.Base.{[], ◌∷◌, none, some, true, false, ◌≡◌, ◌&&◌, ◌⊎◌, refl, Bytes, codes, err, ok}
use back_orbit.Base.Text.{bytes_beq}
use back_orbit.Events.Broker.{new_broker, publish}
use back_orbit.Events.Recorder.{
  Event, EventError, InsertAnswers, Recorder, is_sensitive, record_event, redact_entries,
}
use back_orbit.Events.Recorder.Published.{IsStoredFor, record_event-outcome}

abbrev login : Event Bytes
login = record {
  id = [];
  action = codes "auth.login_failed";
  actor_user_id = [];
  target_type = [];
  target_id = [];
  metadata = some ((codes "Password", codes "hunter2") ∷ (codes "user", codes "eve") ∷ []);
  created_at = none;
}

abbrev full_disk : InsertAnswers
full_disk = record { new_id = codes "id"; now = 7; encodes = true; inserts = false }

abbrev quiet : Recorder Bytes
quiet = record { log = []; broker = new_broker }

record_event-outcome_example :
    ((full_disk.encodes && full_disk.inserts ≡ true)
      × ((record_event (codes "[redacted]") full_disk login quiet).0 ≡ ok tt)
      × ((stored : Event Bytes) × IsStoredFor (codes "[redacted]") login stored
          × ((record_event (codes "[redacted]") full_disk login quiet).1
              ≡ record { log = stored ∷ []; broker = publish stored new_broker })))
    ⊎ ((full_disk.encodes && full_disk.inserts ≡ false)
        × ((e : EventError) × ((record_event (codes "[redacted]") full_disk login quiet).0 ≡ err e))
        × ((record_event (codes "[redacted]") full_disk login quiet).1
            ≡ record { log = []; broker = publish login new_broker }))
record_event-outcome_example = record_event-outcome (codes "[redacted]") full_disk login quiet

hidden :
    redact_entries
      (codes "[redacted]")
      ((codes "Password", codes "hunter2") ∷ (codes "user", codes "eve") ∷ [])
    ≡ (codes "Password", codes "[redacted]") ∷ (codes "user", codes "eve") ∷ []
unfolding redact_entries is_sensitive bytes_beq
hidden = refl
