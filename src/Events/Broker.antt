-- ===== src/Events/Broker.antt =====
-- internal/events/broker.go: subscribers with their buffered channels. A channel is the list of the
-- events in it; reading one is Go's. Each
-- method is one step. `Publish` takes only a read lock, so in the program two of them can interleave:
-- a channel then gets both events, in either order, as it does from the two steps.
pub mod Delivery
mod Tests
use back_orbit.Base.{
  ℕ, suc, ◌+◌, List, [], ◌∷◌, ◌++◌, Option, none, some, ◌==◌, nat_eq, if◌then◌else◌, ltb, length,
}
use back_orbit.Base.Assoc.{Assoc, insert, lookup, remove}

abbrev pub subscriber_buffer_size : ℕ
subscriber_buffer_size = 64

module _ {ℓ} (A : Type ℓ) where
  pub record Broker : Type ℓ where
    pub subscribers : Assoc ℕ (List A)
    pub next_id : ℕ

module _ {ℓ} {A : Type ℓ} where
  unfoldable pub new_broker : Broker A
  new_broker = record { subscribers = []; next_id = 0 }

  -- `Subscribe`: the new subscriber's id stands for its channel and its `unsubscribe`.
  unfoldable pub subscribe : Broker A → ℕ × Broker A
  subscribe b = (
    b.next_id,
    record { subscribers = insert b.next_id [] b.subscribers; next_id = b.next_id + 1 },
  )

  -- The function that `Subscribe` returns.
  unfoldable pub unsubscribe : ℕ → Broker A → Broker A
  unsubscribe id b = record b { subscribers = remove id b.subscribers }

  -- The `select` of `Publish`.
  unfoldable pub offer : A → List A → List A
  offer e waiting =
      if ltb (length waiting) subscriber_buffer_size then waiting ++ (e ∷ []) else waiting

  unfoldable pub offer_all : A → Assoc ℕ (List A) → Assoc ℕ (List A)
  offer_all e [] = []
  offer_all e ((id, waiting) ∷ rest) = (id, offer e waiting) ∷ offer_all e rest

  -- `Publish`
  unfoldable pub publish : A → Broker A → Broker A
  publish e b = record b { subscribers = offer_all e b.subscribers }

  -- A read from a channel: the first event in it, if there is one.
  unfoldable pub receive : ℕ → Broker A → Option A × Broker A
  receive id b = elim (lookup id b.subscribers) [
    | none ↦ (none, b)
    | some [] ↦ (none, b)
    | some (e ∷ rest) ↦ (some e, record b { subscribers = insert id rest b.subscribers })
  ]
