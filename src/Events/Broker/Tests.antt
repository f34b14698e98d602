-- ===== src/Events/Broker/Tests.antt =====
-- A subscriber between other calls.
use back_orbit.Base.{ℕ, List, [], ◌∷◌, ◌++◌, ◌≡◌, refl, arith}
use back_orbit.Base.Assoc.{insert, lookup}
use back_orbit.Events.Broker.{Broker, new_broker, offer, offer_all, publish, subscribe}
use back_orbit.Events.Broker.Delivery.{
  Action, closed, published, publish_reaches, read_by, reads, received, stays, subscribed,
}

-- Two subscribers, and an event that waits for both.
busy : Broker ℕ
unfolding new_broker subscribe publish offer offer_all insert
busy = publish 5 (subscribe (subscribe new_broker).1).1

abbrev later : List (Action ℕ)
later = received 0 ∷ closed 1 ∷ published 9 ∷ subscribed ∷ received 0 ∷ []

publish_reaches_example :
    (more : List ℕ) × (read_by 0 (published 7 ∷ later) busy ≡ (5 ∷ []) ++ (7 ∷ more))
unfolding busy lookup reads stays
publish_reaches_example =
    publish_reaches 0 later busy 7 (5 ∷ []) (omega arith) refl (omega arith) refl (omega arith)
