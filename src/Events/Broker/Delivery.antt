-- ===== src/Events/Broker/Delivery.antt =====
-- What reaches a subscriber, whatever the others do.
use back_orbit.Base.{
  ℕ, suc, ◌<◌, List, [], ◌∷◌, ◌++◌, Option, none, some, Bool, true, ◌&&◌, not, ◌==◌, nat_eq,
  nat_beq_iff, if◌then◌else◌, ltb, length, ◌≡◌, ◌≢◌, arith, refl, Bool-cases, Option-cases, inl,
  inr, append_assoc, ap, ◌∙◌,
}
use back_orbit.Base.Assoc.{Assoc, insert, lookup, lookup-insert, lookup-remove}
use back_orbit.Events.Broker.{
  Broker, offer, offer_all, publish, receive, subscribe, unsubscribe, subscriber_buffer_size,
}

-- One call on the hub, by anyone.
pub data Action {ℓ} (A : Type ℓ) : Type ℓ where
  published : A → Action A
  received closed : ℕ → Action A
  subscribed : Action A

module _ {ℓ} {A : Type ℓ} where
  abbrev pub cons_some : Option A → List A → List A
  cons_some none got = got
  cons_some (some e) got = e ∷ got

  -- What the subscriber `me` reads in the course of some calls.
  unfoldable pub read_by : ℕ → List (Action A) → Broker A → List A
  read_by me [] b = []
  read_by me (published e ∷ calls) b = read_by me calls (publish e b)
  read_by me (subscribed ∷ calls) b = read_by me calls (subscribe b).1
  read_by me (closed id ∷ calls) b = read_by me calls (unsubscribe id b)
  read_by me (received id ∷ calls) b =
      let rest = read_by me calls (receive id b).1 in
      if id == me then cons_some (receive id b).0 rest else rest

  -- How often `me` reads, and that it does not unsubscribe.
  unfoldable pub reads : ℕ → List (Action A) → ℕ
  reads me [] = 0
  reads me (received id ∷ calls) = let rest = reads me calls in if id == me then suc rest else rest
  reads me (_ ∷ calls) = reads me calls

  unfoldable pub stays : ℕ → List (Action A) → Bool
  stays me [] = true
  stays me (closed id ∷ calls) = not (id == me) && stays me calls
  stays me (_ ∷ calls) = stays me calls

  lookup-offer_all :
      (e : A) (id : ℕ) (m : Assoc ℕ (List A)) (q : List A)
      → lookup id m ≡ some q
      → lookup id (offer_all e m) ≡ some (offer e q)
  unfolding lookup offer_all
  lookup-offer_all e id [] q h = absurd (ground arith)
  lookup-offer_all e id ((j, w) ∷ m) q h = ground (arith, lookup-offer_all e id m q)

  -- What waits in front of an event stays in front of it.
  offer-behind :
      (x e : A) (q tail : List A) → (more : List A) × (offer x (q ++ (e ∷ tail)) ≡ q ++ (e ∷ more))
  unfolding offer
  offer-behind x e q tail =
      elim (Bool-cases (ltb (length (q ++ (e ∷ tail))) subscriber_buffer_size)) [
        | inl room ↦ (tail ++ (x ∷ []), rw (offer, room) (append_assoc q (e ∷ tail) (x ∷ [])))
        | inr full ↦ (tail, rw (offer, full) refl)
      ]

  receive-first :
      (me : ℕ) (b : Broker A) (x : A) (rest : List A)
      → lookup me b.subscribers ≡ some (x ∷ rest)
      → receive me b ≡ (some x, record b { subscribers = insert me rest b.subscribers })
  unfolding receive
  receive-first me b x rest h = rw (receive, h) refl

  lookup-insert_self :
      (me : ℕ) (q : List A) (m : Assoc ℕ (List A)) → lookup me (insert me q m) ≡ some q
  lookup-insert_self me q m = ground (arith, lookup-insert me me q m)

  lookup-receive_other :
      (id me : ℕ) (b : Broker A)
      → id ≢ me
      → (lookup me (receive id b).1.subscribers ≡ lookup me b.subscribers)
        × ((receive id b).1.next_id ≡ b.next_id)
  unfolding receive
  lookup-receive_other id me b ne = elim (Option-cases (lookup id b.subscribers)) [
    | inl e ↦ (rw (receive, e) refl, rw (receive, e) refl)
    | inr ([], e) ↦ (rw (receive, e) refl, rw (receive, e) refl)
    | inr (x ∷ rest, e) ↦ (
      rw (receive, e) (ground (arith, lookup-insert id me rest b.subscribers, ne)),
      rw (receive, e) refl,
    )
  ]

  -- An event that waits behind `q` is read right after `q`.
  read_by-waiting :
      (me : ℕ) (calls : List (Action A)) (b : Broker A) (e : A) (q tail : List A)
      → me < b.next_id
      → stays me calls ≡ true
      → length q < reads me calls
      → lookup me b.subscribers ≡ some (q ++ (e ∷ tail))
      → (more : List A) × (read_by me calls b ≡ q ++ (e ∷ more))
  unfolding read_by reads stays publish subscribe unsubscribe
  read_by-waiting me [] b e q tail known here enough h = absurd (omega arith)
  read_by-waiting me (published x ∷ calls) b e q tail known here enough h =
      let (more, behind) = offer-behind x e q tail in
      read_by-waiting me calls (publish x b) e q more known here enough
        (lookup-offer_all x me b.subscribers (q ++ (e ∷ tail)) h ∙ ap some behind)
  read_by-waiting me (subscribed ∷ calls) b e q tail known here enough h =
      read_by-waiting me calls (subscribe b).1 e q tail (omega arith) here enough
        (ground (arith, lookup-insert b.next_id me [] b.subscribers))
  read_by-waiting me (closed id ∷ calls) b e q tail known here enough h =
      read_by-waiting me calls (unsubscribe id b) e q tail known (ground arith) enough
        (ground (arith, lookup-remove id me b.subscribers))
  read_by-waiting me (received id ∷ calls) b e [] tail known here enough h =
      elim (Bool-cases (id == me)) [
        | inl mine ↦
            let same : id ≡ me = (nat_beq_iff id me).0 mine in
            let got : (receive id b).0 ≡ some e =
              rw same (ap (λ (p : Option A × Broker A). p.0) (receive-first me b e tail h)) in
            (read_by me calls (receive id b).1, rw (mine, got) refl)
        | inr other ↦
            let ne : id ≢ me = λ p. cc ((nat_beq_iff id me).1 p, other) in
            let (kept, next) = lookup-receive_other id me b ne in
            let (more, rest) =
              read_by-waiting me calls (receive id b).1 e [] tail (rw next known) here
                (rw other at enough) (kept ∙ h) in
            let now : read_by me (received id ∷ calls) b ≡ read_by me calls (receive id b).1 =
              rw other refl in
            (more, now ∙ rest)
      ]
  read_by-waiting me (received id ∷ calls) b e (y ∷ q) tail known here enough h =
      elim (Bool-cases (id == me)) [
        | inl mine ↦
            let same : id ≡ me = (nat_beq_iff id me).0 mine in
            let b' : Broker A = record b {
              subscribers = insert me (q ++ (e ∷ tail)) b.subscribers;
            } in
            let got : receive id b ≡ (some y, b') =
              rw same (receive-first me b y (q ++ (e ∷ tail)) h) in
            let fewer : suc (length q) < suc (reads me calls) = rw mine at enough in
            let (more, rest) =
              read_by-waiting me calls b' e q tail known here (omega (arith, fewer))
                (lookup-insert_self me (q ++ (e ∷ tail)) b.subscribers) in
            let now : read_by me (received id ∷ calls) b ≡ y ∷ read_by me calls b' =
              rw (mine, got) refl in
            (more, now ∙ ap (λ (l : List A). y ∷ l) rest)
        | inr other ↦
            let ne : id ≢ me = λ p. cc ((nat_beq_iff id me).1 p, other) in
            let (kept, next) = lookup-receive_other id me b ne in
            let (more, rest) =
              read_by-waiting me calls (receive id b).1 e (y ∷ q) tail (rw next known) here
                (rw other at enough) (kept ∙ h) in
            let now : read_by me (received id ∷ calls) b ≡ read_by me calls (receive id b).1 =
              rw other refl in
            (more, now ∙ rest)
      ]

  -- An event reaches every subscriber that has room for it when it is published: whatever calls
  -- follow, of anyone, once the subscriber has read all that waited before, the next event that it
  -- reads is this one. Conditions: it does not unsubscribe, and reads more often than there were
  -- events waiting.
  pub publish_reaches :
      (me : ℕ) (calls : List (Action A)) (b : Broker A) (e : A) (q : List A)
      → me < b.next_id
      → lookup me b.subscribers ≡ some q
      → length q < subscriber_buffer_size
      → stays me calls ≡ true
      → length q < reads me calls
      → (more : List A) × (read_by me (published e ∷ calls) b ≡ q ++ (e ∷ more))
  unfolding read_by publish offer
  publish_reaches me calls b e q known here room there enough =
      read_by-waiting me calls (publish e b) e q [] known there enough
        (lookup-offer_all e me b.subscribers q here ∙ ground (arith, room))
