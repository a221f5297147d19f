-- ===== src/Webhooks/Outbox/Sequence.antt =====
-- The sequence numbers of the outbox (src/twin/webhooks/dispatch.py).
use fakery.Prelude.{
  All-map, ℕ, ◌≤◌, ◌<◌, ◌≡◌, refl, Bool, true, false, ◌&&◌, none, some, List, [], ◌∷◌, ◌++◌, ◌==◌,
  filter, find?, sort_by, insert_by, All, append-All, Bool-cases, inl, inr, arith,
}
use fakery.Bots.Models.{WebhookSubscription, WebhookDelivery, Payload, Instant, Db, pending}
use fakery.Bots.Service.Lifecycle.{KeepRuns}
use fakery.Bots.Service.Artifacts.Segments.{KeepTranscript}
use fakery.Webhooks.Outbox.{
  in_stream, newest, previous, next_sequence, new_delivery, store_rows, store_in_session, db_outbox,
}

-- Two deliveries that the index `uq_webhook_delivery_stream_sequence` forbids together
-- (db/migrations/versions/0005_pilot_reliability_columns.py).
abbrev pub same_slot : WebhookDelivery → WebhookDelivery → Bool
same_slot a b = elim a.subscription_id [
  | none ↦ false
  | some s ↦ in_stream s a.payload.bot_id b && a.sequence == b.sequence
]

abbrev pub NoSlotTwice : List WebhookDelivery → Type 0
NoSlotTwice [] = Unit
NoSlotTwice (d ∷ ds) = All (λ e. same_slot d e ≡ false) ds × NoSlotTwice ds

-- The first row by `ORDER BY sequence DESC` has the greatest number.
abbrev first_bound : List WebhookDelivery → ℕ
first_bound xs = elim (find? (λ d. true) xs) [ none ↦ 0 | some d ↦ d.sequence ]

insert_by-first :
    (a : WebhookDelivery) (xs : List WebhookDelivery)
    → (first_bound xs ≤ first_bound (insert_by newest a xs))
      × (a.sequence ≤ first_bound (insert_by newest a xs))
unfolding insert_by
insert_by-first a [] = omega arith
insert_by-first a (x ∷ xs) = ground arith

append_one-NoSlotTwice :
    (d : WebhookDelivery) (ds : List WebhookDelivery)
    → All (λ e. same_slot e d ≡ false) ds
    → NoSlotTwice ds
    → NoSlotTwice (ds ++ d ∷ [])
append_one-NoSlotTwice d [] a h = (tt, tt)
append_one-NoSlotTwice d (x ∷ xs) a h = (
  append-All (λ e. same_slot x e ≡ false) xs (d ∷ []) h.0 (a.0, tt),
  append_one-NoSlotTwice d xs a.1 h.1,
)

bound_sorted :
    (p : WebhookDelivery → Bool) (xs : List WebhookDelivery) (n : ℕ)
    → first_bound (sort_by newest (filter p xs)) ≤ n
    → All (λ d. p d ≡ true → d.sequence ≤ n) xs
unfolding sort_by
bound_sorted p [] n h = tt
bound_sorted p (x ∷ xs) n h = elim (Bool-cases (p x)) [
  | inl e ↦
      let (tail, head) = insert_by-first x (sort_by newest (filter p xs)) in
      let h' : first_bound (insert_by newest x (sort_by newest (filter p xs))) ≤ n = rw e at h in
      (λ _. omega arith, bound_sorted p xs n (omega arith))
  | inr e ↦
      let h' : first_bound (sort_by newest (filter p xs)) ≤ n = rw e at h in
      (λ t. absurd (ground arith), bound_sorted p xs n h')
]

module _ (now : Instant) (delivery_id : ℕ → ℕ) (payload : Payload) where
  -- The number of a new delivery is greater than all those of its stream.
  new_delivery-fresh :
      (s : WebhookSubscription) (ds : List WebhookDelivery)
      → All
          (λ d.
            in_stream s.id payload.bot_id d ≡ true
            → d.sequence < (new_delivery now delivery_id payload s ds).sequence)
          ds
  unfolding new_delivery next_sequence previous
  new_delivery-fresh s ds =
      let n : ℕ = first_bound (sort_by newest (filter (in_stream s.id payload.bot_id) ds)) in
      All-map ds (λ d h t. omega (arith, h t))
        (bound_sorted (in_stream s.id payload.bot_id) ds n (omega arith))

  fresh_slot :
      (s : WebhookSubscription) (ds : List WebhookDelivery) (d : WebhookDelivery)
      → (in_stream s.id payload.bot_id d ≡ true
          → d.sequence < (new_delivery now delivery_id payload s ds).sequence)
      → same_slot d (new_delivery now delivery_id payload s ds) ≡ false
  unfolding new_delivery
  fresh_slot s ds d h = ground arith

  store_rows-NoSlotTwice :
      (ss : List WebhookSubscription) (ds : List WebhookDelivery)
      → NoSlotTwice ds
      → NoSlotTwice (store_rows now delivery_id payload ss ds)
  unfolding store_rows
  store_rows-NoSlotTwice [] ds h = h
  store_rows-NoSlotTwice (s ∷ ss) ds h =
      store_rows-NoSlotTwice ss (ds ++ new_delivery now delivery_id payload s ds ∷ []) (
        append_one-NoSlotTwice (new_delivery now delivery_id payload s ds) ds
          (All-map ds (fresh_slot s ds) (new_delivery-fresh s ds)) h)

  -- An event never takes a sequence number that a delivery of its stream has.
  pub store_in_session-NoSlotTwice :
      (db : Db)
      → NoSlotTwice db.deliveries
      → NoSlotTwice (store_in_session now delivery_id payload db).deliveries
  unfolding store_in_session
  store_in_session-NoSlotTwice db h = store_rows-NoSlotTwice db.subscriptions db.deliveries h

  -- The table after a pending delivery for each of some subscriptions.
  abbrev pub Announces :
      List WebhookSubscription → List WebhookDelivery → List WebhookDelivery → Type 0
  Announces [] ds out = out ≡ ds
  Announces (s ∷ ss) ds out =
      (d : WebhookDelivery) × (d.subscription_id ≡ some s.id)
      × (d.payload ≡ payload)
      × (d.url ≡ s.url)
      × (d.status ≡ pending)
      × All (λ e. in_stream s.id payload.bot_id e ≡ true → e.sequence < d.sequence) ds
      × Announces ss (ds ++ d ∷ []) out

  store_rows-Announces :
      (ss : List WebhookSubscription) (ds : List WebhookDelivery)
      → Announces ss ds (store_rows now delivery_id payload ss ds)
  unfolding store_rows new_delivery
  store_rows-Announces [] ds = refl
  store_rows-Announces (s ∷ ss) ds = (
    new_delivery now delivery_id payload s ds,
    refl,
    refl,
    refl,
    refl,
    new_delivery-fresh s ds,
    store_rows-Announces ss (ds ++ new_delivery now delivery_id payload s ds ∷ []),
  )

  -- An event leaves in the table what was there, then a pending delivery for each subscription, in
  -- order, with the event's payload, the subscription's URL and a number above all those of its
  -- stream.
  pub store_in_session-Announces :
      (db : Db)
      → Announces db.subscriptions db.deliveries
          (store_in_session now delivery_id payload db).deliveries
  unfolding store_in_session
  store_in_session-Announces db = store_rows-Announces db.subscriptions db.deliveries

-- The outbox writes no run, so it may be the sink of the service.
pub db_outbox-KeepRuns :
    (now : Instant) (event_id : ℕ) (delivery_id : ℕ → ℕ)
    → KeepRuns (some (db_outbox now event_id delivery_id))
unfolding db_outbox store_in_session
db_outbox-KeepRuns now event_id delivery_id = record { on_status = λ k s db. refl }

pub db_outbox-KeepTranscript :
    (now : Instant) (event_id : ℕ) (delivery_id : ℕ → ℕ)
    → KeepTranscript (some (db_outbox now event_id delivery_id))
unfolding db_outbox store_in_session
db_outbox-KeepTranscript now event_id delivery_id = record { on_segment = λ s db. refl }
