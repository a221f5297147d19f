-- ===== src/Webhooks/Outbox.antt =====
-- `DbOutbox` of src/twin/webhooks/dispatch.py: each event becomes one delivery for each subscription.
-- `now` is what `utcnow` says, `event_id` what `new_event_id` draws, and `delivery_id` the `uuid4` that
-- is drawn for the delivery to a subscription.
pub mod Sequence
use fakery.Prelude.{
  ℕ, ◌+◌, Bool, true, false, ◌&&◌, Option, none, some, List, [], ◌∷◌, ◌++◌, if◌then◌else◌, ◌==◌,
  leb, filter, find?, sort_by,
}
use fakery.Bots.State.{BotStatus}
use fakery.Bots.Models.{
  WebhookSubscription, WebhookDelivery, TranscriptSegment, Payload, EventKind, Instant, Db, pending,
}
use fakery.Bots.Service.{EventSink}

-- `f"evt_{…}"` and the payloads; the texts of a segment are carried whole.
abbrev pub status_payload : ℕ → BotStatus → ℕ → Payload
status_payload bot_id status event_id = record {
  bot_id = bot_id;
  event_id = event_id;
  kind = EventKind.status_changed status;
}

abbrev pub segment_payload : TranscriptSegment → ℕ → Payload
segment_payload segment event_id = record {
  bot_id = segment.bot_run_id;
  event_id = event_id;
  kind = EventKind.transcript_segment segment;
}

abbrev pub notes_payload : ℕ → ℕ → Payload
notes_payload bot_id event_id = record {
  bot_id = bot_id;
  event_id = event_id;
  kind = EventKind.notes_completed;
}

abbrev pub is_sub : Option ℕ → ℕ → Bool
is_sub none s = false
is_sub (some r) s = r == s

-- The deliveries of one run to one subscription.
abbrev pub in_stream : ℕ → ℕ → WebhookDelivery → Bool
in_stream subscription_id bot_id d =
    is_sub d.subscription_id subscription_id && d.payload.bot_id == bot_id

-- `ORDER BY sequence DESC`
abbrev pub newest : WebhookDelivery → WebhookDelivery → Bool
newest a b = leb b.sequence a.sequence

unfoldable pub previous : ℕ → ℕ → List WebhookDelivery → Option WebhookDelivery
previous subscription_id bot_id ds =
    find? (λ d. true) (sort_by newest (filter (in_stream subscription_id bot_id) ds))

-- `int(getattr(previous, "sequence", 0) or 0) + 1`
unfoldable pub next_sequence : ℕ → ℕ → List WebhookDelivery → ℕ
next_sequence subscription_id bot_id ds =
    elim (previous subscription_id bot_id ds) [ none ↦ 0 | some d ↦ d.sequence ] + 1

module _ (now : Instant) (delivery_id : ℕ → ℕ) (payload : Payload) where
  unfoldable pub new_delivery : WebhookSubscription → List WebhookDelivery → WebhookDelivery
  new_delivery subscription ds = record {
    id = delivery_id subscription.id;
    subscription_id = some subscription.id;
    event_id = payload.event_id;
    sequence = next_sequence subscription.id payload.bot_id ds;
    url = subscription.url;
    payload = payload;
    status = pending;
    attempts = 0;
    next_try_at = now;
    created_at = now;
    last_error = none;
    last_status_code = none;
    dead_at = none;
    sent_at = none;
    lease_token = none;
    lease_expires_at = none;
  }

  -- The loop of `_store_in_session`.
  unfoldable pub store_rows : List WebhookSubscription → List WebhookDelivery → List WebhookDelivery
  store_rows [] ds = ds
  store_rows (s ∷ ss) ds = store_rows ss (ds ++ new_delivery s ds ∷ [])

  unfoldable pub store_in_session : Db → Db
  store_in_session db = record db { deliveries = store_rows db.subscriptions db.deliveries }

-- The outbox as the sink of the services.
unfoldable pub db_outbox : Instant → ℕ → (ℕ → ℕ) → EventSink
db_outbox now event_id delivery_id = record {
  status_changed =
      λ bot_id status. store_in_session now delivery_id (status_payload bot_id status event_id);
  transcript_segment =
      λ segment. store_in_session now delivery_id (segment_payload segment event_id);
  notes_completed = λ bot_id. store_in_session now delivery_id (notes_payload bot_id event_id);
}
