-- ===== src/Webhooks/Deliveries.antt =====
-- src/twin/api/routes/deliveries.py: an operator replays or skips a delivery.
use fakery.Prelude.{ℕ, ◌+◌, Option, none, some, Bool, true, List, ◌==◌, leb, take, sort_by, filter}
use fakery.Core.Errors.{not_found}
use fakery.Core.Action.{Action, or_raise, modify, pure, ◌>>=◌, ◌>>◌}
use fakery.Bots.Models.{WebhookDelivery, pending, skipped, Instant, Db, days}
use fakery.Webhooks.Sender.{read, write}

unfoldable pub replayed : Instant → WebhookDelivery → WebhookDelivery
replayed now d = record d {
  status = pending;
  next_try_at = now;
  dead_at = none;
  lease_token = none;
  lease_expires_at = none;
}

unfoldable pub replay_delivery : Instant → ℕ → Action Db WebhookDelivery
replay_delivery now k = do
  delivery ← λ db. or_raise (read k db) not_found db
  modify (write (replayed now delivery))
  pure (replayed now delivery)

unfoldable pub skipped_row : Instant → WebhookDelivery → WebhookDelivery
skipped_row now d = record d {
  status = skipped;
  next_try_at = now + days 30;
  lease_token = none;
  lease_expires_at = none;
}

unfoldable pub skip_delivery : Instant → ℕ → Action Db WebhookDelivery
skip_delivery now k = do
  delivery ← λ db. or_raise (read k db) not_found db
  modify (write (skipped_row now delivery))
  pure (skipped_row now delivery)

-- `ORDER BY created_at DESC`
abbrev pub latest : WebhookDelivery → WebhookDelivery → Bool
latest a b = leb b.created_at a.created_at

abbrev pub is_about : Option ℕ → WebhookDelivery → Bool
is_about none d = true
is_about (some bot_id) d = d.payload.bot_id == bot_id

unfoldable pub list_deliveries : Option ℕ → ℕ → Db → List WebhookDelivery
list_deliveries bot_id limit db =
    take limit (sort_by latest (filter (is_about bot_id) db.deliveries))
