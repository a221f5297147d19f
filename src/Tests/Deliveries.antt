-- ===== src/Tests/Deliveries.antt =====
-- The theorems on the outbox and the sender, each at one database.
use fakery.Prelude.{
  ℕ, ◌+◌, ◌≤◌, ◌≡◌, if◌then◌else◌, ◌==◌, refl, some, [], ◌∷◌, All, find_row, arith,
}
use fakery.Bots.State.{joining}
use fakery.Bots.Models.{WebhookDelivery, Db, sent, seconds}
use fakery.Webhooks.Outbox.{store_in_session, status_payload}
use fakery.Webhooks.Outbox.Sequence.{NoSlotTwice, store_in_session-NoSlotTwice}
use fakery.Webhooks.Streams.{ready_deliveries}
use fakery.Webhooks.Streams.Heads.{IsReady, ready_deliveries-IsReady}
use fakery.Webhooks.Sender.{
  Report, attempt, responded, number, read, backoff, wait, retry_after_seconds, Response,
}
use fakery.Webhooks.Sender.Attempts.{InTime, IsFree, Settled, attempt_settles, wait_bounds}
use fakery.Tests.{sample_delivery, delivery_db}

abbrev event : Db → Db
event = store_in_session 300 (λ s. s + 2000) (status_payload 1 joining 901)

store_in_session-NoSlotTwice_example : NoSlotTwice (event delivery_db).deliveries
store_in_session-NoSlotTwice_example =
    store_in_session-NoSlotTwice 300 (λ s. s + 2000) (status_payload 1 joining 901) delivery_db
      (tt, tt)

ready_deliveries-IsReady_example :
    All (IsReady delivery_db.deliveries 400) (ready_deliveries delivery_db.deliveries 400)
ready_deliveries-IsReady_example = ready_deliveries-IsReady delivery_db.deliveries 400

abbrev unavailable : Response
unavailable = record { status_code = 503; retry_after = number 30 }

soon : InTime 450 7 sample_delivery
unfolding wait backoff retry_after_seconds
soon = omega arith

soon' : InTime 450 9 sample_delivery
unfolding wait backoff retry_after_seconds
soon' = omega arith

attempt_settles_example :
    let (report, db') = attempt 400 450 7 9 66 (responded unavailable) 40 delivery_db in
    (r : Report) × (row : WebhookDelivery) × (report ≡ some r)
    × (read 40 db' ≡ some row)
    × Settled 450 7 9 (responded unavailable) sample_delivery r row
    × IsFree row
    × ((j : ℕ) → read j db' ≡ (if 40 == j then some row else read j delivery_db))
unfolding find_row
attempt_settles_example =
    attempt_settles 400 450 7 9 66 40 sample_delivery delivery_db (responded unavailable) refl refl
      refl soon soon'

abbrev sent_db : Db
sent_db = record delivery_db { deliveries = record sample_delivery { status = sent } ∷ [] }

wait_bounds_example :
    (seconds 2 ≤ wait 3 (some unavailable) 900_000)
    × ((seconds 30 ≤ wait 3 (some unavailable) 900_000)
        × (wait 3 (some unavailable) 900_000 ≤ seconds 301))
unfolding backoff retry_after_seconds
wait_bounds_example = wait_bounds 2 900_000 0 (some unavailable) (omega arith, omega arith)
