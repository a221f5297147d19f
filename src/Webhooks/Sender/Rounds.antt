-- ===== src/Webhooks/Sender/Rounds.antt =====
-- `run_once` of src/twin/webhooks/dispatch.py: one round of the sender, on the database and on Redis.
-- `answers` is what comes to an attempt at a delivery: its times, the token that `uuid4` draws and the
-- receiver's answer.
use fakery.Prelude.{ℕ, ◌+◌, true, false, Option, none, some, List, [], ◌∷◌}
use fakery.Bots.Models.{WebhookDelivery, Instant, Db}
use fakery.Bots.Queue.Leases.{Key, send_lease, Redis, acquire_lease, release_lease}
use fakery.Webhooks.Streams.{Stream, group_by_stream}
use fakery.Webhooks.Sender.{
  Outcome, Report, was_sent, was_dead, was_failed, attempt, purge, select_pending, send_lease_ttl_s,
}

-- What comes to one attempt.
pub record Answer : Type 0 where
  pub now : Instant
  pub later : Instant
  pub jitter : ℕ
  pub again : ℕ
  pub token : ℕ
  pub outcome : Outcome

-- What `run_once` returns.
pub record Tally : Type 0 where
  pub sent : ℕ
  pub failed : ℕ
  pub dead : ℕ
  pub purged : ℕ

abbrev pub zeros : Tally
zeros = record { sent = 0; failed = 0; dead = 0; purged = 0 }

unfoldable pub tally : Report → Tally → Tally
tally was_sent t = record t { sent = t.sent + 1 }
tally was_dead t = record t { dead = t.dead + 1 }
tally was_failed t = record t { failed = t.failed + 1 }

-- The owner "sender", which every sender has.
abbrev pub sender : ℕ
sender = 0

module _ (r : Redis) (meanwhile : r.State → r.State) (answers : WebhookDelivery → Answer) where
  -- The deliveries of a stream, in order; one that raises ends the round.
  unfoldable pub attempt_all : List WebhookDelivery → Tally → Db → Option Tally × Db
  attempt_all [] t db = (some t, db)
  attempt_all (d ∷ ds) t db =
      let a = answers d in
      let (report, db') = attempt a.now a.later a.jitter a.again a.token a.outcome d.id db in
      elim report [ none ↦ (none, db') | some r ↦ attempt_all ds (tally r t) db' ]

  abbrev pub stream_lease : Stream → Key
  stream_lease (bot_id, subscription_id) = send_lease bot_id subscription_id

  -- The loop over the streams: one whose lease is taken is passed over. A lease is given back, with
  -- `meanwhile` between the two commands, also where an attempt raised.
  unfoldable pub send_streams :
      List (Stream × List WebhookDelivery) → Tally → Db → r.State → Option Tally × Db × r.State
  send_streams [] t db s = (some t, db, s)
  send_streams ((k, items) ∷ streams) t db s =
      let (granted, held) = acquire_lease r (stream_lease k) sender send_lease_ttl_s s in
      elim granted [
        | false ↦ send_streams streams t db held
        | true ↦
            let (sent_all, db') = attempt_all items t db in
            let freed = release_lease r meanwhile (stream_lease k) sender held in
            elim sent_all [
              | none ↦ (none, db', freed)
              | some t' ↦ send_streams streams t' db' freed
            ]
      ]

  -- The purge that ends a round, where no attempt raised.
  abbrev pub finish : Instant → Option Tally × Db × r.State → Option Tally × Db × r.State
  finish moment (none, db, s) = (none, db, s)
  finish moment (some t, db, s) =
      let (purged, db') = purge moment db in (some (record t { purged = purged }), db', s)

  unfoldable pub run_once : Instant → Db → r.State → Option Tally × Db × r.State
  run_once moment db s =
      finish moment (send_streams (group_by_stream (select_pending moment db)) zeros db s)
