-- ===== src/Bots/Queue.antt =====
-- `relay_queued` of src/twin/bots/queue.py: queued runs go to the stream of the workers. `xadd` is what
-- the stream says to a run: nothing where it took it, and the exception's name where it raised.
pub mod Relay
pub mod Leases
use Prim.Native.String.{String}
use fakery.Prelude.{
  ℕ, ◌+◌, Bool, true, false, ◌&&◌, ◌||◌, Option, none, some, List, [], ◌∷◌, map, if◌then◌else◌,
  ◌==◌, ltb, leb, filter, take, sort_by,
}
use fakery.Bots.State.{queued, status_eq}
use fakery.Bots.Models.{BotRun, DispatchStatus, waiting, enqueued, Instant, Db}
use fakery.Bots.Repository

abbrev pub dispatch_relay_batch : ℕ
dispatch_relay_batch = 50

abbrev pub is_waiting : DispatchStatus → Bool
is_waiting waiting = true
is_waiting enqueued = false

-- `ORDER BY created_at, id`
abbrev pub first_made : BotRun → BotRun → Bool
first_made a b = ltb a.created_at b.created_at || (a.created_at == b.created_at && leb a.id b.id)

-- The runs that `relay_queued` selects.
abbrev pub is_relayable : BotRun → Bool
is_relayable run = status_eq run.status queued && is_waiting run.dispatch_status

unfoldable pub relayable : Db → List BotRun
relayable db = take dispatch_relay_batch (sort_by first_made (filter is_relayable db.bots))

-- A run after the stream took it, or did not.
unfoldable pub dispatched : Instant → Option String → BotRun → BotRun
dispatched now none run = record run {
  dispatch_attempts = run.dispatch_attempts + 1;
  dispatch_status = enqueued;
  dispatch_enqueued_at = some now;
}
dispatched now (some error) run = record run {
  dispatch_attempts = run.dispatch_attempts + 1;
  dispatch_last_error = some error;
}

abbrev pub was_taken : Option String → ℕ
was_taken none = 1
was_taken (some error) = 0

-- The loop of `relay_queued`, over the selected rows, which are those of the session.
unfoldable pub relay_rows : Instant → (ℕ → Option String) → List ℕ → Db → ℕ × Db
relay_rows now xadd [] db = (0, db)
relay_rows now xadd (k ∷ ks) db = elim (Repository.get k db) [
  | none ↦ relay_rows now xadd ks db
  | some run ↦
      let (relayed, db') =
        relay_rows now xadd ks (Repository.save now (dispatched now (xadd k) run) db) in
      (was_taken (xadd k) + relayed, db')
]

abbrev pub id_of : BotRun → ℕ
id_of run = run.id

unfoldable pub relay_queued : Instant → (ℕ → Option String) → Db → ℕ × Db
relay_queued now xadd db = relay_rows now xadd (map id_of (relayable db)) db
