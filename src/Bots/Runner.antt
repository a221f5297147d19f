-- ===== src/Bots/Runner.antt =====
-- src/twin/bots/runner.py: capacity reservations and orphaned runs. A function here is the body of one
-- `session_scope`; `heartbeat` is what `redis.get(heartbeat_key(…))` says of each run.

pub mod Capacity
pub mod Execute
use fakery.Prelude.{
  ℕ, ◌+◌, ◌-◌, Bool, true, false, ◌&&◌, ◌||◌, not, Option, none, some, List, [], ◌∷◌, ◌++◌,
  if◌then◌else◌, ◌==◌, ltb, leb, is_none, is_some, filter, find?, count_if, find_row, put_row,
  length,
}
use fakery.Core.Action.{Action, Result, ok, err, pure, modify, ◌>>=◌, ◌>>◌}
use fakery.Bots.State.{BotStatus, queued, failed, is_in, status_eq, live_statuses}
use fakery.Bots.Models.{CapacityCounter, CapacityReservation, BotRun, Instant, Db, seconds}
use fakery.Bots.Repository
use fakery.Bots.Service.{EventSink, is_terminal, advance}

-- `RESERVATION_STALE_S`
abbrev pub reservation_stale_s : ℕ
reservation_stale_s = 300

-- The settings that a reservation reads.
pub record Settings : Type 0 where
  pub tenant : ℕ
  pub max_concurrent_runs : ℕ

unfoldable pub is_live : BotStatus → Bool
is_live s = is_in s live_statuses

-- `(now - updated_at).total_seconds() > stale_after_s`
abbrev pub older_than : Instant → ℕ → Instant → Bool
older_than updated_at stale_after_s now = ltb (updated_at + seconds stale_after_s) now

unfoldable pub is_orphan : BotStatus → Instant → Bool → Instant → ℕ → Bool
is_orphan status updated_at heartbeat now stale_after_s =
    if not (is_live status) || heartbeat then false else older_than updated_at stale_after_s now

unfoldable pub count_live_runs : Db → ℕ
count_live_runs db = length (filter (λ (r : BotRun). is_live r.status) db.bots)

abbrev pub is_open_for : ℕ → CapacityReservation → Bool
is_open_for bot_id r = r.bot_id == bot_id && is_none r.released_at

abbrev counter_key : CapacityCounter → ℕ
counter_key c = c.tenant

-- The tenant's counter with the limit of the settings, made if it is missing.
unfoldable pub load_counter :
    Settings → List CapacityCounter → CapacityCounter × List CapacityCounter
load_counter settings counters = elim (find_row counter_key settings.tenant counters) [
  | none ↦
      let counter : CapacityCounter = record {
        tenant = settings.tenant;
        active_count = 0;
        limit = settings.max_concurrent_runs;
      } in
      (counter, counters ++ counter ∷ [])
  | some found ↦
      let counter : CapacityCounter = record found { limit = settings.max_concurrent_runs } in
      (counter, put_row counter_key counter counters)
]

-- `_try_reserve_capacity`; `new_id` is what `uuid4` draws.
unfoldable pub try_reserve_capacity : Settings → ℕ → Instant → ℕ → ℕ → Db → Bool × Db
unfolding load_counter
try_reserve_capacity settings new_id now bot_id owner db =
    let (counter, counters) = load_counter settings db.counters in
    elim (find? (is_open_for bot_id) db.reservations) [
      | some current ↦ (current.owner == owner, record db { counters = counters })
      | none ↦
          if leb counter.limit counter.active_count
          then (false, record db { counters = counters })
          else (
            true,
            record db {
              counters =
                  put_row counter_key (record counter { active_count = counter.active_count + 1 })
                    counters;
              reservations =
                  db.reservations
                  ++ record {
                    id = new_id;
                    tenant = settings.tenant;
                    bot_id = bot_id;
                    owner = owner;
                    acquired_at = now;
                    released_at = none;
                  }
                    ∷ [];
            },
          )
    ]

-- `_has_other_reservation`
unfoldable pub has_other_reservation : ℕ → ℕ → Db → Bool
has_other_reservation bot_id owner db = elim (find? (is_open_for bot_id) db.reservations) [
  | none ↦ false
  | some current ↦ not (current.owner == owner)
]

-- `counter.active_count = max(0, counter.active_count - 1)` on a tenant's counter, if it has one
unfoldable pub decrement : ℕ → List CapacityCounter → List CapacityCounter
decrement tenant counters = elim (find_row counter_key tenant counters) [
  | none ↦ counters
  | some c ↦ put_row counter_key (record c { active_count = c.active_count - 1 }) counters
]

-- The first open reservation of a run is closed.
unfoldable pub close_first : ℕ → Instant → List CapacityReservation → List CapacityReservation
close_first bot_id now [] = []
close_first bot_id now (r ∷ rs) =
    if is_open_for bot_id r
    then record r { released_at = some now } ∷ rs
    else r ∷ close_first bot_id now rs

unfoldable pub release_capacity : Instant → ℕ → Db → Db
unfolding decrement close_first
release_capacity now bot_id db = elim (find? (is_open_for bot_id) db.reservations) [
  | none ↦ db
  | some reservation ↦ record db {
    reservations = close_first bot_id now db.reservations;
    counters = decrement reservation.tenant db.counters;
  }
]

-- Whether `sweep_capacity` gives a reservation up: its run is gone, over, or still queued after the
-- grace.
unfoldable pub is_stale : Instant → Option BotRun → CapacityReservation → Bool
is_stale moment none r = true
is_stale moment (some run) r =
    is_terminal run.status
    || (status_eq run.status queued && older_than r.acquired_at reservation_stale_s moment)

-- The loop of `sweep_capacity`, over the open rows of the table.
unfoldable pub sweep_rows :
    Instant
    → Db
    → List CapacityReservation
    → List CapacityCounter
    → List CapacityReservation × List CapacityCounter × ℕ
sweep_rows moment db [] counters = ([], counters, 0)
sweep_rows moment db (r ∷ rs) counters =
    let gives_up = is_none r.released_at && is_stale moment (Repository.get r.bot_id db) r in
    let (rows, left, released) =
      sweep_rows moment db rs (if gives_up then decrement r.tenant counters else counters) in
    (
      (if gives_up then record r { released_at = some moment } else r) ∷ rows,
      left,
      (if gives_up then released + 1 else released),
    )

unfoldable pub sweep_capacity : Instant → Db → ℕ × Db
unfolding sweep_rows
sweep_capacity moment db =
    let (rows, counters, released) = sweep_rows moment db db.reservations db.counters in
    (released, record db { reservations = rows; counters = counters })
