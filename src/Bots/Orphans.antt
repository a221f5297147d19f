-- ===== src/Bots/Orphans.antt =====
-- `sweep_orphans` of src/twin/bots/runner.py: live runs that nothing has touched for a while, and
-- whose worker no longer beats, are failed. `beats` is what `redis.get(heartbeat_key(…))` says of
-- each run, or the exception that it raises; `now` is what the clock of the service says.
pub mod Sweep
use fakery.Prelude.{
  ℕ, ◌+◌, Bool, true, false, ◌&&◌, ◌||◌, not, Option, none, some, List, [], ◌∷◌, map, if◌then◌else◌,
  filter,
}
use fakery.Core.Action.{Action, Result, pure, modify, ◌>>=◌, ◌>>◌, session_scope, ok, err}
use fakery.Bots.State.{failed}
use fakery.Bots.Models.{BotRun, Instant, Db}
use fakery.Bots.Repository
use fakery.Bots.Service.{EventSink, advance}
use fakery.Bots.Runner.{is_live, is_orphan, older_than}

-- The runs that the query selects.
abbrev pub is_quiet : Instant → ℕ → BotRun → Bool
is_quiet moment stale_after_s run =
    is_live run.status && older_than run.updated_at stale_after_s moment

abbrev pub id_of : BotRun → ℕ
id_of run = run.id

abbrev pub orphaned : BotRun → BotRun
orphaned run = record run { error_code = some "orphaned"; stop_reason = some "failure" }

module _ (events : Option EventSink) (now moment : Instant) (stale_after_s : ℕ)
    (beats : ℕ → Result Bool) where
  -- The rest of a turn of the loop, where the key was read.
  unfoldable pub reap_silent : Bool → BotRun → Action Db ℕ
  reap_silent heartbeat run =
      if is_orphan run.status run.updated_at heartbeat moment stale_after_s
      then (do
        modify (Repository.save now (orphaned run))
        advance events now run.id failed
        pure 1)
      else pure 0

  -- One turn of the loop, on a row that the session holds.
  abbrev pub after_beat : Result Bool → BotRun → Action Db ℕ
  after_beat (err e) run db = (err e, db)
  after_beat (ok heartbeat) run db = reap_silent heartbeat run db

  unfoldable pub reap : BotRun → Action Db ℕ
  reap run = after_beat (beats run.id) run

  unfoldable pub reap_all : List ℕ → Action Db ℕ
  reap_all [] db = (ok 0, db)
  reap_all (k ∷ ks) db = elim (Repository.get k db) [
    | none ↦ reap_all ks db
    | some run ↦ (do reaped ← reap run; rest ← reap_all ks; pure (reaped + rest)) db
  ]

  unfoldable pub sweep_orphans : Action Db ℕ
  sweep_orphans =
      session_scope λ db. reap_all (map id_of (filter (is_quiet moment stale_after_s) db.bots)) db
