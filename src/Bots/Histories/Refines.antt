-- ===== src/Bots/Histories/Refines.antt =====
-- The calls of `Histories` against the life of a run (`Life`): src/twin/bots/state.py is what the
-- status of a stored run goes through, whoever writes it.
use fakery.Prelude.{ℕ, ◌≡◌, true, Option, some}
use fakery.Bots.Models.{BotRun, Db}
use fakery.Bots.Repository
use fakery.Bots.Service.{EventSink, is_terminal}
use fakery.Bots.Service.Lifecycle.{KeepRuns}
use fakery.Bots.Service.Runs.{IsSound}
use fakery.Bots.Life.{Goes-over, Evolves, Evolves-self, Evolves-then}
use fakery.Bots.Life.Rules.{advance-Evolves, same_runs-Evolves}
use fakery.Bots.Life.Calls.{create_or_get-Evolves, cancel-Evolves, complete-Evolves, blame-Evolves}
use fakery.Bots.Life.Sweeps.{
  relay_queued-Evolves, sweep_orphans-Evolves, run-Evolves, recover_once-Evolves,
}
use fakery.Bots.Life.Writes.{
  store_recording-Sound, set_checkpoint_manifest-Sound, set_artifact_status-Sound,
  store_recovered-Sound,
}
use fakery.Bots.Histories.{
  Step, is_created, is_advanced, is_cancelled, is_completed, is_blamed, is_relayed, is_swept,
  is_retained, is_recovered, is_stored, is_checkpointed, is_marked, is_rescued, is_aside, Reaches,
  nothing, followed, reaches-IsSound,
}

module _ (events : Option EventSink) where
  step-Evolves : (db db' : Db) → KeepRuns events → IsSound db → Step events db db' → Evolves db db'
  step-Evolves db _ keeps h (is_created now urlsplit id meeting_url name token) =
      create_or_get-Evolves events now urlsplit id name token db keeps meeting_url
  step-Evolves db _ keeps h (is_advanced now k target) =
      advance-Evolves events now k target db keeps
  step-Evolves db _ keeps h (is_cancelled now k) = cancel-Evolves events now k db keeps
  step-Evolves db _ keeps h (is_completed retention_days now stored_at e k) =
      complete-Evolves events now retention_days stored_at keeps e k db
  step-Evolves db _ keeps h (is_blamed retention_days now stored_at code k) =
      blame-Evolves events now retention_days stored_at keeps code k db
  step-Evolves db _ keeps h (is_relayed now xadd) = relay_queued-Evolves now xadd db
  step-Evolves db _ keeps h (is_swept now moment stale_after_s beats) =
      sweep_orphans-Evolves events now moment stale_after_s beats db keeps h
  step-Evolves db _ keeps h (is_retained run_of now retention_days dry_run removes objects) =
      run-Evolves run_of now retention_days dry_run removes objects db
  step-Evolves db _ keeps h (is_recovered now retention_days restore put) =
      recover_once-Evolves now retention_days restore put db
  step-Evolves db _ keeps h (is_stored now k a) = (store_recording-Sound events now k a).later db
  step-Evolves db _ keeps h (is_checkpointed now k uri) =
      (set_checkpoint_manifest-Sound events now k uri).later db
  step-Evolves db _ keeps h (is_marked now k a status error) =
      (set_artifact_status-Sound events now k a status error).later db
  step-Evolves db _ keeps h (is_rescued now retention_days stored_at restored uri manifest_uri k) =
      (store_recovered-Sound events now retention_days stored_at restored uri manifest_uri k).later
        db
  step-Evolves db db' keeps h (is_aside e) = same_runs-Evolves db db' e

  -- From a sound database, whatever calls the processes make and in whatever order, if the event sink
  -- leaves the runs alone: every run that is stored stays stored, with its identifier, meeting, keys
  -- and creation time. Its status has gone along the transitions of the state machine, the time it
  -- joined is not written again, and once it is over neither is the time it left.
  pub reaches-Evolves :
      (db db' : Db) → KeepRuns events → IsSound db → Reaches events db db' → Evolves db db'
  reaches-Evolves db _ keeps h nothing = Evolves-self db
  reaches-Evolves db db' keeps h (followed {mid = mid} path step) =
      Evolves-then db mid db' (reaches-Evolves db mid keeps h path)
        (step-Evolves mid db' keeps (reaches-IsSound events db mid keeps path h) step)

  -- A run that is over keeps its status and the time it left in every later state of the database,
  -- under the same conditions.
  pub over_for_good :
      (db db' : Db) (k : ℕ) (run : BotRun)
      → KeepRuns events
      → IsSound db
      → Reaches events db db'
      → Repository.get k db ≡ some run
      → is_terminal run.status ≡ true
      → (run' : BotRun) × (Repository.get k db' ≡ some run')
        × (run'.status ≡ run.status)
        × (run'.left_at ≡ run.left_at)
  over_for_good db db' k run keeps h path e over =
      let (run', e', f) = (reaches-Evolves db db' keeps h path).kept k run e in
      (run', e', Goes-over run.status run'.status over f.goes, f.once_over over)
