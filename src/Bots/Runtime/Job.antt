-- ===== src/Bots/Runtime/Job.antt =====
-- `JobRuntime` of src/twin/bots/runtime.py: a run in a job of its own. `seen i` is the database at the
-- look `i` of the process that waits; the job's process and the others write it meanwhile. What the
-- cluster answers is a parameter. A logged failure to close the client or to delete the job is left out.
pub mod Fails
pub mod Over
use fakery.Prelude.{ℕ, ◌+◌, Bool, true, false, Option, none, some, Text, if◌then◌else◌}
use fakery.Core.Errors.{Error}
use fakery.Core.Action.{Action, Result, ok, err, pure, raise, session_scope, ◌>>=◌}
use fakery.Core.Waiting.{Look, found, again, End, returned, expired, until_after, looks}
use fakery.Bots.Models.{Instant, Db, seconds}
use fakery.Bots.Service.{EventSink, is_terminal, get}
use fakery.Bots.Jobs.{JobResult, completed, failed, timeout, missing, resolve_job_outcome}
use fakery.Bots.Runtime.{FailCode, other, fail_run}
use fakery.Storage.Checkpoints.{Restored}

abbrev pub job_missing_grace_s : ℕ
job_missing_grace_s = 120

-- The pause of the loop of `_wait_for_db_terminal`.
abbrev pub db_poll_s : ℕ
db_poll_s = 5

-- `_db_terminal`
unfoldable pub db_terminal : ℕ → Action Db Bool
db_terminal bot_id = session_scope (do run ← get bot_id; pure (is_terminal run.status))

module _ (bot_id : ℕ) (time : ℕ → Instant) (seen : ℕ → Db) where
  unfoldable pub look_at_run : ℕ → Unit {0} → Look (Result Bool) (Unit {0})
  look_at_run i u = elim (db_terminal bot_id (seen i)).0 [
    | ok terminal ↦ if terminal then found (ok true) else again tt
    | err e ↦ found (err e)
  ]

  abbrev pub end_of_grace : Option (End (Result Bool) (Unit {0})) → Option (Result Bool)
  end_of_grace none = none
  end_of_grace (some (returned i r)) = some r
  end_of_grace (some (expired i u)) = some (ok false)

  -- `_wait_for_db_terminal`, of a session that has an engine
  unfoldable pub wait_for_db_terminal : Option (Result Bool)
  wait_for_db_terminal = end_of_grace (
      until_after time (time 0 + seconds job_missing_grace_s) look_at_run
        (looks (seconds job_missing_grace_s) (seconds db_poll_s)) 0 tt)

-- What the cluster gives to the calls of `spawn`: whether there is a job already, whether one could be
-- made, and what `wait_terminal` returns.
pub record JobCalls : Type 0 where
  pub existing : Result Bool
  pub created : Result (Unit {0})
  pub waited : Result JobResult

-- The `try` of `spawn`: a job is adopted, or made, and awaited.
unfoldable pub job_result : JobCalls → Result JobResult
job_result calls = elim calls.existing [
  | err e ↦ err e
  | ok adopted ↦
      if adopted then calls.waited else elim calls.created [ err e ↦ err e | ok u ↦ calls.waited ]
]

module _ (retention_days : ℕ) (now : Instant) (stored_at : Option Text) (events : Option EventSink)
    (restore : Text → Option Restored) (bot_id : ℕ) where
  -- A run whose job is over is failed if it is not over itself.
  unfoldable pub resolve : JobResult → Result Bool → Action Db (Unit {0})
  resolve result (err e) = raise e
  resolve result (ok terminal) = elim (resolve_job_outcome result terminal) [
    | none ↦ pure tt
    | some code ↦ fail_run retention_days now stored_at events restore (other code) bot_id
  ]

  unfoldable pub time_out : Result Bool → Action Db (Unit {0})
  time_out (err e) = raise e
  time_out (ok terminal) =
      if terminal
      then pure tt
      else fail_run retention_days now stored_at events restore (other "job-timeout") bot_id

  abbrev pub awaited :
      (Result Bool → Action Db (Unit {0})) → Option (Result Bool) → Option (Action Db (Unit {0}))
  awaited then_do none = none
  awaited then_do (some terminal) = some (then_do terminal)

  -- What `spawn` does about the end of a job; nothing where the looks are not enough.
  unfoldable pub conclude : (ℕ → Instant) → (ℕ → Db) → JobResult → Option (Action Db (Unit {0}))
  conclude time seen timeout = awaited time_out (wait_for_db_terminal bot_id time seen)
  conclude time seen missing = awaited (resolve missing) (wait_for_db_terminal bot_id time seen)
  conclude time seen completed = some (resolve completed (db_terminal bot_id (seen 0)).0)
  conclude time seen failed = some (resolve failed (db_terminal bot_id (seen 0)).0)

  -- `spawn`, of what it does to the database when it has waited.
  unfoldable pub spawn : (ℕ → Instant) → (ℕ → Db) → JobCalls → Option (Action Db (Unit {0}))
  spawn time seen calls = elim (job_result calls) [
    | err e ↦ some (raise e)
    | ok result ↦ conclude time seen result
  ]
