-- ===== src/Bots/Runner/Execute.antt =====
-- `execute_run` and `reserve_capacity` of src/twin/bots/runner.py. `now` is the clock of the calls
-- that write; `spawn` is the runtime's, which may raise. A lease in Redis is a state `Leases` of
-- its own: `take` says whether `SET NX` set it, `give` is `release_lease`, whose exception is only
-- logged.
pub mod GivesBack
use fakery.Prelude.{ℕ, ◌+◌, Bool, true, false, ◌&&◌, not, Option, none, some, Text, if◌then◌else◌}
use fakery.Core.Action.{Action, Result, ok, err, pure, modify, ◌>>=◌, ◌>>◌, session_scope}
use fakery.Core.Waiting.{Look, found, again, End, returned, expired, until_after, looks}
use fakery.Bots.State.{queued, status_eq}
use fakery.Bots.Models.{BotRun, Instant, Db, seconds}
use fakery.Bots.Service.{EventSink, get}
use fakery.Bots.Runner.{Settings, try_reserve_capacity, has_other_reservation, release_capacity}
use fakery.Bots.Runtime.{FailCode, cancelled, other, fail_run}
use fakery.Storage.Checkpoints.{Restored}

abbrev pub admit_poll_s : ℕ
admit_poll_s = 30

abbrev pub admit_wait_s : ℕ
admit_wait_s = 600

-- The waits of a run for capacity: what the clock says at each try, what `uuid4` draws, and what
-- others do to the database between two tries.
module _ (settings : Settings) (new_id : ℕ → ℕ) (time : ℕ → Instant) (meanwhile : ℕ → Db → Db)
    (bot_id owner : ℕ) where
  unfoldable pub look_for_capacity : ℕ → Db → Look Db Db
  look_for_capacity i db =
      let (reserved, db') = try_reserve_capacity settings (new_id i) (time i) bot_id owner db in
      if reserved then found db' else again (meanwhile i db')

  abbrev pub reserved_or_not : End Db Db → Bool × Db
  reserved_or_not (returned i db) = (true, db)
  reserved_or_not (expired i db) = (false, db)

  abbrev pub with_end : Option (End Db Db) → Option (Bool × Db)
  with_end none = none
  with_end (some end) = some (reserved_or_not end)

  -- `reserve_capacity`: whether the run has capacity at the end, and the database then.
  unfoldable pub reserve_capacity : Db → Option (Bool × Db)
  reserve_capacity db = with_end (
      until_after time (time 0 + seconds admit_wait_s) look_for_capacity
        (looks (seconds admit_wait_s) (seconds admit_poll_s)) 0 db)

-- `try: body finally: cleanup`, where the clean-up does not raise.
abbrev pub finally_do : {S A : Type 0} → Action S A → (S → S) → Action S A
finally_do body cleanup s = let (r, s') = body s in (r, cleanup s')

-- A call on the database, of the two states.
abbrev pub on_db : {Leases A : Type 0} → Action Db A → Action (Db × Leases) A
on_db m (db, leases) = let (r, db') = m db in (r, (db', leases))

module _ {Leases : Type 0} (take : Leases → Bool × Leases) (give : Leases → Leases) (now : Instant)
    (fail : FailCode → ℕ → Action Db (Unit {0})) (spawn : ℕ → Action Db (Unit {0}))
    (shares_profile : Bool) (bot_id owner : ℕ) where
  -- The run's own part, with the profile's lease if the profile is shared.
  unfoldable pub run_with_lease : Action (Db × Leases) (Unit {0})
  run_with_lease (db, leases) =
      if shares_profile
      then (let (acquired, leases') = take leases in
          if acquired
          then finally_do (on_db (spawn bot_id)) (λ w. (w.0, give w.1)) (db, leases')
          else on_db (fail (other "profile-busy") bot_id) (db, leases'))
      else on_db (spawn bot_id) (db, leases)

  -- What follows `reserve_capacity`.
  unfoldable pub after_reserving : Bool → Action (Db × Leases) (Unit {0})
  after_reserving true (db, leases) =
      finally_do run_with_lease (λ w. (release_capacity now bot_id w.0, w.1)) (db, leases)
  after_reserving false (db, leases) =
      if has_other_reservation bot_id owner db
      then (ok tt, (db, leases))
      else on_db (fail (other "at-capacity") bot_id) (db, leases)

  -- `execute_run`; `reserve` is `reserve_capacity`, and `is_cancelled` what Redis says, false
  -- without it.
  unfoldable pub execute_run :
      (Db → Option (Bool × Db)) → Bool → Db × Leases → Option (Result (Unit {0}) × (Db × Leases))
  execute_run reserve is_cancelled (db, leases) =
      if is_cancelled
      then some (on_db (fail cancelled bot_id) (db, leases))
      else elim (get bot_id db).0 [
        | err e ↦ some (err e, (db, leases))
        | ok run ↦
            if status_eq run.status queued
            then elim (reserve db) [
              | none ↦ none
              | some r ↦ some (after_reserving r.0 (r.1, leases))
            ]
            else some (ok tt, (db, leases))
      ]
