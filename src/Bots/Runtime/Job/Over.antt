-- ===== src/Bots/Runtime/Job/Over.antt =====
-- `JobRuntime.spawn` (src/twin/bots/runtime.py): it returns when the run is over.
use fakery.Prelude.{
  ℕ, ◌+◌, ◌≡◌, ◌∙◌, ap, refl, Bool, true, false, Option, some, Text, Bool-cases, inl, inr, arith,
}
use fakery.Core.Action.{Action, Result, ok}
use fakery.Core.Waiting.{
  found, End, returned, expired, Ticks, until_after, looks, until_after_enough, until_after-found,
}
use fakery.Bots.Models.{BotRun, Instant, Db, seconds}
use fakery.Bots.Repository
use fakery.Bots.Service.{EventSink, is_terminal, get}
use fakery.Bots.Service.Runs.{IsSound}
use fakery.Bots.Service.Lifecycle.{KeepRuns}
use fakery.Bots.Jobs
use fakery.Bots.Jobs.{JobResult, timeout, missing, resolve_job_outcome}
use fakery.Bots.Runtime.{FailCode, fail_run}
use fakery.Bots.Histories.{Reaches, reaches-IsSound}
use fakery.Bots.Histories.Refines.{reaches-Evolves}
use fakery.Bots.Runtime.Job.{
  db_terminal, look_at_run, end_of_grace, wait_for_db_terminal, JobCalls, job_result, resolve,
  time_out, awaited, conclude, spawn, db_poll_s, job_missing_grace_s,
}
use fakery.Storage.Checkpoints.{Restored}
use fakery.Bots.Runtime.Job.Fails.{IsOver, IsOver-again, fail_run-IsOver}

-- A look at a stored run sees whether it is over.
db_terminal_lem :
    (k : ℕ) (run : BotRun) (db : Db)
    → Repository.get k db ≡ some run
    → (db_terminal k db).0 ≡ ok (is_terminal run.status)
unfolding db_terminal get
db_terminal_lem k run db e = ground (arith, e)

module _ (k : ℕ) (time : ℕ → Instant) (seen : ℕ → Db)
    (stored : (i : ℕ) → (run : BotRun) × (Repository.get k (seen i) ≡ some run)) where
  look_cases :
      (i : ℕ) (r : Result Bool)
      → look_at_run k time seen i tt ≡ found r
      → (r ≡ ok true) × IsOver k (seen i)
  unfolding look_at_run
  look_cases i r h =
      let (run, e) = stored i in
      elim (Bool-cases (is_terminal run.status)) [
        | inl over ↦ (ground (arith, db_terminal_lem k run (seen i) e, over, h), (run, e, over))
        | inr live ↦ absurd (ground (arith, db_terminal_lem k run (seen i) e, live, h))
      ]

  -- The wait for a stored run ends, and says that it is over only if it was at a look.
  wait_for_db_terminal_lem :
      Ticks (seconds db_poll_s) time
      → (b : Bool) × (wait_for_db_terminal k time seen ≡ some (ok b))
        × (b ≡ true → (i : ℕ) × IsOver k (seen i))
  unfolding wait_for_db_terminal
  wait_for_db_terminal_lem ticks =
      let (end, e) =
        until_after_enough (seconds job_missing_grace_s) (seconds db_poll_s) time
          (look_at_run k time seen) tt (omega arith) ticks in
      what_ended end e
    where
      loop : Option (End (Result Bool) (Unit {0}))
      loop =
          until_after time (time 0 + seconds job_missing_grace_s) (look_at_run k time seen)
            (looks (seconds job_missing_grace_s) (seconds db_poll_s)) 0 tt

      what_ended :
          (end : End (Result Bool) (Unit {0}))
          → loop ≡ some end
          → (b : Bool) × (end_of_grace k time seen loop ≡ some (ok b))
            × (b ≡ true → (i : ℕ) × IsOver k (seen i))
      what_ended (expired n u) e = (false, ap (end_of_grace k time seen) e, λ h. absurd (cc h))
      what_ended (returned n r) e =
          let (t, at_end) =
            until_after-found time (time 0 + seconds job_missing_grace_s) (look_at_run k time seen)
              _ 0 n tt r e in
          let (saw, over) = look_cases n r at_end in
          (true, ap (end_of_grace k time seen) e ∙ ap some saw, λ h. (n, over))

module _ (retention_days : ℕ) (now : Instant) (stored_at : Option Text) (events : Option EventSink)
    (restore : Text → Option Restored) (keeps : KeepRuns events) (k : ℕ) (run : BotRun) (db : Db)
    (here : Repository.get k db ≡ some run) where
  -- A call returns and leaves the run over.
  abbrev pub Ends : Action Db (Unit {0}) → Type 0
  Ends act = ((act db).0 ≡ ok tt) × IsOver k (act db).1

  fails : (code : FailCode) → Ends (fail_run retention_days now stored_at events restore code k)
  fails code = fail_run-IsOver retention_days now stored_at events keeps restore k run db here code

  resolve-Ends :
      (result : JobResult) (b : Bool)
      → (b ≡ true → IsOver k db)
      → Ends (resolve retention_days now stored_at events restore k result (ok b))
  unfolding resolve resolve_job_outcome
  resolve-Ends Jobs.completed true h = (refl, h refl)
  resolve-Ends Jobs.failed true h = (refl, h refl)
  resolve-Ends missing true h = (refl, h refl)
  resolve-Ends timeout true h = (refl, h refl)
  resolve-Ends Jobs.completed false h = fails _
  resolve-Ends Jobs.failed false h = fails _
  resolve-Ends missing false h = fails _
  resolve-Ends timeout false h = fails _

  time_out-Ends :
      (b : Bool)
      → (b ≡ true → IsOver k db)
      → Ends (time_out retention_days now stored_at events restore k (ok b))
  unfolding time_out
  time_out-Ends true h = (refl, h refl)
  time_out-Ends false h = fails _

module _ (retention_days : ℕ) (now : Instant) (stored_at : Option Text) (events : Option EventSink)
    (restore : Text → Option Restored) (k : ℕ) (time : ℕ → Instant) (seen : ℕ → Db) (db : Db)
    (keeps : KeepRuns events) (ticks : Ticks (seconds db_poll_s) time)
    (stored : (i : ℕ) → (run : BotRun) × (Repository.get k (seen i) ≡ some run))
    (last : (run : BotRun) × (Repository.get k db ≡ some run))
    (still : (i : ℕ) → IsOver k (seen i) → IsOver k db) where
  abbrev Concluded : JobResult → Type 0
  Concluded result =
      (act : Action Db (Unit {0})) × (conclude retention_days now stored_at events restore k time
          seen result
        ≡ some act)
      × ((act db).0 ≡ ok tt)
      × IsOver k (act db).1

  -- What a look or a wait said, and what it means for the last database.
  now-IsOver : (b : Bool) → (b ≡ true → (i : ℕ) × IsOver k (seen i)) → b ≡ true → IsOver k db
  now-IsOver b o h = let (i, over) = o h in still i over

  first_look :
      (b : Bool) × ((db_terminal k (seen 0)).0 ≡ ok b) × (b ≡ true → (i : ℕ) × IsOver k (seen i))
  first_look =
      let (run, e) = stored 0 in
      (is_terminal run.status, db_terminal_lem k run (seen 0) e, λ h. (0, (run, e, h)))

  conclude_over : (result : JobResult) → Concluded result
  unfolding conclude
  conclude_over timeout =
      let (b, w, o) = wait_for_db_terminal_lem k time seen stored ticks in
      let act = time_out retention_days now stored_at events restore k in
      let (r, over) =
        time_out-Ends retention_days now stored_at events restore keeps k last.0 db last.1 b
          (now-IsOver b o) in
      (act (ok b), ap (awaited retention_days now stored_at events restore k act) w, r, over)
  conclude_over missing =
      let (b, w, o) = wait_for_db_terminal_lem k time seen stored ticks in
      let act = resolve retention_days now stored_at events restore k missing in
      let (r, over) =
        resolve-Ends retention_days now stored_at events restore keeps k last.0 db last.1 missing b
          (now-IsOver b o) in
      (act (ok b), ap (awaited retention_days now stored_at events restore k act) w, r, over)
  conclude_over Jobs.completed =
      let (b, w, o) = first_look in
      let act = resolve retention_days now stored_at events restore k Jobs.completed in
      let (r, over) =
        resolve-Ends retention_days now stored_at events restore keeps k last.0 db last.1
          Jobs.completed b (now-IsOver b o) in
      (act (ok b), ap (λ x. some (act x)) w, r, over)
  conclude_over Jobs.failed =
      let (b, w, o) = first_look in
      let act = resolve retention_days now stored_at events restore k Jobs.failed in
      let (r, over) =
        resolve-Ends retention_days now stored_at events restore keeps k last.0 db last.1
          Jobs.failed b (now-IsOver b o) in
      (act (ok b), ap (λ x. some (act x)) w, r, over)

module _ (retention_days : ℕ) (now : Instant) (stored_at : Option Text) (events : Option EventSink)
    (restore : Text → Option Restored) (k : ℕ) (time : ℕ → Instant) (seen : ℕ → Db) (db : Db) where
  spawn_concludes :
      (calls : JobCalls) (result : JobResult)
      → job_result calls ≡ ok result
      → spawn retention_days now stored_at events restore k time seen calls
        ≡ conclude retention_days now stored_at events restore k time seen result
  unfolding spawn
  spawn_concludes calls result done = ground (arith, done)

  -- The wait of `spawn` ends, and what it does then returns and leaves the run over. The cluster's calls
  -- do not raise, the clock goes on by the pause between two looks, and the run was stored in a sound
  -- database when the wait began; meanwhile any of the calls of the other processes change the database,
  -- to what each look sees and at last to what `spawn` finds, and the event sink leaves the runs alone.
  pub spawn-IsOver :
      (calls : JobCalls) (result : JobResult) (run : BotRun)
      → job_result calls ≡ ok result
      → KeepRuns events
      → Ticks (seconds db_poll_s) time
      → IsSound (seen 0)
      → Repository.get k (seen 0) ≡ some run
      → ((i : ℕ) → Reaches events (seen 0) (seen i))
      → ((i : ℕ) → Reaches events (seen i) db)
      → (act : Action Db (Unit {0})) × (spawn retention_days now stored_at events restore k time
            seen calls
          ≡ some act)
        × ((act db).0 ≡ ok tt)
        × IsOver k (act db).1
  spawn-IsOver calls result run done keeps ticks sound e before after =
      rw (spawn_concludes calls result done) (
        conclude_over retention_days now stored_at events restore k time seen db keeps ticks
          (λ i. later (seen i) (before i)) (later db (after 0))
          (λ i over.
            IsOver-again events (seen i) db k keeps
              (reaches-IsSound events (seen 0) (seen i) keeps (before i) sound) (after i) over)
          result)
    where
      later :
          (db' : Db)
          → Reaches events (seen 0) db'
          → (run' : BotRun) × (Repository.get k db' ≡ some run')
      later db' path =
          let (run', e', f) = (reaches-Evolves events (seen 0) db' keeps sound path).kept k run e in
          (run', e')
