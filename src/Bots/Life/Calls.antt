-- ===== src/Bots/Life/Calls.antt =====
-- The calls on the table of runs: those of `BotService` (src/twin/bots/service.py), the endings of
-- src/twin/bots/runtime.py, the relay of src/twin/bots/queue.py, the sweep of src/twin/bots/runner.py,
-- src/twin/retention.py and src/twin/finalizer.py. Each leaves later versions of the runs.
use fakery.Prelude.{ℕ, ◌≡◌, refl, Option, some, Text, Bool-cases, Option-cases, inl, inr, arith}
use fakery.Core.Action.{ok, ◌>>=◌}
use fakery.Core.Moves.{bind_at, scope_at}
use fakery.Bots.State.{BotStatus, failed, completed}
use fakery.Bots.Models.{BotRun, Instant, Db}
use fakery.Bots.MeetingUrl.{Url, normalize_meeting_url}
use fakery.Bots.Repository
use fakery.Bots.Service.{EventSink, is_terminal, get, advance, cancel}
use fakery.Bots.Service.Create.{given, create_new, create_or_get}
use fakery.Bots.Service.Create.Once
use fakery.Bots.Service.Create.Once.{
  Result-cases, create_new_active, create_new_clash, create_new_ok,
}
use fakery.Bots.Service.Create.Keys.{
  invalid_url, without_key, with_known_key, with_new_key, reuse_db,
}
use fakery.Bots.Service.Lifecycle.{KeepRuns, tell_status-bots}
use fakery.Bots.Service.Cancel.{marked, cancel_lem, cancel_missing}
use fakery.Bots.Runtime.{
  Ending, FailCode, blamed, with_recording, finished, timed, time_run, end_run, complete, blame_run,
  blame,
}
use fakery.Bots.Runtime.Endings.{advance_returns, get_saved, finished-Keeps}
use fakery.Bots.Life.{Evolves, Evolves-self, Evolves-then, evolution}
use fakery.Bots.Life.Rules.{
  Touches, Touches-Follows, same_runs-Evolves, save-Evolves, add-Evolves, advance-Evolves,
  got-Evolves,
}

module _ (events : Option EventSink) (now : Instant) where
  module _ (urlsplit : Text → Option Url) (id : ℕ) (name token : Option Text) (db : Db)
      (keeps : KeepRuns events) where
    create_new-Evolves :
        (url key : Text) → Evolves db (create_new events now urlsplit id url key name token db).1
    create_new-Evolves url key = elim (Option-cases (Repository.find_active_meeting key db)) [
      | inr (active, e) ↦
          rw (create_new_active events now urlsplit id url key name token db active e)
            (Evolves-self db)
      | inl free ↦
          elim (Result-cases
            (Repository.add (Once.run events now urlsplit id url key name token db) db).0) [
              | inr (e, clash) ↦
                  rw (create_new_clash events now urlsplit id url key name token db e free clash)
                    (Evolves-self db)
              | inl (u, added) ↦
                  rw (create_new_ok events now urlsplit id url key name token db free added) (
                    Evolves-then _ _ _
                      (add-Evolves (Once.run events now urlsplit id url key name token db) db)
                      (same_runs-Evolves _ _ (tell_status-bots events now id _ _ keeps)))
            ]
    ]

    pub create_or_get-Evolves :
        (meeting_url : Text)
        → Evolves db (create_or_get events now urlsplit id meeting_url name token db).1
    create_or_get-Evolves meeting_url =
        elim (Result-cases (normalize_meeting_url urlsplit meeting_url)) [
          | inr (e, bad) ↦
              rw (invalid_url events now urlsplit id meeting_url name token db e bad)
                (Evolves-self db)
          | inl ((url, key), valid) ↦ elim (Option-cases (given token)) [
            | inl absent ↦
                rw
                  (without_key events now urlsplit id meeting_url name token db url key valid
                    absent)
                  (create_new-Evolves url key)
            | inr (t, present) ↦ elim (Option-cases (Repository.get_by_idempotency t db)) [
              | inr (old, known) ↦
                  rw
                    (
                      with_known_key events now urlsplit id meeting_url name token db url key valid
                          t old present known,
                      reuse_db urlsplit old key db,
                    )
                    (Evolves-self db)
              | inl fresh ↦
                  rw
                    (with_new_key events now urlsplit id meeting_url name token db url key valid t
                      present fresh)
                    (create_new-Evolves url key)
            ]
          ]
        ]

  marked-Touches : (run : BotRun) → Touches run (marked run)
  marked-Touches run = refl

  -- A change of other fields of a stored run, and then a call of `advance`.
  save-advance-Evolves :
      (f : BotRun → BotRun) (k : ℕ) (target : BotStatus) (run : BotRun) (db : Db)
      → KeepRuns events
      → Repository.get k db ≡ some run
      → Touches run (f run)
      → Evolves db (advance events now k target (Repository.save now (f run) db)).1
  save-advance-Evolves f k target run db keeps e t =
      Evolves-then _ _ _ (save-Evolves now k run (f run) db e (Touches-Follows run (f run) t))
        (advance-Evolves events now k target _ keeps)

  pub cancel-Evolves : (k : ℕ) (db : Db) → KeepRuns events → Evolves db (cancel events now k db).1
  cancel-Evolves k db keeps = elim (Option-cases (Repository.get k db)) [
    | inl missing ↦ rw (cancel_missing events now k db missing) (Evolves-self db)
    | inr (run, e) ↦
        rw (cancel_lem events now k run db e) (elim (Bool-cases (is_terminal run.status)) [
          | inl over ↦ rw over (Evolves-self db)
          | inr live ↦
              rw live (save-advance-Evolves marked k failed run db keeps e (marked-Touches run))
        ])
  ]

  blamed-Touches : (code : FailCode) (run : BotRun) → Touches run (blamed code run)
  unfolding blamed
  blamed-Touches code run = refl

  module _ (retention_days : ℕ) (stored_at : Option Text) (keeps : KeepRuns events) where
    finished-Touches :
        (e : Ending) (run : BotRun) → Touches run (finished retention_days now stored_at e run)
    unfolding finished with_recording
    finished-Touches e run = ground arith

    timed-Touches : (run : BotRun) → Touches run (timed retention_days now stored_at run)
    unfolding timed
    timed-Touches run = ground arith

    end_run-Evolves :
        (e : Ending) (k : ℕ) (run : BotRun) (db : Db)
        → Repository.get k db ≡ some run
        → Evolves db (end_run retention_days now stored_at events e k run db).1
    unfolding end_run time_run
    end_run-Evolves e k run db stored =
        let f = finished retention_days now stored_at e in
        let mid = Repository.save now (f run) db in
        Evolves-then db mid _
          (save-Evolves now k run (f run) db stored
            (Touches-Follows run (f run) (finished-Touches e run)))
          (bind_at evolution (advance events now k completed)
            (time_run retention_days now stored_at events) mid
            (advance-Evolves events now k completed mid keeps)
            (λ after e'.
              save-Evolves now k after (timed retention_days now stored_at after) _
                (advance_returns events now k completed _ after mid keeps
                  (get_saved events now f k run db (finished-Keeps retention_days now stored_at e)
                    stored)
                  e')
                (Touches-Follows after (timed retention_days now stored_at after)
                  (timed-Touches after))))

    pub complete-Evolves :
        (e : Ending) (k : ℕ) (db : Db)
        → Evolves db (complete retention_days now stored_at events e k db).1
    unfolding complete
    complete-Evolves e k db =
        scope_at evolution (get k >>= end_run retention_days now stored_at events e k) db (
          got-Evolves (end_run retention_days now stored_at events e k) k db
            (λ run stored. end_run-Evolves e k run db stored))

    pub blame-Evolves :
        (code : FailCode) (k : ℕ) (db : Db)
        → Evolves db (blame retention_days now stored_at events code k db).1
    unfolding blame blame_run
    blame-Evolves code k db =
        got-Evolves (blame_run retention_days now stored_at events code k) k db λ run stored.
          elim (Bool-cases (is_terminal run.status)) [
            | inl over ↦ rw over (Evolves-self db)
            | inr live ↦ rw live (
                bind_at evolution {A = BotRun} {B = Unit {0}}
                  (λ db. advance events now k failed (Repository.save now (blamed code run) db))
                  (λ r d. (ok tt, d)) db
                  (save-advance-Evolves (blamed code) k failed run db keeps stored
                    (blamed-Touches code run))
                  (λ after e'. Evolves-self _))
          ]
