-- ===== src/Bots/Runtime/Job/Fails.antt =====
-- `fail_run` (src/twin/bots/runtime.py): it leaves a stored run over.
use fakery.Prelude.{
  ℕ, ◌≡◌, ◌∙◌, ap, refl, true, false, Option, none, some, Text, Bool-cases, Option-cases, inl, inr,
  arith,
}
use fakery.Core.Action.{Action, ok, session_scope, ◌>>=◌}
use fakery.Bots.State.{failed}
use fakery.Bots.Models.{BotRun, Instant, Db}
use fakery.Bots.Repository
use fakery.Bots.Service.{EventSink, RecordingArtifact, is_terminal, enter, get, advance}
use fakery.Bots.Service.Runs.{IsSound}
use fakery.Bots.Service.Artifacts.{store_recording}
use fakery.Bots.Service.Lifecycle.{KeepRuns, entered, advance_stores}
use fakery.Bots.Service.Cancel.{live_may_fail}
use fakery.Bots.Runtime.{
  FailCode, blamed, blame, blame_run, store_recovered, usable, recoverable, recover_checkpoint,
  fail_run,
}
use fakery.Bots.Runtime.Endings.{get_saved, blamed-Keeps}
use fakery.Bots.Runtime.Attend.Soundness.{change_lem}
use fakery.Bots.Runtime.Attend.Parts.{stored_fields}
use fakery.Bots.Life.Writes.{artifact, store_recovered-Sound}
use fakery.Bots.Histories.{Reaches}
use fakery.Bots.Histories.Refines.{over_for_good}
use fakery.Storage.Checkpoints.{Restored}

-- The run is stored and over.
abbrev pub IsOver : ℕ → Db → Type 0
IsOver k db = (run : BotRun) × (Repository.get k db ≡ some run) × (is_terminal run.status ≡ true)

pub IsOver-again :
    (events : Option EventSink) (db db' : Db) (k : ℕ)
    → KeepRuns events
    → IsSound db
    → Reaches events db db'
    → IsOver k db
    → IsOver k db'
IsOver-again events db db' k keeps h path (run, e, over) =
    let (run', e', same, left) = over_for_good events db db' k run keeps h path e over in
    (run', e', ap is_terminal same ∙ over)

got_ok :
    {A : Type 0} (f : BotRun → Action Db A) (k : ℕ) (run : BotRun) (db : Db)
    → Repository.get k db ≡ some run
    → (get k >>= f) db ≡ f run db
unfolding get
got_ok f k run db e = ground (arith, e)

module _ (retention_days : ℕ) (now : Instant) (stored_at : Option Text) (events : Option EventSink)
    (keeps : KeepRuns events) where
  failed_over : (target : BotRun) → is_terminal (entered failed now target).status ≡ true
  unfolding is_terminal enter
  failed_over target = refl

  blame_at :
      (code : FailCode) (k : ℕ) (run : BotRun) (db : Db)
      → Repository.get k db ≡ some run
      → blame retention_days now stored_at events code k db
        ≡ blame_run retention_days now stored_at events code k run db
  unfolding blame
  blame_at code k run db e =
      got_ok (blame_run retention_days now stored_at events code k) k run db e

  blame_ended :
      (code : FailCode) (k : ℕ) (run : BotRun) (db : Db)
      → Repository.get k db ≡ some run
      → is_terminal run.status ≡ true
      → session_scope (blame retention_days now stored_at events code k) db ≡ (ok tt, db)
  unfolding blame_run
  blame_ended code k run db e over = rw (blame_at code k run db e) (rw over refl)

  blame_run_live :
      (code : FailCode) (k : ℕ) (run after : BotRun) (db db' : Db)
      → is_terminal run.status ≡ false
      → advance events now k failed (Repository.save now (blamed code run) db) ≡ (ok after, db')
      → blame_run retention_days now stored_at events code k run db ≡ (ok tt, db')
  unfolding blame_run
  blame_run_live code k run after db db' live step = ground (arith, live, step)

  blame_live :
      (code : FailCode) (k : ℕ) (run after : BotRun) (db db' : Db)
      → Repository.get k db ≡ some run
      → is_terminal run.status ≡ false
      → advance events now k failed (Repository.save now (blamed code run) db) ≡ (ok after, db')
      → session_scope (blame retention_days now stored_at events code k) db ≡ (ok tt, db')
  blame_live code k run after db db' e live step =
      rw (blame_at code k run db e) (rw (blame_run_live code k run after db db' live step) refl)

  -- Whatever a stored run was, the transaction of `fail_run` leaves it over.
  blame-IsOver :
      (code : FailCode) (k : ℕ) (run : BotRun) (db : Db)
      → Repository.get k db ≡ some run
      → let (r, db') = session_scope (blame retention_days now stored_at events code k) db in
        (r ≡ ok tt) × IsOver k db'
  unfolding blamed
  blame-IsOver code k run db e = elim (Bool-cases (is_terminal run.status)) [
    | inl over ↦ rw (blame_ended code k run db e over) (refl, (run, e, over))
    | inr live ↦
        let mid = Repository.save now (blamed code run) db in
        let marked : BotRun = record (blamed code run) { updated_at = now } in
        let (done, _, frame) =
          advance_stores events now k failed marked mid keeps
            (get_saved events now (blamed code) k run db (blamed-Keeps code) e)
            (live_may_fail run live) in
        let out = advance events now k failed mid in
        let step : out ≡ (ok (entered failed now marked), out.1) = ap (λ r. (r, out.1)) done in
        rw (blame_live code k run (entered failed now marked) db out.1 e live step)
          (refl, (entered failed now marked, frame k ∙ ground arith, failed_over marked))
  ]

  stored :
      (a : RecordingArtifact) (k : ℕ) (run : BotRun) (db : Db)
      → Repository.get k db ≡ some run
      → store_recording events now k a db ≡ (
        ok (record (stored_fields a run) { updated_at = now }),
        Repository.save now (stored_fields a run) db,
      )
  unfolding store_recording
  stored a k run db e = change_lem events now (stored_fields a) k run db e

  rescue_ok :
      (r : Restored) (uri manifest_uri : Text) (k : ℕ) (run : BotRun) (db : Db)
      → Repository.get k db ≡ some run
      → (session_scope
          (store_recovered retention_days now stored_at events r uri manifest_uri k)
          db).0
        ≡ ok tt
  unfolding store_recovered
  rescue_ok r uri manifest_uri k run db e =
      ground (
        arith,
        stored (artifact events now retention_days stored_at r uri manifest_uri k) k run db e,
      )

  module _ (restore : Text → Option Restored) (k : ℕ) (run : BotRun) (db : Db)
      (e : Repository.get k db ≡ some run) where
    not_recovered :
        recoverable run ≡ none
        → recover_checkpoint retention_days now stored_at events restore k db ≡ (ok tt, db)
    unfolding recover_checkpoint get
    not_recovered h = ground (arith, e, h)

    unusable :
        (manifest_uri : Text)
        → recoverable run ≡ some manifest_uri
        → usable retention_days now stored_at events restore manifest_uri ≡ none
        → recover_checkpoint retention_days now stored_at events restore k db ≡ (ok tt, db)
    unfolding recover_checkpoint get
    unusable manifest_uri h u = ground (arith, e, h, u)

    rescued :
        (manifest_uri : Text) (kept : Restored × Text)
        → recoverable run ≡ some manifest_uri
        → usable retention_days now stored_at events restore manifest_uri ≡ some kept
        → recover_checkpoint retention_days now stored_at events restore k db
          ≡ session_scope
              (store_recovered retention_days now stored_at events kept.0 kept.1 manifest_uri k)
              db
    unfolding recover_checkpoint get
    rescued manifest_uri kept h u = ground (arith, e, h, u)

    -- The recovery of a stored run never raises, and leaves the run stored.
    recover_over :
        (db' : Db) × (run' : BotRun) × (recover_checkpoint retention_days now stored_at events
            restore k db
          ≡ (ok tt, db'))
        × (Repository.get k db' ≡ some run')
    recover_over = elim (Option-cases (recoverable run)) [
      | inl none_left ↦ (db, run, not_recovered none_left, e)
      | inr (manifest_uri, h) ↦
          elim (Option-cases (usable retention_days now stored_at events restore manifest_uri)) [
            | inl unfit ↦ (db, run, unusable manifest_uri h unfit, e)
            | inr ((r, uri), u) ↦
                let out =
                  session_scope
                    (store_recovered retention_days now stored_at events r uri manifest_uri k) db in
                let done : out ≡ (ok tt, out.1) =
                  ap (λ x. (x, out.1)) (rescue_ok r uri manifest_uri k run db e) in
                let (run', e', _) =
                  ((store_recovered-Sound events now retention_days stored_at r uri manifest_uri
                        k).later
                      db).kept
                    k run e in
                (out.1, run', rescued manifest_uri (r, uri) h u ∙ done, e')
          ]
    ]

    fail_run_steps :
        (code : FailCode) (db' : Db)
        → recover_checkpoint retention_days now stored_at events restore k db ≡ (ok tt, db')
        → fail_run retention_days now stored_at events restore code k db
          ≡ session_scope (blame retention_days now stored_at events code k) db'
    unfolding fail_run
    fail_run_steps code db' h = ground (arith, h)

    -- `fail_run` on a stored run returns, and the run is over.
    pub fail_run-IsOver :
        (code : FailCode)
        → let (r, db') = fail_run retention_days now stored_at events restore code k db in
          (r ≡ ok tt) × IsOver k db'
    fail_run-IsOver code =
        let (db', run', h, e') = recover_over in
        rw (fail_run_steps code db' h) (blame-IsOver code k run' db' e')
