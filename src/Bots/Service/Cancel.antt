-- ===== src/Bots/Service/Cancel.antt =====
-- `BotService.cancel` (src/twin/bots/service.py).
use fakery.Prelude.{
  ℕ, true, false, Option, none, some, ◌≡◌, ◌==◌, ◌∙◌, ap, if◌then◌else◌, arith, Bool-cases,
  Option-cases, inl, inr, refl,
}
use fakery.Core.Errors.{not_found, make_error, twin}
use fakery.Core.Action.{ok, err}
use fakery.Bots.State.{failed, can_transition}
use fakery.Bots.Models.{BotRun, Instant, Db}
use fakery.Bots.Repository
use fakery.Bots.Service.{EventSink, is_terminal, enter, advance, cancel}
use fakery.Bots.Service.Runs.{
  IsWellFormed, IsSound, Updates, save-IsSound, get-save, stored-IsWellFormed, get_id,
}
use fakery.Bots.Service.Lifecycle.{KeepRuns, entered, advance-IsSound, advance_stores}

-- The run as `cancel` marks it before it fails it.
abbrev pub marked : BotRun → BotRun
marked run = record run { error_code = some "cancelled"; stop_reason = some "cancelled" }

pub live_may_fail :
    (run : BotRun) → is_terminal run.status ≡ false → can_transition run.status failed ≡ true
unfolding is_terminal can_transition
live_may_fail run h = ground arith

marked-IsWellFormed : (run : BotRun) → IsWellFormed run → IsWellFormed (marked run)
marked-IsWellFormed run w = record { left = w.left; reason = λ _. refl; admitted = w.admitted }

marked-Updates : (run : BotRun) → Updates run (marked run)
marked-Updates run = record {
  same_id = refl;
  same_key = refl;
  same_token = refl;
  no_revival = λ h. h;
}

module _ (events : Option EventSink) (now : Instant) where
  pub cancel_lem :
      (k : ℕ) (run : BotRun) (db : Db)
      → Repository.get k db ≡ some run
      → cancel events now k db ≡ (
          if is_terminal run.status
          then (ok run, db)
          else advance events now k failed (Repository.save now (marked run) db))
  unfolding cancel
  cancel_lem k run db e = ground (arith, e)

  pub cancel_missing :
      (k : ℕ) (db : Db)
      → Repository.get k db ≡ none
      → cancel events now k db ≡ (err (twin (make_error not_found)), db)
  unfolding cancel
  cancel_missing k db e = ground (arith, e)

  get-marked :
      (k : ℕ) (run : BotRun) (db : Db)
      → Repository.get k db ≡ some run
      → (j : ℕ)
      → Repository.get j (Repository.save now (marked run) db)
        ≡ (if k == j then some (record (marked run) { updated_at = now }) else Repository.get j db)
  get-marked k run db e j = get-save now j (marked run) db ∙ ground (arith, get_id k run db e, e)

  -- `cancel` keeps a sound table of runs sound, under a sink that leaves the runs alone.
  pub cancel-IsSound :
      (k : ℕ) (db : Db) → KeepRuns events → IsSound db → IsSound (cancel events now k db).1
  cancel-IsSound k db keeps h = elim (Option-cases (Repository.get k db)) [
    | inl missing ↦ rw (cancel_missing k db missing) h
    | inr (run, e) ↦ rw (cancel_lem k run db e) (elim (Bool-cases (is_terminal run.status)) [
      | inl over ↦ rw over h
      | inr live ↦ rw live (
          advance-IsSound events now k failed _ keeps (
            save-IsSound now run (marked run) db (marked-Updates run)
              (ap (λ i. Repository.get i db) (get_id k run db e) ∙ e)
              (marked-IsWellFormed run (stored-IsWellFormed k run db e h)) h))
    ])
  ]

  failed_fields :
      (run : BotRun)
      → let final = entered failed now (record (marked run) { updated_at = now }) in
        (final.status ≡ failed)
        × (final.stop_reason ≡ some "cancelled")
        × (final.error_code ≡ some "cancelled")
        × (final.left_at ≡ some now)
  unfolding enter is_terminal
  failed_fields run = (refl, refl, refl, refl)

  -- A stored run that is not over is failed for being cancelled, and no other run changes, under a sink
  -- that leaves the runs alone.
  pub cancel_fails :
      (k : ℕ) (run : BotRun) (db : Db)
      → KeepRuns events
      → Repository.get k db ≡ some run
      → is_terminal run.status ≡ false
      → let (r, db') = cancel events now k db in
        let final = entered failed now (record (marked run) { updated_at = now }) in
        (r ≡ ok final)
        × (final.status ≡ failed)
        × (final.stop_reason ≡ some "cancelled")
        × (final.error_code ≡ some "cancelled")
        × (final.left_at ≡ some now)
        × ((j : ℕ) → Repository.get j db' ≡ (if k == j then some final else Repository.get j db))
  cancel_fails k run db keeps e live =
      let own = get-marked k run db e in
      let (r, _, frame) =
        advance_stores events now k failed (record (marked run) { updated_at = now }) _ keeps
          (own k ∙ ground arith) (live_may_fail run live) in
      let (status, reason, code, left) = failed_fields run in
      rw (cancel_lem k run db e)
        (rw live (r, status, reason, code, left, λ j. frame j ∙ ground (arith, own j)))
