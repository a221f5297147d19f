-- ===== src/Bots/Life/Sweeps.antt =====
-- The calls that go over many runs: the relay of src/twin/bots/queue.py, the sweep of
-- src/twin/bots/runner.py, src/twin/retention.py and src/twin/finalizer.py.
use fakery.Prelude.{
  ℕ, ◌≡◌, ◌∙◌, refl, true, Bool, Option, none, some, List, [], ◌∷◌, Text, Bool-cases, Option-cases,
  inl, inr, arith,
}
use Prim.Native.String.{String}
use fakery.Bots.Models.{BotRun, Instant, Db}
use fakery.Bots.Repository
use fakery.Bots.Service.{EventSink}
use fakery.Bots.Service.Lifecycle.{KeepRuns}
use fakery.Bots.Service.Runs.{IsSound}
use fakery.Core.Action.{Result}
use fakery.Bots.Orphans.Sweep.{
  heartbeat, swept, orphan, reaped_row, orphan_may_fail, sweep_orphans_lem,
}
use fakery.Bots.Orphans.{orphaned, sweep_orphans}
use fakery.Bots.State.{failed, can_transition}
use fakery.Bots.Queue.{dispatched, relay_rows, relay_queued}
use fakery.Bots.Queue.Relay.{relay_missing, relay_one}
use fakery.Storage.Checkpoints.{Restored}
use fakery.Finalizer.{recovered, store, recover_all, recover_once, upload}
use fakery.Finalizer.Recovery.{
  store_missing, store-changed, store_done, recover_nothing, recover_found, changed,
}
use fakery.Retention.{
  BlobObject, Summary, Fate, is_kept, would_go, has_failed, is_deleted, expire, mark_expired,
  deleted_key, sweep, run_for_key, expiry_for_key, run, nothing,
}
use fakery.Retention.Sweep.{mark_missing, mark_found, found_run}
use fakery.Bots.Life.{Follows, Follows-self, Follows-then, Evolves, Evolves-self, Evolves-then}
use fakery.Bots.Life.Rules.{Touches, Touches-Follows, stamped-Follows, legal_live, save-Evolves}

module _ (now : Instant) (xadd : ℕ → Option String) where
  dispatched-Touches : (o : Option String) (run : BotRun) → Touches run (dispatched now o run)
  unfolding dispatched
  dispatched-Touches none run = refl
  dispatched-Touches (some e) run = refl

  relay_rows-Evolves : (ks : List ℕ) (db : Db) → Evolves db (relay_rows now xadd ks db).1
  unfolding relay_rows
  relay_rows-Evolves [] db = Evolves-self db
  relay_rows-Evolves (k ∷ ks) db = elim (Option-cases (Repository.get k db)) [
    | inl e ↦ rw (relay_missing now xadd k ks db e) (relay_rows-Evolves ks db)
    | inr (run, e) ↦ rw (relay_one now xadd k ks run db e) (
        Evolves-then _ _ _
          (save-Evolves now k run (dispatched now (xadd k) run) db e
            (Touches-Follows run _ (dispatched-Touches (xadd k) run)))
          (relay_rows-Evolves ks _))
  ]

  pub relay_queued-Evolves : (db : Db) → Evolves db (relay_queued now xadd db).1
  unfolding relay_queued
  relay_queued-Evolves db = relay_rows-Evolves _ db

module _ (now : Instant) (retention_days : ℕ) (restore : Text → Option Restored)
    (put : ℕ → Text → Option Text) where
  recovered-Touches :
      (r : Restored) (uri : Text) (run : BotRun)
      → Touches run (recovered now retention_days restore put r uri run)
  unfolding recovered
  recovered-Touches r uri run = refl

  store-Evolves :
      (k : ℕ) (r : Restored) (uri : Text) (db : Db)
      → Evolves db (store now retention_days restore put k r uri db).1
  store-Evolves k r uri db = elim (Option-cases (Repository.get k db)) [
    | inl e ↦ rw (store_missing now retention_days restore put k r uri db e) (Evolves-self db)
    | inr (run, e) ↦ elim (Bool-cases (changed now retention_days restore put run)) [
      | inl c ↦
          rw (store-changed now retention_days restore put k r uri run db e c) (Evolves-self db)
      | inr c ↦
          rw (store_done now retention_days restore put k r uri run db e c)
            (save-Evolves now k run _ db e (Touches-Follows run _ (recovered-Touches r uri run)))
    ]
  ]

  recover_all-Evolves :
      (cs : List (ℕ × Text)) (db : Db)
      → Evolves db (recover_all now retention_days restore put cs db).1
  unfolding recover_all
  recover_all-Evolves [] db = Evolves-self db
  recover_all-Evolves ((k, m) ∷ rest) db =
      elim (Option-cases (upload now retention_days restore put k m)) [
        | inl e ↦
            rw (recover_nothing now retention_days restore put k m rest db e)
              (recover_all-Evolves rest db)
        | inr ((r, uri), e) ↦
            rw (recover_found now retention_days restore put k m rest db r uri e)
              (Evolves-then _ _ _ (store-Evolves k r uri db) (recover_all-Evolves rest _))
      ]

  pub recover_once-Evolves :
      (db : Db) → Evolves db (recover_once now retention_days restore put db).1
  unfolding recover_once
  recover_once-Evolves db = recover_all-Evolves _ db

module _ (run_of : Text → Option ℕ) (now : Instant) where
  expire-Touches : (key : Text) (r : BotRun) → Touches r (expire run_of key r)
  unfolding expire
  expire-Touches key r = ground arith

  mark_expired-Evolves : (key : Text) (db : Db) → Evolves db (mark_expired run_of now key db)
  mark_expired-Evolves key db = elim (Option-cases (run_for_key run_of key db)) [
    | inl e ↦ rw (mark_missing run_of now key db e) (Evolves-self db)
    | inr (r, e) ↦
        let (k, stored) = found_run run_of now key r db e in
        rw (mark_found run_of now key r db e) (
          save-Evolves now k r (expire run_of key r) db stored
            (Touches-Follows r _ (expire-Touches key r)))
  ]

  module _ (retention_days : ℕ) (dry_run : Bool) (removes : Text → Bool)
      (expires_at_for_key : Text → Option Instant) where
    deleted_key-Evolves :
        (f : Fate) (key : Text) (db : Db)
        → Evolves db (
            deleted_key now retention_days dry_run removes expires_at_for_key
              (mark_expired run_of now)
              f
              key
              db)
    deleted_key-Evolves is_kept key db = Evolves-self db
    deleted_key-Evolves would_go key db = Evolves-self db
    deleted_key-Evolves has_failed key db = Evolves-self db
    deleted_key-Evolves is_deleted key db = mark_expired-Evolves key db

    sweep-Evolves :
        (os : List BlobObject) (s : Summary) (db : Db)
        → Evolves db
            (sweep now retention_days dry_run removes expires_at_for_key
              (mark_expired run_of now)
              os
              s
              db).1
    unfolding sweep
    sweep-Evolves [] s db = Evolves-self db
    sweep-Evolves (o ∷ os) s db =
        Evolves-then _ _ _ (deleted_key-Evolves _ o.key db) (sweep-Evolves os _ _)

  pub run-Evolves :
      (retention_days : ℕ) (dry_run : Bool) (removes : Text → Bool) (os : List BlobObject) (db : Db)
      → Evolves db (run run_of now retention_days dry_run removes os db).1
  unfolding run
  run-Evolves retention_days dry_run removes os db =
      sweep-Evolves retention_days dry_run removes (expiry_for_key run_of db) os nothing db

module _ (events : Option EventSink) (now moment : Instant) (stale_after_s : ℕ)
    (beats : ℕ → Result Bool) where
  orphaned-Touches : (run : BotRun) → Touches run (record (orphaned run) { updated_at = now })
  orphaned-Touches run = refl

  reaped_row-Follows :
      (run : BotRun)
      → orphan events now moment stale_after_s beats run ≡ true
      → Follows run (reaped_row events now moment stale_after_s beats run)
  reaped_row-Follows run h =
      let marked : BotRun = record (orphaned run) { updated_at = now } in
      let legal : can_transition run.status failed ≡ true =
        orphan_may_fail run (heartbeat events now moment stale_after_s beats run.id) moment
          stale_after_s h in
      Follows-then run marked _ (Touches-Follows run marked (orphaned-Touches run))
        (stamped-Follows failed now marked legal (legal_live _ _ legal))

  swept-Follows :
      (run : BotRun)
      → (run' : BotRun) × (swept events now moment stale_after_s beats true (some run) ≡ some run')
        × Follows run run'
  swept-Follows run = elim (Bool-cases (orphan events now moment stale_after_s beats run)) [
    | inl h ↦
        (reaped_row events now moment stale_after_s beats run, rw h refl, reaped_row-Follows run h)
    | inr h ↦ (run, rw h refl, Follows-self run)
  ]

  pub sweep_orphans-Evolves :
      (db : Db)
      → KeepRuns events
      → IsSound db
      → Evolves db (sweep_orphans events now moment stale_after_s beats db).1
  sweep_orphans-Evolves db keeps h =
      elim (sweep_orphans_lem events now moment stale_after_s beats db keeps h) [
        | inl raised ↦ rw raised.1 (Evolves-self db)
        | inr (n, done, sound, rows) ↦ record {
          kept =
              λ k run e. let (run', same, f) = swept-Follows run in (run', rows k ∙ rw e same, f);
        }
      ]
