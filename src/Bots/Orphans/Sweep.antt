-- ===== src/Bots/Orphans/Sweep.antt =====
-- `sweep_orphans` (src/twin/bots/runner.py) against the table of runs.
use fakery.Core.Errors.{Error}
use fakery.Prelude.{
  ℕ, ◌+◌, ◌≡◌, ◌∙◌, ap, refl, ◌⊎◌, Bool, true, false, ◌&&◌, ◌||◌, Option, none, some, List, [], ◌∷◌,
  map, ◌==◌, if◌then◌else◌, filter, any, find_row, Option-cases, Bool-cases, inl, inr, arith,
}
use fakery.Core.Action.{Result, ok, err}
use fakery.Bots.State.{failed, can_transition}
use fakery.Bots.Models.{BotRun, Instant, Db}
use fakery.Bots.Repository
use fakery.Bots.Service.{EventSink, advance, enter}
use fakery.Bots.Service.Runs.{
  IsSound, IsWellFormed, Updates, save-IsSound, stored-IsWellFormed, get_id, get-save,
}
use fakery.Bots.Service.Lifecycle.{KeepRuns, entered, advance-IsSound, advance_stores}
use fakery.Bots.Service.Create.Once.{Result-cases}
use fakery.Bots.Runner.{is_live, is_orphan}
use fakery.Bots.Orphans.{orphaned, reap_silent, reap, reap_all, sweep_orphans, is_quiet, id_of}

orphaned-Updates : (run : BotRun) → Updates run (orphaned run)
orphaned-Updates run = record {
  same_id = refl;
  same_key = refl;
  same_token = refl;
  no_revival = λ h. h;
}

orphaned-IsWellFormed : (run : BotRun) → IsWellFormed run → IsWellFormed (orphaned run)
orphaned-IsWellFormed run w = record { left = w.left; reason = λ _. refl; admitted = w.admitted }

pub orphan_may_fail :
    (run : BotRun) (heartbeat : Bool) (moment : Instant) (stale_after_s : ℕ)
    → is_orphan run.status run.updated_at heartbeat moment stale_after_s ≡ true
    → can_transition run.status failed ≡ true
unfolding is_orphan is_live can_transition
orphan_may_fail run heartbeat moment stale_after_s h = ground arith

module _ (events : Option EventSink) (now moment : Instant) (stale_after_s : ℕ)
    (beats : ℕ → Result Bool) where
  -- What was read of a run's key.
  abbrev pub beat_of : Result Bool → Bool
  beat_of (ok b) = b
  beat_of (err e) = false

  abbrev pub heartbeat : ℕ → Bool
  heartbeat k = beat_of (beats k)

  abbrev pub orphan : BotRun → Bool
  orphan run = is_orphan run.status run.updated_at (heartbeat run.id) moment stale_after_s

  -- The row that the sweep leaves of an orphan.
  abbrev pub reaped_row : BotRun → BotRun
  reaped_row run = entered failed now (record (orphaned run) { updated_at = now })

  abbrev marked : BotRun → Db → Db
  marked run db = Repository.save now (orphaned run) db

  get-marked :
      (run : BotRun) (db : Db)
      → Repository.get run.id db ≡ some run
      → (j : ℕ)
      → Repository.get j (marked run db) ≡ (
          if run.id == j
          then some (record (orphaned run) { updated_at = now })
          else Repository.get j db)
  get-marked run db e j = get-save now j (orphaned run) db ∙ ground (arith, e)

  reap_lem :
      (run : BotRun) (db : Db)
      → orphan run ≡ true
      → (r : Result BotRun × Db) → advance events now run.id failed (marked run db) ≡ r
      → (b : BotRun) → r.0 ≡ ok b
      → reap_silent events now moment stale_after_s beats (heartbeat run.id) run db ≡ (ok 1, r.1)
  unfolding reap_silent
  reap_lem run db h r e b k = ground (arith, h, e, k)

  reap_heard :
      (run : BotRun) (b : Bool) (db : Db)
      → beats run.id ≡ ok b
      → reap events now moment stale_after_s beats run db
        ≡ reap_silent events now moment stale_after_s beats (heartbeat run.id) run db
  unfolding reap
  reap_heard run b db e = rw e refl

  -- One turn of the loop: an orphan is failed, and any other run is left alone.
  reap_stores :
      (run : BotRun) (db : Db)
      → KeepRuns events
      → Repository.get run.id db ≡ some run
      → let (r, db') =
          reap_silent events now moment stale_after_s beats (heartbeat run.id) run db in
        (r ≡ ok (if orphan run then 1 else 0))
        × ((j : ℕ)
            → Repository.get j db'
              ≡ (if run.id == j && orphan run then some (reaped_row run) else Repository.get j db))
  unfolding reap_silent
  reap_stores run db keeps e = elim (Bool-cases (orphan run)) [
    | inr other ↦ ground (arith, other)
    | inl h ↦
        let own = get-marked run db e in
        let (done, _, frame) =
          advance_stores events now run.id failed (record (orphaned run) { updated_at = now })
            (marked run db) keeps (own run.id ∙ ground arith)
            (orphan_may_fail run (heartbeat run.id) moment stale_after_s h) in
        rw (reap_lem run db h (advance events now run.id failed (marked run db)) refl _ done)
          (ground (arith, h), λ j. frame j ∙ ground (arith, own j, h))
  ]

  reap-IsSound :
      (run : BotRun) (db : Db)
      → KeepRuns events
      → Repository.get run.id db ≡ some run
      → IsSound db
      → IsSound (reap_silent events now moment stale_after_s beats (heartbeat run.id) run db).1
  unfolding reap_silent
  reap-IsSound run db keeps e h = elim (Bool-cases (orphan run)) [
    | inr other ↦ rw other h
    | inl o ↦
        let own = get-marked run db e in
        let (done, _, frame) =
          advance_stores events now run.id failed (record (orphaned run) { updated_at = now })
            (marked run db) keeps (own run.id ∙ ground arith)
            (orphan_may_fail run (heartbeat run.id) moment stale_after_s o) in
        rw (reap_lem run db o (advance events now run.id failed (marked run db)) refl _ done) (
          advance-IsSound events now run.id failed (marked run db) keeps (
            save-IsSound now run (orphaned run) db (orphaned-Updates run) e
              (orphaned-IsWellFormed run (stored-IsWellFormed run.id run db e h)) h))
  ]

  reap_all_missing :
      (k : ℕ) (ks : List ℕ) (db : Db)
      → Repository.get k db ≡ none
      → reap_all events now moment stale_after_s beats (k ∷ ks) db
        ≡ reap_all events now moment stale_after_s beats ks db
  unfolding reap_all
  reap_all_missing k ks db e = ground (arith, e)

  reap_all_step :
      (k n : ℕ) (ks : List ℕ) (run : BotRun) (db : Db) (r : Result ℕ × Db)
      → Repository.get k db ≡ some run
      → reap events now moment stale_after_s beats run db ≡ r
      → r.0 ≡ ok n
      → (m : ℕ) → (reap_all events now moment stale_after_s beats ks r.1).0 ≡ ok m
      → reap_all events now moment stale_after_s beats (k ∷ ks) db
        ≡ (ok (n + m), (reap_all events now moment stale_after_s beats ks r.1).1)
  unfolding reap_all
  reap_all_step k n ks run db r e f g m h = ground (arith, e, f, g, h)

  abbrev is_among : ℕ → List ℕ → Bool
  is_among j ks = any (λ k. k == j) ks

  -- What the loop makes of a row.
  abbrev pub swept : Bool → Option BotRun → Option BotRun
  swept selected none = none
  swept selected (some run) = if selected && orphan run then some (reaped_row run) else some run

  reaped_is_no_orphan : (run : BotRun) → orphan (reaped_row run) ≡ false
  unfolding is_orphan is_live enter
  reaped_is_no_orphan run = ground arith

  swept_nothing : (o : Option BotRun) → o ≡ swept false o
  swept_nothing none = refl
  swept_nothing (some run) = refl

  -- A row that is looked at again stays as the first look left it.
  swept_twice :
      (selected : Bool) (run : BotRun)
      → swept selected (if orphan run then some (reaped_row run) else some run)
        ≡ swept true (some run)
  swept_twice selected run = elim (Bool-cases (orphan run)) [
    | inl h ↦ rw h (ground (arith, reaped_is_no_orphan run))
    | inr h ↦ rw h (ground (arith, h))
  ]

  -- The row `j` behind the turn on `k` and the rest of the loop.
  swept_step :
      (k j : ℕ) (rest : Bool) (run : BotRun) (db db' : Db)
      → Repository.get k db ≡ some run
      → Repository.get j db'
        ≡ (if run.id == j && orphan run then some (reaped_row run) else Repository.get j db)
      → swept rest (Repository.get j db') ≡ swept (k == j || rest) (Repository.get j db)
  swept_step k j rest run db db' e h =
      let i : run.id ≡ k = get_id k run db e in
      elim (Bool-cases (k == j)) [
        | inr other ↦
            let other' : (run.id == j) ≡ false = ground (arith, i, other) in
            rw (h, other', other) refl
        | inl same ↦
            let here : Repository.get j db ≡ some run =
              ap (λ x. Repository.get x db) (ground (arith, same)) ∙ e in
            let same' : (run.id == j) ≡ true = ground (arith, i, same) in
            rw (h, same', here, same) (swept_twice rest run)
      ]

  reap_all_nil : (db : Db) → reap_all events now moment stale_after_s beats [] db ≡ (ok 0, db)
  unfolding reap_all
  reap_all_nil db = refl

  reap_all_raises :
      (k : ℕ) (ks : List ℕ) (run : BotRun) (db : Db) (x : Error)
      → Repository.get k db ≡ some run
      → beats run.id ≡ err x
      → (reap_all events now moment stale_after_s beats (k ∷ ks) db).0 ≡ err x
  unfolding reap_all reap
  reap_all_raises k ks run db x e h = ground (arith, e, h)

  reap_all_passes :
      (k n : ℕ) (ks : List ℕ) (run : BotRun) (db : Db) (x : Error) (r : Result ℕ × Db)
      → Repository.get k db ≡ some run
      → reap events now moment stale_after_s beats run db ≡ r
      → r.0 ≡ ok n
      → (reap_all events now moment stale_after_s beats ks r.1).0 ≡ err x
      → (reap_all events now moment stale_after_s beats (k ∷ ks) db).0 ≡ err x
  unfolding reap_all
  reap_all_passes k n ks run db x r e f g h = ground (arith, e, f, g, h)

  -- A key could not be read, and that exception is what the loop raises.
  abbrev pub Unread : Result ℕ → Type 0
  Unread r = (k : ℕ) × (x : Error) × (beats k ≡ err x) × (r ≡ err x)

  abbrev Reaped : List ℕ → Db → Result ℕ × Db → Type 0
  Reaped ks db (r, db') =
      Unread r
      ⊎ ((n : ℕ) × (r ≡ ok n)
          × IsSound db'
          × ((j : ℕ) → Repository.get j db' ≡ swept (is_among j ks) (Repository.get j db)))

  missing-Reaped :
      (k : ℕ) (ks : List ℕ) (db : Db) (out : Result ℕ × Db)
      → Repository.get k db ≡ none
      → Reaped ks db out
      → Reaped (k ∷ ks) db out
  missing-Reaped k ks db out e (inl raised) = inl raised
  missing-Reaped k ks db out e (inr (n, r, sound, rows)) = inr (
    n,
    r,
    sound,
    λ j. rows j ∙ elim (Bool-cases (k == j)) [
      | inr other ↦ rw other refl
      | inl same ↦
          let here : Repository.get j db ≡ none =
            ap (λ x. Repository.get x db) (ground (arith, same)) ∙ e in
          rw here refl
    ],
  )

  turn-Reaped :
      (k : ℕ) (ks : List ℕ) (run : BotRun) (b : Bool) (db : Db)
      → KeepRuns events
      → IsSound db
      → Repository.get k db ≡ some run
      → beats run.id ≡ ok b
      → (let db' =
            (reap_silent events now moment stale_after_s beats (heartbeat run.id) run db).1 in
          Reaped ks db' (reap_all events now moment stale_after_s beats ks db'))
      → Reaped (k ∷ ks) db (reap_all events now moment stale_after_s beats (k ∷ ks) db)
  turn-Reaped k ks run b db keeps h e heard rest =
      let here : Repository.get run.id db ≡ some run =
        ap (λ x. Repository.get x db) (get_id k run db e) ∙ e in
      let out = reap_silent events now moment stale_after_s beats (heartbeat run.id) run db in
      let turn = reap_heard run b db heard in
      let (r, frame) = reap_stores run db keeps here in
      elim rest [
        | inl (i, x, unread, raised) ↦
            inl (i, x, unread, reap_all_passes k _ ks run db x out e turn r raised)
        | inr (n, done, sound, rows) ↦ rw (reap_all_step k _ ks run db out e turn r n done) (
            inr (
              _,
              refl,
              sound,
              λ j. rows j ∙ swept_step k j (is_among j ks) run db out.1 e (frame j),
            ))
      ]

  reap_all_stores :
      (ks : List ℕ) (db : Db)
      → KeepRuns events
      → IsSound db
      → Reaped ks db (reap_all events now moment stale_after_s beats ks db)
  reap_all_stores [] db keeps h =
      rw (reap_all_nil db) (inr (0, refl, h, λ j. swept_nothing (Repository.get j db)))
  reap_all_stores (k ∷ ks) db keeps h = elim (Option-cases (Repository.get k db)) [
    | inl e ↦
        rw (reap_all_missing k ks db e) (missing-Reaped k ks db _ e (reap_all_stores ks db keeps h))
    | inr (run, e) ↦
        let here : Repository.get run.id db ≡ some run =
          ap (λ x. Repository.get x db) (get_id k run db e) ∙ e in
        elim (Result-cases (beats run.id)) [
          | inl (b, heard) ↦
              turn-Reaped k ks run b db keeps h e heard
                (reap_all_stores ks _ keeps (reap-IsSound run db keeps here h))
          | inr (x, unread) ↦ inl (run.id, x, unread, reap_all_raises k ks run db x e unread)
        ]
  ]

  among_filter :
      (j : ℕ) (run : BotRun) (rs : List BotRun)
      → find_row id_of j rs ≡ some run
      → is_quiet moment stale_after_s run ≡ true
      → is_among j (map id_of (filter (is_quiet moment stale_after_s) rs)) ≡ true
  unfolding find_row
  among_filter j run [] e h = cc
  among_filter j run (r ∷ rs) e h = ground (arith, h, among_filter j run rs)

  orphan-is_quiet : (run : BotRun) → orphan run ≡ true → is_quiet moment stale_after_s run ≡ true
  unfolding is_orphan
  orphan-is_quiet run h = ground arith

  swept_selected :
      (j : ℕ) (db : Db) (o : Option BotRun)
      → Repository.get j db ≡ o
      → swept (is_among j (map id_of (filter (is_quiet moment stale_after_s) db.bots))) o
        ≡ swept true o
  unfolding Repository.get
  swept_selected j db none e = refl
  swept_selected j db (some run) e = elim (Bool-cases (orphan run)) [
    | inr other ↦ ground (arith, other)
    | inl h ↦ rw (among_filter j run db.bots e (orphan-is_quiet run h)) refl
  ]

  sweep_ok :
      (n : ℕ) (db : Db)
      → let ids = map id_of (filter (is_quiet moment stale_after_s) db.bots) in
        (reap_all events now moment stale_after_s beats ids db).0 ≡ ok n
        → sweep_orphans events now moment stale_after_s beats db
          ≡ (ok n, (reap_all events now moment stale_after_s beats ids db).1)
  unfolding sweep_orphans
  sweep_ok n db h = ground (arith, h)

  sweep_err :
      (x : Error) (db : Db)
      → let ids = map id_of (filter (is_quiet moment stale_after_s) db.bots) in
        (reap_all events now moment stale_after_s beats ids db).0 ≡ err x
        → sweep_orphans events now moment stale_after_s beats db ≡ (err x, db)
  unfolding sweep_orphans
  sweep_err x db h = ground (arith, h)

  -- What a sweep leaves: nothing is written and an exception of Redis is raised; or no run is lost.
  abbrev pub Swept : Db → Result ℕ × Db → Type 0
  Swept db (r, db') =
      (Unread r × (db' ≡ db))
      ⊎ ((n : ℕ) × (r ≡ ok n)
          × IsSound db'
          × ((j : ℕ) → Repository.get j db' ≡ swept true (Repository.get j db)))

  -- On a sound table, with a sink that keeps the runs, the sweep raises only what Redis raised when a
  -- key was read, and then nothing is written. Otherwise the table stays sound, every run that was live,
  -- silent and untouched for longer than the limit is failed as orphaned, and every other run is as it
  -- was.
  pub sweep_orphans_lem :
      (db : Db)
      → KeepRuns events
      → IsSound db
      → Swept db (sweep_orphans events now moment stale_after_s beats db)
  sweep_orphans_lem db keeps h =
      let ids = map id_of (filter (is_quiet moment stale_after_s) db.bots) in
      elim (reap_all_stores ids db keeps h) [
        | inl (k, x, unread, raised) ↦ rw (sweep_err x db raised) (inl ((k, x, unread, refl), refl))
        | inr (n, r, sound, rows) ↦
            rw (sweep_ok n db r)
              (inr (n, refl, sound, λ j. rows j ∙ swept_selected j db (Repository.get j db) refl))
      ]

  -- A sweep keeps a sound table sound, also where it raises.
  pub sweep_orphans-IsSound :
      (db : Db)
      → KeepRuns events
      → IsSound db
      → IsSound (sweep_orphans events now moment stale_after_s beats db).1
  sweep_orphans-IsSound db keeps h = elim (sweep_orphans_lem db keeps h) [
    | inl raised ↦ rw raised.1 h
    | inr done ↦ done.2
  ]
