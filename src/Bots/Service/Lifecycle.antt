-- ===== src/Bots/Service/Lifecycle.antt =====
-- `BotService.advance` and `BotService.cancel` (src/twin/bots/service.py): what they write and when
-- they refuse, for every event sink that leaves the runs alone.
use fakery.Prelude.{
  ℕ, true, false, Option, none, some, ◌≡◌, ◌==◌, if◌then◌else◌, arith, find_row, ap, ◌∙◌,
  Bool-cases, Option-cases, inl, inr, ◌≢◌, refl,
}
use fakery.Core.Errors.{conflict, not_found, make_error, twin}
use fakery.Core.Action.{Result, ok, err}
use fakery.Bots.State.{BotStatus, can_transition, status_eq}
use fakery.Bots.Models.{BotRun, Instant, Db}
use fakery.Bots.Repository
use fakery.Bots.Repository.{is_active}
use fakery.Bots.Service.{EventSink, is_terminal, enter, tell_status, advance}
use fakery.Bots.Service.Runs.{
  IsWellFormed, IsSound, Updates, was_admitted, save-IsSound, get-save, get_id, stored-IsWellFormed,
}

abbrev key : BotRun → ℕ
key r = r.id

-- A sink that writes to other tables only.
pub record KeepsRuns (sink : EventSink) : Type 0 where
  pub on_status : (k : ℕ) (s : BotStatus) (db : Db) → (sink.status_changed k s db).bots ≡ db.bots

abbrev pub KeepRuns : Option EventSink → Type 0
KeepRuns none = Unit
KeepRuns (some sink) = KeepsRuns sink

module _ (events : Option EventSink) (now : Instant) where
  pub tell_status-bots :
      (k : ℕ) (s : BotStatus) (db : Db)
      → KeepRuns events
      → (tell_status events now k s db).bots ≡ db.bots
  unfolding tell_status
  tell_status-bots k s db h =
      elim events as (λ e. KeepRuns e → (tell_status e now k s db).bots ≡ db.bots) [
        | none ↦ λ h. refl
        | some sink ↦ λ h. h.on_status k s db
      ]
        h

-- The stored version of a run that enters a status.
abbrev pub entered : BotStatus → Instant → BotRun → BotRun
entered target now run = record (enter target now run) { updated_at = now }

entered-Updates :
    (target : BotStatus) (now : Instant) (run : BotRun)
    → can_transition run.status target ≡ true
    → Updates run (enter target now run)
unfolding enter can_transition is_active
entered-Updates target now run h = record {
  same_id = ground arith;
  same_key = ground arith;
  same_token = ground arith;
  no_revival = ground arith;
}

-- A legal step of a well-formed run gives a well-formed run.
enter-IsWellFormed :
    (target : BotStatus) (now : Instant) (run : BotRun)
    → can_transition run.status target ≡ true
    → IsWellFormed run
    → IsWellFormed (enter target now run)
unfolding enter can_transition is_terminal was_admitted
enter-IsWellFormed target now run h w = ground arith

abbrev pub refusal : Result BotRun
refusal = err (twin (make_error conflict))

legal_not_terminal : (s t : BotStatus) → can_transition s t ≡ true → is_terminal s ≡ false
unfolding can_transition is_terminal
legal_not_terminal s t h = ground arith

-- An outcome of `advance` on a stored run: a step, a repetition of its last status, or a refusal.
pub data Advanced (events : Option EventSink) (now : Instant) (k : ℕ) (target : BotStatus) (db : Db)
    (run : BotRun) : Result BotRun × Db → Type 0 where
  stepped :
      can_transition run.status target ≡ true
      → Advanced events now k target db run (
        ok (entered target now run),
        tell_status events now k target (Repository.save now (enter target now run) db),
      )
  repeated :
      is_terminal run.status ≡ true
      → run.status ≡ target
      → Advanced events now k target db run (ok run, db)
  refused :
      can_transition run.status target ≡ false
      → ¬ ((is_terminal run.status ≡ true) × (run.status ≡ target))
      → Advanced events now k target db run (refusal, db)

pub status_eq→≡ : (s t : BotStatus) → status_eq s t ≡ true → s ≡ t
status_eq→≡ s t h = ground arith

status_eq_refl : (s t : BotStatus) → status_eq s t ≡ false → s ≢ t
status_eq_refl s t h = ground arith

terminal_illegal : (s t : BotStatus) → is_terminal s ≡ true → can_transition s t ≡ false
unfolding can_transition is_terminal
terminal_illegal s t h = ground arith

-- A new version of the tables with the same runs is as sound.
pub same_runs-IsSound : (db db' : Db) → db'.bots ≡ db.bots → IsSound db → IsSound db'
same_runs-IsSound db db' e h = record { rows = rw e h.rows; unique = rw e h.unique }

module _ (events : Option EventSink) (now : Instant) where
  advance_lem :
      (k : ℕ) (target : BotStatus) (run : BotRun) (db : Db)
      → Repository.get k db ≡ some run
      → advance events now k target db ≡ (
          if is_terminal run.status
          then (if status_eq run.status target then (ok run, db) else (refusal, db))
          else (if can_transition run.status target
              then (
                ok (entered target now run),
                tell_status events now k target (Repository.save now (enter target now run) db),
              )
              else (refusal, db)))
  unfolding advance
  advance_lem k target run db e = ground (arith, e)

  -- A call of `advance` on a stored run is a legal step, which is stored and told; or a repetition
  -- of its last status, or a refusal with a conflict, which write nothing.
  pub advance-Advanced :
      (k : ℕ) (target : BotStatus) (run : BotRun) (db : Db)
      → Repository.get k db ≡ some run
      → Advanced events now k target db run (advance events now k target db)
  advance-Advanced k target run db e =
      rw (advance_lem k target run db e) (elim (Bool-cases (is_terminal run.status)) [
        | inl over ↦ rw over (elim (Bool-cases (status_eq run.status target)) [
          | inl same ↦ rw same (repeated over (status_eq→≡ _ _ same))
          | inr other ↦ rw other (
              refused (terminal_illegal _ _ over)
                (λ (_, e). status_eq_refl run.status target other e))
        ])
        | inr live ↦ rw live (elim (Bool-cases (can_transition run.status target)) [
          | inl legal ↦ rw legal (stepped legal)
          | inr illegal ↦ rw illegal (refused illegal (λ (over, _). cc))
        ])
      ])

  advance_missing :
      (k : ℕ) (target : BotStatus) (db : Db)
      → Repository.get k db ≡ none
      → advance events now k target db ≡ (err (twin (make_error not_found)), db)
  unfolding advance
  advance_missing k target db e = ground (arith, e)

  enter_id : (target : BotStatus) (run : BotRun) → (enter target now run).id ≡ run.id
  unfolding enter
  enter_id target run = ground arith

  enter_status : (target : BotStatus) (run : BotRun) → (enter target now run).status ≡ target
  unfolding enter
  enter_status target run = ground arith

  Advanced-IsSound :
      (k : ℕ) (target : BotStatus) (run : BotRun) (db : Db) (out : Result BotRun × Db)
      → Repository.get k db ≡ some run
      → KeepRuns events
      → IsSound db
      → Advanced events now k target db run out
      → IsSound out.1
  Advanced-IsSound k target run db out e keeps h (stepped legal) =
      same_runs-IsSound _ _ (tell_status-bots events now k target _ keeps) (
        save-IsSound now run (enter target now run) db (entered-Updates target now run legal)
          (ap (λ j. Repository.get j db) (enter_id target run ∙ get_id k run db e) ∙ e)
          (enter-IsWellFormed target now run legal (stored-IsWellFormed k run db e h)) h)
  Advanced-IsSound k target run db out e keeps h (repeated over same) = h
  Advanced-IsSound k target run db out e keeps h (refused illegal other) = h

  -- Whatever the target and the outcome, `advance` keeps a sound table of runs sound, under a sink that
  -- leaves the runs alone.
  pub advance-IsSound :
      (k : ℕ) (target : BotStatus) (db : Db)
      → KeepRuns events
      → IsSound db
      → IsSound (advance events now k target db).1
  advance-IsSound k target db keeps h = elim (Option-cases (Repository.get k db)) [
    | inl missing ↦ rw (advance_missing k target db missing) h
    | inr (run, e) ↦
        Advanced-IsSound k target run db _ e keeps h (advance-Advanced k target run db e)
  ]

  advance_legal :
      (k : ℕ) (target : BotStatus) (run : BotRun) (db : Db)
      → Repository.get k db ≡ some run
      → can_transition run.status target ≡ true
      → advance events now k target db ≡ (
        ok (entered target now run),
        tell_status events now k target (Repository.save now (enter target now run) db),
      )
  advance_legal k target run db e legal =
      rw (advance_lem k target run db e) (rw (legal_not_terminal _ _ legal) (rw legal))

  get_same_runs :
      (j : ℕ) (db db' : Db) → db'.bots ≡ db.bots → Repository.get j db' ≡ Repository.get j db
  unfolding Repository.get
  get_same_runs j db db' e = ap (find_row key j) e

  get_after_step :
      (k j : ℕ) (target : BotStatus) (run : BotRun) (db : Db)
      → KeepRuns events
      → Repository.get k db ≡ some run
      → Repository.get j
          (tell_status events now k target (Repository.save now (enter target now run) db))
        ≡ (if k == j then some (entered target now run) else Repository.get j db)
  get_after_step k j target run db keeps e =
      get_same_runs j _ _ (tell_status-bots events now k target _ keeps)
      ∙ get-save now j (enter target now run) db
      ∙ ground (arith, enter_id target run, get_id k run db e, e)

  -- A legal step of a stored run, under a sink that leaves the runs alone, stores the run at its
  -- target, returns what it stored, and leaves every other run as it was.
  pub advance_stores :
      (k : ℕ) (target : BotStatus) (run : BotRun) (db : Db)
      → KeepRuns events
      → Repository.get k db ≡ some run
      → can_transition run.status target ≡ true
      → let (r, db') = advance events now k target db in
        (r ≡ ok (entered target now run))
        × ((entered target now run).status ≡ target)
        × ((j : ℕ)
            → Repository.get j db'
              ≡ (if k == j then some (entered target now run) else Repository.get j db))
  advance_stores k target run db keeps e legal =
      rw (advance_legal k target run db e legal)
        (refl, enter_status target run, λ j. get_after_step k j target run db keeps e)
