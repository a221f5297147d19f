-- ===== src/Bots/Runtime/Endings.antt =====
-- `fail_run` and `_complete` (src/twin/bots/runtime.py) against the table of runs.
use fakery.Prelude.{ℕ, ◌≡◌, ◌∙◌, ap, refl, false, Option, some, Text, Bool-cases, inl, inr, arith}
use fakery.Core.Errors.{Error}
use fakery.Core.Action.{Action, Result, ok, err, settle, session_scope, ◌>>=◌}
use fakery.Bots.State.{BotStatus, completed, failed, can_transition}
use fakery.Bots.Models.{BotRun, Instant, Db}
use fakery.Bots.Repository
use fakery.Bots.Service.{EventSink, is_terminal, get, advance}
use fakery.Bots.Service.Create.Once.{Result-cases}
use fakery.Bots.Service.Runs.{
  IsSound, IsWellFormed, Updates, save-IsSound, stored-IsWellFormed, get_id, get-save,
}
use fakery.Bots.Service.Lifecycle.{
  KeepRuns, advance-IsSound, advance_stores, advance-Advanced, Advanced, stepped, repeated, refused,
}
use fakery.Bots.Runtime.{
  FailCode, blamed, Ending, with_recording, finished, timed, time_run, end_run, complete, blame_run,
  blame,
}

-- A change of a row's own fields that keeps it well-formed.
abbrev pub Keeps : (BotRun → BotRun) → Type 0
Keeps f = (run : BotRun) → Updates run (f run) × (IsWellFormed run → IsWellFormed (f run))

pub save_kept :
    (f : BotRun → BotRun) (now : Instant) (k : ℕ) (run : BotRun) (db : Db)
    → Keeps f
    → Repository.get k db ≡ some run
    → IsSound db
    → IsSound (Repository.save now (f run) db)
save_kept f now k run db keep e h =
    save-IsSound now run (f run) db (keep run).0
      (ap (λ j. Repository.get j db) ((keep run).0.same_id ∙ get_id k run db e) ∙ e)
      ((keep run).1 (stored-IsWellFormed k run db e h)) h

pub blamed-Keeps : (code : FailCode) → Keeps (blamed code)
unfolding blamed
blamed-Keeps code run = (
  record { same_id = refl; same_key = refl; same_token = refl; no_revival = λ h. h },
  λ w. record { left = w.left; reason = λ _. refl; admitted = w.admitted },
)

module _ (retention_days : ℕ) (now : Instant) (stored_at : Option Text) where
  with_recording-Keeps : (e : Ending) → Keeps (with_recording retention_days now stored_at e)
  unfolding with_recording
  with_recording-Keeps e run = (
    record {
      same_id = ground arith;
      same_key = ground arith;
      same_token = ground arith;
      no_revival = ground arith;
    },
    λ w. ground (arith, w.left, w.reason, w.admitted),
  )

  pub finished-Keeps : (e : Ending) → Keeps (finished retention_days now stored_at e)
  unfolding finished
  finished-Keeps e run =
      let (u, w) = with_recording-Keeps e run in
      (
        record {
          same_id = ground (arith, u);
          same_key = ground (arith, u);
          same_token = ground (arith, u);
          no_revival = ground (arith, u.no_revival);
        },
        λ h.
            let v = w h in
            record {
              left = ground (arith, v.left);
              reason = ground (arith, v.reason);
              admitted = ground (arith, v.admitted);
            },
      )

pub timed-Keeps :
    (retention_days now : ℕ) (stored_at : Option Text) → Keeps (timed retention_days now stored_at)
unfolding timed
timed-Keeps retention_days now stored_at run = (
  record {
    same_id = ground arith;
    same_key = ground arith;
    same_token = ground arith;
    no_revival = ground arith;
  },
  λ w. record {
    left = ground (arith, w.left);
    reason = ground (arith, w.reason);
    admitted = ground (arith, w.admitted);
  },
)

module _ {A B : Type 0} where
  pub bind_ok :
      (m : Action Db A) (f : A → Action Db B) (db : Db) (a : A)
      → (m db).0 ≡ ok a
      → (m >>= f) db ≡ f a (m db).1
  bind_ok m f db a e = ground (arith, e)

  pub bind_err :
      (m : Action Db A) (f : A → Action Db B) (db : Db) (x : Error)
      → (m db).0 ≡ err x
      → (m >>= f) db ≡ (err x, (m db).1)
  bind_err m f db x e = ground (arith, e)

  pub bind-IsSound :
      (m : Action Db A) (f : A → Action Db B) (db : Db)
      → IsSound (m db).1
      → ((a : A) → (m db).0 ≡ ok a → IsSound (f a (m db).1).1)
      → IsSound ((m >>= f) db).1
  bind-IsSound m f db h k = elim (Result-cases (m db).0) [
    | inl (a, e) ↦ rw (bind_ok m f db a e) (k a e)
    | inr (x, bad) ↦ rw (bind_err m f db x bad) h
  ]

pub settled_ok :
    {A : Type 0} (before : Db) (r : Result A × Db) (a : A) → r.0 ≡ ok a → (settle before r).1 ≡ r.1
settled_ok before (ok b, after) a h = refl
settled_ok before (err e, after) a h = absurd (cc)

pub settled_err :
    {A : Type 0} (before : Db) (r : Result A × Db) (e : Error)
    → r.0 ≡ err e
    → (settle before r).1 ≡ before
settled_err before (ok b, after) e h = absurd (cc)
settled_err before (err e, after) f h = refl

pub scope-IsSound :
    {A : Type 0} (m : Action Db A) (db : Db)
    → IsSound db
    → IsSound (m db).1
    → IsSound (session_scope m db).1
scope-IsSound m db h k = elim (Result-cases (m db).0) [
  | inl (a, e) ↦ rw (settled_ok db (m db) a e) k
  | inr (e, bad) ↦ rw (settled_err db (m db) e bad) h
]

pub got_run : (k : ℕ) (db : Db) → (get k db).1 ≡ db
unfolding get
got_run k db = ground arith

pub got_stored :
    (k : ℕ) (run : BotRun) (db : Db) → (get k db).0 ≡ ok run → Repository.get k db ≡ some run
unfolding get
got_stored k run db h = ground arith

pub got :
    {A : Type 0} (f : BotRun → Action Db A) (k : ℕ) (db : Db)
    → IsSound db
    → ((run : BotRun) → Repository.get k db ≡ some run → IsSound (f run db).1)
    → IsSound ((get k >>= f) db).1
got f k db h g =
    bind-IsSound (get k) f db (rw (got_run k db) h)
      (λ run e. rw (got_run k db) (g run (got_stored k run db e)))

module _ (events : Option EventSink) (now : Instant) where
  returned :
      (k : ℕ) (target : BotStatus) (run after : BotRun) (db : Db) (out : Result BotRun × Db)
      → Repository.get k db ≡ some run
      → can_transition run.status target ≡ false
      → Advanced events now k target db run out
      → out.0 ≡ ok after
      → Repository.get k out.1 ≡ some after
  returned k target run after db out e illegal (stepped legal) h =
      absurd (ground (arith, legal, illegal))
  returned k target run after db out e illegal (repeated over same) h = ground (arith, e, h)
  returned k target run after db out e illegal (refused illegal' other) h = absurd (cc h)

  -- What `advance` returns is the row that it leaves.
  pub advance_returns :
      (k : ℕ) (target : BotStatus) (run after : BotRun) (db : Db)
      → KeepRuns events
      → Repository.get k db ≡ some run
      → (advance events now k target db).0 ≡ ok after
      → Repository.get k (advance events now k target db).1 ≡ some after
  advance_returns k target run after db keeps e h =
      elim (Bool-cases (can_transition run.status target)) [
        | inl legal ↦
            let (r, _, frame) = advance_stores events now k target run db keeps e legal in
            frame k ∙ ground (arith, r, h)
        | inr illegal ↦
            returned k target run after db _ e illegal
              (advance-Advanced events now k target run db e) h
      ]

  pub get_saved :
      (f : BotRun → BotRun) (k : ℕ) (run : BotRun) (db : Db)
      → Keeps f
      → Repository.get k db ≡ some run
      → Repository.get k (Repository.save now (f run) db)
        ≡ some (record (f run) { updated_at = now })
  get_saved f k run db keep e =
      get-save now k (f run) db ∙ ground (arith, e, get_id k run db e, (keep run).0.same_id)

  module _ (retention_days : ℕ) (stored_at : Option Text) where
    end_run-IsSound :
        (e : Ending) (k : ℕ) (run : BotRun) (db : Db)
        → KeepRuns events
        → IsSound db
        → Repository.get k db ≡ some run
        → IsSound (end_run retention_days now stored_at events e k run db).1
    unfolding end_run time_run
    end_run-IsSound e k run db keeps h stored =
        let f = finished retention_days now stored_at e in
        let keep : Keeps f = finished-Keeps retention_days now stored_at e in
        let db' = Repository.save now (f run) db in
        let done : IsSound (advance events now k completed db').1 =
          advance-IsSound events now k completed db' keeps
            (save_kept f now k run db keep stored h) in
        bind-IsSound (advance events now k completed) (time_run retention_days now stored_at events)
          db' done
          (λ after e'.
            save_kept (timed retention_days now stored_at) now k after _
              (timed-Keeps retention_days now stored_at)
              (advance_returns k completed _ after db' keeps (get_saved f k run db keep stored) e')
              done)

    -- However a recording ends, `_complete` keeps the table of runs sound.
    pub complete-IsSound :
        (e : Ending) (k : ℕ) (db : Db)
        → KeepRuns events
        → IsSound db
        → IsSound (complete retention_days now stored_at events e k db).1
    unfolding complete
    complete-IsSound e k db keeps h =
        scope-IsSound (get k >>= end_run retention_days now stored_at events e k) db h (
          got (end_run retention_days now stored_at events e k) k db h
            (λ run stored. end_run-IsSound e k run db keeps h stored))

    blame_run-IsSound :
        (code : FailCode) (k : ℕ) (run : BotRun) (db : Db)
        → KeepRuns events
        → IsSound db
        → Repository.get k db ≡ some run
        → IsSound (blame_run retention_days now stored_at events code k run db).1
    unfolding blame_run
    blame_run-IsSound code k run db keeps h stored =
        let db' = Repository.save now (blamed code run) db in
        let done : IsSound (advance events now k failed db').1 =
          advance-IsSound events now k failed db' keeps
            (save_kept (blamed code) now k run db (blamed-Keeps code) stored h) in
        elim (Bool-cases (is_terminal run.status)) [
          | inl over ↦ rw over h
          | inr live ↦ rw live (
              bind-IsSound {A = BotRun} {B = Unit {0}} (advance events now k failed)
                (λ r d. (ok tt, d)) db' done (λ after e'. done))
        ]

    -- Whatever the code of a failure, the transaction of `fail_run` keeps the table of runs sound.
    pub blame-IsSound :
        (code : FailCode) (k : ℕ) (db : Db)
        → KeepRuns events
        → IsSound db
        → IsSound (blame retention_days now stored_at events code k db).1
    unfolding blame
    blame-IsSound code k db keeps h =
        got (blame_run retention_days now stored_at events code k) k db h
          (λ run stored. blame_run-IsSound code k run db keeps h stored)
