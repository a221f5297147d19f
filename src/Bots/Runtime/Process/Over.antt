-- ===== src/Bots/Runtime/Process/Over.antt =====
-- `_run` of src/twin/bot_run.py and `attend` (src/twin/bots/runtime.py): the run is over when they end.
use fakery.Prelude.{
  ℕ, ◌≡◌, ◌≢◌, ◌∙◌, ap, refl, Bool, true, false, Option, none, some, Text, if◌then◌else◌,
  Option-cases, inl, inr, arith,
}
use fakery.Core.Errors.{
  Error, join_failed, twin, value_error, zero_division, integrity_error, external,
}
use fakery.Core.Action.{Action, Result, ok, err, session_scope, settle, ◌>>=◌, ◌>>◌}
use fakery.Bots.State.{BotStatus, joining, completed}
use fakery.Bots.Models.{BotRun, Instant, Db}
use fakery.Bots.Repository
use fakery.Bots.Service.{EventSink, is_terminal, enter, get, advance}
use fakery.Bots.Service.Lifecycle.{KeepRuns, advance-Advanced, Advanced, stepped, repeated, refused}
use fakery.Bots.Runtime.{
  Ending, FailCode, finished, timed, time_run, end_run, complete, recover_checkpoint, fail_run,
  summarize,
}
use fakery.Bots.Runtime.Endings.{
  advance_returns, get_saved, finished-Keeps, timed-Keeps, got_stored, got_run,
}
use fakery.Bots.Runtime.Attend.{
  Meeting, move, gave, closing, attend_and_record, persist_recording, ending, conclude,
  after_meeting, attend,
}
use fakery.Bots.Runtime.Attend.Soundness.{LeaveRuns, LeaveRuns→KeepRuns}
use fakery.Bots.Runtime.Attend.Whole.{attend-Evolves}
use fakery.Bots.Runtime.Job.Fails.{IsOver, fail_run-IsOver}
use fakery.Bots.Runtime.Process.{Stage, launch, browser_open, excepted, attended, launched, run}
use fakery.Meet.Join.{Joined}
use fakery.Storage.Checkpoints.{Restored}

-- A call after which the run is over, if it returns.
pub record Ends {A : Type 0} (k : ℕ) (m : Action Db A) : Type 0 where
  pub ends : (db : Db) (a : A) → (m db).0 ≡ ok a → IsOver k (m db).1

module _ (k : ℕ) where
  bound-Ends :
      {A B : Type 0} (f : A → Action Db B) (r : Result A) (db : Db) (b : B)
      → ((a : A) → Ends k (f a))
      → let out : Result B × Db = elim r [ ok a ↦ f a db | err e ↦ (err e, db) ] in
        out.0 ≡ ok b → IsOver k out.1
  bound-Ends f (ok a) db b h e = (h a).ends db b e
  bound-Ends f (err x) db b h e = absurd (cc e)

  bind-Ends :
      {A B : Type 0} (m : Action Db A) (f : A → Action Db B)
      → ((a : A) → Ends k (f a))
      → Ends k (m >>= f)
  bind-Ends m f h = record { ends = λ db b e. bound-Ends f (m db).0 (m db).1 b h e }

  then-Ends : {A B : Type 0} (m : Action Db A) (n : Action Db B) → Ends k n → Ends k (m >> n)
  then-Ends m n h = bind-Ends m (λ a. n) (λ a. h)

  if-Ends :
      {A : Type 0} (b : Bool) (m n : Action Db A)
      → Ends k m
      → Ends k n
      → Ends k (if b then m else n)
  if-Ends true m n h g = h
  if-Ends false m n h g = g

  settled_ends :
      {A : Type 0} (before : Db) (r : Result A × Db) (a : A)
      → ((b : A) → r.0 ≡ ok b → IsOver k r.1)
      → (settle before r).0 ≡ ok a
      → IsOver k (settle before r).1
  settled_ends before (ok b, after) a h e = h b refl
  settled_ends before (err x, after) a h e = absurd (cc e)

  scope-Ends : {A : Type 0} (m : Action Db A) → Ends k m → Ends k (session_scope m)
  scope-Ends m h = record { ends = λ db a e. settled_ends db (m db) a (h.ends db) e }

  closing-Ends :
      (closed : Result (Unit {0})) (m : Action Db (Unit {0})) → Ends k m → Ends k (closing closed m)
  closing-Ends (ok u) m h = record { ends = h.ends }
  closing-Ends (err e) m h = record { ends = λ db a r. absurd (cc r) }

module _ (events : Option EventSink) (now : Instant) (keeps : KeepRuns events) (k : ℕ) where
  Advanced-status :
      (target : BotStatus) (run after : BotRun) (db : Db) (out : Result BotRun × Db)
      → Advanced events now k target db run out
      → out.0 ≡ ok after
      → after.status ≡ target
  unfolding enter
  Advanced-status target run after db out (stepped legal) h = ground (arith, h)
  Advanced-status target run after db out (repeated over same) h = ground (arith, h, same)
  Advanced-status target run after db out (refused illegal other) h = absurd (cc h)

  module _ (retention_days : ℕ) (stored_at : Option Text) where
    timed_status : (run : BotRun) → (timed retention_days now stored_at run).status ≡ run.status
    unfolding timed
    timed_status run = ground arith

    completed_over : is_terminal completed ≡ true
    unfolding is_terminal
    completed_over = refl

    end_run-IsOver :
        (e : Ending) (run : BotRun) (db : Db)
        → Repository.get k db ≡ some run
        → (end_run retention_days now stored_at events e k run db).0 ≡ ok tt
        → IsOver k (end_run retention_days now stored_at events e k run db).1
    unfolding end_run time_run
    end_run-IsOver e run db stored h =
        let f = finished retention_days now stored_at e in
        let mid = Repository.save now (f run) db in
        let here =
          get_saved events now f k run db (finished-Keeps retention_days now stored_at e) stored in
        ended mid (record (f run) { updated_at = now }) here (advance events now k completed mid).0
          refl h
      where
        ended :
            (mid : Db) (marked : BotRun)
            → Repository.get k mid ≡ some marked
            → (r : Result BotRun) → (advance events now k completed mid).0 ≡ r
            → let out : Result (Unit {0}) × Db = elim r [
              | ok after ↦
                  time_run retention_days now stored_at events after
                    (advance events now k completed mid).1
              | err x ↦ (err x, (advance events now k completed mid).1)
            ] in
              out.0 ≡ ok tt → IsOver k out.1
        ended mid marked here (err x) e h = absurd (cc h)
        ended mid marked here (ok after) e h =
            let done = (advance events now k completed mid).1 in
            let stored' = advance_returns events now k completed marked after mid keeps here e in
            let same =
              Advanced-status completed marked after mid _
                (advance-Advanced events now k completed marked mid here) e in
            (
              record (timed retention_days now stored_at after) { updated_at = now },
              get_saved events now (timed retention_days now stored_at) k after done
                  (timed-Keeps retention_days now stored_at) stored',
              ap is_terminal (timed_status after ∙ same) ∙ completed_over,
            )

    complete-Ends : (e : Ending) → Ends k (complete retention_days now stored_at events e k)
    unfolding complete
    complete-Ends e =
        scope-Ends k (get k >>= end_run retention_days now stored_at events e k)
          (record { ends = λ db a h. opened db a h })
      where
        opened :
            (db : Db) (a : Unit {0})
            → ((get k >>= end_run retention_days now stored_at events e k) db).0 ≡ ok a
            → IsOver k ((get k >>= end_run retention_days now stored_at events e k) db).1
        opened db a h = found (get k db).0 refl (get k db).1 (got_run k db) h
          where
            found :
                (r : Result BotRun)
                → (get k db).0 ≡ r
                → (db' : Db) → db' ≡ db
                → let out : Result (Unit {0}) × Db = elim r [
                  | ok run ↦ end_run retention_days now stored_at events e k run db'
                  | err x ↦ (err x, db')
                ] in
                  out.0 ≡ ok a → IsOver k out.1
            found (err x) g db' same h = absurd (cc h)
            found (ok run) g db' same h =
                end_run-IsOver e run db' (ap (Repository.get k) same ∙ got_stored k run db g) h

    module _ (restore : Text → Option Restored) where
      fail_run_missing :
          (code : FailCode) (db : Db)
          → Repository.get k db ≡ none
          → (fail_run retention_days now stored_at events restore code k db).0 ≢ ok tt
      unfolding fail_run recover_checkpoint get
      fail_run_missing code db e h = ground (arith, e, h)

      fail_run-Ends :
          (code : FailCode) → Ends k (fail_run retention_days now stored_at events restore code k)
      fail_run-Ends code = record {
        ends = λ db a h. elim (Option-cases (Repository.get k db)) [
          | inl missing ↦ absurd (fail_run_missing code db missing h)
          | inr (run, e) ↦
              (fail_run-IsOver retention_days now stored_at events keeps restore k run db e code).1
        ];
      }

      module _ (has_store : Bool) (meeting : Meeting) where
        conclude-Ends :
            (audio : Text) (reason : Joined)
            → Ends k (conclude events now retention_days has_store stored_at k meeting audio reason)
        unfolding conclude
        conclude-Ends audio reason =
            then-Ends k
              (persist_recording events now retention_days has_store stored_at k meeting audio
                reason)
              _
              (then-Ends k (gave meeting.left) _ (
                then-Ends k (summarize events now meeting.answers k) _ (
                  complete-Ends
                    (ending events now retention_days has_store stored_at meeting reason))))

        after_meeting-Ends :
            (attended : Text × Joined)
            → Ends k (
                after_meeting events now retention_days has_store stored_at restore k meeting
                  attended)
        unfolding after_meeting
        after_meeting-Ends (audio, reason) =
            if-Ends k _ _ _
              (bind-Ends k (session_scope (get k)) _
                (λ run. if-Ends k _ _ _ (conclude-Ends audio reason) (fail_run-Ends _)))
              (conclude-Ends audio reason)

        -- When `attend` returns, the run is over, if the event sink leaves the runs alone when it is told
        -- of a status.
        pub attend-Ends :
            Ends k (attend events now retention_days has_store stored_at restore k meeting)
        unfolding attend
        attend-Ends = then-Ends k (gave meeting.restored) _ (
            then-Ends k (move events now k joining) _ (
              closing-Ends k meeting.closed _ (
                then-Ends k (gave meeting.opened) _
                  (bind-Ends k (attend_and_record events now k meeting) _ after_meeting-Ends))))

module _ (events : Option EventSink) (now : Instant) (leaves : LeaveRuns events)
    (retention_days : ℕ) (has_store : Bool) (stored_at : Option Text)
    (restore : Text → Option Restored) (k : ℕ) (is_timeout : Error → Bool)
    (wording : Error → Text) where
  abbrev keeps : KeepRuns events
  keeps = LeaveRuns→KeepRuns events leaves

  abbrev except : Stage → Error → Action Db ℕ
  except = excepted events now retention_days has_store stored_at restore k is_timeout wording

  coded :
      (r : Result (Unit {0}))
      → (db' : Db) → IsOver k db'
      → let out : Result ℕ × Db = elim r [ ok u ↦ (ok 0, db') | err e ↦ (err e, db') ] in
        IsOver k out.1
  coded (ok u) db' h = h
  coded (err e) db' h = h

  excepted-IsOver :
      (stage : Stage) (e : Error) (run : BotRun) (db : Db)
      → Repository.get k db ≡ some run
      → IsOver k (except stage e db).1
  unfolding excepted
  excepted-IsOver stage e run db stored = by_error e
    where
      over :
          (code : FailCode)
          → IsOver k (fail_run retention_days now stored_at events restore code k db).1
      over code =
          (fail_run-IsOver retention_days now stored_at events keeps restore k run db stored code).1

      by_error : (e : Error) → IsOver k (except stage e db).1
      by_error (join_failed code) = coded _ _ (over _)
      by_error (twin x) = over _
      by_error value_error = over _
      by_error zero_division = over _
      by_error integrity_error = over _
      by_error (external x) = over _

  attended-IsOver :
      (meeting : Meeting) (run : BotRun) (db : Db)
      → Repository.get k db ≡ some run
      → IsOver k
          (attended events now retention_days has_store stored_at restore k is_timeout wording
            meeting db).1
  unfolding attended
  attended-IsOver meeting r db stored =
      let act = attend events now retention_days has_store stored_at restore k meeting in
      let ends =
        attend-Ends events now keeps k retention_days stored_at restore has_store meeting in
      let (run', here, f) =
        (attend-Evolves events now leaves retention_days stored_at restore has_store k meeting
            db).kept
          k r stored in
      outcome (act db).0 (act db).1 (λ u e. ends.ends db u e) run' here
    where
      outcome :
          (r : Result (Unit {0})) (db' : Db)
          → ((u : Unit {0}) → r ≡ ok u → IsOver k db')
          → (run' : BotRun) → Repository.get k db' ≡ some run'
          → let out : Result ℕ × Db = elim r [
            | ok u ↦ (ok 0, db')
            | err e ↦ except browser_open e db'
          ] in
            IsOver k out.1
      outcome (ok u) db' h run' here = h u refl
      outcome (err e) db' h run' here = excepted-IsOver browser_open e run' db' here

  got_now : (run : BotRun) (db : Db) → Repository.get k db ≡ some run → (get k db).0 ≡ ok run
  unfolding get
  got_now run db e = ground (arith, e)

  run_attends :
      (u : Unit {0}) (meeting : Meeting) (stored : BotRun) (db : Db)
      → Repository.get k db ≡ some stored
      → launched events now retention_days has_store stored_at restore k is_timeout wording
          (ok u)
          meeting
          db
        ≡ attended events now retention_days has_store stored_at restore k is_timeout wording
            meeting db
  unfolding launched
  run_attends u meeting stored db here = ground (arith, got_now stored db here)

  launched-IsOver :
      (prepared : Result (Unit {0})) (meeting : Meeting) (stored : BotRun) (db : Db)
      → Repository.get k db ≡ some stored
      → IsOver k
          (launched events now retention_days has_store stored_at restore k is_timeout wording
            prepared meeting db).1
  unfolding launched
  launched-IsOver (err e) meeting stored db here = excepted-IsOver launch e stored db here
  launched-IsOver (ok u) meeting stored db here =
      rw (run_attends u meeting stored db here) (attended-IsOver meeting stored db here)

  abbrev pub Left : Result (Unit {0}) → Db → Result ℕ × Db → Type 0
  Left (ok u) db out = IsOver k out.1
  Left (err e) db out = out ≡ (err e, db)

  -- A job's process leaves its run over, if the run was stored when it began and the set-up before the
  -- `try` returned: whatever the launch, the browser, the meeting and the providers give or raise, and
  -- whether it attends, fails or is stopped; the event sink leaves the runs alone. If the set-up raises,
  -- the process ends with that exception, and the run stays as it was.
  pub run-IsOver :
      (set_up prepared : Result (Unit {0})) (meeting : Meeting) (stored : BotRun) (db : Db)
      → Repository.get k db ≡ some stored
      → Left set_up db (
          run events now retention_days has_store stored_at restore k is_timeout wording set_up
            prepared meeting db)
  unfolding run
  run-IsOver (ok u) prepared meeting stored db here =
      launched-IsOver prepared meeting stored db here
  run-IsOver (err e) prepared meeting stored db here = refl
