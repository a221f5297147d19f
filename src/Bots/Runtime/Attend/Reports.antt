-- ===== src/Bots/Runtime/Attend/Reports.antt =====
-- What `attend` (src/twin/bots/runtime.py) reports of a recording that could not be kept.
use Prim.Native.String.{String}
use fakery.Prelude.{
  ℕ, ◌≡◌, ◌∙◌, ap, refl, sym, Bool, Option, some, Text, if◌then◌else◌, inl, inr, arith,
}
use fakery.Core.Action.{Action, Result, ok, err, settle, ◌>>=◌, ◌>>◌}
use fakery.Bots.State.{BotStatus, completed}
use fakery.Bots.Models.{BotRun, Instant, Db}
use fakery.Bots.Repository
use fakery.Bots.Service.{EventSink, enter, get, advance}
use fakery.Bots.Service.Create.Once.{Result-cases}
use fakery.Bots.Service.Lifecycle.{
  KeepRuns, advance-Advanced, Advanced, stepped, repeated, refused, entered,
}
use fakery.Bots.Runtime.{Ending, finished, timed, time_run, end_run, complete, summarize}
use fakery.Bots.Runtime.Endings.{
  finished-Keeps, timed-Keeps, got_run, got_stored, get_saved, advance_returns, bind_ok, bind_err,
}
use fakery.Bots.Runtime.Attend.{gave, Meeting, persist_recording, conclude, ending}
use fakery.Meet.Join.{Joined}

-- An action that returned had each of its parts return.
bind_returned :
    {A B : Type 0} (m : Action Db A) (f : A → Action Db B) (db : Db) (b : B)
    → ((m >>= f) db).0 ≡ ok b
    → (a : A) × ((m db).0 ≡ ok a) × ((f a (m db).1).0 ≡ ok b) × ((m >>= f) db ≡ f a (m db).1)
bind_returned m f db b e = elim (Result-cases (m db).0) [
  | inl (a, fine) ↦
      (a, fine, ap (λ o. o.0) (sym (bind_ok m f db a fine)) ∙ e, bind_ok m f db a fine)
  | inr (x, bad) ↦ absurd (cc (ap (λ o. o.0) (bind_err m f db x bad), e))
]

settled_returned :
    {A : Type 0} (before : Db) (r : Result A × Db) (a : A)
    → (settle before r).0 ≡ ok a
    → (r.0 ≡ ok a) × (settle before r ≡ r)
settled_returned before (ok b, after) a e = (e, refl)
settled_returned before (err x, after) a e = absurd (cc e)

module _ (events : Option EventSink) (now : Instant) where
  entered_keeps_report :
      (target : BotStatus) (run : BotRun)
      → (entered target now run).finalization_status ≡ run.finalization_status
  unfolding enter
  entered_keeps_report target run = ground arith

  -- `advance` does not write how the recording was finalized.
  Advanced-keeps_report :
      (k : ℕ) (target : BotStatus) (db : Db) (run after : BotRun) (out : Result BotRun × Db)
      → Advanced events now k target db run out
      → out.0 ≡ ok after
      → after.finalization_status ≡ run.finalization_status
  Advanced-keeps_report k target db run after out (stepped legal) e =
      let same : entered target now run ≡ after = cc e in
      ap (λ (r : BotRun). r.finalization_status) (sym same) ∙ entered_keeps_report target run
  Advanced-keeps_report k target db run after out (repeated over same) e =
      let same : run ≡ after = cc e in ap (λ (r : BotRun). r.finalization_status) (sym same)
  Advanced-keeps_report k target db run after out (refused illegal other) e = absurd (cc e)

  module _ (retention_days : ℕ) (stored_at : Option Text) where
    timed_keeps_report :
        (run : BotRun)
        → (timed retention_days now stored_at run).finalization_status ≡ run.finalization_status
    unfolding timed
    timed_keeps_report run = ground arith

    abbrev reported : Ending → String
    reported e = if e.checkpoint_failed then "provider-failed" else "ready"

    finished_reports :
        (e : Ending) (run : BotRun)
        → (finished retention_days now stored_at e run).finalization_status ≡ reported e
    unfolding finished
    finished_reports e run = ground arith

    end_run_reports :
        (e : Ending) (k : ℕ) (run : BotRun) (db : Db)
        → KeepRuns events
        → Repository.get k db ≡ some run
        → (end_run retention_days now stored_at events e k run db).0 ≡ ok tt
        → (last : BotRun) × (Repository.get k
              (end_run retention_days now stored_at events e k run db).1
            ≡ some last)
          × (last.finalization_status ≡ reported e)
    unfolding end_run time_run
    end_run_reports e k run db keeps stored fine =
        let f = finished retention_days now stored_at e in
        let g = timed retention_days now stored_at in
        let db' = Repository.save now (f run) db in
        let (after, advanced, written, same) =
          bind_returned (advance events now k completed)
            (time_run retention_days now stored_at events) db' tt fine in
        let row =
          get_saved events now f k run db (finished-Keeps retention_days now stored_at e) stored in
        let kept = advance_returns events now k completed _ after db' keeps row advanced in
        (
          record (g after) { updated_at = now },
          ap (λ o. Repository.get k o.1) same
              ∙ get_saved events now g k after _ (timed-Keeps retention_days now stored_at) kept,
          timed_keeps_report after
              ∙ Advanced-keeps_report k completed db' _ after _
                  (advance-Advanced events now k completed _ db' row) advanced
              ∙ finished_reports e run,
        )

    complete_reports :
        (e : Ending) (k : ℕ) (db : Db)
        → KeepRuns events
        → (complete retention_days now stored_at events e k db).0 ≡ ok tt
        → (last : BotRun) × (Repository.get k
              (complete retention_days now stored_at events e k db).1
            ≡ some last)
          × (last.finalization_status ≡ reported e)
    unfolding complete
    complete_reports e k db keeps fine =
        let m = get k >>= end_run retention_days now stored_at events e k in
        let (returned, kept) = settled_returned db (m db) tt fine in
        let (run, found, ended, same) =
          bind_returned (get k) (end_run retention_days now stored_at events e k) db tt returned in
        let (last, row, status) =
          end_run_reports e k run (get k db).1 keeps (rw (got_run k db) (got_stored k run db found))
            ended in
        (last, ap (λ o. Repository.get k o.1) (kept ∙ same) ∙ row, status)

    -- If `attend` gets through the end of a meeting, the run is reported as finalized, "ready",
    -- whatever became of its recording: also where a checkpoint or the upload failed, so that the
    -- recording itself is stored as "degraded".
    pub conclude_reports_ready :
        (has_store : Bool) (k : ℕ) (meeting : Meeting) (audio : Text) (reason : Joined) (db : Db)
        → KeepRuns events
        → (conclude events now retention_days has_store stored_at k meeting audio reason db).0
          ≡ ok tt
        → (last : BotRun) × (Repository.get k
              (conclude events now retention_days has_store stored_at k meeting audio reason db).1
            ≡ some last)
          × (last.finalization_status ≡ "ready")
    unfolding conclude ending
    conclude_reports_ready has_store k meeting audio reason db keeps fine =
        let (a, persisted, rest, same) =
          bind_returned
            (persist_recording events now retention_days has_store stored_at k meeting audio reason)
            (λ a.
              gave meeting.left
              >> (summarize events now meeting.answers k
                  >> complete retention_days now stored_at events
                      (ending events now retention_days has_store stored_at meeting reason) k))
            db tt fine in
        let (l, has_left, after_left, same_left) =
          bind_returned (gave meeting.left)
            (λ l.
              summarize events now meeting.answers k
              >> complete retention_days now stored_at events
                  (ending events now retention_days has_store stored_at meeting reason) k)
            _ tt rest in
        let (b, summarized, completed_fine, same') =
          bind_returned (summarize events now meeting.answers k)
            (λ b.
              complete retention_days now stored_at events
                (ending events now retention_days has_store stored_at meeting reason) k)
            _ tt after_left in
        let (last, row, status) =
          complete_reports (ending events now retention_days has_store stored_at meeting reason) k _
            keeps completed_fine in
        (last, ap (λ o. Repository.get k o.1) (same ∙ same_left ∙ same') ∙ row, status)
