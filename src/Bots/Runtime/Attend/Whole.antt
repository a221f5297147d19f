-- ===== src/Bots/Runtime/Attend/Whole.antt =====
-- The whole of `attend` (src/twin/bots/runtime.py) keeps the table of runs sound.
use fakery.Prelude.{ℕ, refl, Bool, Option, none, some, Text}
use fakery.Core.Action.{Action, pure, session_scope}
use fakery.Bots.State.{joining, processing}
use fakery.Bots.Models.{Instant, Db}
use fakery.Bots.Service.{EventSink}
use fakery.Bots.Service.Artifacts.{store_recording}
use fakery.Meet.Join.{Joined}
use fakery.Storage.Checkpoints.{Restored}
use fakery.Bots.Runtime.{
  complete, blame, fail_run, FailCode, Ending, usable, recoverable, recover_checkpoint,
  store_recovered,
}
use fakery.Bots.Runtime.Endings.{complete-IsSound, blame-IsSound}
use fakery.Bots.Runtime.Attend.{Meeting, persist_recording, conclude, after_meeting, attend}
use fakery.Bots.Runtime.Attend.Soundness.{
  Sound, LeaveRuns, LeaveRuns→KeepRuns, pure-Sound, scope-Sound, bind-Sound, then-Sound, if-Sound,
  get-Sound, advance-Sound, change-Sound,
}
use fakery.Bots.Life.{Evolves}
use fakery.Bots.Life.Calls.{complete-Evolves, blame-Evolves}
use fakery.Bots.Life.Writes.{store_recovered-Sound}
use fakery.Bots.Runtime.Attend.Parts.{
  stored-Keeps, move-Sound, gave-Sound, closing-Sound, attend_and_record-Sound, summarize-Sound,
}

module _ (events : Option EventSink) (now : Instant) (leaves : LeaveRuns events) where
  module _ (retention_days : ℕ) (stored_at : Option Text) where
    complete-Sound : (e : Ending) (k : ℕ) → Sound (complete retention_days now stored_at events e k)
    complete-Sound e k = record {
      sound = λ db h.
          complete-IsSound events now retention_days stored_at e k db
            (LeaveRuns→KeepRuns events leaves) h;
      later = λ db.
          complete-Evolves events now retention_days stored_at (LeaveRuns→KeepRuns events leaves) e
            k db;
    }

    module _ (restore : Text → Option Restored) where
      found-Sound :
          (found : Option (Restored × Text)) (manifest_uri : Text) (k : ℕ)
          → Sound (elim found as (λ x. Action Db (Unit {0})) [
            | none ↦ pure tt
            | some f ↦
                session_scope
                  (store_recovered retention_days now stored_at events f.0 f.1 manifest_uri k)
          ])
      found-Sound none manifest_uri k = pure-Sound _
      found-Sound (some f) manifest_uri k =
          store_recovered-Sound events now retention_days stored_at f.0 f.1 manifest_uri k

      manifest-Sound :
          (uri : Option Text) (k : ℕ)
          → Sound (elim uri as (λ x. Action Db (Unit {0})) [
            | none ↦ pure tt
            | some manifest_uri ↦
                elim (usable retention_days now stored_at events restore manifest_uri) [
                  | none ↦ pure tt
                  | some f ↦
                      session_scope
                        (store_recovered retention_days now stored_at events f.0 f.1 manifest_uri k)
                ]
          ])
      manifest-Sound none k = pure-Sound _
      manifest-Sound (some m) k =
          found-Sound (usable retention_days now stored_at events restore m) m k

      recover_checkpoint-Sound :
          (k : ℕ) → Sound (recover_checkpoint retention_days now stored_at events restore k)
      unfolding recover_checkpoint
      recover_checkpoint-Sound k =
          bind-Sound _ _ (get-Sound k) (λ run. manifest-Sound (recoverable run) k)

      blame-Sound :
          (code : FailCode) (k : ℕ) → Sound (blame retention_days now stored_at events code k)
      blame-Sound code k = record {
        sound = λ db h.
            blame-IsSound events now retention_days stored_at code k db
              (LeaveRuns→KeepRuns events leaves) h;
        later = λ db.
            blame-Evolves events now retention_days stored_at (LeaveRuns→KeepRuns events leaves)
              code k db;
      }

      fail_run-Sound :
          (code : FailCode) (k : ℕ)
          → Sound (fail_run retention_days now stored_at events restore code k)
      unfolding fail_run
      fail_run-Sound code k =
          then-Sound _ _ (recover_checkpoint-Sound k) (scope-Sound _ (blame-Sound code k))

      module _ (has_store : Bool) where
        persist_recording-Sound :
            (k : ℕ) (meeting : Meeting) (audio : Text) (reason : Joined)
            → Sound (
                persist_recording events now retention_days has_store stored_at k meeting audio
                  reason)
        unfolding persist_recording store_recording
        persist_recording-Sound k meeting audio reason = scope-Sound _ (
            then-Sound _ _
              (if-Sound _ _ _
                (then-Sound _ _ (change-Sound events now _ k (stored-Keeps _) (λ run. refl))
                  (pure-Sound _))
                (pure-Sound _))
              (then-Sound _ _
                (advance-Sound events now k processing (LeaveRuns→KeepRuns events leaves))
                (pure-Sound _)))

        conclude-Sound :
            (k : ℕ) (meeting : Meeting) (audio : Text) (reason : Joined)
            → Sound (conclude events now retention_days has_store stored_at k meeting audio reason)
        unfolding conclude
        conclude-Sound k meeting audio reason =
            then-Sound _ _ (persist_recording-Sound k meeting audio reason) (
              then-Sound _ _ (gave-Sound meeting.left) (
                then-Sound _ _ (summarize-Sound events now leaves meeting.answers k)
                  (complete-Sound _ k)))

        after_meeting-Sound :
            (k : ℕ) (meeting : Meeting) (attended : Text × Joined)
            → Sound (
                after_meeting events now retention_days has_store stored_at restore k meeting
                  attended)
        unfolding after_meeting
        after_meeting-Sound k meeting (audio, reason) =
            if-Sound _ _ _
              (bind-Sound _ _ (scope-Sound _ (get-Sound k)) (λ run.
                if-Sound _ _ _ (conclude-Sound k meeting audio reason) (fail_run-Sound _ k)))
              (conclude-Sound k meeting audio reason)

        attend-Sound :
            (k : ℕ) (meeting : Meeting)
            → Sound (attend events now retention_days has_store stored_at restore k meeting)
        unfolding attend
        attend-Sound k meeting = then-Sound _ _ (gave-Sound meeting.restored) (
            then-Sound _ _ (move-Sound events now leaves k joining) (
              closing-Sound meeting.closed _ (
                then-Sound _ _ (gave-Sound meeting.opened) (
                  bind-Sound _ _ (attend_and_record-Sound events now leaves k meeting)
                    (λ attended. after_meeting-Sound k meeting attended)))))

        -- Nor does it lose a run, or take one off the transitions of the state machine: every run that
        -- was stored is stored in a later version, under the same condition.
        pub attend-Evolves :
            (k : ℕ) (meeting : Meeting) (db : Db)
            → Evolves db
                (attend events now retention_days has_store stored_at restore k meeting db).1
        attend-Evolves k meeting db = (attend-Sound k meeting).later db
