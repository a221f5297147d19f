-- ===== src/Bots/Service.antt =====
-- `BotService` of src/twin/bots/service.py, on the repository of `Bots/Repository`. `events` is
-- `self._events`, and `now` what `self._clock()` says during the call.
pub mod Create
pub mod Runs
pub mod Lifecycle
pub mod Cancel
pub mod Artifacts
use Prim.Native.String.{String}
use fakery.Prelude.{ℕ, Bool, Option, none, some, List, [], ◌∷◌, Text, if◌then◌else◌}
use fakery.Core.Errors.{conflict, not_found, twin, make_error}
use fakery.Core.Action.{Action, pure, raise, modify, or_raise, ◌>>=◌, ◌>>◌}
use fakery.Bots.State.{BotStatus, joined, completed, failed, status_eq, is_in, require_transition}
use fakery.Bots.Models.{BotRun, TranscriptSegment, ActionItem, Instant, Db}
use fakery.Bots.Repository

-- `EventSink` (src/twin/webhooks/dispatch.py): what the service tells of its writes.
pub record EventSink : Type 0 where
  pub status_changed : ℕ → BotStatus → Db → Db
  pub transcript_segment : TranscriptSegment → Db → Db
  pub notes_completed : ℕ → Db → Db

-- A recording as `store_recording` takes it.
pub record RecordingArtifact : Type 0 where
  pub uri : Option Text
  pub sha256 : Text
  pub size : ℕ
  pub status : String
  pub partial : Bool
  pub expires_at : Instant
  pub checkpoint_manifest_uri : Option Text

-- `Segment` of src/twin/transcription/transcriber.py
pub record Segment : Type 0 where
  pub text : Text
  pub start_ms : ℕ
  pub end_ms : ℕ
  pub final : Bool
  pub speaker : Option Text

-- `MeetingNotes` of src/twin/notes/summarizer.py
pub record MeetingNotes : Type 0 where
  pub summary : Text
  pub key_points : List Text
  pub action_items : List ActionItem

unfoldable pub is_terminal : BotStatus → Bool
is_terminal s = is_in s (completed ∷ failed ∷ [])

abbrev pub or_else {ℓ} : {A : Type ℓ} → Option A → A → Option A
or_else none a = some a
or_else (some b) a = some b

unfoldable pub get : ℕ → Action Db BotRun
get bot_id db = or_raise (Repository.get bot_id db) not_found db

-- The fields that `advance` sets with the target.
unfoldable pub enter : BotStatus → Instant → BotRun → BotRun
unfolding is_terminal
enter target now run =
    let joined_run = record run {
      status = target;
      joined_at = if status_eq target joined then or_else run.joined_at now else run.joined_at;
    } in
    if is_terminal target
    then record joined_run {
      left_at = some now;
      stop_reason =
          if status_eq target failed then or_else run.stop_reason "failure" else run.stop_reason;
    }
    else joined_run

module _ (events : Option EventSink) (now : Instant) where
  -- `if self._events is not None: await self._events.status_changed(…)`
  unfoldable pub tell_status : ℕ → BotStatus → Db → Db
  tell_status bot_id status db = elim events [
    | none ↦ db
    | some sink ↦ sink.status_changed bot_id status db
  ]

  unfoldable pub advance : ℕ → BotStatus → Action Db BotRun
  unfolding enter tell_status require_transition is_terminal
  advance bot_id target = do
    run ← λ db. or_raise (Repository.get bot_id db) not_found db
    if is_terminal run.status
        then (if status_eq run.status target then pure run else raise (twin (make_error conflict)))
        else do
          λ db. (require_transition run.status target, db)
          modify (Repository.save now (enter target now run))
          modify (tell_status bot_id target)
          pure (record (enter target now run) { updated_at = now })

  -- A cancelled run is marked, and the mark is a change of the run that `advance` reads.
  unfoldable pub cancel : ℕ → Action Db BotRun
  unfolding get advance
  cancel bot_id = do
    run ← get bot_id
    if is_terminal run.status then pure run else do
      modify (
          Repository.save now
            (record run { error_code = some "cancelled"; stop_reason = some "cancelled" }))
      advance bot_id failed
