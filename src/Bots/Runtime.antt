-- ===== src/Bots/Runtime.antt =====
-- How a run ends in src/twin/bots/runtime.py: `fail_run`, `_complete` and `_summarize`. `restore`
-- is `restore_prefix` (src/twin/storage/checkpoints.py) on a manifest, none where it raises;
-- `stored_at` is where `blob.put` put the recording of the run, none where it raised or, in
-- `_complete`, where there is no store.
pub mod Checkpoints
pub mod Attend
pub mod Endings
pub mod Job
pub mod Chunks
pub mod Process
use Prim.Native.String.{String, compare}
use Prim.Native.Nat.{Ordering}
use fakery.Prelude.{
  ℕ, ◌+◌, ◌-◌, ◌/◌, Bool, true, false, ◌||◌, Option, none, some, List, [], ◌∷◌, Text, if◌then◌else◌,
  is_some, length, ◌==◌, take,
}
use fakery.Core.Action.{Action, pure, modify, ◌>>=◌, ◌>>◌, session_scope}
use fakery.Bots.State.{joined, recording, processing, completed, failed, is_in}
use fakery.Bots.Models.{TranscriptSegment, BotRun, Instant, Db, days}
use fakery.Bots.MeetingUrl.{is_filled}
use fakery.Bots.Repository
use fakery.Bots.Service.{MeetingNotes, EventSink, RecordingArtifact, is_terminal, get, advance}
use fakery.Bots.Service.Artifacts.{
  store_recording, store_notes, set_artifact_status, transcript, notes,
}
use fakery.Storage.Checkpoints.{Restored}

-- The code of a failure; two of them are reasons of their own.
pub data FailCode : Type 0 where
  cancelled shutdown : FailCode
  other : String → FailCode

abbrev pub code_text : FailCode → String
code_text cancelled = "cancelled"
code_text shutdown = "shutdown"
code_text (other s) = s

abbrev pub reason_of : FailCode → String
reason_of cancelled = "cancelled"
reason_of shutdown = "shutdown"
reason_of (other s) = "failure"

-- The run as `fail_run` marks it.
unfoldable pub blamed : FailCode → BotRun → BotRun
blamed code run = record run {
  error_code = some (code_text code);
  stop_reason = some (reason_of code);
}

-- A manifest that may be recovered: the run was let in and is not over.
unfoldable pub recoverable : BotRun → Option Text
recoverable run = elim run.checkpoint_manifest_uri [
  | none ↦ none
  | some uri ↦
      if is_filled uri
      then (if is_in run.status (joined ∷ recording ∷ processing ∷ []) then some uri else none)
      else none
]

abbrev pub string_eq : String → String → Bool
string_eq a b = elim (compare a b) [ Ordering.eq ↦ true | _ ↦ false ]

-- What the end of a recording knows.
pub record Ending : Type 0 where
  pub audio : Text
  pub checksum : Text
  pub was_cancelled : Bool
  pub checkpoint_uri : Option Text
  pub checkpoint_failed : Bool
  pub stop_reason : Option String

abbrev pub reason_or : Option String → String → String
reason_or none s = s
reason_or (some r) s = r

module _ (retention_days : ℕ) (now : Instant) (stored_at : Option Text) where
  -- The recording's fields, as `_complete` sets them; without a blob store the URI stays.
  unfoldable pub with_recording : Ending → BotRun → BotRun
  with_recording e run =
      if is_filled e.audio
      then record run {
        recording_sha256 = some e.checksum;
        recording_bytes = some (length e.audio);
        recording_expires_at = some (now + days retention_days);
        recording_status =
            if e.checkpoint_failed
            then "degraded"
            else if e.was_cancelled
            then "partial"
            else "ready";
        recording_partial = e.was_cancelled || e.checkpoint_failed;
        recording_uri = elim stored_at [ none ↦ run.recording_uri | some uri ↦ some uri ];
      }
      else if string_eq run.recording_status "pending"
      then record run { recording_status = "no-audio" }
      else run

  unfoldable pub finished : Ending → BotRun → BotRun
  finished e run =
      let recorded = with_recording e run in
      let kept = record recorded {
        checkpoint_manifest_uri = elim e.checkpoint_uri [
          | none ↦ recorded.checkpoint_manifest_uri
          | some uri ↦ some uri
        ];
        finalization_status = if e.checkpoint_failed then "provider-failed" else "ready";
      } in
      if e.was_cancelled
      then record kept {
        error_code = some "cancelled";
        stop_reason = some (reason_or e.stop_reason "cancelled");
      }
      else kept

  -- `recording_duration_ms`, where both times are known.
  unfoldable pub timed : BotRun → BotRun
  timed run = elim run.joined_at [
    | none ↦ run
    | some joined_at ↦ elim run.left_at [
      | none ↦ run
      | some left_at ↦ record run { recording_duration_ms = some ((left_at - joined_at) / 1000) }
    ]
  ]

  module _ (events : Option EventSink) where
    unfoldable pub time_run : BotRun → Action Db (Unit {0})
    time_run run = modify (Repository.save now (timed run))

    unfoldable pub end_run : Ending → ℕ → BotRun → Action Db (Unit {0})
    end_run e bot_id run = do
      modify (Repository.save now (finished e run))
      after ← advance events now bot_id completed
      time_run after

    -- `_complete`
    unfoldable pub complete : Ending → ℕ → Action Db (Unit {0})
    complete e bot_id = session_scope (get bot_id >>= end_run e bot_id)

    unfoldable pub blame_run : FailCode → ℕ → BotRun → Action Db (Unit {0})
    blame_run code bot_id run = if is_terminal run.status then pure tt else (do
      modify (Repository.save now (blamed code run))
      advance events now bot_id failed
      pure tt)

    -- The transaction of `fail_run`.
    unfoldable pub blame : FailCode → ℕ → Action Db (Unit {0})
    blame code bot_id = get bot_id >>= blame_run code bot_id

    -- The last transaction of `_recover_checkpoint`.
    unfoldable pub store_recovered : Restored → Text → Text → ℕ → Action Db (Unit {0})
    store_recovered restored uri manifest_uri bot_id = do
      run ← store_recording events now bot_id (record {
        uri = some uri;
        sha256 = restored.checksum;
        size = length restored.prefix;
        status = "partial";
        partial = true;
        expires_at = now + days retention_days;
        checkpoint_manifest_uri = some manifest_uri;
      })
      modify (Repository.save now (record run { finalization_status = "recovered" }))

    -- What is recovered under a manifest: nothing where the store raises or the recording is empty.
    unfoldable pub usable : (Text → Option Restored) → Text → Option (Restored × Text)
    usable restore manifest_uri = elim (restore manifest_uri) [
      | none ↦ none
      | some restored ↦
          if is_filled restored.prefix
          then elim stored_at [ none ↦ none | some uri ↦ some (restored, uri) ]
          else none
    ]

    -- `_recover_checkpoint`, with a blob store
    unfoldable pub recover_checkpoint : (Text → Option Restored) → ℕ → Action Db (Unit {0})
    recover_checkpoint restore bot_id = do
      run ← get bot_id
      elim (recoverable run) [
        | none ↦ pure tt
        | some manifest_uri ↦ elim (usable restore manifest_uri) [
          | none ↦ pure tt
          | some found ↦ session_scope (store_recovered found.0 found.1 manifest_uri bot_id)
        ]
      ]

    unfoldable pub fail_run : (Text → Option Restored) → FailCode → ℕ → Action Db (Unit {0})
    fail_run restore code bot_id = do
      recover_checkpoint restore bot_id
      session_scope (blame code bot_id)

-- `_summarize`; `answers` are what the attempts at `summarize_segments` give, none where one raises or
-- takes too long.
abbrev pub summary_attempts : ℕ
summary_attempts = 3

unfoldable pub first_answer : List (Option MeetingNotes) → Option MeetingNotes
first_answer [] = none
first_answer (none ∷ rest) = first_answer rest
first_answer (some meeting_notes ∷ rest) = some meeting_notes

module _ (events : Option EventSink) (now : Instant) where
  -- `_set_artifact_status` of the notes
  unfoldable pub set_notes_status : ℕ → String → Option String → Action Db (Unit {0})
  set_notes_status bot_id status error =
      session_scope (do set_artifact_status events now bot_id notes status error; pure tt)

  unfoldable pub keep_notes : ℕ → Option MeetingNotes → Action Db (Unit {0})
  keep_notes bot_id none = set_notes_status bot_id "provider-failed" (some "exhausted")
  keep_notes bot_id (some meeting_notes) = do
    session_scope (store_notes events now bot_id meeting_notes)
    set_notes_status bot_id "ready" none

  unfoldable pub summarize :
      Option (List TranscriptSegment → List (Option MeetingNotes)) → ℕ → Action Db (Unit {0})
  summarize none bot_id = set_notes_status bot_id "disabled" none
  summarize (some answers) bot_id = do
    rows ← session_scope (transcript bot_id)
    if length rows == 0
        then set_notes_status bot_id "silence" none
        else keep_notes bot_id (first_answer (take summary_attempts (answers rows)))
