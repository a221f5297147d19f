-- ===== src/Bots/Runtime/Attend.antt =====
-- `attend` and `_attend_and_record` of src/twin/bots/runtime.py, on the database. What the browser,
-- the recorder and the providers gave is a `Meeting`. The live segments are stored in the order in
-- which they came, before the meeting ends, and so are the manifests of the checkpoints; no other
-- process writes the run meanwhile. An awaited call that does not touch the database is a `Result` of
-- the meeting: what it returned, or the exception that it raised.
pub mod Soundness
pub mod Parts
pub mod Reports
pub mod Whole
use Prim.Native.String.{String}
use fakery.Prelude.{
  ℕ, Bool, true, false, ◌+◌, ◌&&◌, ◌||◌, not, Option, none, some, List, [], ◌∷◌, map, Text,
  if◌then◌else◌, is_some, length, ◌==◌, ltb,
}
use fakery.Core.Errors.{Error, join_failed, zero_division}
use fakery.Core.Action.{Action, Result, ok, err, pure, raise, ◌>>=◌, ◌>>◌, session_scope}
use fakery.Bots.State.{BotStatus, joining, joined, recording, processing, is_in}
use fakery.Bots.Models.{TranscriptSegment, Instant, Db, days}
use fakery.Bots.MeetingUrl.{is_filled}
use fakery.Bots.Service.{Segment, EventSink, MeetingNotes, RecordingArtifact, get, advance}
use fakery.Bots.Service.Artifacts.{
  ingest_segment, annotate_speakers, store_recording, set_checkpoint_manifest, set_artifact_status,
  transcript, transcription,
}
use fakery.Bots.Merge.{confident_split, uncovered_batch_segments}
use fakery.Bots.Runtime.{
  Ending, FailCode, cancelled, shutdown, code_text, complete, fail_run, summarize,
}
use fakery.Meet.Join.{Joined, join_error}
use fakery.Storage.Checkpoints.{Restored}

-- `_requested_stop_reason`
unfoldable pub requested_stop_reason : Bool → Bool → Option FailCode
requested_stop_reason is_shutdown is_cancelled =
    if is_shutdown then some shutdown else if is_cancelled then some cancelled else none

-- `_should_stop`; `is_cancelled` is none without Redis.
unfoldable pub should_stop : Bool → Option Bool → Bool
should_stop is_shutdown none = is_shutdown
should_stop is_shutdown (some is_cancelled) = is_shutdown || is_cancelled

-- `LiveTranscriptionResult`
pub record Live : Type 0 where
  pub finals : ℕ
  pub error : Option String

-- What one meeting gave: `restored` is what `_restore_profile` gave, `opened` `CloakBrowser.open`,
-- `knock` `join_meeting`, `admission` and `end` the two waits, `stopped` `recorder.stop`,
-- `left` `leave_meeting` and `closed` `browser.close`. `manifests` are the URIs that the checkpoints gave
-- while the meeting went on, `last_manifests` those of the recorder's stop. The batch is none where the
-- provider raised or took too long; `fresh` is what `uuid4` draws for the row of a segment.
pub record Meeting : Type 0 where
  pub restored : Result (Unit {0})
  pub opened : Result (Unit {0})
  pub knock : Result Joined
  pub admission : Result Joined
  pub end : Result Joined
  pub stopped : Result (Unit {0})
  pub left : Result (Unit {0})
  pub closed : Result (Unit {0})
  pub manifests : List Text
  pub last_manifests : List Text
  pub record_audio : Bool
  pub has_transcriber : Bool
  pub diarizes : Bool
  pub live_segments : List Segment
  pub live_failed : Bool
  pub live : Live
  pub batch : Option (List Segment)
  pub audio : Text
  pub checksum : Text
  pub checkpoint_uri : Option Text
  pub checkpoint_failed : Bool
  pub fresh : Segment → ℕ
  pub answers : Option (List TranscriptSegment → List (Option MeetingNotes))
  pub stop_reason : Option FailCode

-- What the recorder gave: nothing where the audio is not recorded.
abbrev pub recorded : Meeting → Text
recorded meeting = if meeting.record_audio then meeting.audio else []

abbrev pub is_stop : Joined → Bool
is_stop Joined.cancelled = true
is_stop j = false

-- A call that returned, or raised, without the database.
abbrev pub gave : {A : Type 0} → Result A → Action Db A
gave r db = (r, db)

-- A join or a wait that gave an outcome; one that is a `JoinError` raises it.
abbrev pub joined_as : Joined → Action Db Joined
joined_as (join_error code) = raise (join_failed code)
joined_as j = pure j

abbrev pub check : Result Joined → Action Db Joined
check r = do j ← gave r; joined_as j

-- A call whose exception is caught and only noted.
abbrev pub quietly : {A : Type 0} → Action Db A → Action Db (Unit {0})
quietly m db = (ok tt, (m db).1)

-- `finally: await browser.close()`, which may raise in its turn.
abbrev pub closing : Result (Unit {0}) → Action Db (Unit {0}) → Action Db (Unit {0})
closing closed m db = let (r, db') = m db in elim closed [ ok u ↦ (r, db') | err e ↦ (err e, db') ]

-- The row as a `Segment` again.
abbrev pub segment_of : TranscriptSegment → Segment
segment_of row = record {
  text = row.text;
  start_ms = row.start_ms;
  end_ms = row.end_ms;
  final = true;
  speaker = row.speaker;
}

module _ (events : Option EventSink) (now : Instant) where
  -- `_advance`
  unfoldable pub move : ℕ → BotStatus → Action Db (Unit {0})
  move bot_id status = session_scope (do advance events now bot_id status; pure tt)

  -- `_set_artifact_status` of the transcription
  unfoldable pub set_transcription_status : ℕ → String → Option String → Action Db (Unit {0})
  set_transcription_status bot_id status error =
      session_scope (do set_artifact_status events now bot_id transcription status error; pure tt)

  -- `_ingest_segment` on each segment of a list
  unfoldable pub ingest_all : (Segment → ℕ) → ℕ → List Segment → Action Db (Unit {0})
  ingest_all fresh bot_id [] = pure tt
  ingest_all fresh bot_id (s ∷ ss) = do
    session_scope (ingest_segment events now (fresh s) bot_id s)
    ingest_all fresh bot_id ss

  -- `_annotate_segments`
  unfoldable pub annotate_segments : ℕ → List Segment → Action Db (Unit {0})
  annotate_segments bot_id segments = elim (confident_split segments) [
    | none ↦ raise zero_division
    | some sure ↦
        if sure then (λ db. (ok tt, (annotate_speakers bot_id segments db).1)) else pure tt
  ]

  -- `_transcribe_live`, of what it writes
  unfoldable pub transcribe_live : ℕ → Meeting → Action Db (Unit {0})
  transcribe_live bot_id meeting = do
    ingest_all meeting.fresh bot_id meeting.live_segments
    if meeting.live_failed
        then set_transcription_status bot_id "provider-failed" (some "live-failed")
        else pure tt

  -- The segments of the batch that are stored: those that the live ones do not cover.
  unfoldable pub new_batch : ℕ → ℕ → List Segment → Action Db (List Segment)
  new_batch bot_id live_count batch =
      if ltb 0 live_count && ltb 0 (length batch)
      then (do
        current ← session_scope (transcript bot_id)
        pure (uncovered_batch_segments (map segment_of current) batch))
      else pure batch

  -- A batch is stored and the transcription is ready; one without a word, after a meeting without
  -- one, is silence.
  unfoldable pub keep_batch : ℕ → Meeting → List Segment → Action Db (Unit {0})
  keep_batch bot_id meeting batch =
      if (meeting.live.finals == 0) && (length batch == 0)
      then set_transcription_status bot_id "silence" meeting.live.error
      else do
        fresh_batch ← new_batch bot_id meeting.live.finals batch
        ingest_all meeting.fresh bot_id fresh_batch
        set_transcription_status bot_id "ready" meeting.live.error
        if ltb 0 meeting.live.finals && meeting.diarizes
            then annotate_segments bot_id batch
            else pure tt

  -- What follows a recording in `_attend_and_record`.
  unfoldable pub transcribe_recording : ℕ → Meeting → Action Db (Unit {0})
  transcribe_recording bot_id meeting =
      if is_filled (recorded meeting)
      then (if meeting.has_transcriber
          then elim meeting.batch [
            | none ↦ set_transcription_status bot_id "provider-failed" (some "batch-failed")
            | some batch ↦ keep_batch bot_id meeting batch
          ]
          else set_transcription_status bot_id "disabled" none)
      else pure tt

  -- The transactions of `checkpoint_sink`; `_flush_checkpoint` catches what they raise.
  unfoldable pub tell_manifests : ℕ → List Text → Action Db (Unit {0})
  tell_manifests bot_id [] = pure tt
  tell_manifests bot_id (uri ∷ uris) = do
    quietly (session_scope (set_checkpoint_manifest events now bot_id uri))
    tell_manifests bot_id uris

  -- What the recorder's checkpoints tell, where the audio is recorded, before a call gives its result.
  unfoldable pub run_recorder : ℕ → Bool → Result (Unit {0}) → List Text → Action Db (Unit {0})
  run_recorder bot_id record_audio result uris =
      if record_audio then (do tell_manifests bot_id uris; gave result) else pure tt

  -- `_attend_and_record`: the recording and why it ended, or none where the bot was stopped before
  -- it was let in.
  unfoldable pub attend_and_record : ℕ → Meeting → Action Db (Text × Joined)
  attend_and_record bot_id meeting = do
    check meeting.knock
    outcome ← check meeting.admission
    if is_stop outcome then pure ([], outcome) else do
      move bot_id joined
      move bot_id recording
      if meeting.record_audio && meeting.has_transcriber
          then transcribe_live bot_id meeting
          else set_transcription_status bot_id "disabled" none
      run_recorder bot_id meeting.record_audio (ok tt) meeting.manifests
      reason ← check meeting.end
      run_recorder bot_id meeting.record_audio meeting.stopped meeting.last_manifests
      transcribe_recording bot_id meeting
      pure (recorded meeting, reason)

  module _ (retention_days : ℕ) (has_store : Bool) (stored_at : Option Text) where
    -- Whether the recording is degraded: a checkpoint or the upload failed, or there is no store.
    -- `stored_at` is what `blob.put` gave, none where it raised or where there is no store.
    unfoldable pub is_degraded : Meeting → Text → Bool
    is_degraded meeting audio =
        meeting.checkpoint_failed || (is_filled audio && not (has_store && is_some stored_at))

    unfoldable pub artifact : Meeting → Text → Joined → RecordingArtifact
    artifact meeting audio reason =
        let degraded = is_degraded meeting audio in
        record {
          uri = stored_at;
          sha256 = meeting.checksum;
          size = length audio;
          status = if degraded then "degraded" else if is_stop reason then "partial" else "ready";
          partial = is_stop reason || degraded;
          expires_at = now + days retention_days;
          checkpoint_manifest_uri = meeting.checkpoint_uri;
        }

    -- `_persist_recording`
    unfoldable pub persist_recording : ℕ → Meeting → Text → Joined → Action Db (Unit {0})
    persist_recording bot_id meeting audio reason = session_scope (do
      if is_filled audio
          then (do store_recording events now bot_id (artifact meeting audio reason); pure tt)
          else pure tt
      advance events now bot_id processing
      pure tt)

    -- The call of `_complete` in `attend`: without audio, and with the default of `checkpoint_failed`.
    unfoldable pub ending : Meeting → Joined → Ending
    ending meeting reason = record {
      audio = [];
      checksum = [];
      was_cancelled = is_stop reason || is_some meeting.stop_reason;
      checkpoint_uri = none;
      checkpoint_failed = false;
      stop_reason = elim meeting.stop_reason [ none ↦ none | some code ↦ some (code_text code) ];
    }

    abbrev pub stop_code : Option FailCode → FailCode
    stop_code none = cancelled
    stop_code (some code) = code

    -- What `attend` does with a meeting that was attended to its end.
    unfoldable pub conclude : ℕ → Meeting → Text → Joined → Action Db (Unit {0})
    conclude bot_id meeting audio reason = do
      persist_recording bot_id meeting audio reason
      gave meeting.left
      summarize events now meeting.answers bot_id
      complete retention_days now stored_at events (ending meeting reason) bot_id

    -- A run that was stopped before it was let in is failed; `restore` is as for `fail_run`.
    unfoldable pub after_meeting :
        (Text → Option Restored) → ℕ → Meeting → Text × Joined → Action Db (Unit {0})
    after_meeting restore bot_id meeting (audio, reason) =
        if is_stop reason
        then (do
          run ← session_scope (get bot_id)
          if is_in run.status (joined ∷ recording ∷ [])
              then conclude bot_id meeting audio reason
              else fail_run retention_days now stored_at events restore
                  (stop_code meeting.stop_reason) bot_id)
        else conclude bot_id meeting audio reason

    unfoldable pub attend : (Text → Option Restored) → ℕ → Meeting → Action Db (Unit {0})
    attend restore bot_id meeting = do
      gave meeting.restored
      move bot_id joining
      closing meeting.closed (do
        gave meeting.opened
        attended ← attend_and_record bot_id meeting
        after_meeting restore bot_id meeting attended)
