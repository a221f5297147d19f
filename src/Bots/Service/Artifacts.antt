-- ===== src/Bots/Service/Artifacts.antt =====
-- The calls of `BotService` (src/twin/bots/service.py) on what a meeting leaves behind: segments of the
-- transcript, notes and the recording; and the pages of `list_runs`. `new_id` is what `uuid4` draws.
pub mod Segments
pub mod Pages
use Prim.Native.String.{String}
use fakery.Prelude.{
  ℕ, zero, suc, ◌+◌, ◌-◌, Bool, Option, none, some, List, [], ◌∷◌, Text, if◌then◌else◌, leb, length,
  take, get_elem?,
}
use fakery.Core.Errors.{not_found}
use fakery.Core.Action.{Action, Result, ok, err, pure, modify, or_raise, gets, ◌>>=◌, ◌>>◌}
use fakery.Bots.Models.{BotRun, TranscriptSegment, MeetingNote, Instant, Db}
use fakery.Bots.Repository
use fakery.Bots.Service.{EventSink, RecordingArtifact, Segment, MeetingNotes, get}

unfoldable pub transcript : ℕ → Action Db (List TranscriptSegment)
transcript bot_id = do get bot_id; gets (Repository.segments bot_id)

unfoldable pub new_segment : ℕ → ℕ → Segment → Instant → TranscriptSegment
new_segment new_id bot_id segment now = record {
  id = new_id;
  bot_run_id = bot_id;
  speaker = segment.speaker;
  text = segment.text;
  start_ms = segment.start_ms;
  end_ms = segment.end_ms;
  created_at = now;
}

unfoldable pub annotate_speakers : ℕ → List Segment → Db → ℕ × Db
annotate_speakers bot_id [] db = (0, db)
annotate_speakers bot_id (s ∷ ss) db = elim s.speaker [
  | none ↦ annotate_speakers bot_id ss db
  | some speaker ↦
      let (count, db') = Repository.annotate_speakers bot_id s.start_ms s.end_ms speaker db in
      let (rest, db'') = annotate_speakers bot_id ss db' in (count + rest, db'')
]

unfoldable pub get_notes : ℕ → Action Db MeetingNote
get_notes bot_id db = or_raise (Repository.get_notes bot_id db) not_found db

-- The run that a page ends with: `rows[limit - 1]`, which is the last row where the limit is 0.
abbrev page_end : ℕ → List BotRun → Option BotRun
page_end zero rows = get_elem? rows (length rows - 1)
page_end (suc n) rows = get_elem? rows n

abbrev id_of : Option BotRun → Option ℕ
id_of none = none
id_of (some run) = some run.id

-- A page of runs, and the cursor of the next one if there is more.
unfoldable pub list_runs : ℕ → Option ℕ → Db → List BotRun × Option ℕ
list_runs limit cursor db =
    let rows = Repository.list_runs (limit + 1) cursor db in
    if leb (length rows) limit then (rows, none) else (take limit rows, id_of (page_end limit rows))

-- `transcription` and `notes`; `set_artifact_status` raises on any other name.
pub data Artifact : Type 0 where
  transcription notes : Artifact

module _ (events : Option EventSink) (now : Instant) where
  abbrev pub tell_segment : TranscriptSegment → Db → Db
  tell_segment s db = elim events [ none ↦ db | some sink ↦ sink.transcript_segment s db ]

  abbrev pub tell_notes : ℕ → Db → Db
  tell_notes bot_id db = elim events [ none ↦ db | some sink ↦ sink.notes_completed bot_id db ]

  -- The row that was found, or a new one, which is told.
  abbrev pub keep_segment :
      TranscriptSegment → Result (Option TranscriptSegment) → Action Db TranscriptSegment
  keep_segment stored (err e) db = (err e, db)
  keep_segment stored (ok (some found)) db = pure found db
  keep_segment stored (ok none) db =
      pure stored (tell_segment stored (Repository.add_segment stored db))

  unfoldable pub ingest_segment : ℕ → ℕ → Segment → Action Db TranscriptSegment
  ingest_segment new_id bot_id segment db =
      keep_segment (new_segment new_id bot_id segment now)
        (Repository.find_segment bot_id segment.text segment.start_ms segment.end_ms db) db

  unfoldable pub store_notes : ℕ → MeetingNotes → Action Db MeetingNote
  store_notes bot_id meeting_notes = do
    let note : MeetingNote = record {
      bot_run_id = bot_id;
      summary = meeting_notes.summary;
      key_points = meeting_notes.key_points;
      action_items = meeting_notes.action_items;
      created_at = now;
    }
    Repository.save_notes note
    modify (tell_notes bot_id)
    pure note

  -- A change of a stored run and its flush.
  unfoldable pub change : (BotRun → BotRun) → ℕ → Action Db BotRun
  change f bot_id = do
    run ← get bot_id
    modify (Repository.save now (f run))
    pure (record (f run) { updated_at = now })

  unfoldable pub store_recording : ℕ → RecordingArtifact → Action Db BotRun
  store_recording bot_id artifact =
      change
        (λ run. record run {
          recording_uri = artifact.uri;
          recording_sha256 = some artifact.sha256;
          recording_bytes = some artifact.size;
          recording_status = artifact.status;
          recording_partial = artifact.partial;
          recording_expires_at = some artifact.expires_at;
          checkpoint_manifest_uri = artifact.checkpoint_manifest_uri;
        })
        bot_id

  unfoldable pub set_checkpoint_manifest : ℕ → Text → Action Db BotRun
  set_checkpoint_manifest bot_id manifest_uri =
      change
        (λ run. record run {
          checkpoint_manifest_uri = some manifest_uri;
          finalization_status = "checkpointed";
        })
        bot_id

  unfoldable pub set_artifact_status : ℕ → Artifact → String → Option String → Action Db BotRun
  set_artifact_status bot_id transcription status error =
      change (λ run. record run { transcription_status = status; transcription_error = error })
        bot_id
  set_artifact_status bot_id notes status error =
      change (λ run. record run { notes_status = status; notes_error = error }) bot_id
