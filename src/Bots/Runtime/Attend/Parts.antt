-- ===== src/Bots/Runtime/Attend/Parts.antt =====
-- The parts of `attend` (src/twin/bots/runtime.py) up to the end of the meeting keep the table of
-- runs sound.
use Prim.Native.String.{String}
use fakery.Prelude.{
  ℕ, ◌≡◌, refl, Bool, true, false, Option, none, some, List, [], ◌∷◌, Text, if◌then◌else◌,
  Option-cases, inl, inr,
}
use fakery.Core.Action.{Action, Result, ok, err, raise, gets, pure}
use fakery.Core.Errors.{zero_division}
use fakery.Bots.State.{BotStatus, joined, recording}
use fakery.Bots.Models.{BotRun, TranscriptSegment, Instant, Db}
use fakery.Bots.Repository
use fakery.Bots.Service.{EventSink, MeetingNotes, RecordingArtifact, Segment}
use fakery.Bots.Service.Artifacts.{
  transcript, annotate_speakers, set_artifact_status, set_checkpoint_manifest,
}
use fakery.Bots.Service.Lifecycle.{same_runs-IsSound}
use fakery.Bots.Merge.{confident_split}
use fakery.Meet.Join.{Joined, join_error}
use fakery.Bots.Runtime.{summarize, keep_notes, set_notes_status}
use fakery.Bots.Runtime.Endings.{Keeps}
use fakery.Bots.Runtime.Attend.{
  Meeting, gave, joined_as, check, quietly, closing, tell_manifests, run_recorder, move,
  set_transcription_status, ingest_all, annotate_segments, transcribe_live, new_batch, keep_batch,
  transcribe_recording, attend_and_record,
}
use fakery.Bots.Life.{Evolves-self}
use fakery.Bots.Life.Rules.{same_runs-Evolves}
use fakery.Bots.Runtime.Attend.Soundness.{
  Sound, LeaveRuns, LeaveRuns→KeepRuns, pure-Sound, raise-Sound, scope-Sound, bind-Sound,
  then-Sound, if-Sound, get-Sound, advance-Sound, change-Sound, ingest_segment-Sound,
  store_notes-Sound,
}

pub gave-Sound : {A : Type 0} (r : Result A) → Sound (gave r)
gave-Sound r = record { sound = λ db h. h; later = Evolves-self }

joined_as-Sound : (j : Joined) → Sound (joined_as j)
joined_as-Sound (join_error code) = raise-Sound Joined _
joined_as-Sound Joined.cancelled = pure-Sound _
joined_as-Sound Joined.admitted = pure-Sound _
joined_as-Sound Joined.meeting_ended = pure-Sound _
joined_as-Sound Joined.knocked = pure-Sound _

pub check-Sound : (r : Result Joined) → Sound (check r)
check-Sound r = bind-Sound _ _ (gave-Sound r) joined_as-Sound

quietly-Sound : {A : Type 0} (m : Action Db A) → Sound m → Sound (quietly m)
quietly-Sound m h = record { sound = h.sound; later = h.later }

pub closing-Sound :
    (closed : Result (Unit {0})) (m : Action Db (Unit {0})) → Sound m → Sound (closing closed m)
closing-Sound (ok u) m h = record { sound = h.sound; later = h.later }
closing-Sound (err e) m h = record { sound = h.sound; later = h.later }

pub transcript-Sound : (k : ℕ) → Sound (transcript k)
unfolding transcript
transcript-Sound k =
    then-Sound _ (gets (Repository.segments k)) (get-Sound k)
      (record { sound = λ db h. h; later = Evolves-self })

-- A change of fields that the table's invariant does not read.
pub heard-Keeps :
    (s : String) (e : Option String)
    → Keeps (λ run. record run { transcription_status = s; transcription_error = e })
heard-Keeps s e run = (
  record { same_id = refl; same_key = refl; same_token = refl; no_revival = λ h. h },
  λ w. record { left = w.left; reason = w.reason; admitted = w.admitted },
)

pub noted-Keeps :
    (s : String) (e : Option String)
    → Keeps (λ run. record run { notes_status = s; notes_error = e })
noted-Keeps s e run = (
  record { same_id = refl; same_key = refl; same_token = refl; no_revival = λ h. h },
  λ w. record { left = w.left; reason = w.reason; admitted = w.admitted },
)

abbrev pub stored_fields : RecordingArtifact → BotRun → BotRun
stored_fields a run = record run {
  recording_uri = a.uri;
  recording_sha256 = some a.sha256;
  recording_bytes = some a.size;
  recording_status = a.status;
  recording_partial = a.partial;
  recording_expires_at = some a.expires_at;
  checkpoint_manifest_uri = a.checkpoint_manifest_uri;
}

pub stored-Keeps : (a : RecordingArtifact) → Keeps (stored_fields a)
stored-Keeps a run = (
  record { same_id = refl; same_key = refl; same_token = refl; no_revival = λ h. h },
  λ w. record { left = w.left; reason = w.reason; admitted = w.admitted },
)

abbrev pub checkpointed : Text → BotRun → BotRun
checkpointed uri run = record run {
  checkpoint_manifest_uri = some uri;
  finalization_status = "checkpointed";
}

pub checkpointed-Keeps : (uri : Text) → Keeps (checkpointed uri)
checkpointed-Keeps uri run = (
  record { same_id = refl; same_key = refl; same_token = refl; no_revival = λ h. h },
  λ w. record { left = w.left; reason = w.reason; admitted = w.admitted },
)

abbrev pub rescued : BotRun → BotRun
rescued run = record run { finalization_status = "recovered" }

pub rescued-Keeps : Keeps rescued
rescued-Keeps run = (
  record { same_id = refl; same_key = refl; same_token = refl; no_revival = λ h. h },
  λ w. record { left = w.left; reason = w.reason; admitted = w.admitted },
)

module _ (events : Option EventSink) (now : Instant) (leaves : LeaveRuns events) where
  pub move-Sound : (k : ℕ) (s : BotStatus) → Sound (move events now k s)
  unfolding move
  move-Sound k s = scope-Sound _ (
      then-Sound _ _ (advance-Sound events now k s (LeaveRuns→KeepRuns events leaves))
        (pure-Sound _))

  pub set_transcription_status-Sound :
      (k : ℕ) (s : String) (e : Option String) → Sound (set_transcription_status events now k s e)
  unfolding set_transcription_status set_artifact_status
  set_transcription_status-Sound k s e =
      scope-Sound _ (
        then-Sound _ _ (change-Sound events now _ k (heard-Keeps s e) (λ run. refl)) (pure-Sound _))

  pub set_notes_status-Sound :
      (k : ℕ) (s : String) (e : Option String) → Sound (set_notes_status events now k s e)
  unfolding set_notes_status set_artifact_status
  set_notes_status-Sound k s e =
      scope-Sound _ (
        then-Sound _ _ (change-Sound events now _ k (noted-Keeps s e) (λ run. refl)) (pure-Sound _))

  pub ingest_all-Sound :
      (fresh : Segment → ℕ) (k : ℕ) (ss : List Segment) → Sound (ingest_all events now fresh k ss)
  unfolding ingest_all
  ingest_all-Sound fresh k [] = pure-Sound _
  ingest_all-Sound fresh k (s ∷ ss) =
      then-Sound _ _ (scope-Sound _ (ingest_segment-Sound events now leaves (fresh s) k s))
        (ingest_all-Sound fresh k ss)

  annotate_speakers-bots :
      (k : ℕ) (ss : List Segment) (db : Db) → (annotate_speakers k ss db).1.bots ≡ db.bots
  unfolding annotate_speakers Repository.annotate_speakers
  annotate_speakers-bots k [] db = refl
  annotate_speakers-bots k (s ∷ ss) db = elim (Option-cases s.speaker) [
    | inl e ↦ rw (e, annotate_speakers) (annotate_speakers-bots k ss db)
    | inr (speaker, e) ↦
        rw (e, annotate_speakers)
          (annotate_speakers-bots k ss
            (Repository.annotate_speakers k s.start_ms s.end_ms speaker db).1)
  ]

  pub annotated-Sound :
      (sure : Option Bool) (k : ℕ) (ss : List Segment)
      → Sound {A = Unit {0}} (elim sure as (λ x. Action Db (Unit {0})) [
        | none ↦ raise zero_division
        | some b ↦ if b then (λ db. (ok tt, (annotate_speakers k ss db).1)) else pure tt
      ])
  annotated-Sound none k ss = raise-Sound (Unit {0}) zero_division
  annotated-Sound (some true) k ss = record {
    sound = λ db h.
        same_runs-IsSound db (annotate_speakers k ss db).1 (annotate_speakers-bots k ss db) h;
    later =
        λ db. same_runs-Evolves db (annotate_speakers k ss db).1 (annotate_speakers-bots k ss db);
  }
  annotated-Sound (some false) k ss = pure-Sound _

  pub annotate_segments-Sound :
      (k : ℕ) (ss : List Segment) → Sound (annotate_segments events now k ss)
  unfolding annotate_segments
  annotate_segments-Sound k ss = annotated-Sound (confident_split ss) k ss

  pub transcribe_live-Sound :
      (k : ℕ) (meeting : Meeting) → Sound (transcribe_live events now k meeting)
  unfolding transcribe_live
  transcribe_live-Sound k meeting =
      then-Sound _ _ (ingest_all-Sound meeting.fresh k meeting.live_segments)
        (if-Sound meeting.live_failed _ _ (set_transcription_status-Sound k _ _) (pure-Sound _))

  pub new_batch-Sound :
      (k live_count : ℕ) (batch : List Segment) → Sound (new_batch events now k live_count batch)
  unfolding new_batch
  new_batch-Sound k live_count batch =
      if-Sound _ _ _ (bind-Sound _ _ (scope-Sound _ (transcript-Sound k)) (λ current. pure-Sound _))
        (pure-Sound _)

  pub keep_batch-Sound :
      (k : ℕ) (meeting : Meeting) (batch : List Segment)
      → Sound (keep_batch events now k meeting batch)
  unfolding keep_batch
  keep_batch-Sound k meeting batch = if-Sound _ _ _ (set_transcription_status-Sound k _ _) (
      bind-Sound _ _ (new_batch-Sound k meeting.live.finals batch) (λ fresh_batch.
        then-Sound _ _ (ingest_all-Sound meeting.fresh k fresh_batch) (
          then-Sound _ _ (set_transcription_status-Sound k _ _)
            (if-Sound _ _ _ (annotate_segments-Sound k batch) (pure-Sound _)))))

  pub batch-Sound :
      (k : ℕ) (meeting : Meeting) (batch : Option (List Segment))
      → Sound (elim batch as (λ x. Action Db (Unit {0})) [
        | none ↦ set_transcription_status events now k "provider-failed" (some "batch-failed")
        | some b ↦ keep_batch events now k meeting b
      ])
  batch-Sound k meeting none = set_transcription_status-Sound k _ _
  batch-Sound k meeting (some b) = keep_batch-Sound k meeting b

  pub transcribe_recording-Sound :
      (k : ℕ) (meeting : Meeting) → Sound (transcribe_recording events now k meeting)
  unfolding transcribe_recording
  transcribe_recording-Sound k meeting =
      if-Sound _ _ _
        (if-Sound _ _ _ (batch-Sound k meeting meeting.batch)
          (set_transcription_status-Sound k _ _))
        (pure-Sound _)

  tell_manifests-Sound : (k : ℕ) (uris : List Text) → Sound (tell_manifests events now k uris)
  unfolding tell_manifests set_checkpoint_manifest
  tell_manifests-Sound k [] = pure-Sound _
  tell_manifests-Sound k (uri ∷ uris) =
      then-Sound _ _
        (quietly-Sound _ (
          scope-Sound _
            (change-Sound events now (checkpointed uri) k (checkpointed-Keeps uri) (λ run. refl))))
        (tell_manifests-Sound k uris)

  run_recorder-Sound :
      (k : ℕ) (record_audio : Bool) (result : Result (Unit {0})) (uris : List Text)
      → Sound (run_recorder events now k record_audio result uris)
  unfolding run_recorder
  run_recorder-Sound k record_audio result uris =
      if-Sound _ _ _ (then-Sound _ _ (tell_manifests-Sound k uris) (gave-Sound result))
        (pure-Sound _)

  pub attend_and_record-Sound :
      (k : ℕ) (meeting : Meeting) → Sound (attend_and_record events now k meeting)
  unfolding attend_and_record
  attend_and_record-Sound k meeting = then-Sound _ _ (check-Sound meeting.knock) (
      bind-Sound _ _ (check-Sound meeting.admission) (λ outcome. if-Sound _ _ _ (pure-Sound _) (
        then-Sound _ _ (move-Sound k joined) (
          then-Sound _ _ (move-Sound k recording) (
            then-Sound _ _
              (if-Sound _ _ _ (transcribe_live-Sound k meeting)
                (set_transcription_status-Sound k _ _))
              (then-Sound _ _ (run_recorder-Sound k meeting.record_audio _ meeting.manifests) (
                bind-Sound _ _ (check-Sound meeting.end) (λ reason.
                  then-Sound _ _
                    (run_recorder-Sound k meeting.record_audio _ meeting.last_manifests)
                    (then-Sound _ _ (transcribe_recording-Sound k meeting) (pure-Sound _))))))))))

  pub keep_notes-Sound : (k : ℕ) (n : Option MeetingNotes) → Sound (keep_notes events now k n)
  unfolding keep_notes
  keep_notes-Sound k none = set_notes_status-Sound k _ _
  keep_notes-Sound k (some n) =
      then-Sound _ _ (scope-Sound _ (store_notes-Sound events now leaves k n))
        (set_notes_status-Sound k _ _)

  pub summarize-Sound :
      (answers : Option (List TranscriptSegment → List (Option MeetingNotes))) (k : ℕ)
      → Sound (summarize events now answers k)
  unfolding summarize
  summarize-Sound none k = set_notes_status-Sound k _ _
  summarize-Sound (some answers) k =
      bind-Sound _ _ (scope-Sound _ (transcript-Sound k))
        (λ rows. if-Sound _ _ _ (set_notes_status-Sound k _ _) (keep_notes-Sound k _))
