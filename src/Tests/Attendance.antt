-- ===== src/Tests/Attendance.antt =====
-- The theorems on a whole meeting, each at one meeting.
use fakery.Core.Action.{ok}
use fakery.Prelude.{◌≡◌, refl, true, false, none, some, [], ◌∷◌, find_row, put_row}
use fakery.Bots.State.{recording, can_transition, require_transition}
use fakery.Bots.Models.{BotRun, Db}
use fakery.Bots.Repository
use fakery.Bots.Service.{get, advance, enter, is_terminal, tell_status}
use fakery.Bots.Service.Artifacts.{change, store_recording, set_artifact_status}
use fakery.Bots.Service.Create.{new_run}
use fakery.Bots.Runtime.{
  summarize, set_notes_status, complete, end_run, finished, with_recording, timed, time_run,
}
use fakery.Bots.Runtime.Attend.{Meeting, conclude, persist_recording, is_degraded, artifact, ending}
use fakery.Bots.Runtime.Attend.Soundness.{LeaveRuns}
use fakery.Bots.Runtime.Attend.Reports.{conclude_reports_ready}
use fakery.Meet.Join.{Joined}
use fakery.Tests.{code, sample_run, sample_db, sink}
use fakery.Tests.Runs.{sink_keeps}
use fakery.Webhooks.Outbox.{db_outbox, store_in_session}

pub sink_leaves : LeaveRuns sink
unfolding db_outbox store_in_session
sink_leaves = record { keeps = sink_keeps; on_segment = λ s db. refl; on_notes = λ k db. refl }

-- A meeting that was recorded, with a batch of one sentence.
abbrev pub meeting : Meeting
meeting = record {
  restored = ok tt;
  opened = ok tt;
  knock = ok Joined.knocked;
  admission = ok Joined.admitted;
  end = ok Joined.meeting_ended;
  stopped = ok tt;
  left = ok tt;
  closed = ok tt;
  manifests = code ∷ [];
  last_manifests = [];
  record_audio = true;
  has_transcriber = true;
  diarizes = false;
  live_segments = [];
  live_failed = false;
  live = record { finals = 0; error = none };
  batch =
      some (record { text = code; start_ms = 0; end_ms = 900; final = true; speaker = none } ∷ []);
  audio = code;
  checksum = code;
  checkpoint_uri = none;
  checkpoint_failed = false;
  fresh = λ s. 70;
  answers = none;
  stop_reason = none;
}

abbrev recording_db : Db
recording_db = record sample_db {
  bots = record sample_run { status = recording; joined_at = some 150 } ∷ [];
}

-- The upload of the recording raised.
conclude_reports_ready_example :
    (last : BotRun) × (Repository.get 1
        (conclude none 210 30 true none 1 meeting code Joined.meeting_ended recording_db).1
      ≡ some last)
    × (last.finalization_status ≡ "ready")
unfolding conclude persist_recording store_recording change get Repository.get Repository.save
    find_row put_row new_run advance enter is_terminal tell_status require_transition can_transition
    summarize set_notes_status set_artifact_status complete end_run finished with_recording timed
    time_run is_degraded artifact ending
conclude_reports_ready_example =
    conclude_reports_ready none 210 30 none true 1 meeting code Joined.meeting_ended recording_db tt
      refl
