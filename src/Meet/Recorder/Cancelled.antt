-- ===== src/Meet/Recorder/Cancelled.antt =====
-- A poll of `MeetingRecorder` (src/twin/meet/recorder.py) that `stop` cancels in the checkpoint sink.
use fakery.Prelude.{ℕ, Bool, Option, some, List, Text}
use fakery.Meet.Recorder.{Session, extended, hear, take_chunks}

module _ {Heard World : Type 0} (sink : Option (Text → Heard → Heard)) (b64decode : Text → Text)
    (put : ℕ → Text → World → Bool × World) (before : World) where
  -- The session where the sink is called with a chunk.
  abbrev pub called : List Text → Text → Session Heard World → Session Heard World
  called chunks chunk s =
      let taken = take_chunks sink (some put) b64decode chunks s in
      record taken {
        recorder = extended (b64decode chunk) taken.recorder;
        heard = hear sink (some put) b64decode (b64decode chunk) taken.heard;
      }
