-- ===== src/Tests/Endings.antt =====
-- The theorems on the end of a run, the merge of transcripts and the pacing of guests, each at one
-- input.
use fakery.Prelude.{ℕ, true, false, none, some}
use fakery.Bots.Service.{Segment}
use fakery.Bots.Runtime.{Ending}
use fakery.Worker.{GuestPacer}
use fakery.Transcription.{Word}
use fakery.Tests.{code}

abbrev ending : Ending
ending = record {
  audio = code;
  checksum = code;
  was_cancelled = true;
  checkpoint_uri = some code;
  checkpoint_failed = false;
  stop_reason = none;
}

abbrev said : ℕ → ℕ → Segment
said start_ms end_ms = record {
  text = code;
  start_ms = start_ms;
  end_ms = end_ms;
  final = true;
  speaker = none;
}

abbrev pacer : GuestPacer
pacer = record { gap = 240_000_000; next_at = 500 }

abbrev heard : ℕ → Word
heard speaker = record { start_ms = 0; end_ms = 10; speaker = some speaker }
