-- ===== src/Tests/Transcripts.antt =====
-- The theorems on transcripts and notes, each at one meeting.
use fakery.Prelude.{ℕ, ◌+◌, ◌≡◌, refl, true, false, none, some, List, [], ◌∷◌, ◌++◌, Text, arith}
use fakery.Bots.Models.{Db}
use fakery.Bots.Service.{Segment}
use fakery.Bots.Service.Artifacts.{ingest_segment}
use fakery.Notes.{split_segments}
use fakery.Notes.Batches.{concat, split_segments-concat}
use fakery.Transcription.Segments.{prerecorded_segments, Sentence, Response}
use fakery.Transcription.Segments.Clean.{Heard, prerecorded_segments-Heard}
use fakery.Bots.Runtime.Chunks.{
  ChunkStep, arrives, yields, streamed, close_queue, queue_chunks, offered,
}
use fakery.Bots.Runtime.Chunks.Order
use fakery.Bots.Runtime.Chunks.Whole.{streamed_whole}
use fakery.Tests.{sample_db, sink, code}

abbrev words : Segment
words = record { text = code; start_ms = 61_000; end_ms = 62_000; final = true; speaker = none }

abbrev spoken_db : Db
spoken_db = (ingest_segment sink 220 30 1 words sample_db).1

split_segments-concat_example : concat (split_segments (words ∷ words ∷ [])) ≡ words ∷ words ∷ []
split_segments-concat_example = split_segments-concat (words ∷ words ∷ [])

abbrev padded : Sentence
padded = record {
  text = some (b' ' ∷ b'h' ∷ b'i' ∷ b' ' ∷ []);
  start_ms = 100;
  end_ms = 700;
  speaker = none;
}

abbrev answer : Response
answer = record {
  alternative = some (record {
    paragraphs = some (some (padded ∷ []) ∷ none ∷ []);
    words = some (record { start_ms = 100; end_ms = 650; speaker = some 1 } ∷ []);
    transcript = none;
  });
  duration_ms = 800;
}

abbrev show_one : ℕ → Text
show_one n = (b'0' + n) ∷ []

prerecorded_segments-Heard_example : Heard answer.alternative (prerecorded_segments show_one answer)
prerecorded_segments-Heard_example = prerecorded_segments-Heard show_one answer

-- The transcriber comes late to the first two chunks and is there for the third one.
abbrev late_reads : List ChunkStep
late_reads = yields ∷ arrives false code ∷ arrives true [] ∷ arrives false (b'a' ∷ []) ∷ []

abbrev two_chunks : List ChunkStep
two_chunks = arrives false code ∷ yields ∷ arrives false (b'a' ∷ []) ∷ []

streamed_whole_example :
    (streamed two_chunks).0 ++ (queue_chunks (close_queue (streamed two_chunks).1)).0
    ≡ offered two_chunks
unfolding offered
streamed_whole_example = streamed_whole two_chunks (refl, (refl, tt)) (omega arith)
