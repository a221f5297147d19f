-- ===== src/Bots/Runtime/Chunks.antt =====
-- The queue of live chunks between the recorder and the transcriber, in `_attend_and_record` of
-- src/twin/bots/runtime.py. `none` in the queue is the end that the meeting puts there.
pub mod Order
pub mod Whole
use fakery.Prelude.{
  ℕ, Bool, true, false, Option, none, some, List, [], ◌∷◌, ◌++◌, Text, ◌||◌, if◌then◌else◌, leb,
  length,
}

abbrev pub live_stt_queue_limit : ℕ
live_stt_queue_limit = 30

abbrev pub ChunkQueue : Type 0
ChunkQueue = List (Option Text)

-- `chunk_queue.full()`
unfoldable pub is_full : ChunkQueue → Bool
is_full queue = leb live_stt_queue_limit (length queue)

-- `push_chunk`, where `is_gone` says that there is no transcriber or that its task is done.
unfoldable pub push_chunk : Bool → Text → ChunkQueue → ChunkQueue
push_chunk is_gone chunk queue =
    if is_gone || is_full queue then queue else queue ++ some chunk ∷ []

-- `while chunk_queue.full(): chunk_queue.get_nowait()`
unfoldable pub make_room : ChunkQueue → ChunkQueue
make_room [] = []
make_room (c ∷ queue) =
    let rest = make_room queue in if is_full (c ∷ queue) then rest else c ∷ queue

-- The end of the meeting
unfoldable pub close_queue : ChunkQueue → ChunkQueue
close_queue queue = make_room queue ++ none ∷ []

-- `_queue_chunks` on a queue that nobody adds to: the chunks that it yields, and whether it ends or
-- waits for more.
unfoldable pub queue_chunks : ChunkQueue → List Text × Bool
queue_chunks [] = ([], false)
queue_chunks (none ∷ queue) = ([], true)
queue_chunks (some c ∷ queue) = let (chunks, ends) = queue_chunks queue in (c ∷ chunks, ends)

-- One turn of `_queue_chunks`: what it has yielded, and what it has left.
unfoldable pub next_chunk : List Text × ChunkQueue → List Text × ChunkQueue
next_chunk (yielded, some c ∷ queue) = (yielded ++ c ∷ [], queue)
next_chunk (yielded, queue) = (yielded, queue)

-- What happens to the queue during a meeting.
pub data ChunkStep : Type 0 where
  arrives : Bool → Text → ChunkStep
  yields : ChunkStep

unfoldable pub take_step : ChunkStep → List Text × ChunkQueue → List Text × ChunkQueue
take_step (arrives is_gone chunk) s = (s.0, push_chunk is_gone chunk s.1)
take_step yields s = next_chunk s

-- The last step first.
unfoldable pub streamed : List ChunkStep → List Text × ChunkQueue
streamed [] = ([], [])
streamed (step ∷ steps) = take_step step (streamed steps)

-- The chunks of the recorder, in order
unfoldable pub offered : List ChunkStep → List Text
offered [] = []
offered (arrives is_gone chunk ∷ steps) = offered steps ++ chunk ∷ []
offered (yields ∷ steps) = offered steps
