-- ===== src/Bots/Runtime/Chunks/Whole.antt =====
-- The live chunks of src/twin/bots/runtime.py while the queue has room.
use mathlib.Core.List.{append_assoc}
use fakery.Prelude.{
  ◌≤◌, ◌<◌, ◌≡◌, refl, sym, false, List, [], ◌∷◌, ◌++◌, Text, length, length-append, arith,
}
use fakery.Bots.Runtime.Chunks.{
  live_stt_queue_limit, ChunkQueue, is_full, push_chunk, make_room, close_queue, queue_chunks,
  next_chunk, ChunkStep, arrives, yields, take_step, streamed, offered,
}
use fakery.Bots.Runtime.Chunks.Order.{put, put-append_one, length-put, queue_chunks-put}

-- Every chunk arrives while the transcriber is there.
abbrev pub AllHeard : List ChunkStep → Type 0
AllHeard [] = Unit {0}
AllHeard (arrives is_gone chunk ∷ steps) = (is_gone ≡ false) × AllHeard steps
AllHeard (yields ∷ steps) = AllHeard steps

Whole : List Text × ChunkQueue → List Text → Type 0
Whole (yielded, queue) all = (cs : List Text) × (queue ≡ put cs) × (yielded ++ cs ≡ all)

has_room : (cs : List Text) → length cs < live_stt_queue_limit → is_full (put cs) ≡ false
unfolding is_full
has_room cs h = ground (arith, length-put cs, h)

length-rest : (xs ys zs : List Text) → xs ++ ys ≡ zs → length ys ≤ length zs
length-rest xs ys zs e = rw (sym e) (omega (arith, length-append xs ys))

push-Whole :
    (chunk : Text) (yielded cs : List Text)
    → length cs < live_stt_queue_limit
    → Whole (yielded, push_chunk false chunk (put cs)) ((yielded ++ cs) ++ chunk ∷ [])
unfolding Whole push_chunk
push-Whole chunk yielded cs h =
    rw (has_room cs h)
      (cs ++ chunk ∷ [], put-append_one cs chunk, sym (append_assoc yielded cs (chunk ∷ [])))

yield-Whole : (yielded cs : List Text) → Whole (next_chunk (yielded, put cs)) (yielded ++ cs)
unfolding Whole next_chunk
yield-Whole yielded [] = ([], refl, refl)
yield-Whole yielded (c ∷ cs) = (cs, refl, append_assoc yielded (c ∷ []) cs)

step-Whole :
    (step : ChunkStep) (steps : List ChunkStep) (s : List Text × ChunkQueue)
    → AllHeard (step ∷ steps)
    → length (offered (step ∷ steps)) < live_stt_queue_limit
    → Whole s (offered steps)
    → Whole (take_step step s) (offered (step ∷ steps))
unfolding Whole take_step offered
step-Whole (arrives gone chunk) steps (yielded, queue) all_heard few h =
    let (cs, is_put, is_all) = h in
    let fewer : length cs < live_stt_queue_limit = omega (
      arith,
      length-rest yielded cs (offered steps) is_all,
      length-append (offered steps) (chunk ∷ []),
      few,
    ) in
    rw (all_heard.0, is_put, sym is_all) (push-Whole chunk yielded cs fewer)
step-Whole yields steps (yielded, queue) all_heard few h =
    let (cs, is_put, is_all) = h in rw (is_put, sym is_all) (yield-Whole yielded cs)

earlier_heard :
    (step : ChunkStep) (steps : List ChunkStep) → AllHeard (step ∷ steps) → AllHeard steps
earlier_heard (arrives gone chunk) steps h = h.1
earlier_heard yields steps h = h

earlier_fewer :
    (step : ChunkStep) (steps : List ChunkStep)
    → length (offered (step ∷ steps)) < live_stt_queue_limit
    → length (offered steps) < live_stt_queue_limit
unfolding offered
earlier_fewer (arrives gone chunk) steps h =
    omega (arith, length-append (offered steps) (chunk ∷ []), h)
earlier_fewer yields steps h = h

streamed-Whole :
    (steps : List ChunkStep)
    → AllHeard steps
    → length (offered steps) < live_stt_queue_limit
    → Whole (streamed steps) (offered steps)
unfolding Whole streamed offered
streamed-Whole [] all_heard few = ([], refl, refl)
streamed-Whole (step ∷ steps) all_heard few =
    step-Whole step steps (streamed steps) all_heard few
      (streamed-Whole steps (earlier_heard step steps all_heard) (earlier_fewer step steps few))

make_room-put : (cs : List Text) → length cs < live_stt_queue_limit → make_room (put cs) ≡ put cs
unfolding make_room
make_room-put [] h = refl
make_room-put (c ∷ cs) h = rw (has_room (c ∷ cs) h) refl

closed-Whole :
    (yielded : List Text) (queue : ChunkQueue) (all : List Text)
    → length all < live_stt_queue_limit
    → Whole (yielded, queue) all
    → yielded ++ (queue_chunks (close_queue queue)).0 ≡ all
unfolding Whole close_queue
closed-Whole yielded queue all few h =
    let (cs, is_put, is_all) = h in
    let fewer : length cs < live_stt_queue_limit =
      omega (arith, length-rest yielded cs all is_all, few) in
    rw is_put (rw (make_room-put cs fewer) (rw (queue_chunks-put cs) is_all))

-- Where fewer chunks are handed over than the queue takes, and the transcriber stays to the end, it reads
-- all of them.
pub streamed_whole :
    (steps : List ChunkStep)
    → AllHeard steps
    → length (offered steps) < live_stt_queue_limit
    → (let (yielded, queue) = streamed steps in
        yielded ++ (queue_chunks (close_queue queue)).0 ≡ offered steps)
streamed_whole steps all_heard few =
    closed-Whole (streamed steps).0 (streamed steps).1 (offered steps) few
      (streamed-Whole steps all_heard few)
