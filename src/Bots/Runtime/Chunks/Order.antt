-- ===== src/Bots/Runtime/Chunks/Order.antt =====
-- What the transcriber reads of the live chunks of src/twin/bots/runtime.py.
use fakery.Prelude.{
  suc, ◌≤◌, ◌≡◌, refl, ap, ◌⊎◌, Bool, true, false, none, some, List, [], ◌∷◌, ◌++◌, map, Text,
  length,
}
use fakery.Bots.Runtime.Chunks.{live_stt_queue_limit, ChunkQueue, queue_chunks}

-- The chunks of the first list stand in the second one, in the same order.
abbrev pub Sub : List Text → List Text → Type 0
Sub [] ys = Unit {0}
Sub (x ∷ xs) [] = true ≡ false
Sub (x ∷ xs) (y ∷ ys) = ((x ≡ y) × Sub xs ys) ⊎ Sub (x ∷ xs) ys

abbrev pub put : List Text → ChunkQueue
put = map some

pub put-append_one : (cs : List Text) (d : Text) → put cs ++ some d ∷ [] ≡ put (cs ++ d ∷ [])
put-append_one [] d = refl
put-append_one (c ∷ cs) d = ap (λ q. some c ∷ q) (put-append_one cs d)

pub length-put : (cs : List Text) → length (put cs) ≡ length cs
length-put [] = refl
length-put (c ∷ cs) = ap suc (length-put cs)

-- The queue holds chunks only, within its limit, and what was yielded and what is left was offered.
Streaming : List Text × ChunkQueue → List Text → Type 0
Streaming (yielded, queue) all =
    (cs : List Text) × (queue ≡ put cs)
    × (length cs ≤ live_stt_queue_limit)
    × Sub (yielded ++ cs) all

-- Making room leaves chunks, each of which was there.
Roomy : List Text → List Text → ChunkQueue → Type 0
Roomy yielded all queue = (cs : List Text) × (queue ≡ put cs) × Sub (yielded ++ cs) all

pub queue_chunks-put : (cs : List Text) → queue_chunks (put cs ++ none ∷ []) ≡ (cs, true)
unfolding queue_chunks
queue_chunks-put [] = refl
queue_chunks-put (c ∷ cs) = ap (λ r. (c ∷ r.0, r.1)) (queue_chunks-put cs)

-- The queue is within its limit, and once it is closed the transcriber comes to the end; all that it
-- reads was offered, in that order.
abbrev pub Heard : List Text × ChunkQueue → List Text × Bool → List Text → Type 0
Heard (yielded, queue) (rest, ends) all =
    (length queue ≤ live_stt_queue_limit) × (ends ≡ true) × Sub (yielded ++ rest) all
