-- ===== src/Meet/Recorder/Checkpoints.antt =====
-- What `MeetingRecorder` (src/twin/meet/recorder.py) returns and what its checkpoints hold.
use mathlib.Core.List.{append_assoc, append-nil}
use fakery.Prelude.{
  ℕ, ◌+◌, ◌<◌, ◌≡◌, ◌∙◌, ap, refl, sym, Bool, true, false, ◌||◌, ◌⊎◌, Option, none, some, List, [],
  ◌∷◌, ◌++◌, Text, length, length-append, leb, arith, Bool-cases, inl, inr, All,
}
use fakery.Bots.MeetingUrl.{is_filled}
use fakery.Meet.Recorder.{
  new_session, Session, flushed, extended, flush_checkpoint, take_chunk, take_chunks, drain,
  poll_loop, at_rest, cut_poll, stop, hear, checkpoint_chunks_limit,
}

-- The bytes of what a page collected, in order.
abbrev pub decoded : (Text → Text) → List Text → Text
decoded b64decode [] = []
decoded b64decode (c ∷ cs) = b64decode c ++ decoded b64decode cs

abbrev pub page_bytes : (Text → Text) → Option (List Text) → Text
page_bytes b64decode none = []
page_bytes b64decode (some chunks) = decoded b64decode chunks

abbrev pub all_bytes : (Text → Text) → List (Option (List Text)) → Text
all_bytes b64decode [] = []
all_bytes b64decode (page ∷ pages) = page_bytes b64decode page ++ all_bytes b64decode pages

-- Checkpoints, the newest first, one after the other.
abbrev pub joined_parts : List Text → Text
joined_parts [] = []
joined_parts (t ∷ older) = joined_parts older ++ t

-- Checkpoints, the newest first, handed to a sink in order, and whether one raised.
abbrev pub replay :
    {World : Type 0} → (ℕ → Text → World → Bool × World) → List Text → World → Bool × World
replay put [] world = (false, world)
replay put (t ∷ older) world =
    let (failed, before) = replay put older world in
    let (raised, after) = put (length older) t before in (failed || raised, after)

not_filled : (t : Text) → is_filled t ≡ false → t ≡ []
not_filled [] h = refl
not_filled (c ∷ t) h = absurd (cc h)

module _ {Heard World : Type 0} (sink : Option (Text → Heard → Heard))
    (b64decode : Text → Text) where
  module _ (checkpoint_sink : Option (ℕ → Text → World → Bool × World)) where
    -- What a call adds to the spool.
    abbrev Spools : Text → Session Heard World → Session Heard World → Type 0
    Spools t s s' =
        (s'.recorder.spool ≡ s.recorder.spool ++ t)
        × (s'.recorder.size ≡ s.recorder.size + length t)

    flush_keeps_spool :
        (s : Session Heard World)
        → ((flush_checkpoint sink checkpoint_sink b64decode s).recorder.spool ≡ s.recorder.spool)
          × ((flush_checkpoint sink checkpoint_sink b64decode s).recorder.size ≡ s.recorder.size)
    unfolding flush_checkpoint
    flush_keeps_spool s = ground arith

    take_chunk-Spools :
        (c : Text) (s : Session Heard World)
        → Spools (b64decode c) s (take_chunk sink checkpoint_sink b64decode c s)
    unfolding take_chunk
    take_chunk-Spools c s =
        elim (Bool-cases (leb checkpoint_chunks_limit (s.recorder.checkpoint_chunks + 1))) [
          | inl full ↦ rw full (
              flush_keeps_spool (record s {
                recorder = extended (b64decode c) s.recorder;
                heard = hear sink checkpoint_sink b64decode (b64decode c) s.heard;
              }))
          | inr room ↦ rw room (refl, refl)
        ]

    then-Spools :
        (t u : Text) (s s' s'' : Session Heard World)
        → Spools t s s'
        → Spools u s' s''
        → Spools (t ++ u) s s''
    then-Spools t u s s' s'' h k = (
      k.0 ∙ ap (λ x. x ++ u) h.0 ∙ append_assoc s.recorder.spool t u,
      omega (arith, h.1, k.1, length-append t u),
    )

    none-Spools : (s : Session Heard World) → Spools [] s s
    none-Spools s = (sym (append-nil s.recorder.spool), omega arith)

    take_chunks-Spools :
        (cs : List Text) (s : Session Heard World)
        → Spools (decoded b64decode cs) s (take_chunks sink checkpoint_sink b64decode cs s)
    unfolding take_chunks
    take_chunks-Spools [] s = none-Spools s
    take_chunks-Spools (c ∷ cs) s =
        let s' = take_chunk sink checkpoint_sink b64decode c s in
        then-Spools (b64decode c) (decoded b64decode cs) s s'
          (take_chunks sink checkpoint_sink b64decode cs s') (take_chunk-Spools c s)
          (take_chunks-Spools cs s')

    drain-Spools :
        (page : Option (List Text)) (s : Session Heard World)
        → Spools (page_bytes b64decode page) s (drain sink checkpoint_sink b64decode page s)
    unfolding drain
    drain-Spools none s = none-Spools s
    drain-Spools (some cs) s = take_chunks-Spools cs s

    poll_loop-Spools :
        (pages : List (Option (List Text))) (s : Session Heard World)
        → Spools (all_bytes b64decode pages) s (poll_loop sink checkpoint_sink b64decode pages s)
    unfolding poll_loop
    poll_loop-Spools [] s = none-Spools s
    poll_loop-Spools (page ∷ pages) s =
        let s' = drain sink checkpoint_sink b64decode page s in
        then-Spools (page_bytes b64decode page) (all_bytes b64decode pages) s s'
          (poll_loop sink checkpoint_sink b64decode pages s') (drain-Spools page s)
          (poll_loop-Spools pages s')

    -- Whatever the two sinks do, `stop` gives back all the bytes that the polls and its own drain
    -- collected, in order and each once, and the size that it logs is their length.
    pub stop_recording :
        (pages : List (Option (List Text))) (page : Option (List Text)) (heard : Heard)
        (world : World)
        → let polled = poll_loop sink checkpoint_sink b64decode pages (new_session heard world) in
          let (recording, left) = stop sink checkpoint_sink b64decode at_rest page polled in
          (recording ≡ all_bytes b64decode pages ++ page_bytes b64decode page)
          × (left.recorder.size ≡ length recording)
    unfolding stop cut_poll
    stop_recording pages page heard world =
        let start : Session Heard World = new_session heard world in
        let polled = poll_loop sink checkpoint_sink b64decode pages start in
        let drained = drain sink checkpoint_sink b64decode page polled in
        let all =
          then-Spools (all_bytes b64decode pages) (page_bytes b64decode page) start polled drained
            (poll_loop-Spools pages start) (drain-Spools page polled) in
        let kept = flush_keeps_spool drained in
        (kept.0 ∙ all.0, omega (arith, kept.1, all.1, ap length (kept.0 ∙ all.0)))

  module _ (put : ℕ → Text → World → Bool × World) (before : World) where
    -- What the checkpoints hold while a recording goes on: with the buffer they are the spool.
    pub record Checkpointed (s : Session Heard World) : Type 0 where
      pub parts : List Text
      pub whole : s.recorder.spool ≡ joined_parts parts ++ s.recorder.checkpoint_buffer
      pub handed : replay put parts before ≡ (s.recorder.checkpoint_failed, s.world)
      pub counted : s.recorder.checkpoint_sequence ≡ length parts
      pub filled : All (λ t. is_filled t ≡ true) parts

    flushed-Checkpointed :
        (s : Session Heard World) (raised : Bool) (after : World)
        → Checkpointed s
        → is_filled s.recorder.checkpoint_buffer ≡ true
        → put s.recorder.checkpoint_sequence s.recorder.checkpoint_buffer s.world ≡ (raised, after)
        → Checkpointed (record s { recorder = flushed raised s.recorder; world = after })
    flushed-Checkpointed s raised after h full e = record {
      parts = s.recorder.checkpoint_buffer ∷ h.parts;
      whole = h.whole ∙ sym (append-nil _);
      handed = rw h.handed (rw (sym h.counted) (rw e refl));
      counted = omega (arith, h.counted);
      filled = (full, h.filled);
    }

    flush-Checkpointed :
        (s : Session Heard World)
        → Checkpointed s
        → Checkpointed (flush_checkpoint sink (some put) b64decode s)
    unfolding flush_checkpoint
    flush-Checkpointed s h = elim (Bool-cases (is_filled s.recorder.checkpoint_buffer)) [
      | inl full ↦ rw full (flushed-Checkpointed s _ _ h full refl)
      | inr empty ↦ rw empty h
    ]

    -- After the flush that ends a recording, nothing is left in the buffer.
    flush_empties :
        (s : Session Heard World)
        → (flush_checkpoint sink (some put) b64decode s).recorder.checkpoint_buffer ≡ []
    unfolding flush_checkpoint
    flush_empties s = elim (Bool-cases (is_filled s.recorder.checkpoint_buffer)) [
      | inl full ↦ rw full refl
      | inr empty ↦ rw empty (not_filled s.recorder.checkpoint_buffer empty)
    ]

    pub extended-Checkpointed :
        (s : Session Heard World) (bytes : Text) (heard : Heard)
        → Checkpointed s
        → Checkpointed (record s { recorder = extended bytes s.recorder; heard = heard })
    extended-Checkpointed s bytes heard h = record {
      parts = h.parts;
      whole =
          ap (λ t. t ++ bytes) h.whole
          ∙ append_assoc (joined_parts h.parts) s.recorder.checkpoint_buffer bytes;
      handed = h.handed;
      counted = h.counted;
      filled = h.filled;
    }

    take_chunk-Checkpointed :
        (c : Text) (s : Session Heard World)
        → Checkpointed s
        → Checkpointed (take_chunk sink (some put) b64decode c s)
    unfolding take_chunk
    take_chunk-Checkpointed c s h =
        let taken =
          extended-Checkpointed s (b64decode c)
            (hear sink (some put) b64decode (b64decode c) s.heard) h in
        elim (Bool-cases (leb checkpoint_chunks_limit (s.recorder.checkpoint_chunks + 1))) [
          | inl full ↦ rw full (flush-Checkpointed _ taken)
          | inr room ↦ rw room taken
        ]

    pub take_chunks-Checkpointed :
        (cs : List Text) (s : Session Heard World)
        → Checkpointed s
        → Checkpointed (take_chunks sink (some put) b64decode cs s)
    unfolding take_chunks
    take_chunks-Checkpointed [] s h = h
    take_chunks-Checkpointed (c ∷ cs) s h =
        take_chunks-Checkpointed cs _ (take_chunk-Checkpointed c s h)

    drain-Checkpointed :
        (page : Option (List Text)) (s : Session Heard World)
        → Checkpointed s
        → Checkpointed (drain sink (some put) b64decode page s)
    unfolding drain
    drain-Checkpointed none s h = h
    drain-Checkpointed (some cs) s h = take_chunks-Checkpointed cs s h

    pub poll_loop-Checkpointed :
        (pages : List (Option (List Text))) (s : Session Heard World)
        → Checkpointed s
        → Checkpointed (poll_loop sink (some put) b64decode pages s)
    unfolding poll_loop
    poll_loop-Checkpointed [] s h = h
    poll_loop-Checkpointed (page ∷ pages) s h =
        poll_loop-Checkpointed pages _ (drain-Checkpointed page s h)

    pub start-Checkpointed : (heard : Heard) → Checkpointed (new_session heard before)
    start-Checkpointed heard = record {
      parts = [];
      whole = refl;
      handed = refl;
      counted = refl;
      filled = tt;
    }

    -- With a checkpoint sink, and where `stop` does not cancel a poll that waits for it, the checkpoints of
    -- a stopped recorder are parts of the recording: none is
    -- empty, in order they make up the recording, they were handed to the sink in that order under the
    -- numbers from 0, and the recorder has failed exactly if the sink raised on one of them.
    pub stop_checkpoints :
        (pages : List (Option (List Text))) (page : Option (List Text)) (heard : Heard)
        → let polled = poll_loop sink (some put) b64decode pages (new_session heard before) in
          let (recording, left) = stop sink (some put) b64decode at_rest page polled in
          (parts : List Text) × (joined_parts parts ≡ recording)
          × All (λ t. is_filled t ≡ true) parts
          × (replay put parts before ≡ (left.recorder.checkpoint_failed, left.world))
          × (left.recorder.checkpoint_sequence ≡ length parts)
    unfolding stop cut_poll
    stop_checkpoints pages page heard =
        let polled = poll_loop sink (some put) b64decode pages (new_session heard before) in
        let drained = drain sink (some put) b64decode page polled in
        let h = flush-Checkpointed drained (
          drain-Checkpointed page polled
            (poll_loop-Checkpointed pages _ (start-Checkpointed heard))) in
        (
          h.parts,
          sym (
              h.whole ∙ ap (λ t. joined_parts h.parts ++ t) (flush_empties drained) ∙ append-nil _),
          h.filled,
          h.handed,
          h.counted,
        )

    -- Between two chunks fewer than five are waiting for a checkpoint, or the buffer is empty.
    pub take_chunk_bound :
        (c : Text) (s : Session Heard World)
        → let r = (take_chunk sink (some put) b64decode c s).recorder in
          (r.checkpoint_chunks < checkpoint_chunks_limit) ⊎ (r.checkpoint_buffer ≡ [])
    unfolding take_chunk
    take_chunk_bound c s =
        elim (Bool-cases (leb checkpoint_chunks_limit (s.recorder.checkpoint_chunks + 1))) [
          | inl full ↦ rw full (
              inr (
                flush_empties (record s {
                  recorder = extended (b64decode c) s.recorder;
                  heard = hear sink (some put) b64decode (b64decode c) s.heard;
                })))
          | inr room ↦ rw room (inl (ground (arith, room)))
        ]
