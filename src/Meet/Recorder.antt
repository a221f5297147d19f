-- ===== src/Meet/Recorder.antt =====
-- `MeetingRecorder` of src/twin/meet/recorder.py. What the page collects is none where `evaluate`
-- raised. `sink` and `checkpoint_sink` are the two callbacks, on states of their own, `Heard` and
-- `World`; a checkpoint sink also says whether it raised. `b64decode` is the library's, on what the
-- page encoded.
pub mod Checkpoints
pub mod Cancelled
use fakery.Prelude.{
  ℕ, ◌+◌, Bool, true, false, ◌&&◌, ◌||◌, Option, none, some, List, [], ◌∷◌, ◌++◌, Text,
  if◌then◌else◌, length, leb,
}
use fakery.Bots.MeetingUrl.{is_filled}

abbrev pub checkpoint_chunks_limit : ℕ
checkpoint_chunks_limit = 5

-- The object's fields. The spool is its content.
pub record Recorder : Type 0 where
  pub checkpoint_buffer : Text
  pub checkpoint_sequence : ℕ
  pub checkpoint_chunks : ℕ
  pub checkpoint_failed : Bool
  pub spool : Text
  pub size : ℕ

abbrev pub new_recorder : Recorder
new_recorder = record {
  checkpoint_buffer = [];
  checkpoint_sequence = 0;
  checkpoint_chunks = 0;
  checkpoint_failed = false;
  spool = [];
  size = 0;
}

-- The recorder with the states of its callbacks.
pub record Session (Heard World : Type 0) : Type 0 where
  pub recorder : Recorder
  pub heard : Heard
  pub world : World

abbrev pub new_session : {Heard World : Type 0} → Heard → World → Session Heard World
new_session heard world = record { recorder = new_recorder; heard = heard; world = world }

-- `self._checkpoint_buffer.clear()` and the two fields after it.
abbrev pub flushed : Bool → Recorder → Recorder
flushed raised r = record r {
  checkpoint_buffer = [];
  checkpoint_chunks = 0;
  checkpoint_failed = r.checkpoint_failed || raised;
  checkpoint_sequence = r.checkpoint_sequence + 1;
}

-- The fields that a chunk changes before the sinks see it.
abbrev pub extended : Text → Recorder → Recorder
extended bytes r = record r {
  spool = r.spool ++ bytes;
  size = r.size + length bytes;
  checkpoint_buffer = r.checkpoint_buffer ++ bytes;
  checkpoint_chunks = r.checkpoint_chunks + 1;
}

-- Where `stop` cancels the task of the polls: where it waits for the page or sleeps, or where it waits for
-- the checkpoint sink, after some chunks of a poll, on the flush of the next one; `aborted` is what the
-- sink has done by then.
pub data Cut (World : Type 0) : Type 0 where
  at_rest : Cut World
  in_sink : List Text → Text → (World → World) → Cut World

-- What a flush has done to the fields when it calls the sink.
abbrev pub cleared : Recorder → Recorder
cleared r = record r { checkpoint_buffer = []; checkpoint_chunks = 0 }

module _ {Heard World : Type 0} (sink : Option (Text → Heard → Heard))
    (checkpoint_sink : Option (ℕ → Text → World → Bool × World)) (b64decode : Text → Text) where
  unfoldable pub flush_checkpoint : Session Heard World → Session Heard World
  flush_checkpoint s = elim checkpoint_sink [
    | none ↦ s
    | some put ↦
        if is_filled s.recorder.checkpoint_buffer
        then (let (raised, world) =
              put s.recorder.checkpoint_sequence s.recorder.checkpoint_buffer s.world in
            record s { recorder = flushed raised s.recorder; world = world })
        else s
  ]

  -- `if self._sink is not None: self._sink(data)`
  abbrev pub hear : Text → Heard → Heard
  hear bytes heard = elim sink [ none ↦ heard | some push ↦ push bytes heard ]

  unfoldable pub take_chunk : Text → Session Heard World → Session Heard World
  unfolding flush_checkpoint
  take_chunk chunk s =
      let bytes = b64decode chunk in
      let s' = record s { recorder = extended bytes s.recorder; heard = hear bytes s.heard } in
      if leb checkpoint_chunks_limit s'.recorder.checkpoint_chunks then flush_checkpoint s' else s'

  unfoldable pub take_chunks : List Text → Session Heard World → Session Heard World
  take_chunks [] s = s
  take_chunks (chunk ∷ chunks) s = take_chunks chunks (take_chunk chunk s)

  -- `_drain`
  unfoldable pub drain : Option (List Text) → Session Heard World → Session Heard World
  drain none s = s
  drain (some chunks) s = take_chunks chunks s

  -- `_poll_loop`, for the polls that it makes before it is cancelled.
  unfoldable pub poll_loop : List (Option (List Text)) → Session Heard World → Session Heard World
  poll_loop [] s = s
  poll_loop (page ∷ pages) s = poll_loop pages (drain page s)

  abbrev pub has_sink : Option (ℕ → Text → World → Bool × World) → Bool
  has_sink none = false
  has_sink (some put) = true

  -- Whether the chunk that was taken is followed by a call of the checkpoint sink.
  abbrev pub is_due : Recorder → Bool
  is_due r =
      leb checkpoint_chunks_limit r.checkpoint_chunks
      && has_sink checkpoint_sink
      && is_filled r.checkpoint_buffer

  -- The last poll, where it was cancelled; `CancelledError` is not caught in it. Where no call of the sink
  -- is due there is none to be cancelled in.
  unfoldable pub cut_poll : Cut World → Session Heard World → Session Heard World
  cut_poll at_rest s = s
  cut_poll (in_sink chunks chunk aborted) s =
      let before = take_chunks chunks s in
      let bytes = b64decode chunk in
      let s' = record before {
        recorder = extended bytes before.recorder;
        heard = hear bytes before.heard;
      } in
      if is_due s'.recorder
      then record s' { recorder = cleared s'.recorder; world = aborted s'.world }
      else s'

  -- What `stop` gives back and leaves behind; `page` is what its own drain collects.
  unfoldable pub stop :
      Cut World → Option (List Text) → Session Heard World → Text × Session Heard World
  stop cut page s =
      let s' = flush_checkpoint (drain page (cut_poll cut s)) in (s'.recorder.spool, s')
