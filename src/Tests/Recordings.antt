-- ===== src/Tests/Recordings.antt =====
-- The theorems on recordings and checkpoints, each at one recording, over a blob store in memory.
use fakery.Prelude.{
  ℕ, zero, suc, ◌≡◌, refl, sym, true, false, Bool, Option, none, some, List, [], ◌∷◌, ◌++◌, Text,
  text_eq, text_eq_iff, if◌then◌else◌, length, drop, Bool-cases, inl, inr,
}
use fakery.Bots.MeetingUrl.{Url}
use fakery.Storage.Blob.{uri_of}
use fakery.Prelude.{All, find_row}
use fakery.Bots.Repository
use fakery.Bots.Service.{get}
use fakery.Bots.Service.Create.{new_run}
use fakery.Meet.Recorder.{
  new_session, Session, poll_loop, at_rest, cut_poll, stop, drain, take_chunk, take_chunks,
  flush_checkpoint,
}
use fakery.Meet.Recorder.Checkpoints.{joined_parts, replay, stop_checkpoints}
use fakery.Bots.MeetingUrl.{is_filled}
use fakery.Bots.Service.Artifacts.{set_checkpoint_manifest, change}
use fakery.Bots.Runtime.Checkpoints.{World, checkpoint_sink, tell_manifest, recording_restores}
use fakery.Storage.Blob.{put}
use fakery.Storage.Checkpoints.Writer.{new_writer, append, put_manifest, manifest_key, folder}
use fakery.Tests.{code, sample_db}
use fakery.Storage.Checkpoints.{CheckpointChunk, restore_prefix}
use fakery.Storage.Checkpoints.RoundTrip.{IsStore, IsPlain}

-- A blob store in memory.
abbrev Objects : Type 0
Objects = Text → Option Text

abbrev put_object : Text → Text → Objects → Bool × Objects
put_object key bytes objects = (false, λ k. if text_eq k key then some bytes else objects k)

abbrev get_object : Text → Objects → Option Text
get_object key objects = objects key

abbrev bucket : Text
bucket = b'b' ∷ []

abbrev split_uri : Text → Option Url
split_uri uri = some (record { scheme = b's' ∷ b'3' ∷ []; hostname = none; path = drop 6 uri })

-- Texts and chunks, written one after the other with their lengths first.
abbrev write_text : Text → Text → Text
write_text t rest = length t ∷ (t ++ rest)

abbrev write_chunks : List CheckpointChunk → Text
write_chunks [] = []
write_chunks (c ∷ cs) =
    1
    ∷ c.sequence
    ∷ c.size
    ∷ write_text c.uri (write_text c.key (write_text c.sha256 (write_chunks cs)))

abbrev read_n : ℕ → Text → Option (Text × Text)
read_n zero t = some ([], t)
read_n (suc n) [] = none
read_n (suc n) (c ∷ t) = elim (read_n n t) [ none ↦ none | some r ↦ some (c ∷ r.0, r.1) ]

abbrev read_text : Text → Option (Text × Text)
read_text [] = none
read_text (n ∷ t) = read_n n t

read_n-append : (t rest : Text) → read_n (length t) (t ++ rest) ≡ some (t, rest)
read_n-append [] rest = refl
read_n-append (c ∷ t) rest = rw (read_n-append t rest) refl

-- One chunk and what comes after it.
abbrev read_chunk : Text → Option (CheckpointChunk × Text)
read_chunk (one ∷ sequence ∷ size ∷ t) = elim (read_text t) [
  | none ↦ none
  | some a ↦ elim (read_text a.1) [
    | none ↦ none
    | some b ↦ elim (read_text b.1) [
      | none ↦ none
      | some d ↦
          some
            (record { sequence = sequence; uri = a.0; key = b.0; size = size; sha256 = d.0 }, d.1)
    ]
  ]
]
read_chunk t = none

abbrev read_chunks : ℕ → Text → Option (List CheckpointChunk)
read_chunks zero t = some []
read_chunks (suc n) t = elim (read_chunk t) [
  | none ↦ none
  | some r ↦ elim (read_chunks n r.1) [ none ↦ none | some cs ↦ some (r.0 ∷ cs) ]
]

abbrev encode : Text → List CheckpointChunk → Text
encode bot_id chunks = length chunks ∷ write_chunks chunks

abbrev decode : Text → Option (List CheckpointChunk)
decode [] = none
decode (n ∷ t) = read_chunks n t

decode-encode :
    (chunks : List CheckpointChunk)
    → read_chunks (length chunks) (write_chunks chunks) ≡ some chunks
decode-encode [] = refl
decode-encode (c ∷ cs) =
    let digest = write_text c.sha256 (write_chunks cs) in
    rw (read_n-append c.uri (write_text c.key digest), read_chunks, read_chunk, read_text)
      (rw (read_n-append c.key digest)
        (rw (read_n-append c.sha256 (write_chunks cs)) (rw (decode-encode cs) refl)))

memory-IsStore : IsStore put_object get_object split_uri encode decode bucket
unfolding uri_of
memory-IsStore = record {
  read_back = λ key bytes c e. rw ((text_eq_iff key key).1 refl) refl;
  others = λ key other bytes c differ. elim (Bool-cases (text_eq other key)) [
    | inl same ↦ absurd (differ (sym ((text_eq_iff other key).0 same)))
    | inr e ↦ rw e refl
  ];
  splits = λ key plain. (_, refl, refl, refl);
  decodes = λ bot_id chunks. decode-encode chunks;
}

-- What the page gave in two polls and at the end.
abbrev polls : List (Option (List Text))
polls = some ((7 ∷ []) ∷ []) ∷ none ∷ some ((8 ∷ 9 ∷ []) ∷ []) ∷ []

abbrev last_poll : Option (List Text)
last_poll = some ((5 ∷ []) ∷ [])

abbrev digest : Text → Text
digest t = t

abbrev as_is : Text → Text
as_is t = t

abbrev nobody : Option (Text → Text → Text)
nobody = none

abbrev start_world : World Objects
start_world = (new_writer, (λ k. none), sample_db)

abbrev keeper : ℕ → Text → World Objects → Bool × World Objects
keeper = checkpoint_sink (put bucket put_object) encode digest none 210 1 code

stop_checkpoints_example :
    let polled = poll_loop nobody (some keeper) as_is polls (new_session [] start_world) in
    let (recording, left) = stop nobody (some keeper) as_is at_rest last_poll polled in
    (parts : List Text) × (joined_parts parts ≡ recording)
    × All (λ t. is_filled t ≡ true) parts
    × (replay keeper parts start_world ≡ (left.recorder.checkpoint_failed, left.world))
    × (left.recorder.checkpoint_sequence ≡ length parts)
stop_checkpoints_example = stop_checkpoints nobody as_is keeper start_world polls last_poll []

code-IsPlain : IsPlain code
code-IsPlain = (
  refl,
  (refl, (refl, (refl, (refl, (refl, (refl, (refl, (refl, (refl, (refl, (refl, tt))))))))))),
)

recording_restores_example :
    let polled = poll_loop nobody (some keeper) as_is polls (new_session [] start_world) in
    let (recording, left) = stop nobody (some keeper) as_is at_rest last_poll polled in
    (uri : Text) × (left.world.0.manifest_uri ≡ some uri)
    × (restore_prefix split_uri (λ k. get_object k left.world.1) decode digest uri
        ≡ some (record { prefix = recording; partial = false; checksum = recording }))
unfolding stop cut_poll poll_loop drain take_chunks take_chunk flush_checkpoint checkpoint_sink
    tell_manifest append put_manifest put set_checkpoint_manifest uri_of manifest_key folder change
    get Repository.get find_row new_run
recording_restores_example =
    recording_restores put_object get_object split_uri encode decode digest bucket none 210 1 code
      memory-IsStore code-IsPlain nobody as_is polls last_poll [] (λ k. none) sample_db refl refl

-- Five chunks are waiting for a checkpoint when `stop` cancels the call of the sink.
abbrev four : List Text
four = (1 ∷ []) ∷ (2 ∷ []) ∷ (3 ∷ []) ∷ (4 ∷ []) ∷ []

abbrev new_polled : Session Text (World Objects)
new_polled = poll_loop nobody (some keeper) as_is [] (new_session [] start_world)
