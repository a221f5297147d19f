-- ===== src/Bots/Service/Artifacts/Segments.antt =====
-- `ingest_segment` and `annotate_speakers` of src/twin/bots/service.py.
use fakery.Prelude.{
  ℕ, ◌+◌, ◌≡◌, refl, Option, none, some, List, [], ◌∷◌, Text, is_some, count_if, Option-cases, inl,
  inr, arith,
}
use fakery.Core.Action.{Result, ok, err}
use fakery.Core.Errors.{external}
use fakery.Bots.Models.{TranscriptSegment, Db}
use fakery.Bots.Repository
use fakery.Bots.Repository.{is_unattributed, attribute}
use fakery.Bots.Service.{EventSink, Segment}
use fakery.Bots.Service.Artifacts.{annotate_speakers}

-- A sink that leaves the transcript alone.
pub record KeepsTranscript (sink : EventSink) : Type 0 where
  pub on_segment :
      (s : TranscriptSegment) (db : Db) → (sink.transcript_segment s db).segments ≡ db.segments

abbrev pub KeepTranscript : Option EventSink → Type 0
KeepTranscript none = Unit
KeepTranscript (some sink) = KeepsTranscript sink

-- The row that a report gave, if it gave one, is what the next report gives, which writes nothing; a
-- report that raises writes nothing, and found the segment more than once.
abbrev pub Ingested :
    Result TranscriptSegment → Db → Db → (Db → Result TranscriptSegment × Db) → Type 0
Ingested (ok stored) db db' again = again db' ≡ (ok stored, db')
Ingested (err e) db db' again = (e ≡ external "MultipleResultsFound") × (db' ≡ db)

-- The rows of a run without a speaker that the words of a speaker overlap.
attributed :
    (bot_id start_ms end_ms : ℕ) (speaker : Text) (ss : List TranscriptSegment)
    → let (rows, count) = attribute bot_id start_ms end_ms speaker ss in
      (count ≡ count_if (is_unattributed bot_id start_ms end_ms) ss)
      × (count_if (λ (t : TranscriptSegment). is_some t.speaker) rows
          ≡ count_if (λ (t : TranscriptSegment). is_some t.speaker) ss + count)
attributed bot_id start_ms end_ms speaker [] = (refl, refl)
attributed bot_id start_ms end_ms speaker (s ∷ ss) =
    ground (arith, attributed bot_id start_ms end_ms speaker ss)

attributed_one :
    (bot_id start_ms end_ms : ℕ) (speaker : Text) (db : Db)
    → let (count, db') = Repository.annotate_speakers bot_id start_ms end_ms speaker db in
      count_if (λ (t : TranscriptSegment). is_some t.speaker) db'.segments
      ≡ count_if (λ (t : TranscriptSegment). is_some t.speaker) db.segments + count
unfolding Repository.annotate_speakers
attributed_one bot_id start_ms end_ms speaker db =
    (attributed bot_id start_ms end_ms speaker db.segments).1

-- What `annotate_speakers` reports is exactly the number of rows that had no speaker and have one now.
pub annotate_speakers_counts :
    (bot_id : ℕ) (ss : List Segment) (db : Db)
    → let (count, db') = annotate_speakers bot_id ss db in
      count_if (λ (t : TranscriptSegment). is_some t.speaker) db'.segments
      ≡ count_if (λ (t : TranscriptSegment). is_some t.speaker) db.segments + count
unfolding annotate_speakers
annotate_speakers_counts bot_id [] db = omega arith
annotate_speakers_counts bot_id (s ∷ ss) db = elim (Option-cases s.speaker) [
  | inl e ↦ rw e (annotate_speakers_counts bot_id ss db)
  | inr (speaker, e) ↦ rw e (
      omega (
        arith,
        annotate_speakers_counts bot_id ss
            (Repository.annotate_speakers bot_id s.start_ms s.end_ms speaker db).1,
        attributed_one bot_id s.start_ms s.end_ms speaker db,
      ))
]
