-- ===== src/Notes.antt =====
-- src/twin/notes/summarizer.py: the transcript as a prompt, in batches that a model can take.
pub mod Batches
use fakery.Prelude.{
  ℕ, zero, suc, ◌+◌, ◌/◌, ◌%◌, Bool, true, false, ◌&&◌, not, Option, none, some, List, [], ◌∷◌,
  ◌++◌, map, Text, digits_by, if◌then◌else◌, ltb, length,
}
use fakery.Bots.Models.{ActionItem}
use fakery.Bots.MeetingUrl.{is_filled}
use fakery.Bots.Service.{Segment, MeetingNotes}

abbrev pub max_transcript_chars : ℕ
max_transcript_chars = 100_000

-- `f"{n:02d}"`
unfoldable pub two_digits : ℕ → Text
two_digits n = if ltb n 10 then b'0' ∷ (b'0' + n) ∷ [] else digits_by n n

-- `_stamp`
unfoldable pub stamp : ℕ → Text
stamp start_ms =
    let total = start_ms / 1000 in two_digits (total / 60) ++ b':' ∷ two_digits (total % 60)

abbrev pub speaker_of : Option Text → Text
speaker_of none = b'?' ∷ []
speaker_of (some s) = s

-- `_line`
unfoldable pub line : Segment → Text
line segment =
    b'[' ∷ stamp segment.start_ms
    ++ b']' ∷ b' ' ∷ b'(' ∷ b's' ∷ b'p' ∷ b'k' ∷ b'-' ∷ speaker_of segment.speaker
    ++ b')' ∷ b' ' ∷ segment.text

abbrev pub heading : Text
heading = b'T' ∷ b'r' ∷ b'a' ∷ b'n' ∷ b's' ∷ b'c' ∷ b'r' ∷ b'i' ∷ b'p' ∷ b't' ∷ b':' ∷ b'\n' ∷ []

-- `"\n".join(…)`
abbrev pub join_lines : List Text → Text
join_lines [] = []
join_lines (t ∷ []) = t
join_lines (t ∷ u ∷ ts) = t ++ b'\n' ∷ join_lines (u ∷ ts)

unfoldable pub notes_prompt : List Segment → Text
notes_prompt segments = heading ++ join_lines (map line segments)

abbrev pub line_size : Segment → ℕ
line_size segment = length (line segment) + 1

abbrev pub is_batch : List Segment → Bool
is_batch [] = false
is_batch (s ∷ ss) = true

-- The loop of `split_segments`, with the batch that it fills and its size.
unfoldable pub split_from : List Segment → ℕ → List Segment → List (List Segment)
split_from current size [] = if is_batch current then current ∷ [] else []
split_from current size (s ∷ ss) =
    if is_batch current && ltb max_transcript_chars (size + line_size s)
    then current ∷ split_from (s ∷ []) (length heading + line_size s) ss
    else split_from (current ++ s ∷ []) (size + line_size s) ss

unfoldable pub split_segments : List Segment → List (List Segment)
split_segments segments = split_from [] (length heading) segments

abbrev pub flat_map {ℓ κ} : {A : Type ℓ} {B : Type κ} → (A → List B) → List A → List B
flat_map f [] = []
flat_map f (x ∷ xs) = f x ++ flat_map f xs

abbrev pub summary_of : MeetingNotes → List Text
summary_of n = if is_filled n.summary then n.summary ∷ [] else []

abbrev pub points_of : MeetingNotes → List Text
points_of n = n.key_points

abbrev pub items_of : MeetingNotes → List ActionItem
items_of n = n.action_items

-- `summarize_segments`; `summarize` is what the model answers to a batch.
unfoldable pub summarize_segments : (List Segment → MeetingNotes) → List Segment → MeetingNotes
summarize_segments summarize segments =
    let notes = map summarize (split_segments segments) in
    record {
      summary = join_lines (flat_map summary_of notes);
      key_points = flat_map points_of notes;
      action_items = flat_map items_of notes;
    }
