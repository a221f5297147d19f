-- ===== src/Transcription/Segments.antt =====
-- The segments that `live_segment` and `prerecorded_segments` of src/twin/transcription/transcriber.py
-- read from what the provider sent. A time is the number that `int(… * 1000)` gives, a missing or
-- empty attribute is none, and an `alternative` of none is one that cannot be looked up.
pub mod Clean
use fakery.Prelude.{
  ℕ, Bool, true, ◌&&◌, ◌||◌, Option, none, some, List, [], ◌∷◌, ◌++◌, Text, if◌then◌else◌, ◌==◌,
  leb,
}
use fakery.Bots.MeetingUrl.{is_filled}
use fakery.Bots.Service.{Segment}
use fakery.Transcription.{Word, majority_speaker, batch_speaker}

-- The characters that `str.strip` takes away.
abbrev pub is_space : ℕ → Bool
is_space c =
    (leb 9 c && leb c 13)
    || (leb 28 c && leb c 32)
    || c == 0x85
    || c == 0xa0
    || c == 0x1680
    || (leb 0x2000 c && leb c 0x200a)
    || c == 0x2028
    || c == 0x2029
    || c == 0x202f
    || c == 0x205f
    || c == 0x3000

unfoldable pub lstrip : Text → Text
lstrip [] = []
lstrip (c ∷ t) = if is_space c then lstrip t else c ∷ t

unfoldable pub put_before : ℕ → Text → Text
put_before c [] = if is_space c then [] else c ∷ []
put_before c (d ∷ t) = c ∷ d ∷ t

unfoldable pub rstrip : Text → Text
rstrip [] = []
rstrip (c ∷ t) = put_before c (rstrip t)

-- `str.strip()`
unfoldable pub strip : Text → Text
strip t = rstrip (lstrip t)

-- `(text or "").strip()`
unfoldable pub stripped : Option Text → Text
stripped none = []
stripped (some t) = strip t

abbrev pub listed {ℓ} : {A : Type ℓ} → Option (List A) → List A
listed none = []
listed (some xs) = xs

-- `words[-1].end`, where `end_ms` is that of the message.
abbrev last_end : ℕ → List Word → ℕ
last_end end_ms [] = end_ms
last_end end_ms (w ∷ ws) = last_end w.end_ms ws

abbrev first_start : ℕ → List Word → ℕ
first_start start_ms [] = start_ms
first_start start_ms (w ∷ ws) = w.start_ms

abbrev shown : (ℕ → Text) → Option ℕ → Option Text
shown show none = none
shown show (some speaker) = some (show speaker)

pub record LiveAlternative : Type 0 where
  pub transcript : Option Text
  pub words : Option (List Word)

-- `end_ms` is `int((message.start + message.duration) * 1000)`.
pub record LiveMessage : Type 0 where
  pub alternative : Option LiveAlternative
  pub start_ms : ℕ
  pub end_ms : ℕ
  pub is_final : Bool
  pub speech_final : Bool

pub record Sentence : Type 0 where
  pub text : Option Text
  pub start_ms : ℕ
  pub end_ms : ℕ
  pub speaker : Option ℕ

-- `paragraphs` holds the sentences of each paragraph.
pub record Alternative : Type 0 where
  pub paragraphs : Option (List (Option (List Sentence)))
  pub words : Option (List Word)
  pub transcript : Option Text

pub record Response : Type 0 where
  pub alternative : Option Alternative
  pub duration_ms : ℕ

unfoldable pub sentences_of : List (Option (List Sentence)) → List Sentence
sentences_of [] = []
sentences_of (p ∷ ps) = listed p ++ sentences_of ps

-- The transcript as one segment, where no sentence gives one.
unfoldable pub whole_segment : ℕ → Option Text → List Segment
whole_segment duration_ms transcript =
    let text = stripped transcript in
    if is_filled text
    then record { text = text; start_ms = 0; end_ms = duration_ms; final = true; speaker = none }
      ∷ []
    else []

unfoldable pub or_whole : List Segment → List Segment → List Segment
or_whole [] whole = whole
or_whole (s ∷ ss) whole = s ∷ ss

module _ (show : ℕ → Text) where
  unfoldable pub live_segment : LiveMessage → Option Segment
  live_segment message = elim message.alternative [
    | none ↦ none
    | some alternative ↦
        let text = stripped alternative.transcript in
        let words = listed alternative.words in
        if is_filled text
        then some (record {
          text = text;
          start_ms = first_start message.start_ms words;
          end_ms = last_end message.end_ms words;
          final = message.is_final || message.speech_final;
          speaker = shown show (majority_speaker words);
        })
        else none
  ]

  -- The segment of a sentence
  unfoldable pub segment_of : List Word → Sentence → Segment
  segment_of words sentence = record {
    text = stripped sentence.text;
    start_ms = sentence.start_ms;
    end_ms = sentence.end_ms;
    final = true;
    speaker = shown show (batch_speaker sentence.speaker sentence.start_ms sentence.end_ms words);
  }

  unfoldable pub sentence_segments : List Word → List Sentence → List Segment
  sentence_segments words [] = []
  sentence_segments words (s ∷ ss) =
      let rest = sentence_segments words ss in
      if is_filled (stripped s.text) then segment_of words s ∷ rest else rest

  unfoldable pub prerecorded_segments : Response → List Segment
  prerecorded_segments response = elim response.alternative [
    | none ↦ []
    | some alternative ↦
        or_whole
          (sentence_segments (listed alternative.words)
            (sentences_of (listed alternative.paragraphs)))
          (whole_segment response.duration_ms alternative.transcript)
  ]
