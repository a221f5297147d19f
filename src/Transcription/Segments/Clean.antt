-- ===== src/Transcription/Segments/Clean.antt =====
-- The texts of the segments of src/twin/transcription/transcriber.py.
use fakery.Prelude.{
  ℕ, ◌≡◌, refl, ◌⊎◌, Bool, true, false, not, Option, none, some, List, [], ◌∷◌, Text, All,
  Bool-cases, inl, inr,
}
use fakery.Bots.MeetingUrl.{is_filled}
use fakery.Bots.Service.{Segment}
use fakery.Transcription.{Word}
use fakery.Transcription.Segments.{
  is_space, lstrip, rstrip, put_before, strip, stripped, listed, LiveAlternative, LiveMessage,
  Sentence, Alternative, Response, sentences_of, live_segment, segment_of, sentence_segments,
  whole_segment, or_whole, prerecorded_segments,
}

-- A text has only characters that are taken away.
abbrev pub Blank : Text → Type 0
Blank t = All (λ c. is_space c ≡ true) t

abbrev pub starts_bare : Text → Bool
starts_bare [] = false
starts_bare (c ∷ t) = not (is_space c)

abbrev pub ends_bare : Text → Bool
ends_bare [] = false
ends_bare (c ∷ []) = not (is_space c)
ends_bare (c ∷ d ∷ t) = ends_bare (d ∷ t)

-- A text has a first and a last character, and neither is taken away.
abbrev pub IsClean : Text → Type 0
IsClean t = (starts_bare t ≡ true) × (ends_bare t ≡ true)

abbrev Stripped : Text → Text → Type 0
Stripped t [] = Blank t
Stripped t (c ∷ u) = IsClean (c ∷ u)

lstrip_cases : (t : Text) → (Blank t × (lstrip t ≡ [])) ⊎ (starts_bare (lstrip t) ≡ true)
unfolding lstrip
lstrip_cases [] = inl (tt, refl)
lstrip_cases (c ∷ t) = elim (Bool-cases (is_space c)) [
  | inl e ↦ elim (lstrip_cases t) [ inl h ↦ inl ((e, h.0), rw e h.1) | inr h ↦ inr (rw e h) ]
  | inr e ↦ inr (rw e (rw e refl))
]

put_before_starts : (c : ℕ) (t : Text) → is_space c ≡ false → starts_bare (put_before c t) ≡ true
unfolding put_before
put_before_starts c [] e = rw e (rw e refl)
put_before_starts c (d ∷ t) e = rw e refl

rstrip_starts : (t : Text) → starts_bare t ≡ true → starts_bare (rstrip t) ≡ true
unfolding rstrip
rstrip_starts [] h = h
rstrip_starts (c ∷ t) h = elim (Bool-cases (is_space c)) [
  | inl e ↦ absurd (cc (e, h))
  | inr e ↦ put_before_starts c (rstrip t) e
]

Ends : Text → Text → Type 0
Ends t [] = Blank t
Ends t (c ∷ u) = ends_bare (c ∷ u) ≡ true

put_before-Ends : (c : ℕ) (t u : Text) → Ends t u → Ends (c ∷ t) (put_before c u)
unfolding Ends put_before
put_before-Ends c t [] h = elim (Bool-cases (is_space c)) [
  | inl e ↦ rw e (e, h)
  | inr e ↦ rw e (rw e refl)
]
put_before-Ends c t (d ∷ u) h = h

rstrip-Ends : (t : Text) → Ends t (rstrip t)
unfolding Ends rstrip
rstrip-Ends [] = tt
rstrip-Ends (c ∷ t) = put_before-Ends c t (rstrip t) (rstrip-Ends t)

bare-Stripped : (l t u : Text) → starts_bare u ≡ true → Ends l u → Stripped t u
unfolding Ends
bare-Stripped l t [] h e = absurd (cc h)
bare-Stripped l t (c ∷ u) h e = (h, e)

strip-Stripped : (t : Text) → Stripped t (strip t)
unfolding strip rstrip
strip-Stripped t = elim (lstrip_cases t) [
  | inl h ↦ rw h.1 h.0
  | inr h ↦ bare-Stripped (lstrip t) t _ (rstrip_starts (lstrip t) h) (rstrip-Ends (lstrip t))
]

-- There is no text, or one of characters that are taken away.
abbrev pub Silent : Option Text → Type 0
Silent none = Unit {0}
Silent (some t) = Blank t

abbrev Kept : Option Text → Text → Type 0
Kept t [] = Silent t
Kept t (c ∷ u) = IsClean (c ∷ u)

some-Kept : (t u : Text) → Stripped t u → Kept (some t) u
some-Kept t [] h = h
some-Kept t (c ∷ u) h = h

stripped-Kept : (t : Option Text) → Kept t (stripped t)
unfolding stripped
stripped-Kept none = tt
stripped-Kept (some t) = some-Kept t (strip t) (strip-Stripped t)

filled-IsClean : (t : Option Text) (u : Text) → Kept t u → is_filled u ≡ true → IsClean u
filled-IsClean t [] k h = absurd (cc h)
filled-IsClean t (c ∷ u) k h = k

empty-Silent : (t : Option Text) (u : Text) → Kept t u → is_filled u ≡ false → Silent t
empty-Silent t [] k h = k
empty-Silent t (c ∷ u) k h = absurd (cc h)

abbrev AllClean : List Segment → Type 0
AllClean = All (λ s. IsClean s.text)

abbrev AllSilent : List Sentence → Type 0
AllSilent = All (λ s. Silent s.text)

-- What a provider sent and the segments that were read from it.
abbrev Read : List Sentence → List Segment → Type 0
Read sentences [] = AllSilent sentences
Read sentences (s ∷ ss) = AllClean (s ∷ ss)

abbrev pub Heard : Option Alternative → List Segment → Type 0
Heard none segments = segments ≡ []
Heard (some a) [] = AllSilent (sentences_of (listed a.paragraphs)) × Silent a.transcript
Heard (some a) (s ∷ segments) = AllClean (s ∷ segments)

abbrev pub HeardLive : LiveMessage → Option Segment → Type 0
HeardLive message (some segment) = IsClean segment.text
HeardLive message none = elim message.alternative [ none ↦ Unit {0} | some a ↦ Silent a.transcript ]

Read-AllClean :
    (ss : List Sentence) (segments : List Segment) → Read ss segments → AllClean segments
Read-AllClean ss [] h = tt
Read-AllClean ss (s ∷ segments) h = h

module _ (show : ℕ → Text) where
  Read-Silent :
      (s : Sentence) (ss : List Sentence) (segments : List Segment)
      → Silent s.text
      → Read ss segments
      → Read (s ∷ ss) segments
  Read-Silent s ss [] h r = (h, r)
  Read-Silent s ss (t ∷ segments) h r = r

  segments-Read :
      (words : List Word) (ss : List Sentence) → Read ss (sentence_segments show words ss)
  unfolding sentence_segments segment_of
  segments-Read words [] = tt
  segments-Read words (s ∷ ss) =
      let rest = segments-Read words ss in
      let kept = stripped-Kept s.text in
      elim (Bool-cases (is_filled (stripped s.text))) [
        | inl e ↦ rw e (filled-IsClean s.text _ kept e, Read-AllClean ss _ rest)
        | inr e ↦ rw e (Read-Silent s ss _ (empty-Silent s.text _ kept e) rest)
      ]

  whole-Heard :
      (n : ℕ) (a : Alternative)
      → AllSilent (sentences_of (listed a.paragraphs))
      → Heard (some a) (whole_segment n a.transcript)
  unfolding whole_segment
  whole-Heard n a h =
      let kept = stripped-Kept a.transcript in
      elim (Bool-cases (is_filled (stripped a.transcript))) [
        | inl e ↦ rw e (filled-IsClean a.transcript _ kept e, tt)
        | inr e ↦ rw e (h, empty-Silent a.transcript _ kept e)
      ]

  or_whole-Heard :
      (n : ℕ) (a : Alternative) (segments : List Segment)
      → Read (sentences_of (listed a.paragraphs)) segments
      → Heard (some a) (or_whole segments (whole_segment n a.transcript))
  unfolding or_whole
  or_whole-Heard n a [] r = whole-Heard n a r
  or_whole-Heard n a (s ∷ segments) r = r

  alternative-Heard :
      (a : Option Alternative) (n : ℕ)
      → Heard a (prerecorded_segments show (record { alternative = a; duration_ms = n }))
  unfolding prerecorded_segments
  alternative-Heard none n = refl
  alternative-Heard (some a) n = or_whole-Heard n a _ (segments-Read (listed a.words) _)

  -- Every segment of a prerecorded response has a text that begins and ends with a character that is
  -- not a space; and where there is no segment, nothing was said: the response cannot be looked up, or
  -- its sentences and its transcript hold spaces only.
  pub prerecorded_segments-Heard :
      (response : Response) → Heard response.alternative (prerecorded_segments show response)
  prerecorded_segments-Heard response = alternative-Heard response.alternative response.duration_ms

  live_text-HeardLive :
      (a : Option LiveAlternative) (start_ms end_ms : ℕ) (is_final speech_final : Bool)
      → (let message : LiveMessage = record {
        alternative = a;
        start_ms = start_ms;
        end_ms = end_ms;
        is_final = is_final;
        speech_final = speech_final;
      } in
          HeardLive message (live_segment show message))
  unfolding live_segment
  live_text-HeardLive none s e f g = tt
  live_text-HeardLive (some a) s e f g =
      let kept = stripped-Kept a.transcript in
      elim (Bool-cases (is_filled (stripped a.transcript))) [
        | inl h ↦ rw h (filled-IsClean a.transcript _ kept h)
        | inr h ↦ rw h (empty-Silent a.transcript _ kept h)
      ]

  -- The segment of a live message has such a text, and a message without one said nothing.
  pub live_segment-HeardLive :
      (message : LiveMessage) → HeardLive message (live_segment show message)
  live_segment-HeardLive message =
      live_text-HeardLive message.alternative message.start_ms message.end_ms message.is_final
        message.speech_final
