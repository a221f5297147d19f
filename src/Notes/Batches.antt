-- ===== src/Notes/Batches.antt =====
-- `split_segments` (src/twin/notes/summarizer.py): nothing is lost, and a batch fits in a prompt.
use mathlib.Core.List.{append_assoc}
use fakery.Prelude.{
  ℕ, suc, ◌+◌, ◌≤◌, ◌<◌, ◌≡◌, ◌∙◌, ap, refl, true, false, ◌&&◌, ◌⊎◌, inl, inr, List, [], ◌∷◌, ◌++◌,
  map, ltb, length, length-append, All, Bool-cases, arith,
}
use fakery.Bots.Service.{Segment}
use fakery.Notes.{
  heading, line, line_size, is_batch, split_from, split_segments, max_transcript_chars, join_lines,
  notes_prompt,
}

abbrev pub concat {ℓ} : {A : Type ℓ} → List (List A) → List A
concat [] = []
concat (x ∷ xs) = x ++ concat xs

split_from-concat :
    (current : List Segment) (size : ℕ) (ss : List Segment)
    → concat (split_from current size ss) ≡ current ++ ss
unfolding split_from
split_from-concat [] size [] = refl
split_from-concat (c ∷ cs) size [] = refl
split_from-concat current size (s ∷ ss) =
    elim (Bool-cases (is_batch current && ltb max_transcript_chars (size + line_size s))) [
      | inl full ↦ rw full (ap (λ l. current ++ l) (split_from-concat (s ∷ []) _ ss))
      | inr room ↦
          rw room (split_from-concat (current ++ s ∷ []) _ ss ∙ append_assoc current (s ∷ []) ss)
    ]

-- The batches of a transcript, one after the other, are the transcript.
pub split_segments-concat : (segments : List Segment) → concat (split_segments segments) ≡ segments
unfolding split_segments
split_segments-concat segments = split_from-concat [] (length heading) segments

-- What `size` counts.
abbrev size_of : List Segment → ℕ
size_of [] = length heading
size_of (s ∷ ss) = line_size s + size_of ss

-- A batch that a model is given: some segments, whose prompt is within the limit unless one segment
-- alone is longer.
pub record IsBatch (batch : List Segment) : Type 0 where
  pub filled : is_batch batch ≡ true
  pub fits : (length (notes_prompt batch) < max_transcript_chars) ⊎ (length batch ≡ 1)

size_of-append_one :
    (ss : List Segment) (s : Segment) → size_of (ss ++ s ∷ []) ≡ size_of ss + line_size s
size_of-append_one [] s = omega arith
size_of-append_one (t ∷ ss) s = omega (arith, size_of-append_one ss s)

-- A prompt has one character less than the loop counts, as its last line has no end.
joined_length :
    (s : Segment) (ss : List Segment)
    → suc (length heading + length (join_lines (map line (s ∷ ss)))) ≡ size_of (s ∷ ss)
joined_length s [] = omega arith
joined_length s (t ∷ ss) =
    omega (
      arith,
      joined_length t ss,
      length-append (line s) (b'\n' ∷ join_lines (line t ∷ map line ss)),
    )

prompt_length :
    (s : Segment) (ss : List Segment) → suc (length (notes_prompt (s ∷ ss))) ≡ size_of (s ∷ ss)
unfolding notes_prompt
prompt_length s ss =
    omega (arith, joined_length s ss, length-append heading (join_lines (map line (s ∷ ss))))

-- The batch that the loop fills is empty, one segment, or within the limit.
abbrev Room : List Segment → Type 0
Room [] = Unit
Room (s ∷ ss) = (size_of (s ∷ ss) ≤ max_transcript_chars) ⊎ (length (s ∷ ss) ≡ 1)

closed-IsBatch : (current : List Segment) → is_batch current ≡ true → Room current → IsBatch current
closed-IsBatch [] h room = absurd (ground arith)
closed-IsBatch (s ∷ ss) h (inl small) = record {
  filled = refl;
  fits = inl (omega (arith, prompt_length s ss));
}
closed-IsBatch (s ∷ ss) h (inr single) = record { filled = refl; fits = inr single }

grown-Room :
    (current : List Segment) (s : Segment)
    → (is_batch current && ltb max_transcript_chars (size_of current + line_size s)) ≡ false
    → Room (current ++ s ∷ [])
grown-Room [] s h = inr refl
grown-Room (c ∷ cs) s h = inl (ground (arith, size_of-append_one (c ∷ cs) s))

split_from-IsBatch :
    (current : List Segment) (size : ℕ) (ss : List Segment)
    → size ≡ size_of current
    → Room current
    → All IsBatch (split_from current size ss)
unfolding split_from
split_from-IsBatch current size [] e room = elim (Bool-cases (is_batch current)) [
  | inl some_left ↦ rw some_left (closed-IsBatch current some_left room, tt)
  | inr none_left ↦ rw none_left tt
]
split_from-IsBatch current size (s ∷ ss) e room =
    elim (Bool-cases (is_batch current && ltb max_transcript_chars (size + line_size s))) [
      | inl full ↦ rw full (
        closed-IsBatch current (ground arith) room,
        split_from-IsBatch (s ∷ []) _ ss (omega arith) (inr refl),
      )
      | inr more ↦ rw more (
          split_from-IsBatch (current ++ s ∷ []) _ ss
            (omega (arith, e, size_of-append_one current s)) (grown-Room current s (rw e at more)))
    ]

-- Every batch has a segment, and its prompt stays under the limit unless it is one segment alone.
pub split_segments-IsBatch : (segments : List Segment) → All IsBatch (split_segments segments)
unfolding split_segments
split_segments-IsBatch segments = split_from-IsBatch [] (length heading) segments refl tt
