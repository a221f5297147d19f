-- ===== src/Transcription.antt =====
-- The speakers of a transcript in src/twin/transcription/transcriber.py. A word is its times in
-- milliseconds, as `int(… * 1000)` gives them, and the number of its speaker; `show` is `str` of a
-- number.
pub mod Majority
pub mod Segments
use fakery.Prelude.{
  ℕ, suc, ◌+◌, Bool, ◌&&◌, Option, none, some, List, [], ◌∷◌, Text, if◌then◌else◌, ◌==◌, ltb,
  filter,
}

pub record Word : Type 0 where
  pub start_ms : ℕ
  pub end_ms : ℕ
  pub speaker : Option ℕ

-- `counts`, in the order of `order`
unfoldable pub add_vote : ℕ → List (ℕ × ℕ) → List (ℕ × ℕ)
add_vote speaker [] = (speaker, 1) ∷ []
add_vote speaker ((s, n) ∷ rest) =
    if s == speaker then (s, suc n) ∷ rest else (s, n) ∷ add_vote speaker rest

unfoldable pub votes : List Word → List (ℕ × ℕ) → List (ℕ × ℕ)
votes [] acc = acc
votes (w ∷ ws) acc = elim w.speaker [ none ↦ votes ws acc | some s ↦ votes ws (add_vote s acc) ]

-- `max(order, key=…)`: the first of those with the most votes.
unfoldable pub leader : ℕ × ℕ → List (ℕ × ℕ) → ℕ × ℕ
leader best [] = best
leader best (v ∷ rest) = leader (if ltb best.1 v.1 then v else best) rest

unfoldable pub first_leader : List (ℕ × ℕ) → Option (ℕ × ℕ)
first_leader [] = none
first_leader (v ∷ rest) = some (leader v rest)

-- `_majority_speaker`, before `str`
unfoldable pub majority_speaker : List Word → Option ℕ
majority_speaker words = elim (first_leader (votes words [])) [ none ↦ none | some v ↦ some v.0 ]

unfoldable pub words_in_range : List Word → ℕ → ℕ → List Word
words_in_range words start_ms end_ms =
    filter (λ w. ltb w.start_ms end_ms && ltb start_ms w.end_ms) words

-- `_batch_speaker`: the speaker of the sentence, or the majority of the words that it overlaps.
unfoldable pub batch_speaker : Option ℕ → ℕ → ℕ → List Word → Option ℕ
batch_speaker (some direct) start_ms end_ms words = some direct
batch_speaker none start_ms end_ms words = majority_speaker (words_in_range words start_ms end_ms)
