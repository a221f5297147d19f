-- ===== src/Bots/Merge.antt =====
-- The merge of live and batch transcripts in src/twin/bots/runtime.py: `_confident_split`,
-- `_uncovered_batch_segments` and `_covered_by_live`. A comparison of a quotient with a threshold
-- is that of the products, 3/20 for the share of a speaker and 1/4 for the coverage.
pub mod Coverage
use fakery.Prelude.{
  ℕ, suc, ◌+◌, ◌-◌, ◌*◌, min, max, Bool, true, false, ◌&&◌, not, Option, none, some, List, [], ◌∷◌,
  Text, text_eq, if◌then◌else◌, ◌==◌, ltb, leb, filter, sort_by, length,
}
use fakery.Bots.Service.{Segment}

-- `durations[speaker] = durations.get(speaker, 0) + …`, in insertion order
unfoldable pub add_duration : Text → ℕ → List (Text × ℕ) → List (Text × ℕ)
add_duration speaker d [] = (speaker, d) ∷ []
add_duration speaker d ((s, n) ∷ rest) =
    if text_eq s speaker then (s, n + d) ∷ rest else (s, n) ∷ add_duration speaker d rest

unfoldable pub durations : List Segment → List (Text × ℕ) → List (Text × ℕ)
durations [] acc = acc
durations (s ∷ ss) acc = elim s.speaker [
  | none ↦ durations ss acc
  | some speaker ↦ durations ss (add_duration speaker (s.end_ms - s.start_ms) acc)
]

abbrev pub total : List (Text × ℕ) → ℕ
total [] = 0
total ((s, n) ∷ rest) = n + total rest

abbrev pub smallest : List (Text × ℕ) → ℕ
smallest [] = 0
smallest ((s, n) ∷ []) = n
smallest ((s, n) ∷ t ∷ rest) = min n (smallest (t ∷ rest))

-- None where the speakers have no time at all: the division raises `ZeroDivisionError`.
unfoldable pub confident_split : List Segment → Option Bool
confident_split segments =
    let found = durations segments [] in
    if ltb (length found) 2
    then some false
    else if total found == 0
    then none
    else some (leb (3 * total found) (20 * smallest found))

abbrev pub by_start_ms : Segment → Segment → Bool
by_start_ms a b = leb a.start_ms b.start_ms

-- The parts of a candidate that the live segments cover, in the order of their starts.
unfoldable pub covered_ranges : Segment → List Segment → List (ℕ × ℕ)
covered_ranges candidate [] = []
covered_ranges candidate (s ∷ ss) =
    let start = max candidate.start_ms s.start_ms in
    let stop = min candidate.end_ms s.end_ms in
    let rest = covered_ranges candidate ss in if ltb start stop then (start, stop) ∷ rest else rest

-- The loop that merges the ranges, behind its first turn: what is covered so far, and the range that is
-- open.
unfoldable pub merged : ℕ → ℕ → ℕ → List (ℕ × ℕ) → ℕ
merged covered current_start current_end [] = covered + (current_end - current_start)
merged covered current_start current_end ((start, stop) ∷ rest) =
    if leb start current_end
    then merged covered current_start (max current_end stop) rest
    else merged (covered + (current_end - current_start)) start stop rest

unfoldable pub covered : List (ℕ × ℕ) → ℕ
covered [] = 0
covered ((start, stop) ∷ rest) = merged 0 start stop rest

unfoldable pub covered_by_live : Segment → List Segment → Bool
covered_by_live candidate live =
    let duration = max 1 (candidate.end_ms - candidate.start_ms) in
    leb duration (4 * covered (covered_ranges candidate (sort_by by_start_ms live)))

unfoldable pub uncovered_batch_segments : List Segment → List Segment → List Segment
uncovered_batch_segments [] batch = batch
uncovered_batch_segments (l ∷ live) batch = filter (λ s. not (covered_by_live s (l ∷ live))) batch
