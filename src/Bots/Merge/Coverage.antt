-- ===== src/Bots/Merge/Coverage.antt =====
-- How much of a candidate `_covered_by_live` (src/twin/bots/runtime.py) can find covered.
use fakery.Prelude.{
  ℕ, ◌+◌, ◌-◌, ◌≤◌, min, max, List, [], ◌∷◌, All, ltb, leb, arith, sort_by, Bool-cases, inl, inr,
}
use fakery.Bots.Service.{Segment}
use fakery.Bots.Merge.{covered_ranges, merged, covered, by_start_ms}

-- Ranges that lie in a window.
abbrev Inside : ℕ → ℕ → List (ℕ × ℕ) → Type 0
Inside a b rs = All (λ r. (a ≤ r.0) × (r.0 ≤ r.1) × (r.1 ≤ b)) rs

covered_ranges-Inside :
    (candidate : Segment) (ss : List Segment)
    → Inside candidate.start_ms candidate.end_ms (covered_ranges candidate ss)
unfolding covered_ranges
covered_ranges-Inside candidate [] = tt
covered_ranges-Inside candidate (s ∷ ss) =
    elim (Bool-cases (ltb (max candidate.start_ms s.start_ms) (min candidate.end_ms s.end_ms))) [
      | inl e ↦
          rw e ((omega arith, ground (arith, e), omega arith), covered_ranges-Inside candidate ss)
      | inr e ↦ rw e (covered_ranges-Inside candidate ss)
    ]

-- What is covered so far lies before the open range.
merged_bound :
    (a b c s t : ℕ) (rs : List (ℕ × ℕ))
    → Inside a b rs
    → a + c ≤ s
    → s ≤ t
    → t ≤ b
    → a + merged c s t rs ≤ b
unfolding merged
merged_bound a b c s t [] i h k l = omega arith
merged_bound a b c s t ((x, y) ∷ rs) i h k l = elim (Bool-cases (leb x t)) [
  | inl e ↦ rw e (merged_bound a b c s (max t y) rs i.1 h (omega arith) (omega (arith, i.0)))
  | inr e ↦
      rw e
        (merged_bound a b (c + (t - s)) x y rs i.1 (ground (arith, e)) (i.0).1 (omega (arith, i.0)))
]

covered_bound : (a b : ℕ) (rs : List (ℕ × ℕ)) → Inside a b rs → covered rs ≤ b - a
unfolding covered
covered_bound a b [] i = omega arith
covered_bound a b ((x, y) ∷ rs) i =
    omega
      (arith, i.0, merged_bound a b 0 x y rs i.1 (omega (arith, i.0)) (i.0).1 (omega (arith, i.0)))

-- What live segments cover of a candidate is never more than the candidate lasts: no part is counted
-- twice, however the live segments overlap.
pub covered_at_most :
    (candidate : Segment) (live : List Segment)
    → covered (covered_ranges candidate (sort_by by_start_ms live))
      ≤ candidate.end_ms - candidate.start_ms
covered_at_most candidate live =
    covered_bound candidate.start_ms candidate.end_ms _ (covered_ranges-Inside candidate _)
