-- ===== src/Transcription/Majority.antt =====
-- The winner of `_majority_speaker` (src/twin/transcription/transcriber.py).
use fakery.Prelude.{
  ℕ, ◌≤◌, ◌≡◌, refl, Option, none, some, List, [], ◌∷◌, All, if◌then◌else◌, ltb, arith,
}
use fakery.Transcription.{Word, votes, leader, first_leader}

better_first : (a b : ℕ × ℕ) (n : ℕ) → (if ltb a.1 b.1 then b else a).1 ≤ n → a.1 ≤ n
better_first a b n h = ground arith

better_second : (a b : ℕ × ℕ) (n : ℕ) → (if ltb a.1 b.1 then b else a).1 ≤ n → b.1 ≤ n
better_second a b n h = ground arith

leader_most :
    (best : ℕ × ℕ) (rest : List (ℕ × ℕ))
    → (best.1 ≤ (leader best rest).1) × All (λ v. v.1 ≤ (leader best rest).1) rest
unfolding leader
leader_most best [] = (omega arith, tt)
leader_most best (v ∷ rest) =
    let (first, others) = leader_most (if ltb best.1 v.1 then v else best) rest in
    (better_first best v _ first, (better_second best v _ first, others))

abbrev pub Most : List (ℕ × ℕ) → Option (ℕ × ℕ) → Type 0
Most vs none = vs ≡ []
Most vs (some v) = All (λ w. w.1 ≤ v.1) vs

first-Most : (vs : List (ℕ × ℕ)) → Most vs (first_leader vs)
unfolding first_leader
first-Most [] = refl
first-Most (v ∷ rest) = leader_most v rest

-- No speaker has more of the words than the one that leads the count, and where none leads it no word
-- was counted.
pub first_leader-Most : (words : List Word) → Most (votes words []) (first_leader (votes words []))
first_leader-Most words = first-Most (votes words [])
