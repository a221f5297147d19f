-- ===== src/Core/Waiting.antt =====
-- The loops that wait: they look at the world, sleep, and look again until a deadline. `time i` is
-- what the clock says when the loop looks for the time `i`.
use fakery.Prelude.{
  ℕ, zero, suc, ◌+◌, ◌*◌, ◌/◌, ◌≤◌, ◌<◌, ◌≡◌, refl, Option, none, some, ltb, ltb→lt, leb,
  if◌then◌else◌, arith, Bool-cases, inl, inr, ◌⊎◌,
}

-- One look: the loop returns, or goes on with a changed state.
pub data Look {ℓ} (A S : Type ℓ) : Type ℓ where
  found : A → Look A S
  again : S → Look A S

-- How a loop ended.
pub data End {ℓ} (A S : Type ℓ) : Type ℓ where
  returned : ℕ → A → End A S
  expired : ℕ → S → End A S

-- A clock that goes on by at least `pause` between two looks.
abbrev pub Ticks : ℕ → (ℕ → ℕ) → Type 0
Ticks pause time = (i : ℕ) → time i + pause ≤ time (suc i)

-- Looks that are enough for a wait of `timeout`.
abbrev pub looks : ℕ → ℕ → ℕ
looks timeout pause = suc (suc (timeout / pause))

module _ {A S : Type 0} (time : ℕ → ℕ) (deadline : ℕ) (look : ℕ → S → Look A S) where
  -- `while time() < deadline: …; sleep(pause)`, for so many looks; none if they are not enough.
  unfoldable pub while_before : ℕ → ℕ → S → Option (End A S)
  while_before zero i s = none
  while_before (suc n) i s =
      if ltb (time i) deadline
      then elim (look i s) [ found a ↦ some (returned i a) | again s' ↦ while_before n (suc i) s' ]
      else some (expired i s)

  -- `while True: …; if time() >= deadline: …; sleep(pause)`
  unfoldable pub until_after : ℕ → ℕ → S → Option (End A S)
  until_after zero i s = none
  until_after (suc n) i s = elim (look i s) [
    | found a ↦ some (returned i a)
    | again s' ↦ if leb deadline (time i) then some (expired i s') else until_after n (suc i) s'
  ]

Look-cases : {A S : Type 0} (l : Look A S) → ((a : A) × (l ≡ found a)) ⊎ ((s : S) × (l ≡ again s))
Look-cases (found a) = inl (a, refl)
Look-cases (again s) = inr (s, refl)

module _ {A S : Type 0} (pause : ℕ) (time : ℕ → ℕ) (deadline : ℕ) (look : ℕ → S → Look A S)
    (ticks : Ticks pause time) where
  -- The looks that are left reach the deadline.
  while_before-ends :
      (n i : ℕ) (s : S)
      → deadline ≤ time i + n * pause
      → (end : End A S) × (while_before time deadline look (suc n) i s ≡ some end)
  unfolding while_before
  while_before-ends zero i s h = elim (Bool-cases (ltb (time i) deadline)) [
    | inr over ↦ rw over (expired i s, refl)
    | inl early ↦ absurd (ground (arith, early, h))
  ]
  while_before-ends (suc n) i s h = elim (Bool-cases (ltb (time i) deadline)) [
    | inr over ↦ rw over (expired i s, refl)
    | inl early ↦ elim (Look-cases (look i s)) [
      | inl (a, e) ↦ rw early (rw e (returned i a, refl))
      | inr (s', e) ↦ rw early (rw e (while_before-ends n (suc i) s' (room n i h)))
    ]
  ]
    where
      room : (n i : ℕ) → deadline ≤ time i + suc n * pause → deadline ≤ time (suc i) + n * pause
      room n i h = omega (arith, ticks i, h)

  until_after-ends :
      (n i : ℕ) (s : S)
      → deadline ≤ time i + n * pause
      → (end : End A S) × (until_after time deadline look (suc n) i s ≡ some end)
  unfolding until_after
  until_after-ends zero i s h = elim (Look-cases (look i s)) [
    | inl (a, e) ↦ rw (e, until_after) (returned i a, refl)
    | inr (s', e) ↦ elim (Bool-cases (leb deadline (time i))) [
      | inl over ↦ rw (e, until_after) (rw over (expired i s', refl))
      | inr early ↦ absurd (ground (arith, early, h))
    ]
  ]
  until_after-ends (suc n) i s h = elim (Look-cases (look i s)) [
    | inl (a, e) ↦ rw (e, until_after) (returned i a, refl)
    | inr (s', e) ↦ elim (Bool-cases (leb deadline (time i))) [
      | inl over ↦ rw (e, until_after) (rw over (expired i s', refl))
      | inr early ↦
          rw (e, until_after) (rw early (until_after-ends n (suc i) s' (omega (arith, ticks i, h))))
    ]
  ]

-- A wait of `timeout` has `looks timeout pause` looks at most.
pub looks_enough :
    (timeout pause now : ℕ) → 1 ≤ pause → now + timeout ≤ now + suc (timeout / pause) * pause
looks_enough timeout pause now h = omega arith

module _ {A S : Type 0} (timeout pause : ℕ) (time : ℕ → ℕ) (look : ℕ → S → Look A S) (s : S)
    (some_pause : 1 ≤ pause) (ticks : Ticks pause time) where
  -- A loop with a deadline ends, if its clock goes on: `looks` of the timeout and the pause are enough.
  pub while_before_enough :
      (end : End A S) × (while_before time (time 0 + timeout) look (looks timeout pause) 0 s
        ≡ some end)
  while_before_enough =
      while_before-ends pause time (time 0 + timeout) look ticks (suc (timeout / pause)) 0 s
        (looks_enough timeout pause (time 0) some_pause)

  pub until_after_enough :
      (end : End A S) × (until_after time (time 0 + timeout) look (looks timeout pause) 0 s
        ≡ some end)
  until_after_enough =
      until_after-ends pause time (time 0 + timeout) look ticks (suc (timeout / pause)) 0 s
        (looks_enough timeout pause (time 0) some_pause)

module _ {A S : Type 0} (time : ℕ → ℕ) (deadline : ℕ) (look : ℕ → S → Look A S) where
  -- From one look to a later one: each look between them is before the deadline and finds nothing.
  pub data Reaches : ℕ → S → ℕ → S → Type 0 where
    here : {i : ℕ} {s : S} → Reaches i s i s
    next :
        {i n : ℕ} {s s' t : S}
        → time i < deadline
        → look i s ≡ again s'
        → Reaches (suc i) s' n t
        → Reaches i s n t

  -- What `while_before` returned: its last look found it, before the deadline.
  pub while_before-Reaches :
      (fuel i n : ℕ) (s : S) (a : A)
      → while_before time deadline look fuel i s ≡ some (returned n a)
      → (t : S) × Reaches i s n t × (time n < deadline) × (look n t ≡ found a)
  unfolding while_before
  while_before-Reaches zero i n s a e = absurd (cc e)
  while_before-Reaches (suc fuel) i n s a e = elim (Bool-cases (ltb (time i) deadline)) [
    | inr over ↦ absurd (cc (rw over at e))
    | inl early ↦ elim (Look-cases (look i s)) [
      | inl (b, f) ↦
          let here_found : some (returned i b) ≡ some (returned n a) = rw f at (rw early at e) in
          let same_look : n ≡ i = cc here_found in
          let same_value : a ≡ b = cc here_found in
          rw same_look (rw same_value (s, here, ltb→lt (time i) deadline early, f))
      | inr (s', f) ↦
          let (t, path, before, at_end) =
            while_before-Reaches fuel (suc i) n s' a (rw f at (rw early at e)) in
          (t, next (ltb→lt (time i) deadline early) f path, before, at_end)
    ]
  ]

  -- What `until_after` returned, its last look found.
  pub until_after-found :
      (fuel i n : ℕ) (s : S) (a : A)
      → until_after time deadline look fuel i s ≡ some (returned n a)
      → (t : S) × (look n t ≡ found a)
  unfolding until_after
  until_after-found zero i n s a e = absurd (cc e)
  until_after-found (suc fuel) i n s a e = elim (Look-cases (look i s)) [
    | inl (b, f) ↦
        let here_found : some (returned i b) ≡ some (returned n a) = rw (f, until_after) at e in
        let same_look : n ≡ i = cc here_found in
        let same_value : a ≡ b = cc here_found in rw same_look (rw same_value (s, f))
    | inr (s', f) ↦ elim (Bool-cases (leb deadline (time i))) [
      | inl over ↦ absurd (cc (rw over at (rw (f, until_after) at e)))
      | inr early ↦ until_after-found fuel (suc i) n s' a (rw early at (rw (f, until_after) at e))
    ]
  ]
