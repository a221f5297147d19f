-- ===== src/Meet/Join/Waits.antt =====
-- What the waits of src/twin/meet/join_flow.py return, and that they do.
use Prim.Native.String.{String}
use fakery.Prelude.{
  ℕ, suc, ◌+◌, ◌≤◌, ◌<◌, ◌≡◌, ◌≢◌, ap, refl, Bool, true, false, ◌&&◌, not, Option, none, some, ◌⊎◌,
  inl, inr, is_some, is_none, any, leb, if◌then◌else◌, Bool-cases, arith,
}
use fakery.Bots.Models.{Instant, seconds}
use fakery.Core.Waiting.{
  Look, found, again, End, returned, expired, Ticks, while_before_enough, Reaches, here, next,
  while_before-Reaches,
}
use fakery.Meet.Vocabulary.{Page, vocabulary, leave_button, gate_visible, waiting_visible}
use fakery.Meet.Join.{
  Joined, cancelled, admitted, meeting_ended, join_error, outcome_of, with_outcome,
  look_for_admission, look_for_end, wait_admitted, wait_meeting_ended, admission_poll_s, end_poll_s,
}

-- A page on which a text says that the meeting is over.
abbrev pub SaysEnded : Page → Type 0
SaysEnded page = any page.shows (vocabulary page).ends ≡ true

-- Two looks in a row at which no button to leave was there.
abbrev pub GoneTwice : (ℕ → Page) → ℕ → Type 0
GoneTwice page n =
    (leave_button (page n) ≡ none) × (k : ℕ) × (n ≡ suc k) × (leave_button (page k) ≡ none)

-- The tests of a look, as Booleans.
admitted_tests :
    (stopped leaves waits : Bool) (gate : Option String)
    → (if stopped
        then found cancelled
        else if leaves && not waits
        then found admitted
        else elim gate as (λ g. Look Joined (Unit {0})) [
          | none ↦ again tt
          | some g ↦ found (join_error "join-gated")
        ])
      ≡ found admitted
    → (stopped ≡ false) × (leaves ≡ true) × (waits ≡ false)
admitted_tests true leaves waits gate e = absurd (cc e)
admitted_tests false true false gate e = (refl, refl, refl)
admitted_tests false true true none e = absurd (cc e)
admitted_tests false true true (some g) e = absurd (cc e)
admitted_tests false false waits none e = absurd (cc e)
admitted_tests false false waits (some g) e = absurd (cc e)

abbrev end_tests : Bool → Bool → Option String → ℕ → Look Joined ℕ
end_tests stopped ended leave misses =
    if stopped
    then found cancelled
    else if ended
    then found meeting_ended
    else if is_none leave
    then (if leb 2 (misses + 1) then found meeting_ended else again (misses + 1))
    else again 0

again_tests :
    (stopped ended : Bool) (leave : Option String) (misses s : ℕ)
    → end_tests stopped ended leave misses ≡ again s
    → (s ≡ 0) ⊎ (leave ≡ none)
again_tests true ended leave misses s e = absurd (cc e)
again_tests false true leave misses s e = absurd (cc e)
again_tests false false none misses s e = inr refl
again_tests false false (some b) misses s e = inl (cc e)

ended_tests :
    (stopped ended : Bool) (leave : Option String) (misses : ℕ)
    → end_tests stopped ended leave misses ≡ found meeting_ended
    → (stopped ≡ false) × ((ended ≡ true) ⊎ ((leave ≡ none) × (1 ≤ misses)))
ended_tests true ended leave misses e = absurd (cc e)
ended_tests false true leave misses e = (refl, inl refl)
ended_tests false false none misses e = elim (Bool-cases (leb 2 (misses + 1))) [
  | inl two ↦ (refl, inr (refl, ground (arith, two)))
  | inr one ↦ absurd (cc (rw one at e))
]
ended_tests false false (some b) misses e = absurd (cc e)

module _ (page : ℕ → Page) (stop : ℕ → Bool) (time : ℕ → Instant) (timeout_s : ℕ) where
  -- If the clock goes on by at least the two seconds that the loop sleeps, `wait_admitted` ends: it
  -- returns or raises.
  pub wait_admitted_ends :
      Ticks (seconds admission_poll_s) time
      → (joined : Joined) × (wait_admitted page stop time timeout_s ≡ some joined)
  unfolding wait_admitted
  wait_admitted_ends ticks =
      let (end, e) =
        while_before_enough (seconds timeout_s) (seconds admission_poll_s) time
          (look_for_admission page stop) tt (omega arith) ticks in
      (outcome_of "join-timeout" end, ap (with_outcome "join-timeout") e)

  -- If the clock goes on by at least the five seconds that the loop sleeps, `wait_meeting_ended`
  -- ends: it returns or raises.
  pub wait_meeting_ended_ends :
      Ticks (seconds end_poll_s) time
      → (joined : Joined) × (wait_meeting_ended page stop time timeout_s ≡ some joined)
  unfolding wait_meeting_ended
  wait_meeting_ended_ends ticks =
      let (end, e) =
        while_before_enough (seconds timeout_s) (seconds end_poll_s) time (look_for_end page stop) 0
          (omega arith) ticks in
      (outcome_of "meeting-timeout" end, ap (with_outcome "meeting-timeout") e)

  -- A wait that gave an outcome other than its deadline's found it at a look.
  found_at :
      {S : Type 0} (late : String) (looked : Option (End Joined S)) (joined : Joined)
      → joined ≢ join_error late
      → with_outcome late looked ≡ some joined
      → (n : ℕ) × (looked ≡ some (returned n joined))
  found_at late none joined other e = absurd (cc e)
  found_at late (some (returned n j)) joined other e = (n, cc e)
  found_at late (some (expired n s)) joined other e = absurd (other (cc e))

  -- The page of a look at which `wait_admitted` finds the bot let in.
  admitted_page :
      (i : ℕ)
      → look_for_admission page stop i tt ≡ found admitted
      → (stop i ≡ false)
        × (is_some (leave_button (page i)) ≡ true)
        × (waiting_visible (page i) ≡ false)
  unfolding look_for_admission
  admitted_page i e =
      admitted_tests (stop i) (is_some (leave_button (page i))) (waiting_visible (page i))
        (gate_visible (page i)) e

  misses_seen :
      (i n misses t : ℕ)
      → Reaches time (time 0 + seconds timeout_s) (look_for_end page stop) i misses n t
      → (misses ≡ 0) ⊎ ((k : ℕ) × (i ≡ suc k) × (leave_button (page k) ≡ none))
      → (t ≡ 0) ⊎ ((k : ℕ) × (n ≡ suc k) × (leave_button (page k) ≡ none))
  unfolding look_for_end
  misses_seen i n misses t here h = h
  misses_seen i n misses t (next {s' = s'} early e path) h =
      misses_seen (suc i) n s' t path
        (elim (again_tests (stop i) (any (page i).shows (vocabulary (page i)).ends)
          (leave_button (page i)) misses s' e) [
            | inl none_missed ↦ inl none_missed
            | inr gone ↦ inr (i, refl, gone)
          ])

  -- If `wait_admitted` returns that the bot was let in, then before the deadline it looked at a
  -- page with a button to leave and without a word of waiting, and was not asked to stop.
  pub wait_admitted_sees :
      wait_admitted page stop time timeout_s ≡ some admitted
      → (n : ℕ) × (time n < time 0 + seconds timeout_s)
        × (stop n ≡ false)
        × (is_some (leave_button (page n)) ≡ true)
        × (waiting_visible (page n) ≡ false)
  unfolding wait_admitted
  wait_admitted_sees e =
      let (n, looked) = found_at "join-timeout" _ admitted (λ h. cc h) e in
      let (t, path, early, at_end) =
        while_before-Reaches time (time 0 + seconds timeout_s) (look_for_admission page stop) _ 0 n
          tt admitted looked in
      let (running, leaves, let_in) = admitted_page n at_end in (n, early, running, leaves, let_in)

  -- If `wait_meeting_ended` returns that the meeting ended, then before the deadline it looked at a
  -- page that says so, or found no button to leave at two looks in a row; one miss alone never ends
  -- a meeting. At that look it was not asked to stop.
  pub wait_meeting_ended_sees :
      wait_meeting_ended page stop time timeout_s ≡ some meeting_ended
      → (n : ℕ) × (time n < time 0 + seconds timeout_s)
        × (stop n ≡ false)
        × (SaysEnded (page n) ⊎ GoneTwice page n)
  unfolding wait_meeting_ended look_for_end
  wait_meeting_ended_sees e =
      let (n, looked) = found_at "meeting-timeout" _ meeting_ended (λ h. cc h) e in
      let (t, path, early, at_end) =
        while_before-Reaches time (time 0 + seconds timeout_s) (look_for_end page stop) _ 0 n 0
          meeting_ended looked in
      let (running, why) =
        ended_tests (stop n) (any (page n).shows (vocabulary (page n)).ends) (leave_button (page n))
          t at_end in
      (
        n,
        early,
        running,
        elim why [
          | inl says ↦ inl says
          | inr (gone, missed) ↦ elim (misses_seen 0 n 0 t path (inl refl)) [
            | inl zero_misses ↦ absurd (omega (arith, missed, zero_misses))
            | inr (k, after, gone_before) ↦ inr (gone, k, after, gone_before)
          ]
        ],
      )
