-- ===== src/Meet/Join.antt =====
-- The waits of src/twin/meet/join_flow.py, and the guards of `join_meeting`. `page i` and `stop i`
-- are what the page and `should_stop` say at the look `i`, of which each sees one page; no
-- `should_stop` is one that never asks to stop.
pub mod Waits
use Prim.Native.String.{String}
use fakery.Prelude.{
  ℕ, suc, ◌+◌, Bool, true, false, ◌&&◌, not, Option, none, some, List, if◌then◌else◌, any, is_some,
  is_none, leb,
}
use fakery.Core.Waiting.{Look, found, again, End, returned, expired, while_before, looks}
use fakery.Bots.Models.{Instant, seconds}
use fakery.Meet.Vocabulary.{
  Page, vocabulary, first_visible, leave_button, gate_visible, waiting_visible,
}

-- What a wait or a join gives: its outcome, or the code of the `JoinError` that it raised.
pub data Joined : Type 0 where
  cancelled admitted meeting_ended knocked : Joined
  join_error : String → Joined

abbrev pub admission_timeout_s : ℕ
admission_timeout_s = 120

abbrev pub admission_poll_s : ℕ
admission_poll_s = 2

abbrev pub end_poll_s : ℕ
end_poll_s = 5

-- The outcome of a loop, with the code that it raises at its deadline.
abbrev pub outcome_of : {S : Type 0} → String → End Joined S → Joined
outcome_of late (returned i joined) = joined
outcome_of late (expired i s) = join_error late

abbrev pub with_outcome : {S : Type 0} → String → Option (End Joined S) → Option Joined
with_outcome late none = none
with_outcome late (some end) = some (outcome_of late end)

module _ (page : ℕ → Page) (stop : ℕ → Bool) where
  -- The body of the loop of `wait_admitted`.
  unfoldable pub look_for_admission : ℕ → Unit {0} → Look Joined (Unit {0})
  look_for_admission i s =
      if stop i
      then found cancelled
      else if is_some (leave_button (page i)) && not (waiting_visible (page i))
      then found admitted
      else elim (gate_visible (page i)) [
        | none ↦ again tt
        | some gate ↦ found (join_error "join-gated")
      ]

  -- The body of the loop of `wait_meeting_ended`, with `leave_misses`.
  unfoldable pub look_for_end : ℕ → ℕ → Look Joined ℕ
  look_for_end i leave_misses =
      if stop i
      then found cancelled
      else if any (page i).shows (vocabulary (page i)).ends
      then found meeting_ended
      else if is_none (leave_button (page i))
      then (if leb 2 (leave_misses + 1) then found meeting_ended else again (leave_misses + 1))
      else again 0

  module _ (time : ℕ → Instant) (timeout_s : ℕ) where
    unfoldable pub wait_admitted : Option Joined
    wait_admitted = with_outcome "join-timeout" (
        while_before time (time 0 + seconds timeout_s) look_for_admission
          (looks (seconds timeout_s) (seconds admission_poll_s)) 0 tt)

    unfoldable pub wait_meeting_ended : Option Joined
    wait_meeting_ended = with_outcome "meeting-timeout" (
        while_before time (time 0 + seconds timeout_s) look_for_end
          (looks (seconds timeout_s) (seconds end_poll_s)) 0 0)
