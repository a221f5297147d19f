-- ===== src/Tests/Meetings.antt =====
-- The theorems on the waits of a meeting and on histories of calls, each at one input.
use fakery.Prelude.{ℕ, ◌+◌, ◌*◌, ◌<◌, ◌==◌, ◌≡◌, ◌⊎◌, refl, Bool, true, false, none, is_some}
use fakery.Core.Waiting.{while_before}
use fakery.Bots.State.{joining}
use fakery.Bots.Models.{Instant, Db, seconds}
use fakery.Bots.Service.{advance, cancel}
use fakery.Bots.Service.Runs.{IsSound}
use fakery.Bots.Histories.{
  nothing, followed, is_advanced, is_cancelled, is_relayed, reaches-IsSound,
}
use fakery.Bots.Queue.{relay_queued}
use fakery.Meet.Vocabulary.{Page, vocabulary, leave_button, gate_visible, waiting_visible}
use fakery.Meet.Join.{wait_admitted, wait_meeting_ended, look_for_admission, look_for_end}
use fakery.Meet.Join.Waits.{wait_admitted_sees, wait_meeting_ended_sees, SaysEnded, GoneTwice}
use fakery.Tests.{sample_db, sink}
use fakery.Tests.Runs.{sample_db-IsSound, sink_keeps}

abbrev page_with : Bool → Page
page_with leaves = record {
  lang = none;
  has_button = λ s. false;
  has_label = λ s. leaves;
  shows = λ s. false;
  body_has = none;
}

-- The bot is let in at the second look.
abbrev let_in : ℕ → Page
let_in i = page_with (i == 1)

abbrev nobody_stops : ℕ → Bool
nobody_stops i = false

abbrev pub five_seconds : ℕ → Instant
five_seconds i = 5_000_000 * i

wait_admitted_sees_example :
    (n : ℕ) × (five_seconds n < five_seconds 0 + seconds 120)
    × (nobody_stops n ≡ false)
    × (is_some (leave_button (let_in n)) ≡ true)
    × (waiting_visible (let_in n) ≡ false)
unfolding wait_admitted while_before look_for_admission leave_button gate_visible waiting_visible
    vocabulary
wait_admitted_sees_example = wait_admitted_sees let_in nobody_stops five_seconds 120 refl

wait_meeting_ended_sees_example :
    (n : ℕ) × (five_seconds n < five_seconds 0 + seconds 3600)
    × (nobody_stops n ≡ false)
    × (SaysEnded (let_in n) ⊎ GoneTwice let_in n)
unfolding wait_meeting_ended while_before look_for_end leave_button vocabulary
wait_meeting_ended_sees_example = wait_meeting_ended_sees let_in nobody_stops five_seconds 3600 refl

abbrev pub relayed_db : Db
relayed_db = (relay_queued 205 (λ k. none) sample_db).1

abbrev pub joining_db : Db
joining_db = (advance sink 210 1 joining relayed_db).1

reaches-IsSound_example : IsSound (cancel sink 220 1 joining_db).1
reaches-IsSound_example =
    reaches-IsSound sink sample_db (cancel sink 220 1 joining_db).1 sink_keeps
      (followed
        (followed (followed nothing (is_relayed 205 (λ k. none))) (is_advanced 210 1 joining))
        (is_cancelled 220 1))
      sample_db-IsSound
