-- ===== src/Bots/Runtime/Process.antt =====
-- src/twin/bot_run.py: the process of a job, which attends one meeting. `wording` is the lower-case text of an exception and `is_timeout` whether it is a
-- `TimeoutError`.
pub mod Over
use Prim.Native.String.{String}
use fakery.Prelude.{ℕ, Bool, true, false, ◌||◌, ◌∷◌, [], Option, Text, if◌then◌else◌}
use fakery.Core.Errors.{Error, join_failed}
use fakery.Core.Action.{Action, Result, ok, err}
use fakery.Bots.Models.{Instant, Db}
use fakery.Bots.Service.{EventSink, get}
use fakery.Bots.Runtime.{FailCode, cancelled, shutdown, other, string_eq, fail_run}
use fakery.Bots.Runtime.Attend.{Meeting, attend}
use fakery.Worker.Claim.{code_of}
use fakery.Retention.{contains}
use fakery.Storage.Checkpoints.{Restored}

-- The two values of `stage`: "launch" and "browser-open".
pub data Stage : Type 0 where
  launch browser_open : Stage

abbrev timeout_word : Text
timeout_word = b't' ∷ b'i' ∷ b'm' ∷ b'e' ∷ b'o' ∷ b'u' ∷ b't' ∷ []

abbrev closed_word : Text
closed_word = b'c' ∷ b'l' ∷ b'o' ∷ b's' ∷ b'e' ∷ b'd' ∷ []

abbrev target_page : Text
target_page = b't' ∷ b'a' ∷ b'r' ∷ b'g' ∷ b'e' ∷ b't' ∷ b' ' ∷ b'p' ∷ b'a' ∷ b'g' ∷ b'e' ∷ []

abbrev connection_word : Text
connection_word = b'c' ∷ b'o' ∷ b'n' ∷ b'n' ∷ b'e' ∷ b'c' ∷ b't' ∷ b'i' ∷ b'o' ∷ b'n' ∷ []

abbrev network_word : Text
network_word = b'n' ∷ b'e' ∷ b't' ∷ b'w' ∷ b'o' ∷ b'r' ∷ b'k' ∷ []

-- A stage and a suffix, as one slug.
abbrev spelled : Stage → String → String → String
spelled launch at_launch at_opening = at_launch
spelled browser_open at_launch at_opening = at_opening

unfoldable pub error_slug : Bool → Text → Stage → String
error_slug is_timeout text stage =
    if is_timeout || contains timeout_word text
    then spelled stage "launch-timeout" "browser-open-timeout"
    else if contains closed_word text || contains target_page text
    then spelled stage "launch-closed" "browser-open-closed"
    else if contains connection_word text || contains network_word text
    then spelled stage "launch-connection" "browser-open-connection"
    else spelled stage "launch-error" "browser-open-error"

module _ (events : Option EventSink) (now : Instant) (retention_days : ℕ) (has_store : Bool)
    (stored_at : Option Text) (restore : Text → Option Restored) (bot_id : ℕ)
    (is_timeout : Error → Bool) (wording : Error → Text) where
  abbrev failing : FailCode → Action Db (Unit {0})
  failing code = fail_run retention_days now stored_at events restore code bot_id

  -- The `except` clauses, and the code that the process exits with.
  unfoldable pub excepted : Stage → Error → Action Db ℕ
  excepted stage (join_failed code) db =
      let (r, db') = failing (code_of code) db in
      elim r [ ok u ↦ (ok 0, db') | err e ↦ (err e, db') ]
  excepted stage e db = (ok 1, (failing (other (error_slug (is_timeout e) (wording e) stage)) db).1)

  unfoldable pub attended : Meeting → Action Db ℕ
  attended meeting db =
      let (r, db') =
        attend events now retention_days has_store stored_at restore bot_id meeting db in
      elim r [ ok u ↦ (ok 0, db') | err e ↦ excepted browser_open e db' ]

  -- `_run` from its `try`; `prepared` is what `_prepare_launch` gave.
  unfoldable pub launched : Result (Unit {0}) → Meeting → Action Db ℕ
  launched (err e) meeting db = excepted launch e db
  launched (ok u) meeting db = elim (get bot_id db).0 [
    | err e ↦ excepted launch e db
    | ok r ↦ attended meeting db
  ]

  -- `_run`: what comes before the `try` (the settings, `validate_key`, the engine, the clients) gives
  -- `set_up`; what it raises ends the process. Closing the clients afterwards is left out.
  unfoldable pub run : Result (Unit {0}) → Result (Unit {0}) → Meeting → Action Db ℕ
  run (err e) prepared meeting db = (err e, db)
  run (ok u) prepared meeting db = launched prepared meeting db
