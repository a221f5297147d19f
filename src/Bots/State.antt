-- ===== src/Bots/State.antt =====
-- src/twin/bots/state.py: the statuses of a bot run and the transitions between them.
use fakery.Prelude.{ℕ, Bool, true, false, List, [], ◌∷◌, if◌then◌else◌, ◌==◌}
use fakery.Core.Errors.{conflict, make_error, twin}
use fakery.Core.Action.{Result, ok, err}

pub data BotStatus : Type 0 where
  queued joining joined recording processing completed failed : BotStatus

-- `==` of the enumeration.
abbrev order : BotStatus → ℕ
order queued = 0
order joining = 1
order joined = 2
order recording = 3
order processing = 4
order completed = 5
order failed = 6

abbrev pub status_eq : BotStatus → BotStatus → Bool
status_eq a b = order a == order b

-- `target in …`
abbrev pub is_in : BotStatus → List BotStatus → Bool
is_in s [] = false
is_in s (t ∷ ts) = if status_eq s t then true else is_in s ts

-- `LIVE_STATUSES`
abbrev pub live_statuses : List BotStatus
live_statuses = joining ∷ joined ∷ recording ∷ processing ∷ []

-- `_ALLOWED`
abbrev pub allowed : BotStatus → List BotStatus
allowed queued = joining ∷ failed ∷ []
allowed joining = joined ∷ failed ∷ []
allowed joined = recording ∷ failed ∷ []
allowed recording = processing ∷ failed ∷ []
allowed processing = completed ∷ failed ∷ []
allowed completed = []
allowed failed = []

unfoldable pub can_transition : BotStatus → BotStatus → Bool
can_transition current target = is_in target (allowed current)

unfoldable pub require_transition : BotStatus → BotStatus → Result BotStatus
unfolding can_transition
require_transition current target =
    if can_transition current target then ok target else err (twin (make_error conflict))
