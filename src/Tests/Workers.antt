-- ===== src/Tests/Workers.antt =====
-- The theorems on the worker and on the capacity of a run, each at one input.
use fakery.Prelude.{ℕ, ◌≡◌, refl, Bool, true, false, [], ◌∷◌, if◌then◌else◌, ◌==◌}
use fakery.Core.Action.{Action, ok, err}
use fakery.Core.Errors.{value_error}
use fakery.Bots.Models.{Db, enqueued}
use fakery.Bots.Runtime.{FailCode}
use fakery.Bots.Runner.Capacity.{IsCounted, open_for}
use fakery.Bots.Runner.Execute.{after_reserving}
use fakery.Bots.Runner.Execute.GivesBack.{after_reserving_gives_back}
use fakery.Tests.{held_db, sample_db, sample_run}
use fakery.Tests.Capacity.{held_db-IsCounted}

-- A runtime that raises, and a `fail_run` that finds the run over.
abbrev raises : ℕ → Action Db (Unit {0})
raises k db = (err value_error, db)

abbrev nothing_to_fail : FailCode → ℕ → Action Db (Unit {0})
nothing_to_fail code k db = (ok tt, db)

abbrev take_lease : Bool → Bool × Bool
take_lease held = if held then (false, true) else (true, true)

abbrev give_lease : Bool → Bool
give_lease held = false

after_reserving_gives_back_example :
    let (r, (db', leases')) =
      after_reserving take_lease give_lease 300 nothing_to_fail raises true 1 77 true
        (held_db, false) in
    IsCounted db'
    × ((b : ℕ)
        → open_for b db'.reservations ≡ (if 1 == b then 0 else open_for b held_db.reservations))
after_reserving_gives_back_example =
    after_reserving_gives_back take_lease give_lease 300 nothing_to_fail raises true 1 77
      (λ code db. (refl, refl)) (λ db. (refl, refl)) held_db false held_db-IsCounted

abbrev enqueued_db : Db
enqueued_db = record sample_db { bots = record sample_run { dispatch_status = enqueued } ∷ [] }
