-- ===== src/Tests/Capacity.antt =====
-- The theorems on capacity, each at one database.
use fakery.Prelude.{
  ◌≡◌, ◌&&◌, not, none, some, [], ◌∷◌, ◌++◌, if◌then◌else◌, ◌==◌, ltb, is_none, count_if, find?,
  filter, find_row, arith,
}
use fakery.Bots.Runner.{is_open_for, try_reserve_capacity, sweep_capacity}
use fakery.Bots.Runner.Capacity.{IsCounted, active_of, open_count, open_for}
use fakery.Bots.Runner.Capacity.Reserve.{reservation, try_reserve_capacity-admits}
use fakery.Bots.Runner.Capacity.Sweep.{is_open, gives_up, sweep_capacity_lem}
use fakery.Tests.{settings, held_db}

pub held_db-IsCounted : IsCounted held_db
unfolding active_of open_count open_for find_row
held_db-IsCounted = record { counted = λ t. ground arith; single = λ b. ground arith }

try_reserve_capacity-admits_example :
    let reserve = try_reserve_capacity settings 21 300 2 78 held_db in
    (reserve.0 ≡ elim (find? (is_open_for 2) held_db.reservations) [
      | some current ↦ current.owner == 78
      | none ↦ ltb (open_count 5 held_db.reservations) 2
    ])
    × (reserve.1.reservations ≡ (
        if is_none (find? (is_open_for 2) held_db.reservations)
          && ltb (open_count 5 held_db.reservations) 2
        then held_db.reservations ++ reservation settings 21 300 2 78 held_db ∷ []
        else held_db.reservations))
try_reserve_capacity-admits_example =
    try_reserve_capacity-admits settings 21 300 2 78 held_db held_db-IsCounted

sweep_capacity_lem_example :
    let (released, db') = sweep_capacity 400_000_000 held_db in
    (filter is_open db'.reservations
      ≡ filter (λ r. is_open r && not (gives_up 400_000_000 held_db r)) held_db.reservations)
    × (released ≡ count_if (gives_up 400_000_000 held_db) held_db.reservations)
    × IsCounted db'
sweep_capacity_lem_example = sweep_capacity_lem 400_000_000 held_db held_db-IsCounted
