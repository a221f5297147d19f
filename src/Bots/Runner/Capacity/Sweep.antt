-- ===== src/Bots/Runner/Capacity/Sweep.antt =====
-- `sweep_capacity` of src/twin/bots/runner.py.
use fakery.Prelude.{
  ℕ, ◌+◌, ◌≤◌, ◌≡◌, refl, Bool, ◌&&◌, not, List, [], ◌∷◌, if◌then◌else◌, is_none, count_if,
  Bool-cases, inl, inr, arith, filter,
}
use fakery.Bots.Models.{CapacityCounter, CapacityReservation, Instant, Db}
use fakery.Bots.Repository
use fakery.Bots.Runner.{decrement, is_stale, sweep_rows, sweep_capacity}
use fakery.Bots.Runner.Capacity.{
  active_of, is_open_of, open_count, open_for, IsCounted, active_of-decrement,
}

abbrev pub is_open : CapacityReservation → Bool
is_open r = is_none r.released_at

module _ (moment : Instant) (db : Db) where
  abbrev pub gives_up : CapacityReservation → Bool
  gives_up r = is_open r && is_stale moment (Repository.get r.bot_id db) r

  -- Beside what the loop goes through, a tenant may have `k` more open reservations.
  sweep_rows-counted :
      (rs : List CapacityReservation) (cs : List CapacityCounter) (k : ℕ → ℕ)
      → ((t : ℕ) → active_of t cs ≡ open_count t rs + k t)
      → (t : ℕ)
      → let (rows, left, _) = sweep_rows moment db rs cs in
        active_of t left ≡ open_count t rows + k t
  unfolding sweep_rows open_count
  sweep_rows-counted [] cs k h t = h t
  sweep_rows-counted (r ∷ rs) cs k h t = elim (Bool-cases (gives_up r)) [
    | inl e ↦ ground (
      arith,
      e,
      sweep_rows-counted rs (decrement r.tenant cs) k
          (λ u. ground (arith, e, active_of-decrement u r.tenant cs, h u)) t,
    )
    | inr e ↦ ground (
      arith,
      e,
      sweep_rows-counted rs cs (λ u. (if is_open_of u r then 1 else 0) + k u)
          (λ u. omega (arith, h u)) t,
    )
  ]

  -- The rows that stay open are those that the loop does not give up, and it counts the others.
  sweep_rows-open :
      (rs : List CapacityReservation) (cs : List CapacityCounter)
      → let (rows, _, released) = sweep_rows moment db rs cs in
        (filter is_open rows ≡ filter (λ r. is_open r && not (gives_up r)) rs)
        × (released ≡ count_if gives_up rs)
  unfolding sweep_rows
  sweep_rows-open [] cs = (refl, refl)
  sweep_rows-open (r ∷ rs) cs = elim (Bool-cases (gives_up r)) [
    | inl e ↦ ground (arith, e, sweep_rows-open rs (decrement r.tenant cs))
    | inr e ↦ ground (arith, e, sweep_rows-open rs cs)
  ]

  sweep_rows-open_for :
      (b : ℕ) (rs : List CapacityReservation) (cs : List CapacityCounter)
      → open_for b (sweep_rows moment db rs cs).0 ≤ open_for b rs
  unfolding sweep_rows open_for
  sweep_rows-open_for b [] cs = omega arith
  sweep_rows-open_for b (r ∷ rs) cs = elim (Bool-cases (gives_up r)) [
    | inl e ↦ ground (arith, e, sweep_rows-open_for b rs (decrement r.tenant cs))
    | inr e ↦ ground (arith, e, sweep_rows-open_for b rs cs)
  ]

  -- The sweep closes exactly the open reservations whose run is gone, over, or queued beyond the
  -- grace, returns how many there were, and keeps the counters exact.
  pub sweep_capacity_lem :
      IsCounted db
      → let (released, db') = sweep_capacity moment db in
        (filter is_open db'.reservations
          ≡ filter (λ r. is_open r && not (gives_up r)) db.reservations)
        × (released ≡ count_if gives_up db.reservations)
        × IsCounted db'
  unfolding sweep_capacity
  sweep_capacity_lem h =
      let (stays, count) = sweep_rows-open db.reservations db.counters in
      (
        stays,
        count,
        record {
          counted = λ t. omega (
            arith,
            sweep_rows-counted db.reservations db.counters (λ u. 0)
                (λ u. omega (arith, h.counted u)) t,
          );
          single =
              λ b. omega (arith, sweep_rows-open_for b db.reservations db.counters, h.single b);
        },
      )
