-- ===== src/Bots/Runner/Capacity/Release.antt =====
-- `release_capacity` of src/twin/bots/runner.py.
use fakery.Prelude.{
  ℕ, ◌+◌, ◌≡◌, none, some, List, [], ◌∷◌, if◌then◌else◌, ◌==◌, find?, Option-cases, inl, inr, arith,
}
use fakery.Bots.Models.{CapacityReservation, Instant, Db}
use fakery.Bots.Runner.{is_open_for, decrement, close_first, release_capacity}
use fakery.Bots.Runner.Capacity.{
  open_count, open_for, IsCounted, active_of-decrement, count_if-none,
}

module _ (now : Instant) (bot_id : ℕ) where
  -- Closing the first open reservation of a run takes one from its tenant and from the run.
  close_first-open_count :
      (t : ℕ) (r : CapacityReservation) (rs : List CapacityReservation)
      → find? (is_open_for bot_id) rs ≡ some r
      → open_count t rs
        ≡ open_count t (close_first bot_id now rs) + (if r.tenant == t then 1 else 0)
  unfolding open_count close_first
  close_first-open_count t r [] h = cc
  close_first-open_count t r (x ∷ rs) h = ground (arith, close_first-open_count t r rs)

  close_first-open_for :
      (b : ℕ) (r : CapacityReservation) (rs : List CapacityReservation)
      → find? (is_open_for bot_id) rs ≡ some r
      → open_for b rs ≡ open_for b (close_first bot_id now rs) + (if bot_id == b then 1 else 0)
  unfolding open_for close_first
  close_first-open_for b r [] h = cc
  close_first-open_for b r (x ∷ rs) h = ground (arith, close_first-open_for b r rs)

  release_held :
      (r : CapacityReservation) (db : Db)
      → find? (is_open_for bot_id) db.reservations ≡ some r
      → release_capacity now bot_id db ≡ record db {
        reservations = close_first bot_id now db.reservations;
        counters = decrement r.tenant db.counters;
      }
  unfolding release_capacity
  release_held r db e = ground (arith, e)

  release_nothing :
      (db : Db)
      → find? (is_open_for bot_id) db.reservations ≡ none
      → release_capacity now bot_id db ≡ db
  unfolding release_capacity
  release_nothing db e = ground (arith, e)

  -- A release keeps every counter the number of its tenant's open reservations.
  pub release_capacity-IsCounted :
      (db : Db) → IsCounted db → IsCounted (release_capacity now bot_id db)
  release_capacity-IsCounted db h =
      elim (Option-cases (find? (is_open_for bot_id) db.reservations)) [
        | inl e ↦ rw (release_nothing db e) h
        | inr (r, e) ↦ rw (release_held r db e) (record {
          counted = λ t. ground (
            arith,
            active_of-decrement t r.tenant db.counters,
            close_first-open_count t r db.reservations e,
            h.counted t,
          );
          single = λ b. ground (arith, close_first-open_for b r db.reservations e, h.single b);
        })
      ]

  -- After a release the run holds no reservation, and every other run holds what it held.
  pub release_capacity-open_for :
      (b : ℕ) (db : Db)
      → IsCounted db
      → open_for b (release_capacity now bot_id db).reservations
        ≡ (if bot_id == b then 0 else open_for b db.reservations)
  unfolding open_for
  release_capacity-open_for b db h =
      elim (Option-cases (find? (is_open_for bot_id) db.reservations)) [
        | inl e ↦
            rw (release_nothing db e)
              (ground (arith, count_if-none (is_open_for bot_id) db.reservations e))
        | inr (r, e) ↦
            rw (release_held r db e)
              (ground (arith, close_first-open_for b r db.reservations e, h.single b))
      ]
