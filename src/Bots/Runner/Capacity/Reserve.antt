-- ===== src/Bots/Runner/Capacity/Reserve.antt =====
-- `_try_reserve_capacity` of src/twin/bots/runner.py.
use fakery.Prelude.{
  ℕ, ◌+◌, ◌≤◌, ◌≡◌, ◌∙◌, Bool, true, false, ◌&&◌, none, some, [], ◌∷◌, ◌++◌, if◌then◌else◌, ◌==◌,
  ltb, leb, is_none, find?, put_row, Bool-cases, Option-cases, inl, inr, arith,
}
use fakery.Bots.Models.{CapacityCounter, CapacityReservation, Instant, Db}
use fakery.Bots.Runner.{Settings, is_open_for, counter_key, load_counter, try_reserve_capacity}
use fakery.Bots.Runner.Capacity.{
  active_of, is_open_of, open_count, open_for, IsCounted, active_of-put_row, load_counter-active,
  load_counter-counter, load_counter-found, count_if-append_one, count_if-none,
}

module _ (settings : Settings) (new_id : ℕ) (now : Instant) (bot_id owner : ℕ) (db : Db) where
  abbrev reserve : Bool × Db
  reserve = try_reserve_capacity settings new_id now bot_id owner db

  abbrev pub reservation : CapacityReservation
  reservation = record {
    id = new_id;
    tenant = settings.tenant;
    bot_id = bot_id;
    owner = owner;
    acquired_at = now;
    released_at = none;
  }

  abbrev loaded : CapacityCounter
  loaded = (load_counter settings db.counters).0

  -- A run that holds a reservation gets it again if it is the owner's, and nothing is counted.
  reserve_held :
      (current : CapacityReservation)
      → find? (is_open_for bot_id) db.reservations ≡ some current
      → reserve
        ≡ (current.owner == owner, record db { counters = (load_counter settings db.counters).1 })
  unfolding try_reserve_capacity
  reserve_held current e = ground (arith, e)

  reserve_full :
      find? (is_open_for bot_id) db.reservations ≡ none
      → leb loaded.limit loaded.active_count ≡ true
      → reserve ≡ (false, record db { counters = (load_counter settings db.counters).1 })
  unfolding try_reserve_capacity
  reserve_full e full = ground (arith, e, full)

  reserve_taken :
      find? (is_open_for bot_id) db.reservations ≡ none
      → leb loaded.limit loaded.active_count ≡ false
      → reserve ≡ (
        true,
        record db {
          counters =
              put_row counter_key
                (record loaded { active_count = loaded.active_count + 1 })
                (load_counter settings db.counters).1;
          reservations = db.reservations ++ reservation ∷ [];
        },
      )
  unfolding try_reserve_capacity
  reserve_taken e room = ground (arith, e, room)

  taken-counted :
      (t : ℕ)
      → IsCounted db
      → active_of t (
          put_row counter_key
            (record loaded { active_count = loaded.active_count + 1 })
            (load_counter settings db.counters).1)
        ≡ open_count t (db.reservations ++ reservation ∷ [])
  unfolding open_count
  taken-counted t h = ground (
    arith,
    active_of-put_row t (record loaded { active_count = loaded.active_count + 1 })
        (load_counter settings db.counters).1,
    load_counter-active settings db.counters t,
    load_counter-counter settings db.counters,
    load_counter-found settings db.counters,
    count_if-append_one (is_open_of t) db.reservations reservation,
    h.counted t,
    h.counted settings.tenant,
  )

  taken-single :
      (b : ℕ)
      → IsCounted db
      → find? (is_open_for bot_id) db.reservations ≡ none
      → open_for b (db.reservations ++ reservation ∷ []) ≤ 1
  unfolding open_for
  taken-single b h e = ground (
    arith,
    count_if-append_one (is_open_for b) db.reservations reservation,
    count_if-none (is_open_for bot_id) db.reservations e,
    h.single b,
  )

  -- A try keeps every counter the number of its tenant's open reservations, and no run gets two.
  pub try_reserve_capacity-IsCounted : IsCounted db → IsCounted reserve.1
  try_reserve_capacity-IsCounted h =
      elim (Option-cases (find? (is_open_for bot_id) db.reservations)) [
        | inr (current, e) ↦ rw (reserve_held current e) (record {
          counted = λ t. load_counter-active settings db.counters t ∙ h.counted t;
          single = h.single;
        })
        | inl e ↦ elim (Bool-cases (leb loaded.limit loaded.active_count)) [
          | inl full ↦ rw (reserve_full e full) (record {
            counted = λ t. load_counter-active settings db.counters t ∙ h.counted t;
            single = h.single;
          })
          | inr room ↦
              rw (reserve_taken e room)
                (record { counted = λ t. taken-counted t h; single = λ b. taken-single b h e })
        ]
      ]

  -- A run without an open reservation gets one exactly while the tenant's open reservations are fewer
  -- than the limit; a run with one gets it again exactly for its owner, and no row is added.
  pub try_reserve_capacity-admits :
      IsCounted db
      → (reserve.0 ≡ elim (find? (is_open_for bot_id) db.reservations) [
        | some current ↦ current.owner == owner
        | none ↦ ltb (open_count settings.tenant db.reservations) settings.max_concurrent_runs
      ])
        × (reserve.1.reservations ≡ (
            if is_none (find? (is_open_for bot_id) db.reservations)
              && ltb (open_count settings.tenant db.reservations) settings.max_concurrent_runs
            then db.reservations ++ reservation ∷ []
            else db.reservations))
  try_reserve_capacity-admits h =
      let counter = load_counter-counter settings db.counters in
      elim (Option-cases (find? (is_open_for bot_id) db.reservations)) [
        | inr (current, e) ↦ ground (arith, e, reserve_held current e)
        | inl e ↦ elim (Bool-cases (leb loaded.limit loaded.active_count)) [
          | inl full ↦ ground (arith, e, reserve_full e full, counter, h.counted settings.tenant)
          | inr room ↦ ground (arith, e, reserve_taken e room, counter, h.counted settings.tenant)
        ]
      ]

  -- So the tenant's open reservations stay within the limit, whatever their number.
  pub try_reserve_capacity-within :
      IsCounted db
      → open_count settings.tenant db.reservations ≤ settings.max_concurrent_runs
      → open_count settings.tenant reserve.1.reservations ≤ settings.max_concurrent_runs
  unfolding open_count
  try_reserve_capacity-within h fits = ground (
    arith,
    try_reserve_capacity-admits h,
    count_if-append_one (is_open_of settings.tenant) db.reservations reservation,
  )
