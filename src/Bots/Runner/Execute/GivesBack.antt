-- ===== src/Bots/Runner/Execute/GivesBack.antt =====
-- What `execute_run` and `reserve_capacity` (src/twin/bots/runner.py) leave behind.
use fakery.Prelude.{
  ℕ, ◌≡◌, ◌∙◌, ap, Bool, true, some, if◌then◌else◌, ◌==◌, Bool-cases, inl, inr, arith,
}
use fakery.Core.Action.{Action}
use fakery.Core.Waiting.{Ticks, until_after_enough}
use fakery.Bots.Models.{Instant, Db, seconds}
use fakery.Bots.Runner.{Settings}
use fakery.Bots.Runner.Capacity.{IsCounted, open_for}
use fakery.Bots.Runner.Capacity.Release.{release_capacity-IsCounted, release_capacity-open_for}
use fakery.Bots.Runner.Execute.{
  reserve_capacity, look_for_capacity, reserved_or_not, with_end, admit_poll_s, admit_wait_s,
  run_with_lease, after_reserving,
}
use fakery.Bots.Runtime.{FailCode, other}

-- If the clock goes on by at least the half minute that the loop sleeps, `reserve_capacity` returns.
pub reserve_capacity_ends :
    (settings : Settings) (new_id : ℕ → ℕ) (time : ℕ → Instant) (meanwhile : ℕ → Db → Db)
    (bot_id owner : ℕ) (db : Db)
    → Ticks (seconds admit_poll_s) time
    → (end : Bool × Db) × (reserve_capacity settings new_id time meanwhile bot_id owner db
        ≡ some end)
unfolding reserve_capacity
reserve_capacity_ends settings new_id time meanwhile bot_id owner db ticks =
    let (end, e) =
      until_after_enough (seconds admit_wait_s) (seconds admit_poll_s) time
        (look_for_capacity settings new_id time meanwhile bot_id owner) db (omega arith) ticks in
    (
      reserved_or_not settings new_id time meanwhile bot_id owner end,
      ap (with_end settings new_id time meanwhile bot_id owner) e,
    )

-- A call that leaves the capacity tables alone, however it ends.
abbrev pub KeepsCapacity : {A : Type 0} → Action Db A → Type 0
KeepsCapacity m =
    (db : Db) → ((m db).1.reservations ≡ db.reservations) × ((m db).1.counters ≡ db.counters)

module _ {Leases : Type 0} (take : Leases → Bool × Leases) (give : Leases → Leases) (now : Instant)
    (fail : FailCode → ℕ → Action Db (Unit {0})) (spawn : ℕ → Action Db (Unit {0}))
    (shares_profile : Bool) (bot_id owner : ℕ) where
  run_keeps :
      ((code : FailCode) → KeepsCapacity (fail code bot_id))
      → KeepsCapacity (spawn bot_id)
      → (db : Db) (leases : Leases)
      → ((run_with_lease take give now fail spawn shares_profile bot_id owner
            (db, leases)).1.0.reservations
          ≡ db.reservations)
        × ((run_with_lease take give now fail spawn shares_profile bot_id owner
              (db, leases)).1.0.counters
            ≡ db.counters)
  unfolding run_with_lease
  run_keeps failing spawning db leases = elim (Bool-cases shares_profile) [
    | inr own ↦ rw own (spawning db)
    | inl shared ↦ elim (Bool-cases (take leases).0) [
      | inl acquired ↦ rw shared (rw acquired (spawning db))
      | inr busy ↦ rw shared (rw busy (failing (other "profile-busy") db))
    ]
  ]

  IsCounted-same :
      (db db' : Db)
      → db'.reservations ≡ db.reservations
      → db'.counters ≡ db.counters
      → IsCounted db
      → IsCounted db'
  IsCounted-same db db' e e' h = record {
    counted = λ t. rw e (rw e' (h.counted t));
    single = λ b. rw e (h.single b);
  }

  -- Once a run has capacity, then however it ends, whether its runtime returns or raises, or the
  -- profile that it shares is busy, its reservation is given back, every other run holds what it
  -- held, and the counters still count the open reservations, if the runtime and `fail_run` leave
  -- the capacity tables alone.
  pub after_reserving_gives_back :
      ((code : FailCode) → KeepsCapacity (fail code bot_id))
      → KeepsCapacity (spawn bot_id)
      → (db : Db) (leases : Leases) → IsCounted db
      → let (r, (db', leases')) =
          after_reserving take give now fail spawn shares_profile bot_id owner true (db, leases) in
        IsCounted db'
        × ((b : ℕ)
            → open_for b db'.reservations ≡ (if bot_id == b then 0 else open_for b db.reservations))
  unfolding after_reserving
  after_reserving_gives_back failing spawning db leases h =
      let ran =
        (run_with_lease take give now fail spawn shares_profile bot_id owner (db, leases)).1.0 in
      let (same, same') = run_keeps failing spawning db leases in
      let counted = IsCounted-same db ran same same' h in
      (
        release_capacity-IsCounted now bot_id ran counted,
        λ b.
            release_capacity-open_for now bot_id b ran counted
            ∙ ap (λ rs. if bot_id == b then 0 else open_for b rs) same,
      )
