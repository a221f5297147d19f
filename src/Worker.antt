-- ===== src/Worker.antt =====
-- `GuestPacer` of src/twin/worker.py: guests start at least a gap apart. Times are in microseconds.
pub mod Claim
use fakery.Prelude.{ℕ, ◌+◌, ◌-◌, ◌≤◌, ◌≡◌, max, if◌then◌else◌, ◌==◌, arith}

pub record GuestPacer : Type 0 where
  pub gap : ℕ
  pub next_at : ℕ

-- The wait, the slot, and the pacer that is left.
unfoldable pub reserve : GuestPacer → ℕ → ℕ × ℕ × GuestPacer
reserve pacer now =
    let slot_at = max now pacer.next_at in
    (slot_at - now, slot_at, record pacer { next_at = slot_at + pacer.gap })

unfoldable pub release : GuestPacer → ℕ → GuestPacer
release pacer slot_at =
    if pacer.next_at == slot_at + pacer.gap then record pacer { next_at = slot_at } else pacer

-- A guest that reserved waits exactly until its slot. The guest after it, whenever it comes, gets a
-- slot at least the gap later; and if the first guest gives its slot up before that, no later than
-- without it.
pub reserve_apart :
    (pacer : GuestPacer) (now later : ℕ)
    → let (wait, slot, left) = reserve pacer now in
      (now + wait ≡ slot)
      × (slot + pacer.gap ≤ (reserve left later).1)
      × ((reserve (release left slot) later).1 ≡ max later slot)
unfolding reserve release
reserve_apart pacer now later = (omega arith, omega arith, ground arith)
