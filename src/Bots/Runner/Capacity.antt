-- ===== src/Bots/Runner/Capacity.antt =====
-- The counters of src/twin/bots/runner.py against the reservations that they count.
pub mod Reserve
pub mod Release
pub mod Sweep
use fakery.Prelude.{
  ℕ, suc, ◌+◌, ◌-◌, ◌≤◌, ◌<◌, ◌≡◌, ◌∙◌, refl, sym, ap, Bool, true, false, ◌&&◌, Option, none, some,
  List, [], ◌∷◌, ◌++◌, if◌then◌else◌, ◌==◌, leb, is_none, is_some, count_if, find?, find_row,
  put_row, find_row-put_row, find_row_key, Bool-cases, Option-cases, inl, inr, arith,
}
use fakery.Bots.Models.{CapacityCounter, CapacityReservation, BotRun, Instant, Db}
use fakery.Bots.Repository
use fakery.Bots.Runner.{
  Settings, is_open_for, counter_key, load_counter, try_reserve_capacity, decrement, close_first,
  release_capacity, is_stale, sweep_rows, sweep_capacity,
}

-- What the counter of a tenant says; a tenant without one has nothing reserved.
unfoldable pub active_of : ℕ → List CapacityCounter → ℕ
active_of t counters = elim (find_row counter_key t counters) [ none ↦ 0 | some c ↦ c.active_count ]

abbrev pub is_open_of : ℕ → CapacityReservation → Bool
is_open_of t r = r.tenant == t && is_none r.released_at

-- The open reservations of a tenant, and of a run.
unfoldable pub open_count : ℕ → List CapacityReservation → ℕ
open_count t = count_if (is_open_of t)

unfoldable pub open_for : ℕ → List CapacityReservation → ℕ
open_for b = count_if (is_open_for b)

-- Each counter is the number of its tenant's open reservations, and no run has two.
pub record IsCounted (db : Db) : Type 0 where
  pub counted : (t : ℕ) → active_of t db.counters ≡ open_count t db.reservations
  pub single : (b : ℕ) → open_for b db.reservations ≤ 1

pub active_of-put_row :
    (t : ℕ) (c : CapacityCounter) (cs : List CapacityCounter)
    → active_of t (put_row counter_key c cs) ≡ (
        if c.tenant == t
        then (if is_some (find_row counter_key t cs) then c.active_count else 0)
        else active_of t cs)
unfolding active_of
active_of-put_row t c cs = ground (arith, find_row-put_row counter_key t c cs)

find_row-append_one :
    (t : ℕ) (c : CapacityCounter) (cs : List CapacityCounter)
    → find_row counter_key t (cs ++ c ∷ []) ≡ elim (find_row counter_key t cs) [
      | none ↦ if c.tenant == t then some c else none
      | some d ↦ some d
    ]
unfolding find_row
find_row-append_one t c [] = refl
find_row-append_one t c (d ∷ cs) = ground (arith, find_row-append_one t c cs)

-- `decrement` lowers the counter of one tenant.
pub active_of-decrement :
    (t u : ℕ) (cs : List CapacityCounter)
    → active_of t (decrement u cs) ≡ (if u == t then active_of t cs - 1 else active_of t cs)
unfolding decrement active_of
active_of-decrement t u cs = elim (Option-cases (find_row counter_key u cs)) [
  | inl e ↦ ground (arith, e)
  | inr (c, e) ↦ ground (
    arith,
    e,
    find_row_key counter_key u c cs e,
    find_row-put_row counter_key t (record c { active_count = c.active_count - 1 }) cs,
  )
]

-- `load_counter` changes no count, and gives the tenant's counter under the limit of the settings.
module _ (settings : Settings) (cs : List CapacityCounter) where
  pub load_counter-active : (t : ℕ) → active_of t (load_counter settings cs).1 ≡ active_of t cs
  unfolding load_counter active_of
  load_counter-active t = elim (Option-cases (find_row counter_key settings.tenant cs)) [
    | inl e ↦ ground (arith, e, find_row-append_one t (load_counter settings cs).0 cs)
    | inr (c, e) ↦ ground (
      arith,
      e,
      find_row_key counter_key settings.tenant c cs e,
      find_row-put_row counter_key t (record c { limit = settings.max_concurrent_runs }) cs,
    )
  ]

  pub load_counter-counter :
      let c = (load_counter settings cs).0 in
      (c.active_count ≡ active_of settings.tenant cs)
      × (c.limit ≡ settings.max_concurrent_runs)
      × (c.tenant ≡ settings.tenant)
  unfolding load_counter active_of
  load_counter-counter = elim (Option-cases (find_row counter_key settings.tenant cs)) [
    | inl e ↦ ground (arith, e)
    | inr (c, e) ↦ ground (arith, e, find_row_key counter_key settings.tenant c cs e)
  ]

  pub load_counter-found :
      is_some (find_row counter_key settings.tenant (load_counter settings cs).1) ≡ true
  unfolding load_counter
  load_counter-found = elim (Option-cases (find_row counter_key settings.tenant cs)) [
    | inl e ↦ ground (arith, e, find_row-append_one settings.tenant (load_counter settings cs).0 cs)
    | inr (c, e) ↦ ground (
      arith,
      e,
      find_row_key counter_key settings.tenant c cs e,
      find_row-put_row counter_key settings.tenant
          (record c { limit = settings.max_concurrent_runs }) cs,
    )
  ]

-- Counting tests over a table that grows by one row.
pub count_if-append_one {ℓ} :
    {A : Type ℓ} (p : A → Bool) (xs : List A) (a : A)
    → count_if p (xs ++ a ∷ []) ≡ count_if p xs + (if p a then 1 else 0)
count_if-append_one p [] a = omega arith
count_if-append_one p (x ∷ xs) a = omega (arith, count_if-append_one p xs a)

pub count_if-none {ℓ} :
    {A : Type ℓ} (p : A → Bool) (xs : List A) → find? p xs ≡ none → count_if p xs ≡ 0
count_if-none p [] h = refl
count_if-none p (x ∷ xs) h = ground (arith, count_if-none p xs)
