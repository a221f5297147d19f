-- ===== src/Bots/Queue/Relay.antt =====
-- `relay_queued` (src/twin/bots/queue.py) against the table of runs.
use Prim.Native.String.{String}
use fakery.Prelude.{
  ℕ, zero, suc, ◌+◌, ◌≤◌, ◌≡◌, ◌∙◌, ap, refl, Option, none, some, List, [], ◌∷◌, map, length, take,
  Option-cases, inl, inr, arith,
}
use fakery.Bots.State.{BotStatus}
use fakery.Bots.Models.{BotRun, Instant, Db}
use fakery.Bots.Repository
use fakery.Bots.Service.Runs.{
  IsSound, IsWellFormed, Updates, save-IsSound, stored-IsWellFormed, get_id, get-save,
}
use fakery.Bots.Queue.{
  dispatched, relay_rows, relay_queued, relayable, was_taken, dispatch_relay_batch, id_of,
}

length-map-take {ℓ} :
    {A : Type ℓ} (f : A → ℕ) (n : ℕ) (xs : List A) → length (map f (take n xs)) ≤ n
length-map-take f zero xs = omega arith
length-map-take f (suc n) [] = omega arith
length-map-take f (suc n) (x ∷ xs) = omega (arith, length-map-take f n xs)

batch_bound : (db : Db) → length (map id_of (relayable db)) ≤ dispatch_relay_batch
unfolding relayable
batch_bound db = length-map-take id_of dispatch_relay_batch _

module _ (now : Instant) (xadd : ℕ → Option String) where
  dispatched-Updates : (r : Option String) (run : BotRun) → Updates run (dispatched now r run)
  unfolding dispatched
  dispatched-Updates none run = record {
    same_id = refl;
    same_key = refl;
    same_token = refl;
    no_revival = λ h. h;
  }
  dispatched-Updates (some error) run = record {
    same_id = refl;
    same_key = refl;
    same_token = refl;
    no_revival = λ h. h;
  }

  dispatched-IsWellFormed :
      (r : Option String) (run : BotRun) → IsWellFormed run → IsWellFormed (dispatched now r run)
  unfolding dispatched
  dispatched-IsWellFormed none run w = record {
    left = w.left;
    reason = w.reason;
    admitted = w.admitted;
  }
  dispatched-IsWellFormed (some error) run w = record {
    left = w.left;
    reason = w.reason;
    admitted = w.admitted;
  }

  pub relay_missing :
      (k : ℕ) (ks : List ℕ) (db : Db)
      → Repository.get k db ≡ none
      → relay_rows now xadd (k ∷ ks) db ≡ relay_rows now xadd ks db
  unfolding relay_rows
  relay_missing k ks db e = ground (arith, e)

  pub relay_one :
      (k : ℕ) (ks : List ℕ) (run : BotRun) (db : Db)
      → Repository.get k db ≡ some run
      → let (relayed, db') =
          relay_rows now xadd ks (Repository.save now (dispatched now (xadd k) run) db) in
        relay_rows now xadd (k ∷ ks) db ≡ (was_taken (xadd k) + relayed, db')
  unfolding relay_rows
  relay_one k ks run db e = ground (arith, e)

  save-dispatched-IsSound :
      (k : ℕ) (run : BotRun) (db : Db)
      → Repository.get k db ≡ some run
      → IsSound db
      → IsSound (Repository.save now (dispatched now (xadd k) run) db)
  save-dispatched-IsSound k run db e h =
      save-IsSound now run (dispatched now (xadd k) run) db (dispatched-Updates (xadd k) run)
        (ap (λ j. Repository.get j db)
            ((dispatched-Updates (xadd k) run).same_id ∙ get_id k run db e)
          ∙ e)
        (dispatched-IsWellFormed (xadd k) run (stored-IsWellFormed k run db e h)) h

  relay_rows-IsSound : (ks : List ℕ) (db : Db) → IsSound db → IsSound (relay_rows now xadd ks db).1
  unfolding relay_rows
  relay_rows-IsSound [] db h = h
  relay_rows-IsSound (k ∷ ks) db h = elim (Option-cases (Repository.get k db)) [
    | inl e ↦ rw (relay_missing k ks db e) (relay_rows-IsSound ks db h)
    | inr (run, e) ↦
        rw (relay_one k ks run db e)
          (relay_rows-IsSound ks _ (save-dispatched-IsSound k run db e h))
  ]

  -- The status of a run, where there is one.
  abbrev pub status_of : Option BotRun → Option BotStatus
  status_of none = none
  status_of (some run) = some run.status

  save-dispatched-status :
      (k j : ℕ) (run : BotRun) (db : Db)
      → Repository.get k db ≡ some run
      → status_of (Repository.get j (Repository.save now (dispatched now (xadd k) run) db))
        ≡ status_of (Repository.get j db)
  unfolding dispatched
  save-dispatched-status k j run db e = ground (
    arith,
    e,
    get_id k run db e,
    get-save now j (dispatched now (xadd k) run) db,
    dispatched-Updates (xadd k) run,
  )

  relay_rows-status :
      (ks : List ℕ) (j : ℕ) (db : Db)
      → status_of (Repository.get j (relay_rows now xadd ks db).1) ≡ status_of (Repository.get j db)
  unfolding relay_rows
  relay_rows-status [] j db = refl
  relay_rows-status (k ∷ ks) j db = elim (Option-cases (Repository.get k db)) [
    | inl e ↦ rw (relay_missing k ks db e) (relay_rows-status ks j db)
    | inr (run, e) ↦
        rw (relay_one k ks run db e)
          (relay_rows-status ks j _ ∙ save-dispatched-status k j run db e)
  ]

  relay_rows-count : (ks : List ℕ) (db : Db) → (relay_rows now xadd ks db).0 ≤ length ks
  unfolding relay_rows
  relay_rows-count [] db = omega arith
  relay_rows-count (k ∷ ks) db = elim (Option-cases (Repository.get k db)) [
    | inl e ↦ rw (relay_missing k ks db e) (omega (arith, relay_rows-count ks db))
    | inr (run, e) ↦
        rw (relay_one k ks run db e) (
          ground
            (arith, relay_rows-count ks (Repository.save now (dispatched now (xadd k) run) db)))
  ]

  -- Whatever the stream says, a relay keeps the table of runs sound, changes the status of no run, and
  -- counts at most one batch.
  pub relay_queued_lem :
      (db : Db)
      → IsSound db
      → let (relayed, db') = relay_queued now xadd db in
        IsSound db'
        × (relayed ≤ dispatch_relay_batch)
        × ((j : ℕ) → status_of (Repository.get j db') ≡ status_of (Repository.get j db))
  unfolding relay_queued relayable
  relay_queued_lem db h = (
    relay_rows-IsSound _ db h,
    omega (arith, relay_rows-count (map id_of (relayable db)) db, batch_bound db),
    λ j. relay_rows-status _ j db,
  )
