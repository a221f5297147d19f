-- ===== src/Worker/Claim.antt =====
-- `run_claim` of src/twin/worker.py. `stopped` is what it finds before it paces, `interrupted`
-- whether it finds that in the pacing wait; `execute` is `execute_run`, `fail` is `fail_run`, and
-- the entries are those that `ack_run` has acknowledged.
use Prim.Native.String.{String}
use fakery.Prelude.{
  ℕ, ◌≡◌, ◌≢◌, ◌∙◌, refl, Bool, true, false, ◌||◌, Option, none, some, List, [], ◌∷◌, map,
  if◌then◌else◌, All, filter, sort_by, sort_by-All, take-All, Bool-cases, Option-cases, inl, inr,
  arith,
}
use fakery.Core.Action.{Action, ok, err}
use fakery.Core.Errors.{Error, join_failed, integrity_error, external}
use fakery.Bots.Models.{BotRun, Instant, Db}
use fakery.Bots.Repository
use fakery.Bots.Service.Runs.{get-save, get_id}
use fakery.Bots.Queue.{
  is_relayable, first_made, relayable, relay_rows, relay_queued, id_of, dispatch_relay_batch,
  dispatched,
}
use fakery.Bots.Runtime.{FailCode, cancelled, shutdown, other, string_eq}

-- The code that `fail_run` reads.
abbrev pub code_of : String → FailCode
code_of s =
    if string_eq s "cancelled"
    then cancelled
    else if string_eq s "shutdown"
    then shutdown
    else other s

-- The code of a library's exception.
abbrev pub library_code : Option String → FailCode
library_code none = other "internal"
library_code (some code) = code_of code

-- `_error_code`: a `JoinError` has a code, the errors of this program and of Python have none, and
-- `attribute` is the `code` of a library's exception, none where it has none or an empty one.
unfoldable pub error_code : (String → Option String) → Error → FailCode
error_code attribute (join_failed code) = code_of code
error_code attribute integrity_error = library_code (attribute "IntegrityError")
error_code attribute (external name) = library_code (attribute name)
error_code attribute e = other "internal"

module _ (attribute : String → Option String) (execute : ℕ → Action Db (Unit {0}))
    (fail : FailCode → ℕ → Action Db (Unit {0})) where
  -- `except Exception`: what `execute_run` raised fails the run.
  unfoldable pub execute_or_fail : ℕ → Action Db (Unit {0})
  execute_or_fail bot_id db =
      let (r, db') = execute bot_id db in
      elim r [ ok done ↦ (ok done, db') | err e ↦ fail (error_code attribute e) bot_id db' ]

  -- `run_claim`: the database and the acknowledged entries.
  unfoldable pub run_claim : Bool → Bool → ℕ → ℕ → Action (Db × List ℕ) (Unit {0})
  run_claim stopped interrupted entry_id bot_id (db, acked) =
      if stopped || interrupted
      then (ok tt, (db, entry_id ∷ acked))
      else let (r, db') = execute_or_fail bot_id db in (r, (db', entry_id ∷ acked))

module _ (now : Instant) (xadd : ℕ → Option String) (bot_id : ℕ) where
  dispatched_id : (r : Option String) (run : BotRun) → (dispatched now r run).id ≡ run.id
  unfolding dispatched
  dispatched_id none run = refl
  dispatched_id (some error) run = refl

  saved_other :
      (k : ℕ) (run : BotRun) (db : Db)
      → Repository.get k db ≡ some run
      → k ≢ bot_id
      → Repository.get bot_id (Repository.save now (dispatched now (xadd k) run) db)
        ≡ Repository.get bot_id db
  saved_other k run db e other_run =
      get-save now bot_id (dispatched now (xadd k) run) db
      ∙ ground (arith, dispatched_id (xadd k) run, get_id k run db e, other_run)

  -- A relay of other runs leaves a run as it is.
  relay_rows_others :
      (ks : List ℕ) (db : Db)
      → All (λ k. k ≢ bot_id) ks
      → Repository.get bot_id (relay_rows now xadd ks db).1 ≡ Repository.get bot_id db
  unfolding relay_rows
  relay_rows_others [] db others = refl
  relay_rows_others (k ∷ ks) db others = elim (Option-cases (Repository.get k db)) [
    | inl missing ↦ rw (missing, relay_rows) (relay_rows_others ks db others.1)
    | inr (run, e) ↦
        rw (e, relay_rows)
          (relay_rows_others ks (Repository.save now (dispatched now (xadd k) run) db) others.1
            ∙ saved_other k run db e others.0)
  ]

others_filtered :
    (bot_id : ℕ) (rs : List BotRun)
    → All (λ r. r.id ≡ bot_id → is_relayable r ≡ false) rs
    → All (λ (r : BotRun). r.id ≢ bot_id) (filter is_relayable rs)
others_filtered bot_id [] h = tt
others_filtered bot_id (r ∷ rs) h = elim (Bool-cases (is_relayable r)) [
  | inl due ↦ rw due ((λ e. cc (h.0 e, due)), others_filtered bot_id rs h.1)
  | inr e ↦ rw e (others_filtered bot_id rs h.1)
]

ids_others :
    (bot_id : ℕ) (rs : List BotRun)
    → All (λ (r : BotRun). r.id ≢ bot_id) rs
    → All (λ k. k ≢ bot_id) (map id_of rs)
ids_others bot_id [] h = tt
ids_others bot_id (r ∷ rs) h = (h.0, ids_others bot_id rs h.1)

module _ (attribute : String → Option String) (execute : ℕ → Action Db (Unit {0}))
    (fail : FailCode → ℕ → Action Db (Unit {0})) where
  -- A claim that is stopped or interrupted, as on a shutdown, acknowledges its entry and leaves the
  -- database as it is; and if the run's row is not one that `relay_queued` takes, because it is
  -- already marked as enqueued, then a relay that follows leaves the row as it is.
  pub run_claim_loses :
      (stopped interrupted : Bool) (entry_id bot_id : ℕ) (db : Db) (acked : List ℕ)
      → (stopped || interrupted) ≡ true
      → All (λ r. r.id ≡ bot_id → is_relayable r ≡ false) db.bots
      → let (r, (db', acked')) =
          run_claim attribute execute fail stopped interrupted entry_id bot_id (db, acked) in
        (db' ≡ db)
        × (acked' ≡ entry_id ∷ acked)
        × ((now : Instant) (xadd : ℕ → Option String)
            → Repository.get bot_id (relay_queued now xadd db').1 ≡ Repository.get bot_id db)
        × All (λ k. k ≢ bot_id) (map id_of (relayable db'))
  unfolding run_claim relay_queued relayable
  run_claim_loses stopped interrupted entry_id bot_id db acked gone marked =
      let rows =
        take-All (λ (r : BotRun). r.id ≢ bot_id) dispatch_relay_batch
          (sort_by first_made (filter is_relayable db.bots))
          (sort_by-All first_made (λ (r : BotRun). r.id ≢ bot_id) (filter is_relayable db.bots)
            (others_filtered bot_id db.bots marked)) in
      let ids = ids_others bot_id _ rows in
      rw gone (refl, refl, (λ now xadd. relay_rows_others now xadd bot_id _ db ids), ids)
