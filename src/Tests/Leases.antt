-- ===== src/Tests/Leases.antt =====
-- A Redis with the laws of `Bots/Queue/Leases`, and the theorems on leases, on rounds of the sender and
-- on the routes, each at one input.
use fakery.Prelude.{
  ℕ, zero, suc, filter-All, is_earlier, ◌≡◌, refl, arith, Bool, true, false, Option, none, some,
  List, [], ◌∷◌, Text, All, if◌then◌else◌, find_row, filter,
}
use fakery.Bots.Models.{BotRun, WebhookDelivery, Db, dead}
use fakery.Bots.Service.{get}
use fakery.Bots.Repository
use fakery.Bots.Service.Create.{new_run}
use fakery.Bots.Queue.Leases.{
  Key, cancel_key, heartbeat_key, lease_key, send_lease, key_eq, Redis, Laws, acquire_lease,
  release_lease, release_race,
}
use fakery.Webhooks.Sender.{responded, absent, purge, select_order, is_selected}
use fakery.Webhooks.Sender.Rounds.{Answer, zeros, run_once}
use fakery.Webhooks.Sender.Starvation.{Silent, starved}
use fakery.Storage.Blob.{uri_of}
use fakery.Api.{serve, get_bot_recording}
use fakery.Api.Routes.{Served, get_bot_recording-Served}
use fakery.Tests.{code, sample_run, sample_db, sample_delivery}

key_eq_refl : (k : Key) → key_eq k k ≡ true
key_eq_refl (cancel_key a) = ground arith
key_eq_refl (heartbeat_key a) = ground arith
key_eq_refl (lease_key a p t) = ground arith
key_eq_refl (send_lease a none) = ground arith
key_eq_refl (send_lease a (some s)) = ground arith

abbrev Keys : Type 0
Keys = Key → Option ℕ

abbrev put : Key → Option ℕ → Keys → Keys
put k v s j = if key_eq j k then v else s j

abbrev put_new : Key → ℕ → Keys → Option ℕ → Bool × Keys
put_new k v s none = (true, put k (some v) s)
put_new k v s (some w) = (false, s)

-- A server that keeps its keys as a function.
abbrev server : Redis
server = record {
  State = Keys;
  set = λ k v ttl s. put k (some v) s;
  set_nx = λ k v ttl s. put_new k v s (s k);
  read = λ k s. s k;
  delete = λ k s. put k none s;
  expire = λ k s. put k none s;
}

put_here : (k : Key) (v : Option ℕ) (s : Keys) → put k v s k ≡ v
put_here k v s = rw (key_eq_refl k) refl

put_elsewhere : (j k : Key) (v : Option ℕ) (s : Keys) → key_eq j k ≡ false → put k v s j ≡ s j
put_elsewhere j k v s h = rw h refl

put_new_elsewhere :
    (j k : Key) (v : ℕ) (s : Keys) (o : Option ℕ) → key_eq j k ≡ false → (put_new k v s o).1 j ≡ s j
put_new_elsewhere j k v s none h = put_elsewhere j k (some v) s h
put_new_elsewhere j k v s (some w) h = refl

server-Laws : Laws server
server-Laws = record {
  read-set = λ k v ttl s. put_here k (some v) s;
  set_nx_free = λ k v ttl s h. rw h (refl, put_here k (some v) s);
  set_nx_taken = λ k v w ttl s h. rw h refl;
  read-delete = λ k s. put_here k none s;
  read-expire = λ k s. put_here k none s;
  elsewhere = λ j k v ttl s h. (
    put_elsewhere j k (some v) s h,
    put_new_elsewhere j k v s (s k) h,
    put_elsewhere j k none s h,
    put_elsewhere j k none s h,
  );
}

abbrev nothing : Keys
nothing k = none

abbrev profile : Key
profile = lease_key 5 0 1

abbrev held_by_seven : Keys
held_by_seven = (acquire_lease server profile 7 3_600 nothing).1

release_race_example :
    let before = put profile (some 7) nothing in
    let taken : Keys → Keys =
      λ t. (acquire_lease server profile 8 3_600 (server.expire profile t)).1 in
    ((acquire_lease server profile 8 3_600 (server.expire profile before)).0 ≡ true)
    × (server.read profile (taken before) ≡ some 8)
    × (server.read profile (release_lease server taken profile 7 before) ≡ none)
release_race_example =
    release_race server server-Laws profile 7 8 3_600 (put profile (some 7) nothing) refl

-- A receiver that takes everything.
abbrev takes : WebhookDelivery → Answer
takes d = record {
  now = 200;
  later = 210;
  jitter = 0;
  again = 0;
  token = 77;
  outcome = responded (record { status_code = 200; retry_after = absent });
}

-- Dead deliveries of so many runs, and a pending one behind them.
abbrev dead_row : ℕ → WebhookDelivery
dead_row n = record sample_delivery { id = n; sequence = 0; status = dead }

abbrev dead_rows : ℕ → List WebhookDelivery
dead_rows zero = []
dead_rows (suc n) = dead_row n ∷ dead_rows n

dead_rows-Silent : (n : ℕ) → All Silent (dead_rows n)
dead_rows-Silent zero = tt
dead_rows-Silent (suc n) = (refl, dead_rows-Silent n)

abbrev blocked_db : Db
blocked_db = record sample_db { deliveries = sample_delivery ∷ dead_rows 50 }

starved_example :
    run_once server (λ s. s) takes 200 blocked_db nothing
    ≡ (some (record zeros { purged = (purge 200 blocked_db).0 }), (purge 200 blocked_db).1, nothing)
starved_example =
    starved 200 sample_delivery blocked_db
      (filter-All Silent (is_earlier select_order sample_delivery)
        (filter (λ d. is_selected d.status) (dead_rows 50))
        (filter-All Silent (λ d. is_selected d.status) (dead_rows 50) (dead_rows-Silent 50)))
      (omega arith) server (λ s. s) takes nothing

abbrev bucket : Text
bucket = b'b' ∷ []

abbrev recorded_db : Db
recorded_db = record sample_db {
  bots = record sample_run { recording_uri = some (uri_of bucket code) } ∷ [];
}

get_bot_recording-Served_example :
    (run : BotRun) × (Repository.get 1 recorded_db ≡ some run)
    × Served 210 (λ k. some code) (λ b. code) run code
    × ((get_bot_recording 210 (λ k. some code) (λ b. code) 1 recorded_db).1 ≡ recorded_db)
unfolding get_bot_recording serve get Repository.get find_row new_run uri_of
get_bot_recording-Served_example =
    get_bot_recording-Served 210 (λ k. some code) (λ b. code) 1 code recorded_db refl
