-- ===== src/Webhooks/Sender.antt =====
-- `WebhookSender` of src/twin/webhooks/dispatch.py. An attempt is three steps: it leases the row,
-- posts, and records the outcome; the post is the receiver's `Outcome`. Text that only a log reads is
-- left out.
pub mod Attempts
pub mod Rounds
pub mod Starvation
use Prim.Native.String.{String}
use fakery.Prelude.{
  ℕ, suc, ◌+◌, ◌-◌, ◌*◌, ◌^◌, min, max, Bool, true, false, ◌&&◌, ◌||◌, not, Option, none, some,
  List, [], ◌∷◌, ◌++◌, if◌then◌else◌, ◌==◌, ltb, leb, filter, take, sort_by, find_row, put_row,
  length,
}
use fakery.Bots.Models.{
  WebhookDelivery, DeliveryStatus, pending, retry, sent, dead, skipped, Instant, Db, seconds, days,
}
use fakery.Webhooks.Streams.{Stream, stream_of, may_send, group_by_stream, ready_deliveries}

abbrev pub retry_base_s : ℕ
retry_base_s = 2

abbrev pub retry_cap_s : ℕ
retry_cap_s = 300

abbrev pub max_attempts : ℕ
max_attempts = 10

abbrev pub send_batch : ℕ
send_batch = 50

abbrev pub row_ttl_days : ℕ
row_ttl_days = 30

abbrev pub send_lease_ttl_s : ℕ
send_lease_ttl_s = 120

-- The `Retry-After` header: absent, the integer that `int` reads, below zero or not, or no integer.
pub data RetryAfter : Type 0 where
  absent negative not_an_integer : RetryAfter
  number : ℕ → RetryAfter

pub record Response : Type 0 where
  pub status_code : ℕ
  pub retry_after : RetryAfter

-- What `client.post` gives: a response, or an exception, by the name of its class.
pub data Outcome : Type 0 where
  responded : Response → Outcome
  raised : String → Outcome

unfoldable pub retry_after_seconds : Option Response → Option ℕ
retry_after_seconds none = none
retry_after_seconds (some r) = elim r.retry_after [
  | absent ↦ none
  | negative ↦ some 0
  | not_an_integer ↦ none
  | number n ↦ some n
]

unfoldable pub is_retryable : Option Response → Bool
is_retryable none = true
is_retryable (some r) =
    (r.status_code == 408 || r.status_code == 429)
    || (leb 500 r.status_code && leb r.status_code 599)

abbrev pub key : WebhookDelivery → ℕ
key d = d.id

abbrev pub write : WebhookDelivery → Db → Db
write d db = record db { deliveries = put_row key d db.deliveries }

abbrev pub read : ℕ → Db → Option WebhookDelivery
read k db = find_row key k db.deliveries

-- `lease_expires_at is not None and lease_expires_at > utcnow()`
abbrev pub is_leased : Instant → WebhookDelivery → Bool
is_leased now d = elim d.lease_expires_at [ none ↦ false | some t ↦ ltb now t ]

-- The first `session_scope` of `_attempt`: whether the row was leased under `token`.
unfoldable pub lease_row : Instant → ℕ → ℕ → Db → Bool × Db
lease_row now token k db = elim (read k db) [
  | none ↦ (false, db)
  | some fresh ↦
      if may_send fresh.status && not (is_leased now fresh)
      then (
        true,
        write
            (record fresh {
              lease_token = some token;
              lease_expires_at = some (now + seconds send_lease_ttl_s);
            })
            db,
      )
      else (false, db)
]

abbrev pub holds : ℕ → WebhookDelivery → Bool
holds token d = elim d.lease_token [ none ↦ false | some t ↦ t == token ]

-- What an attempt reports, and `run_once` counts.
pub data Report : Type 0 where
  was_sent was_dead was_failed : Report

unfoldable pub mark_sent : Instant → WebhookDelivery → WebhookDelivery
mark_sent now d = record d {
  status = sent;
  sent_at = some now;
  lease_token = none;
  lease_expires_at = none;
}

unfoldable pub record_sent : Instant → ℕ → ℕ → Db → Report × Db
record_sent now token k db = elim (read k db) [
  | none ↦ (was_sent, db)
  | some fresh ↦ (was_sent, (if holds token fresh then write (mark_sent now fresh) db else db))
]

-- The seconds until the next try after the given number of attempts, before the jitter is added.
unfoldable pub backoff : ℕ → Option Response → ℕ
backoff attempts response =
    max (min retry_cap_s (retry_base_s * 2 ^ (attempts - 1)))
      (elim (retry_after_seconds response) [ none ↦ 0 | some n ↦ n ])

-- The time until the next try; `jitter` is what `random.uniform` adds.
unfoldable pub wait : ℕ → Option Response → ℕ → ℕ
unfolding backoff
wait attempts response jitter = seconds (backoff attempts response) + jitter

abbrev pub code_of : Option Response → Option ℕ
code_of none = none
code_of (some r) = some r.status_code

-- `datetime.max`: an instant is counted from `datetime.min` here.
abbrev pub last_instant : Instant
last_instant = 315_537_897_599_999_999

-- The row after a failed attempt, before it is dead or put off.
abbrev pub tried : Option Response → String → WebhookDelivery → WebhookDelivery
tried response error d = record d {
  attempts = d.attempts + 1;
  last_status_code = code_of response;
  last_error = some error;
  lease_token = none;
  lease_expires_at = none;
}

-- What a failed attempt makes of a row; none where the time of the next try is past `datetime.max`, which
-- raises `OverflowError`.
unfoldable pub mark_failed :
    Instant → ℕ → Option Response → String → WebhookDelivery → Option (Report × WebhookDelivery)
unfolding wait is_retryable
mark_failed now jitter response error d =
    if not (is_retryable response) || leb max_attempts (d.attempts + 1)
    then some (was_dead, record (tried response error d) { status = dead; dead_at = some now })
    else if leb (now + wait (d.attempts + 1) response jitter) last_instant
    then some (
      was_failed,
      record (tried response error d) {
        status = retry;
        next_try_at = now + wait (d.attempts + 1) response jitter;
      },
    )
    else none

abbrev pub put_failed : Option (Report × WebhookDelivery) → Db → Option (Report × Db)
put_failed none db = none
put_failed (some (report, row)) db = some (report, write row db)

-- `_record_failure`: none where it raises, which rolls its transaction back.
unfoldable pub record_failure :
    Instant → ℕ → Option Response → String → ℕ → ℕ → Db → Option (Report × Db)
record_failure now jitter response error token k db = elim (read k db) [
  | none ↦ some (was_failed, db)
  | some fresh ↦
      if holds token fresh
      then put_failed (mark_failed now jitter response error fresh) db
      else some (was_failed, db)
]

-- What `_attempt` reports; none where it raises.
abbrev pub reported : Option (Report × Db) → Db → Option Report × Db
reported none db = (none, db)
reported (some (report, db')) db = (some report, db')

-- The `try` around the post and around the first `_record_failure`: what that raises is recorded in its
-- turn, as an exception without a response.
abbrev pub or_overflow : Instant → ℕ → ℕ → ℕ → Option (Report × Db) → Db → Option Report × Db
or_overflow now again token k (some (report, db')) db = (some report, db')
or_overflow now again token k none db =
    reported (record_failure now again none "OverflowError" token k db) db

-- A response of 300 and above is a failure; so is an exception, which has no response. `jitter` is what
-- `random.uniform` adds to the wait, and `again` what it adds where a failure is recorded once more.
unfoldable pub record_outcome : Instant → ℕ → ℕ → Outcome → ℕ → ℕ → Db → Option Report × Db
record_outcome now jitter again (raised error) token k db =
    reported (record_failure now jitter none error token k db) db
record_outcome now jitter again (responded r) token k db =
    if leb 300 r.status_code
    then or_overflow now again token k
        (record_failure now jitter (some r) "HTTPStatusError" token k db) db
    else reported (some (record_sent now token k db)) db

-- `_attempt`, with nothing done to the row between its steps.
unfoldable pub attempt : Instant → Instant → ℕ → ℕ → ℕ → Outcome → ℕ → Db → Option Report × Db
attempt now later jitter again token outcome k db =
    let (leased, db') = lease_row now token k db in
    if leased then record_outcome later jitter again outcome token k db' else (some was_failed, db)

-- `_purge`: rows that are done with are deleted after `ROW_TTL_DAYS`.
abbrev pub is_done : DeliveryStatus → Bool
is_done sent = true
is_done dead = true
is_done skipped = true
is_done _ = false

abbrev pub is_purged : Instant → WebhookDelivery → Bool
is_purged moment d = ltb (d.created_at + days row_ttl_days) moment && is_done d.status

unfoldable pub purge : Instant → Db → ℕ × Db
purge moment db = (
  length (filter (is_purged moment) db.deliveries),
  record db { deliveries = filter (λ d. not (is_purged moment d)) db.deliveries },
)

-- The rows that `run_once` selects, and those of them that may go.
abbrev pub is_selected : DeliveryStatus → Bool
is_selected pending = true
is_selected retry = true
is_selected dead = true
is_selected _ = false

abbrev pub select_order : WebhookDelivery → WebhookDelivery → Bool
select_order a b =
    ltb a.sequence b.sequence
    || (a.sequence == b.sequence
        && (ltb a.next_try_at b.next_try_at || (a.next_try_at == b.next_try_at && leb a.id b.id)))

unfoldable pub select_pending : Instant → Db → List WebhookDelivery
select_pending moment db =
    ready_deliveries
      (take send_batch (sort_by select_order (filter (λ d. is_selected d.status) db.deliveries)))
      moment
