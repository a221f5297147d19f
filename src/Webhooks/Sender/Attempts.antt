-- ===== src/Webhooks/Sender/Attempts.antt =====
-- One attempt at a delivery (`_attempt`, `_record_failure` of src/twin/webhooks/dispatch.py).
use Prim.Native.String.{String}
use native.Mathlib.Nat.{one-le-pow}
use fakery.Prelude.{
  ℕ, suc, ◌+◌, ◌-◌, ◌*◌, ◌^◌, min, max, ◌≤◌, ◌≡◌, ◌∙◌, refl, sym, ap, Bool, true, false, ◌&&◌, ◌||◌,
  not, Option, none, some, if◌then◌else◌, ◌==◌, leb, find_row-put_row, find_row_key, Bool-cases,
  Option-cases, inl, inr, ◌⊎◌, arith,
}
use fakery.Bots.Models.{WebhookDelivery, retry, sent, dead, Instant, Db, seconds}
use fakery.Webhooks.Streams.{may_send}
use fakery.Webhooks.Sender.{
  Response, Outcome, responded, raised, Report, was_sent, was_dead, was_failed, key, write, read,
  is_leased, lease_row, retry_after_seconds, is_retryable, backoff, wait, mark_failed, mark_sent,
  record_failure, record_sent, record_outcome, attempt, tried, put_failed, reported, or_overflow,
  last_instant, code_of, max_attempts, send_lease_ttl_s, retry_cap_s,
}

-- A failure that is the last one.
abbrev pub is_last : Option Response → WebhookDelivery → Bool
is_last response d = not (is_retryable response) || leb max_attempts (d.attempts + 1)

-- The time of the next try is past `datetime.max`.
abbrev pub is_lost : Instant → ℕ → Option Response → WebhookDelivery → Bool
is_lost now jitter response d =
    not (is_last response d) && not (leb (now + wait (d.attempts + 1) response jitter) last_instant)

-- What a failure makes of a row: the attempt is counted and noted, and the delivery dies exactly if the
-- failure cannot be retried or was the last that is allowed; else it is put off by the wait.
abbrev pub Failed :
    Instant → ℕ → Option Response → String → WebhookDelivery → Report → WebhookDelivery → Type 0
Failed now jitter response error d report row =
    (row.attempts ≡ d.attempts + 1)
    × (row.last_status_code ≡ code_of response)
    × (row.last_error ≡ some error)
    × (if is_last response d
        then (report ≡ was_dead) × (row.status ≡ dead) × (row.dead_at ≡ some now)
        else (report ≡ was_failed)
          × (row.status ≡ retry)
          × (row.next_try_at ≡ now + wait (d.attempts + 1) response jitter))

abbrev pub Settled : Instant → ℕ → ℕ → Outcome → WebhookDelivery → Report → WebhookDelivery → Type 0
Settled now jitter again (raised error) d report row = Failed now jitter none error d report row
Settled now jitter again (responded r) d report row =
    if leb 300 r.status_code
    then if is_lost now jitter (some r) d
      then Failed now again none "OverflowError" d report row
      else Failed now jitter (some r) "HTTPStatusError" d report row
    else (report ≡ was_sent) × (row.status ≡ sent) × (row.attempts ≡ d.attempts)

-- The row of a failure whose next try can be told.
abbrev failed_row :
    Instant → ℕ → Option Response → String → WebhookDelivery → Report × WebhookDelivery
failed_row now jitter response error d =
    if is_last response d
    then (was_dead, record (tried response error d) { status = dead; dead_at = some now })
    else (
      was_failed,
      record (tried response error d) {
        status = retry;
        next_try_at = now + wait (d.attempts + 1) response jitter;
      },
    )

mark_failed_told :
    (now jitter : ℕ) (response : Option Response) (error : String) (d : WebhookDelivery)
    → is_lost now jitter response d ≡ false
    → mark_failed now jitter response error d ≡ some (failed_row now jitter response error d)
unfolding mark_failed
mark_failed_told now jitter response error d h = elim (Bool-cases (is_last response d)) [
  | inl e ↦ rw (e, mark_failed) refl
  | inr e ↦
      let told : leb (now + wait (d.attempts + 1) response jitter) last_instant ≡ true =
        ground (arith, e, h) in
      rw (e, mark_failed) (rw told refl)
]

mark_failed_lost :
    (now jitter : ℕ) (response : Option Response) (error : String) (d : WebhookDelivery)
    → is_lost now jitter response d ≡ true
    → mark_failed now jitter response error d ≡ none
unfolding mark_failed
mark_failed_lost now jitter response error d h =
    let e : is_last response d ≡ false = ground (arith, h) in
    let late : leb (now + wait (d.attempts + 1) response jitter) last_instant ≡ false =
      ground (arith, e, h) in
    rw (e, mark_failed) (rw late refl)

failed_row-Failed :
    (now jitter : ℕ) (response : Option Response) (error : String) (d : WebhookDelivery)
    → let (report, row) = failed_row now jitter response error d in
      Failed now jitter response error d report row
failed_row-Failed now jitter response error d = elim (Bool-cases (is_last response d)) [
  | inl e ↦ rw e (refl, refl, refl, (refl, refl, refl))
  | inr e ↦ rw e (refl, refl, refl, (refl, refl, refl))
]

-- The lease of a row is free.
abbrev pub IsFree : WebhookDelivery → Type 0
IsFree row = (row.lease_token ≡ none) × (row.lease_expires_at ≡ none)

failed_row-IsFree :
    (now jitter : ℕ) (response : Option Response) (error : String) (d : WebhookDelivery)
    → let row = (failed_row now jitter response error d).1 in (row.id ≡ d.id) × IsFree row
failed_row-IsFree now jitter response error d = elim (Bool-cases (is_last response d)) [
  | inl e ↦ rw e (refl, (refl, refl))
  | inr e ↦ rw e (refl, (refl, refl))
]

-- A row in its place is what is read under its key, and what is read elsewhere stays.
read-write :
    (j : ℕ) (d row : WebhookDelivery) (db : Db)
    → read d.id db ≡ some d
    → row.id ≡ d.id
    → read j (write row db) ≡ (if d.id == j then some row else read j db)
read-write j d row db e i = find_row-put_row key j row db.deliveries ∙ ground (arith, e, i)

-- There is time for another try after an exception, before `datetime.max`.
abbrev pub InTime : Instant → ℕ → WebhookDelivery → Type 0
InTime now jitter d = now + wait (d.attempts + 1) none jitter ≤ last_instant

told-InTime :
    (now jitter : ℕ) (d : WebhookDelivery) → InTime now jitter d → is_lost now jitter none d ≡ false
told-InTime now jitter d h = ground (arith, h)

module _ (now later jitter again token k : ℕ) (d : WebhookDelivery) (db : Db) where
  abbrev leased : WebhookDelivery
  leased = record d {
    lease_token = some token;
    lease_expires_at = some (now + seconds send_lease_ttl_s);
  }

  -- The row that an attempt leaves.
  abbrev outcome_row : Outcome → Report × WebhookDelivery
  outcome_row (raised error) = failed_row later jitter none error leased
  outcome_row (responded r) =
      if leb 300 r.status_code
      then if is_lost later jitter (some r) leased
        then failed_row later again none "OverflowError" leased
        else failed_row later jitter (some r) "HTTPStatusError" leased
      else (was_sent, mark_sent later leased)

  record_failure_lem :
      (n : ℕ) (response : Option Response) (error : String)
      → read k (write leased db) ≡ some leased
      → record_failure later n response error token k (write leased db)
        ≡ put_failed (mark_failed later n response error leased) (write leased db)
  unfolding record_failure
  record_failure_lem n response error i = ground (arith, i)

  told_lem :
      (n : ℕ) (response : Option Response) (error : String)
      → read k (write leased db) ≡ some leased
      → is_lost later n response leased ≡ false
      → record_failure later n response error token k (write leased db) ≡ (
          let (report, row) = failed_row later n response error leased in
          some (report, write row (write leased db)))
  told_lem n response error i told =
      record_failure_lem n response error i
      ∙ ap (λ o. put_failed o (write leased db))
          (mark_failed_told later n response error leased told)

  lost_lem :
      (n : ℕ) (response : Option Response) (error : String)
      → read k (write leased db) ≡ some leased
      → is_lost later n response leased ≡ true
      → record_failure later n response error token k (write leased db) ≡ none
  lost_lem n response error i lost =
      record_failure_lem n response error i
      ∙ ap (λ o. put_failed o (write leased db))
          (mark_failed_lost later n response error leased lost)

  outcome_lem :
      (outcome : Outcome)
      → read k (write leased db) ≡ some leased
      → InTime later jitter d
      → InTime later again d
      → record_outcome later jitter again outcome token k (write leased db)
        ≡ (some (outcome_row outcome).0, write (outcome_row outcome).1 (write leased db))
  unfolding record_outcome record_sent
  outcome_lem (raised error) i h g =
      ap (λ o. reported o (write leased db))
        (told_lem jitter none error i (told-InTime later jitter leased h))
  outcome_lem (responded r) i h g = elim (Bool-cases (leb 300 r.status_code)) [
    | inr e ↦ rw (e, record_outcome) (ground (arith, i))
    | inl e ↦ elim (Bool-cases (is_lost later jitter (some r) leased)) [
      | inl lost ↦
          rw (e, record_outcome)
            (rw lost (
              ap (λ o. or_overflow later again token k o (write leased db))
                (lost_lem jitter (some r) "HTTPStatusError" i lost)
              ∙ ap (λ o. reported o (write leased db))
                  (told_lem again none "OverflowError" i (told-InTime later again leased g))))
      | inr told ↦
          rw (e, record_outcome)
            (rw told (
              ap (λ o. or_overflow later again token k o (write leased db))
                (told_lem jitter (some r) "HTTPStatusError" i told)))
    ]
  ]

  attempt_lem :
      (outcome : Outcome)
      → read k db ≡ some d
      → d.id ≡ k
      → may_send d.status ≡ true
      → is_leased now d ≡ false
      → attempt now later jitter again token outcome k db
        ≡ record_outcome later jitter again outcome token k (write leased db)
  unfolding attempt lease_row
  attempt_lem outcome e i s l = ground (arith, e, s, l)

  outcome_row-Settled :
      (outcome : Outcome)
      → let (report, row) = outcome_row outcome in
        Settled later jitter again outcome d report row × (row.id ≡ d.id) × IsFree row
  unfolding mark_sent
  outcome_row-Settled (raised error) = (
    failed_row-Failed later jitter none error leased,
    (failed_row-IsFree later jitter none error leased).0,
    (failed_row-IsFree later jitter none error leased).1,
  )
  outcome_row-Settled (responded r) = elim (Bool-cases (leb 300 r.status_code)) [
    | inr e ↦ rw e ((refl, refl, refl), refl, (refl, refl))
    | inl e ↦ elim (Bool-cases (is_lost later jitter (some r) d)) [
      | inl lost ↦ rw (e) (
          rw lost (
            failed_row-Failed later again none "OverflowError" leased,
            (failed_row-IsFree later again none "OverflowError" leased).0,
            (failed_row-IsFree later again none "OverflowError" leased).1,
          ))
      | inr told ↦ rw (e) (
          rw told (
            failed_row-Failed later jitter (some r) "HTTPStatusError" leased,
            (failed_row-IsFree later jitter (some r) "HTTPStatusError" leased).0,
            (failed_row-IsFree later jitter (some r) "HTTPStatusError" leased).1,
          ))
    ]
  ]

  -- An attempt at a sendable delivery whose lease is free, with time for another try before
  -- `datetime.max`, settles it by the receiver's answer: a `Retry-After` that reaches past that time
  -- counts as an exception. It gives the lease back, both its token and its end, and leaves every other
  -- delivery as it was.
  pub attempt_settles :
      (outcome : Outcome)
      → read k db ≡ some d
      → may_send d.status ≡ true
      → is_leased now d ≡ false
      → InTime later jitter d
      → InTime later again d
      → let (report, db') = attempt now later jitter again token outcome k db in
        (r : Report) × (row : WebhookDelivery) × (report ≡ some r)
        × (read k db' ≡ some row)
        × Settled later jitter again outcome d r row
        × IsFree row
        × ((j : ℕ) → read j db' ≡ (if k == j then some row else read j db))
  attempt_settles outcome e s l h g =
      let i : d.id ≡ k = find_row_key key k d db.deliveries e in
      let (settled, same, free) = outcome_row-Settled outcome in
      let row = (outcome_row outcome).1 in
      let first : (j : ℕ)
          → read j (write leased db) ≡ (if d.id == j then some leased else read j db) =
        λ j. read-write j d leased db (ap (λ x. read x db) i ∙ e) refl in
      let second : (j : ℕ)
          → read j (write row (write leased db))
            ≡ (if d.id == j then some row else read j (write leased db)) =
        λ j. read-write j leased row (write leased db) (first d.id ∙ ground arith) same in
      let here : read k (write leased db) ≡ some leased = first k ∙ ground (arith, i) in
      rw (attempt_lem outcome e i s l ∙ outcome_lem outcome here h g) (
        (outcome_row outcome).0,
        row,
        refl,
        second k ∙ ground (arith, i),
        settled,
        free,
        λ j. second j ∙ ground (arith, i, first j),
      )

  -- A delivery that may not go, or that another sender has leased, is left alone.
  pub attempt_refused :
      (outcome : Outcome)
      → read k db ≡ some d
      → ((may_send d.status ≡ false) ⊎ (is_leased now d ≡ true))
      → attempt now later jitter again token outcome k db ≡ (some was_failed, db)
  unfolding attempt lease_row
  attempt_refused outcome e h = ground (arith, e)

doubles : (n : ℕ) → 2 ^ (suc (suc n) - 1) ≡ 2 * 2 ^ (suc n - 1)
doubles n = ap (λ k. 2 ^ k) less ∙ (pow_two n ∙ ap (λ k. 2 * 2 ^ k) (sym less'))
  where
    less : suc (suc n) - 1 ≡ suc n
    less = omega arith

    less' : suc n - 1 ≡ n
    less' = omega arith

    pow_two : (n : ℕ) → 2 ^ suc n ≡ 2 * 2 ^ n
    pow_two n = omega arith

-- What `random.uniform` may add to a wait: at most a second and at most a tenth of it.
abbrev pub IsJitter : ℕ → Option Response → ℕ → Type 0
IsJitter n response jitter = (jitter ≤ seconds 1) × (10 * jitter ≤ seconds (backoff n response))

-- The wait after the first failed attempt or a later one, its jitter included, is at least two seconds. If the receiver asked
-- for a time, it is at least that and at most a second more than that or the cap; without a usable
-- `Retry-After` it is at most a second more than the cap, and the next wait is not shorter, unless the
-- cap is reached, which it then keeps.
pub wait_bounds :
    (n jitter jitter' : ℕ) (response : Option Response)
    → IsJitter (suc n) response jitter
    → let w = wait (suc n) response jitter in
      (seconds 2 ≤ w) × (elim (retry_after_seconds response) as (λ o. Type 0) [
        | none ↦
            (w ≤ seconds (retry_cap_s + 1))
            × (min w (seconds retry_cap_s) ≤ wait (suc (suc n)) response jitter')
        | some s ↦ (seconds s ≤ w) × (w ≤ seconds (max retry_cap_s s + 1))
      ])
unfolding wait backoff
wait_bounds n jitter jitter' response h = elim (Option-cases (retry_after_seconds response)) [
  | inl e ↦ rw e (
    omega (arith, one-le-pow (suc n - 1) 2 (omega arith)),
    (ground (arith, e, h.0), ground (arith, e, h, doubles n)),
  )
  | inr (t, e) ↦ rw e (
    omega (arith, one-le-pow (suc n - 1) 2 (omega arith)),
    (ground (arith, e), ground (arith, e, h.0)),
  )
]
