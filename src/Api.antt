-- ===== src/Api.antt =====
-- The routes of src/twin/api: `routes/bots.py`, `routes/health.py` and the key of `deps.py`. A route
-- runs in the session of `get_session`, which commits, or rolls back where the route raises. Redis is
-- that of `Bots/Queue/Leases`; `fetch` is `blob.get`, none where it raises, and `sha256` the hexadecimal
-- digest. The JSON of a request and of a response is left out.
pub mod Routes
use fakery.Prelude.{
  ℕ, zero, suc, Bool, true, false, ◌&&◌, ◌||◌, not, Option, none, some, List, [], ◌∷◌, Text,
  text_eq, if◌then◌else◌, ◌==◌, leb, is_none,
}
use fakery.Core.Errors.{
  Slug, not_found, unauthorized, upstream_unavailable, validation_failed, make_error, twin,
}
use fakery.Core.Action.{
  Action, Result, ok, err, pure, raise, modify, or_raise, session_scope, ◌>>=◌, ◌>>◌,
}
use fakery.Bots.State.{BotStatus, queued, status_eq}
use fakery.Bots.Models.{BotRun, Instant, Db}
use fakery.Bots.MeetingUrl.{Url, is_filled}
use fakery.Bots.Service.{EventSink, is_terminal, get, cancel}
use fakery.Bots.Service.Create.{create_or_get}
use fakery.Bots.Service.Artifacts.{list_runs}
use fakery.Bots.Queue.Leases.{Redis, request_cancel}

-- `require_api_key`; `compare_digest` is the equality of texts.
unfoldable pub require_api_key : {S : Type 0} → Bool → Text → Option Text → Action S (Unit {0})
require_api_key is_dev api_key presented =
    if not (is_filled api_key) && is_dev then pure tt else elim presented [
      | none ↦ raise (twin (make_error unauthorized))
      | some key ↦
          if is_filled key && text_eq key api_key
          then pure tt
          else raise (twin (make_error unauthorized))
    ]

-- `create_bot`
unfoldable pub create_bot :
    Option EventSink
    → Instant
    → (Text → Option Url)
    → ℕ
    → Text
    → Option Text
    → Option Text
    → Action Db BotRun
create_bot events now urlsplit new_id meeting_url display_name idempotency_key = session_scope (do
  created ← create_or_get events now urlsplit new_id meeting_url display_name idempotency_key
  pure created.0)

-- `list_bots`: the limit is checked with the request.
unfoldable pub list_bots : ℕ → Option ℕ → Action Db (List BotRun × Option ℕ)
list_bots limit cursor =
    if leb 1 limit && leb limit 100
    then (λ db. (ok (list_runs limit cursor db), db))
    else raise (twin (make_error validation_failed))

-- What `cancel_bot` answers: the run's end, or that it is being cancelled.
pub data CancelAnswer : Type 0 where
  ended : BotStatus → CancelAnswer
  cancelling : CancelAnswer

module _ (r : Redis) (events : Option EventSink) (now : Instant) where
  -- `cancel_bot`, on the database and Redis. A queued run is cancelled at once, a live one is asked to
  -- stop.
  unfoldable pub cancel_stored : ℕ → BotRun → Action (Db × r.State) CancelAnswer
  cancel_stored bot_id run (db, s) =
      if status_eq run.status queued
      then (let (done, db') = session_scope (cancel events now bot_id) db in
          elim done [
            | ok final ↦ (ok (ended BotStatus.failed), (db', s))
            | err e ↦ (err e, (db', s))
          ])
      else if is_terminal run.status
      then (ok (ended run.status), (db, s))
      else (ok cancelling, (db, request_cancel r bot_id s))

  unfoldable pub cancel_bot : ℕ → Action (Db × r.State) CancelAnswer
  cancel_bot bot_id (db, s) = elim (get bot_id db).0 [
    | err e ↦ (err e, (db, s))
    | ok run ↦ cancel_stored bot_id run (db, s)
  ]

-- `uri.split("/", 3)[-1]`: what stands behind the third slash, or behind the last.
abbrev pub behind_slash : Text → Option Text
behind_slash [] = none
behind_slash (c ∷ t) = if c == b'/' then some t else behind_slash t

unfoldable pub behind_slashes : ℕ → Text → Text
behind_slashes zero t = t
behind_slashes (suc n) t = elim (behind_slash t) [ none ↦ t | some rest ↦ behind_slashes n rest ]

abbrev pub has_expired : Instant → Option Instant → Bool
has_expired now none = false
has_expired now (some at) = leb at now

abbrev pub filled_uri : Option Text → Option Text
filled_uri none = none
filled_uri (some uri) = if is_filled uri then some uri else none

-- `run.recording_sha256 and hexdigest != run.recording_sha256`
abbrev pub is_broken : Text → Option Text → Bool
is_broken digest none = false
is_broken digest (some sum) = is_filled sum && not (text_eq digest sum)

module _ (now : Instant) (fetch : Text → Option Text) (sha256 : Text → Text) where
  unfoldable pub serve : BotRun → Result Text
  serve run = elim (filled_uri run.recording_uri) [
    | none ↦ err (twin (make_error not_found))
    | some uri ↦
        if has_expired now run.recording_expires_at
        then err (twin (make_error not_found))
        else elim (fetch (behind_slashes 3 uri)) [
          | none ↦ err (twin (make_error upstream_unavailable))
          | some bytes ↦
              if is_broken (sha256 bytes) run.recording_sha256
              then err (twin (make_error upstream_unavailable))
              else ok bytes
        ]
  ]

  -- `get_bot_recording`
  unfoldable pub get_bot_recording : ℕ → Action Db Text
  get_bot_recording bot_id = do run ← get bot_id; λ db. (serve run, db)

-- `readiness`: the status of the response. A probe is none where it raised; the revision is what the
-- table of the migrations holds.
unfoldable pub readiness : Option (Option Text) → Bool → ℕ
readiness none redis_answers = 503
readiness (some none) redis_answers = 503
readiness (some (some revision)) redis_answers =
    if text_eq revision (b'0' ∷ b'0' ∷ b'0' ∷ b'9' ∷ []) && redis_answers then 200 else 503
