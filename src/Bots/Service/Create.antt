-- ===== src/Bots/Service/Create.antt =====
-- `BotService.create_or_get` of src/twin/bots/service.py.
pub mod Once
pub mod Keys
pub mod EmptyKey
use fakery.Prelude.{ℕ, Bool, true, false, Option, none, some, [], ◌∷◌, Text, text_eq, if◌then◌else◌}
use fakery.Core.Errors.{conflict, twin, make_error}
use fakery.Core.Action.{Action, Result, ok, err, pure, raise, gets, modify, ◌>>=◌, ◌>>◌}
use fakery.Bots.State.{queued}
use fakery.Bots.Models.{BotRun, Instant, Db, waiting}
use fakery.Bots.Repository
use fakery.Bots.MeetingUrl.{Url, normalize_meeting_url}
use fakery.Bots.Service.{EventSink, tell_status}

-- `if idempotency_key:` is false for the empty text too.
abbrev pub given : Option Text → Option Text
given none = none
given (some []) = none
given (some (c ∷ t)) = some (c ∷ t)

-- A row as `create_or_get` fills it in; the other columns take the model's defaults.
unfoldable pub new_run : ℕ → Text → Text → Option Text → Option Text → Instant → BotRun
new_run id url key idempotency_key display_name now = record {
  id = id;
  meeting_url = url;
  meeting_key = some key;
  idempotency_key = idempotency_key;
  display_name = display_name;
  status = queued;
  error_code = none;
  stop_reason = none;
  created_at = now;
  updated_at = now;
  joined_at = none;
  left_at = none;
  recording_uri = none;
  recording_sha256 = none;
  recording_status = "pending";
  recording_bytes = none;
  recording_duration_ms = none;
  recording_expires_at = none;
  recording_partial = false;
  checkpoint_manifest_uri = none;
  finalization_status = "pending";
  transcription_status = "pending";
  transcription_error = none;
  notes_status = "pending";
  notes_error = none;
  dispatch_status = waiting;
  dispatch_attempts = 0;
  dispatch_enqueued_at = none;
  dispatch_last_error = none;
}

-- `except IntegrityError`: a refused row is a conflict.
unfoldable pub insert_run : BotRun → Action Db (Unit {0})
insert_run run db = elim (Repository.add run db).0 [
  | ok u ↦ (ok tt, (Repository.add run db).1)
  | err e ↦ (err (twin (make_error conflict)), db)
]

-- `existing.meeting_key or normalize_meeting_url(existing.meeting_url)[1]`
unfoldable pub existing_key : (Text → Option Url) → BotRun → Result Text
existing_key urlsplit run = elim (given run.meeting_key) [
  | some key ↦ ok key
  | none ↦ elim (normalize_meeting_url urlsplit run.meeting_url) [
    | ok pair ↦ ok pair.1
    | err e ↦ err e
  ]
]

-- What a repeated idempotency key gives: the first run, if it was for the same meeting.
unfoldable pub reuse : (Text → Option Url) → BotRun → Text → Action Db (BotRun × Bool)
unfolding existing_key
reuse urlsplit existing key = do
  found ← λ db. (existing_key urlsplit existing, db)
  if text_eq found key then pure (existing, false) else raise (twin (make_error conflict))

module _ (events : Option EventSink) (now : Instant) (urlsplit : Text → Option Url) where
  -- The part of `create_or_get` behind the idempotency key. `new_id` is what `uuid4` draws.
  unfoldable pub create_new :
      ℕ → Text → Text → Option Text → Option Text → Action Db (BotRun × Bool)
  unfolding insert_run
  create_new new_id url key display_name idempotency_key = do
    active ← gets (Repository.find_active_meeting key)
    elim active [
      | some run ↦ raise (twin (make_error conflict))
      | none ↦ do
        insert_run (new_run new_id url key idempotency_key display_name now)
        modify (tell_status events now new_id queued)
        pure (new_run new_id url key idempotency_key display_name now, true)
    ]

  unfoldable pub create_or_get : ℕ → Text → Option Text → Option Text → Action Db (BotRun × Bool)
  create_or_get new_id meeting_url display_name idempotency_key = do
    pair ← λ db. (normalize_meeting_url urlsplit meeting_url, db)
    elim (given idempotency_key) [
      | none ↦ create_new new_id pair.0 pair.1 display_name idempotency_key
      | some k ↦ do
        existing ← gets (Repository.get_by_idempotency k)
        elim existing [
          | some run ↦ reuse urlsplit run pair.1
          | none ↦ create_new new_id pair.0 pair.1 display_name idempotency_key
        ]
    ]
