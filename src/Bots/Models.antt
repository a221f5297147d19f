-- ===== src/Bots/Models.antt =====
-- src/twin/bots/models.py: the rows of each table, and the database that holds them.
-- An identifier is only compared, so it is a number; so is an instant, in microseconds. Texts that
-- the program takes apart are lists of code points; those that it only stores are strings.
use Prim.Native.String.{String}
use fakery.Prelude.{ℕ, ◌*◌, Bool, Option, List, Text}
use fakery.Bots.State.{BotStatus}

abbrev pub Instant : Type 0
Instant = ℕ

-- `timedelta(seconds=n)` and `timedelta(days=n)`
abbrev pub seconds : ℕ → ℕ
seconds n = 1_000_000 * n

abbrev pub days : ℕ → ℕ
days n = 86_400_000_000 * n

pub record CapacityCounter : Type 0 where
  pub tenant : ℕ
  pub active_count : ℕ
  pub limit : ℕ

pub record CapacityReservation : Type 0 where
  pub id : ℕ
  pub tenant : ℕ
  pub bot_id : ℕ
  pub owner : ℕ
  pub acquired_at : Instant
  pub released_at : Option Instant

-- The two values of the column `dispatch_status`: "pending" and "enqueued".
pub data DispatchStatus : Type 0 where
  waiting enqueued : DispatchStatus

pub record BotRun : Type 0 where
  pub id : ℕ
  pub meeting_url : Text
  pub meeting_key : Option Text
  pub idempotency_key : Option Text
  pub display_name : Option Text
  pub status : BotStatus
  pub error_code : Option String
  pub stop_reason : Option String
  pub created_at : Instant
  pub updated_at : Instant
  pub joined_at : Option Instant
  pub left_at : Option Instant
  pub recording_uri : Option Text
  pub recording_sha256 : Option Text
  pub recording_status : String
  pub recording_bytes : Option ℕ
  pub recording_duration_ms : Option ℕ
  pub recording_expires_at : Option Instant
  pub recording_partial : Bool
  pub checkpoint_manifest_uri : Option Text
  pub finalization_status : String
  pub transcription_status : String
  pub transcription_error : Option String
  pub notes_status : String
  pub notes_error : Option String
  pub dispatch_status : DispatchStatus
  pub dispatch_attempts : ℕ
  pub dispatch_enqueued_at : Option Instant
  pub dispatch_last_error : Option String

pub record TranscriptSegment : Type 0 where
  pub id : ℕ
  pub bot_run_id : ℕ
  pub speaker : Option Text
  pub text : Text
  pub start_ms : ℕ
  pub end_ms : ℕ
  pub created_at : Instant

pub record ActionItem : Type 0 where
  pub text : Text
  pub owner : Option Text
  pub due : Option Text

pub record MeetingNote : Type 0 where
  pub bot_run_id : ℕ
  pub summary : Text
  pub key_points : List Text
  pub action_items : List ActionItem
  pub created_at : Instant

pub record WebhookSubscription : Type 0 where
  pub id : ℕ
  pub url : Text
  pub created_at : Instant

-- The payload of an event, without the texts that only its receiver reads.
pub data EventKind : Type 0 where
  status_changed : BotStatus → EventKind
  transcript_segment : TranscriptSegment → EventKind
  notes_completed : EventKind

pub record Payload : Type 0 where
  pub bot_id : ℕ
  pub event_id : ℕ
  pub kind : EventKind

pub data DeliveryStatus : Type 0 where
  pending retry sent dead skipped : DeliveryStatus

pub record WebhookDelivery : Type 0 where
  pub id : ℕ
  pub subscription_id : Option ℕ
  pub event_id : ℕ
  pub sequence : ℕ
  pub url : Text
  pub payload : Payload
  pub status : DeliveryStatus
  pub attempts : ℕ
  pub next_try_at : Instant
  pub created_at : Instant
  pub last_error : Option String
  pub last_status_code : Option ℕ
  pub dead_at : Option Instant
  pub sent_at : Option Instant
  pub lease_token : Option ℕ
  pub lease_expires_at : Option Instant

-- The tables, in insertion order.
pub record Db : Type 0 where
  pub bots : List BotRun
  pub segments : List TranscriptSegment
  pub notes : List MeetingNote
  pub counters : List CapacityCounter
  pub reservations : List CapacityReservation
  pub subscriptions : List WebhookSubscription
  pub deliveries : List WebhookDelivery
