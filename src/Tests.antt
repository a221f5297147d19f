-- ===== src/Tests.antt =====
-- A small database and a meeting on which the theorems are tried.
pub mod Runs
pub mod Capacity
pub mod Deliveries
pub mod Sweeps
pub mod Endings
pub mod Recordings
pub mod Meetings
pub mod Attendance
pub mod Workers
pub mod Jobs
pub mod Leases
pub mod Lives
pub mod Transcripts
use fakery.Prelude.{ℕ, ◌+◌, Option, none, some, List, [], ◌∷◌, ◌++◌, Text, text_eq, if◌then◌else◌}
use fakery.Bots.State.{queued}
use fakery.Bots.Models.{
  BotRun, CapacityCounter, CapacityReservation, WebhookSubscription, WebhookDelivery, Db, retry,
}
use fakery.Bots.MeetingUrl.{Url, https, meet_host, canonical_of, key_of}
use fakery.Bots.Runner.{Settings}
use fakery.Bots.Service.{EventSink}
use fakery.Bots.Service.Create.{new_run}
use fakery.Webhooks.Outbox.{db_outbox, status_payload}

abbrev pub code : Text
code = b'a' ∷ b'b' ∷ b'c' ∷ b'-' ∷ b'd' ∷ b'e' ∷ b'f' ∷ b'g' ∷ b'-' ∷ b'h' ∷ b'i' ∷ b'j' ∷ []

abbrev pub other_code : Text
other_code = b'x' ∷ b'b' ∷ b'c' ∷ b'-' ∷ b'd' ∷ b'e' ∷ b'f' ∷ b'g' ∷ b'-' ∷ b'h' ∷ b'i' ∷ b'j' ∷ []

abbrev pub token : Text
token = b'k' ∷ b'1' ∷ []

-- `urlsplit` on the URLs of two meetings.
abbrev pub split_sample : Text → Option Url
split_sample t =
    if text_eq t (canonical_of code)
    then some (record { scheme = https; hostname = some meet_host; path = b'/' ∷ code })
    else if text_eq t (canonical_of other_code)
    then some (record { scheme = https; hostname = some meet_host; path = b'/' ∷ other_code })
    else none

abbrev pub sample_run : BotRun
sample_run = new_run 1 (canonical_of code) (key_of code) (some token) none 100

abbrev pub empty_db : Db
empty_db = record {
  bots = [];
  segments = [];
  notes = [];
  counters = [];
  reservations = [];
  subscriptions = [];
  deliveries = [];
}

abbrev pub sample_subscription : WebhookSubscription
sample_subscription = record { id = 3; url = https; created_at = 50 }

abbrev pub sample_db : Db
sample_db = record empty_db { bots = sample_run ∷ []; subscriptions = sample_subscription ∷ [] }

abbrev pub sink : Option EventSink
sink = some (db_outbox 200 900 (λ s. s + 1000))

abbrev pub settings : Settings
settings = record { tenant = 5; max_concurrent_runs = 2 }

abbrev pub held : CapacityReservation
held = record { id = 20; tenant = 5; bot_id = 1; owner = 77; acquired_at = 100; released_at = none }

abbrev pub counter : CapacityCounter
counter = record { tenant = 5; active_count = 1; limit = 2 }

abbrev pub held_db : Db
held_db = record sample_db { counters = counter ∷ []; reservations = held ∷ [] }

-- A delivery that failed once and is due.
abbrev pub sample_delivery : WebhookDelivery
sample_delivery = record {
  id = 40;
  subscription_id = some 3;
  event_id = 900;
  sequence = 1;
  url = https;
  payload = status_payload 1 queued 900;
  status = retry;
  attempts = 1;
  next_try_at = 150;
  created_at = 100;
  last_error = none;
  last_status_code = none;
  dead_at = none;
  sent_at = none;
  lease_token = none;
  lease_expires_at = none;
}

abbrev pub delivery_db : Db
delivery_db = record sample_db { deliveries = sample_delivery ∷ [] }
