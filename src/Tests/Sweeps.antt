-- ===== src/Tests/Sweeps.antt =====
-- The theorems on the sweeps, the relay and webhook URLs, each at one database.
use fakery.Prelude.{ℕ, refl, true, false, Option, none, some, List, [], ◌∷◌, ◌++◌, Text, text_eq}
use fakery.Core.Action.{ok}
use fakery.Bots.Models.{Db}
use fakery.Bots.State.{joining}
use fakery.Bots.MeetingUrl.{Url, https}
use fakery.Bots.Service.{advance}
use fakery.Bots.Service.Lifecycle.{advance-IsSound}
use fakery.Bots.Orphans.{sweep_orphans}
use fakery.Bots.Orphans.Sweep.{Swept, sweep_orphans_lem}
use fakery.Bots.Subscriptions.{
  Address, addresses, validate_host, validate_webhook_url, is_blocked_host,
}
use fakery.Bots.Subscriptions.Accepted.{IsPublic, validate_webhook_url-IsPublic}
use fakery.Retention.{BlobObject, expiry_for_key, run}
use fakery.Retention.{mark_expired, nothing}
use fakery.Retention.Sweep.{Accounted, run-Accounted}
use fakery.Tests.{sample_db, sink, code}
use fakery.Tests.Runs.{sample_db-IsSound, sink_keeps}

-- The run of the sample, which is joining its meeting.
abbrev joining_db : Db
joining_db = (advance sink 210 1 joining sample_db).1

abbrev late : ℕ
late = 400_000_000

sweep_orphans_lem_example :
    Swept sink late late 300
      (λ k. ok false)
      joining_db
      (sweep_orphans sink late late 300 (λ k. ok false) joining_db)
sweep_orphans_lem_example =
    sweep_orphans_lem sink late late 300 (λ k. ok false) joining_db sink_keeps
      (advance-IsSound sink 210 1 joining sample_db sink_keeps sample_db-IsSound)

abbrev hook : Text
hook = https ++ b':' ∷ code

abbrev split_hook : Text → Option Url
split_hook t = some (record { scheme = https; hostname = some code; path = [] })

abbrev no_address : Text → Option Address
no_address t = none

abbrev outside : Text → Text → Option (List Address)
outside url host =
    some (record { is_private = false; is_loopback = false; is_link_local = false } ∷ [])

validate_webhook_url-IsPublic_example : IsPublic split_hook no_address outside hook
unfolding validate_webhook_url is_blocked_host validate_host addresses text_eq
validate_webhook_url-IsPublic_example =
    validate_webhook_url-IsPublic split_hook no_address outside hook hook refl

abbrev objects : List BlobObject
objects = record { key = code; size = 12; modified = 100 } ∷ []

run-Accounted_example :
    Accounted late 0 false
      (λ k. true)
      (expiry_for_key (λ k. none) sample_db)
      (mark_expired (λ k. none) late)
      objects
      nothing
      sample_db
      (run (λ k. none) late 0 false (λ k. true) objects sample_db)
run-Accounted_example = run-Accounted (λ k. none) late 0 false (λ k. true) objects sample_db
