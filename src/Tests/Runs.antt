-- ===== src/Tests/Runs.antt =====
-- The theorems on the runs, each at one database.
use fakery.Prelude.{
  ℕ, ◌+◌, false, none, some, [], ◌∷◌, text_eq, ◌≡◌, ◌==◌, refl, if◌then◌else◌, find_row, sort_by,
  insert_by,
}
use fakery.Core.Action.{ok}
use fakery.Bots.State.{joining, completed, can_transition}
use fakery.Bots.Models.{Db}
use fakery.Bots.MeetingUrl.{
  normalize_meeting_url, normalize_url, accept_parts, is_meeting_code, canonical_of, key_of,
}
use fakery.Bots.MeetingUrl.Canonical.{Normalized, normalize_meeting_url-Normalized}
use fakery.Bots.Repository
use fakery.Bots.Repository.{active_for, is_active}
use fakery.Bots.Service.{advance, tell_status}
use fakery.Bots.Service.Create.{create_or_get, create_new, insert_run, new_run}
use fakery.Bots.Service.Create.Once.{new_run-IsWellFormed, conflicts}
use fakery.Bots.Service.Create.Keys.{create_or_get_repeats}
use fakery.Bots.Service.Create.EmptyKey.{empty_key_conflicts}
use fakery.Bots.Service.Runs.{IsSound}
use fakery.Bots.Service.Lifecycle.{Advanced, KeepRuns, entered, advance-Advanced, advance_stores}
use fakery.Webhooks.Outbox.Sequence.{db_outbox-KeepRuns}
use fakery.Tests.{code, other_code, token, split_sample, sample_run, sample_db, sink}

abbrev pub sink_keeps : KeepRuns sink
sink_keeps = db_outbox-KeepRuns 200 900 (λ s. s + 1000)

pub sample_db-IsSound : IsSound sample_db
unfolding new_run
sample_db-IsSound = record {
  rows = (new_run-IsWellFormed 1 (canonical_of code) (key_of code) (some token) none 100, tt);
  unique = (tt, tt);
}

advance-Advanced_example :
    Advanced sink 210 1 joining sample_db sample_run (advance sink 210 1 joining sample_db)
unfolding Repository.get find_row new_run
advance-Advanced_example = advance-Advanced sink 210 1 joining sample_run sample_db refl

advance_stores_example :
    let (r, db') = advance sink 210 1 joining sample_db in
    (r ≡ ok (entered joining 210 sample_run))
    × ((entered joining 210 sample_run).status ≡ joining)
    × ((j : ℕ)
        → Repository.get j db'
          ≡ (if 1 == j then some (entered joining 210 sample_run) else Repository.get j sample_db))
unfolding Repository.get find_row new_run can_transition
advance_stores_example = advance_stores sink 210 1 joining sample_run sample_db sink_keeps refl refl

create_or_get_repeats_example :
    create_or_get none 300 split_sample 9 (canonical_of code) none (some token) sample_db
    ≡ (ok (sample_run, false), sample_db)
unfolding create_or_get normalize_meeting_url normalize_url accept_parts is_meeting_code text_eq
    new_run Repository.get_by_idempotency Repository.find_active_meeting create_new insert_run
    Repository.add tell_status sort_by insert_by
create_or_get_repeats_example =
    create_or_get_repeats none 100 split_sample 1 (canonical_of code) none (some token)
      (record sample_db { bots = [] }) token sample_run sample_db none 300 9 none tt refl refl

abbrev keyless_db : Db
keyless_db = record sample_db {
  bots = record sample_run { idempotency_key = some []; status = completed } ∷ [];
}

empty_key_conflicts_example :
    create_or_get none 300 split_sample 9 (canonical_of other_code) none (some []) keyless_db
    ≡ (conflicts, keyless_db)
unfolding normalize_meeting_url normalize_url accept_parts is_meeting_code text_eq new_run
    Repository.get_by_idempotency
empty_key_conflicts_example =
    empty_key_conflicts none 300 split_sample 9 (canonical_of other_code) (canonical_of other_code)
      (key_of other_code) none (record sample_run { idempotency_key = some []; status = completed })
      keyless_db refl refl

normalize_meeting_url-Normalized_example :
    Normalized
      (split_sample (canonical_of code))
      (normalize_meeting_url split_sample (canonical_of code))
normalize_meeting_url-Normalized_example =
    normalize_meeting_url-Normalized split_sample (canonical_of code)
