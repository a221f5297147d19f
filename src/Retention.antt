-- ===== src/Retention.antt =====
-- src/twin/retention.py: recordings that have outlived their time are removed. `removes` is whether
-- `blob.remove` takes a key away rather than raising, `run_of` the run whose identifier a text is.
pub mod Sweep
use fakery.Prelude.{
  ℕ, zero, suc, ◌+◌, ◌-◌, Bool, true, false, ◌&&◌, ◌||◌, not, Option, none, some, List, [], ◌∷◌,
  ◌++◌, Text, text_eq, if◌then◌else◌, ◌==◌, leb, length, take, drop,
}
use fakery.Bots.Models.{BotRun, Instant, Db, days}
use fakery.Bots.MeetingUrl.{is_filled, cons_first, split}
use fakery.Bots.Repository
use fakery.Bots.Subscriptions.{ends_with}

-- `BlobObject` of src/twin/storage/blob.py
pub record BlobObject : Type 0 where
  pub key : Text
  pub size : ℕ
  pub modified : Instant

unfoldable pub expired : Instant → Instant → ℕ → Bool
expired modified now retention_days = leb (modified + days retention_days) now

abbrev pub recordings_prefix : Text
recordings_prefix = b'r' ∷ b'e' ∷ b'c' ∷ b'o' ∷ b'r' ∷ b'd' ∷ b'i' ∷ b'n' ∷ b'g' ∷ b's' ∷ b'/' ∷ []

abbrev pub dot_webm : Text
dot_webm = b'.' ∷ b'w' ∷ b'e' ∷ b'b' ∷ b'm' ∷ []

abbrev pub checkpoints_part : Text
checkpoints_part =
    b'/' ∷ b'c' ∷ b'h' ∷ b'e' ∷ b'c' ∷ b'k' ∷ b'p' ∷ b'o' ∷ b'i' ∷ b'n' ∷ b't' ∷ b's' ∷ b'/' ∷ []

abbrev pub manifest_json : Text
manifest_json =
    b'm' ∷ b'a' ∷ b'n' ∷ b'i' ∷ b'f' ∷ b'e' ∷ b's' ∷ b't' ∷ b'.' ∷ b'j' ∷ b's' ∷ b'o' ∷ b'n' ∷ []

abbrev pub starts_with : Text → Text → Bool
starts_with t prefix = text_eq (take (length prefix) t) prefix

abbrev pub remove_prefix : Text → Text → Text
remove_prefix t prefix = if starts_with t prefix then drop (length prefix) t else t

abbrev pub remove_suffix : Text → Text → Text
remove_suffix t suffix = if ends_with t suffix then take (length t - length suffix) t else t

-- `part in t`
abbrev pub contains : Text → Text → Bool
contains part [] = text_eq part []
contains part (c ∷ t) = starts_with (c ∷ t) part || contains part t

-- The text before the first slash: `split("/", 1)[0]`.
abbrev pub before_slash : Text → Text
before_slash [] = []
before_slash (c ∷ t) = if c == b'/' then [] else c ∷ before_slash t

abbrev pub filled : Text → Option Text
filled [] = none
filled (c ∷ t) = some (c ∷ t)

-- `_bot_id_from_key`
unfoldable pub bot_id_from_key : Text → Option Text
bot_id_from_key key =
    filled (remove_suffix (before_slash (remove_prefix key recordings_prefix)) dot_webm)

pub record Summary : Type 0 where
  pub scanned : ℕ
  pub deleted : ℕ
  pub would_delete : ℕ
  pub kept : ℕ
  pub failed : ℕ
  pub freed_bytes : ℕ

abbrev pub nothing : Summary
nothing = record {
  scanned = 0;
  deleted = 0;
  would_delete = 0;
  kept = 0;
  failed = 0;
  freed_bytes = 0;
}

-- What a sweep makes of an entry.
pub data Fate : Type 0 where
  is_kept would_go has_failed is_deleted : Fate

module _ (now : Instant) (retention_days : ℕ) (dry_run : Bool) (removes : Text → Bool)
    (expires_at_for_key : Text → Option Instant) where
  -- The expiry of its run decides, and the retention where there is none.
  unfoldable pub is_expired : BlobObject → Bool
  is_expired entry = elim (expires_at_for_key entry.key) [
    | some expiry ↦ leb expiry now
    | none ↦ expired entry.modified now retention_days
  ]

  unfoldable pub fate : BlobObject → Fate
  fate entry =
      if not (is_expired entry)
      then is_kept
      else if dry_run
      then would_go
      else if removes entry.key
      then is_deleted
      else has_failed

  unfoldable pub count : Fate → BlobObject → Summary → Summary
  count is_kept entry s = record s { scanned = s.scanned + 1; kept = s.kept + 1 }
  count would_go entry s = record s {
    scanned = s.scanned + 1;
    would_delete = s.would_delete + 1;
    freed_bytes = s.freed_bytes + entry.size;
  }
  count has_failed entry s = record s { scanned = s.scanned + 1; failed = s.failed + 1 }
  count is_deleted entry s = record s {
    scanned = s.scanned + 1;
    deleted = s.deleted + 1;
    freed_bytes = s.freed_bytes + entry.size;
  }

  abbrev pub deleted_key : (Text → Db → Db) → Fate → Text → Db → Db
  deleted_key on_deleted is_deleted key db = on_deleted key db
  deleted_key on_deleted _ key db = db

  -- The loop of `sweep`, over what `blob.list` names.
  unfoldable pub sweep : (Text → Db → Db) → List BlobObject → Summary → Db → Summary × Db
  sweep on_deleted [] s db = (s, db)
  sweep on_deleted (entry ∷ entries) s db =
      sweep on_deleted entries (count (fate entry) entry s)
        (deleted_key on_deleted (fate entry) entry.key db)

module _ (run_of : Text → Option ℕ) where
  abbrev pub run_for_key : Text → Db → Option BotRun
  run_for_key key db = elim (bot_id_from_key key) [
    | none ↦ none
    | some text ↦ elim (run_of text) [ none ↦ none | some k ↦ Repository.get k db ]
  ]

  -- `expiry_for_key`, on the runs as they were when the sweep began.
  unfoldable pub expiry_for_key : Db → Text → Option Instant
  expiry_for_key db key = elim (run_for_key key db) [
    | none ↦ none
    | some run ↦ run.recording_expires_at
  ]

  -- The fields that `mark_expired` sets.
  unfoldable pub expire : Text → BotRun → BotRun
  expire key run =
      let gone = if contains checkpoints_part key then run else record run {
        recording_status = "expired";
        finalization_status = "expired";
        recording_uri = none;
      } in
      if ends_with key manifest_json then record gone { checkpoint_manifest_uri = none } else gone

  unfoldable pub mark_expired : Instant → Text → Db → Db
  mark_expired now key db = elim (run_for_key key db) [
    | none ↦ db
    | some run ↦ Repository.save now (expire key run) db
  ]

  unfoldable pub run : Instant → ℕ → Bool → (Text → Bool) → List BlobObject → Db → Summary × Db
  run now retention_days dry_run removes entries db =
      sweep now retention_days dry_run removes (expiry_for_key db) (mark_expired now) entries
        nothing db
