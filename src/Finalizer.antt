-- ===== src/Finalizer.antt =====
-- `recover_once` of src/twin/finalizer.py: failed runs that left checkpoints get a recording.
-- `restore` is `restore_prefix` on a manifest, none where it raises; `put` where `blob.put` puts
-- the recording of a run, none where it raises.
pub mod Recovery
use fakery.Prelude.{
  ℕ, ◌+◌, Bool, true, false, ◌&&◌, ◌||◌, not, Option, none, some, List, [], ◌∷◌, Text,
  if◌then◌else◌, ◌==◌, ltb, leb, is_none, is_some, filter, take, sort_by, length,
}
use fakery.Bots.State.{failed, status_eq}
use fakery.Bots.Models.{BotRun, Instant, Db, days}
use fakery.Bots.MeetingUrl.{is_filled}
use fakery.Bots.Repository
use fakery.Storage.Checkpoints.{Restored}

abbrev pub batch_size : ℕ
batch_size = 20

-- The runs that the query selects, in its order.
abbrev pub is_unrecovered : BotRun → Bool
is_unrecovered run =
    status_eq run.status failed && is_some run.checkpoint_manifest_uri && is_none run.recording_uri

abbrev pub longest_untouched : BotRun → BotRun → Bool
longest_untouched a b =
    ltb a.updated_at b.updated_at || (a.updated_at == b.updated_at && leb a.id b.id)

unfoldable pub with_manifest : List BotRun → List (ℕ × Text)
with_manifest [] = []
with_manifest (run ∷ runs) =
    let rest = with_manifest runs in
    elim run.checkpoint_manifest_uri [
      | none ↦ rest
      | some uri ↦ if is_filled uri then (run.id, uri) ∷ rest else rest
    ]

unfoldable pub candidates : Db → List (ℕ × Text)
candidates db =
    with_manifest (take batch_size (sort_by longest_untouched (filter is_unrecovered db.bots)))

module _ (now : Instant) (retention_days : ℕ) (restore : Text → Option Restored)
    (put : ℕ → Text → Option Text) where
  -- The recording of a run and where it was put, if there is any.
  unfoldable pub upload : ℕ → Text → Option (Restored × Text)
  upload bot_id manifest_uri = elim (restore manifest_uri) [
    | none ↦ none
    | some restored ↦
        if is_filled restored.prefix
        then elim (put bot_id restored.prefix) [ none ↦ none | some uri ↦ some (restored, uri) ]
        else none
  ]

  unfoldable pub recovered : Restored → Text → BotRun → BotRun
  recovered restored uri run = record run {
    recording_uri = some uri;
    recording_sha256 = some restored.checksum;
    recording_bytes = some (length restored.prefix);
    recording_expires_at = some (now + days retention_days);
    recording_status = "partial";
    recording_partial = true;
    finalization_status = "recovered";
  }

  -- The transaction of a candidate: a run that changed in between is left alone.
  unfoldable pub store : ℕ → Restored → Text → Db → ℕ × Db
  store bot_id restored uri db = elim (Repository.get bot_id db) [
    | none ↦ (0, db)
    | some run ↦
        if is_some run.recording_uri || not (status_eq run.status failed)
        then (0, db)
        else (1, Repository.save now (recovered restored uri run) db)
  ]

  unfoldable pub recover_all : List (ℕ × Text) → Db → ℕ × Db
  recover_all [] db = (0, db)
  recover_all ((bot_id, manifest_uri) ∷ rest) db = elim (upload bot_id manifest_uri) [
    | none ↦ recover_all rest db
    | some found ↦
        let (one, db') = store bot_id found.0 found.1 db in
        let (more, db'') = recover_all rest db' in (one + more, db'')
  ]

  unfoldable pub recover_once : Db → ℕ × Db
  recover_once db = recover_all (candidates db) db
