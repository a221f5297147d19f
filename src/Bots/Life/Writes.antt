-- ===== src/Bots/Life/Writes.antt =====
-- The calls of `BotService` (src/twin/bots/service.py) that write other fields of a run, and the
-- transaction of `_recover_checkpoint` (src/twin/bots/runtime.py).
use fakery.Prelude.{ℕ, ◌+◌, true, ◌≡◌, refl, Option, some, Text, length}
use Prim.Native.String.{String}
use fakery.Core.Action.{Action, ok, modify, session_scope, ◌>>=◌}
use fakery.Core.Moves.{bind_at}
use fakery.Bots.Models.{BotRun, Instant, Db, days}
use fakery.Bots.Repository
use fakery.Bots.Service.{EventSink, RecordingArtifact}
use fakery.Bots.Service.Artifacts.{
  Artifact, transcription, notes, store_recording, set_checkpoint_manifest, set_artifact_status,
}
use fakery.Bots.Runtime.{store_recovered}
use fakery.Bots.Runtime.Endings.{save_kept, bind-IsSound}
use fakery.Bots.Runtime.Attend.Soundness.{Sound, scope-Sound, change-Sound, change_returns}
use fakery.Bots.Runtime.Attend.Parts.{
  rescued, rescued-Keeps, checkpointed, checkpointed-Keeps, heard-Keeps, noted-Keeps, stored_fields,
  stored-Keeps,
}
use fakery.Storage.Checkpoints.{Restored}
use fakery.Bots.Life.{evolution}
use fakery.Bots.Life.Rules.{Touches-Follows, save-Evolves}

module _ (events : Option EventSink) (now : Instant) where
  pub store_recording-Sound :
      (k : ℕ) (a : RecordingArtifact) → Sound (store_recording events now k a)
  unfolding store_recording
  store_recording-Sound k a =
      change-Sound events now (stored_fields a) k (stored-Keeps a) (λ run. refl)

  pub set_checkpoint_manifest-Sound :
      (k : ℕ) (uri : Text) → Sound (set_checkpoint_manifest events now k uri)
  unfolding set_checkpoint_manifest
  set_checkpoint_manifest-Sound k uri =
      change-Sound events now (checkpointed uri) k (checkpointed-Keeps uri) (λ run. refl)

  pub set_artifact_status-Sound :
      (k : ℕ) (a : Artifact) (status : String) (error : Option String)
      → Sound (set_artifact_status events now k a status error)
  unfolding set_artifact_status
  set_artifact_status-Sound k transcription status error =
      change-Sound events now _ k (heard-Keeps status error) (λ run. refl)
  set_artifact_status-Sound k notes status error =
      change-Sound events now _ k (noted-Keeps status error) (λ run. refl)

  module _ (retention_days : ℕ) (stored_at : Option Text) (restored : Restored)
      (uri manifest_uri : Text) (k : ℕ) where
    abbrev pub artifact : RecordingArtifact
    artifact = record {
      uri = some uri;
      sha256 = restored.checksum;
      size = length restored.prefix;
      status = "partial";
      partial = true;
      expires_at = now + days retention_days;
      checkpoint_manifest_uri = some manifest_uri;
    }

    abbrev rescue : BotRun → Action Db (Unit {0})
    rescue run = modify (Repository.save now (rescued run))

    -- The transaction of `_recover_checkpoint`.
    pub store_recovered-Sound : Sound (
        session_scope
          (store_recovered retention_days now stored_at events restored uri manifest_uri k))
    unfolding store_recovered store_recording
    store_recovered-Sound =
        let write = store_recording-Sound k artifact in
        let found : (run : BotRun) (db : Db)
            → (store_recording events now k artifact db).0 ≡ ok run
            → Repository.get k (store_recording events now k artifact db).1 ≡ some run =
          λ run db e.
            change_returns events now (stored_fields artifact) k run db (stored-Keeps artifact) e in
        scope-Sound (store_recording events now k artifact >>= rescue) (record {
          sound = λ db h.
              bind-IsSound (store_recording events now k artifact) rescue db (write.sound db h)
                (λ run e.
                  save_kept rescued now k run _ rescued-Keeps (found run db e) (write.sound db h));
          later = λ db.
              bind_at evolution (store_recording events now k artifact) rescue db (write.later db)
                (λ run e.
                  save-Evolves now k run (rescued run) _ (found run db e)
                    (Touches-Follows run (rescued run) refl));
        })
