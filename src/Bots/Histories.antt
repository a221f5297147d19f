-- ===== src/Bots/Histories.antt =====
-- The calls that the processes of src/twin make on one database, one after the other: the API's,
-- the workers', the sweeps', the finalizer's and the retention's. Each call is a transaction, so an
-- interleaving of processes is a sequence of calls.
pub mod Refines
use fakery.Prelude.{ℕ, ◌≡◌, Bool, Option, List, Text, []}
use Prim.Native.String.{String}
use fakery.Bots.State.{BotStatus}
use fakery.Bots.Models.{Instant, Db}
use fakery.Bots.MeetingUrl.{Url}
use fakery.Core.Action.{Result, session_scope}
use fakery.Bots.Service.{EventSink, RecordingArtifact, advance, cancel}
use fakery.Bots.Service.Artifacts.{
  Artifact, store_recording, set_checkpoint_manifest, set_artifact_status,
}
use fakery.Bots.Life.Writes.{
  store_recording-Sound, set_checkpoint_manifest-Sound, set_artifact_status-Sound,
  store_recovered-Sound,
}
use fakery.Bots.Service.Create.{create_or_get}
use fakery.Bots.Service.Create.Keys.{create_or_get-IsSound}
use fakery.Bots.Service.Lifecycle.{KeepRuns, advance-IsSound, same_runs-IsSound}
use fakery.Bots.Service.Cancel.{cancel-IsSound}
use fakery.Bots.Service.Runs.{IsSound}
use fakery.Bots.Orphans.{sweep_orphans}
use fakery.Bots.Orphans.Sweep.{sweep_orphans-IsSound}
use fakery.Bots.Queue.{relay_queued}
use fakery.Bots.Queue.Relay.{relay_queued_lem}
use fakery.Bots.Runtime.{Ending, FailCode, complete, blame, store_recovered}
use fakery.Bots.Runtime.Endings.{complete-IsSound, blame-IsSound}
use fakery.Retention.{BlobObject, run}
use fakery.Retention.Sweep.{run-IsSound}
use fakery.Finalizer.{recover_once}
use fakery.Finalizer.Recovery.{recover_once-IsSound}
use fakery.Storage.Checkpoints.{Restored}

abbrev pub empty_db : Db
empty_db = record {
  bots = [];
  segments = [];
  notes = [];
  counters = [];
  reservations = [];
  subscriptions = [];
  deliveries = [];
}

module _ (events : Option EventSink) where
  -- One call, with what it was told and what the world answered.
  pub data Step : Db → Db → Type 0 where
    is_created :
        {db : Db} (now : Instant) (urlsplit : Text → Option Url) (id : ℕ) (meeting_url : Text)
        (name token : Option Text)
        → Step db (create_or_get events now urlsplit id meeting_url name token db).1
    is_advanced :
        {db : Db} (now : Instant) (k : ℕ) (target : BotStatus)
        → Step db (advance events now k target db).1
    is_cancelled : {db : Db} (now : Instant) (k : ℕ) → Step db (cancel events now k db).1
    is_completed :
        {db : Db} (retention_days : ℕ) (now : Instant) (stored_at : Option Text) (e : Ending)
        (k : ℕ)
        → Step db (complete retention_days now stored_at events e k db).1
    is_blamed :
        {db : Db} (retention_days : ℕ) (now : Instant) (stored_at : Option Text) (code : FailCode)
        (k : ℕ)
        → Step db (blame retention_days now stored_at events code k db).1
    is_relayed :
        {db : Db} (now : Instant) (xadd : ℕ → Option String) → Step db (relay_queued now xadd db).1
    is_swept :
        {db : Db} (now moment : Instant) (stale_after_s : ℕ) (beats : ℕ → Result Bool)
        → Step db (sweep_orphans events now moment stale_after_s beats db).1
    is_retained :
        {db : Db} (run_of : Text → Option ℕ) (now : Instant) (retention_days : ℕ) (dry_run : Bool)
        (removes : Text → Bool) (objects : List BlobObject)
        → Step db (run run_of now retention_days dry_run removes objects db).1
    is_recovered :
        {db : Db} (now : Instant) (retention_days : ℕ) (restore : Text → Option Restored)
        (put : ℕ → Text → Option Text)
        → Step db (recover_once now retention_days restore put db).1
    is_stored :
        {db : Db} (now : Instant) (k : ℕ) (a : RecordingArtifact)
        → Step db (store_recording events now k a db).1
    is_checkpointed :
        {db : Db} (now : Instant) (k : ℕ) (uri : Text)
        → Step db (set_checkpoint_manifest events now k uri db).1
    is_marked :
        {db : Db} (now : Instant) (k : ℕ) (a : Artifact) (status : String) (error : Option String)
        → Step db (set_artifact_status events now k a status error db).1
    is_rescued :
        {db : Db} (now : Instant) (retention_days : ℕ) (stored_at : Option Text)
        (restored : Restored) (uri manifest_uri : Text) (k : ℕ)
        → Step db
            (session_scope
              (store_recovered retention_days now stored_at events restored uri manifest_uri k)
              db).1
    -- A call on the other tables: a reservation, a segment, notes, a subscription, a delivery.
    is_aside : {db db' : Db} → db'.bots ≡ db.bots → Step db db'

  pub data Reaches : Db → Db → Type 0 where
    nothing : {db : Db} → Reaches db db
    followed : {db mid db' : Db} → Reaches db mid → Step mid db' → Reaches db db'

  pub step-IsSound : (db db' : Db) → KeepRuns events → Step db db' → IsSound db → IsSound db'
  step-IsSound db _ keeps (is_created now urlsplit id meeting_url name token) h =
      create_or_get-IsSound events now urlsplit id meeting_url name token db keeps h
  step-IsSound db _ keeps (is_advanced now k target) h =
      advance-IsSound events now k target db keeps h
  step-IsSound db _ keeps (is_cancelled now k) h = cancel-IsSound events now k db keeps h
  step-IsSound db _ keeps (is_completed retention_days now stored_at e k) h =
      complete-IsSound events now retention_days stored_at e k db keeps h
  step-IsSound db _ keeps (is_blamed retention_days now stored_at code k) h =
      blame-IsSound events now retention_days stored_at code k db keeps h
  step-IsSound db _ keeps (is_relayed now xadd) h = (relay_queued_lem now xadd db h).0
  step-IsSound db _ keeps (is_swept now moment stale_after_s beats) h =
      sweep_orphans-IsSound events now moment stale_after_s beats db keeps h
  step-IsSound db _ keeps (is_retained run_of now retention_days dry_run removes objects) h =
      run-IsSound run_of now retention_days dry_run removes objects db h
  step-IsSound db _ keeps (is_recovered now retention_days restore put) h =
      recover_once-IsSound now retention_days restore put db h
  step-IsSound db _ keeps (is_stored now k a) h = (store_recording-Sound events now k a).sound db h
  step-IsSound db _ keeps (is_checkpointed now k uri) h =
      (set_checkpoint_manifest-Sound events now k uri).sound db h
  step-IsSound db _ keeps (is_marked now k a status error) h =
      (set_artifact_status-Sound events now k a status error).sound db h
  step-IsSound db _ keeps (is_rescued now retention_days stored_at restored uri manifest_uri k) h =
      (store_recovered-Sound events now retention_days stored_at restored uri manifest_uri k).sound
        db h
  step-IsSound db db' keeps (is_aside e) h = same_runs-IsSound db db' e h

  -- Whatever calls the processes make on a sound database, and in whatever order, it stays sound,
  -- if the event sink leaves the runs alone.
  pub reaches-IsSound : (db db' : Db) → KeepRuns events → Reaches db db' → IsSound db → IsSound db'
  reaches-IsSound db _ keeps nothing h = h
  reaches-IsSound db db' keeps (followed {mid = mid} path step) h =
      step-IsSound mid db' keeps step (reaches-IsSound db mid keeps path h)
