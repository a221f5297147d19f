-- ===== src/Lib.antt =====
-- fakery: the part of the Meet bot service that decides, as functions on a database.
--
-- The API creates a run for a meeting (`BotService.create_or_get`); a relay puts queued runs on a stream
-- (`relay_queued`); a worker reserves capacity for a run (`_try_reserve_capacity`), takes it through the
-- states of `BotStatus` by `advance`, stores what the meeting leaves behind, and gives the capacity back.
-- Sweeps repair what a dead worker leaves. Each write of the service tells an outbox (`DbOutbox`), which
-- stores one delivery for each subscription in the same transaction; a sender takes the deliveries of a
-- stream in order.
--
-- Files, and the code that they model (paths from the root of the repository):
--   Core/Errors      src/twin/core/errors.py: `TwinError`, `_CATALOG`, `make_error`
--   Core/Moves       calls that only make certain changes to the state
--   Core/Action      src/twin/storage/database.py: `session_scope`, as calls that may raise
--   Bots/State       src/twin/bots/state.py: `BotStatus`, `can_transition`, `require_transition`
--   Bots/Models      src/twin/bots/models.py: a record for each table; `Db` is all of them
--   Bots/Repository  src/twin/bots/service.py: the two repositories
--   Bots/MeetingUrl  src/twin/bots/service.py: `normalize_meeting_url`
--   Bots/Service     src/twin/bots/service.py: `BotService`: `advance`, `cancel`, `get` here,
--                    `create_or_get` in Service/Create, segments, notes, recordings and pages in
--                    Service/Artifacts; Service/Runs says what a sound table of runs is
--   Bots/Subscriptions  src/twin/bots/service.py: `SubscriptionService`, `validate_webhook_url`
--   Bots/Runner      src/twin/bots/runner.py: capacity reservations
--   Bots/Orphans     src/twin/bots/runner.py: `sweep_orphans`
--   Bots/Jobs        src/twin/bots/jobs.py: `bot_job_name`, `resolve_job_outcome`; the manifest and
--                    `K8sJobClient` in Jobs/Client
--   Api              src/twin/api: the routes of bots, `require_api_key` and `readiness`
--   Bots/Queue       src/twin/bots/queue.py: `relay_queued`; cancel requests, leases and heartbeats in
--                    Queue/Leases, over an interface of Redis
--   Bots/Life        the life of a run, which the calls of Bots/Histories refine
--   Webhooks/Outbox  src/twin/webhooks/dispatch.py: `DbOutbox`, the sink of the service
--   Webhooks/Streams src/twin/webhooks/dispatch.py: `_group_by_stream`, `_ready_deliveries`
--   Webhooks/Sender  src/twin/webhooks/dispatch.py: `WebhookSender`: selection, `_attempt`, `_purge`;
--                    `run_once` in Sender/Rounds
--   Webhooks/Deliveries  src/twin/api/routes/deliveries.py: the listing, replay and skip
--   Notes            src/twin/notes/summarizer.py: prompts, `split_segments`, `summarize_segments`
--   Retention        src/twin/retention.py: the sweep of old recordings
--   Bots/Runtime     src/twin/bots/runtime.py: `_complete`, `fail_run`, `_summarize`
--   Bots/Runtime/Attend  src/twin/bots/runtime.py: `attend` and `_attend_and_record` on the database
--   Bots/Runtime/Chunks  src/twin/bots/runtime.py: the queue of live chunks of `_attend_and_record`
--   Bots/Runtime/Job src/twin/bots/runtime.py: `JobRuntime.spawn`
--   Bots/Runtime/Process  src/twin/bot_run.py: `_run`
--   Bots/Merge       src/twin/bots/runtime.py: `_covered_by_live` and its neighbours
--   Bots/Histories   the calls of all processes on one database, as a step relation
--   Bots/Runtime/Checkpoints  src/twin/bots/runtime.py: `checkpoint_sink` of `_attend_and_record`
--   Meet/Recorder    src/twin/meet/recorder.py: `MeetingRecorder`, and a poll that `stop` cancels
--   Meet/Vocabulary  src/twin/meet/join_flow.py: `VOCABULARY` and what is asked of a page
--   Meet/Join        src/twin/meet/join_flow.py: `wait_admitted`, `wait_meeting_ended`
--   Core/Waiting     the two shapes of loop that wait for something until a deadline
--   Storage/Blob     src/twin/storage/blob.py: `put` and its URIs
--   Storage/Checkpoints  src/twin/storage/checkpoints.py: `restore_prefix`, and `CheckpointWriter` in
--                    Checkpoints/Writer
--   Bots/Runner/Execute  src/twin/bots/runner.py: `execute_run`, `reserve_capacity`
--   Worker           src/twin/worker.py: `GuestPacer`, and `run_claim` in Worker/Claim
--   Finalizer        src/twin/finalizer.py: `recover_once`
--   Transcription    src/twin/transcription/transcriber.py: the segments and their speakers
--   Prelude, Tests   shared helpers; concrete databases
--
-- Conventions. Identifiers, owners, tokens and tenants are only compared, so they are numbers; an
-- instant is a number of microseconds since `datetime.min`. A text that the code takes apart is the list of its code points.
-- An object of the session and its row are one: a write to a field is a write to the row, and `save`
-- also stamps `updated_at`, also where no field changes, which the source's `onupdate` leaves as it is. A
-- call reads the clock once. A transaction is one function on `Db`, taken as
-- atomic; `_complete`, `fail_run`, `cancel` and `_persist_recording` read the run before they lock it, and
-- what another transaction may write in between is left out. Loops over rows are recursions on the list of rows. The printing of digits has
-- the number itself as fuel, which is enough. A loop that waits until a deadline has as many looks as
-- its timeout has pauses, and two; they are enough if the clock goes on by the pause from one look to
-- the next.
--
-- Parameters, for what is not this program's code: `urlsplit`, `ip_address` and `getaddrinfo`, what
-- `uuid4` draws, the clock, the jitter of `random.uniform`, what Redis says of a heartbeat or of `xadd`, or
-- the exception that it raises, the `code` of a library's exception,
-- what the blob store lists, keeps and removes, what a page shows, what a meeting gives, the leases of
-- Redis, `json`, `sha256` and `b64decode`, what a receiver answers to a post, and what a model answers
-- to a prompt. An event sink is a record, of which the service's theorems ask only that it leaves the runs
-- alone; the outbox does.
--
-- Not modelled: the clicks in the browser and the providers (I/O), the Kubernetes client, the web
-- framework and its schemas, settings, logs and metrics, and the polling loops of the processes.
pub mod Prelude
pub mod Core
pub mod Bots
pub mod Webhooks
pub mod Notes
pub mod Retention
pub mod Api
pub mod Storage
pub mod Meet
pub mod Worker
pub mod Finalizer
pub mod Transcription
pub mod Tests
