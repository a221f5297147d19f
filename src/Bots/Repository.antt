-- ===== src/Bots/Repository.antt =====
-- `SqlalchemyBotRepository` and `SqlalchemySubscriptionRepository` of src/twin/bots/service.py: the
-- reads and writes of the tables. `session.get` and the identity map make an object and its row
-- one, so a write to an object's field is a write to its row.
use fakery.Prelude.{
  ℕ, ◌+◌, Bool, true, false, ◌&&◌, ◌||◌, Option, none, some, List, [], ◌∷◌, ◌++◌, Text, text_eq,
  if◌then◌else◌, ◌==◌, ltb, leb, is_none, filter, find?, take, sort_by, find_row, put_row, any, not,
}
use fakery.Core.Errors.{external, integrity_error}
use fakery.Core.Action.{Action, Result, ok, err}
use fakery.Bots.State.{BotStatus, queued, is_in, live_statuses}
use fakery.Bots.Models.{BotRun, TranscriptSegment, MeetingNote, WebhookSubscription, Instant, Db}

-- `column == value` on a nullable column
abbrev pub text_is : Option Text → Text → Bool
text_is none t = false
text_is (some s) t = text_eq s t

-- The statuses that `find_active_meeting` looks for, and those of the index
-- `uq_bots_active_meeting`.
unfoldable pub is_active : BotStatus → Bool
is_active s = is_in s (queued ∷ live_statuses)

unfoldable pub get : ℕ → Db → Option BotRun
get bot_id db = find_row (λ (r : BotRun). r.id) bot_id db.bots

-- A flush of a changed object; `onupdate` stamps the row.
unfoldable pub save : Instant → BotRun → Db → Db
save now run db = record db {
  bots = put_row (λ (r : BotRun). r.id) (record run { updated_at = now }) db.bots;
}

unfoldable pub get_by_idempotency : Text → Db → Option BotRun
get_by_idempotency k db = find? (λ (r : BotRun). text_is r.idempotency_key k) db.bots

-- `ORDER BY created_at`
abbrev pub older : BotRun → BotRun → Bool
older a b = leb a.created_at b.created_at

abbrev pub active_for : Text → BotRun → Bool
active_for key r = text_is r.meeting_key key && is_active r.status

unfoldable pub find_active_meeting : Text → Db → Option BotRun
find_active_meeting key db = find? (λ r. true) (sort_by older (filter (active_for key) db.bots))

abbrev pub same_text : Option Text → Option Text → Bool
same_text none t = false
same_text (some s) t = text_is t s

-- Two rows that an index of the `bots` table forbids together: one identifier, one idempotency key,
-- or two active runs for one meeting (db/migrations/versions/0005_pilot_reliability_columns.py).
abbrev pub clashes : BotRun → BotRun → Bool
clashes a b =
    a.id == b.id
    || same_text a.idempotency_key b.idempotency_key
    || (is_active a.status && is_active b.status && same_text a.meeting_key b.meeting_key)

-- `session.add` of a new run and its flush.
unfoldable pub add : BotRun → Action Db (Unit {0})
add run db =
    if any (clashes run) db.bots
    then (err integrity_error, db)
    else (ok tt, record db { bots = db.bots ++ run ∷ [] })

abbrev pub by_start : TranscriptSegment → TranscriptSegment → Bool
by_start a b = leb a.start_ms b.start_ms

unfoldable pub segments : ℕ → Db → List TranscriptSegment
segments bot_id db =
    sort_by by_start (filter (λ (s : TranscriptSegment). s.bot_run_id == bot_id) db.segments)

unfoldable pub add_segment : TranscriptSegment → Db → Db
add_segment s db = record db { segments = db.segments ++ s ∷ [] }

abbrev pub is_same_segment : ℕ → Text → ℕ → ℕ → TranscriptSegment → Bool
is_same_segment bot_id text start_ms end_ms s =
    s.bot_run_id == bot_id && s.start_ms == start_ms && s.end_ms == end_ms && text_eq s.text text

-- `scalar_one_or_none`
abbrev pub one_or_none : {A : Type 0} → List A → Result (Option A)
one_or_none [] = ok none
one_or_none (a ∷ []) = ok (some a)
one_or_none (a ∷ b ∷ rows) = err (external "MultipleResultsFound")

unfoldable pub find_segment : ℕ → Text → ℕ → ℕ → Db → Result (Option TranscriptSegment)
find_segment bot_id text start_ms end_ms db =
    one_or_none (filter (is_same_segment bot_id text start_ms end_ms) db.segments)

-- `ORDER BY created_at DESC, id DESC`, and the row comparison below an anchor.
abbrev pub precedes : BotRun → BotRun → Bool
precedes a b = ltb b.created_at a.created_at || (a.created_at == b.created_at && leb b.id a.id)

abbrev pub is_below : BotRun → BotRun → Bool
is_below anchor r =
    ltb r.created_at anchor.created_at || (r.created_at == anchor.created_at && ltb r.id anchor.id)

abbrev pub below_cursor : Option BotRun → BotRun → Bool
below_cursor none r = true
below_cursor (some anchor) r = is_below anchor r

-- The anchor of a cursor: none without one, and none for an unknown run.
unfoldable pub anchor_of : Option ℕ → Db → Option BotRun
anchor_of none db = none
anchor_of (some cursor) db = get cursor db

unfoldable pub list_runs : ℕ → Option ℕ → Db → List BotRun
list_runs limit cursor db =
    take limit (sort_by precedes (filter (below_cursor (anchor_of cursor db)) db.bots))

-- The rows that `annotate_speakers` selects.
abbrev pub is_unattributed : ℕ → ℕ → ℕ → TranscriptSegment → Bool
is_unattributed bot_id start_ms end_ms s =
    s.bot_run_id == bot_id && is_none s.speaker && ltb s.start_ms end_ms && ltb start_ms s.end_ms

abbrev pub attribute : ℕ → ℕ → ℕ → Text → List TranscriptSegment → List TranscriptSegment × ℕ
attribute bot_id start_ms end_ms speaker [] = ([], 0)
attribute bot_id start_ms end_ms speaker (s ∷ ss) =
    let (rest, count) = attribute bot_id start_ms end_ms speaker ss in
    if is_unattributed bot_id start_ms end_ms s
    then (record s { speaker = some speaker } ∷ rest, count + 1)
    else (s ∷ rest, count)

unfoldable pub annotate_speakers : ℕ → ℕ → ℕ → Text → Db → ℕ × Db
annotate_speakers bot_id start_ms end_ms speaker db =
    let (rows, count) = attribute bot_id start_ms end_ms speaker db.segments in
    (count, record db { segments = rows })

unfoldable pub get_notes : ℕ → Db → Option MeetingNote
get_notes bot_id db = find_row (λ (n : MeetingNote). n.bot_run_id) bot_id db.notes

-- `session.add` of a note; the run's identifier is the primary key.
unfoldable pub save_notes : MeetingNote → Action Db (Unit {0})
save_notes note db =
    if any (λ (n : MeetingNote). n.bot_run_id == note.bot_run_id) db.notes
    then (err integrity_error, db)
    else (ok tt, record db { notes = db.notes ++ note ∷ [] })

unfoldable pub add_subscription : WebhookSubscription → Db → Db
add_subscription s db = record db { subscriptions = db.subscriptions ++ s ∷ [] }

abbrev pub by_creation : WebhookSubscription → WebhookSubscription → Bool
by_creation a b = leb a.created_at b.created_at

unfoldable pub list_subscriptions : Db → List WebhookSubscription
list_subscriptions db = sort_by by_creation db.subscriptions

-- The removed subscription, or nothing.
unfoldable pub remove_subscription : ℕ → Db → Option WebhookSubscription × Db
remove_subscription k db = elim (find_row (λ (s : WebhookSubscription). s.id) k db.subscriptions) [
  | none ↦ (none, db)
  | some s ↦ (
    some s,
    record db {
      subscriptions = filter (λ (t : WebhookSubscription). not (t.id == k)) db.subscriptions;
    },
  )
]
