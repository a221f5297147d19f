-- ===== src/Bots/Runtime/Attend/Soundness.antt =====
-- `attend` (src/twin/bots/runtime.py) against the table of runs: an action that keeps it sound and
-- leaves later versions of its rows, and rules to put such actions together.
use fakery.Prelude.{
  ℕ, ◌≡◌, ◌≢◌, ◌∙◌, ap, refl, Bool, true, false, Option, none, some, [], ◌∷◌, ◌++◌, if◌then◌else◌,
  inl, inr, Option-cases, ◌==◌, arith, any,
}
use fakery.Core.Action.{Action, Result, ok, err, pure, raise, modify, session_scope, ◌>>=◌, ◌>>◌}
use fakery.Core.Errors.{Error, integrity_error}
use fakery.Bots.State.{BotStatus}
use fakery.Bots.Models.{BotRun, TranscriptSegment, MeetingNote, Instant, Db}
use fakery.Bots.Repository
use fakery.Bots.Service.{EventSink, Segment, MeetingNotes, get, advance}
use fakery.Bots.Service.Runs.{IsSound}
use fakery.Bots.Service.Lifecycle.{KeepRuns, KeepsRuns, advance-IsSound, same_runs-IsSound}
use fakery.Bots.Service.Artifacts.{
  change, keep_segment, ingest_segment, tell_segment, tell_notes, store_notes, new_segment,
}
use fakery.Core.Moves.{bind_at, scope_at}
use fakery.Bots.Life.{Evolves, Evolves-self, evolution}
use fakery.Bots.Life.Rules.{Touches, same_runs-Evolves, advance-Evolves, change-Evolves}
use fakery.Bots.Runtime.Endings.{
  Keeps, save_kept, bind-IsSound, scope-IsSound, got, got_run, get_saved,
}

-- An action that keeps the table of runs sound and every run in it, however it ends.
pub record Sound {A : Type 0} (m : Action Db A) : Type 0 where
  pub sound : (db : Db) → IsSound db → IsSound (m db).1
  pub later : (db : Db) → Evolves db (m db).1

pub pure-Sound : {A : Type 0} (a : A) → Sound {A = A} (pure a)
pure-Sound a = record { sound = λ db h. h; later = Evolves-self }

pub raise-Sound : (A : Type 0) (e : Error) → Sound {A = A} (raise e)
raise-Sound A e = record { sound = λ db h. h; later = Evolves-self }

pub scope-Sound : {A : Type 0} (m : Action Db A) → Sound m → Sound (session_scope m)
scope-Sound m keeps = record {
  sound = λ db h. scope-IsSound m db h (keeps.sound db h);
  later = λ db. scope_at evolution m db (keeps.later db);
}

pub bind-Sound :
    {A B : Type 0} (m : Action Db A) (f : A → Action Db B)
    → Sound m
    → ((a : A) → Sound (f a))
    → Sound (m >>= f)
bind-Sound m f keeps next = record {
  sound =
      λ db h. bind-IsSound m f db (keeps.sound db h) (λ a e. (next a).sound _ (keeps.sound db h));
  later = λ db. bind_at evolution m f db (keeps.later db) (λ a e. (next a).later _);
}

pub then-Sound :
    {A B : Type 0} (m : Action Db A) (k : Action Db B) → Sound m → Sound k → Sound (m >> k)
then-Sound m k keeps next = bind-Sound m (λ a. k) keeps (λ a. next)

pub if-Sound :
    {A : Type 0} (b : Bool) (m k : Action Db A) → Sound m → Sound k → Sound (if b then m else k)
if-Sound true m k h g = h
if-Sound false m k h g = g

-- A change of other tables.
pub aside-Sound : (f : Db → Db) → ((db : Db) → (f db).bots ≡ db.bots) → Sound (modify f)
aside-Sound f e = record {
  sound = λ db h. same_runs-IsSound db (f db) (e db) h;
  later = λ db. same_runs-Evolves db (f db) (e db);
}

pub get-Sound : (k : ℕ) → Sound (get k)
get-Sound k = record {
  sound = λ db h. rw (got_run k db) h;
  later = λ db. rw (got_run k db) (Evolves-self db);
}

module _ (events : Option EventSink) (now : Instant) where
  pub advance-Sound :
      (k : ℕ) (target : BotStatus) → KeepRuns events → Sound (advance events now k target)
  advance-Sound k target keeps = record {
    sound = λ db h. advance-IsSound events now k target db keeps h;
    later = λ db. advance-Evolves events now k target db keeps;
  }

  pub change-Sound :
      (f : BotRun → BotRun) (k : ℕ)
      → Keeps f
      → ((run : BotRun) → Touches run (f run))
      → Sound (change events now f k)
  unfolding change
  change-Sound f k keep touch = record {
    sound = λ db h.
        got
          (λ run.
            modify (Repository.save now (f run)) >> pure (record (f run) { updated_at = now }))
          k db h (λ run stored. save_kept f now k run db keep stored h);
    later = λ db. change-Evolves events now f k db touch;
  }

module _ (events : Option EventSink) (now : Instant) where
  pub change_lem :
      (f : BotRun → BotRun) (k : ℕ) (run : BotRun) (db : Db)
      → Repository.get k db ≡ some run
      → change events now f k db
        ≡ (ok (record (f run) { updated_at = now }), Repository.save now (f run) db)
  unfolding change get
  change_lem f k run db e = ground (arith, e)

  change_missing :
      (f : BotRun → BotRun) (k : ℕ) (run : BotRun) (db : Db)
      → Repository.get k db ≡ none
      → (change events now f k db).0 ≢ ok run
  unfolding change get
  change_missing f k run db e h = ground (arith, e, h)

  -- What a change returns is the row that it leaves.
  pub change_returns :
      (f : BotRun → BotRun) (k : ℕ) (run : BotRun) (db : Db)
      → Keeps f
      → (change events now f k db).0 ≡ ok run
      → Repository.get k (change events now f k db).1 ≡ some run
  change_returns f k run db keep h = elim (Option-cases (Repository.get k db)) [
    | inl missing ↦ absurd (change_missing f k run db missing h)
    | inr (old, e) ↦
        let done = change_lem f k old db e in
        let same : record (f old) { updated_at = now } ≡ run = cc (ap (λ o. o.0) done, h) in
        rw done (get_saved events now f k old db keep e ∙ ap some same)
  ]

-- A sink that leaves the runs alone, whatever it is told.
pub record LeavesRuns (sink : EventSink) : Type 0 where
  pub keeps : KeepsRuns sink
  pub on_segment : (s : TranscriptSegment) (db : Db) → (sink.transcript_segment s db).bots ≡ db.bots
  pub on_notes : (k : ℕ) (db : Db) → (sink.notes_completed k db).bots ≡ db.bots

abbrev pub LeaveRuns : Option EventSink → Type 0
LeaveRuns none = Unit
LeaveRuns (some sink) = LeavesRuns sink

pub LeaveRuns→KeepRuns : (events : Option EventSink) → LeaveRuns events → KeepRuns events
LeaveRuns→KeepRuns none h = tt
LeaveRuns→KeepRuns (some sink) h = h.keeps

module _ (events : Option EventSink) (now : Instant) (leaves : LeaveRuns events) where
  told_segment : (s : TranscriptSegment) (db : Db) → (tell_segment events now s db).bots ≡ db.bots
  told_segment s db =
      elim events as (λ e. LeaveRuns e → (tell_segment e now s db).bots ≡ db.bots) [
        | none ↦ λ h. refl
        | some sink ↦ λ h. h.on_segment s db
      ]
        leaves

  told_notes : (k : ℕ) (db : Db) → (tell_notes events now k db).bots ≡ db.bots
  told_notes k db =
      elim events as (λ e. LeaveRuns e → (tell_notes e now k db).bots ≡ db.bots) [
        | none ↦ λ h. refl
        | some sink ↦ λ h. h.on_notes k db
      ]
        leaves

  -- A call that may only write other tables.
  abbrev Aside : Db → Db → Type 0
  Aside db db' = db'.bots ≡ db.bots

  Aside-call : {A : Type 0} (m : Action Db A) → ((db : Db) → Aside db (m db).1) → Sound m
  Aside-call m e = record {
    sound = λ db h. same_runs-IsSound db (m db).1 (e db) h;
    later = λ db. same_runs-Evolves db (m db).1 (e db);
  }

  ingested :
      (found : Result (Option TranscriptSegment)) (new : TranscriptSegment) (db : Db)
      → Aside db (keep_segment events now new found db).1
  unfolding Repository.add_segment
  ingested (ok none) new db = told_segment new _
  ingested (ok (some t)) new db = refl
  ingested (err e) new db = refl

  pub ingest_segment-Sound :
      (new_id bot_id : ℕ) (s : Segment) → Sound (ingest_segment events now new_id bot_id s)
  unfolding ingest_segment
  ingest_segment-Sound new_id bot_id s =
      Aside-call (ingest_segment events now new_id bot_id s) λ db.
        ingested (Repository.find_segment bot_id s.text s.start_ms s.end_ms db)
          (new_segment new_id bot_id s now) db

  saved :
      (there : Bool) (note : MeetingNote) (db : Db)
      → let out : Result (Unit {0}) × Db =
          if there
          then (err integrity_error, db)
          else (ok tt, record db { notes = db.notes ++ note ∷ [] }) in
        Aside db out.1
  saved true note db = refl
  saved false note db = refl

  save_notes-Sound : (note : MeetingNote) → Sound (Repository.save_notes note)
  unfolding Repository.save_notes
  save_notes-Sound note =
      Aside-call (Repository.save_notes note)
        λ db. saved (any (λ (n : MeetingNote). n.bot_run_id == note.bot_run_id) db.notes) note db

  pub store_notes-Sound : (bot_id : ℕ) (n : MeetingNotes) → Sound (store_notes events now bot_id n)
  unfolding store_notes
  store_notes-Sound bot_id n = then-Sound _ _ (save_notes-Sound _) (
      then-Sound _ _ (aside-Sound (tell_notes events now bot_id) (told_notes bot_id))
        (pure-Sound _))
