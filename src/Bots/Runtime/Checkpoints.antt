-- ===== src/Bots/Runtime/Checkpoints.antt =====
-- The checkpoints of a recording in `_attend_and_record` (src/twin/bots/runtime.py): the recorder
-- hands them to `checkpoint_sink`, which writes them to the blob store and their manifest's URI to
-- the run. `name` is the run's identifier as a text.
use fakery.Prelude.{
  ℕ, ◌≡◌, ◌∙◌, ap, refl, sym, Bool, true, false, ◌||◌, Option, none, some, List, [], ◌∷◌, ◌++◌,
  Text, if◌then◌else◌, length, All, Option-cases, inl, inr, arith,
}
use fakery.Core.Action.{Result, ok, err, session_scope}
use fakery.Bots.Models.{Instant, Db}
use fakery.Bots.MeetingUrl.{Url, is_filled}
use fakery.Bots.Service.{EventSink}
use fakery.Bots.Service.Artifacts.{set_checkpoint_manifest}
use fakery.Meet.Recorder.{new_session, poll_loop, at_rest, stop}
use fakery.Meet.Recorder.Checkpoints.{replay, joined_parts, stop_checkpoints}
use fakery.Storage.Blob.{put}
use fakery.Storage.Checkpoints.{CheckpointChunk, restore_prefix}
use fakery.Storage.Checkpoints.Writer.{CheckpointWriter, new_writer, append}
use fakery.Storage.Checkpoints.RoundTrip.{
  IsStore, IsPlain, Held, concat, concat-append_one, append_restores,
}

neither_raised : (a b : Bool) → (a || b) ≡ false → (a ≡ false) × (b ≡ false)
neither_raised a b e = ground arith

abbrev pub has_raised : {A : Type 0} → Result A → Bool
has_raised (ok a) = false
has_raised (err e) = true

-- What `checkpoint_sink` changes: the writer, the blob store and the database.
abbrev pub World : Type 0 → Type 0
World Content = CheckpointWriter × Content × Db

module _ {Content : Type 0} (put : Text → Text → Content → Option Text × Content)
    (encode : Text → List CheckpointChunk → Text) (sha256 : Text → Text) (events : Option EventSink)
    (now : Instant) (bot_id : ℕ) (name : Text) where
  -- The transaction that tells the run of its manifest.
  unfoldable pub tell_manifest : Text → World Content → Bool × World Content
  tell_manifest uri (writer, content, db) =
      let (r, db') = session_scope (set_checkpoint_manifest events now bot_id uri) db in
      (has_raised r, (writer, content, db'))

  unfoldable pub checkpoint_sink : ℕ → Text → World Content → Bool × World Content
  checkpoint_sink sequence bytes (writer, content, db) =
      let (returned, writer', content') = append put encode sha256 name bytes writer content in
      elim returned [
        | none ↦ (true, (writer', content', db))
        | some uri ↦
            if is_filled uri
            then tell_manifest uri (writer', content', db)
            else (false, (writer', content', db))
      ]

  sink_stores :
      (n : ℕ) (bytes : Text) (w : World Content)
      → (checkpoint_sink n bytes w).0 ≡ false
      → let out = append put encode sha256 name bytes w.0 w.1 in
        (uri : Text) × (out.0 ≡ some uri)
        × ((checkpoint_sink n bytes w).1.0 ≡ out.1)
        × ((checkpoint_sink n bytes w).1.1 ≡ out.2)
  unfolding checkpoint_sink tell_manifest
  sink_stores n bytes (writer, content, db) e =
      elim (Option-cases (append put encode sha256 name bytes writer content).0) [
        | inl failed ↦ absurd (ground (arith, e, failed))
        | inr (uri, fine) ↦ (uri, fine, ground (arith, fine), ground (arith, fine))
      ]

module _ {Content : Type 0} (put_object : Text → Text → Content → Bool × Content)
    (get : Text → Content → Option Text) (urlsplit : Text → Option Url)
    (encode : Text → List CheckpointChunk → Text) (decode : Text → Option (List CheckpointChunk))
    (sha256 : Text → Text) (bucket : Text) (events : Option EventSink) (now : Instant) (bot_id : ℕ)
    (name : Text) where
  abbrev sink_of_run : ℕ → Text → World Content → Bool × World Content
  sink_of_run = checkpoint_sink (put bucket put_object) encode sha256 events now bot_id name

  abbrev RestoresTo : Text → Text → Content → Type 0
  RestoresTo uri t c =
      restore_prefix urlsplit (λ k. get k c) decode sha256 uri
      ≡ some (record { prefix = t; partial = false; checksum = sha256 t })

  -- A world whose store has the checkpoints, which are a text.
  abbrev Keeps : Text → World Content → Type 0
  Keeps t w = (ts : List Text) × (concat ts ≡ t) × Held get sha256 name 0 w.0.chunks ts w.1

  module _ (store : IsStore put_object get urlsplit encode decode bucket)
      (plain : IsPlain name) where
    sink-Keeps :
        (n : ℕ) (bytes t : Text) (w : World Content)
        → is_filled bytes ≡ true
        → Keeps t w
        → (sink_of_run n bytes w).0 ≡ false
        → let w' = (sink_of_run n bytes w).1 in
          Keeps (t ++ bytes) w'
          × (uri : Text) × (w'.0.manifest_uri ≡ some uri)
          × RestoresTo uri (t ++ bytes) w'.1
    sink-Keeps n bytes t w full (ts, whole, held) fine =
        let (uri, returned, same_writer, same_content) =
          sink_stores (put bucket put_object) encode sha256 events now bot_id name n bytes w fine in
        let (held', manifest, restored) =
          append_restores put_object get urlsplit encode decode sha256 bucket name w.0 ts w.1 store
            held plain bytes uri full returned in
        let all = concat-append_one ts bytes ∙ ap (λ x. x ++ bytes) whole in
        rw same_writer (
          rw same_content
            (rw (sym all) (((ts ++ bytes ∷ []), refl, held'), uri, manifest, restored)))

    replay-Keeps :
        (parts : List Text) (c : Content) (db : Db)
        → All (λ t. is_filled t ≡ true) parts
        → (replay sink_of_run parts (new_writer, c, db)).0 ≡ false
        → Keeps (joined_parts parts) (replay sink_of_run parts (new_writer, c, db)).1
    replay-Keeps [] c db full fine = ([], refl, tt)
    replay-Keeps (t ∷ older) c db full fine =
        (sink-Keeps (length older) t (joined_parts older)
          (replay sink_of_run older (new_writer, c, db)).1 full.0
          (replay-Keeps older c db full.1 (neither_raised _ _ fine).0)
          (neither_raised _ _ fine).1).0

    manifest_of_parts :
        (parts : List Text) (c : Content) (db : Db)
        → All (λ t. is_filled t ≡ true) parts
        → (replay sink_of_run parts (new_writer, c, db)).0 ≡ false
        → is_filled (joined_parts parts) ≡ true
        → let w = (replay sink_of_run parts (new_writer, c, db)).1 in
          (uri : Text) × (w.0.manifest_uri ≡ some uri) × RestoresTo uri (joined_parts parts) w.1
    manifest_of_parts [] c db full fine some_bytes = absurd (cc some_bytes)
    manifest_of_parts (t ∷ older) c db full fine some_bytes =
        let (kept, uri, manifest, restored) =
          sink-Keeps (length older) t (joined_parts older)
            (replay sink_of_run older (new_writer, c, db)).1 full.0
            (replay-Keeps older c db full.1 (neither_raised _ _ fine).0)
            (neither_raised _ _ fine).1 in
        (uri, manifest, restored)

    -- A recording with checkpoints, over a blob store that keeps what it is given, where `stop` does not
    -- cancel a poll that waits for a checkpoint, and of a run with a plain identifier: if the recorder
    -- has not failed and the recording is not empty, the writer ends with the URI of a manifest
    -- from which `restore_prefix` gives back exactly the recording that `stop` returns, with its
    -- digest, and says that nothing is missing.
    pub recording_restores :
        {Heard : Type 0} (sink : Option (Text → Heard → Heard)) (b64decode : Text → Text)
        (pages : List (Option (List Text))) (page : Option (List Text)) (heard : Heard)
        (c : Content) (db : Db)
        → let polled =
            poll_loop sink
              (some sink_of_run)
              b64decode
              pages
              (new_session heard (new_writer, c, db)) in
          (stop sink (some sink_of_run) b64decode at_rest page polled).1.recorder.checkpoint_failed
            ≡ false
          → is_filled (stop sink (some sink_of_run) b64decode at_rest page polled).0 ≡ true
          → let (recording, left) = stop sink (some sink_of_run) b64decode at_rest page polled in
            (uri : Text) × (left.world.0.manifest_uri ≡ some uri)
            × RestoresTo uri recording left.world.1
    recording_restores sink b64decode pages page heard c db fine some_bytes =
        let (parts, whole, full, handed, counted) =
          stop_checkpoints sink b64decode sink_of_run (new_writer, c, db) pages page heard in
        let (uri, manifest, restored) =
          manifest_of_parts parts c db full (ap (λ o. o.0) handed ∙ fine)
            (ap is_filled whole ∙ some_bytes) in
        (
          uri,
          ap (λ o. o.1.0.manifest_uri) (sym handed) ∙ manifest,
          rw (sym whole) (
              ap (λ o. restore_prefix urlsplit (λ k. get k o.1.1) decode sha256 uri) (sym handed)
              ∙ restored),
        )
