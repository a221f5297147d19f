-- ===== src/Api/Routes.antt =====
-- What the routes of src/twin/api/routes/bots.py promise their callers.
use fakery.Prelude.{
  ℕ, ◌≡◌, ◌∙◌, ap, sym, refl, true, false, Option, none, some, [], ◌∷◌, ◌++◌, Text, text_eq_iff,
  ◌==◌, Bool-cases, Option-cases, inl, inr, arith, All,
}
use fakery.Core.Action.{ok}
use fakery.Bots.State.{failed}
use fakery.Bots.Models.{BotRun, Instant, Db}
use fakery.Bots.MeetingUrl.{is_filled}
use fakery.Bots.Repository
use fakery.Bots.Service.{EventSink, is_terminal, get}
use fakery.Bots.Service.Lifecycle.{KeepRuns}
use fakery.Bots.Queue.Leases.{Redis, Laws, request_cancel, is_cancelled}
use fakery.Storage.Blob.{uri_of}
use fakery.Api.{
  CancelAnswer, ended, cancelling, behind_slash, behind_slashes, has_expired, filled_uri, is_broken,
  serve, get_bot_recording,
}

-- A text without a slash.
abbrev pub NoSlash : Text → Type 0
NoSlash t = All (λ c. (c == b'/') ≡ false) t

behind_slash-append : (t key : Text) → NoSlash t → behind_slash (t ++ b'/' ∷ key) ≡ some key
behind_slash-append [] key h = refl
behind_slash-append (c ∷ t) key h = rw h.0 (behind_slash-append t key h.1)

-- The key that `get_bot_recording` reads is the one that `put` of the blob store wrote, whatever the key
-- holds, if the bucket's name has no slash.
pub behind_slashes-uri_of :
    (bucket key : Text) → NoSlash bucket → behind_slashes 3 (uri_of bucket key) ≡ key
unfolding behind_slashes uri_of
behind_slashes-uri_of bucket key h = rw (behind_slash-append bucket key h, behind_slashes) refl

module _ (now : Instant) (fetch : Text → Option Text) (sha256 : Text → Text) where
  -- A recording that is served has not expired, is what the store holds under the key of its URI, and
  -- has the checksum of its run, if the run has one.
  pub record Served (run : BotRun) (bytes : Text) : Type 0 where
    pub unexpired : has_expired now run.recording_expires_at ≡ false
    pub uri : Text
    pub is_uri : run.recording_uri ≡ some uri
    pub held : fetch (behind_slashes 3 uri) ≡ some bytes
    pub intact :
        (sum : Text) → run.recording_sha256 ≡ some sum → is_filled sum ≡ true → sha256 bytes ≡ sum

  filled_same : (o : Option Text) (uri : Text) → filled_uri o ≡ some uri → o ≡ some uri
  filled_same none uri h = absurd (cc h)
  filled_same (some u) uri h = ground arith

  whole :
      (digest : Text) (o : Option Text) (sum : Text)
      → is_broken digest o ≡ false
      → o ≡ some sum
      → is_filled sum ≡ true
      → digest ≡ sum
  whole digest none sum h e f = absurd (cc e)
  whole digest (some s) sum h e f = ground (arith, text_eq_iff digest s)

  serve-Served :
      (run : BotRun) (bytes : Text) → serve now fetch sha256 run ≡ ok bytes → Served run bytes
  unfolding serve
  serve-Served run bytes h = elim (Option-cases (filled_uri run.recording_uri)) [
    | inl nothing ↦ absurd (ground (arith, nothing, h))
    | inr (uri, e) ↦ elim (Bool-cases (has_expired now run.recording_expires_at)) [
      | inl late ↦ absurd (ground (arith, e, late, h))
      | inr early ↦ elim (Option-cases (fetch (behind_slashes 3 uri))) [
        | inl lost ↦ absurd (ground (arith, e, early, lost, h))
        | inr (found, f) ↦ elim (Bool-cases (is_broken (sha256 found) run.recording_sha256)) [
          | inl broken ↦ absurd (ground (arith, e, early, f, broken, h))
          | inr good ↦
              let same : found ≡ bytes = ground (arith, e, early, f, good, h) in
              record {
                unexpired = early;
                uri = uri;
                is_uri = filled_same run.recording_uri uri e;
                held = f ∙ ap some same;
                intact = λ sum s filled.
                    ap sha256 (sym same)
                    ∙ whole (sha256 found) run.recording_sha256 sum good s filled;
              }
        ]
      ]
    ]
  ]

  -- What `get_bot_recording` returns is `Served` of the stored run, and it writes nothing.
  pub get_bot_recording-Served :
      (k : ℕ) (bytes : Text) (db : Db)
      → (get_bot_recording now fetch sha256 k db).0 ≡ ok bytes
      → (run : BotRun) × (Repository.get k db ≡ some run)
        × Served run bytes
        × ((get_bot_recording now fetch sha256 k db).1 ≡ db)
  unfolding get_bot_recording get
  get_bot_recording-Served k bytes db h = elim (Option-cases (Repository.get k db)) [
    | inl missing ↦ absurd (ground (arith, missing, h))
    | inr (run, e) ↦ (run, e, serve-Served run bytes (ground (arith, e, h)), ground (arith, e))
  ]

module _ (r : Redis) (laws : Laws r) (events : Option EventSink) (now : Instant)
    (keeps : KeepRuns events) where
  -- What a cancellation leaves: the run over, or still live and asked to stop.
  pub data Cancelled (k : ℕ) (db : Db) (s : r.State) : CancelAnswer → Db → r.State → Type 0 where
    at_once :
        (db' : Db)
        → (final : BotRun) → Repository.get k db' ≡ some final
        → final.status ≡ failed
        → final.stop_reason ≡ some "cancelled"
        → Cancelled k db s (ended failed) db' s
    already :
        (run : BotRun)
        → Repository.get k db ≡ some run
        → is_terminal run.status ≡ true
        → Cancelled k db s (ended run.status) db s
    requested :
        (run : BotRun)
        → Repository.get k db ≡ some run
        → is_terminal run.status ≡ false
        → is_cancelled r k (request_cancel r k s) ≡ true
        → Cancelled k db s cancelling db (request_cancel r k s)
