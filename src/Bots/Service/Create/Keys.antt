-- ===== src/Bots/Service/Create/Keys.antt =====
-- Idempotency keys in `BotService.create_or_get` (src/twin/bots/service.py).
use fakery.Prelude.{
  ℕ, Bool, true, false, Option, none, some, List, [], ◌∷◌, ◌++◌, Text, text_eq, text_eq_iff, ◌≡◌,
  ◌≢◌, ◌∙◌, ap, sym, refl, arith, find?, Option-cases, inl, inr,
}
use fakery.Core.Errors.{Error}
use fakery.Core.Action.{Result, ok, err}
use fakery.Bots.State.{queued}
use fakery.Bots.Models.{BotRun, Instant, Db}
use fakery.Bots.MeetingUrl.{Url, normalize_meeting_url}
use fakery.Bots.MeetingUrl.Canonical.{normalize_shape}
use fakery.Bots.Repository
use fakery.Bots.Repository.{text_is, clashes}
use fakery.Bots.Service.{EventSink, tell_status}
use fakery.Bots.Service.Create.{given, new_run, create_new, create_or_get, reuse}
use fakery.Bots.Service.Runs.{IsSound}
use fakery.Bots.Service.Lifecycle.{KeepRuns, tell_status-bots}
use fakery.Bots.Service.Create.Once.{
  conflicts, Result-cases, create_new-IsSound, create_new_ok, create_new_active, create_new_clash,
}

text_eq_refl : (t : Text) → text_eq t t ≡ true
text_eq_refl t = (text_eq_iff t t).1 refl

-- A reused key writes nothing.
pub reuse_db :
    (urlsplit : Text → Option Url) (run : BotRun) (key : Text) (db : Db)
    → (reuse urlsplit run key db).1 ≡ db
unfolding reuse
reuse_db urlsplit run key db = ground arith

module _ (events : Option EventSink) (now : Instant) (urlsplit : Text → Option Url) where
  module _ (id : ℕ) (meeting_url : Text) (name token : Option Text) (db : Db) where
    pub invalid_url :
        (e : Error)
        → normalize_meeting_url urlsplit meeting_url ≡ err e
        → create_or_get events now urlsplit id meeting_url name token db ≡ (err e, db)
    unfolding create_or_get
    invalid_url e h = ground (arith, h)

    module _ (url key : Text)
        (valid : normalize_meeting_url urlsplit meeting_url ≡ ok (url, key)) where
      pub without_key :
          given token ≡ none
          → create_or_get events now urlsplit id meeting_url name token db
            ≡ create_new events now urlsplit id url key name token db
      unfolding create_or_get
      without_key h = ground (arith, h, valid)

      pub with_known_key :
          (t : Text) (run : BotRun)
          → given token ≡ some t
          → Repository.get_by_idempotency t db ≡ some run
          → create_or_get events now urlsplit id meeting_url name token db
            ≡ reuse urlsplit run key db
      unfolding create_or_get
      with_known_key t run h k = ground (arith, h, k, valid)

      pub with_new_key :
          (t : Text)
          → given token ≡ some t
          → Repository.get_by_idempotency t db ≡ none
          → create_or_get events now urlsplit id meeting_url name token db
            ≡ create_new events now urlsplit id url key name token db
      unfolding create_or_get
      with_new_key t h k = ground (arith, h, k, valid)

    -- Whatever the request, and however it ends, `create_or_get` keeps a sound table of runs sound,
    -- under a sink that leaves the runs alone.
    pub create_or_get-IsSound :
        KeepRuns events
        → IsSound db
        → IsSound (create_or_get events now urlsplit id meeting_url name token db).1
    create_or_get-IsSound keeps h =
        elim (Result-cases (normalize_meeting_url urlsplit meeting_url)) [
          | inr (e, bad) ↦ rw (invalid_url e bad) h
          | inl ((url, key), valid) ↦ elim (Option-cases (given token)) [
            | inl absent ↦
                rw (without_key url key valid absent)
                  (create_new-IsSound events now urlsplit id url key name token db keeps h)
            | inr (t, present) ↦ elim (Option-cases (Repository.get_by_idempotency t db)) [
              | inr (run, known) ↦
                  rw
                    (with_known_key url key valid t run present known, reuse_db urlsplit run key db)
                    h
              | inl fresh ↦
                  rw (with_new_key url key valid t present fresh)
                    (create_new-IsSound events now urlsplit id url key name token db keeps h)
            ]
          ]
        ]

find?-append {ℓ} :
    {A : Type ℓ} (p : A → Bool) (xs : List A) (a : A)
    → find? p xs ≡ none
    → p a ≡ true
    → find? p (xs ++ a ∷ []) ≡ some a
find?-append p [] a h k = rw k
find?-append p (x ∷ xs) a h k = ground (arith, find?-append p xs a)

-- What an accepted insert leaves.
add_accepted :
    (run : BotRun) (db : Db)
    → (Repository.add run db).0 ≡ ok tt
    → (Repository.add run db).1.bots ≡ db.bots ++ run ∷ []
unfolding Repository.add
add_accepted run db h = ground arith

given-some : (token : Option Text) (t : Text) → given token ≡ some t → token ≡ some t
given-some none t h = cc
given-some (some []) t h = cc
given-some (some (c ∷ s)) t h = h

key_filled :
    (urlsplit : Text → Option Url) (meeting_url url key : Text)
    → normalize_meeting_url urlsplit meeting_url ≡ ok (url, key)
    → given (some key) ≡ some key
key_filled urlsplit meeting_url url key h =
    rw (normalize_shape urlsplit meeting_url url key h).keyed

reuse_flag :
    (urlsplit : Text → Option Url) (run r : BotRun) (key : Text) (db : Db) (b : Bool)
    → (reuse urlsplit run key db).0 ≡ ok (r, b)
    → b ≡ false
unfolding reuse
reuse_flag urlsplit run r key db b h = ground arith

not_true_false : ◌≢◌ {A = Bool} true false
not_true_false h = cc

reuse_same :
    (urlsplit : Text → Option Url) (run : BotRun) (key : Text) (db : Db)
    → run.meeting_key ≡ some key
    → given (some key) ≡ some key
    → reuse urlsplit run key db ≡ (ok (run, false), db)
unfolding reuse
reuse_same urlsplit run key db h k = ground (arith, text_eq_refl key)

get_by_idempotency_added :
    (t : Text) (run : BotRun) (db db' : Db)
    → db'.bots ≡ db.bots ++ run ∷ []
    → run.idempotency_key ≡ some t
    → Repository.get_by_idempotency t db ≡ none
    → Repository.get_by_idempotency t db' ≡ some run
unfolding Repository.get_by_idempotency
get_by_idempotency_added t run db db' e k h =
    ap (find? (λ (r : BotRun). text_is r.idempotency_key t)) e
    ∙ find?-append _ db.bots run h (ap (λ o. text_is o t) k ∙ text_eq_refl t)

module _ (events : Option EventSink) (now : Instant) (urlsplit : Text → Option Url) where
  module _ (id : ℕ) (meeting_url : Text) (name token : Option Text) (db : Db) where
    stored :
        (url key t : Text) (run : BotRun) (db' : Db)
        → KeepRuns events
        → given token ≡ some t
        → Repository.get_by_idempotency t db ≡ none
        → let first = new_run id url key token name now in
          (Repository.add first db).0 ≡ ok tt
          → ◌≡◌ {A = Result (BotRun × Bool) × Db}
              (ok (first, true), tell_status events now id queued (Repository.add first db).1)
              (ok (run, true), db')
          → (Repository.get_by_idempotency t db' ≡ some run) × (run.meeting_key ≡ some key)
    unfolding new_run
    stored url key t run db' keeps present fresh added e =
        let first = new_run id url key token name now in
        let same : first ≡ run = cc e in
        let rows : db'.bots ≡ db.bots ++ run ∷ [] =
          ap (λ (p : Result (BotRun × Bool) × Db). p.1.bots) (sym e)
          ∙ tell_status-bots events now id queued (Repository.add first db).1 keeps
          ∙ add_accepted first db added
          ∙ ap (λ r. db.bots ++ r ∷ []) same in
        (
          get_by_idempotency_added t run db db' rows
              (ap (λ (r : BotRun). r.idempotency_key) (sym same) ∙ given-some token t present)
              fresh,
          ap (λ (r : BotRun). r.meeting_key) (sym same),
        )

    -- The run that a successful request with a new key has stored.
    created_run :
        (url key t : Text) (run : BotRun) (db' : Db)
        → KeepRuns events
        → given token ≡ some t
        → Repository.get_by_idempotency t db ≡ none
        → create_new events now urlsplit id url key name token db ≡ (ok (run, true), db')
        → (Repository.get_by_idempotency t db' ≡ some run) × (run.meeting_key ≡ some key)
    created_run url key t run db' keeps present fresh h =
        elim (Option-cases (Repository.find_active_meeting key db)) [
          | inr (active, e) ↦ absurd (
              ground
                (arith, create_new_active events now urlsplit id url key name token db active e))
          | inl free ↦
              elim (Result-cases (Repository.add (new_run id url key token name now) db).0) [
                | inr (e, clash) ↦ absurd (
                    ground (
                      arith,
                      create_new_clash events now urlsplit id url key name token db e free clash,
                    ))
                | inl (u, added) ↦ stored url key t run db' keeps present fresh added (
                    sym (create_new_ok events now urlsplit id url key name token db free added) ∙ h)
              ]
        ]

    -- A request that stored a run under an idempotency key can be repeated: the same URL and key give
    -- that run again, not as a new one, and write nothing, whatever the other arguments are.
    pub create_or_get_repeats :
        (t : Text) (run : BotRun) (db' : Db) (events' : Option EventSink) (now' : Instant) (id' : ℕ)
        (name' : Option Text)
        → KeepRuns events
        → given token ≡ some t
        → create_or_get events now urlsplit id meeting_url name token db ≡ (ok (run, true), db')
        → create_or_get events' now' urlsplit id' meeting_url name' token db'
          ≡ (ok (run, false), db')
    create_or_get_repeats t run db' events' now' id' name' keeps present h =
        elim (Result-cases (normalize_meeting_url urlsplit meeting_url)) [
          | inr (e, bad) ↦
              absurd
                (ground (arith, invalid_url events now urlsplit id meeting_url name token db e bad))
          | inl ((url, key), valid) ↦ elim (Option-cases (Repository.get_by_idempotency t db)) [
            | inr (old, known) ↦ absurd (
                not_true_false (
                  reuse_flag urlsplit old run key db true (
                    ap (λ (p : Result (BotRun × Bool) × Db). p.0)
                      (sym (
                          with_known_key events now urlsplit id meeting_url name token db url key
                            valid t old present known)
                        ∙ h))))
            | inl fresh ↦
                let (found, keyed) = created_run url key t run db' keeps present fresh (
                  sym (
                    with_new_key events now urlsplit id meeting_url name token db url key valid t
                      present fresh)
                  ∙ h) in
                with_known_key events' now' urlsplit id' meeting_url name' token db' url key valid t
                  run present found
                ∙ reuse_same urlsplit run key db' keyed
                    (key_filled urlsplit meeting_url url key valid)
          ]
        ]

    -- An idempotency key that a run for another meeting has is refused, and nothing is written.
    pub create_or_get_other_meeting :
        (url key t other : Text) (run : BotRun)
        → normalize_meeting_url urlsplit meeting_url ≡ ok (url, key)
        → given token ≡ some t
        → Repository.get_by_idempotency t db ≡ some run
        → given run.meeting_key ≡ some other
        → other ≢ key
        → create_or_get events now urlsplit id meeting_url name token db ≡ (conflicts, db)
    unfolding reuse
    create_or_get_other_meeting url key t other run valid present known stored_key differs =
        with_known_key events now urlsplit id meeting_url name token db url key valid t run present
          known
        ∙ ground (arith, text_eq_iff other key)
