-- ===== src/Bots/Service/Create/EmptyKey.antt =====
-- An empty `Idempotency-Key` in `BotService.create_or_get` (src/twin/bots/service.py) is looked up
-- nowhere and stored all the same.
use fakery.Prelude.{
  ℕ, true, Option, some, List, [], ◌∷◌, Text, text_eq, ◌≡◌, ◌∙◌, refl, arith, any, find?,
  Option-cases, inl, inr,
}
use fakery.Core.Errors.{integrity_error}
use fakery.Core.Action.{ok, err}
use fakery.Bots.Models.{BotRun, Instant, Db}
use fakery.Bots.MeetingUrl.{Url, normalize_meeting_url}
use fakery.Bots.Repository
use fakery.Bots.Repository.{text_is, clashes}
use fakery.Bots.Service.{EventSink}
use fakery.Bots.Service.Create.{new_run, create_or_get}
use fakery.Bots.Service.Create.Once.{conflicts, create_new_active, create_new_clash}
use fakery.Bots.Service.Create.Keys.{without_key}

any_of_find? :
    (r run : BotRun) (xs : List BotRun)
    → r.idempotency_key ≡ some []
    → find? (λ (s : BotRun). text_is s.idempotency_key []) xs ≡ some run
    → any (clashes r) xs ≡ true
unfolding text_eq
any_of_find? r run [] e h = absurd (cc)
any_of_find? r run (x ∷ xs) e h = ground (arith, e, any_of_find? r run xs e)

add_refused :
    (r run : BotRun) (db : Db)
    → r.idempotency_key ≡ some []
    → Repository.get_by_idempotency [] db ≡ some run
    → (Repository.add r db).0 ≡ err integrity_error
unfolding Repository.add Repository.get_by_idempotency
add_refused r run db e h = ground (arith, any_of_find? r run db.bots e h)

-- Once a run is stored with an empty key, every request with an empty key conflicts, for any
-- meeting, although no run need be active for that meeting.
pub empty_key_conflicts :
    (events : Option EventSink) (now : Instant) (urlsplit : Text → Option Url) (id : ℕ)
    (meeting_url url key : Text) (name : Option Text) (run : BotRun) (db : Db)
    → normalize_meeting_url urlsplit meeting_url ≡ ok (url, key)
    → Repository.get_by_idempotency [] db ≡ some run
    → create_or_get events now urlsplit id meeting_url name (some []) db ≡ (conflicts, db)
unfolding new_run
empty_key_conflicts events now urlsplit id meeting_url url key name run db valid used =
    without_key events now urlsplit id meeting_url name (some []) db url key valid refl
    ∙ elim (Option-cases (Repository.find_active_meeting key db)) [
      | inr (active, e) ↦
          create_new_active events now urlsplit id url key name (some []) db active e
      | inl free ↦
          create_new_clash events now urlsplit id url key name (some []) db integrity_error free
            (add_refused (new_run id url key (some []) name now) run db refl used)
    ]
