-- ===== src/Bots/Service/Create/Once.antt =====
-- `BotService.create_or_get` (src/twin/bots/service.py): one active run for a meeting, and one run
-- for an idempotency key.
use fakery.Prelude.{
  ℕ, Bool, true, false, Option, none, some, List, [], ◌∷◌, Text, ◌≡◌, ◌≢◌, ◌↔◌, ap, refl, arith,
  All, find?, filter, sort_by, insert_by, Option-cases, inl, inr, ◌⊎◌,
}
use fakery.Core.Errors.{Error, conflict, make_error, twin}
use fakery.Core.Action.{Result, ok, err}
use fakery.Bots.State.{queued}
use fakery.Bots.Models.{BotRun, Instant, Db}
use fakery.Bots.MeetingUrl.{Url}
use fakery.Bots.Repository
use fakery.Bots.Repository.{active_for, older, text_is, clashes}
use fakery.Bots.Service.{EventSink, is_terminal, tell_status}
use fakery.Bots.Service.Create.{new_run, create_new}
use fakery.Bots.Service.Runs.{IsWellFormed, IsSound, was_admitted, add-IsSound}
use fakery.Bots.Service.Lifecycle.{KeepRuns, tell_status-bots, same_runs-IsSound}

abbrev pub conflicts {ℓ} : {A : Type ℓ} → Result A
conflicts = err (twin (make_error conflict))

pub new_run-IsWellFormed :
    (id : ℕ) (url key : Text) (token name : Option Text) (now : Instant)
    → IsWellFormed (new_run id url key token name now)
unfolding new_run is_terminal was_admitted
new_run-IsWellFormed id url key token name now = ground arith

pub Result-cases {ℓ} :
    {A : Type ℓ} (r : Result A) → ((a : A) × (r ≡ ok a)) ⊎ ((e : Error) × (r ≡ err e))
Result-cases (ok a) = inl (a, refl)
Result-cases (err e) = inr (e, refl)

insert_by-ne_nil {ℓ} :
    {A : Type ℓ} (le : A → A → Bool) (a : A) (xs : List A)
    → find? (λ r. true) (insert_by le a xs) ≢ none
unfolding insert_by
insert_by-ne_nil le a [] h = cc
insert_by-ne_nil le a (x ∷ xs) h = ground arith

first_of_sorted : (xs : List BotRun) → find? (λ r. true) (sort_by older xs) ≡ none → xs ≡ []
unfolding sort_by
first_of_sorted [] h = refl
first_of_sorted (x ∷ xs) h = absurd (insert_by-ne_nil older x (sort_by older xs) h)

filter_nil {ℓ} :
    {A : Type ℓ} (p : A → Bool) (xs : List A) → filter p xs ≡ [] → All (λ x. p x ≡ false) xs
filter_nil p [] h = tt
filter_nil p (x ∷ xs) h = ground (arith, filter_nil p xs)

nil_filter {ℓ} :
    {A : Type ℓ} (p : A → Bool) (xs : List A) → All (λ x. p x ≡ false) xs → filter p xs ≡ []
nil_filter p [] h = refl
nil_filter p (x ∷ xs) h = rw h.0 (nil_filter p xs h.1)

-- The query finds nothing exactly if no run of the table is active for the meeting.
pub find_active_meeting-none :
    (key : Text) (db : Db)
    → (Repository.find_active_meeting key db ≡ none) ↔ All (λ r. active_for key r ≡ false) db.bots
unfolding Repository.find_active_meeting sort_by
find_active_meeting-none key db = (
  λ h. filter_nil (active_for key) db.bots (first_of_sorted _ h),
  λ h. ap (λ l. find? (λ r. true) (sort_by older l)) (nil_filter (active_for key) db.bots h),
)

module _ (events : Option EventSink) (now : Instant) (urlsplit : Text → Option Url) where
  module _ (id : ℕ) (url key : Text) (name token : Option Text) (db : Db) where
    abbrev pub run : BotRun
    run = new_run id url key token name now

    pub create_new_active :
        (active : BotRun)
        → Repository.find_active_meeting key db ≡ some active
        → create_new events now urlsplit id url key name token db ≡ (conflicts, db)
    unfolding create_new
    create_new_active active h = ground (arith, h)

    pub create_new_clash :
        (e : Error)
        → Repository.find_active_meeting key db ≡ none
        → (Repository.add run db).0 ≡ err e
        → create_new events now urlsplit id url key name token db ≡ (conflicts, db)
    unfolding create_new
    create_new_clash e h k = ground (arith, h, k)

    pub create_new_ok :
        Repository.find_active_meeting key db ≡ none
        → (Repository.add run db).0 ≡ ok tt
        → create_new events now urlsplit id url key name token db
          ≡ (ok (run, true), tell_status events now id queued (Repository.add run db).1)
    unfolding create_new
    create_new_ok h k = ground (arith, h, k)

    pub create_new-IsSound :
        KeepRuns events
        → IsSound db
        → IsSound (create_new events now urlsplit id url key name token db).1
    create_new-IsSound keeps h = elim (Option-cases (Repository.find_active_meeting key db)) [
      | inr (active, e) ↦ rw (create_new_active active e) h
      | inl free ↦ elim (Result-cases (Repository.add run db).0) [
        | inr (e, clash) ↦ rw (create_new_clash e free clash) h
        | inl (u, added) ↦ rw (create_new_ok free added) (
            same_runs-IsSound _ _ (tell_status-bots events now id queued _ keeps)
              (add-IsSound run db (new_run-IsWellFormed id url key token name now) h))
      ]
    ]
