-- ===== src/Bots/Life/Rules.antt =====
-- Which writes to the table of runs (`SqlalchemyBotRepository` and `BotService` of
-- src/twin/bots/service.py) leave later versions of its rows.
use mathlib.Core.Path.{subst}
use fakery.Prelude.{
  ℕ, Text, ◌≡◌, ◌∙◌, ap, sym, refl, true, false, Option, none, some, some-injective, List, [], ◌∷◌,
  ◌++◌, ◌==◌, Bool-cases, Option-cases, inl, inr, arith, find_row, any,
}
use fakery.Core.Action.{Action, Result, pure, modify, ◌>>=◌, ◌>>◌}
use fakery.Core.Moves.{bind_at}
use fakery.Bots.State.{BotStatus, can_transition}
use fakery.Bots.Models.{BotRun, Instant, Db}
use fakery.Bots.Repository
use fakery.Bots.Service.{EventSink, is_terminal, enter, get, advance}
use fakery.Bots.Service.Runs.{get-save, get_id}
use fakery.Bots.Service.Lifecycle.{
  KeepRuns, tell_status-bots, entered, advance-Advanced, Advanced, stepped, repeated, refused,
}
use fakery.Bots.Service.Artifacts.{change}
use fakery.Bots.Runtime.Endings.{got_run, got_stored}
use fakery.Bots.Life.{
  Goes, stays, goes_on, Follows, Follows-self, Evolves, Evolves-self, Evolves-then, evolution,
}

-- What a run's life is about.
pub record Visit : Type 0 where
  pub id : ℕ
  pub url : Text
  pub key : Option Text
  pub token : Option Text
  pub birth : Instant
  pub status : BotStatus
  pub joined : Option Instant
  pub left : Option Instant

abbrev pub visit_of : BotRun → Visit
visit_of r = record {
  id = r.id;
  url = r.meeting_url;
  key = r.meeting_key;
  token = r.idempotency_key;
  birth = r.created_at;
  status = r.status;
  joined = r.joined_at;
  left = r.left_at;
}

-- A version that differs in other fields only.
abbrev pub Touches : BotRun → BotRun → Type 0
Touches r r' = visit_of r' ≡ visit_of r

pub Touches-Follows : (r r' : BotRun) → Touches r r' → Follows r r'
Touches-Follows r r' t = record {
  same_id = ap (λ v. v.id) t;
  same_url = ap (λ v. v.url) t;
  same_key = ap (λ v. v.key) t;
  same_token = ap (λ v. v.token) t;
  same_birth = ap (λ v. v.birth) t;
  goes = subst (Goes r.status) (sym (ap (λ v. v.status) t)) stays;
  once_joined = λ j e. ap (λ v. v.joined) t ∙ e;
  once_over = λ e. ap (λ v. v.left) t;
}

pub same_runs-Evolves : (db db' : Db) → db'.bots ≡ db.bots → Evolves db db'
unfolding Repository.get
same_runs-Evolves db db' e = record { kept = λ k run h. (run, rw e h, Follows-self run) }

-- The stamp of a flush does not matter.
stamp-Follows :
    (now : Instant) (run run' : BotRun)
    → Follows run run'
    → Follows run (record run' { updated_at = now })
stamp-Follows now run run' f = record {
  same_id = f.same_id;
  same_url = f.same_url;
  same_key = f.same_key;
  same_token = f.same_token;
  same_birth = f.same_birth;
  goes = f.goes;
  once_joined = f.once_joined;
  once_over = f.once_over;
}

-- A flush of a later version of a stored row.
pub save-Evolves :
    (now : Instant) (k : ℕ) (run run' : BotRun) (db : Db)
    → Repository.get k db ≡ some run
    → Follows run run'
    → Evolves db (Repository.save now run' db)
save-Evolves now k run run' db e f = record { kept = kept }
  where
    stamped : BotRun
    stamped = record run' { updated_at = now }

    kept :
        (j : ℕ) (old : BotRun)
        → Repository.get j db ≡ some old
        → (new : BotRun) × (Repository.get j (Repository.save now run' db) ≡ some new)
          × Follows old new
    kept j old h = elim (Bool-cases (run'.id == j)) [
      | inr other ↦ (old, get-save now j run' db ∙ rw other h, Follows-self old)
      | inl here ↦
          let same : k ≡ j = ground (arith, here, f.same_id, get_id k run db e) in
          let mine : run ≡ old =
            some-injective run old (sym e ∙ ap (λ i. Repository.get i db) same ∙ h) in
          (
            stamped,
            get-save now j run' db ∙ rw (here, h) refl,
            subst (λ o. Follows o stamped) mine (stamp-Follows now run run' f),
          )
    ]

find_row-append_one :
    (k : ℕ) (r run : BotRun) (xs : List BotRun)
    → find_row (λ (x : BotRun). x.id) k xs ≡ some run
    → find_row (λ (x : BotRun). x.id) k (xs ++ r ∷ []) ≡ some run
unfolding find_row
find_row-append_one k r run [] h = absurd (cc h)
find_row-append_one k r run (x ∷ xs) h = ground (arith, h, find_row-append_one k r run xs)

-- Nor does an insert disturb what is stored.
pub add-Evolves : (r : BotRun) (db : Db) → Evolves db (Repository.add r db).1
unfolding Repository.add Repository.get
add-Evolves r db = elim (Bool-cases (any (Repository.clashes r) db.bots)) [
  | inl e ↦ rw e (Evolves-self db)
  | inr e ↦
      rw e (record {
        kept = λ k run h. (run, find_row-append_one k r run db.bots h, Follows-self run);
      })
]

entered-Follows :
    (target : BotStatus) (now : Instant) (run : BotRun)
    → can_transition run.status target ≡ true
    → is_terminal run.status ≡ false
    → Follows run (enter target now run)
unfolding enter
entered-Follows target now run legal live = record {
  same_id = ground arith;
  same_url = ground arith;
  same_key = ground arith;
  same_token = ground arith;
  same_birth = ground arith;
  goes = rw (entered_status target now run) (goes_on stays legal);
  once_joined = λ t e. ground (arith, e);
  once_over = λ over. absurd (cc (over, live));
}
  where
    entered_status :
        (target : BotStatus) (now : Instant) (run : BotRun) → (enter target now run).status ≡ target
    entered_status target now run = ground arith

pub stamped-Follows :
    (target : BotStatus) (now : Instant) (run : BotRun)
    → can_transition run.status target ≡ true
    → is_terminal run.status ≡ false
    → Follows run (entered target now run)
stamped-Follows target now run legal live =
    stamp-Follows now run (enter target now run) (entered-Follows target now run legal live)

pub legal_live : (s t : BotStatus) → can_transition s t ≡ true → is_terminal s ≡ false
unfolding can_transition is_terminal
legal_live s t h = ground arith

module _ (events : Option EventSink) (now : Instant) where
  Advanced-Evolves :
      (k : ℕ) (target : BotStatus) (run : BotRun) (db : Db) (out : Result BotRun × Db)
      → Repository.get k db ≡ some run
      → KeepRuns events
      → Advanced events now k target db run out
      → Evolves db out.1
  Advanced-Evolves k target run db out e keeps (stepped legal) =
      Evolves-then _ _ _
        (save-Evolves now k run (enter target now run) db e
          (entered-Follows target now run legal (legal_live _ _ legal)))
        (same_runs-Evolves _ _ (tell_status-bots events now k target _ keeps))
  Advanced-Evolves k target run db out e keeps (repeated over same) = Evolves-self db
  Advanced-Evolves k target run db out e keeps (refused illegal other) = Evolves-self db

  advance_absent :
      (k : ℕ) (target : BotStatus) (db : Db)
      → Repository.get k db ≡ none
      → (advance events now k target db).1 ≡ db
  unfolding advance
  advance_absent k target db e = ground (arith, e)

  pub advance-Evolves :
      (k : ℕ) (target : BotStatus) (db : Db)
      → KeepRuns events
      → Evolves db (advance events now k target db).1
  advance-Evolves k target db keeps = elim (Option-cases (Repository.get k db)) [
    | inl missing ↦ rw (advance_absent k target db missing) (Evolves-self db)
    | inr (run, e) ↦
        Advanced-Evolves k target run db _ e keeps (advance-Advanced events now k target run db e)
  ]

-- What follows a read of a stored run.
pub got-Evolves :
    {A : Type 0} (f : BotRun → Action Db A) (k : ℕ) (db : Db)
    → ((run : BotRun) → Repository.get k db ≡ some run → Evolves db (f run db).1)
    → Evolves db ((get k >>= f) db).1
got-Evolves f k db g =
    bind_at evolution (get k) f db (rw (got_run k db) (Evolves-self db))
      (λ run e. rw (got_run k db) (g run (got_stored k run db e)))

-- A call that changes other fields of a run.
pub change-Evolves :
    (events : Option EventSink) (now : Instant) (f : BotRun → BotRun) (k : ℕ) (db : Db)
    → ((run : BotRun) → Touches run (f run))
    → Evolves db (change events now f k db).1
unfolding change
change-Evolves events now f k db h =
    got-Evolves
      (λ run. modify (Repository.save now (f run)) >> pure (record (f run) { updated_at = now })) k
      db (λ run e. save-Evolves now k run (f run) db e (Touches-Follows run (f run) (h run)))
