-- ===== src/Bots/Life.antt =====
-- The life of a run, as the API's callers know it: its status goes along the transitions of
-- src/twin/bots/state.py, and what identifies it and the times of its visit are written once.
pub mod Rules
pub mod Calls
pub mod Sweeps
pub mod Writes
use fakery.Prelude.{ℕ, arith, ◌≡◌, ◌∙◌, ap, refl, true, false, Option, some}
use fakery.Core.Moves.{Change}
use fakery.Bots.State.{BotStatus, can_transition}
use fakery.Bots.Models.{BotRun, Instant, Db}
use fakery.Bots.Repository
use fakery.Bots.Service.{is_terminal}

-- The state machine's sequences of transitions.
pub data Goes : BotStatus → BotStatus → Type 0 where
  stays : {s : BotStatus} → Goes s s
  goes_on : {s t u : BotStatus} → Goes s t → can_transition t u ≡ true → Goes s u

pub Goes-then : (s t u : BotStatus) → Goes s t → Goes t u → Goes s u
Goes-then s t _ p stays = p
Goes-then s t u p (goes_on {t = v} q h) = goes_on (Goes-then s t v p q) h

-- A status that is over has no transition.
over_stays : (s t : BotStatus) → is_terminal s ≡ true → can_transition s t ≡ false
unfolding is_terminal can_transition
over_stays s t h = ground arith

pub Goes-over : (s t : BotStatus) → is_terminal s ≡ true → Goes s t → t ≡ s
Goes-over s _ h stays = refl
Goes-over s u h (goes_on {t = t} p q) =
    let same : t ≡ s = Goes-over s t h p in
    absurd (cc (over_stays s u h, ap (λ x. can_transition x u) same, q))

-- A later version of a run.
pub record Follows (r r' : BotRun) : Type 0 where
  pub same_id : r'.id ≡ r.id
  pub same_url : r'.meeting_url ≡ r.meeting_url
  pub same_key : r'.meeting_key ≡ r.meeting_key
  pub same_token : r'.idempotency_key ≡ r.idempotency_key
  pub same_birth : r'.created_at ≡ r.created_at
  pub goes : Goes r.status r'.status
  pub once_joined : (t : Instant) → r.joined_at ≡ some t → r'.joined_at ≡ some t
  pub once_over : is_terminal r.status ≡ true → r'.left_at ≡ r.left_at

pub Follows-self : (r : BotRun) → Follows r r
Follows-self r = record {
  same_id = refl;
  same_url = refl;
  same_key = refl;
  same_token = refl;
  same_birth = refl;
  goes = stays;
  once_joined = λ t h. h;
  once_over = λ h. refl;
}

pub Follows-then : (a b c : BotRun) → Follows a b → Follows b c → Follows a c
Follows-then a b c h k = record {
  same_id = k.same_id ∙ h.same_id;
  same_url = k.same_url ∙ h.same_url;
  same_key = k.same_key ∙ h.same_key;
  same_token = k.same_token ∙ h.same_token;
  same_birth = k.same_birth ∙ h.same_birth;
  goes = Goes-then a.status b.status c.status h.goes k.goes;
  once_joined = λ t e. k.once_joined t (h.once_joined t e);
  once_over =
      λ e. k.once_over (ap is_terminal (Goes-over a.status b.status e h.goes) ∙ e) ∙ h.once_over e;
}

-- Every run that is stored stays stored, in a later version.
pub record Evolves (db db' : Db) : Type 0 where
  pub kept :
      (k : ℕ) (run : BotRun)
      → Repository.get k db ≡ some run
      → (run' : BotRun) × (Repository.get k db' ≡ some run') × Follows run run'

pub Evolves-self : (db : Db) → Evolves db db
Evolves-self db = record { kept = λ k run e. (run, e, Follows-self run) }

pub Evolves-then : (a b c : Db) → Evolves a b → Evolves b c → Evolves a c
Evolves-then a b c h k = record {
  kept = λ j run e.
      let (run', e', f) = h.kept j run e in
      let (run'', e'', g) = k.kept j run' e' in (run'', e'', Follows-then run run' run'' f g);
}

abbrev pub evolution : Change Db
evolution = record { rel = Evolves; still = Evolves-self; onward = Evolves-then }
