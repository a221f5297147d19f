-- ===== src/Core/Moves.antt =====
-- Calls that only make certain changes to the state: a relation that is reflexive and transitive holds
-- between the state before a call and the state after it, also where the call raises.
use fakery.Prelude.{◌≡◌, refl}
use fakery.Core.Action.{Action, Result, ok, err, pure, session_scope, settle, ◌>>=◌}

-- The relation and its laws.
pub record Change (S : Type 0) : Type 1 where
  pub rel : S → S → Type 0
  pub still : (s : S) → rel s s
  pub onward : (a b c : S) → rel a b → rel b c → rel a c

-- A call that makes such changes only, however it ends.
pub record Moves {S A : Type 0} (c : Change S) (m : Action S A) : Type 0 where
  pub moves : (s : S) → c.rel s (m s).1

module _ {S : Type 0} (c : Change S) where
  settled :
      {A : Type 0} (before : S) (r : Result A × S)
      → c.rel before r.1
      → c.rel before (settle before r).1
  settled before (ok a, after) h = h
  settled before (err e, after) h = c.still before

  bound :
      {A B : Type 0} (f : A → Action S B) (s s' : S) (r : Result A)
      → c.rel s s'
      → ((a : A) → r ≡ ok a → c.rel s' (f a s').1)
      → c.rel s (elim r as (λ x. Result B × S) [ ok a ↦ f a s' | err e ↦ (err e, s') ]).1
  bound f s s' (ok a) h k = c.onward s s' _ h (k a refl)
  bound f s s' (err e) h k = h

  -- A call and what follows it, at one state.
  pub bind_at :
      {A B : Type 0} (m : Action S A) (f : A → Action S B) (s : S)
      → c.rel s (m s).1
      → ((a : A) → (m s).0 ≡ ok a → c.rel (m s).1 (f a (m s).1).1)
      → c.rel s ((m >>= f) s).1
  bind_at m f s h k = bound f s (m s).1 (m s).0 h k

  pub scope_at :
      {A : Type 0} (m : Action S A) (s : S) → c.rel s (m s).1 → c.rel s (session_scope m s).1
  scope_at m s h = settled s (m s) h

  pub pure-Moves : {A : Type 0} (a : A) → Moves {A = A} c (pure a)
  pure-Moves a = record { moves = c.still }

  pub scope-Moves : {A : Type 0} (m : Action S A) → Moves c m → Moves c (session_scope m)
  scope-Moves m h = record { moves = λ s. scope_at m s (h.moves s) }

  pub bind-Moves :
      {A B : Type 0} (m : Action S A) (f : A → Action S B)
      → Moves c m
      → ((a : A) → Moves c (f a))
      → Moves c (m >>= f)
  bind-Moves m f h k = record {
    moves = λ s. bind_at m f s (h.moves s) (λ a e. (k a).moves (m s).1);
  }
