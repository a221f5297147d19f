-- ===== src/Core/Action.antt =====
-- A call that changes a state and may raise. What it wrote before it raised is in the state that
-- comes back; `session_scope` (src/twin/storage/database.py) is what undoes it.
use fakery.Prelude.{Option, none, some}
use fakery.Core.Errors.{Error, Slug, twin, make_error}

pub data Result {ℓ} (A : Type ℓ) : Type ℓ where
  ok : A → Result A
  err : Error → Result A

abbrev pub Action : Type 0 → Type 0 → Type 0
Action S A = S → Result A × S

module _ {S A : Type 0} where
  abbrev pub pure : A → Action S A
  pure a s = (ok a, s)

  abbrev pub raise : Error → Action S A
  raise e s = (err e, s)

  abbrev pub gets : (S → A) → Action S A
  gets f s = (ok (f s), s)

  -- An object that is `None` raises.
  abbrev pub or_raise : Option A → Slug → Action S A
  or_raise none e s = (err (twin (make_error e)), s)
  or_raise (some a) e s = (ok a, s)

  -- What `session_scope` leaves behind: the body's writes, or the state before them.
  abbrev pub settle : S → Result A × S → Result A × S
  settle before (ok a, after) = (ok a, after)
  settle before (err e, after) = (err e, before)

  -- `session_scope`: commit what the body wrote, or roll it back and raise on.
  abbrev pub session_scope : Action S A → Action S A
  session_scope body s = settle s (body s)

infixl 5 ◌>>=◌ ◌>>◌
abbrev pub ◌>>=◌ : {S A B : Type 0} → Action S A → (A → Action S B) → Action S B
◌>>=◌ m f s = let (r, s') = m s in elim r [ ok a ↦ f a s' | err e ↦ (err e, s') ]

abbrev pub ◌>>◌ : {S A B : Type 0} → Action S A → Action S B → Action S B
m >> k = m >>= λ _. k

abbrev pub modify : {S : Type 0} → (S → S) → Action S (Unit {0})
modify f s = (ok tt, f s)
