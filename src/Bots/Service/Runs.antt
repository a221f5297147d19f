-- ===== src/Bots/Service/Runs.antt =====
-- What holds of every row of the `bots` table between two calls, and of every two rows.
use mathlib.Core.Path.{subst}
use fakery.Prelude.{
  ℕ, Bool, true, false, Option, none, some, List, [], ◌∷◌, ◌++◌, Text, text_eq_comm, some-injective,
  ◌≡◌, ◌≢◌, ◌∙◌, refl, ◌==◌, arith, is_some, All, find_row, put_row, put_row-absent, find_row_key,
  find_row-put_row, if◌then◌else◌, put_row-All, find_row-All, append-All, any-eq_false, Bool-cases,
  inl, inr, any,
}
use fakery.Bots.State.{
  BotStatus, joined, recording, processing, completed, failed, is_in, status_eq,
}
use fakery.Bots.Models.{BotRun, Instant, Db}
use fakery.Bots.Repository
use fakery.Bots.Repository.{is_active, same_text, clashes, text_is}
use fakery.Bots.Service.{is_terminal}

-- The statuses that only a run which was let into its meeting has.
unfoldable pub was_admitted : BotStatus → Bool
was_admitted s = is_in s (joined ∷ recording ∷ processing ∷ completed ∷ [])

-- A run has left its meeting exactly if it is over, a failed one has a reason, and one that was let
-- in has the time of it.
pub record IsWellFormed (r : BotRun) : Type 0 where
  pub left : is_some r.left_at ≡ is_terminal r.status
  pub reason : status_eq r.status failed ≡ true → is_some r.stop_reason ≡ true
  pub admitted : was_admitted r.status ≡ true → is_some r.joined_at ≡ true

-- No two rows break an index of the table: one identifier, one idempotency key, two active runs
-- for one meeting.
abbrev pub NoClash : List BotRun → Type 0
NoClash [] = Unit
NoClash (r ∷ rs) = All (λ s. clashes r s ≡ false) rs × NoClash rs

pub record IsSound (db : Db) : Type 0 where
  pub rows : All IsWellFormed db.bots
  pub unique : NoClash db.bots

-- A new version of a row: it keeps its keys, and is active only if the row was.
pub record Updates (r r' : BotRun) : Type 0 where
  pub same_id : r'.id ≡ r.id
  pub same_key : r'.meeting_key ≡ r.meeting_key
  pub same_token : r'.idempotency_key ≡ r.idempotency_key
  pub no_revival : is_active r'.status ≡ true → is_active r.status ≡ true

abbrev key : BotRun → ℕ
key r = r.id

same_text_comm : (s t : Option Text) → same_text s t ≡ same_text t s
same_text_comm none none = refl
same_text_comm none (some t) = refl
same_text_comm (some s) none = refl
same_text_comm (some s) (some t) = text_eq_comm t s

-- Whether two rows clash does not depend on their order.
pub clashes_comm : (a b : BotRun) → clashes a b ≡ clashes b a
clashes_comm a b = ground (
  arith,
  same_text_comm a.idempotency_key b.idempotency_key,
  same_text_comm a.meeting_key b.meeting_key,
)

clashes-Updates : (a r r' : BotRun) → Updates r r' → clashes a r ≡ false → clashes a r' ≡ false
clashes-Updates a r r' u h = rw (u.same_id, u.same_key, u.same_token) (ground (arith, u.no_revival))

All-clashes-Updates :
    (r r' : BotRun) (xs : List BotRun)
    → Updates r r'
    → All (λ s. clashes r s ≡ false) xs
    → All (λ s. clashes r' s ≡ false) xs
All-clashes-Updates r r' [] u h = tt
All-clashes-Updates r r' (x ∷ xs) u h = (
  rw (clashes_comm r' x) (clashes-Updates x r r' u (rw (clashes_comm x r) h.0)),
  All-clashes-Updates r r' xs u h.1,
)

clashes_same_id : (r s : BotRun) → clashes r s ≡ false → s.id ≢ r.id
clashes_same_id r s h = ground arith

All-clashes-absent :
    (r r' : BotRun) (xs : List BotRun)
    → r'.id ≡ r.id
    → All (λ s. clashes r s ≡ false) xs
    → All (λ s. s.id ≡ r'.id → ⊥) xs
All-clashes-absent r r' [] e h = tt
All-clashes-absent r r' (x ∷ xs) e h =
    (λ q. clashes_same_id r x h.0 (q ∙ e), All-clashes-absent r r' xs e h.1)

put_row_head :
    (r r' : BotRun) (xs : List BotRun)
    → Updates r r'
    → NoClash (r ∷ xs)
    → NoClash (r' ∷ put_row key r' xs)
put_row_head r r' xs u h =
    rw (put_row-absent key r' xs (All-clashes-absent r r' xs u.same_id h.0))
      (All-clashes-Updates r r' xs u h.0, h.1)

-- A row's new version in its place clashes with no other row.
pub put_row-NoClash :
    (r r' : BotRun) (xs : List BotRun)
    → Updates r r'
    → find_row key r'.id xs ≡ some r
    → NoClash xs
    → NoClash (put_row key r' xs)
unfolding find_row put_row
put_row-NoClash r r' [] u e h = tt
put_row-NoClash r r' (x ∷ xs) u e h = elim (Bool-cases (x.id == r'.id)) [
  | inl hit ↦
      rw hit (
        put_row_head r r' xs u (subst (λ y. NoClash (y ∷ xs)) (some-injective x r (rw hit at e)) h))
  | inr miss ↦
      let e' : find_row key r'.id xs ≡ some r = rw miss at e in
      rw miss (
        put_row-All key (λ s. clashes x s ≡ false) r' xs
            (clashes-Updates x r r' u
              (find_row-All key (λ s. clashes x s ≡ false) r'.id r xs h.0 e'))
            h.0,
        put_row-NoClash r r' xs u e' h.1,
      )
]

append_one-NoClash :
    (r : BotRun) (xs : List BotRun)
    → All (λ s. clashes r s ≡ false) xs
    → NoClash xs
    → NoClash (xs ++ r ∷ [])
append_one-NoClash r [] a h = (tt, tt)
append_one-NoClash r (x ∷ xs) a h = (
  append-All (λ s. clashes x s ≡ false) xs (r ∷ []) h.0 (rw (clashes_comm x r) a.0, tt),
  append_one-NoClash r xs a.1 h.1,
)

-- What a flush shows to later reads.
pub get-save :
    (now : Instant) (j : ℕ) (r : BotRun) (db : Db)
    → Repository.get j (Repository.save now r db) ≡ (
        if r.id == j
        then (if is_some (Repository.get j db) then some (record r { updated_at = now }) else none)
        else Repository.get j db)
unfolding Repository.get Repository.save
get-save now j r db = find_row-put_row key j (record r { updated_at = now }) db.bots

-- A flush of a new version of a row keeps the table sound.
pub save-IsSound :
    (now : Instant) (r r' : BotRun) (db : Db)
    → Updates r r'
    → Repository.get r'.id db ≡ some r
    → IsWellFormed r'
    → IsSound db
    → IsSound (Repository.save now r' db)
unfolding Repository.get Repository.save
save-IsSound now r r' db u e w h = record {
  rows =
      put_row-All key IsWellFormed (record r' { updated_at = now }) db.bots
        (record { left = w.left; reason = w.reason; admitted = w.admitted }) h.rows;
  unique =
      put_row-NoClash r (record r' { updated_at = now }) db.bots
        (record {
          same_id = u.same_id;
          same_key = u.same_key;
          same_token = u.same_token;
          no_revival = u.no_revival;
        })
        e h.unique;
}

-- Nor does an insert that no index refuses.
pub add-IsSound :
    (r : BotRun) (db : Db) → IsWellFormed r → IsSound db → IsSound (Repository.add r db).1
unfolding Repository.add
add-IsSound r db w h = elim (Bool-cases (any (clashes r) db.bots)) [
  | inl e ↦ rw e h
  | inr e ↦ rw e (record {
    rows = append-All IsWellFormed db.bots (r ∷ []) h.rows (w, tt);
    unique = append_one-NoClash r db.bots (any-eq_false (clashes r) db.bots e) h.unique;
  })
]

pub stored-IsWellFormed :
    (k : ℕ) (run : BotRun) (db : Db)
    → Repository.get k db ≡ some run
    → IsSound db
    → IsWellFormed run
unfolding Repository.get
stored-IsWellFormed k run db e h = find_row-All key IsWellFormed k run db.bots h.rows e

pub get_id : (k : ℕ) (run : BotRun) (db : Db) → Repository.get k db ≡ some run → run.id ≡ k
unfolding Repository.get
get_id k run db e = find_row_key key k run db.bots e
