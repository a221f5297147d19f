-- ===== src/Finalizer/Recovery.antt =====
-- `recover_once` (src/twin/finalizer.py) against the table of runs.
use fakery.Prelude.{
  ℕ, ◌≡◌, ◌∙◌, ap, refl, Bool, true, false, ◌||◌, not, Option, none, some, List, [], ◌∷◌, Text,
  is_some, Bool-cases, Option-cases, inl, inr, arith,
}
use fakery.Bots.State.{failed, status_eq}
use fakery.Bots.Models.{BotRun, Instant, Db}
use fakery.Bots.Repository
use fakery.Bots.Service.Runs.{
  IsSound, IsWellFormed, Updates, save-IsSound, stored-IsWellFormed, get_id,
}
use fakery.Storage.Checkpoints.{Restored}
use fakery.Finalizer.{upload, recovered, store, recover_all, recover_once, candidates}

module _ (now : Instant) (retention_days : ℕ) (restore : Text → Option Restored)
    (put : ℕ → Text → Option Text) where
  recovered-Updates :
      (r : Restored) (uri : Text) (run : BotRun)
      → Updates run (recovered now retention_days restore put r uri run)
  unfolding recovered
  recovered-Updates r uri run = record {
    same_id = refl;
    same_key = refl;
    same_token = refl;
    no_revival = λ h. h;
  }

  recovered-IsWellFormed :
      (r : Restored) (uri : Text) (run : BotRun)
      → IsWellFormed run
      → IsWellFormed (recovered now retention_days restore put r uri run)
  unfolding recovered
  recovered-IsWellFormed r uri run w = record {
    left = w.left;
    reason = w.reason;
    admitted = w.admitted;
  }

  abbrev pub changed : BotRun → Bool
  changed run = is_some run.recording_uri || not (status_eq run.status failed)

  pub store_missing :
      (k : ℕ) (r : Restored) (uri : Text) (db : Db)
      → Repository.get k db ≡ none
      → store now retention_days restore put k r uri db ≡ (0, db)
  unfolding store
  store_missing k r uri db e = ground (arith, e)

  pub store-changed :
      (k : ℕ) (r : Restored) (uri : Text) (run : BotRun) (db : Db)
      → Repository.get k db ≡ some run
      → changed run ≡ true
      → store now retention_days restore put k r uri db ≡ (0, db)
  unfolding store
  store-changed k r uri run db e h = ground (arith, e, h)

  pub store_done :
      (k : ℕ) (r : Restored) (uri : Text) (run : BotRun) (db : Db)
      → Repository.get k db ≡ some run
      → changed run ≡ false
      → store now retention_days restore put k r uri db
        ≡ (1, Repository.save now (recovered now retention_days restore put r uri run) db)
  unfolding store
  store_done k r uri run db e h = ground (arith, e, h)

  store-IsSound :
      (k : ℕ) (r : Restored) (uri : Text) (db : Db)
      → IsSound db
      → IsSound (store now retention_days restore put k r uri db).1
  store-IsSound k r uri db h = elim (Option-cases (Repository.get k db)) [
    | inl e ↦ rw (store_missing k r uri db e) h
    | inr (run, e) ↦ elim (Bool-cases (changed run)) [
      | inl c ↦ rw (store-changed k r uri run db e c) h
      | inr c ↦ rw (store_done k r uri run db e c) (
          save-IsSound now run (recovered now retention_days restore put r uri run) db
            (recovered-Updates r uri run)
            (ap (λ j. Repository.get j db)
                ((recovered-Updates r uri run).same_id ∙ get_id k run db e)
              ∙ e)
            (recovered-IsWellFormed r uri run (stored-IsWellFormed k run db e h)) h)
    ]
  ]

  pub recover_nothing :
      (k : ℕ) (m : Text) (rest : List (ℕ × Text)) (db : Db)
      → upload now retention_days restore put k m ≡ none
      → recover_all now retention_days restore put ((k, m) ∷ rest) db
        ≡ recover_all now retention_days restore put rest db
  unfolding recover_all
  recover_nothing k m rest db e = ground (arith, e)

  pub recover_found :
      (k : ℕ) (m : Text) (rest : List (ℕ × Text)) (db : Db) (r : Restored) (uri : Text)
      → upload now retention_days restore put k m ≡ some (r, uri)
      → (recover_all now retention_days restore put ((k, m) ∷ rest) db).1
        ≡ (recover_all now retention_days restore put rest
            (store now retention_days restore put k r uri db).1).1
  unfolding recover_all
  recover_found k m rest db r uri e = ground (arith, e)

  recover_all-IsSound :
      (cs : List (ℕ × Text)) (db : Db)
      → IsSound db
      → IsSound (recover_all now retention_days restore put cs db).1
  unfolding recover_all
  recover_all-IsSound [] db h = h
  recover_all-IsSound ((k, m) ∷ rest) db h =
      elim (Option-cases (upload now retention_days restore put k m)) [
        | inl e ↦ rw (recover_nothing k m rest db e) (recover_all-IsSound rest db h)
        | inr ((r, uri), e) ↦
            rw (recover_found k m rest db r uri e)
              (recover_all-IsSound rest _ (store-IsSound k r uri db h))
      ]

  -- Whatever the store restores and takes, a recovery keeps the table of runs sound.
  pub recover_once-IsSound :
      (db : Db) → IsSound db → IsSound (recover_once now retention_days restore put db).1
  unfolding recover_once
  recover_once-IsSound db h = recover_all-IsSound (candidates db) db h
