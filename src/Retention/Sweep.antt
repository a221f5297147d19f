-- ===== src/Retention/Sweep.antt =====
-- What a retention sweep (src/twin/retention.py) reports and writes.
use fakery.Prelude.{
  ℕ, ◌+◌, ◌≡◌, ◌∙◌, ap, refl, Bool, true, false, Option, none, some, List, [], ◌∷◌, Text, not, ◌&&◌,
  ◌||◌, leb, count_if, filter, length, ◌⊎◌, Option-cases, Bool-cases, inl, inr, arith,
}
use fakery.Bots.Models.{BotRun, Instant, Db, days}
use fakery.Bots.Repository
use fakery.Bots.Service.Runs.{
  IsSound, IsWellFormed, Updates, save-IsSound, stored-IsWellFormed, get_id,
}
use fakery.Retention.{
  BlobObject, Summary, nothing, Fate, is_kept, would_go, has_failed, is_deleted, is_expired,
  expired, fate, count, deleted_key, sweep, run_for_key, expiry_for_key, expire, mark_expired, run,
  bot_id_from_key,
}

abbrev pub sizes : List BlobObject → ℕ
sizes [] = 0
sizes (o ∷ os) = o.size + sizes os

-- The marks that the removed objects leave, in order.
abbrev pub mark_all : (Text → Db → Db) → List BlobObject → Db → Db
mark_all on_deleted [] db = db
mark_all on_deleted (o ∷ os) db = mark_all on_deleted os (on_deleted o.key db)

module _ (now : Instant) (retention_days : ℕ) (dry_run : Bool) (removes : Text → Bool)
    (expires_at_for_key : Text → Option Instant) where
  -- The object is past the expiry of its run, or where there is none, past the retention.
  abbrev pub is_past : BlobObject → Bool
  is_past o =
      leb (elim (expires_at_for_key o.key) [ some t ↦ t | none ↦ o.modified + days retention_days ])
        now

  abbrev pub is_gone : BlobObject → Bool
  is_gone o = is_past o && not dry_run && removes o.key

  -- What a sweep adds to a summary, and what it makes of the database.
  abbrev pub Accounted : (Text → Db → Db) → List BlobObject → Summary → Db → Summary × Db → Type 0
  Accounted on_deleted os s db (t, db') =
      (t.scanned ≡ s.scanned + length os)
      × (t.kept ≡ s.kept + count_if (λ o. not (is_past o)) os)
      × (t.would_delete ≡ s.would_delete + count_if (λ o. is_past o && dry_run) os)
      × (t.deleted ≡ s.deleted + count_if is_gone os)
      × (t.failed ≡ s.failed + count_if (λ o. is_past o && not dry_run && not (removes o.key)) os)
      × (t.freed_bytes
          ≡ s.freed_bytes + sizes (filter (λ o. is_past o && (dry_run || removes o.key)) os))
      × (db' ≡ mark_all on_deleted (filter is_gone os) db)

  expired_past :
      (o : BlobObject)
      → is_expired now retention_days dry_run removes expires_at_for_key o ≡ is_past o
  unfolding is_expired expired
  expired_past o = elim (Option-cases (expires_at_for_key o.key)) [
    | inl e ↦ ground (arith, e)
    | inr (t, e) ↦ ground (arith, e)
  ]

  abbrev counted : Fate → BlobObject → Summary → Summary
  counted f o s = count now retention_days dry_run removes expires_at_for_key f o s

  abbrev told : (Text → Db → Db) → Fate → BlobObject → Db → Db
  told on_deleted f o db =
      deleted_key now retention_days dry_run removes expires_at_for_key on_deleted f o.key db

  abbrev fated : BlobObject → Fate
  fated o = fate now retention_days dry_run removes expires_at_for_key o

  module _ (on_deleted : Text → Db → Db) (o : BlobObject) (os : List BlobObject) (s : Summary)
      (db : Db) (out : Summary × Db) where
    abbrev Rest : Fate → Type 0
    Rest f = Accounted on_deleted os (counted f o s) (told on_deleted f o db) out

    -- One object that is kept, would go, cannot be removed or is deleted, and then the others.
    kept-Accounted : is_past o ≡ false → Rest is_kept → Accounted on_deleted (o ∷ os) s db out
    unfolding count
    kept-Accounted e (a, b, c, d, f, g, k) = rw e (
      omega (arith, a),
      omega (arith, b),
      omega (arith, c),
      omega (arith, d),
      omega (arith, f),
      omega (arith, g),
      k,
    )

    dry-Accounted :
        is_past o ≡ true → dry_run ≡ true → Rest would_go → Accounted on_deleted (o ∷ os) s db out
    unfolding count
    dry-Accounted e dry (a, b, c, d, f, g, k) = ground (arith, e, dry, a, b, c, d, f, g, k)

    failed-Accounted :
        is_past o ≡ true
        → dry_run ≡ false
        → removes o.key ≡ false
        → Rest has_failed
        → Accounted on_deleted (o ∷ os) s db out
    unfolding count
    failed-Accounted e wet stays (a, b, c, d, f, g, k) =
        ground (arith, e, wet, stays, a, b, c, d, f, g, k)

    deleted-Accounted :
        is_past o ≡ true
        → dry_run ≡ false
        → removes o.key ≡ true
        → Rest is_deleted
        → Accounted on_deleted (o ∷ os) s db out
    unfolding count
    deleted-Accounted e wet goes (a, b, c, d, f, g, k) =
        ground (arith, e, wet, goes, a, b, c, d, f, g, k)

    step-Accounted : Rest (fated o) → Accounted on_deleted (o ∷ os) s db out
    unfolding fate
    step-Accounted h = elim (Bool-cases (is_past o)) [
      | inr e ↦
          kept-Accounted e
            (let same : fated o ≡ is_kept = ground (arith, expired_past o, e) in rw same at h)
      | inl e ↦ elim (Bool-cases dry_run) [
        | inl dry ↦
            dry-Accounted e dry (
              let same : fated o ≡ would_go = ground (arith, expired_past o, e, dry) in
              rw same at h)
        | inr wet ↦ elim (Bool-cases (removes o.key)) [
          | inl goes ↦ deleted-Accounted e wet goes (
              let same : fated o ≡ is_deleted = ground (arith, expired_past o, e, wet, goes) in
              rw same at h)
          | inr stays ↦ failed-Accounted e wet stays (
              let same : fated o ≡ has_failed = ground (arith, expired_past o, e, wet, stays) in
              rw same at h)
        ]
      ]
    ]

  sweep-Accounted :
      (on_deleted : Text → Db → Db) (os : List BlobObject) (s : Summary) (db : Db)
      → Accounted on_deleted os s db
          (sweep now retention_days dry_run removes expires_at_for_key on_deleted os s db)
  unfolding sweep
  sweep-Accounted on_deleted [] s db =
      (omega arith, omega arith, omega arith, omega arith, omega arith, omega arith, refl)
  sweep-Accounted on_deleted (o ∷ os) s db =
      step-Accounted on_deleted o os s db _
        (sweep-Accounted on_deleted os (counted (fated o) o s) (told on_deleted (fated o) o db))

-- A sweep keeps exactly the objects that are not past their time: their run's expiry, or the retention.
-- Of the others, a dry run counts all as what would go; another run counts those that the store removes as
-- deleted and the rest as failed. The freed bytes are the sizes of those that go or would go, and exactly
-- the runs of those that are deleted are marked, in order.
pub run-Accounted :
    (run_of : Text → Option ℕ) (now : Instant) (retention_days : ℕ) (dry_run : Bool)
    (removes : Text → Bool) (os : List BlobObject) (db : Db)
    → Accounted now retention_days dry_run removes
        (expiry_for_key run_of db)
        (mark_expired run_of now)
        os
        nothing
        db
        (run run_of now retention_days dry_run removes os db)
unfolding run
run-Accounted run_of now retention_days dry_run removes os db =
    sweep-Accounted now retention_days dry_run removes (expiry_for_key run_of db)
      (mark_expired run_of now) os nothing db

module _ (now : Instant) (retention_days : ℕ) (removes : Text → Bool)
    (expires_at_for_key : Text → Option Instant) where
  dry_fate :
      (o : BlobObject)
      → (fate now retention_days true removes expires_at_for_key o ≡ is_kept)
        ⊎ (fate now retention_days true removes expires_at_for_key o ≡ would_go)
  unfolding fate
  dry_fate o = elim (Bool-cases (is_expired now retention_days true removes expires_at_for_key o)) [
    | inl e ↦ inr (rw e refl)
    | inr e ↦ inl (rw e refl)
  ]

  sweep_cons :
      (on_deleted : Text → Db → Db) (o : BlobObject) (os : List BlobObject) (s : Summary) (db : Db)
      → let f = fate now retention_days true removes expires_at_for_key o in
        sweep now retention_days true removes expires_at_for_key on_deleted (o ∷ os) s db
        ≡ sweep now retention_days true removes expires_at_for_key on_deleted os
            (count now retention_days true removes expires_at_for_key f o s)
            (deleted_key now retention_days true removes expires_at_for_key on_deleted f o.key db)
  unfolding sweep
  sweep_cons on_deleted o os s db = refl

  sweep_nil :
      (on_deleted : Text → Db → Db) (s : Summary) (db : Db)
      → sweep now retention_days true removes expires_at_for_key on_deleted [] s db ≡ (s, db)
  unfolding sweep
  sweep_nil on_deleted s db = refl

  dry_sweep :
      (on_deleted : Text → Db → Db) (os : List BlobObject) (s : Summary) (db : Db)
      → let (t, db') =
          sweep now retention_days true removes expires_at_for_key on_deleted os s db in
        (t.deleted ≡ s.deleted) × (t.failed ≡ s.failed) × (db' ≡ db)
  unfolding count
  dry_sweep on_deleted [] s db = rw (sweep_nil on_deleted s db) (refl, refl, refl)
  dry_sweep on_deleted (o ∷ os) s db = elim (dry_fate o) [
    | inl e ↦ rw (sweep_cons on_deleted o os s db, e) (dry_sweep on_deleted os _ db)
    | inr e ↦ rw (sweep_cons on_deleted o os s db, e) (dry_sweep on_deleted os _ db)
  ]

-- A dry run removes nothing and writes nothing.
pub dry_run_lem :
    (run_of : Text → Option ℕ) (now : Instant) (retention_days : ℕ) (removes : Text → Bool)
    (os : List BlobObject) (db : Db)
    → let (t, db') = run run_of now retention_days true removes os db in
      (t.deleted ≡ 0) × (t.failed ≡ 0) × (db' ≡ db)
unfolding run
dry_run_lem run_of now retention_days removes os db =
    dry_sweep now retention_days removes (expiry_for_key run_of db) (mark_expired run_of now) os
      nothing db

module _ (run_of : Text → Option ℕ) (now : Instant) where
  expire-Updates : (key : Text) (r : BotRun) → Updates r (expire run_of key r)
  unfolding expire
  expire-Updates key r = record {
    same_id = ground arith;
    same_key = ground arith;
    same_token = ground arith;
    no_revival = ground arith;
  }

  expire-IsWellFormed :
      (key : Text) (r : BotRun) → IsWellFormed r → IsWellFormed (expire run_of key r)
  unfolding expire
  expire-IsWellFormed key r w = ground (arith, w.left, w.reason, w.admitted)

  pub mark_missing :
      (key : Text) (db : Db)
      → run_for_key run_of key db ≡ none
      → mark_expired run_of now key db ≡ db
  unfolding mark_expired
  mark_missing key db e = ground (arith, e)

  pub mark_found :
      (key : Text) (r : BotRun) (db : Db)
      → run_for_key run_of key db ≡ some r
      → mark_expired run_of now key db ≡ Repository.save now (expire run_of key r) db
  unfolding mark_expired
  mark_found key r db e = ground (arith, e)

  pub found_run :
      (key : Text) (r : BotRun) (db : Db)
      → run_for_key run_of key db ≡ some r
      → (k : ℕ) × (Repository.get k db ≡ some r)
  found_run key r db e = elim (Option-cases (bot_id_from_key key)) [
    | inl no_text ↦ absurd (ground (arith, no_text))
    | inr (text, has_text) ↦ elim (Option-cases (run_of text)) [
      | inl no_run ↦ absurd (ground (arith, has_text, no_run))
      | inr (k, has_run) ↦ (k, ground (arith, has_text, has_run))
    ]
  ]

  mark_expired-IsSound :
      (key : Text) (db : Db) → IsSound db → IsSound (mark_expired run_of now key db)
  mark_expired-IsSound key db h = elim (Option-cases (run_for_key run_of key db)) [
    | inl e ↦ rw (mark_missing key db e) h
    | inr (r, e) ↦
        let (k, stored) = found_run key r db e in
        rw (mark_found key r db e) (
          save-IsSound now r (expire run_of key r) db (expire-Updates key r)
            (ap (λ j. Repository.get j db) ((expire-Updates key r).same_id ∙ get_id k r db stored)
              ∙ stored)
            (expire-IsWellFormed key r (stored-IsWellFormed k r db stored h)) h)
  ]

  module _ (retention_days : ℕ) (dry_run : Bool) (removes : Text → Bool)
      (expires_at_for_key : Text → Option Instant) where
    deleted_key-IsSound :
        (f : Fate) (key : Text) (db : Db)
        → IsSound db
        → IsSound (
            deleted_key now retention_days dry_run removes expires_at_for_key
              (mark_expired run_of now)
              f
              key
              db)
    deleted_key-IsSound is_kept key db h = h
    deleted_key-IsSound would_go key db h = h
    deleted_key-IsSound has_failed key db h = h
    deleted_key-IsSound is_deleted key db h = mark_expired-IsSound key db h

    sweep-IsSound :
        (os : List BlobObject) (s : Summary) (db : Db)
        → IsSound db
        → IsSound
            (sweep now retention_days dry_run removes expires_at_for_key
              (mark_expired run_of now)
              os
              s
              db).1
    unfolding sweep
    sweep-IsSound [] s db h = h
    sweep-IsSound (o ∷ os) s db h = sweep-IsSound os _ _ (deleted_key-IsSound _ o.key db h)

  -- Whatever is removed and marked, the table of runs stays sound.
  pub run-IsSound :
      (retention_days : ℕ) (dry_run : Bool) (removes : Text → Bool) (os : List BlobObject) (db : Db)
      → IsSound db
      → IsSound (run run_of now retention_days dry_run removes os db).1
  unfolding run
  run-IsSound retention_days dry_run removes os db h =
      sweep-IsSound retention_days dry_run removes (expiry_for_key run_of db) os nothing db h
