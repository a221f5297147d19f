-- ===== src/Bots/Service/Artifacts/Pages.antt =====
-- `list_runs` (src/twin/bots/service.py): what a client reads that follows the cursors.
use mathlib.Core.List.{append_assoc}
use mathlib.Core.Path.{subst}
use fakery.Prelude.{
  ℕ, zero, suc, ◌+◌, ◌≤◌, ◌<◌, ◌≡◌, ◌≢◌, ◌∙◌, refl, sym, ap, arith, true, false, Option, none, some,
  List, [], ◌∷◌, ◌++◌, leb, length, length-append, take, get_elem?, filter, sort_by, find_row, All,
  All-map, Pairwise, append-Pairwise, sort_by-Pairwise, sort_by-All, sort_by-IsSorted,
  filter-sort_by, filter_none, filter_all, filter-append, Bool-cases, inl, inr,
}
use fakery.Bots.Models.{BotRun, Db}
use fakery.Bots.Repository
use fakery.Bots.Repository.{precedes, is_below, below_cursor, anchor_of}
use fakery.Bots.Service.Runs.{IsSound, NoClash}
use fakery.Bots.Service.Artifacts.{list_runs}

-- The pages that follow a cursor, one after the other, at most so many.
unfoldable pub pages : ℕ → ℕ → Option ℕ → Db → List BotRun
pages zero limit cursor db = []
pages (suc n) limit cursor db =
    let (rows, next) = list_runs limit cursor db in
    elim next [ none ↦ rows | some c ↦ rows ++ pages n limit (some c) db ]

abbrev Apart : BotRun → BotRun → Type 0
Apart a b = a.id ≢ b.id

precedes_total : (a b : BotRun) → precedes a b ≡ false → precedes b a ≡ true
precedes_total a b h = ground arith

precedes_trans : (a b c : BotRun) → precedes a b ≡ true → precedes b c ≡ true → precedes a c ≡ true
precedes_trans a b c h k = ground arith

not_below : (a r : BotRun) → precedes r a ≡ true → is_below a r ≡ false
not_below a r h = ground arith

below : (a r : BotRun) → precedes a r ≡ true → Apart a r → is_below a r ≡ true
below a r h k = ground arith

apart : (a b : BotRun) → Repository.clashes a b ≡ false → Apart a b
apart a b h = ground arith

NoClash-Apart : (xs : List BotRun) → NoClash xs → Pairwise Apart xs
NoClash-Apart [] h = tt
NoClash-Apart (x ∷ xs) h = (All-map xs (λ r k. apart x r k) h.0, NoClash-Apart xs h.1)

abbrev key : BotRun → ℕ
key r = r.id

found_behind :
    (x : BotRun) (ys zs : List BotRun)
    → All (Apart x) zs
    → All (λ r. find_row key r.id ys ≡ some r) zs
    → All (λ r. find_row key r.id (x ∷ ys) ≡ some r) zs
unfolding find_row
found_behind x ys [] h k = tt
found_behind x ys (z ∷ zs) h k = (ground (arith, h.0, k.0), found_behind x ys zs h.1 k.1)

-- Under unique keys each row is what its key finds.
all_found : (xs : List BotRun) → Pairwise Apart xs → All (λ r. find_row key r.id xs ≡ some r) xs
unfolding find_row
all_found [] h = tt
all_found (x ∷ xs) h = (ground arith, found_behind x xs xs h.0 (all_found xs h.1))

stored_rows :
    (db : Db) → Pairwise Apart db.bots → All (λ r. Repository.get r.id db ≡ some r) db.bots
unfolding Repository.get
stored_rows db h = all_found db.bots h

-- In the sorted list the rows below one are those behind it.
filter-below :
    (xs : List BotRun) (a : BotRun) (ys : List BotRun)
    → Pairwise (λ x y. precedes x y ≡ true) (xs ++ a ∷ ys)
    → Pairwise Apart (xs ++ a ∷ ys)
    → filter (is_below a) (xs ++ a ∷ ys) ≡ ys
filter-below xs a ys s d =
    let (before, after) = append-Pairwise (λ x y. precedes x y ≡ true) xs a ys s in
    let (_, others) = append-Pairwise Apart xs a ys d in
    let itself : is_below a a ≡ false = ground arith in
    filter-append (is_below a) xs (a ∷ ys)
    ∙ rw (filter_none (is_below a) xs (All-map xs (λ r h. not_below a r h) before), itself)
        (filter_all (is_below a) ys (all_below ys after others))
  where
    all_below :
        (zs : List BotRun)
        → All (λ y. precedes a y ≡ true) zs
        → All (Apart a) zs
        → All (λ r. is_below a r ≡ true) zs
    all_below [] h k = tt
    all_below (z ∷ zs) h k = (below a z h.0 k.0, all_below zs h.1 k.1)

-- A list that is longer than a page: the page, its last row, and the rest.
split_page :
    (m : ℕ) (rows : List BotRun)
    → m < length rows
    → (front : List BotRun) × (b : BotRun) × (back : List BotRun) × (rows ≡ front ++ b ∷ back)
      × (take (suc m) rows ≡ front ++ b ∷ [])
      × (get_elem? (take (suc (suc m)) rows) m ≡ some b)
split_page m [] h = absurd (omega (arith, h))
split_page zero (r ∷ rows) h = ([], r, rows, refl, refl, refl)
split_page (suc m) (r ∷ rows) h =
    let (front, b, back, e, t, g) = split_page m rows (omega (arith, h)) in
    (r ∷ front, b, back, ap (λ l. r ∷ l) e, ap (λ l. r ∷ l) t, g)

take_short : (n : ℕ) (rows : List BotRun) → length rows ≤ n → take n rows ≡ rows
take_short zero [] h = refl
take_short (suc n) [] h = refl
take_short zero (r ∷ rows) h = absurd (omega (arith, h))
take_short (suc n) (r ∷ rows) h = ap (λ l. r ∷ l) (take_short n rows (omega (arith, h)))

length-take_more :
    (n : ℕ) (rows : List BotRun) → n < length rows → leb (length (take (suc n) rows)) n ≡ false
length-take_more n [] h = absurd (omega (arith, h))
length-take_more zero (r ∷ rows) h = ground arith
length-take_more (suc n) (r ∷ rows) h = ground (arith, length-take_more n rows (omega (arith, h)))

take-take :
    (m : ℕ) (rows : List BotRun) → take (suc m) (take (suc (suc m)) rows) ≡ take (suc m) rows
take-take m [] = refl
take-take zero (r ∷ rows) = refl
take-take (suc m) (r ∷ rows) = ap (λ l. r ∷ l) (take-take m rows)

-- The rows that a cursor leaves.
abbrev rest_of : Option ℕ → Db → List BotRun
rest_of cursor db = sort_by precedes (filter (below_cursor (anchor_of cursor db)) db.bots)

take_page : (m : ℕ) (rows : List BotRun) → take (suc m + 1) rows ≡ take (suc (suc m)) rows
take_page m rows = let e : suc m + 1 ≡ suc (suc m) = omega arith in ap (λ n. take n rows) e

module _ (m : ℕ) (cursor : Option ℕ) (db : Db) where
  last_page :
      (rows : List BotRun)
      → rest_of cursor db ≡ rows
      → length rows ≤ suc m
      → list_runs (suc m) cursor db ≡ (rows, none)
  unfolding list_runs Repository.list_runs
  last_page rows e h =
      let all : take (suc m + 1) (rest_of cursor db) ≡ rows =
        ap (take (suc m + 1)) e ∙ take_short (suc m + 1) rows (omega (arith, h)) in
      rw all (ground (arith, h))

  full_page :
      (rows : List BotRun) (front : List BotRun) (b : BotRun)
      → rest_of cursor db ≡ rows
      → suc m < length rows
      → take (suc m) rows ≡ front ++ b ∷ []
      → get_elem? (take (suc (suc m)) rows) m ≡ some b
      → list_runs (suc m) cursor db ≡ (front ++ b ∷ [], some b.id)
  unfolding list_runs Repository.list_runs
  full_page rows front b e h t g =
      let all : take (suc m + 1) (rest_of cursor db) ≡ take (suc (suc m)) rows =
        ap (take (suc m + 1)) e ∙ take_page m rows in
      rw all
        (rw (length-take_more (suc m) rows h, g) (ap (λ l. (l, some b.id)) (take-take m rows ∙ t)))

shorter :
    (front : List BotRun) (b : BotRun) (back rest : List BotRun) (n : ℕ)
    → rest ≡ front ++ b ∷ back
    → length rest < suc n
    → length back < n
shorter front b back rest n e h =
    let l : length rest ≡ length front + suc (length back) =
      ap length e ∙ length-append front (b ∷ back) in
    omega (arith, l, h)

module _ (db : Db) (sound : IsSound db) where
  abbrev all_runs : List BotRun
  all_runs = sort_by precedes db.bots

  all_runs-Apart : Pairwise Apart all_runs
  all_runs-Apart =
      sort_by-Pairwise Apart precedes db.bots (λ x y h e. h (sym e))
        (NoClash-Apart db.bots sound.unique)

  stored_behind :
      (xs : List BotRun) (b : BotRun) (ys : List BotRun)
      → All (λ r. Repository.get r.id db ≡ some r) (xs ++ b ∷ ys)
      → Repository.get b.id db ≡ some b
  stored_behind [] b ys h = h.0
  stored_behind (x ∷ xs) b ys h = stored_behind xs b ys h.1

  -- Behind a cursor are the rows that stand behind its run in the whole listing.
  anchor_found : (b : BotRun) → Repository.get b.id db ≡ some b → anchor_of (some b.id) db ≡ some b
  unfolding anchor_of
  anchor_found b e = e

  rest_behind :
      (xs : List BotRun) (b : BotRun) (ys : List BotRun)
      → all_runs ≡ xs ++ b ∷ ys
      → rest_of (some b.id) db ≡ ys
  rest_behind xs b ys e =
      let found = stored_behind xs b ys (
        subst (All (λ r. Repository.get r.id db ≡ some r)) e
          (sort_by-All precedes _ db.bots (stored_rows db (NoClash-Apart db.bots sound.unique)))) in
      rw (anchor_found b found) (
        sym (filter-sort_by precedes precedes_total precedes_trans (is_below b) db.bots)
        ∙ ap (filter (is_below b)) e
        ∙ filter-below xs b ys
            (subst (Pairwise (λ x y. precedes x y ≡ true)) e
              (sort_by-IsSorted precedes precedes_total precedes_trans db.bots))
            (subst (Pairwise Apart) e all_runs-Apart))

  pages_last :
      (m n : ℕ) (cursor : Option ℕ) (rows : List BotRun)
      → list_runs (suc m) cursor db ≡ (rows, none)
      → pages (suc n) (suc m) cursor db ≡ rows
  unfolding pages
  pages_last m n cursor rows e = ground (arith, e)

  pages_more :
      (m n c : ℕ) (cursor : Option ℕ) (rows : List BotRun)
      → list_runs (suc m) cursor db ≡ (rows, some c)
      → pages (suc n) (suc m) cursor db ≡ rows ++ pages n (suc m) (some c) db
  unfolding pages
  pages_more m n c cursor rows e = ground (arith, e)

  pages_from :
      (m n : ℕ) (cursor : Option ℕ) (seen rest : List BotRun)
      → all_runs ≡ seen ++ rest
      → rest_of cursor db ≡ rest
      → length rest < n
      → pages n (suc m) cursor db ≡ rest
  pages_from m zero cursor seen rest e here enough = absurd (omega (arith, enough))
  pages_from m (suc n) cursor seen rest e here enough =
      elim (Bool-cases (leb (length rest) (suc m))) [
        | inl short ↦
            pages_last m n cursor rest (last_page m cursor db rest here (ground (arith, short)))
        | inr long ↦
            let more : suc m < length rest = ground (arith, long) in
            let (front, b, back, split, page, last) = split_page m rest (omega (arith, more)) in
            let place : all_runs ≡ (seen ++ front) ++ b ∷ back =
              e ∙ ap (λ l. seen ++ l) split ∙ sym (append_assoc seen front (b ∷ back)) in
            let fewer : length back < n = shorter front b back rest n split enough in
            pages_more m n b.id cursor (front ++ b ∷ [])
              (full_page m cursor db rest front b here more page last)
            ∙ ap (λ l. (front ++ b ∷ []) ++ l)
                (pages_from m n (some b.id) ((seen ++ front) ++ b ∷ []) back
                  (place ∙ sym (append_assoc (seen ++ front) (b ∷ []) back))
                  (rest_behind (seen ++ front) b back place) fewer)
            ∙ append_assoc front (b ∷ []) back
            ∙ sym split
      ]

-- In a sound table of runs, a client that starts without a cursor and follows the cursor of each page
-- until there is none reads exactly the whole listing, newest first: every run once and in order,
-- whatever the size of a page is, if it is not zero.
pub list_runs_pages :
    (limit n : ℕ) (db : Db)
    → IsSound db
    → 1 ≤ limit
    → length (sort_by precedes db.bots) < n
    → pages n limit none db ≡ sort_by precedes db.bots
unfolding anchor_of
list_runs_pages zero n db sound h enough = absurd (omega (arith, h))
list_runs_pages (suc m) n db sound h enough =
    pages_from db sound m n none [] (sort_by precedes db.bots) refl
      (ap (sort_by precedes) (filter_all (λ r. true) db.bots (always db.bots))) enough
  where
    always : (xs : List BotRun) → All (λ r. true ≡ true) xs
    always [] = tt
    always (x ∷ xs) = (refl, always xs)
