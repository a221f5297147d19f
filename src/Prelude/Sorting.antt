-- ===== src/Prelude/Sorting.antt =====
-- Laws of the insertion sort of `Lists`, for an order that is total and transitive.
use Prim.Native.Nat.{ℕ, zero, suc, ◌≤◌}
use mathlib.Core.Path.{◌≡◌, refl, ap, ◌∙◌}
use mathlib.Core.Logic.{inl, inr}
use mathlib.Core.Bool.{Bool, true, false, not}
use mathlib.Core.List.{List, [], ◌∷◌, ◌++◌}
use native.Mathlib.Omega.{arith}
use fakery.Prelude.Tests.{if◌then◌else◌, Bool-cases}
use fakery.Prelude.Lists.{All, filter, insert_by, sort_by, length, take}
use fakery.Prelude.Tables.{insert_by-All, sort_by-All, filter-All, filter-passes, All-map}

module _ {ℓ κ} {A : Type ℓ} (R : A → A → Type κ) where
  -- Each element is related to every later one.
  abbrev pub Pairwise : List A → Type κ
  Pairwise [] = Unit
  Pairwise (x ∷ xs) = All (R x) xs × Pairwise xs

  insert_by-Pairwise :
      (le : A → A → Bool) (a : A) (xs : List A)
      → ((x y : A) → R x y → R y x)
      → All (R a) xs
      → Pairwise xs
      → Pairwise (insert_by le a xs)
  unfolding insert_by
  insert_by-Pairwise le a [] comm h p = (tt, tt)
  insert_by-Pairwise le a (x ∷ xs) comm h p = elim (Bool-cases (le a x)) [
    | inl e ↦ rw e (h, p)
    | inr e ↦
        rw e
          (insert_by-All le (R x) a xs (comm a x h.0) p.0, insert_by-Pairwise le a xs comm h.1 p.1)
  ]

  -- Sorting keeps a relation that does not depend on the order.
  pub sort_by-Pairwise :
      (le : A → A → Bool) (xs : List A)
      → ((x y : A) → R x y → R y x)
      → Pairwise xs
      → Pairwise (sort_by le xs)
  unfolding sort_by
  sort_by-Pairwise le [] comm p = tt
  sort_by-Pairwise le (x ∷ xs) comm p =
      insert_by-Pairwise le x (sort_by le xs) comm (sort_by-All le (R x) xs p.0)
        (sort_by-Pairwise le xs comm p.1)

  -- The elements around a place in the list.
  pub append-Pairwise :
      (xs : List A) (a : A) (ys : List A)
      → Pairwise (xs ++ a ∷ ys)
      → All (λ x. R x a) xs × All (R a) ys
  append-Pairwise [] a ys p = (tt, p.0)
  append-Pairwise (x ∷ xs) a ys p =
      let (before, after) = append-Pairwise xs a ys p.1 in
      ((at_place (R x) xs a ys p.0, before), after)
    where
      at_place : (P : A → Type κ) (xs : List A) (a : A) (ys : List A) → All P (xs ++ a ∷ ys) → P a
      at_place P [] a ys h = h.0
      at_place P (x ∷ xs) a ys h = at_place P xs a ys h.1

module _ {ℓ} {A : Type ℓ} (le : A → A → Bool) where
  abbrev pub IsSorted : List A → Type 0
  IsSorted xs = Pairwise (λ x y. le x y ≡ true) xs

  module _ (total : (x y : A) → le x y ≡ false → le y x ≡ true)
      (trans : (x y z : A) → le x y ≡ true → le y z ≡ true → le x z ≡ true) where
    above :
        (a x : A) (xs : List A)
        → le a x ≡ true
        → All (λ y. le x y ≡ true) xs
        → All (λ y. le a y ≡ true) xs
    above a x [] h all = tt
    above a x (y ∷ ys) h all = (trans a x y h all.0, above a x ys h all.1)

    insert_by-IsSorted : (a : A) (xs : List A) → IsSorted xs → IsSorted (insert_by le a xs)
    unfolding insert_by
    insert_by-IsSorted a [] p = (tt, tt)
    insert_by-IsSorted a (x ∷ xs) p = elim (Bool-cases (le a x)) [
      | inl e ↦ rw e ((e, above a x xs e p.0), p)
      | inr e ↦ rw e (
        insert_by-All le (λ y. le x y ≡ true) a xs (total a x e) p.0,
        insert_by-IsSorted a xs p.1,
      )
    ]

    pub sort_by-IsSorted : (xs : List A) → IsSorted (sort_by le xs)
    unfolding sort_by
    sort_by-IsSorted [] = tt
    sort_by-IsSorted (x ∷ xs) = insert_by-IsSorted x (sort_by le xs) (sort_by-IsSorted xs)

    insert_front : (a : A) (xs : List A) → All (λ y. le a y ≡ true) xs → insert_by le a xs ≡ a ∷ xs
    unfolding insert_by
    insert_front a [] h = refl
    insert_front a (x ∷ xs) h = rw h.0 refl

    filter-insert_by :
        (p : A → Bool) (a : A) (xs : List A)
        → IsSorted xs
        → filter p (insert_by le a xs) ≡ (if p a then insert_by le a (filter p xs) else filter p xs)
    unfolding insert_by
    filter-insert_by p a [] s = ground arith
    filter-insert_by p a (x ∷ xs) s = elim (Bool-cases (le a x)) [
      | inl e ↦
          let front : insert_by le a (filter p (x ∷ xs)) ≡ a ∷ filter p (x ∷ xs) =
            insert_front a (filter p (x ∷ xs))
              (filter-All (λ y. le a y ≡ true) p (x ∷ xs) (e, above a x xs e s.0)) in
          elim (Bool-cases (p a)) [
            | inl pa ↦ rw (e, pa) (ground (arith, pa, front))
            | inr pa ↦ rw (e, pa) (ground (arith, pa))
          ]
      | inr e ↦ ground (arith, e, filter-insert_by p a xs s.1)
    ]

    -- It makes no difference whether rows are filtered before they are sorted or afterwards.
    pub filter-sort_by :
        (p : A → Bool) (xs : List A) → filter p (sort_by le xs) ≡ sort_by le (filter p xs)
    unfolding sort_by
    filter-sort_by p [] = refl
    filter-sort_by p (x ∷ xs) =
        filter-insert_by p x (sort_by le xs) (sort_by-IsSorted xs)
        ∙ ground (arith, filter-sort_by p xs)

module _ {ℓ} {A : Type ℓ} (le : A → A → Bool) where
  insert_by-before :
      (a : A) (xs ys : List A)
      → All (λ y. le a y ≡ true) ys
      → insert_by le a (xs ++ ys) ≡ insert_by le a xs ++ ys
  unfolding insert_by
  insert_by-before a [] [] h = refl
  insert_by-before a [] (y ∷ ys) h = rw h.0 refl
  insert_by-before a (x ∷ xs) ys h = ground (arith, insert_by-before a xs ys h)

  insert_by-after :
      (a : A) (xs ys : List A)
      → All (λ x. le a x ≡ false) xs
      → insert_by le a (xs ++ ys) ≡ xs ++ insert_by le a ys
  unfolding insert_by
  insert_by-after a [] ys h = refl
  insert_by-after a (x ∷ xs) ys h = rw h.0 (ap (λ l. x ∷ l) (insert_by-after a xs ys h.1))

  -- The elements that stand before one that need not be in the list.
  abbrev pub is_earlier : A → A → Bool
  is_earlier pivot x = not (le pivot x)

  module _ (total : (x y : A) → le x y ≡ false → le y x ≡ true)
      (trans : (x y z : A) → le x y ≡ true → le y z ≡ true → le x z ≡ true) (pivot : A) where
    earlier_first : (x y : A) → le pivot x ≡ false → le pivot y ≡ true → le x y ≡ true
    earlier_first x y h k = trans x pivot y (total pivot x h) k

    later_last : (x y : A) → le pivot x ≡ false → le pivot y ≡ true → le y x ≡ false
    later_last x y h k = elim (Bool-cases (le y x)) [
      | inr e ↦ e
      | inl e ↦ absurd (cc (trans pivot y x k e, h))
    ]

    -- A list is sorted by sorting what stands before an element, and then the rest.
    pub sort_by-split :
        (xs : List A)
        → sort_by le xs
          ≡ sort_by le (filter (is_earlier pivot) xs) ++ sort_by le (filter (le pivot) xs)
    unfolding sort_by
    sort_by-split [] = refl
    sort_by-split (x ∷ xs) = elim (Bool-cases (le pivot x)) [
      | inl late ↦
          rw (late, sort_by-split xs)
            (insert_by-after x (sort_by le (filter (is_earlier pivot) xs))
              (sort_by le (filter (le pivot) xs))
              (sort_by-All le (λ y. le x y ≡ false) _
                (All-map (filter (is_earlier pivot) xs)
                  (λ y h. later_last y x (not_true (le pivot y) h) late)
                  (filter-passes (is_earlier pivot) xs))))
      | inr early ↦
          rw (early, sort_by-split xs)
            (insert_by-before x (sort_by le (filter (is_earlier pivot) xs))
              (sort_by le (filter (le pivot) xs))
              (sort_by-All le (λ y. le x y ≡ true) _
                (All-map (filter (le pivot) xs) (λ y h. earlier_first x y early h)
                  (filter-passes (le pivot) xs))))
    ]
      where
        not_true : (b : Bool) → not b ≡ true → b ≡ false
        not_true true h = absurd (cc h)
        not_true false h = refl

  insert_by-length : (a : A) (xs : List A) → length (insert_by le a xs) ≡ suc (length xs)
  unfolding insert_by
  insert_by-length a [] = refl
  insert_by-length a (x ∷ xs) = ground (arith, insert_by-length a xs)

  pub length-sort_by : (xs : List A) → length (sort_by le xs) ≡ length xs
  unfolding sort_by
  length-sort_by [] = refl
  length-sort_by (x ∷ xs) = insert_by-length x (sort_by le xs) ∙ ap suc (length-sort_by xs)

pub take-append_long {ℓ} :
    {A : Type ℓ} (n : ℕ) (xs ys : List A) → n ≤ length xs → take n (xs ++ ys) ≡ take n xs
take-append_long zero xs ys h = refl
take-append_long (suc n) [] ys h = absurd (omega (arith, h))
take-append_long (suc n) (x ∷ xs) ys h =
    ap (λ l. x ∷ l) (take-append_long n xs ys (omega (arith, h)))

module _ {ℓ} {A : Type ℓ} (p : A → Bool) where
  pub filter_none : (xs : List A) → All (λ x. p x ≡ false) xs → filter p xs ≡ []
  filter_none [] h = refl
  filter_none (x ∷ xs) h = rw h.0 (filter_none xs h.1)

  pub filter_all : (xs : List A) → All (λ x. p x ≡ true) xs → filter p xs ≡ xs
  filter_all [] h = refl
  filter_all (x ∷ xs) h = rw h.0 (ap (λ l. x ∷ l) (filter_all xs h.1))

  pub filter-append : (xs ys : List A) → filter p (xs ++ ys) ≡ filter p xs ++ filter p ys
  filter-append [] ys = refl
  filter-append (x ∷ xs) ys = ground (arith, filter-append xs ys)
