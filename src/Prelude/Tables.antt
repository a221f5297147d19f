-- ===== src/Prelude/Tables.antt =====
-- Laws of the tables of `Lists`: what a replaced row changes, and what holds of all rows.
use Prim.Native.Nat.{ℕ, zero, suc}
use mathlib.Core.Path.{◌≡◌, refl, subst}
use mathlib.Core.Logic.{inl, inr}
use mathlib.Core.Bool.{Bool, true, false}
use mathlib.Core.List.{List, [], ◌∷◌, ◌++◌}
use mathlib.Core.Option.{none, some}
use native.Mathlib.Omega.{arith}
use fakery.Prelude.Tests.{if◌then◌else◌, ◌==◌, is_some, Bool-cases}
use fakery.Prelude.Lists.{All, find_row, put_row, any, filter, insert_by, sort_by, take}

module _ {ℓ} {A : Type ℓ} (key : A → ℕ) where
  -- A replaced row is the new one under its key, if there was one, and the old one elsewhere.
  pub find_row-put_row :
      (k : ℕ) (a : A) (xs : List A)
      → find_row key k (put_row key a xs) ≡ (
          if key a == k
          then (if is_some (find_row key k xs) then some a else none)
          else find_row key k xs)
  unfolding find_row put_row
  find_row-put_row k a [] = ground arith
  find_row-put_row k a (x ∷ xs) = ground (arith, find_row-put_row k a xs)

  -- Rows that lack the key are left alone.
  pub put_row-absent :
      (a : A) (xs : List A) → All (λ x. key x ≡ key a → ⊥) xs → put_row key a xs ≡ xs
  unfolding put_row
  put_row-absent a [] h = refl
  put_row-absent a (x ∷ xs) h = ground (arith, put_row-absent a xs h.1)

  pub find_row_key : (k : ℕ) (a : A) (xs : List A) → find_row key k xs ≡ some a → key a ≡ k
  unfolding find_row
  find_row_key k a [] h = cc
  find_row_key k a (x ∷ xs) h = ground (arith, find_row_key k a xs)

module _ {ℓ κ} {A : Type ℓ} (key : A → ℕ) (P : A → Type κ) where
  pub put_row-All : (a : A) (xs : List A) → P a → All P xs → All P (put_row key a xs)
  unfolding put_row
  put_row-All a [] h all = tt
  put_row-All a (x ∷ xs) h all = ground (arith, put_row-All a xs h all.1)

  pub find_row-All : (k : ℕ) (a : A) (xs : List A) → All P xs → find_row key k xs ≡ some a → P a
  unfolding find_row
  find_row-All k a [] all h = cc
  find_row-All k a (x ∷ xs) all h = elim (Bool-cases (key x == k)) [
    | inl e ↦ subst P (ground arith) all.0
    | inr e ↦ find_row-All k a xs all.1 (rw e at h)
  ]

module _ {ℓ κ} {A : Type ℓ} (P : A → Type κ) where
  pub append-All : (xs ys : List A) → All P xs → All P ys → All P (xs ++ ys)
  append-All [] ys h k = k
  append-All (x ∷ xs) ys h k = (h.0, append-All xs ys h.1 k)

  pub filter-All : (p : A → Bool) (xs : List A) → All P xs → All P (filter p xs)
  filter-All p [] h = tt
  filter-All p (x ∷ xs) h = elim (Bool-cases (p x)) [
    | inl e ↦ rw e (h.0, filter-All p xs h.1)
    | inr e ↦ rw e (filter-All p xs h.1)
  ]

module _ {ℓ} {A : Type ℓ} (p : A → Bool) where
  pub any-eq_false : (xs : List A) → any p xs ≡ false → All (λ x. p x ≡ false) xs
  any-eq_false [] h = tt
  any-eq_false (x ∷ xs) h = ground (arith, any-eq_false xs)

  -- Every row that is kept passes the test.
  pub filter-passes : (xs : List A) → All (λ x. p x ≡ true) (filter p xs)
  filter-passes [] = tt
  filter-passes (x ∷ xs) = elim (Bool-cases (p x)) [
    | inl e ↦ rw e (e, filter-passes xs)
    | inr e ↦ rw e (filter-passes xs)
  ]

module _ {ℓ κ} {A : Type ℓ} (le : A → A → Bool) (P : A → Type κ) where
  pub insert_by-All : (a : A) (xs : List A) → P a → All P xs → All P (insert_by le a xs)
  unfolding insert_by
  insert_by-All a [] h all = (h, tt)
  insert_by-All a (x ∷ xs) h all = elim (Bool-cases (le a x)) [
    | inl e ↦ rw e (h, all)
    | inr e ↦ rw e (all.0, insert_by-All a xs h all.1)
  ]

  -- Sorting keeps what holds of each row.
  pub sort_by-All : (xs : List A) → All P xs → All P (sort_by le xs)
  unfolding sort_by
  sort_by-All [] all = tt
  sort_by-All (x ∷ xs) all = insert_by-All x (sort_by le xs) all.0 (sort_by-All xs all.1)

module _ {ℓ κ} {A : Type ℓ} (P : A → Type κ) where
  pub take-All : (n : ℕ) (xs : List A) → All P xs → All P (take n xs)
  take-All zero xs all = tt
  take-All (suc n) [] all = tt
  take-All (suc n) (x ∷ xs) all = (all.0, take-All n xs all.1)

pub All-map {ℓ κ μ} :
    {A : Type ℓ} {P : A → Type κ} {Q : A → Type μ} (xs : List A)
    → ((a : A) → P a → Q a)
    → All P xs
    → All Q xs
All-map [] f h = tt
All-map (x ∷ xs) f h = (f x h.0, All-map xs f h.1)
