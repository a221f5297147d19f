-- ===== src/Prelude/Digits.antt =====
-- The decimal digits of a number, and the number that they stand for.
use mathlib.Core.List.{append_assoc}
use fakery.Prelude.Tests.{Text, if◌then◌else◌, ltb, leb, ltb→lt, Bool-cases}
use fakery.Prelude.Lists.{length, drop}
use Prim.Native.Nat.{ℕ, zero, suc, ◌+◌, ◌-◌, ◌*◌, ◌/◌, ◌%◌, ◌≤◌, ◌<◌}
use mathlib.Core.Path.{◌≡◌, refl, ap, ◌∙◌}
use mathlib.Core.Logic.{inl, inr}
use mathlib.Core.Bool.{◌&&◌}
use mathlib.Core.List.{[], ◌∷◌, ◌++◌}
use native.Mathlib.Omega.{arith}

-- The number itself is fuel enough.
abbrev pub digits_by : ℕ → ℕ → Text
digits_by zero n = (b'0' + n) ∷ []
digits_by (suc fuel) n =
    let front = digits_by fuel (n / 10) in
    if ltb n 10 then (b'0' + n) ∷ [] else front ++ (b'0' + n % 10) ∷ []

-- `k` zeros
abbrev pub zeros : ℕ → Text
zeros zero = []
zeros (suc k) = b'0' ∷ zeros k

-- The number that a text starts with, after `n`.
abbrev pub value_from : ℕ → Text → ℕ
value_from n [] = n
value_from n (c ∷ t) =
    let next = value_from (n * 10 + (c - b'0')) t in if leb b'0' c && leb c b'9' then next else n

digit_read :
    (n c : ℕ) (t : Text)
    → b'0' ≤ c
    → c ≤ b'9'
    → value_from n (c ∷ t) ≡ value_from (n * 10 + (c - b'0')) t
digit_read n c t h k = ground arith

value_from-digit :
    (n d k : ℕ) (t : Text)
    → d < 10
    → k ≡ n * 10 + d
    → value_from n ((b'0' + d) ∷ t) ≡ value_from k t
value_from-digit n d k t h e =
    digit_read n (b'0' + d) t (omega arith) (omega arith) ∙ ap (λ j. value_from j t) (omega arith)

pub value_from-digits_by :
    (fuel n : ℕ) (t : Text) → n ≤ fuel → value_from 0 (digits_by fuel n ++ t) ≡ value_from n t
value_from-digits_by zero n t h = value_from-digit 0 n n t (omega arith) (omega arith)
value_from-digits_by (suc fuel) n t h = elim (Bool-cases (ltb n 10)) [
  | inl small ↦ rw small (value_from-digit 0 n n t (ltb→lt n 10 small) (omega arith))
  | inr big ↦ rw big (
      ap (value_from 0) (append_assoc (digits_by fuel (n / 10)) ((b'0' + n % 10) ∷ []) t)
      ∙ value_from-digits_by fuel (n / 10) ((b'0' + n % 10) ∷ t) (ground arith)
      ∙ value_from-digit (n / 10) (n % 10) n t (omega arith) (omega arith))
]

pub value_from-zeros : (k : ℕ) (t : Text) → value_from 0 (zeros k ++ t) ≡ value_from 0 t
value_from-zeros zero t = refl
value_from-zeros (suc k) t = value_from-zeros k t

pub drop-length-append : (s t : Text) → drop (length s) (s ++ t) ≡ t
drop-length-append [] t = refl
drop-length-append (c ∷ s) t = drop-length-append s t

-- The last character of a text after `c`.
abbrev pub last_of : ℕ → Text → ℕ
last_of c [] = c
last_of c (x ∷ t) = last_of x t

pub last_of-append : (c d : ℕ) (s t : Text) → last_of c (s ++ d ∷ t) ≡ last_of d t
last_of-append c d [] t = refl
last_of-append c d (x ∷ s) t = last_of-append x d s t
