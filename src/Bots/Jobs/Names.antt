-- ===== src/Bots/Jobs/Names.antt =====
-- The name of a Kubernetes job (src/twin/bots/jobs.py) is a label that Kubernetes takes.
use fakery.Prelude.{
  ℕ, zero, suc, ◌≤◌, ◌≡◌, ◌≢◌, refl, true, [], ◌∷◌, ◌++◌, Text, map, All, take-All, length, take,
  last_of, ◌==◌, Bool-cases, inl, inr, arith,
}
use fakery.Bots.MeetingUrl.{rstrip, rstrip_cons}
use fakery.Bots.Jobs.{
  bot_job_name, job_name_prefix, job_max_name, slug_char, is_slug_char, lstrip_dash,
}

abbrev IsSlug : Text → Type 0
IsSlug t = All (λ c. is_slug_char c ≡ true) t

rstrip_cons-IsSlug :
    (c x : ℕ) (t : Text) → is_slug_char x ≡ true → IsSlug t → IsSlug (rstrip_cons c x t)
rstrip_cons-IsSlug c x [] h all = elim (Bool-cases (x == c)) [
  | inl e ↦ rw e tt
  | inr e ↦ rw e (h, tt)
]
rstrip_cons-IsSlug c x (y ∷ ys) h all = (h, all)

rstrip-IsSlug : (c : ℕ) (t : Text) → IsSlug t → IsSlug (rstrip c t)
rstrip-IsSlug c [] h = tt
rstrip-IsSlug c (x ∷ t) h = rstrip_cons-IsSlug c x (rstrip c t) h.0 (rstrip-IsSlug c t h.1)

lstrip_dash-IsSlug : (t : Text) → IsSlug t → IsSlug (lstrip_dash t)
lstrip_dash-IsSlug [] h = tt
lstrip_dash-IsSlug (c ∷ t) h = elim (Bool-cases (c == b'-')) [
  | inl e ↦ rw e (lstrip_dash-IsSlug t h.1)
  | inr e ↦ rw e h
]

IsSlug-map : (t : Text) → IsSlug (map slug_char t)
IsSlug-map [] = tt
IsSlug-map (c ∷ t) =
    (elim (Bool-cases (is_slug_char c)) [ inl e ↦ rw e e | inr e ↦ rw e refl ], IsSlug-map t)

length-rstrip_cons : (c x : ℕ) (t : Text) → length (rstrip_cons c x t) ≤ suc (length t)
length-rstrip_cons c x [] = ground arith
length-rstrip_cons c x (y ∷ ys) = omega arith

length-rstrip : (c : ℕ) (t : Text) → length (rstrip c t) ≤ length t
length-rstrip c [] = omega arith
length-rstrip c (x ∷ t) = omega (arith, length-rstrip_cons c x (rstrip c t), length-rstrip c t)

length-take : (n : ℕ) (t : Text) → length (take n t) ≤ n
length-take zero t = omega arith
length-take (suc n) [] = omega arith
length-take (suc n) (c ∷ t) = omega (arith, length-take n t)

rstrip_cons_last :
    (c d x : ℕ) (t : Text)
    → d ≢ c
    → ((e : ℕ) → e ≢ c → last_of e t ≢ c)
    → last_of d (rstrip_cons c x t) ≢ c
rstrip_cons_last c d x [] h ends = elim (Bool-cases (x == c)) [
  | inl e ↦ rw e h
  | inr e ↦ rw e (λ same. ground (arith, same, e))
]
rstrip_cons_last c d x (y ∷ ys) h ends = ends d h

rstrip_last : (c d : ℕ) (t : Text) → d ≢ c → last_of d (rstrip c t) ≢ c
rstrip_last c d [] h = h
rstrip_last c d (x ∷ t) h = rstrip_cons_last c d x (rstrip c t) h (λ e k. rstrip_last c e t k)

-- A label: at most 63 characters, of which each is a small letter, a digit or a dash; it starts with
-- `botrun` and does not end with a dash.
pub record IsLabel (t : Text) : Type 0 where
  pub fits : length t ≤ 63
  pub slug : All (λ c. is_slug_char c ≡ true) t
  pub starts : take 6 t ≡ job_name_prefix
  pub ends : last_of 0 t ≢ b'-'

keeps_prefix :
    (t : Text)
    → take 6 (
        rstrip_cons b'-' b'b' (
          rstrip_cons b'-' b'o' (
            rstrip_cons b'-' b't'
              (rstrip_cons b'-' b'r' (rstrip_cons b'-' b'u' (rstrip_cons b'-' b'n' t))))))
      ≡ job_name_prefix
keeps_prefix [] = refl
keeps_prefix (c ∷ t) = refl

module _ (lower : Text → Text) where
  -- Whatever the run's identifier, the name of its job is such a label.
  pub bot_job_name-IsLabel : (bot_id : Text) → IsLabel (bot_job_name lower bot_id)
  unfolding bot_job_name
  bot_job_name-IsLabel bot_id =
      let slug = rstrip b'-' (lstrip_dash (map slug_char (lower bot_id))) in
      let whole = job_name_prefix ++ b'-' ∷ slug in
      let is_slug : IsSlug slug =
        rstrip-IsSlug b'-' _ (lstrip_dash-IsSlug _ (IsSlug-map (lower bot_id))) in
      record {
        fits =
            omega
              (arith, length-rstrip b'-' (take job_max_name whole), length-take job_max_name whole);
        slug = rstrip-IsSlug b'-' (take job_max_name whole) (
            take-All (λ c. is_slug_char c ≡ true) job_max_name whole
              (refl, (refl, (refl, (refl, (refl, (refl, (refl, is_slug))))))));
        starts = keeps_prefix _;
        ends = rstrip_last b'-' 0 (take job_max_name whole) (λ e. omega (arith, e));
      }
