-- ===== src/Bots/MeetingUrl/Canonical.antt =====
-- `normalize_meeting_url` (src/twin/bots/service.py): the form of what it accepts.
use fakery.Prelude.{
  ℕ, ◌≤◌, ◌∙◌, sym, refl, ap, ◌++◌, ◌==◌, true, false, ◌&&◌, Option, none, some, List, [], ◌∷◌,
  Text, text_eq, text_eq_iff, length, ◌≡◌, arith, Bool-cases, Option-cases, inl, inr,
}
use fakery.Core.Action.{Result, ok, err}
use fakery.Core.Errors.{validation_failed, value_error, twin, make_error}
use fakery.Bots.MeetingUrl.{
  Url, is_meeting_code, accept_parts, normalize_url, normalize_meeting_url, canonical_of, key_of,
  split, cons_first, is_code_parts, all_code_chars, lower, host_of, parts_of, https, meet_host,
}

-- A meeting code, and the texts that it gives.
pub record IsMeeting (url key : Text) : Type 0 where
  pub code : Text
  pub valid : is_meeting_code code ≡ true
  pub canonical : url ≡ canonical_of code
  pub keyed : key ≡ key_of code

accept_parts_shape :
    (ps : List Text) (url key : Text) → accept_parts ps ≡ ok (url, key) → IsMeeting url key
unfolding accept_parts
accept_parts_shape [] url key h = absurd (cc)
accept_parts_shape (p ∷ []) url key h = elim (Bool-cases (is_meeting_code (lower p))) [
  | inl e ↦ record { code = lower p; valid = e; canonical = ground arith; keyed = ground arith }
  | inr e ↦ absurd (ground arith)
]
accept_parts_shape (p ∷ q ∷ ps) url key h = absurd (cc)

normalize_url_shape :
    (u : Url) (url key : Text) → normalize_url u ≡ ok (url, key) → IsMeeting url key
unfolding normalize_url
normalize_url_shape u url key h =
    elim (Bool-cases (text_eq (lower u.scheme) https && text_eq (host_of u) meet_host)) [
      | inl e ↦ accept_parts_shape (parts_of u) url key (rw e at h)
      | inr e ↦ absurd (ground arith)
    ]

-- What is accepted is the canonical URL and the key of one well-formed meeting code.
pub normalize_shape :
    (urlsplit : Text → Option Url) (meeting_url url key : Text)
    → normalize_meeting_url urlsplit meeting_url ≡ ok (url, key)
    → IsMeeting url key
unfolding normalize_meeting_url
normalize_shape urlsplit meeting_url url key h = elim (Option-cases (urlsplit meeting_url)) [
  | inl e ↦ absurd (ground arith)
  | inr (u, e) ↦ normalize_url_shape u url key (ground arith)
]

-- The parts of a text, put together again.
joined_with : ℕ → List Text → Text
joined_with c [] = []
joined_with c (p ∷ []) = p
joined_with c (p ∷ q ∷ ps) = p ++ c ∷ joined_with c (q ∷ ps)

join-cons_first :
    (c x : ℕ) (ps : List Text) → joined_with c (cons_first x ps) ≡ x ∷ joined_with c ps
unfolding joined_with
join-cons_first c x [] = refl
join-cons_first c x (p ∷ []) = refl
join-cons_first c x (p ∷ q ∷ ps) = refl

cons_first_filled :
    (x : ℕ) (ps : List Text) → (q : Text) × (qs : List Text) × (cons_first x ps ≡ q ∷ qs)
cons_first_filled x [] = (x ∷ [], [], refl)
cons_first_filled x (p ∷ ps) = (x ∷ p, ps, refl)

split_filled : (c : ℕ) (t : Text) → (q : Text) × (qs : List Text) × (split c t ≡ q ∷ qs)
split_filled c [] = ([], [], refl)
split_filled c (x ∷ t) = elim (Bool-cases (x == c)) [
  | inl e ↦ rw e ([], split c t, refl)
  | inr e ↦ rw e (cons_first_filled x (split c t))
]

join-split : (c : ℕ) (t : Text) → joined_with c (split c t) ≡ t
unfolding joined_with
join-split c [] = refl
join-split c (x ∷ t) = elim (Bool-cases (x == c)) [
  | inl e ↦
      let (q, qs, filled) = split_filled c t in
      let same : x ≡ c = ground (arith, e) in
      let back : joined_with c (split c t) ≡ t = join-split c t in
      rw (e, filled) (rw same (ap (λ u. c ∷ u) (ap (joined_with c) (sym filled) ∙ back)))
  | inr e ↦ rw e (join-cons_first c x (split c t) ∙ ap (λ u. x ∷ u) (join-split c t))
]

-- A meeting code is three runs of small letters and digits between dashes: three of them, four or
-- more, and three.
pub record IsCode (code : Text) : Type 0 where
  pub first : Text
  pub second : Text
  pub third : Text
  pub whole : code ≡ first ++ b'-' ∷ (second ++ b'-' ∷ third)
  pub lengths : (length first ≡ 3) × (4 ≤ length second) × (length third ≡ 3)
  pub letters :
      (all_code_chars first ≡ true) × (all_code_chars second ≡ true) × (all_code_chars third ≡ true)

parts-IsCode :
    (code : Text) (ps : List Text)
    → joined_with b'-' ps ≡ code
    → is_code_parts ps ≡ true
    → IsCode code
unfolding joined_with
parts-IsCode code [] e h = absurd (cc h)
parts-IsCode code (p ∷ []) e h = absurd (cc h)
parts-IsCode code (p ∷ q ∷ []) e h = absurd (cc h)
parts-IsCode code (p ∷ q ∷ r ∷ []) e h = record {
  first = p;
  second = q;
  third = r;
  whole = sym e;
  lengths = ground (arith, h);
  letters = ground (arith, h);
}
parts-IsCode code (p ∷ q ∷ r ∷ t ∷ ps) e h = absurd (cc h)

is_meeting_code-IsCode : (code : Text) → is_meeting_code code ≡ true → IsCode code
unfolding is_meeting_code
is_meeting_code-IsCode code h = parts-IsCode code (split b'-' code) (join-split b'-' code) h

-- A URL of Meet: HTTPS, the host of Meet, and one part in the path that is a code in lower case.
pub record IsMeetUrl (u : Url) (part : Text) : Type 0 where
  pub secure : lower u.scheme ≡ https
  pub host : host_of u ≡ meet_host
  pub single : parts_of u ≡ part ∷ []
  pub valid : is_meeting_code (lower part) ≡ true

-- What `normalize_meeting_url` may make of a text.
abbrev pub Normalized : Option Url → Result (Text × Text) → Type 0
Normalized none r = r ≡ err value_error
Normalized (some u) (ok (url, key)) =
    (part : Text) × IsMeetUrl u part
    × IsCode (lower part)
    × (url ≡ canonical_of (lower part))
    × (key ≡ key_of (lower part))
Normalized (some u) (err e) =
    (e ≡ twin (make_error validation_failed)) × ((part : Text) → IsMeetUrl u part → true ≡ false)

accept_one :
    (u : Url) (part : Text)
    → lower u.scheme ≡ https
    → host_of u ≡ meet_host
    → parts_of u ≡ part ∷ []
    → Normalized (some u) (accept_parts (part ∷ []))
unfolding accept_parts
accept_one u part secure host single = elim (Bool-cases (is_meeting_code (lower part))) [
  | inl valid ↦ rw valid (
    part,
    record { secure = secure; host = host; single = single; valid = valid },
    is_meeting_code-IsCode (lower part) valid,
    refl,
    refl,
  )
  | inr e ↦ rw e (refl, λ other m. cc (sym single ∙ m.single, m.valid, e))
]

accept_parts-Normalized :
    (u : Url) (ps : List Text)
    → lower u.scheme ≡ https
    → host_of u ≡ meet_host
    → parts_of u ≡ ps
    → Normalized (some u) (accept_parts ps)
unfolding accept_parts
accept_parts-Normalized u [] secure host parts = (refl, λ part m. cc (sym parts ∙ m.single))
accept_parts-Normalized u (p ∷ []) secure host parts = accept_one u p secure host parts
accept_parts-Normalized u (p ∷ q ∷ ps) secure host parts =
    (refl, λ part m. cc (sym parts ∙ m.single))

normalize_url-Normalized : (u : Url) → Normalized (some u) (normalize_url u)
unfolding normalize_url
normalize_url-Normalized u =
    elim (Bool-cases (text_eq (lower u.scheme) https && text_eq (host_of u) meet_host)) [
      | inl e ↦ rw e (
          accept_parts-Normalized u (parts_of u)
            ((text_eq_iff (lower u.scheme) https).0 (ground (arith, e)))
            ((text_eq_iff (host_of u) meet_host).0 (ground (arith, e))) refl)
      | inr e ↦ rw e (
        refl,
        λ part m.
            let secure = (text_eq_iff (lower u.scheme) https).1 m.secure in
            let host = (text_eq_iff (host_of u) meet_host).1 m.host in
            ground (arith, e, secure, host),
      )
    ]

-- Whatever `urlsplit` makes of a text: if nothing, `normalize_meeting_url` raises its `ValueError`.
-- Otherwise it gives the canonical URL and the key of the meeting code exactly if the URL is HTTPS, on
-- the host of Meet, and its path is one well-formed code in any case; every other URL is refused as
-- invalid.
pub normalize_meeting_url-Normalized :
    (urlsplit : Text → Option Url) (meeting_url : Text)
    → Normalized (urlsplit meeting_url) (normalize_meeting_url urlsplit meeting_url)
unfolding normalize_meeting_url
normalize_meeting_url-Normalized urlsplit meeting_url = by_parts (urlsplit meeting_url)
  where
    by_parts :
        (o : Option Url)
        → Normalized o (elim o as (λ x. Result (Text × Text)) [
          | none ↦ err value_error
          | some u ↦ normalize_url u
        ])
    by_parts none = refl
    by_parts (some u) = normalize_url-Normalized u
