-- ===== src/Bots/MeetingUrl.antt =====
-- `normalize_meeting_url` of src/twin/bots/service.py. What `urllib.parse.urlsplit` makes of a text is
-- a parameter; it is none where `urlsplit` or `hostname` raises `ValueError`.
pub mod Canonical
use fakery.Prelude.{
  ℕ, ◌+◌, Bool, true, false, ◌&&◌, ◌||◌, Option, none, some, List, [], ◌∷◌, ◌++◌, map, Text,
  text_eq, if◌then◌else◌, ◌==◌, leb, length, filter,
}
use fakery.Core.Errors.{validation_failed, value_error, twin, make_error}
use fakery.Core.Action.{Result, ok, err}

pub record Url : Type 0 where
  pub scheme : Text
  pub hostname : Option Text
  pub path : Text

-- `str.lower` on the characters whose lower case is ASCII: the capitals, and the Kelvin sign.
abbrev pub lower_char : ℕ → ℕ
lower_char c = if leb b'A' c && leb c b'Z' then c + 32 else if c == 0x212a then b'k' else c

abbrev pub lower : Text → Text
lower = map lower_char

-- `str.rstrip(c)`
abbrev pub rstrip_cons : ℕ → ℕ → Text → Text
rstrip_cons c x [] = if x == c then [] else x ∷ []
rstrip_cons c x (y ∷ ys) = x ∷ y ∷ ys

abbrev pub rstrip : ℕ → Text → Text
rstrip c [] = []
rstrip c (x ∷ xs) = rstrip_cons c x (rstrip c xs)

-- `str.split(c)`
abbrev pub cons_first : ℕ → List Text → List Text
cons_first x [] = (x ∷ []) ∷ []
cons_first x (p ∷ ps) = (x ∷ p) ∷ ps

abbrev pub split : ℕ → Text → List Text
split c [] = [] ∷ []
split c (x ∷ xs) = if x == c then [] ∷ split c xs else cons_first x (split c xs)

abbrev pub is_filled : Text → Bool
is_filled [] = false
is_filled (c ∷ t) = true

-- `[a-z0-9]`
abbrev pub is_code_char : ℕ → Bool
is_code_char c = (leb b'a' c && leb c b'z') || (leb b'0' c && leb c b'9')

abbrev pub all_code_chars : Text → Bool
all_code_chars [] = true
all_code_chars (c ∷ t) = is_code_char c && all_code_chars t

-- `[a-z0-9]{3}-[a-z0-9]{4,}-[a-z0-9]{3}`: the classes hold no dash, so the parts are those of a split.
abbrev pub is_code_parts : List Text → Bool
is_code_parts (a ∷ b ∷ c ∷ []) =
    (length a == 3 && leb 4 (length b) && length c == 3)
    && (all_code_chars a && all_code_chars b && all_code_chars c)
is_code_parts _ = false

unfoldable pub is_meeting_code : Text → Bool
is_meeting_code code = is_code_parts (split b'-' code)

abbrev pub https : Text
https = b'h' ∷ b't' ∷ b't' ∷ b'p' ∷ b's' ∷ []

abbrev pub meet_host : Text
meet_host =
    b'm' ∷ b'e' ∷ b'e' ∷ b't' ∷ b'.' ∷ b'g' ∷ b'o' ∷ b'o' ∷ b'g' ∷ b'l' ∷ b'e' ∷ b'.' ∷ b'c' ∷ b'o'
    ∷ b'm' ∷ []

-- `f"meet.google.com/{code}"`
abbrev pub key_of : Text → Text
key_of code = meet_host ++ b'/' ∷ code

-- `urlunsplit(("https", "meet.google.com", f"/{code}", "", ""))`
abbrev pub canonical_of : Text → Text
canonical_of code = https ++ b':' ∷ b'/' ∷ b'/' ∷ key_of code

-- `parsed.hostname or ""`
abbrev pub host_of : Url → Text
host_of u = elim u.hostname [ none ↦ [] | some h ↦ rstrip b'.' (lower h) ]

abbrev pub parts_of : Url → List Text
parts_of u = filter is_filled (split b'/' (rstrip b'/' u.path))

abbrev pub refuse : Result (Text × Text)
refuse = err (twin (make_error validation_failed))

-- The single part of a path, in lower case, if it is a meeting code.
unfoldable pub accept_parts : List Text → Result (Text × Text)
unfolding is_meeting_code
accept_parts (part ∷ []) =
    if is_meeting_code (lower part)
    then ok (canonical_of (lower part), key_of (lower part))
    else refuse
accept_parts _ = refuse

unfoldable pub normalize_url : Url → Result (Text × Text)
unfolding accept_parts
normalize_url u =
    if text_eq (lower u.scheme) https && text_eq (host_of u) meet_host
    then accept_parts (parts_of u)
    else refuse

unfoldable pub normalize_meeting_url : (Text → Option Url) → Text → Result (Text × Text)
unfolding normalize_url
normalize_meeting_url urlsplit meeting_url = elim (urlsplit meeting_url) [
  | none ↦ err value_error
  | some u ↦ normalize_url u
]
