-- ===== src/Meet/Vocabulary.antt =====
-- The words by which src/twin/meet/join_flow.py knows a page, and what it asks of the page.
use Prim.Native.String.{String}
use fakery.Prelude.{
  Bool, false, ◌&&◌, ◌||◌, Option, none, some, List, [], ◌∷◌, Text, text_eq, if◌then◌else◌, ◌==◌,
  any, find?,
}
use fakery.Bots.MeetingUrl.{lower}

pub record Vocabulary : Type 0 where
  pub join : List String
  pub tooltip : List String
  pub dismiss : List String
  pub gate : List String
  pub waiting : List String
  pub leave : List String
  pub ends : List String

abbrev pub indonesian : Vocabulary
indonesian = record {
  join = "Minta bergabung" ∷ "Gabung sekarang" ∷ [];
  tooltip = "Mengerti" ∷ [];
  dismiss = "Jangan sekarang" ∷ [];
  gate = "tidak dapat bergabung" ∷ "tidak bisa bergabung" ∷ [];
  waiting =
      "menunggu seseorang" ∷ "permintaan untuk bergabung" ∷ "minta bergabung" ∷ "menunggu diizinkan"
      ∷ "menunggu untuk bergabung" ∷ [];
  leave = "tutup panggilan" ∷ "tinggalkan" ∷ "keluar" ∷ "akhiri" ∷ [];
  ends = "telah berakhir" ∷ "menakhiri" ∷ "kamu dikeluarkan" ∷ [];
}

abbrev pub english : Vocabulary
english = record {
  join = "Ask to join" ∷ "Join now" ∷ [];
  tooltip = "Got it" ∷ [];
  dismiss = "Not now" ∷ [];
  gate = "can't join" ∷ [];
  waiting =
      "waiting for someone" ∷ "asking to join" ∷ "request to join" ∷ "waiting to be admitted"
      ∷ "waiting for approval" ∷ "waiting for permission" ∷ [];
  leave = "leave" ∷ "end call" ∷ [];
  ends = "meeting ended" ∷ "you were removed" ∷ "call ended" ∷ [];
}

abbrev pub waiting_markers : List String
waiting_markers = "waiting" ∷ "menunggu" ∷ []

abbrev pub waiting_phrases : List String
waiting_phrases =
    "asking to be let in" ∷ "let you in" ∷ "lets you in" ∷ "wait until a meeting host" ∷ []

abbrev pub admission_markers : List String
admission_markers =
    "approval" ∷ "admitted" ∷ "permission" ∷ "request" ∷ "join" ∷ "izin" ∷ "bergabung"
    ∷ "permintaan" ∷ []

-- A page as one look sees it. The document's language is none where `evaluate` raised. A control is
-- there where its locator counts one and is visible, a text where it is visible; not where either
-- raised. The body says which texts are in its casefolded text, none where `inner_text` raised.
pub record Page : Type 0 where
  pub lang : Option Text
  pub has_button : String → Bool
  pub has_label : String → Bool
  pub shows : String → Bool
  pub body_has : Option (String → Bool)

-- `split("-")[0]`
abbrev pub before_dash : Text → Text
before_dash [] = []
before_dash (c ∷ t) = if c == b'-' then [] else c ∷ before_dash t

-- `_vocabulary`
unfoldable pub vocabulary : Page → Vocabulary
vocabulary page = elim page.lang [
  | none ↦ english
  | some lang ↦
      if text_eq (lower (before_dash lang)) (b'i' ∷ b'd' ∷ []) then indonesian else english
]

-- `first_visible` of src/twin/meet/humanize.py, of the locators of some words.
abbrev pub first_visible : (String → Bool) → List String → Option String
first_visible is_there words = find? is_there words

-- `_leave_button`
unfoldable pub leave_button : Page → Option String
leave_button page = first_visible page.has_label (vocabulary page).leave

-- `_gate_visible`; a gate's text is never empty.
unfoldable pub gate_visible : Page → Option String
gate_visible page = find? page.shows (vocabulary page).gate

unfoldable pub waiting_visible : Page → Bool
waiting_visible page = any page.shows (vocabulary page).waiting || elim page.body_has [
  | none ↦ false
  | some has ↦ any has waiting_phrases || (any has waiting_markers && any has admission_markers)
]
