-- ===== src/Storage/Checkpoints.antt =====
-- `restore_prefix` of src/twin/storage/checkpoints.py. `fetch` is what `blob.get` gives for a key, none
-- where it raises; `decode` what `json.loads` makes of a manifest, none where it raises; `sha256` the
-- digest in hexadecimal; `urlsplit` as for meeting URLs.
pub mod Writer
pub mod RoundTrip
use fakery.Prelude.{
  ℕ, Bool, true, false, Option, none, some, List, [], ◌∷◌, ◌++◌, Text, text_eq, if◌then◌else◌, ◌==◌,
}
use fakery.Bots.MeetingUrl.{Url, is_filled}

pub record CheckpointChunk : Type 0 where
  pub sequence : ℕ
  pub uri : Text
  pub key : Text
  pub size : ℕ
  pub sha256 : Text

-- `str.lstrip("/")`
abbrev pub lstrip_slash : Text → Text
lstrip_slash [] = []
lstrip_slash (c ∷ t) = if c == b'/' then lstrip_slash t else c ∷ t

-- A recording that is put together again, and whether a chunk was left out.
pub record Restored : Type 0 where
  pub prefix : Text
  pub partial : Bool
  pub checksum : Text

module _ (urlsplit : Text → Option Url) (fetch : Text → Option Text)
    (decode : Text → Option (List CheckpointChunk)) (sha256 : Text → Text) where
  -- `_key_from_uri`
  unfoldable pub key_from_uri : Text → Option Text
  key_from_uri uri = elim (urlsplit uri) [
    | none ↦ none
    | some parsed ↦
        some (if is_filled parsed.scheme then lstrip_slash parsed.path else lstrip_slash uri)
  ]

  -- The chunks up to the first whose digest is wrong, and whether there was one.
  unfoldable pub restore_chunks : List CheckpointChunk → Text → Option (Text × Bool)
  restore_chunks [] prefix = some (prefix, false)
  restore_chunks (chunk ∷ chunks) prefix = elim (fetch chunk.key) [
    | none ↦ none
    | some bytes ↦
        if text_eq (sha256 bytes) chunk.sha256
        then restore_chunks chunks (prefix ++ bytes)
        else some (prefix, true)
  ]

  unfoldable pub restore_prefix : Text → Option Restored
  restore_prefix manifest_uri = do
    key ← key_from_uri manifest_uri
    raw ← fetch key
    chunks ← decode raw
    restored ← restore_chunks chunks []
    some (record { prefix = restored.0; partial = restored.1; checksum = sha256 restored.0 })
    where
      infixl 5 ◌>>=◌
      ◌>>=◌ : {A B : Type 0} → Option A → (A → Option B) → Option B
      ◌>>=◌ none f = none
      ◌>>=◌ (some a) f = f a
