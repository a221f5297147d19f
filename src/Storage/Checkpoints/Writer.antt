-- ===== src/Storage/Checkpoints/Writer.antt =====
-- `CheckpointWriter` of src/twin/storage/checkpoints.py. `encode` is what `json.dumps` makes of the
-- manifest of a bot, `put` the `put` of the blob store, none where it raises. The content types are
-- left out.
use fakery.Prelude.{ℕ, ◌-◌, Option, none, some, List, [], ◌∷◌, ◌++◌, Text, length, digits_by}
use fakery.Retention.{recordings_prefix, checkpoints_part, manifest_json, dot_webm}
use fakery.Storage.Checkpoints.{CheckpointChunk}
use fakery.Prelude.{zeros}

pub record CheckpointWriter : Type 0 where
  pub chunks : List CheckpointChunk
  pub manifest_uri : Option Text

abbrev pub new_writer : CheckpointWriter
new_writer = record { chunks = []; manifest_uri = none }

-- `f"{sequence:08d}"`
unfoldable pub eight_digits : ℕ → Text
eight_digits n = let digits = digits_by n n in zeros (8 - length digits) ++ digits

-- The keys' common start.
unfoldable pub folder : Text → Text
folder bot_id = recordings_prefix ++ (bot_id ++ checkpoints_part)

unfoldable pub chunk_key : Text → ℕ → Text
unfolding folder
chunk_key bot_id sequence = folder bot_id ++ (eight_digits sequence ++ dot_webm)

unfoldable pub manifest_key : Text → Text
unfolding folder
manifest_key bot_id = folder bot_id ++ manifest_json

abbrev pub text_or : Option Text → Text
text_or none = []
text_or (some t) = t

abbrev pub chunk_of : (Text → Text) → Text → ℕ → Text → Text → CheckpointChunk
chunk_of sha256 bot_id sequence uri bytes = record {
  sequence = sequence;
  uri = uri;
  key = chunk_key bot_id sequence;
  size = length bytes;
  sha256 = sha256 bytes;
}

module _ {Content : Type 0} (put : Text → Text → Content → Option Text × Content)
    (encode : Text → List CheckpointChunk → Text) (sha256 : Text → Text) (bot_id : Text) where
  -- The second half of `append`: the manifest of all the chunks.
  unfoldable pub put_manifest :
      CheckpointWriter → Content → Option Text × CheckpointWriter × Content
  put_manifest writer content =
      let (uri, content') = put (manifest_key bot_id) (encode bot_id writer.chunks) content in
      elim uri [
        | none ↦ (none, writer, content')
        | some u ↦ (some u, record writer { manifest_uri = some u }, content')
      ]

  -- `append`: what it returns, none where a `put` raised.
  unfoldable pub append :
      Text → CheckpointWriter → Content → Option Text × CheckpointWriter × Content
  append [] writer content = (some (text_or writer.manifest_uri), writer, content)
  append (c ∷ t) writer content =
      let sequence = length writer.chunks in
      let (uri, content') = put (chunk_key bot_id sequence) (c ∷ t) content in
      elim uri [
        | none ↦ (none, writer, content')
        | some u ↦
            put_manifest
              (record writer {
                chunks = writer.chunks ++ chunk_of sha256 bot_id sequence u (c ∷ t) ∷ [];
              })
              content'
      ]
