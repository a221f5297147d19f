-- ===== src/Storage/Blob.antt =====
-- `MinioBlobStore` of src/twin/storage/blob.py. `put_object` is the client's, on the bucket's
-- content: it says whether it raised.
use fakery.Prelude.{Bool, Option, none, some, ◌∷◌, ◌++◌, Text, if◌then◌else◌}

-- `f"s3://{self._bucket}/{key}"`
unfoldable pub uri_of : Text → Text → Text
uri_of bucket key = (b's' ∷ b'3' ∷ b':' ∷ b'/' ∷ b'/' ∷ bucket) ++ b'/' ∷ key

-- `put`: the object's URI, none where the client raised.
unfoldable pub put :
    {Content : Type 0}
    → Text
    → (Text → Text → Content → Bool × Content)
    → Text
    → Text
    → Content
    → Option Text × Content
put bucket put_object key bytes content =
    let (raised, content') = put_object key bytes content in
    (if raised then none else some (uri_of bucket key), content')
