-- ===== src/Storage/Checkpoints/RoundTrip.antt =====
-- `CheckpointWriter` against `restore_prefix` (src/twin/storage/checkpoints.py), over a blob store.
use mathlib.Core.List.{append_assoc, append-nil}
use fakery.Prelude.{
  ℕ, ◌+◌, ◌-◌, ◌≤◌, ◌<◌, ◌≡◌, ◌≢◌, ◌∙◌, ap, refl, sym, Bool, true, false, Option, none, some, List,
  [], ◌∷◌, ◌++◌, Text, text_eq_iff, length, arith, digits_by, zeros, value_from,
  value_from-digits_by, value_from-zeros, drop, drop-length-append, last_of, last_of-append,
  some-injective, leb, ◌&&◌, ◌||◌, All, append-All, Bool-cases, inl, inr, ◌==◌,
}
use fakery.Bots.MeetingUrl.{Url, is_filled}
use fakery.Retention.{dot_webm, recordings_prefix, checkpoints_part, manifest_json}
use fakery.Storage.Blob.{put, uri_of}
use fakery.Storage.Checkpoints.{
  CheckpointChunk, key_from_uri, restore_chunks, restore_prefix, lstrip_slash,
}
use fakery.Storage.Checkpoints.Writer.{
  CheckpointWriter, eight_digits, folder, chunk_key, manifest_key, chunk_of, put_manifest, append,
}

eight_digits_value : (n : ℕ) (t : Text) → value_from 0 (eight_digits n ++ t) ≡ value_from n t
unfolding eight_digits
eight_digits_value n t =
    let ds = digits_by n n in
    ap (value_from 0) (append_assoc (zeros (8 - length ds)) ds t)
    ∙ value_from-zeros (8 - length ds) (ds ++ t)
    ∙ value_from-digits_by n n t (omega arith)

after_folder : (bot_id t : Text) → drop (length (folder bot_id)) (folder bot_id ++ t) ≡ t
after_folder bot_id t = drop-length-append (folder bot_id) t

-- Two chunks of a bot have two keys.
pub chunk_key-injective :
    (bot_id : Text) (m n : ℕ) → chunk_key bot_id m ≡ chunk_key bot_id n → m ≡ n
unfolding chunk_key
chunk_key-injective bot_id m n e =
    sym (eight_digits_value m dot_webm)
    ∙ ap (value_from 0) (
        sym (after_folder bot_id (eight_digits m ++ dot_webm))
        ∙ ap (drop (length (folder bot_id))) e
        ∙ after_folder bot_id (eight_digits n ++ dot_webm))
    ∙ eight_digits_value n dot_webm

-- The manifest has a key of its own.
manifest_key-other : (bot_id : Text) (n : ℕ) → manifest_key bot_id ≢ chunk_key bot_id n
unfolding manifest_key chunk_key
manifest_key-other bot_id n e =
    let last : b'n' ≡ b'm' =
      sym (last_of-append 0 b'm' (folder bot_id) _)
      ∙ ap (last_of 0) e
      ∙ ap (last_of 0) (sym (append_assoc (folder bot_id) (eight_digits n) dot_webm))
      ∙ last_of-append 0 b'.' (folder bot_id ++ eight_digits n) _ in
    omega (arith, last)

abbrev pub concat : List Text → Text
concat [] = []
concat (t ∷ ts) = t ++ concat ts

pub concat-append_one : (ts : List Text) (t : Text) → concat (ts ++ t ∷ []) ≡ concat ts ++ t
concat-append_one [] t = append-nil t
concat-append_one (u ∷ ts) t =
    ap (λ x. u ++ x) (concat-append_one ts t) ∙ sym (append_assoc u (concat ts) t)

-- The characters of a key that `urlsplit` leaves in the path as they are: letters, digits, `-`, `.`, `/`
-- and `_`.
abbrev pub is_plain : ℕ → Bool
is_plain c =
    (leb b'-' c && leb c b'9')
    || (leb b'A' c && leb c b'Z')
    || c == b'_'
    || (leb b'a' c && leb c b'z')

abbrev pub IsPlain : Text → Type 0
IsPlain t = All (λ c. is_plain c ≡ true) t

-- What the code relies on: an object that was put is read back, and the other objects stay as they are;
-- `urlsplit` takes the URI of a plain key apart; `json.loads` reads what `json.dumps` wrote.
pub record IsStore {Content : Type 0} (put_object : Text → Text → Content → Bool × Content)
    (get : Text → Content → Option Text) (urlsplit : Text → Option Url)
    (encode : Text → List CheckpointChunk → Text) (decode : Text → Option (List CheckpointChunk))
    (bucket : Text) : Type 0 where
  pub read_back :
      (key bytes : Text) (c : Content)
      → (put_object key bytes c).0 ≡ false
      → get key (put_object key bytes c).1 ≡ some bytes
  pub others :
      (key other bytes : Text) (c : Content)
      → key ≢ other
      → get other (put_object key bytes c).1 ≡ get other c
  pub splits :
      (key : Text)
      → IsPlain key
      → (parsed : Url) × (urlsplit (uri_of bucket key) ≡ some parsed)
        × (is_filled parsed.scheme ≡ true)
        × (parsed.path ≡ b'/' ∷ key)
  pub decodes :
      (bot_id : Text) (chunks : List CheckpointChunk) → decode (encode bot_id chunks) ≡ some chunks

module _ {Content : Type 0} (get : Text → Content → Option Text) (sha256 : Text → Text)
    (bot_id : Text) where
  -- Chunks from the number `n` on, whose bytes the store has.
  abbrev pub Held : ℕ → List CheckpointChunk → List Text → Content → Type 0
  Held n [] [] c = Unit
  Held n (chunk ∷ chunks) (t ∷ ts) c =
      (chunk.key ≡ chunk_key bot_id n)
      × (chunk.sha256 ≡ sha256 t)
      × (get chunk.key c ≡ some t)
      × Held (n + 1) chunks ts c
  Held n _ _ c = ⊥

  Held-append_one :
      (n : ℕ) (chunks : List CheckpointChunk) (ts : List Text) (c : Content)
      (chunk : CheckpointChunk) (t : Text)
      → Held n chunks ts c
      → chunk.key ≡ chunk_key bot_id (n + length chunks)
      → chunk.sha256 ≡ sha256 t
      → get chunk.key c ≡ some t
      → Held n (chunks ++ chunk ∷ []) (ts ++ t ∷ []) c
  Held-append_one n [] [] c chunk t h key digest e =
      (key ∙ ap (chunk_key bot_id) (omega arith), digest, e, tt)
  Held-append_one n [] (u ∷ ts) c chunk t h key digest e = absurd h
  Held-append_one n (d ∷ chunks) [] c chunk t h key digest e = absurd h
  Held-append_one n (d ∷ chunks) (u ∷ ts) c chunk t (key', digest', e', h) key digest e = (
    key',
    digest',
    e',
    Held-append_one (n + 1) chunks ts c chunk t h (key ∙ ap (chunk_key bot_id) (omega arith)) digest
        e,
  )

  -- A store that still has the objects of the chunks.
  Held-later :
      (n : ℕ) (chunks : List CheckpointChunk) (ts : List Text) (c c' : Content)
      → ((k : ℕ)
          → n ≤ k
          → k < n + length chunks
          → get (chunk_key bot_id k) c' ≡ get (chunk_key bot_id k) c)
      → Held n chunks ts c
      → Held n chunks ts c'
  Held-later n [] [] c c' same h = tt
  Held-later n [] (t ∷ ts) c c' same h = absurd h
  Held-later n (chunk ∷ chunks) [] c c' same h = absurd h
  Held-later n (chunk ∷ chunks) (t ∷ ts) c c' same (key, digest, e, h) = (
    key,
    digest,
    ap (λ k. get k c') key ∙ same n (omega arith) (omega arith) ∙ ap (λ k. get k c) (sym key) ∙ e,
    Held-later (n + 1) chunks ts c c' (λ k lo hi. same k (omega (arith, lo)) (omega (arith, hi))) h,
  )

  module _ (urlsplit : Text → Option Url) (decode : Text → Option (List CheckpointChunk)) where
    restore_chunks-Held :
        (n : ℕ) (chunks : List CheckpointChunk) (ts : List Text) (c : Content) (prefix : Text)
        → Held n chunks ts c
        → restore_chunks urlsplit (λ k. get k c) decode sha256 chunks prefix
          ≡ some (prefix ++ concat ts, false)
    unfolding restore_chunks
    restore_chunks-Held n [] [] c prefix h = ap (λ t. some (t, false)) (sym (append-nil prefix))
    restore_chunks-Held n [] (t ∷ ts) c prefix h = absurd h
    restore_chunks-Held n (chunk ∷ chunks) [] c prefix h = absurd h
    restore_chunks-Held n (chunk ∷ chunks) (t ∷ ts) c prefix (key, digest, found, h) = rw found (
        rw digest (
          rw ((text_eq_iff (sha256 t) (sha256 t)).1 refl) (
            restore_chunks-Held (n + 1) chunks ts c (prefix ++ t) h
            ∙ ap (λ x. some (x, false)) (append_assoc prefix t (concat ts)))))

module _ {Content : Type 0} (put_object : Text → Text → Content → Bool × Content)
    (get : Text → Content → Option Text) (urlsplit : Text → Option Url)
    (encode : Text → List CheckpointChunk → Text) (decode : Text → Option (List CheckpointChunk))
    (sha256 : Text → Text) (bucket bot_id : Text) where
  -- The URI of an object is taken back to its key.
  key_from_uri-uri_of :
      (key : Text) (d : ℕ) (t : Text)
      → IsStore put_object get urlsplit encode decode bucket
      → key ≡ d ∷ t
      → (d == b'/') ≡ false
      → IsPlain key
      → (c : Content)
      → key_from_uri urlsplit (λ k. get k c) decode sha256 (uri_of bucket key) ≡ some key
  unfolding key_from_uri
  key_from_uri-uri_of key d t store head other plain c =
      let (parsed, split, scheme, path) = store.splits key plain in
      rw (split, key_from_uri)
        (rw scheme (rw path (ap (λ k. some (lstrip_slash k)) head ∙ rw other (ap some (sym head)))))

  -- The four steps of `restore_prefix`.
  restored :
      (uri key raw prefix : Text) (chunks : List CheckpointChunk) (c : Content)
      → key_from_uri urlsplit (λ k. get k c) decode sha256 uri ≡ some key
      → get key c ≡ some raw
      → decode raw ≡ some chunks
      → restore_chunks urlsplit (λ k. get k c) decode sha256 chunks [] ≡ some (prefix, false)
      → restore_prefix urlsplit (λ k. get k c) decode sha256 uri
        ≡ some (record { prefix = prefix; partial = false; checksum = sha256 prefix })
  unfolding restore_prefix
  restored uri key raw prefix chunks c a b d e = rw (a, restore_prefix) (rw b (rw d (rw e refl)))

  abbrev written : CheckpointWriter → Content → Content
  written writer c = (put_object (manifest_key bot_id) (encode bot_id writer.chunks) c).1

  manifest_key-IsPlain : IsPlain bot_id → IsPlain (manifest_key bot_id)
  unfolding manifest_key folder
  manifest_key-IsPlain plain =
      let P : ℕ → Type 0 = λ c. is_plain c ≡ true in
      append-All P (recordings_prefix ++ (bot_id ++ checkpoints_part)) manifest_json
        (append-All P recordings_prefix (bot_id ++ checkpoints_part)
          (refl, (refl, (refl, (refl, (refl, (refl, (refl, (refl, (refl, (refl, (refl, tt)))))))))))
          (append-All P bot_id checkpoints_part plain (
            refl,
            (
              refl,
              (
                refl,
                (refl, (refl, (refl, (refl, (refl, (refl, (refl, (refl, (refl, (refl, tt)))))))))),
              ),
            ),
          )))
        (
          refl,
          (
            refl,
            (
              refl,
              (refl, (refl, (refl, (refl, (refl, (refl, (refl, (refl, (refl, (refl, tt)))))))))),
            ),
          ),
        )

  manifest_restores :
      (writer : CheckpointWriter) (ts : List Text) (c : Content)
      → IsStore put_object get urlsplit encode decode bucket
      → Held get sha256 bot_id 0 writer.chunks ts c
      → (put_object (manifest_key bot_id) (encode bot_id writer.chunks) c).0 ≡ false
      → IsPlain bot_id
      → Held get sha256 bot_id 0 writer.chunks ts (written writer c)
        × (restore_prefix urlsplit
              (λ k. get k (written writer c))
              decode
              sha256
              (uri_of bucket (manifest_key bot_id))
            ≡ some (record { prefix = concat ts; partial = false; checksum = sha256 (concat ts) }))
  unfolding manifest_key folder
  manifest_restores writer ts c store h good plain =
      let held : Held get sha256 bot_id 0 writer.chunks ts (written writer c) =
        Held-later get sha256 bot_id 0 writer.chunks ts c (written writer c)
          (λ k lo hi.
            store.others (manifest_key bot_id) (chunk_key bot_id k) _ c
              (manifest_key-other bot_id k))
          h in
      (
        held,
        restored _ (manifest_key bot_id) (encode bot_id writer.chunks) (concat ts) writer.chunks
            (written writer c)
            (key_from_uri-uri_of (manifest_key bot_id) _ _ store refl refl
              (manifest_key-IsPlain plain) (written writer c))
            (store.read_back (manifest_key bot_id) (encode bot_id writer.chunks) c good)
            (store.decodes bot_id writer.chunks)
            (restore_chunks-Held get sha256 bot_id urlsplit decode 0 writer.chunks ts
              (written writer c) [] held),
      )

  -- The steps of `append` on bytes: what the first `put` leaves, and the writer with the new chunk.
  abbrev stored : Text → CheckpointWriter → Content → Content
  stored t writer c = (put_object (chunk_key bot_id (length writer.chunks)) t c).1

  abbrev grown : Text → CheckpointWriter → CheckpointWriter
  grown t writer =
      let n = length writer.chunks in
      record writer {
        chunks =
            writer.chunks ++ chunk_of sha256 bot_id n (uri_of bucket (chunk_key bot_id n)) t ∷ [];
      }

  append_ok :
      (x : ℕ) (t : Text) (writer : CheckpointWriter) (c : Content)
      → (put_object (chunk_key bot_id (length writer.chunks)) (x ∷ t) c).0 ≡ false
      → append (put bucket put_object) encode sha256 bot_id (x ∷ t) writer c
        ≡ put_manifest
            (put bucket put_object)
            encode
            sha256
            bot_id
            (grown (x ∷ t) writer)
            (stored (x ∷ t) writer c)
  unfolding append put
  append_ok x t writer c e = rw (e, append) refl

  append_err :
      (x : ℕ) (t : Text) (writer : CheckpointWriter) (c : Content)
      → (put_object (chunk_key bot_id (length writer.chunks)) (x ∷ t) c).0 ≡ true
      → append (put bucket put_object) encode sha256 bot_id (x ∷ t) writer c
        ≡ (none, writer, stored (x ∷ t) writer c)
  unfolding append put
  append_err x t writer c e = rw (e, append) refl

  put_manifest_ok :
      (writer : CheckpointWriter) (c : Content)
      → (put_object (manifest_key bot_id) (encode bot_id writer.chunks) c).0 ≡ false
      → put_manifest (put bucket put_object) encode sha256 bot_id writer c ≡ (
        some (uri_of bucket (manifest_key bot_id)),
        record writer { manifest_uri = some (uri_of bucket (manifest_key bot_id)) },
        written writer c,
      )
  unfolding put_manifest put
  put_manifest_ok writer c e = rw (e, put_manifest) refl

  put_manifest_err :
      (writer : CheckpointWriter) (c : Content)
      → (put_object (manifest_key bot_id) (encode bot_id writer.chunks) c).0 ≡ true
      → put_manifest (put bucket put_object) encode sha256 bot_id writer c
        ≡ (none, writer, written writer c)
  unfolding put_manifest put
  put_manifest_err writer c e = rw (e, put_manifest) refl

  module _ (writer : CheckpointWriter) (ts : List Text) (c : Content)
      (store : IsStore put_object get urlsplit encode decode bucket)
      (h : Held get sha256 bot_id 0 writer.chunks ts c) (plain : IsPlain bot_id) where
    grown-Held :
        (x : ℕ) (t : Text)
        → (put_object (chunk_key bot_id (length writer.chunks)) (x ∷ t) c).0 ≡ false
        → Held get sha256 bot_id 0
            (grown (x ∷ t) writer).chunks
            (ts ++ (x ∷ t) ∷ [])
            (stored (x ∷ t) writer c)
    grown-Held x t good =
        let n = length writer.chunks in
        Held-append_one get sha256 bot_id 0 writer.chunks ts (stored (x ∷ t) writer c) _ (x ∷ t)
          (Held-later get sha256 bot_id 0 writer.chunks ts c (stored (x ∷ t) writer c)
            (λ k lo hi.
              store.others (chunk_key bot_id n) (chunk_key bot_id k) (x ∷ t) c
                (λ e. omega (arith, hi, chunk_key-injective bot_id n k e)))
            h)
          (ap (chunk_key bot_id) (omega arith)) refl
          (store.read_back (chunk_key bot_id n) (x ∷ t) c good)

    -- A writer whose chunks are in the store is given some bytes. If `append` does not raise, then
    -- from the URI that it returns `restore_prefix` gives back the bytes of all the chunks, these
    -- last, and says that nothing is missing.
    pub append_restores :
        (t uri : Text)
        → is_filled t ≡ true
        → (append (put bucket put_object) encode sha256 bot_id t writer c).0 ≡ some uri
        → let (returned, w, c') = append (put bucket put_object) encode sha256 bot_id t writer c in
          Held get sha256 bot_id 0 w.chunks (ts ++ t ∷ []) c'
          × (w.manifest_uri ≡ some uri)
          × (restore_prefix urlsplit (λ k. get k c') decode sha256 uri
              ≡ some (record {
                prefix = concat (ts ++ t ∷ []);
                partial = false;
                checksum = sha256 (concat (ts ++ t ∷ []));
              }))
    append_restores [] uri full e = absurd (cc full)
    append_restores (x ∷ t) uri full e =
        elim (Bool-cases (put_object (chunk_key bot_id (length writer.chunks)) (x ∷ t) c).0) [
          | inl bad ↦ absurd (cc (ap (λ o. o.0) (append_err x t writer c bad), e))
          | inr good ↦
              elim (Bool-cases
                (put_object (manifest_key bot_id) (encode bot_id (grown (x ∷ t) writer).chunks)
                  (stored (x ∷ t) writer c)).0) [
                    | inl bad ↦ absurd (
                        cc (
                          ap (λ o. o.0) (append_ok x t writer c good ∙ put_manifest_err _ _ bad),
                          e,
                        ))
                    | inr fine ↦
                        let all =
                          append_ok x t writer c good
                          ∙ put_manifest_ok (grown (x ∷ t) writer) (stored (x ∷ t) writer c) fine in
                        let same : uri_of bucket (manifest_key bot_id) ≡ uri =
                          some-injective _ _ (sym (ap (λ o. o.0) all) ∙ e) in
                        let (held, restores) =
                          manifest_restores (grown (x ∷ t) writer) (ts ++ (x ∷ t) ∷ [])
                            (stored (x ∷ t) writer c) store (grown-Held x t good) fine plain in
                        rw all (rw (sym same) (held, refl, restores))
                  ]
        ]
