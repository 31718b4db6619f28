-- ===== src/Remote/Holdings.antt =====
-- Objects that a backend holds, as S3 answers for them, and a store that serves them.
use overlay_s.Base.{
  Bytes, Lacks, Option, [], codes, length, none, pos, quote, some, ℕ, ◌++◌, ◌+◌, ◌-◌, ◌<◌, ◌^◌, ◌∷◌,
  ◌≡◌, ◌≤◌,
}
use overlay_s.Base.Decimal.{format_uint}
use overlay_s.Base.Exec.{Error, err, err_not_found, ok}
use overlay_s.Remote.Client.{Client, GetObjectOutput, HeadObjectOutput}
use overlay_s.Remote.Mapped.{Absent}
use overlay_s.Remote.Ranges.{Answers, slice}
use overlay_s.Store.{ByteRange, ObjectMeta, Store}

-- An object that the backend holds
pub record StoredObject : Type 0 where
  pub content : Bytes
  pub etag : Bytes
  pub last_modified : ℕ
  pub content_type : Bytes

-- What a client of the store is told of an object, under its own key and with this many bytes
abbrev pub meta_of : Bytes → StoredObject → ℕ → ObjectMeta
meta_of key v n = record {
  key = key;
  size = pos n;
  etag = v.etag;
  last_modified = v.last_modified;
  content_type = v.content_type;
}

-- S3's headers of an object beside its size: the ETag in quotes, which it has none of itself
pub record Described (v : StoredObject) (etag : Option Bytes) (last_modified : Option ℕ)
    (content_type : Option Bytes) : Type 0 where
  pub tagged : etag ≡ some (quote ∷ v.etag ++ quote ∷ [])
  pub unquoted : Lacks quote v.etag
  pub modified : last_modified ≡ some v.last_modified
  pub typed : content_type ≡ some v.content_type

abbrev pub range_from : ℕ → ℕ → ByteRange
range_from first count = record { start = pos first; length = pos count }

-- The Range header of the bytes from `first` to `last`, as HTTP has it
abbrev pub range_text : ℕ → ℕ → Bytes
range_text first last = codes "bytes=" ++ (format_uint first ++ b'-' ∷ format_uint last)

-- S3's answer to a HEAD of an object
abbrev pub Shown : StoredObject → HeadObjectOutput → Type 0
Shown v out =
    Described v out.etag out.last_modified out.content_type
    × (out.content_length ≡ some (pos (length v.content)))

-- S3's answer to a GET of an object with no range
abbrev pub SentWhole : StoredObject → GetObjectOutput → Type 0
SentWhole v out =
    Described v out.etag out.last_modified out.content_type
    × (out.body ≡ record { content = v.content; failure = none })
    × (out.content_length ≡ some (pos (length v.content)))

-- A range of bytes that the object has
abbrev pub HasRange : StoredObject → ℕ → ℕ → Type 0
HasRange v first count =
    (0 < count) × (first + count ≤ length v.content) × (length v.content < 2 ^ 63)

-- A backend that holds these objects under their physical keys: it sends an object, or a range of it,
-- where a range may be served or ignored, and else answers an error that the SDK has for what is missing.
pub record BackendHolds {W : Type 0} (client : Client W)
    (held : W → Bytes → Bytes → Option StoredObject) : Type 0 where
  pub get_missing :
      (w : W) (b k : Bytes) (range : Option Bytes)
      → held w b k ≡ none
      → (e : Error) × Absent e × ((client.get_object b k range w).0 ≡ err e)
  pub get_whole :
      (w : W) (b k : Bytes) (v : StoredObject)
      → held w b k ≡ some v
      → (out : GetObjectOutput) × ((client.get_object b k none w).0 ≡ ok out) × SentWhole v out
  pub get_range :
      (w : W) (b k : Bytes) (v : StoredObject) (first count : ℕ)
      → held w b k ≡ some v
      → HasRange v first count
      → (out : GetObjectOutput) × ((client.get_object b k
            (some (range_text first (first + count - 1)))
            w).0
          ≡ ok out)
        × Described v out.etag out.last_modified out.content_type
        × Answers v.content first count out
  pub head_missing :
      (w : W) (b k : Bytes)
      → held w b k ≡ none
      → (e : Error) × Absent e × ((client.head_object b k w).0 ≡ err e)
  pub head_shown :
      (w : W) (b k : Bytes) (v : StoredObject)
      → held w b k ≡ some v
      → (out : HeadObjectOutput) × ((client.head_object b k w).0 ≡ ok out) × Shown v out

-- A store that serves these objects: ErrNotFound for what is not there, and else exactly the bytes that
-- were asked for, with their number and the object's ETag, time and content type under its own key.
pub record Serves {W : Type 0} (store : Store W) (holds : W → Bytes → Bytes → Option StoredObject)
    : Type 0 where
  pub get_missing :
      (w : W) (b k : Bytes) (r : Option ByteRange)
      → holds w b k ≡ none
      → (store.get b k r w).0 ≡ err err_not_found
  pub get_whole :
      (w : W) (b k : Bytes) (v : StoredObject)
      → holds w b k ≡ some v
      → (store.get b k none w).0
        ≡ ok (record { content = v.content; failure = none }, meta_of k v (length v.content))
  pub get_range :
      (w : W) (b k : Bytes) (v : StoredObject) (first count : ℕ)
      → holds w b k ≡ some v
      → HasRange v first count
      → (store.get b k (some (range_from first count)) w).0
        ≡ ok (record { content = slice first count v.content; failure = none }, meta_of k v count)
  pub head_missing :
      (w : W) (b k : Bytes) → holds w b k ≡ none → (store.head b k w).0 ≡ err err_not_found
  pub head_shown :
      (w : W) (b k : Bytes) (v : StoredObject)
      → holds w b k ≡ some v
      → (store.head b k w).0 ≡ ok (meta_of k v (length v.content))
