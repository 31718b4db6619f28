-- ===== src/Server/Answers.antt =====
-- handlers.go: what the handlers read of a request and write of a result, without the store.
-- io.Copy(w, io.LimitReader(rc, n)): what is written, and the error
use overlay_s.Base.{
  Bytes, List, Option, [], add64, codes, cut, if◌then◌else◌, index_byte, is_nil, leb_ℤ, length, ltb,
  ltb_ℤ, negsuc, none, pos, quote, some, sub64, take, trim, trim_prefix, wrap32, ℕ, ℤ, ◌++◌, ◌+◌,
  ◌==◌, ◌||◌, ◌∷◌, ◌⊎◌,
}
use overlay_s.Base.Decimal.{format_int, parse_int}
use overlay_s.Base.Exec.{Error, Outcome, eq_not_found, err, ok}
use overlay_s.Protocol.{Request, has}
use overlay_s.Range.{header}
use overlay_s.Server.{
  Answer, HeaderValue, bytes_piece, content_type_or_default, invalid_part, is_invalid_part,
  is_upload_not_found, listing_document, no_such_key, no_such_upload, object_lock_document, quoted,
  s3_err, text, time, versioning_document, xml_answer,
}
use overlay_s.Store.{ByteRange, CompletedPart, ListPage, ListParams, ObjectMeta, Reader}

unfoldable pub copied : Reader → ℤ → Bytes × Option Error
copied rc (negsuc n) = ([], none)
copied rc (pos n) = (take n rc.content, if ltb (length rc.content) n then rc.failure else none)

-- if !meta.LastModified.IsZero()
unfoldable pub last_modified_header : ℕ → List (Bytes × HeaderValue)
last_modified_header t = if t == 0 then [] else (codes "Last-Modified", time t) ∷ []

-- writeObjectHeaders
unfoldable pub object_headers : ObjectMeta → List (Bytes × HeaderValue)
object_headers meta =
    (codes "ETag", text (quoted meta.etag))
      ∷ (codes "Content-Type", text (content_type_or_default meta.content_type))
      ∷ last_modified_header meta.last_modified
    ++ (codes "Accept-Ranges", text (codes "bytes"))
      ∷ (codes "Content-Length", text (format_int meta.size))
      ∷ []

-- if meta.Size > rng.Length { meta.Size = rng.Length }
unfoldable pub clamp : ObjectMeta → ByteRange → ObjectMeta
clamp meta rng = record {
  key = meta.key;
  size = if ltb_ℤ rng.length meta.size then rng.length else meta.size;
  etag = meta.etag;
  last_modified = meta.last_modified;
  content_type = meta.content_type;
}

unfoldable pub content_range_header : ByteRange → ObjectMeta → ℤ → Bytes
content_range_header rng meta total =
    codes "bytes "
    ++ (format_int rng.start
        ++ b'-'
          ∷ (format_int (sub64 (add64 rng.start meta.size) (pos 1)) ++ b'/' ∷ format_int total))

-- The headers, and then as many bytes of the reader as the metadata declares
unfoldable pub object_answer : Option ByteRange → ℤ → Reader → ObjectMeta → Answer
object_answer none total rc meta = (
  record {
    status = 200;
    headers = object_headers meta;
    body = bytes_piece (copied rc meta.size).0 ∷ [];
  },
  (copied rc meta.size).1,
)
object_answer (some rng) total rc meta = (
  record {
    status = 206;
    headers =
        (codes "Content-Range", text (content_range_header rng (clamp meta rng) total))
        ∷ object_headers (clamp meta rng);
    body = bytes_piece (copied rc (clamp meta rng).size).0 ∷ [];
  },
  (copied rc (clamp meta rng).size).1,
)

-- xml.NewDecoder(r.Body).Decode on a completion request, with the text of its error: on a body that is
-- read to its end, and on one that panics behind its bytes, none where the decoder reads that far.
pub record Decoder : Type 0 where
  pub decoded : Reader → Bytes ⊎ List (ℤ × Bytes)
  pub before_panic : Reader → Option (Bytes ⊎ List (ℤ × Bytes))

unfoldable pub decode_body : Decoder → Request → Option (Bytes ⊎ List (ℤ × Bytes))
decode_body d r = if r.panics then d.before_panic r.body else some (d.decoded r.body)

-- The max-keys of a listing; none for an answer InvalidArgument
unfoldable pub max_keys_of : Bytes → Option ℤ
max_keys_of v =
    if is_nil v
    then some (pos 1000)
    else elim (parse_int 10 v) [ none ↦ none | some n ↦ if ltb_ℤ n (pos 0) then none else some n ]

unfoldable pub listing_answer : Bytes → ListParams → ListPage → Answer
listing_answer bucket p page = xml_answer 200 (
    listing_document (record {
      name = bucket;
      prefix = p.prefix;
      delimiter = p.delimiter;
      key_count = length page.objects + length page.common_prefixes;
      max_keys = p.max_keys;
      is_truncated = page.truncated;
      continuation_token = p.after;
      next_continuation_token = if page.truncated then page.next_token else [];
      contents = page.objects;
      common_prefixes = page.common_prefixes;
    }))

-- The bucket and key of X-Amz-Copy-Source; none for an answer InvalidArgument
unfoldable pub named_source : Option (Bytes × Bytes) → Option (Bytes × Bytes)
named_source none = none
named_source (some (bucket, key)) = if is_nil bucket || is_nil key then none else some (bucket, key)

unfoldable pub before_query : Bytes → Option ℕ → Bytes
before_query src none = src
before_query src (some i) = take i src

unfoldable pub copy_source_of : Bytes → Option (Bytes × Bytes)
copy_source_of header =
    let src = trim_prefix header (codes "/") in
    named_source (cut (before_query src (index_byte src b'?')) b'/')

-- The part number of an upload; none for an answer InvalidArgument
unfoldable pub part_number_of : Bytes → Option ℤ
part_number_of v = elim (parse_int 10 v) [
  | none ↦ none
  | some n ↦ if leb_ℤ n (pos 0) then none else some (wrap32 n)
]

abbrev pub invalid_argument : Bytes → Error
invalid_argument what = s3_err 400 (codes "InvalidArgument") what

abbrev pub range_unsatisfiable : Error
range_unsatisfiable =
    s3_err 416 (codes "InvalidRange") (codes "The requested range is not satisfiable")

abbrev pub precondition_failed : Bytes → Error
precondition_failed what = s3_err 412 (codes "PreconditionFailed") what

abbrev pub key_error : Error → Error
key_error e = if eq_not_found e then no_such_key else e

abbrev pub upload_error : Error → Error
upload_error e = if is_upload_not_found e then no_such_upload else e

abbrev pub complete_error : Error → Error
complete_error e =
    if is_upload_not_found e then no_such_upload else if is_invalid_part e then invalid_part else e

-- The parts of a decoded request
unfoldable pub completed_parts : List (ℤ × Bytes) → List CompletedPart
completed_parts [] = []
completed_parts ((n, etag) ∷ ps) =
    record { part_number = wrap32 n; etag = trim etag quote } ∷ completed_parts ps

unfoldable pub bucket_entries : ℕ → List Bytes → List (Bytes × ℕ)
bucket_entries now [] = []
bucket_entries now (n ∷ ns) = (n, now) ∷ bucket_entries now ns

-- handleBucketMeta
unfoldable pub bucket_meta : List (Bytes × Bytes) → Outcome Answer
bucket_meta q =
    if has q (codes "versioning")
    then ok (xml_answer 200 versioning_document)
    else if has q (codes "object-lock")
    then ok (xml_answer 200 object_lock_document)
    else err (s3_err 501 (codes "NotImplemented") (codes "bucket metadata query not supported"))
