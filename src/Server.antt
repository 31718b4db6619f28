-- ===== src/Server.antt =====
-- handlers.go: the HTTP layer, as a function of a request and the store's world.
-- Values that s3xml.go renders are documents here; times are kept as they are, and the ids that never
-- vary (xmlns, owner, request id, storage class) are added in Server/Xml.
pub mod Answers
pub mod Handlers
pub mod Calls
pub mod Safe
pub mod Served
pub mod Written
pub mod ReadOnly
pub mod Requests
pub mod RoundTrip
pub mod Termination
pub mod Gate
pub mod Markup
pub mod Xml
use overlay_s.Base.{
  Bool, Bytes, List, Option, [], bytes_eq, codes, false, if◌then◌else◌, is_nil, none, quote, some,
  true, ℕ, ℤ, ◌++◌, ◌||◌, ◌∷◌,
}
use overlay_s.Base.Exec.{
  Error, S3Error, api_error, err_invalid_part, err_upload_not_found, is_not_found, s3_error,
  wrapped,
}
use overlay_s.Store.{MultipartInfo, ObjectMeta, PartInfo}

pub data HeaderValue : Type 0 where
  text : Bytes → HeaderValue
  time : ℕ → HeaderValue

-- listBucketResult
pub record ListBucketResult : Type 0 where
  pub name : Bytes
  pub prefix : Bytes
  pub delimiter : Bytes
  pub key_count : ℕ
  pub max_keys : ℤ
  pub is_truncated : Bool
  pub continuation_token : Bytes
  pub next_continuation_token : Bytes
  pub contents : List ObjectMeta
  pub common_prefixes : List Bytes

-- The XML documents, as the handlers fill them in; an error's are its code, message and resource.
pub data Document : Type 0 where
  error_document : Bytes → Bytes → Bytes → Document
  buckets_document : List (Bytes × ℕ) → Document
  location_document versioning_document object_lock_document : Document
  listing_document : ListBucketResult → Document
  copy_document : Bytes → ℕ → Document
  initiate_document : Bytes → Bytes → Bytes → Document
  complete_document : Bytes → Bytes → Bytes → Bytes → Document
  parts_document : Bytes → Bytes → Bytes → List PartInfo → Document
  uploads_document : Bytes → List MultipartInfo → Document

pub data Piece : Type 0 where
  bytes_piece : Bytes → Piece
  document_piece : Document → Piece

-- What has been written to the client, in order
pub record Response : Type 0 where
  pub status : ℕ
  pub headers : List (Bytes × HeaderValue)
  pub body : List Piece

-- A handler's answer, and the error that it returns when the answer has begun
abbrev pub Answer : Type 0
Answer = Response × Option Error

-- writeXML
abbrev pub xml_response : ℕ → Document → Response
xml_response status d = record {
  status = status;
  headers = (codes "Content-Type", text (codes "application/xml")) ∷ [];
  body = document_piece d ∷ [];
}

abbrev pub xml_answer : ℕ → Document → Answer
xml_answer status d = (xml_response status d, none)

-- w.WriteHeader and no body
abbrev pub bare_answer : ℕ → List (Bytes × HeaderValue) → Answer
bare_answer status headers = (record { status = status; headers = headers; body = [] }, none)

abbrev pub s3_err : ℕ → Bytes → Bytes → Error
s3_err status code message = s3_error (record { status = status; code = code; message = message })

abbrev pub no_such_key : Error
no_such_key = s3_err 404 (codes "NoSuchKey") (codes "The specified key does not exist.")

abbrev pub no_such_upload : Error
no_such_upload =
    s3_err 404 (codes "NoSuchUpload") (codes "The specified multipart upload does not exist")

abbrev pub invalid_part : Error
invalid_part =
    s3_err 400 (codes "InvalidPart")
      (codes "One or more of the specified parts could not be found or have the wrong ETag")

-- errors.Is(err, errUploadNotFound)
unfoldable pub is_upload_not_found : Error → Bool
is_upload_not_found err_upload_not_found = true
is_upload_not_found (wrapped e) = is_upload_not_found e
is_upload_not_found _ = false

-- errors.Is(err, errInvalidPart)
unfoldable pub is_invalid_part : Error → Bool
is_invalid_part err_invalid_part = true
is_invalid_part (wrapped e) = is_invalid_part e
is_invalid_part _ = false

-- errors.As(err, &se)
unfoldable pub as_s3_error : Error → Option S3Error
as_s3_error (s3_error e) = some e
as_s3_error (wrapped e) = as_s3_error e
as_s3_error _ = none

-- The switch on ErrorCode
unfoldable pub client_error : Bytes → Bytes → Option S3Error
client_error code message =
    if bytes_eq code (codes "AccessDenied")
    then some (record { status = 403; code = codes "AccessDenied"; message = message })
    else if bytes_eq code (codes "InvalidObjectName")
        || bytes_eq code (codes "XMinioInvalidObjectName")
    then some (record { status = 400; code = codes "InvalidObjectName"; message = message })
    else none

unfoldable pub backend_api_error : Error → Option S3Error
backend_api_error (api_error kind code message) = client_error code message
backend_api_error (wrapped e) = backend_api_error e
backend_api_error _ = none

unfoldable pub no_such_bucket : Error → Error
no_such_bucket e =
    if is_not_found e
    then s3_err 404 (codes "NoSuchBucket") (codes "The specified bucket does not exist")
    else e

abbrev pub quoted : Bytes → Bytes
quoted etag = quote ∷ etag ++ quote ∷ []

-- contentType, with its default
unfoldable pub content_type_or_default : Bytes → Bytes
content_type_or_default ct = if is_nil ct then codes "binary/octet-stream" else ct

-- The status and the document that ServeHTTP answers an error with; `describe` is err.Error().
unfoldable pub error_answer : (Error → Bytes) → Error → ℕ × Document
error_answer describe e = elim (as_s3_error e) [
  | some se ↦ (se.status, error_document se.code se.message [])
  | none ↦ elim (backend_api_error e) [
    | some be ↦ (be.status, error_document be.code be.message [])
    | none ↦ (500, error_document (codes "InternalError") (describe e) [])
  ]
]
