-- ===== src/Remote/Client.antt =====
-- The calls of the AWS SDK's client that remote.go makes, with the fields that it reads and sets.
-- A field that is a nil pointer is `none`.
use overlay_s.Base.{Bool, Bytes, List, Option, [], false, none, pos, quote, some, trim, ℕ, ℤ}
use overlay_s.Base.Exec.{Exec}
use overlay_s.Store.{CompletedPart, Reader}

pub record GetObjectOutput : Type 0 where
  pub body : Reader
  pub content_length : Option ℤ
  pub content_range : Option Bytes
  pub content_type : Option Bytes
  pub etag : Option Bytes
  pub last_modified : Option ℕ

pub record HeadObjectOutput : Type 0 where
  pub content_length : Option ℤ
  pub content_type : Option Bytes
  pub etag : Option Bytes
  pub last_modified : Option ℕ

pub record ListObjectsInput : Type 0 where
  pub bucket : Bytes
  pub prefix : Bytes
  pub delimiter : Option Bytes
  pub continuation_token : Option Bytes
  pub max_keys : Option ℤ

pub record ListedObject : Type 0 where
  pub key : Option Bytes
  pub size : Option ℤ
  pub etag : Option Bytes
  pub last_modified : Option ℕ

pub record ListObjectsOutput : Type 0 where
  pub contents : List ListedObject
  pub common_prefixes : List (Option Bytes)
  pub is_truncated : Option Bool
  pub next_continuation_token : Option Bytes

pub record ListedPart : Type 0 where
  pub part_number : Option ℤ
  pub etag : Option Bytes
  pub size : Option ℤ
  pub last_modified : Option ℕ

pub record ListPartsOutput : Type 0 where
  pub parts : List ListedPart
  pub is_truncated : Option Bool
  pub next_part_number_marker : Option Bytes

pub record ListedUpload : Type 0 where
  pub key : Option Bytes
  pub upload_id : Option Bytes
  pub initiated : Option ℕ

pub record ListUploadsOutput : Type 0 where
  pub uploads : List ListedUpload
  pub is_truncated : Option Bool
  pub next_key_marker : Option Bytes
  pub next_upload_id_marker : Option Bytes

pub record Client (W : Type 0) : Type 0 where
  pub get_object : Bytes → Bytes → Option Bytes → Exec W GetObjectOutput
  pub head_object : Bytes → Bytes → Exec W HeadObjectOutput
  pub put_object : Bytes → Bytes → Bytes → Option Bytes → Exec W (Option Bytes)
  pub list_objects_v2 : ListObjectsInput → Exec W ListObjectsOutput
  pub list_buckets : Exec W (List (Option Bytes))
  pub head_bucket : Bytes → Exec W (Unit {0})
  pub create_bucket : Bytes → Exec W (Unit {0})
  pub create_multipart_upload : Bytes → Bytes → Bytes → Exec W (Option Bytes)
  pub upload_part : Bytes → Bytes → Bytes → ℤ → Bytes → Exec W (Option Bytes)
  pub complete_multipart_upload : Bytes → Bytes → Bytes → List CompletedPart → Exec W (Option Bytes)
  pub abort_multipart_upload : Bytes → Bytes → Bytes → Exec W (Unit {0})
  pub list_parts : Bytes → Bytes → Bytes → Option Bytes → Exec W ListPartsOutput
  pub list_multipart_uploads :
      Bytes → Bytes → Option Bytes → Option Bytes → Exec W ListUploadsOutput

-- aws.ToString, aws.ToInt64, aws.ToTime and aws.ToBool
abbrev pub to_string : Option Bytes → Bytes
to_string none = []
to_string (some s) = s

abbrev pub to_int : Option ℤ → ℤ
to_int none = pos 0
to_int (some n) = n

abbrev pub to_time : Option ℕ → ℕ
to_time none = 0
to_time (some t) = t

abbrev pub to_bool : Option Bool → Bool
to_bool none = false
to_bool (some b) = b

-- strings.Trim(aws.ToString(etag), `"`)
abbrev pub bare_etag : Option Bytes → Bytes
bare_etag etag = trim (to_string etag) quote
