-- ===== src/Store.antt =====
-- store.go: the data that stores exchange, and the interface `Store`.
-- A store acts on a world `W`; a call returns an outcome and the world that it leaves. Nil pointers
-- stand for absent values, and `*ObjectMeta` is never nil beside a nil error.
use overlay_s.Base.{Bool, Bytes, List, Option, [], false, ℕ, ℤ}
use overlay_s.Base.Exec.{Error, Exec}

-- A body that is read: the bytes that come, and then end of file (`none`) or an error.
pub record Reader : Type 0 where
  pub content : Bytes
  pub failure : Option Error

-- Times are counted from Go's zero time, so `IsZero` is 0.
pub record ObjectMeta : Type 0 where
  pub key : Bytes
  pub size : ℤ
  pub etag : Bytes
  pub last_modified : ℕ
  pub content_type : Bytes

pub record ByteRange : Type 0 where
  pub start : ℤ
  pub length : ℤ

pub record CompletedPart : Type 0 where
  pub part_number : ℤ
  pub etag : Bytes

pub record PartInfo : Type 0 where
  pub part_number : ℤ
  pub etag : Bytes
  pub size : ℤ
  pub last_modified : ℕ

pub record MultipartInfo : Type 0 where
  pub key : Bytes
  pub upload_id : Bytes
  pub initiated : ℕ

pub record ListParams : Type 0 where
  pub prefix : Bytes
  pub delimiter : Bytes
  pub after : Bytes
  pub max_keys : ℤ

pub record ListPage : Type 0 where
  pub objects : List ObjectMeta
  pub common_prefixes : List Bytes
  pub truncated : Bool
  pub next_token : Bytes

-- ListPage{}
abbrev pub empty_page : ListPage
empty_page = record { objects = []; common_prefixes = []; truncated = false; next_token = [] }

pub record Store (W : Type 0) : Type 0 where
  pub get : Bytes → Bytes → Option ByteRange → Exec W (Reader × ObjectMeta)
  pub head : Bytes → Bytes → Exec W ObjectMeta
  pub put : Bytes → Bytes → Reader → Bytes → Exec W ObjectMeta
  pub list_page : Bytes → ListParams → Exec W ListPage
  pub list_buckets : Exec W (List Bytes)
  pub bucket_exists : Bytes → Exec W Bool
  pub create_bucket : Bytes → Exec W (Unit {0})
  pub initiate_multipart : Bytes → Bytes → Bytes → Exec W Bytes
  pub upload_part : Bytes → Bytes → Bytes → ℤ → Reader → Exec W Bytes
  pub complete_multipart : Bytes → Bytes → Bytes → List CompletedPart → Exec W ObjectMeta
  pub abort_multipart : Bytes → Bytes → Bytes → Exec W (Unit {0})
  pub list_parts : Bytes → Bytes → Bytes → Exec W (List PartInfo)
  pub list_multipart_uploads : Bytes → Exec W (List MultipartInfo)
