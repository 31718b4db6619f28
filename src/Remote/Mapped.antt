-- ===== src/Remote/Mapped.antt =====
-- remote.go, s3Store as a store.
use overlay_s.Base.{Bytes, Option, none, refl, some, true, ℕ, ◌≡◌}
use overlay_s.Base.Exec.{
  Error, Outcome, api_error, err, ok, sdk_no_such_bucket, sdk_no_such_key, sdk_not_found, wrapped,
}
use overlay_s.Remote.Calls.{is_missing, s3_create_bucket, s3_get, s3_head, s3_put}
use overlay_s.Remote.Client.{Client}
use overlay_s.Remote.KeyMap.{Mapping}
use overlay_s.Remote.Listings.{
  s3_abort_multipart, s3_bucket_exists, s3_complete_multipart, s3_initiate_multipart,
  s3_list_buckets, s3_list_multipart_uploads, s3_list_page, s3_list_parts, s3_upload_part,
}
use overlay_s.Store.{Store}

unfoldable pub s3_store : {W : Type 0} → (W → ℕ) → Client W → Mapping → ℕ → Store W
s3_store now client s fuel = record {
  get = s3_get now client s;
  head = s3_head now client s;
  put = s3_put now client s;
  list_page = s3_list_page now client s;
  list_buckets = s3_list_buckets now client s fuel;
  bucket_exists = s3_bucket_exists now client s;
  create_bucket = s3_create_bucket now client s;
  initiate_multipart = s3_initiate_multipart now client s;
  upload_part = s3_upload_part now client s;
  complete_multipart = s3_complete_multipart now client s;
  abort_multipart = s3_abort_multipart now client s;
  list_parts = s3_list_parts now client s fuel;
  list_multipart_uploads = s3_list_multipart_uploads now client s fuel;
}

-- The errors by which the SDK says that an object, or its bucket, is not there: GetObject has the
-- first two, HeadObject the third; any of them may be wrapped.
pub data Absent : Error → Type 0 where
  absent_key : (code message : Bytes) → Absent (api_error sdk_no_such_key code message)
  absent_bucket : (code message : Bytes) → Absent (api_error sdk_no_such_bucket code message)
  absent_head : (code message : Bytes) → Absent (api_error sdk_not_found code message)
  absent_below : {e : Error} → Absent e → Absent (wrapped e)

pub is_missing-Absent : (e : Error) → Absent e → is_missing e ≡ true
unfolding is_missing
is_missing-Absent _ (absent_key code message) = refl
is_missing-Absent _ (absent_bucket code message) = refl
is_missing-Absent _ (absent_head code message) = refl
is_missing-Absent _ (absent_below {e = e} a) = is_missing-Absent e a

-- What a backend's call answers for an object that is there, and else an error that the SDK has for
-- what is missing.
abbrev pub Answered : {X A : Type 0} → (X → A) → Option X → Outcome A → Type 0
Answered f none r = (e : Error) × Absent e × (r ≡ err e)
Answered f (some v) r = r ≡ ok (f v)
