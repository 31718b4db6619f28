-- ===== src/Protocol.antt =====
-- protocol.go: which S3 operation a request asks for.
pub mod Routes
use overlay_s.Base.{
  Bool, Bytes, List, Option, [], bytes_eq, codes, drop, false, if◌then◌else◌, index_byte, is_nil,
  none, not, some, take, trim_prefix, true, ℕ, ◌&&◌, ◌+◌, ◌∷◌,
}
use overlay_s.Store.{Reader}

-- The request as net/http hands it over: the decoded path, the query in its order, the headers by
-- their canonical names.
pub record Request : Type 0 where
  pub method : Bytes
  pub path : Bytes
  pub query : List (Bytes × Bytes)
  pub headers : List (Bytes × Bytes)
  pub body : Reader
  -- Whether a read behind the bytes of the body panics, where no end and no error comes
  pub panics : Bool

-- url.Values.Has
unfoldable pub has : List (Bytes × Bytes) → Bytes → Bool
has [] k = false
has ((j, v) ∷ q) k = if bytes_eq j k then true else has q k

-- url.Values.Get and http.Header.Get: the first value, or the empty text
unfoldable pub get_value : List (Bytes × Bytes) → Bytes → Bytes
get_value [] k = []
get_value ((j, v) ∷ q) k = if bytes_eq j k then v else get_value q k

pub data S3Op : Type 0 where
  op_not_supported op_unknown : S3Op
  op_list_buckets op_create_bucket op_head_bucket op_bucket_location op_bucket_meta : S3Op
  op_list_objects_v2 op_list_multipart_uploads : S3Op
  op_get_object op_head_object op_put_object op_copy_object : S3Op
  op_create_multipart_upload op_upload_part op_complete_multipart_upload : S3Op
  op_abort_multipart_upload op_list_parts : S3Op

abbrev pub bucket_meta_params : List Bytes
bucket_meta_params =
    codes "object-lock"
    ∷ codes "versioning"
    ∷ codes "policy"
    ∷ codes "tagging"
    ∷ codes "lifecycle"
    ∷ codes "cors"
    ∷ codes "encryption"
    ∷ codes "replication"
    ∷ codes "accelerate"
    ∷ codes "logging"
    ∷ codes "notification"
    ∷ codes "website"
    ∷ codes "acl"
    ∷ codes "requestPayment"
    ∷ codes "inventory"
    ∷ codes "metrics"
    ∷ codes "analytics"
    ∷ codes "intelligent-tiering"
    ∷ []

-- The loop over bucketMetaParams
unfoldable pub has_any : List (Bytes × Bytes) → List Bytes → Bool
has_any q [] = false
has_any q (k ∷ ks) = if has q k then true else has_any q ks

-- p[:i] and p[i+1:] at the first slash
unfoldable pub split_at : Bytes → Option ℕ → Bytes × Bytes
split_at p none = (p, [])
split_at p (some i) = (take i p, drop (i + 1) p)

unfoldable pub split_path : Bytes → Bytes × Bytes
split_path path = let p = trim_prefix path (codes "/") in split_at p (index_byte p b'/')

-- case key == ""
unfoldable pub bucket_op : Bytes → List (Bytes × Bytes) → S3Op
bucket_op method q =
    if bytes_eq method (codes "PUT")
    then op_create_bucket
    else if bytes_eq method (codes "HEAD")
    then op_head_bucket
    else if bytes_eq method (codes "GET") && has q (codes "location")
    then op_bucket_location
    else if bytes_eq method (codes "GET") && has q (codes "uploads")
    then op_list_multipart_uploads
    else if bytes_eq method (codes "GET")
    then (if has_any q bucket_meta_params then op_bucket_meta else op_list_objects_v2)
    else op_unknown

-- default, with the value of X-Amz-Copy-Source
unfoldable pub object_op : Bytes → List (Bytes × Bytes) → Bytes → S3Op
object_op method q copy_source =
    if bytes_eq method (codes "POST") && has q (codes "uploads")
    then op_create_multipart_upload
    else if bytes_eq method (codes "PUT") && has q (codes "partNumber")
    then op_upload_part
    else if bytes_eq method (codes "POST") && has q (codes "uploadId")
    then op_complete_multipart_upload
    else if bytes_eq method (codes "DELETE") && has q (codes "uploadId")
    then op_abort_multipart_upload
    else if bytes_eq method (codes "GET") && has q (codes "uploadId")
    then op_list_parts
    else if bytes_eq method (codes "GET")
    then op_get_object
    else if bytes_eq method (codes "HEAD")
    then op_head_object
    else if bytes_eq method (codes "PUT") && not (is_nil copy_source)
    then op_copy_object
    else if bytes_eq method (codes "PUT")
    then op_put_object
    else if bytes_eq method (codes "DELETE")
    then op_not_supported
    else op_unknown

-- The switch on bucket and key
unfoldable pub route : Bytes → List (Bytes × Bytes) → Bytes → Bytes × Bytes → S3Op × Bytes × Bytes
route method q copy_source (bucket, key) =
    if is_nil bucket
    then (if bytes_eq method (codes "GET")
        then (op_list_buckets, [], [])
        else (op_unknown, bucket, key))
    else if is_nil key
    then (bucket_op method q, bucket, key)
    else (object_op method q copy_source, bucket, key)

unfoldable pub parse_s3_request : Request → S3Op × Bytes × Bytes
parse_s3_request r =
    route r.method r.query (get_value r.headers (codes "X-Amz-Copy-Source")) (split_path r.path)
