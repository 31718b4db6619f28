-- ===== src/Protocol/Routes.antt =====
-- What the router promises of paths and methods.
use native.Mathlib.Numerals.{add-one}
use overlay_s.Base.{
  Bool, Bool-cases, Bytes, Lacks, List, Option, [], ap, arith, bytes_eq, codes, drop, false,
  if◌then◌else◌, index_byte, index_byte-append, inl, inr, length, none, refl, some, suc,
  take-append_length, trim_prefix, trim_prefix-append, true, ℕ, ◌++◌, ◌+◌, ◌==◌, ◌∷◌, ◌≡◌, ◌≢◌, ◌⊎◌,
}
use overlay_s.Protocol.{
  Request, S3Op, bucket_meta_params, bucket_op, get_value, has, has_any, object_op,
  op_abort_multipart_upload, op_complete_multipart_upload, op_copy_object, op_create_bucket,
  op_create_multipart_upload, op_put_object, op_upload_part, parse_s3_request, route, split_at,
  split_path,
}

-- Operations that read, or that answer without a call of the store
abbrev pub IsRead : S3Op → Type 0
IsRead op_create_bucket = ⊥
IsRead op_put_object = ⊥
IsRead op_copy_object = ⊥
IsRead op_create_multipart_upload = ⊥
IsRead op_upload_part = ⊥
IsRead op_complete_multipart_upload = ⊥
IsRead op_abort_multipart_upload = ⊥
IsRead _ = Unit

IsRead-if : (b : Bool) (x y : S3Op) → IsRead x → IsRead y → IsRead (if b then x else y)
IsRead-if true x y hx hy = hx
IsRead-if false x y hx hy = hy

abbrev pub IsSafe : Bytes → Type 0
IsSafe method = (method ≡ codes "GET") ⊎ (method ≡ codes "HEAD")

bucket_op-IsRead : (m : Bytes) (q : List (Bytes × Bytes)) → IsSafe m → IsRead (bucket_op m q)
unfolding bucket_op bytes_eq
bucket_op-IsRead m q (inl e) = rw e (
    IsRead-if (has q (codes "location")) _ _ tt (
      IsRead-if (has q (codes "uploads")) _ _ tt
        (IsRead-if (has_any q bucket_meta_params) _ _ tt tt)))
bucket_op-IsRead m q (inr e) = rw e tt

object_op-IsRead :
    (m : Bytes) (q : List (Bytes × Bytes)) (c : Bytes) → IsSafe m → IsRead (object_op m q c)
unfolding object_op bytes_eq
object_op-IsRead m q c (inl e) = rw e (IsRead-if (has q (codes "uploadId")) _ _ tt tt)
object_op-IsRead m q c (inr e) = rw e tt

route-IsRead :
    (m : Bytes) (q : List (Bytes × Bytes)) (copy_source : Bytes) (names : Bytes × Bytes)
    → IsSafe m
    → IsRead (route m q copy_source names).0
unfolding route
route-IsRead m q c ([], key) safe = elim (Bool-cases (bytes_eq m (codes "GET"))) [
  | inl e ↦ rw e tt
  | inr e ↦ rw e tt
]
route-IsRead m q c (b ∷ bucket, []) safe = bucket_op-IsRead m q safe
route-IsRead m q c (b ∷ bucket, d ∷ key) safe = object_op-IsRead m q c safe

-- A GET or a HEAD never asks for an operation that writes, whatever its path, query and headers.
pub parse_s3_request-IsRead : (r : Request) → IsSafe r.method → IsRead (parse_s3_request r).0
unfolding parse_s3_request
parse_s3_request-IsRead r safe =
    route-IsRead r.method r.query (get_value r.headers (codes "X-Amz-Copy-Source"))
      (split_path r.path) safe

-- The path of a bucket and a key
abbrev pub object_path : Bytes → Bytes → Bytes
object_path bucket key = b'/' ∷ (bucket ++ b'/' ∷ key)

pub split_path-object_path :
    (bucket key : Bytes) → Lacks b'/' bucket → split_path (object_path bucket key) ≡ (bucket, key)
unfolding split_path split_at
split_path-object_path bucket key h =
    rw
      (
        trim_prefix-append (codes "/") (bucket ++ b'/' ∷ key),
        index_byte-append bucket key b'/' h,
        take-append_length bucket (b'/' ∷ key),
      )
      (ap (λ k. (bucket, k)) (drop_past bucket b'/' key))
  where
    drop_past : (xs : Bytes) (c : ℕ) (ys : Bytes) → drop (length xs + 1) (xs ++ c ∷ ys) ≡ ys
    drop_past xs c ys = rw add-one (past xs)
      where
        past : (xs : Bytes) → drop (suc (length xs)) (xs ++ c ∷ ys) ≡ ys
        past [] = refl
        past (x ∷ xs) = past xs

-- A routed request is for this bucket and this key.
abbrev pub Names : S3Op × Bytes × Bytes → Bytes → Bytes → Type 0
Names routed bucket key = (routed.1 ≡ bucket) × (routed.2 ≡ key)

route-Names :
    (m : Bytes) (q : List (Bytes × Bytes)) (c bucket key : Bytes)
    → bucket ≢ []
    → Names (route m q c (bucket, key)) bucket key
unfolding route
route-Names m q c [] key h = absurd (h refl)
route-Names m q c (b ∷ bucket) [] h = (refl, refl)
route-Names m q c (b ∷ bucket) (d ∷ key) h = (refl, refl)

-- A request for the path of a bucket and a key is routed to that bucket and that key, and slashes
-- in the key stay. The bucket has a name without a slash; the key is any text.
pub parse_s3_request-object_path :
    (r : Request) (bucket key : Bytes)
    → bucket ≢ []
    → Lacks b'/' bucket
    → r.path ≡ object_path bucket key
    → Names (parse_s3_request r) bucket key
unfolding parse_s3_request
parse_s3_request-object_path r bucket key ne h e =
    rw (e, split_path-object_path bucket key h)
      (route-Names r.method r.query (get_value r.headers (codes "X-Amz-Copy-Source")) bucket key ne)

-- What stands before the first slash has none.
split_at-Lacks : (p : Bytes) → Lacks b'/' (split_at p (index_byte p b'/')).0
unfolding split_at index_byte
split_at-Lacks [] = tt
split_at-Lacks (x ∷ p) = elim (Bool-cases (x == b'/')) [
  | inl slash ↦ rw slash tt
  | inr other ↦ rw other (behind (index_byte p b'/') (ground arith) (split_at-Lacks p))
]
  where
    behind :
        (o : Option ℕ)
        → x ≢ b'/'
        → Lacks b'/' (split_at p o).0
        → Lacks b'/' (split_at (x ∷ p) (elim o [ none ↦ none | some i ↦ some (suc i) ])).0
    behind none ne h = (ne, h)
    behind (some i) ne h = (ne, h)

-- The bucket that a path names has no slash.
pub split_path-Lacks : (path : Bytes) → Lacks b'/' (split_path path).0
unfolding split_path
split_path-Lacks path = split_at-Lacks (trim_prefix path (codes "/"))
