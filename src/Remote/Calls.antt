-- ===== src/Remote/Calls.antt =====
-- remote.go: reads and writes of single objects through the client.
use overlay_s.Base.{
  Bool, Bytes, Option, [], drop, false, if◌then◌else◌, is_nil, length, ltb, ltb_ℤ, negsuc, none,
  pos, some, take, true, ℕ, ℤ, ◌++◌, ◌∷◌,
}
use overlay_s.Base.Exec.{
  Error, Exec, Outcome, api_error, bucket_already_exists, bucket_already_owned_by_you, continue,
  err, err_not_found, ok, pure, raise, sdk_no_such_bucket, sdk_no_such_key, sdk_not_found, try_call,
  wrapped, ◌>>=◌,
}
use overlay_s.Range.{header}
use overlay_s.Remote.Client.{
  Client, GetObjectOutput, HeadObjectOutput, bare_etag, to_int, to_string, to_time,
}
use overlay_s.Remote.KeyMap.{Mapping, join_key, map_key}
use overlay_s.Store.{ByteRange, ObjectMeta, Reader}

-- The three errors of the SDK, anywhere in the chain
unfoldable pub is_missing : Error → Bool
is_missing (api_error sdk_no_such_key code message) = true
is_missing (api_error sdk_no_such_bucket code message) = true
is_missing (api_error sdk_not_found code message) = true
is_missing (wrapped e) = is_missing e
is_missing _ = false

-- errors.As(err, &nf)
unfoldable pub is_sdk_not_found : Error → Bool
is_sdk_not_found (api_error sdk_not_found code message) = true
is_sdk_not_found (wrapped e) = is_sdk_not_found e
is_sdk_not_found _ = false

unfoldable pub map_s3_error : Error → Error
map_s3_error e = if is_missing e then err_not_found else e

-- The two errors that EnsureBucket tolerates
unfoldable pub is_owned : Error → Bool
is_owned (api_error bucket_already_owned_by_you code message) = true
is_owned (api_error bucket_already_exists code message) = true
is_owned (wrapped e) = is_owned e
is_owned _ = false

-- The error of io.CopyN(io.Discard, body, n), none where it has none or io.EOF
unfoldable pub skip_failure : Reader → ℤ → Option Error
skip_failure body (negsuc n) = none
skip_failure body (pos n) = if ltb (length body.content) n then body.failure else none

-- The body behind the bytes that are skipped
unfoldable pub skipped : Reader → ℤ → Reader
skipped body (negsuc n) = body
skipped body (pos n) = record body { content = drop n body.content }

-- io.LimitReader(body, n)
unfoldable pub limited : Reader → ℤ → Reader
limited body (negsuc n) = record { content = []; failure = none }
limited body (pos n) = record {
  content = take n body.content;
  failure = if ltb (length body.content) n then body.failure else none;
}

unfoldable pub object_meta : Bytes → GetObjectOutput → ObjectMeta
object_meta key out = record {
  key = key;
  size = to_int out.content_length;
  etag = bare_etag out.etag;
  last_modified = to_time out.last_modified;
  content_type = to_string out.content_type;
}

unfoldable pub head_meta : Bytes → HeadObjectOutput → ObjectMeta
head_meta key out = record {
  key = key;
  size = to_int out.content_length;
  etag = bare_etag out.etag;
  last_modified = to_time out.last_modified;
  content_type = to_string out.content_type;
}

-- if meta.Size > rng.Length { meta.Size = rng.Length }
unfoldable pub cap_size : ObjectMeta → ByteRange → ObjectMeta
cap_size meta rng = record meta {
  size = if ltb_ℤ rng.length meta.size then rng.length else meta.size;
}

-- The whole object in answer to a range: what is skipped, and then what is left of it
unfoldable pub cut_body : ByteRange → Reader → ObjectMeta → Outcome (Reader × ObjectMeta)
cut_body rng body meta = elim (skip_failure body rng.start) [
  | some e ↦ err e
  | none ↦ ok (limited (skipped body rng.start) rng.length, cap_size meta rng)
]

-- Get behind the call of the client
unfoldable pub object_answered :
    Bytes → Option ByteRange → GetObjectOutput → Outcome (Reader × ObjectMeta)
object_answered key none out = ok (out.body, object_meta key out)
object_answered key (some rng) out =
    if is_nil (to_string out.content_range)
    then cut_body rng out.body (object_meta key out)
    else ok (out.body, object_meta key out)

abbrev pub range_header : Option ByteRange → Option Bytes
range_header none = none
range_header (some rng) = some (header rng)

-- putBody: io.ReadAll
unfoldable pub put_body : Reader → Outcome Bytes
put_body body = elim body.failure [ none ↦ ok body.content | some e ↦ err e ]

module _ {W : Type 0} (now : W → ℕ) (client : Client W) (s : Mapping) where
  unfoldable pub s3_get : Bytes → Bytes → Option ByteRange → Exec W (Reader × ObjectMeta)
  s3_get bucket key rng =
      let at = map_key s bucket key in
      try_call (client.get_object at.0 at.1 (range_header rng))
        (λ out w. (object_answered key rng out, w)) (λ e. raise (map_s3_error e))

  unfoldable pub s3_head : Bytes → Bytes → Exec W ObjectMeta
  s3_head bucket key =
      let at = map_key s bucket key in
      try_call (client.head_object at.0 at.1) (λ out. pure (head_meta key out))
        (λ e. raise (map_s3_error e))

  -- What Put and CompleteMultipart return
  abbrev pub written : Bytes → Option Bytes → Exec W ObjectMeta
  written key etag w =
      pure
        (record {
          key = key;
          size = pos 0;
          etag = bare_etag etag;
          last_modified = now w;
          content_type = [];
        })
        w

  unfoldable pub s3_put : Bytes → Bytes → Reader → Bytes → Exec W ObjectMeta
  s3_put bucket key body content_type =
      let at = map_key s bucket key in
      (λ w.
        continue (put_body body)
          (λ content. client.put_object at.0 at.1 content (some content_type) >>= written key) w)

  unfoldable pub ensure_bucket : Exec W (Unit {0})
  ensure_bucket =
      try_call (client.create_bucket s.bucket) pure (λ e. if is_owned e then pure tt else raise e)

  -- The directory marker in the mapped mode
  unfoldable pub s3_create_bucket : Bytes → Exec W (Unit {0})
  s3_create_bucket bucket =
      if is_nil s.bucket
      then client.create_bucket bucket
      else client.put_object s.bucket (join_key (s.prefix ∷ bucket ∷ []) ++ b'/' ∷ []) [] none
        >>= λ etag. pure tt
