-- ===== src/Remote/Backend.antt =====
-- remote.go: what the calls of s3Store are made of. A claim that holds of the client's calls holds of
-- the store's.
use overlay_s.Base.{Bytes, List, Option, [], arith, is_nil, none, refl, some, ℕ, ℤ, ◌≢◌}
use overlay_s.Base.Exec.{Exec, Outcome, err, no_return, ok, ◌>>=◌}
use overlay_s.Base.Exec.Rules.{
  Claim, Follows, bind-Follows, continue-Follows, if-Follows, mapped-Follows, pure-Follows,
  raise-Follows, try-Follows,
}
use overlay_s.Overlay.Gateway.Calls.{ReadCalls, WriteCalls}
use overlay_s.Remote.Calls.{
  cut_body, ensure_bucket, is_owned, is_sdk_not_found, map_s3_error, object_answered, put_body,
  s3_create_bucket, s3_get, s3_head, s3_put,
}
use overlay_s.Remote.Client.{
  Client, GetObjectOutput, HeadObjectOutput, ListObjectsInput, ListObjectsOutput,
}
use overlay_s.Remote.KeyMap.{Mapping, map_key}
use overlay_s.Remote.Listings.{
  parts_from, root_buckets, s3_abort_multipart, s3_bucket_exists, s3_complete_multipart,
  s3_initiate_multipart, s3_list_buckets, s3_list_multipart_uploads, s3_list_page, s3_list_parts,
  s3_upload_part, uploads_from,
}
use overlay_s.Remote.Mapped.{s3_store}
use overlay_s.Store.{ByteRange, CompletedPart, MultipartInfo, PartInfo, Reader}

module _ {W : Type 0} (K : Claim W) (client : Client W) where
  -- The claim holds of the calls that read objects, listings and buckets.
  pub record ClientReads : Type 0 where
    pub get_object : (b k : Bytes) (r : Option Bytes) → K GetObjectOutput (client.get_object b k r)
    pub head_object : (b k : Bytes) → K HeadObjectOutput (client.head_object b k)
    pub list_objects : (i : ListObjectsInput) → K ListObjectsOutput (client.list_objects_v2 i)
    pub list_buckets : K (List (Option Bytes)) client.list_buckets
    pub head_bucket : (b : Bytes) → K (Unit {0}) (client.head_bucket b)

  -- The claim holds of the calls that write, and of those of multipart uploads but their listings.
  pub record ClientWrites : Type 0 where
    pub put_object :
        (b k bytes : Bytes) (ct : Option Bytes) → K (Option Bytes) (client.put_object b k bytes ct)
    pub create_bucket : (b : Bytes) → K (Unit {0}) (client.create_bucket b)
    pub create_upload : (b k ct : Bytes) → K (Option Bytes) (client.create_multipart_upload b k ct)
    pub upload_part :
        (b k id : Bytes) (n : ℤ) (bytes : Bytes)
        → K (Option Bytes) (client.upload_part b k id n bytes)
    pub complete_upload :
        (b k id : Bytes) (parts : List CompletedPart)
        → K (Option Bytes) (client.complete_multipart_upload b k id parts)
    pub abort_upload : (b k id : Bytes) → K (Unit {0}) (client.abort_multipart_upload b k id)

module _ {W : Type 0} {K : Claim W} (k : Follows K) (now : W → ℕ) (client : Client W) (s : Mapping)
    (fuel : ℕ) where
  -- A call whose result is changed or dropped
  changed_calls :
      {A B : Type 0} (m : Exec W A) (f : A → W → B) → K A m → K B (m >>= λ a w. (ok (f a w), w))
  changed_calls m f h = bind-Follows k m _ h (λ a. k.returns _ (f a))

  put_body-ends : (body : Reader) → put_body body ≢ no_return
  unfolding put_body
  put_body-ends body = ground arith

  object_answered-ends :
      (key : Bytes) (r : Option ByteRange) (out : GetObjectOutput)
      → object_answered key r out ≢ no_return
  unfolding object_answered cut_body
  object_answered-ends key none out = ground arith
  object_answered-ends key (some rng) out = ground arith

  outcome_calls : {A : Type 0} (o : Outcome A) → o ≢ no_return → K A (λ w. (o, w))
  outcome_calls (ok a) h = pure-Follows k a
  outcome_calls (err e) h = raise-Follows k e
  outcome_calls no_return h = absurd (h refl)

  -- What holds of the client's reads, and of the loop of ListBuckets, holds of the store's reads.
  pub s3_store-ReadCalls :
      ClientReads K client
      → K (List Bytes) (root_buckets now client s fuel none [])
      → ReadCalls K (s3_store now client s fuel)
  unfolding s3_store s3_get s3_head s3_list_page s3_list_buckets s3_bucket_exists
  s3_store-ReadCalls reads roots = record {
    get = λ b key r.
        mapped-Follows k _ _ map_s3_error (reads.get_object _ _ _)
          (λ out. outcome_calls _ (object_answered-ends key r out));
    head = λ b key.
        mapped-Follows k _ _ map_s3_error (reads.head_object _ _) (λ out. pure-Follows k _);
    list_page =
        λ b p. mapped-Follows k _ _ map_s3_error (reads.list_objects _) (λ resp. pure-Follows k _);
    list_buckets = if-Follows k (is_nil s.bucket) _ _ (changed_calls _ _ reads.list_buckets) roots;
    bucket_exists = λ b.
        if-Follows k (is_nil s.bucket) _ _
          (try-Follows k _ _ _ (reads.head_bucket b) (λ done. pure-Follows k _)
            (λ e. if-Follows k (is_sdk_not_found e) _ _ (pure-Follows k _) (raise-Follows k e)))
          (changed_calls _ _ (reads.list_objects _));
  }

  -- What holds of the client's other calls, and of the loops over the listings of uploads, holds of
  -- the store's other calls.
  pub s3_store-WriteCalls :
      ClientWrites K client
      → ((at : Bytes × Bytes) (id : Bytes)
          → K (List PartInfo) (parts_from now client s fuel at id none []))
      → ((b : Bytes) → K (List MultipartInfo) (uploads_from now client s fuel b none none []))
      → WriteCalls K (s3_store now client s fuel)
  unfolding s3_store s3_put s3_create_bucket s3_initiate_multipart s3_upload_part
      s3_complete_multipart s3_abort_multipart s3_list_parts s3_list_multipart_uploads
  s3_store-WriteCalls writes parts uploads = record {
    put = λ b key body ct.
        continue-Follows k (put_body body) _ (put_body-ends body)
          (λ content. changed_calls _ _ (writes.put_object _ _ content _));
    create_bucket = λ b.
        if-Follows k (is_nil s.bucket) _ _ (writes.create_bucket b)
          (changed_calls _ _ (writes.put_object _ _ _ _));
    initiate_multipart = λ b key ct. changed_calls _ _ (writes.create_upload _ _ ct);
    upload_part = λ b key id n body.
        continue-Follows k (put_body body) _ (put_body-ends body)
          (λ bytes. changed_calls _ _ (writes.upload_part _ _ id n bytes));
    complete_multipart = λ b key id ps. changed_calls _ _ (writes.complete_upload _ _ id _);
    abort_multipart = λ b key id. writes.abort_upload _ _ id;
    list_parts = λ b key id. parts (map_key s b key) id;
    list_multipart_uploads = uploads;
  }

  pub ensure_bucket-calls :
      ((b : Bytes) → K (Unit {0}) (client.create_bucket b))
      → K (Unit {0}) (ensure_bucket now client s)
  unfolding ensure_bucket
  ensure_bucket-calls creates =
      try-Follows k _ _ _ (creates s.bucket) (λ done. pure-Follows k tt)
        (λ e. if-Follows k (is_owned e) _ _ (pure-Follows k tt) (raise-Follows k e))
