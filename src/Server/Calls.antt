-- ===== src/Server/Calls.antt =====
-- What the handlers' calls are made of: a claim that holds of the store's calls holds of a request's.
use overlay_s.Base.{
  Bool-cases, Bytes, List, Option, arith, codes, inl, inr, is_nil, none, refl, some, true, ℕ, ℤ,
  ◌≡◌, ◌≢◌, ◌⊎◌,
}
use overlay_s.Base.Exec.{Exec, Outcome, eq_not_found, err, no_return, ok}
use overlay_s.Base.Exec.Rules.{
  Claim, Follows, bind-Follows, if-Follows, mapped-Follows, pure-Follows, raise-Follows,
  try-Follows,
}
use overlay_s.Overlay.Gateway.Calls.{ReadCalls, WriteCalls}
use overlay_s.Protocol.{
  Request, S3Op, get_value, op_abort_multipart_upload, op_bucket_location, op_bucket_meta,
  op_complete_multipart_upload, op_copy_object, op_create_bucket, op_create_multipart_upload,
  op_get_object, op_head_bucket, op_head_object, op_list_buckets, op_list_multipart_uploads,
  op_list_objects_v2, op_list_parts, op_not_supported, op_put_object, op_unknown, op_upload_part,
}
use overlay_s.Protocol.Routes.{IsRead}
use overlay_s.Range.{RangeAnswer, part, unsatisfiable, whole}
use overlay_s.Server.{Answer, no_such_bucket}
use overlay_s.Server.Answers.{Decoder, bucket_meta, decode_body}
use overlay_s.Server.Handlers.{
  check_match, check_none_match, complete_decoded, complete_with, copy_from, dispatch,
  handle_abort_multipart_upload, handle_complete_multipart_upload, handle_copy_object,
  handle_create_bucket, handle_create_multipart_upload, handle_get_object, handle_head_object,
  handle_list_buckets, handle_list_multipart_uploads, handle_list_objects_v2, handle_list_parts,
  handle_put_object, handle_upload_part, list_with, panic, read_object, read_range, reads_body,
  upload_numbered,
}
use overlay_s.Store.{ByteRange, MultipartInfo, PartInfo, Store}

module _ {W : Type 0} {K : Claim W} (k : Follows K) (now : W → ℕ) (decode : Decoder)
    (store : Store W) where
  outcome_calls : (o : Outcome Answer) → o ≢ no_return → K Answer (λ w. (o, w))
  outcome_calls (ok a) h = pure-Follows k a
  outcome_calls (err e) h = raise-Follows k e
  outcome_calls no_return h = absurd (h refl)

  bucket_meta_ends : (q : List (Bytes × Bytes)) → bucket_meta q ≢ no_return
  unfolding bucket_meta
  bucket_meta_ends q = ground arith

  decode_body-none : (r : Request) → decode_body decode r ≡ none → r.panics ≡ true
  unfolding decode_body
  decode_body-none r h = ground arith

  -- The two listings of multipart uploads
  pub record UploadLists : Type 0 where
    pub list_parts : (b key id : Bytes) → K (List PartInfo) (store.list_parts b key id)
    pub list_multipart_uploads :
        (b : Bytes) → K (List MultipartInfo) (store.list_multipart_uploads b)

  module _ (reads : ReadCalls K store) where
    list_buckets_calls : K Answer (handle_list_buckets now decode store)
    unfolding handle_list_buckets
    list_buckets_calls = bind-Follows k _ _ reads.list_buckets (λ names. k.returns _ _)

    list_with_calls :
        (r : Request) (b : Bytes) (n : Option ℤ) → K Answer (list_with now decode store r b n)
    unfolding list_with
    list_with_calls r b none = raise-Follows k _
    list_with_calls r b (some n) =
        mapped-Follows k _ _ no_such_bucket (reads.list_page b _) (λ page. pure-Follows k _)

    read_object_calls :
        (b key : Bytes) (rng : Option ByteRange) (total : ℤ)
        → K Answer (read_object now decode store b key rng total)
    unfolding read_object
    read_object_calls b key rng total =
        try-Follows k _ _ _ (reads.get b key rng) (λ got. pure-Follows k _) (λ e. raise-Follows k _)

    read_range_calls :
        (b key : Bytes) (total : ℤ) (a : RangeAnswer)
        → K Answer (read_range now decode store b key total a)
    unfolding read_range
    read_range_calls b key total whole = read_object_calls b key none total
    read_range_calls b key total (part rng) = read_object_calls b key (some rng) total
    read_range_calls b key total unsatisfiable = raise-Follows k _

    get_object_calls :
        (r : Request) (b key : Bytes) → K Answer (handle_get_object now decode store r b key)
    unfolding handle_get_object
    get_object_calls r b key =
        if-Follows k (is_nil (get_value r.headers (codes "Range"))) _ _
          (read_object_calls b key none _)
          (try-Follows k _ _ _ (reads.head b key) (λ head. read_range_calls b key _ _)
            (λ e. raise-Follows k _))

    head_object_calls : (b key : Bytes) → K Answer (handle_head_object now decode store b key)
    unfolding handle_head_object
    head_object_calls b key =
        try-Follows k _ _ _ (reads.head b key) (λ meta. pure-Follows k _) (λ e. raise-Follows k _)

    none_match_calls :
        (r : Request) (b key : Bytes) → K (Unit {0}) (check_none_match now decode store r b key)
    unfolding check_none_match
    none_match_calls r b key =
        if-Follows k _ _ _
          (try-Follows k _ _ _ (reads.head b key) (λ meta. raise-Follows k _)
            (λ e. if-Follows k (eq_not_found e) _ _ (pure-Follows k tt) (raise-Follows k e)))
          (pure-Follows k tt)

    match_calls :
        (r : Request) (b key : Bytes) → K (Unit {0}) (check_match now decode store r b key)
    unfolding check_match
    match_calls r b key = if-Follows k _ _ _ (pure-Follows k tt) (
        try-Follows k _ _ _ (reads.head b key)
          (λ meta. if-Follows k _ _ _ (pure-Follows k tt) (raise-Follows k _))
          (λ e. raise-Follows k _))

    module _ (lists : UploadLists) where
      list_parts_calls :
          (r : Request) (b key : Bytes) → K Answer (handle_list_parts now decode store r b key)
      unfolding handle_list_parts
      list_parts_calls r b key =
          try-Follows k _ _ _ (lists.list_parts b key _) (λ parts. pure-Follows k _)
            (λ e. raise-Follows k _)

      list_uploads_calls : (b : Bytes) → K Answer (handle_list_multipart_uploads now decode store b)
      unfolding handle_list_multipart_uploads
      list_uploads_calls b =
          bind-Follows k _ _ (lists.list_multipart_uploads b) (λ uploads. pure-Follows k _)

      -- The operations that only read make only the calls that read.
      pub read_calls :
          (r : Request) (op : S3Op) (b key : Bytes)
          → IsRead op
          → K Answer (dispatch now decode store r op b key)
      unfolding dispatch handle_list_objects_v2
      read_calls r op_not_supported b key i = raise-Follows k _
      read_calls r op_unknown b key i = raise-Follows k _
      read_calls r op_list_buckets b key i = list_buckets_calls
      read_calls r op_create_bucket b key i = absurd i
      read_calls r op_head_bucket b key i = pure-Follows k _
      read_calls r op_bucket_location b key i = pure-Follows k _
      read_calls r op_bucket_meta b key i = outcome_calls _ (bucket_meta_ends r.query)
      read_calls r op_list_objects_v2 b key i = list_with_calls r b _
      read_calls r op_list_multipart_uploads b key i = list_uploads_calls b
      read_calls r op_get_object b key i = get_object_calls r b key
      read_calls r op_head_object b key i = head_object_calls b key
      read_calls r op_put_object b key i = absurd i
      read_calls r op_copy_object b key i = absurd i
      read_calls r op_create_multipart_upload b key i = absurd i
      read_calls r op_upload_part b key i = absurd i
      read_calls r op_complete_multipart_upload b key i = absurd i
      read_calls r op_abort_multipart_upload b key i = absurd i
      read_calls r op_list_parts b key i = list_parts_calls r b key

    module _ (writes : WriteCalls K store) where
      create_bucket_calls : (b : Bytes) → K Answer (handle_create_bucket now decode store b)
      unfolding handle_create_bucket
      create_bucket_calls b = bind-Follows k _ _ (writes.create_bucket b) (λ done. pure-Follows k _)

      -- What the claim says of a panic in reading this request's body
      abbrev pub OnPanic : Request → Type 1
      OnPanic r = (A : Type 0) → r.panics ≡ true → K A panic

      reads_body_calls :
          (r : Request) (on_panic : OnPanic r) {A : Type 0} (call : Exec W A)
          → K A call
          → K A (reads_body r call)
      unfolding reads_body
      reads_body_calls r on_panic call h = elim (Bool-cases r.panics) [
        | inl panicking ↦ rw panicking (on_panic _ panicking)
        | inr reading ↦ rw reading h
      ]

      put_object_calls :
          (r : Request) (on_panic : OnPanic r) (b key : Bytes)
          → K Answer (handle_put_object now decode store r b key)
      unfolding handle_put_object
      put_object_calls r on_panic b key = bind-Follows k _ _ (none_match_calls r b key) (λ absent.
          bind-Follows k _ _ (match_calls r b key) (λ matched.
            mapped-Follows k _ _ no_such_bucket
              (reads_body_calls r on_panic _ (writes.put b key r.body _))
              (λ meta. pure-Follows k _)))

      copy_from_calls :
          (b key : Bytes) (src : Option (Bytes × Bytes))
          → K Answer (copy_from now decode store b key src)
      unfolding copy_from
      copy_from_calls b key none = raise-Follows k _
      copy_from_calls b key (some (sb, sk)) =
          try-Follows k _ _ _ (reads.get sb sk none)
            (λ got.
              mapped-Follows k _ _ no_such_bucket (writes.put b key got.0 _)
                (λ meta. pure-Follows k _))
            (λ e. raise-Follows k _)

      create_upload_calls :
          (r : Request) (b key : Bytes)
          → K Answer (handle_create_multipart_upload now decode store r b key)
      unfolding handle_create_multipart_upload
      create_upload_calls r b key =
          mapped-Follows k _ _ no_such_bucket (writes.initiate_multipart b key _)
            (λ id. pure-Follows k _)

      upload_numbered_calls :
          (r : Request) (on_panic : OnPanic r) (b key : Bytes) (n : Option ℤ)
          → K Answer (upload_numbered now decode store r b key n)
      unfolding upload_numbered
      upload_numbered_calls r on_panic b key none = raise-Follows k _
      upload_numbered_calls r on_panic b key (some n) =
          try-Follows k _ _ _ (reads_body_calls r on_panic _ (writes.upload_part b key _ n r.body))
            (λ etag. pure-Follows k _) (λ e. raise-Follows k _)

      complete_with_calls :
          (r : Request) (b key : Bytes) (d : Bytes ⊎ List (ℤ × Bytes))
          → K Answer (complete_with now decode store r b key d)
      unfolding complete_with
      complete_with_calls r b key (inl message) = raise-Follows k _
      complete_with_calls r b key (inr parts) =
          try-Follows k _ _ _ (writes.complete_multipart b key _ _) (λ meta. pure-Follows k _)
            (λ e. raise-Follows k _)

      complete_decoded_calls :
          (r : Request) (on_panic : OnPanic r) (b key : Bytes)
          (d : Option (Bytes ⊎ List (ℤ × Bytes)))
          → (d ≡ none → r.panics ≡ true)
          → K Answer (complete_decoded now decode store r b key d)
      unfolding complete_decoded
      complete_decoded_calls r on_panic b key none h = on_panic _ (h refl)
      complete_decoded_calls r on_panic b key (some d) h = complete_with_calls r b key d

      abort_calls :
          (r : Request) (b key : Bytes)
          → K Answer (handle_abort_multipart_upload now decode store r b key)
      unfolding handle_abort_multipart_upload
      abort_calls r b key =
          try-Follows k _ _ _ (writes.abort_multipart b key _) (λ done. pure-Follows k _)
            (λ e. raise-Follows k _)

      -- Every operation makes only calls of the store.
      pub dispatch_calls :
          (r : Request) (on_panic : OnPanic r) (op : S3Op) (b key : Bytes)
          → K Answer (dispatch now decode store r op b key)
      unfolding dispatch handle_copy_object handle_upload_part handle_complete_multipart_upload
      dispatch_calls r on_panic op_create_bucket b key = create_bucket_calls b
      dispatch_calls r on_panic op_put_object b key = put_object_calls r on_panic b key
      dispatch_calls r on_panic op_copy_object b key = copy_from_calls b key _
      dispatch_calls r on_panic op_create_multipart_upload b key = create_upload_calls r b key
      dispatch_calls r on_panic op_upload_part b key = upload_numbered_calls r on_panic b key _
      dispatch_calls r on_panic op_complete_multipart_upload b key =
          complete_decoded_calls r on_panic b key _ (decode_body-none r)
      dispatch_calls r on_panic op_abort_multipart_upload b key = abort_calls r b key
      dispatch_calls r on_panic op b key =
          read_calls
            (record {
              list_parts = writes.list_parts;
              list_multipart_uploads = writes.list_multipart_uploads;
            })
            r op b key tt
