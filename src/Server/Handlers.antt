-- ===== src/Server/Handlers.antt =====
-- handlers.go: the handlers, their dispatch and ServeHTTP, over any store.
use overlay_s.Base.{
  Bytes, List, Option, [], bytes_eq, codes, if◌then◌else◌, inl, inr, is_nil, none, pos, quote, some,
  trim, ℕ, ℤ, ◌++◌, ◌∷◌, ◌⊎◌,
}
use overlay_s.Base.Exec.{
  Error, Exec, Outcome, eq_not_found, err, no_return, ok, pure, raise, try_call, ◌>>=◌,
}
use overlay_s.Protocol.{
  Request, S3Op, get_value, op_abort_multipart_upload, op_bucket_location, op_bucket_meta,
  op_complete_multipart_upload, op_copy_object, op_create_bucket, op_create_multipart_upload,
  op_get_object, op_head_bucket, op_head_object, op_list_buckets, op_list_multipart_uploads,
  op_list_objects_v2, op_list_parts, op_put_object, op_upload_part, parse_s3_request,
}
use overlay_s.Range.{RangeAnswer, parse_byte_range, part, unsatisfiable, whole}
use overlay_s.Server.{
  Answer, Response, bare_answer, buckets_document, complete_document, content_type_or_default,
  copy_document, document_piece, error_answer, initiate_document, location_document, no_such_bucket,
  parts_document, quoted, s3_err, text, uploads_document, xml_answer, xml_response,
}
use overlay_s.Server.Answers.{
  Decoder, bucket_entries, bucket_meta, complete_error, completed_parts, copy_source_of,
  decode_body, invalid_argument, key_error, listing_answer, max_keys_of, object_answer,
  object_headers, part_number_of, precondition_failed, range_unsatisfiable, upload_error,
}
use overlay_s.Store.{ByteRange, ListParams, Store}

-- Rendering of what was begun: an error behind it adds its document, and cannot change the status.
unfoldable pub completed : (Error → Bytes) → Outcome Answer → Outcome Response
completed describe (ok (resp, none)) = ok resp
completed describe (ok (resp, some e)) = ok (record {
  status = resp.status;
  headers = resp.headers;
  body = resp.body ++ document_piece (error_answer describe e).1 ∷ [];
})
completed describe (err e) =
    ok (xml_response (error_answer describe e).0 (error_answer describe e).1)
completed describe no_return = no_return

-- A call of a panic
abbrev pub panic : {W A : Type 0} → Exec W A
panic w = (no_return, w)

-- The store's Put or UploadPart with the body of this request. Both read it to its end before they do
-- anything else, so that the call does not return, and leaves the world, where that read panics.
unfoldable pub reads_body : {W A : Type 0} → Request → Exec W A → Exec W A
reads_body r call = if r.panics then panic else call

-- `now` is time.Now, `decode` the XML decoder on a completion request, with the text of its error.
module _ {W : Type 0} (now : W → ℕ) (decode : Decoder) (store : Store W) where
  unfoldable pub handle_list_buckets : Exec W Answer
  handle_list_buckets = store.list_buckets >>= λ names w.
      pure (xml_answer 200 (buckets_document (bucket_entries (now w) names))) w

  unfoldable pub handle_create_bucket : Bytes → Exec W Answer
  handle_create_bucket bucket = store.create_bucket bucket >>= λ done. pure (bare_answer 200 [])

  unfoldable pub list_with : Request → Bytes → Option ℤ → Exec W Answer
  list_with r bucket none = raise (invalid_argument (codes "max-keys"))
  list_with r bucket (some n) =
      let p : ListParams = record {
        prefix = get_value r.query (codes "prefix");
        delimiter = get_value r.query (codes "delimiter");
        after = get_value r.query (codes "continuation-token");
        max_keys = n;
      } in
      try_call (store.list_page bucket p) (λ page. pure (listing_answer bucket p page))
        (λ e. raise (no_such_bucket e))

  unfoldable pub handle_list_objects_v2 : Request → Bytes → Exec W Answer
  handle_list_objects_v2 r bucket =
      list_with r bucket (max_keys_of (get_value r.query (codes "max-keys")))

  unfoldable pub read_object : Bytes → Bytes → Option ByteRange → ℤ → Exec W Answer
  read_object bucket key rng total =
      try_call (store.get bucket key rng) (λ got. pure (object_answer rng total got.0 got.1))
        (λ e. raise (key_error e))

  unfoldable pub read_range : Bytes → Bytes → ℤ → RangeAnswer → Exec W Answer
  read_range bucket key total whole = read_object bucket key none total
  read_range bucket key total (part rng) = read_object bucket key (some rng) total
  read_range bucket key total unsatisfiable = raise range_unsatisfiable

  unfoldable pub handle_get_object : Request → Bytes → Bytes → Exec W Answer
  handle_get_object r bucket key =
      let range = get_value r.headers (codes "Range") in
      if is_nil range
      then read_object bucket key none (pos 0)
      else try_call (store.head bucket key)
          (λ head. read_range bucket key head.size (parse_byte_range range head.size))
          (λ e. raise (key_error e))

  unfoldable pub handle_head_object : Bytes → Bytes → Exec W Answer
  handle_head_object bucket key =
      try_call (store.head bucket key) (λ meta. pure (bare_answer 200 (object_headers meta)))
        (λ e. raise (key_error e))

  -- If-None-Match: *
  unfoldable pub check_none_match : Request → Bytes → Bytes → Exec W (Unit {0})
  check_none_match r bucket key =
      if bytes_eq (get_value r.headers (codes "If-None-Match")) (codes "*")
      then try_call (store.head bucket key)
          (λ meta. raise (precondition_failed (codes "object already exists")))
          (λ e. if eq_not_found e then pure tt else raise e)
      else pure tt

  -- If-Match
  unfoldable pub check_match : Request → Bytes → Bytes → Exec W (Unit {0})
  check_match r bucket key =
      let if_match = get_value r.headers (codes "If-Match") in
      if is_nil if_match
      then pure tt
      else try_call (store.head bucket key)
          (λ meta.
            if bytes_eq meta.etag (trim if_match quote)
            then pure tt
            else raise (precondition_failed (codes "etag mismatch")))
          (λ e. raise (if eq_not_found e then precondition_failed (codes "etag mismatch") else e))

  unfoldable pub handle_put_object : Request → Bytes → Bytes → Exec W Answer
  handle_put_object r bucket key = check_none_match r bucket key >>= λ absent.
      check_match r bucket key >>= λ matched.
      try_call
        (reads_body r (
          store.put bucket key r.body
            (content_type_or_default (get_value r.headers (codes "Content-Type")))))
        (λ meta. pure (bare_answer 200 ((codes "ETag", text (quoted meta.etag)) ∷ [])))
        (λ e. raise (no_such_bucket e))

  unfoldable pub copy_from : Bytes → Bytes → Option (Bytes × Bytes) → Exec W Answer
  copy_from bucket key none = raise (invalid_argument (codes "X-Amz-Copy-Source"))
  copy_from bucket key (some (src_bucket, src_key)) =
      try_call (store.get src_bucket src_key none)
        (λ got.
          try_call (store.put bucket key got.0 (content_type_or_default got.1.content_type))
            (λ meta. pure (xml_answer 200 (copy_document (quoted meta.etag) meta.last_modified)))
            (λ e. raise (no_such_bucket e)))
        (λ e. raise (key_error e))

  unfoldable pub handle_copy_object : Request → Bytes → Bytes → Exec W Answer
  handle_copy_object r bucket key =
      copy_from bucket key (copy_source_of (get_value r.headers (codes "X-Amz-Copy-Source")))

  unfoldable pub handle_create_multipart_upload : Request → Bytes → Bytes → Exec W Answer
  handle_create_multipart_upload r bucket key =
      try_call
        (store.initiate_multipart bucket key
          (content_type_or_default (get_value r.headers (codes "Content-Type"))))
        (λ id. pure (xml_answer 200 (initiate_document bucket key id)))
        (λ e. raise (no_such_bucket e))

  unfoldable pub upload_numbered : Request → Bytes → Bytes → Option ℤ → Exec W Answer
  upload_numbered r bucket key none = raise (invalid_argument (codes "partNumber"))
  upload_numbered r bucket key (some n) =
      try_call
        (reads_body r
          (store.upload_part bucket key (get_value r.query (codes "uploadId")) n r.body))
        (λ etag. pure (bare_answer 200 ((codes "ETag", text (quoted etag)) ∷ [])))
        (λ e. raise (upload_error e))

  unfoldable pub handle_upload_part : Request → Bytes → Bytes → Exec W Answer
  handle_upload_part r bucket key =
      upload_numbered r bucket key (part_number_of (get_value r.query (codes "partNumber")))

  unfoldable pub complete_with : Request → Bytes → Bytes → Bytes ⊎ List (ℤ × Bytes) → Exec W Answer
  complete_with r bucket key (inl message) = raise (s3_err 400 (codes "MalformedXML") message)
  complete_with r bucket key (inr parts) =
      try_call
        (store.complete_multipart bucket key (get_value r.query (codes "uploadId"))
          (completed_parts parts))
        (λ meta. pure (
          xml_answer 200
            (complete_document (b'/' ∷ bucket ++ b'/' ∷ key) bucket key (quoted meta.etag))))
        (λ e. raise (complete_error e))

  unfoldable pub complete_decoded :
      Request → Bytes → Bytes → Option (Bytes ⊎ List (ℤ × Bytes)) → Exec W Answer
  complete_decoded r bucket key none = panic
  complete_decoded r bucket key (some d) = complete_with r bucket key d

  unfoldable pub handle_complete_multipart_upload : Request → Bytes → Bytes → Exec W Answer
  handle_complete_multipart_upload r bucket key =
      complete_decoded r bucket key (decode_body decode r)

  unfoldable pub handle_abort_multipart_upload : Request → Bytes → Bytes → Exec W Answer
  handle_abort_multipart_upload r bucket key =
      try_call (store.abort_multipart bucket key (get_value r.query (codes "uploadId")))
        (λ done. pure (bare_answer 204 [])) (λ e. raise (upload_error e))

  unfoldable pub handle_list_parts : Request → Bytes → Bytes → Exec W Answer
  handle_list_parts r bucket key =
      let upload_id = get_value r.query (codes "uploadId") in
      try_call (store.list_parts bucket key upload_id)
        (λ parts. pure (xml_answer 200 (parts_document bucket key upload_id parts)))
        (λ e. raise (upload_error e))

  unfoldable pub handle_list_multipart_uploads : Bytes → Exec W Answer
  handle_list_multipart_uploads bucket = store.list_multipart_uploads bucket >>= λ uploads.
      pure (xml_answer 200 (uploads_document bucket uploads))

  unfoldable pub dispatch : Request → S3Op → Bytes → Bytes → Exec W Answer
  dispatch r op_list_buckets bucket key = handle_list_buckets
  dispatch r op_create_bucket bucket key = handle_create_bucket bucket
  dispatch r op_head_bucket bucket key = pure (bare_answer 200 [])
  dispatch r op_bucket_location bucket key = pure (xml_answer 200 location_document)
  dispatch r op_bucket_meta bucket key = λ w. (bucket_meta r.query, w)
  dispatch r op_list_objects_v2 bucket key = handle_list_objects_v2 r bucket
  dispatch r op_list_multipart_uploads bucket key = handle_list_multipart_uploads bucket
  dispatch r op_get_object bucket key = handle_get_object r bucket key
  dispatch r op_head_object bucket key = handle_head_object bucket key
  dispatch r op_put_object bucket key = handle_put_object r bucket key
  dispatch r op_copy_object bucket key = handle_copy_object r bucket key
  dispatch r op_create_multipart_upload bucket key = handle_create_multipart_upload r bucket key
  dispatch r op_upload_part bucket key = handle_upload_part r bucket key
  dispatch r op_complete_multipart_upload bucket key = handle_complete_multipart_upload r bucket key
  dispatch r op_abort_multipart_upload bucket key = handle_abort_multipart_upload r bucket key
  dispatch r op_list_parts bucket key = handle_list_parts r bucket key
  dispatch r _ bucket key = raise (
      s3_err 501 (codes "NotImplemented")
        (codes "operation not supported: " ++ (r.method ++ b' ' ∷ r.path)))

  -- ServeHTTP; `describe` is err.Error().
  unfoldable pub serve_http : (Error → Bytes) → Request → Exec W Response
  serve_http describe r w =
      let routed = parse_s3_request r in
      let ran = dispatch r routed.0 routed.1 routed.2 w in (completed describe ran.0, ran.1)
