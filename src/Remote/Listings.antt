-- ===== src/Remote/Listings.antt =====
-- remote.go: listings through the client, and their paging loops.
use overlay_s.Base.{
  Bool, Bytes, List, Option, [], codes, false, if◌then◌else◌, is_nil, none, not, pos, some, suc,
  true, zero, ℕ, ℤ, ◌++◌, ◌||◌,
}
use overlay_s.Base.Exec.{Exec, continue, no_return, message_error, pure, raise, try_call, ◌>>=◌}
use overlay_s.Remote.Calls.{is_sdk_not_found, map_s3_error, put_body, written}
use overlay_s.Remote.Client.{Client, ListObjectsInput, bare_etag, to_bool, to_string}
use overlay_s.Remote.KeyMap.{Mapping, backend_prefix, list_prefix, map_key}
use overlay_s.Remote.Outputs.{
  add_names, all_names, listed_parts, listed_uploads, page_limit, page_of, quoted_parts,
  unless_empty,
}
use overlay_s.Store.{
  CompletedPart, ListPage, ListParams, MultipartInfo, ObjectMeta, PartInfo, Reader,
}

module _ {W : Type 0} (now : W → ℕ) (client : Client W) (s : Mapping) where
  unfoldable pub s3_list_page : Bytes → ListParams → Exec W ListPage
  s3_list_page bucket p =
      try_call
        (client.list_objects_v2 (record {
          bucket = (map_key s bucket []).0;
          prefix = backend_prefix s bucket p.prefix;
          delimiter = unless_empty p.delimiter;
          continuation_token = unless_empty p.after;
          max_keys = some (page_limit p.max_keys);
        }))
        (λ resp. pure (page_of s bucket resp)) (λ e. raise (map_s3_error e))

  -- The request for one page of the mapping root
  abbrev pub root_request : Option Bytes → ListObjectsInput
  root_request token = record {
    bucket = s.bucket;
    prefix = s.prefix;
    delimiter = some (codes "/");
    continuation_token = token;
    max_keys = none;
  }

  -- The end of a round: the return, or the next page where the response has a token for it.
  abbrev pub next_root_page :
      (Option Bytes → List Bytes → Exec W (List Bytes))
      → Bool
      → Option Bytes
      → List Bytes
      → Exec W (List Bytes)
  next_root_page again false token buckets = pure buckets
  next_root_page again true (some token) buckets = again (some token) buckets
  next_root_page again true none buckets =
      raise (message_error (codes "truncated response without continuation token"))

  -- The loop of ListBuckets, with the buckets so far; the fuel bounds its pages.
  unfoldable pub root_buckets : ℕ → Option Bytes → List Bytes → Exec W (List Bytes)
  root_buckets zero token buckets = λ w. (no_return, w)
  root_buckets (suc fuel) token buckets = client.list_objects_v2 (root_request token) >>= λ resp.
      next_root_page (root_buckets fuel) (to_bool resp.is_truncated) resp.next_continuation_token
        (add_names s buckets resp.common_prefixes)

  unfoldable pub s3_list_buckets : ℕ → Exec W (List Bytes)
  s3_list_buckets fuel =
      if is_nil s.bucket
      then (client.list_buckets >>= λ names. pure (all_names names))
      else root_buckets fuel none []

  -- HeadBucket, or one key or prefix under the bucket's root
  unfoldable pub s3_bucket_exists : Bytes → Exec W Bool
  s3_bucket_exists bucket =
      if is_nil s.bucket
      then try_call (client.head_bucket bucket) (λ done. pure true)
          (λ e. if is_sdk_not_found e then pure false else raise e)
      else client.list_objects_v2 (record {
        bucket = s.bucket;
        prefix = list_prefix s bucket;
        delimiter = none;
        continuation_token = none;
        max_keys = some (pos 1);
      })
        >>= λ resp. pure (not (is_nil resp.contents) || not (is_nil resp.common_prefixes))

  unfoldable pub s3_initiate_multipart : Bytes → Bytes → Bytes → Exec W Bytes
  s3_initiate_multipart bucket key content_type =
      let at = map_key s bucket key in
      client.create_multipart_upload at.0 at.1 content_type >>= λ id. pure (to_string id)

  unfoldable pub s3_upload_part : Bytes → Bytes → Bytes → ℤ → Reader → Exec W Bytes
  s3_upload_part bucket key id number body =
      let at = map_key s bucket key in
      (λ w.
        continue (put_body body)
          (λ bytes. client.upload_part at.0 at.1 id number bytes >>= λ etag. pure (bare_etag etag))
          w)

  unfoldable pub s3_complete_multipart :
      Bytes → Bytes → Bytes → List CompletedPart → Exec W ObjectMeta
  s3_complete_multipart bucket key id parts =
      let at = map_key s bucket key in
      client.complete_multipart_upload at.0 at.1 id (quoted_parts parts)
      >>= written now client s key

  unfoldable pub s3_abort_multipart : Bytes → Bytes → Bytes → Exec W (Unit {0})
  s3_abort_multipart bucket key id =
      let at = map_key s bucket key in client.abort_multipart_upload at.0 at.1 id

  abbrev pub next_parts :
      (Option Bytes → List PartInfo → Exec W (List PartInfo))
      → Bool
      → Option Bytes
      → List PartInfo
      → Exec W (List PartInfo)
  next_parts again false marker out = pure out
  next_parts again true (some marker) out = again (some marker) out
  next_parts again true none out =
      raise (message_error (codes "truncated response without next part marker"))

  -- The loop of ListParts, with the parts so far
  unfoldable pub parts_from :
      ℕ → Bytes × Bytes → Bytes → Option Bytes → List PartInfo → Exec W (List PartInfo)
  parts_from zero at id marker out = λ w. (no_return, w)
  parts_from (suc fuel) at id marker out = client.list_parts at.0 at.1 id marker >>= λ resp.
      next_parts (parts_from fuel at id) (to_bool resp.is_truncated) resp.next_part_number_marker
        (out ++ listed_parts resp.parts)

  unfoldable pub s3_list_parts : ℕ → Bytes → Bytes → Bytes → Exec W (List PartInfo)
  s3_list_parts fuel bucket key id = parts_from fuel (map_key s bucket key) id none []

  abbrev pub next_uploads :
      (Option Bytes → Option Bytes → List MultipartInfo → Exec W (List MultipartInfo))
      → Bool
      → Option Bytes
      → Option Bytes
      → List MultipartInfo
      → Exec W (List MultipartInfo)
  next_uploads again false key_marker id_marker out = pure out
  next_uploads again true (some key_marker) id_marker out = again (some key_marker) id_marker out
  next_uploads again true none id_marker out =
      raise (message_error (codes "truncated response without next key marker"))

  -- The loop of ListMultipartUploads, with the uploads so far
  unfoldable pub uploads_from :
      ℕ → Bytes → Option Bytes → Option Bytes → List MultipartInfo → Exec W (List MultipartInfo)
  uploads_from zero bucket key_marker id_marker out = λ w. (no_return, w)
  uploads_from (suc fuel) bucket key_marker id_marker out =
      client.list_multipart_uploads (map_key s bucket []).0 (list_prefix s bucket) key_marker
        id_marker
      >>= λ resp.
          next_uploads (uploads_from fuel bucket) (to_bool resp.is_truncated) resp.next_key_marker
            resp.next_upload_id_marker (out ++ listed_uploads s bucket resp.uploads)

  unfoldable pub s3_list_multipart_uploads : ℕ → Bytes → Exec W (List MultipartInfo)
  s3_list_multipart_uploads fuel bucket = uploads_from fuel bucket none none []
