-- ===== src/Server/Xml.antt =====
-- s3xml.go: the elements of the documents that the handlers write, and their bytes. The format RFC3339
-- of a time is a parameter.
pub mod Elements
pub mod Listed
use overlay_s.Base.{Bool, Bytes, List, [], codes, if◌then◌else◌, none, pos, some, ℕ, ◌++◌, ◌∷◌}
use overlay_s.Base.Decimal.{format_int}
use overlay_s.Server.{
  Document, ListBucketResult, Piece, buckets_document, bytes_piece, complete_document,
  copy_document, document_piece, error_document, initiate_document, listing_document,
  location_document, object_lock_document, parts_document, quoted, uploads_document,
  versioning_document,
}
use overlay_s.Server.Markup.{
  Content, Root, leaf, marshal_root, no_more, node, omit_empty, xml_header,
}
use overlay_s.Store.{MultipartInfo, ObjectMeta, PartInfo}

abbrev pub s3_ns : Bytes
s3_ns = codes "http://s3.amazonaws.com/doc/2006-03-01/"

abbrev pub bool_text : Bool → Bytes
bool_text b = if b then codes "true" else codes "false"

abbrev pub s3_root : Bytes → Content → Root
s3_root name content = record { name = name; xmlns = some s3_ns; content = content }

-- sigError
abbrev pub sig_error : Bytes → Bytes → Bytes → Root
sig_error code message resource = record {
  name = codes "Error";
  xmlns = none;
  content = leaf (codes "Code") code (
      leaf (codes "Message") message
        (leaf (codes "Resource") resource (leaf (codes "RequestId") (codes "overlay-s3") no_more)));
}

-- initiateMultipartUploadResult
abbrev pub initiate_root : Bytes → Bytes → Bytes → Root
initiate_root bucket key id =
    s3_root (codes "InitiateMultipartUploadResult")
      (leaf (codes "Bucket") bucket (leaf (codes "Key") key (leaf (codes "UploadId") id no_more)))

-- completeMultipartUploadResult
abbrev pub complete_root : Bytes → Bytes → Bytes → Bytes → Root
complete_root location bucket key etag = s3_root (codes "CompleteMultipartUploadResult") (
    leaf (codes "Location") location
      (leaf (codes "Bucket") bucket (leaf (codes "Key") key (leaf (codes "ETag") etag no_more))))

-- commonPrefix
unfoldable pub prefix_elements : List Bytes → Content → Content
prefix_elements [] rest = rest
prefix_elements (p ∷ ps) rest =
    node (codes "CommonPrefixes") (leaf (codes "Prefix") p no_more) (prefix_elements ps rest)

module _ (rfc3339 : ℕ → Bytes) where
  -- bucketEntry
  unfoldable pub bucket_elements : List (Bytes × ℕ) → Content
  bucket_elements [] = no_more
  bucket_elements ((name, since) ∷ entries) =
      node (codes "Bucket")
        (leaf (codes "Name") name (leaf (codes "CreationDate") (rfc3339 since) no_more))
        (bucket_elements entries)

  -- listAllMyBucketsResult, with its owner
  abbrev pub buckets_root : List (Bytes × ℕ) → Root
  buckets_root entries = s3_root (codes "ListAllMyBucketsResult") (
      node (codes "Owner")
        (leaf (codes "ID") (codes "overlay-s3")
          (leaf (codes "DisplayName") (codes "overlay-s3") no_more))
        (node (codes "Buckets") (bucket_elements entries) no_more))

  -- objectEntry
  unfoldable pub object_elements : List ObjectMeta → Content → Content
  object_elements [] rest = rest
  object_elements (o ∷ os) rest =
      node (codes "Contents")
        (leaf (codes "Key") o.key (
          leaf (codes "LastModified") (rfc3339 o.last_modified) (
            leaf (codes "ETag") (quoted o.etag) (
              leaf (codes "Size") (format_int o.size)
                (leaf (codes "StorageClass") (codes "STANDARD") no_more)))))
        (object_elements os rest)

  -- listBucketResult
  unfoldable pub listing_content : ListBucketResult → Content
  listing_content r = leaf (codes "Name") r.name (
      leaf (codes "Prefix") r.prefix (
        omit_empty (codes "Delimiter") r.delimiter (
          leaf (codes "KeyCount") (format_int (pos r.key_count)) (
            leaf (codes "MaxKeys") (format_int r.max_keys) (
              leaf (codes "IsTruncated") (bool_text r.is_truncated) (
                object_elements r.contents (
                  prefix_elements r.common_prefixes (
                    omit_empty (codes "ContinuationToken") r.continuation_token (
                      omit_empty (codes "NextContinuationToken") r.next_continuation_token
                        no_more)))))))))

  abbrev pub listing_root : ListBucketResult → Root
  listing_root r = s3_root (codes "ListBucketResult") (listing_content r)

  -- copyObjectResult
  abbrev pub copy_root : Bytes → ℕ → Root
  copy_root etag last_modified =
      s3_root (codes "CopyObjectResult")
        (leaf (codes "ETag") etag (leaf (codes "LastModified") (rfc3339 last_modified) no_more))

  -- partEntry
  unfoldable pub part_elements : List PartInfo → Content
  part_elements [] = no_more
  part_elements (p ∷ ps) =
      node (codes "Part")
        (leaf (codes "PartNumber") (format_int p.part_number) (
          leaf (codes "LastModified") (rfc3339 p.last_modified) (
            leaf (codes "ETag") (quoted p.etag) (leaf (codes "Size") (format_int p.size) no_more))))
        (part_elements ps)

  -- listPartsResult; its markers are 0 and left out
  abbrev pub parts_root : Bytes → Bytes → Bytes → List PartInfo → Root
  parts_root bucket key upload_id parts = s3_root (codes "ListPartsResult") (
      leaf (codes "Bucket") bucket (
        leaf (codes "Key") key (
          leaf (codes "UploadId") upload_id (
            leaf (codes "MaxParts") (codes "0")
              (leaf (codes "IsTruncated") (codes "false") (part_elements parts))))))

  -- multipartUploadEntry
  unfoldable pub upload_elements : List MultipartInfo → Content
  upload_elements [] = no_more
  upload_elements (u ∷ us) =
      node (codes "Upload")
        (leaf (codes "Key") u.key (
          leaf (codes "UploadId") u.upload_id (
            leaf (codes "Initiated") (rfc3339 u.initiated)
              (leaf (codes "StorageClass") (codes "STANDARD") no_more))))
        (upload_elements us)

  -- listMultipartUploadsResult; its markers are empty and left out
  abbrev pub uploads_root : Bytes → List MultipartInfo → Root
  uploads_root bucket uploads = s3_root (codes "ListMultipartUploadsResult") (
      leaf (codes "Bucket") bucket (
        leaf (codes "MaxUploads") (codes "0")
          (leaf (codes "IsTruncated") (codes "false") (upload_elements uploads))))

  unfoldable pub root_of : Document → Root
  root_of (error_document code message resource) = sig_error code message resource
  root_of (buckets_document entries) = buckets_root entries
  root_of location_document = s3_root (codes "LocationConstraint") no_more
  root_of versioning_document = s3_root (codes "VersioningConfiguration") no_more
  root_of object_lock_document =
      s3_root (codes "ObjectLockConfiguration")
        (leaf (codes "ObjectLockEnabled") (codes "Enabled") no_more)
  root_of (listing_document r) = listing_root r
  root_of (copy_document etag last_modified) = copy_root etag last_modified
  root_of (initiate_document bucket key id) = initiate_root bucket key id
  root_of (complete_document location bucket key etag) = complete_root location bucket key etag
  root_of (parts_document bucket key upload_id parts) = parts_root bucket key upload_id parts
  root_of (uploads_document bucket uploads) = uploads_root bucket uploads

  -- What writeXML writes behind the headers
  unfoldable pub written_document : Document → Bytes
  written_document d = xml_header ++ marshal_root (root_of d)

  unfoldable pub body_bytes : List Piece → Bytes
  body_bytes [] = []
  body_bytes (bytes_piece b ∷ ps) = b ++ body_bytes ps
  body_bytes (document_piece d ∷ ps) = written_document d ++ body_bytes ps
