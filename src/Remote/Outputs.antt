-- ===== src/Remote/Outputs.antt =====
-- remote.go: what the methods make of the answers of the SDK, and of what they are given.
use overlay_s.Base.{
  Bytes, List, Option, [], if◌then◌else◌, is_nil, leb_ℤ, none, pos, quote, some, trim, wrap32, ℤ,
  ◌++◌, ◌∷◌,
}
use overlay_s.Overlay.Buckets.{set_key}
use overlay_s.Remote.Client.{
  ListObjectsOutput, ListedObject, ListedPart, ListedUpload, bare_etag, to_bool, to_int, to_string,
  to_time,
}
use overlay_s.Remote.KeyMap.{Mapping, unmap, unmap_prefix_root}
use overlay_s.Store.{CompletedPart, ListPage, MultipartInfo, ObjectMeta, PartInfo}

-- The loop over resp.Contents
unfoldable pub listed_objects : Mapping → Bytes → List ListedObject → List ObjectMeta
listed_objects s bucket [] = []
listed_objects s bucket (o ∷ os) =
    let rest = listed_objects s bucket os in
    elim (unmap s bucket (to_string o.key)) [
      | none ↦ rest
      | some key ↦
          record {
            key = key;
            size = to_int o.size;
            etag = bare_etag o.etag;
            last_modified = to_time o.last_modified;
            content_type = [];
          }
          ∷ rest
    ]

-- The loop over resp.CommonPrefixes
unfoldable pub listed_prefixes : Mapping → Bytes → List (Option Bytes) → List Bytes
listed_prefixes s bucket [] = []
listed_prefixes s bucket (p ∷ ps) =
    let rest = listed_prefixes s bucket ps in
    elim (unmap s bucket (to_string p)) [ none ↦ rest | some prefix ↦ prefix ∷ rest ]

-- ListPage behind the call of the client
unfoldable pub page_of : Mapping → Bytes → ListObjectsOutput → ListPage
page_of s bucket resp = record {
  objects = listed_objects s bucket resp.contents;
  common_prefixes = listed_prefixes s bucket resp.common_prefixes;
  truncated = to_bool resp.is_truncated;
  next_token = if to_bool resp.is_truncated then to_string resp.next_continuation_token else [];
}

abbrev pub unless_empty : Bytes → Option Bytes
unless_empty s = if is_nil s then none else some s

-- int32(p.MaxKeys), with the default
unfoldable pub page_limit : ℤ → ℤ
page_limit n = wrap32 (if leb_ℤ n (pos 0) then pos 1000 else n)

-- buckets with seen: the names that were appended are the ones that were seen
unfoldable pub add_name : List Bytes → Option Bytes → List Bytes
add_name buckets none = buckets
add_name buckets (some name) = set_key buckets name

unfoldable pub add_names : Mapping → List Bytes → List (Option Bytes) → List Bytes
add_names s buckets [] = buckets
add_names s buckets (p ∷ ps) = add_names s (add_name buckets (unmap_prefix_root s (to_string p))) ps

unfoldable pub all_names : List (Option Bytes) → List Bytes
all_names [] = []
all_names (b ∷ bs) = to_string b ∷ all_names bs

unfoldable pub listed_parts : List ListedPart → List PartInfo
listed_parts [] = []
listed_parts (p ∷ ps) =
    record {
      part_number = to_int p.part_number;
      etag = bare_etag p.etag;
      size = to_int p.size;
      last_modified = to_time p.last_modified;
    }
    ∷ listed_parts ps

unfoldable pub listed_uploads : Mapping → Bytes → List ListedUpload → List MultipartInfo
listed_uploads s bucket [] = []
listed_uploads s bucket (u ∷ us) =
    let rest = listed_uploads s bucket us in
    elim (unmap s bucket (to_string u.key)) [
      | none ↦ rest
      | some key ↦
          record { key = key; upload_id = to_string u.upload_id; initiated = to_time u.initiated }
          ∷ rest
    ]

-- The parts of CompleteMultipart, with quoted tags
unfoldable pub quoted_parts : List CompletedPart → List CompletedPart
quoted_parts [] = []
quoted_parts (p ∷ ps) =
    record { part_number = p.part_number; etag = quote ∷ trim p.etag quote ++ quote ∷ [] }
    ∷ quoted_parts ps
