-- ===== src/Remote/Unchanged.antt =====
-- remote.go: what the calls of s3Store keep, where the client's calls keep it.
use overlay_s.Base.{Bool, Bytes, List, Option, [], false, none, some, suc, true, zero, ℕ}
use overlay_s.Base.Exec.{Exec}
use overlay_s.Base.Exec.Rules.{
  Follows, Keeping, Keeping-Follows, Keeps, bind-Follows, pure-Follows, raise-Follows,
}
use overlay_s.Overlay.Gateway.ReadOnly.{ReadsKeep, WritesKeep}
use overlay_s.Remote.Backend.{ClientReads, ClientWrites, s3_store-ReadCalls, s3_store-WriteCalls}
use overlay_s.Remote.Client.{Client, ListObjectsInput, to_bool}
use overlay_s.Remote.KeyMap.{Mapping, list_prefix, map_key}
use overlay_s.Remote.Listings.{
  next_parts, next_root_page, next_uploads, parts_from, root_buckets, root_request, uploads_from,
}
use overlay_s.Remote.Mapped.{s3_store}
use overlay_s.Store.{MultipartInfo, PartInfo}

module _ {W : Type 0} (P : W → Type 0) (now : W → ℕ) (client : Client W) (s : Mapping) where
  keeping : Follows (Keeping P)
  keeping = Keeping-Follows P

  next_root_page-Keeps :
      (again : Option Bytes → List Bytes → Exec W (List Bytes)) (b : Bool) (token : Option Bytes)
      (names : List Bytes)
      → ((token : Option Bytes) (names : List Bytes) → Keeps P (again token names))
      → Keeps P (next_root_page now client s again b token names)
  next_root_page-Keeps again false token names k = pure-Follows keeping names
  next_root_page-Keeps again true (some t) names k = k (some t) names
  next_root_page-Keeps again true none names k = raise-Follows keeping _

  root_buckets-Keeps :
      ((i : ListObjectsInput) → Keeps P (client.list_objects_v2 i))
      → (fuel : ℕ) (token : Option Bytes) (names : List Bytes)
      → Keeps P (root_buckets now client s fuel token names)
  unfolding root_buckets
  root_buckets-Keeps lists zero token names = record { at = λ w h. h }
  root_buckets-Keeps lists (suc fuel) token names =
      bind-Follows keeping _ _ (lists (root_request now client s token)) (λ resp.
        next_root_page-Keeps (root_buckets now client s fuel) (to_bool resp.is_truncated)
          resp.next_continuation_token _ (root_buckets-Keeps lists fuel))

  next_parts-Keeps :
      (again : Option Bytes → List PartInfo → Exec W (List PartInfo)) (b : Bool)
      (marker : Option Bytes) (parts : List PartInfo)
      → ((marker : Option Bytes) (parts : List PartInfo) → Keeps P (again marker parts))
      → Keeps P (next_parts now client s again b marker parts)
  next_parts-Keeps again false marker parts k = pure-Follows keeping parts
  next_parts-Keeps again true (some m) parts k = k (some m) parts
  next_parts-Keeps again true none parts k = raise-Follows keeping _

  parts_from-Keeps :
      ((b k id : Bytes) (m : Option Bytes) → Keeps P (client.list_parts b k id m))
      → (fuel : ℕ) (at : Bytes × Bytes) (id : Bytes) (marker : Option Bytes) (parts : List PartInfo)
      → Keeps P (parts_from now client s fuel at id marker parts)
  unfolding parts_from
  parts_from-Keeps lists zero at id marker parts = record { at = λ w h. h }
  parts_from-Keeps lists (suc fuel) at id marker parts =
      bind-Follows keeping _ _ (lists at.0 at.1 id marker) (λ resp.
        next_parts-Keeps (parts_from now client s fuel at id) (to_bool resp.is_truncated)
          resp.next_part_number_marker _ (parts_from-Keeps lists fuel at id))

  next_uploads-Keeps :
      (again : Option Bytes → Option Bytes → List MultipartInfo → Exec W (List MultipartInfo))
      (b : Bool) (key_marker id_marker : Option Bytes) (uploads : List MultipartInfo)
      → ((k m : Option Bytes) (uploads : List MultipartInfo) → Keeps P (again k m uploads))
      → Keeps P (next_uploads now client s again b key_marker id_marker uploads)
  next_uploads-Keeps again false key_marker id_marker uploads k = pure-Follows keeping uploads
  next_uploads-Keeps again true (some m) id_marker uploads k = k (some m) id_marker uploads
  next_uploads-Keeps again true none id_marker uploads k = raise-Follows keeping _

  uploads_from-Keeps :
      ((b prefix : Bytes) (k m : Option Bytes)
        → Keeps P (client.list_multipart_uploads b prefix k m))
      → (fuel : ℕ) (b : Bytes) (key_marker id_marker : Option Bytes) (uploads : List MultipartInfo)
      → Keeps P (uploads_from now client s fuel b key_marker id_marker uploads)
  unfolding uploads_from
  uploads_from-Keeps lists zero b key_marker id_marker uploads = record { at = λ w h. h }
  uploads_from-Keeps lists (suc fuel) b key_marker id_marker uploads =
      bind-Follows keeping _ _ (lists (map_key s b []).0 (list_prefix s b) key_marker id_marker)
        (λ resp.
          next_uploads-Keeps (uploads_from now client s fuel b) (to_bool resp.is_truncated)
            resp.next_key_marker resp.next_upload_id_marker _ (uploads_from-Keeps lists fuel b))

  -- The client's listings of uploads and their parts keep `P`.
  pub record ClientListsKeep : Type 0 where
    pub list_parts : (b k id : Bytes) (m : Option Bytes) → Keeps P (client.list_parts b k id m)
    pub list_uploads :
        (b prefix : Bytes) (k m : Option Bytes)
        → Keeps P (client.list_multipart_uploads b prefix k m)

  -- What the client's reads keep is kept by the store's reads, which make no other calls.
  pub s3_store-ReadsKeep :
      (fuel : ℕ) → ClientReads (Keeping P) client → ReadsKeep (s3_store now client s fuel) P
  s3_store-ReadsKeep fuel reads =
      s3_store-ReadCalls keeping now client s fuel reads
        (root_buckets-Keeps reads.list_objects fuel none [])

  pub s3_store-WritesKeep :
      (fuel : ℕ)
      → ClientWrites (Keeping P) client
      → ClientListsKeep
      → WritesKeep (s3_store now client s fuel) P
  s3_store-WritesKeep fuel writes lists =
      s3_store-WriteCalls keeping now client s fuel writes
        (λ at id. parts_from-Keeps lists.list_parts fuel at id none [])
        (λ b. uploads_from-Keeps lists.list_uploads fuel b none none [])
