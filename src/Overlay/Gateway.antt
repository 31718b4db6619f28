-- ===== src/Overlay/Gateway.antt =====
-- overlay.go, overlayStore as a store of its own.
pub mod Calls
pub mod Ending
pub mod ReadOnly
pub mod Layered
use overlay_s.Overlay.Listing
use overlay_s.Base.{Bool, Bytes, List, Option, false, if◌then◌else◌, true, ℕ}
use overlay_s.Base.Exec.{Error, Exec, eq_not_found, pure, raise, try_call, ◌>>=◌}
use overlay_s.Overlay.Buckets.{union_buckets}
use overlay_s.Overlay.Listing.{Gateway, OverlayStore, list_page, on_world}
use overlay_s.Store.{ByteRange, ObjectMeta, Reader, Store}

-- A store's error, passed on unless it is ErrNotFound itself.
abbrev pub fall_back {ℓ} : {W : Type 0} {A : Type ℓ} → Exec W A → Error → Exec W A
fall_back m e = if eq_not_found e then m else raise e

module _ {W : Type 0} (o : OverlayStore W) where
  unfoldable pub get_with_fallback : Bytes → Bytes → Option ByteRange → Exec W (Reader × ObjectMeta)
  get_with_fallback bucket key rng =
      try_call (o.overlay.get bucket key rng) pure (fall_back (o.baseline.get bucket key rng))

  unfoldable pub head_with_fallback : Bytes → Bytes → Exec W ObjectMeta
  head_with_fallback bucket key =
      try_call (o.overlay.head bucket key) pure (fall_back (o.baseline.head bucket key))

  unfoldable pub merged_buckets : Exec W (List Bytes)
  merged_buckets = o.overlay.list_buckets >>= λ overlay.
      o.baseline.list_buckets >>= λ baseline. pure (union_buckets overlay baseline)

  -- An error of the baseline means that the bucket is not there.
  unfoldable pub exists_in_either : Bytes → Exec W Bool
  exists_in_either bucket = o.overlay.bucket_exists bucket >>= λ found.
      if found then pure true else try_call (o.baseline.bucket_exists bucket) pure (λ e. pure false)

-- Every write and every multipart call goes to the overlay.
unfoldable pub overlay_store : {W : Type 0} → (W → ℕ) → ℕ → OverlayStore W → Store (Gateway W)
overlay_store now fuel o = record {
  get = λ bucket key rng. on_world (get_with_fallback o bucket key rng);
  head = λ bucket key. on_world (head_with_fallback o bucket key);
  put = λ bucket key body ct. on_world (o.overlay.put bucket key body ct);
  list_page = λ bucket p. Listing.list_page now fuel o bucket p;
  list_buckets = on_world (merged_buckets o);
  bucket_exists = λ bucket. on_world (exists_in_either o bucket);
  create_bucket = λ bucket. on_world (o.overlay.create_bucket bucket);
  initiate_multipart = λ bucket key ct. on_world (o.overlay.initiate_multipart bucket key ct);
  upload_part =
      λ bucket key id number body. on_world (o.overlay.upload_part bucket key id number body);
  complete_multipart =
      λ bucket key id parts. on_world (o.overlay.complete_multipart bucket key id parts);
  abort_multipart = λ bucket key id. on_world (o.overlay.abort_multipart bucket key id);
  list_parts = λ bucket key id. on_world (o.overlay.list_parts bucket key id);
  list_multipart_uploads = λ bucket. on_world (o.overlay.list_multipart_uploads bucket);
}
