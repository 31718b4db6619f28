-- ===== src/Remote/Pages.antt =====
-- What the paging loops of the client's listings return.
use overlay_s.Base.{
  All, Bool, Bytes, Lacks, List, Option, [], append_assoc, arith, cut, false, none, refl, some, suc,
  true, zero, ℕ, ◌++◌, ◌∷◌, ◌≡◌, ◌≢◌, ◌≤◌,
}
use overlay_s.Base.Exec.{Outcome, continue, err, no_return, ok}
use overlay_s.Overlay.Cursor.{next}
use overlay_s.Remote.Client.{Client, ListObjectsOutput, ListPartsOutput, to_bool, to_string}
use overlay_s.Remote.KeyMap.{Mapping, map_key}
use overlay_s.Remote.KeyMap.Roots.{unmap_prefix_root-bare_prefix}
use overlay_s.Remote.KeyMap.RoundTrip.{is_nil-false}
use overlay_s.Remote.Listings.{
  next_root_page, parts_from, root_buckets, root_request, s3_list_buckets, s3_list_parts,
}
use overlay_s.Remote.Outputs.{add_name, add_names, listed_parts}
use overlay_s.Store.{PartInfo}

module _ {W : Type 0} (client : Client W) (bucket key id : Bytes) where
  -- The pages of an upload's parts behind a marker, and the parts that they add up to.
  pub data PartPages : ℕ → Option Bytes → List PartInfo → Type 0 where
    last_parts :
        {n : ℕ} {marker : Option Bytes} {parts : List PartInfo} (resp : ListPartsOutput)
        → ((w : W) → (client.list_parts bucket key id marker w).0 ≡ ok resp)
        → to_bool resp.is_truncated ≡ false
        → parts ≡ listed_parts resp.parts
        → PartPages (suc n) marker parts
    more_parts :
        {n : ℕ} {marker : Option Bytes} {parts rest : List PartInfo} (resp : ListPartsOutput)
        (next : Bytes)
        → ((w : W) → (client.list_parts bucket key id marker w).0 ≡ ok resp)
        → to_bool resp.is_truncated ≡ true
        → resp.next_part_number_marker ≡ some next
        → PartPages n (some next) rest
        → parts ≡ listed_parts resp.parts ++ rest
        → PartPages (suc n) marker parts

module _ {W : Type 0} (now : W → ℕ) (client : Client W) (s : Mapping) where
  parts_from_lem :
      (fuel n : ℕ) (at : Bytes × Bytes) (id : Bytes) (marker : Option Bytes)
      (out parts : List PartInfo) (w : W)
      → n ≤ fuel
      → PartPages client at.0 at.1 id n marker parts
      → (parts_from now client s fuel at id marker out w).0 ≡ ok (out ++ parts)
  unfolding parts_from
  parts_from_lem zero n at id marker out parts w h (last_parts resp e cut p) = absurd (omega arith)
  parts_from_lem zero n at id marker out parts w h (more_parts resp next e cut to pages p) =
      absurd (omega arith)
  parts_from_lem (suc fuel) n at id marker out parts w h (last_parts resp e cut p) =
      rw (e w, cut, p) refl
  parts_from_lem (suc fuel) (suc n) at id marker out parts w h
        (more_parts {rest = rest} resp next e cut to pages p) =
      rw (e w, cut, to, p, ← append_assoc out (listed_parts resp.parts) rest)
        (parts_from_lem fuel n at id (some next) _ rest _ (omega arith) pages)

  -- ListParts returns the parts of all pages in their order. The backend serves them on some
  -- pages, each with a marker for the next, and the fuel is enough for as many.
  pub s3_list_parts_lem :
      (fuel n : ℕ) (bucket key id : Bytes) (parts : List PartInfo) (w : W)
      → n ≤ fuel
      → PartPages client (map_key s bucket key).0 (map_key s bucket key).1 id n none parts
      → (s3_list_parts now client s fuel bucket key id w).0 ≡ ok parts
  unfolding s3_list_parts
  s3_list_parts_lem fuel n bucket key id parts w h pages =
      parts_from_lem fuel n (map_key s bucket key) id none [] parts w h pages

  -- Names that a page of the mapping root gives where no prefix of it goes on with a slash.
  abbrev pub BarePrefixes : List (Option Bytes) → Type 0
  BarePrefixes =
      All (λ p. (m : Bytes) × Lacks b'/' m × (to_string p ≡ s.prefix ++ (m ++ b'/' ∷ [])))

  module _ (mapped : s.bucket ≢ []) (prefixed : s.prefix ≢ []) where
    add_names-Bare :
        (buckets : List Bytes) (ps : List (Option Bytes))
        → BarePrefixes ps
        → add_names s buckets ps ≡ buckets
    unfolding add_names add_name
    add_names-Bare buckets [] h = refl
    add_names-Bare buckets (p ∷ ps) ((m, lacks, e), h) =
        rw (e, unmap_prefix_root-bare_prefix s mapped m prefixed lacks)
          (add_names-Bare buckets ps h)

    abbrev pub Bare : Outcome ListObjectsOutput → Type 0
    Bare (ok resp) = BarePrefixes resp.common_prefixes
    Bare (err e) = Unit
    Bare no_return = Unit

    -- A listing of these buckets, if it comes to an end
    abbrev pub Lists : List Bytes → Outcome (List Bytes) → Type 0
    Lists names (ok found) = found ≡ names
    Lists names (err e) = Unit
    Lists names no_return = Unit

    after_page :
        (fuel : ℕ) (buckets : List Bytes) (r : Outcome ListObjectsOutput) (w : W)
        → ((token : Option Bytes) (w' : W)
            → Lists buckets (root_buckets now client s fuel token buckets w').0)
        → Bare r
        → Lists buckets
            (continue r
              (λ resp.
                next_root_page now client s
                  (root_buckets now client s fuel)
                  (to_bool resp.is_truncated)
                  resp.next_continuation_token
                  (add_names s buckets resp.common_prefixes))
              w).0
    after_page fuel buckets (err e) w again bare = tt
    after_page fuel buckets no_return w again bare = tt
    after_page fuel buckets (ok resp) w again bare =
        rw (add_names-Bare buckets resp.common_prefixes bare)
          (ended (to_bool resp.is_truncated) resp.next_continuation_token)
      where
        ended :
            (truncated : Bool) (token : Option Bytes)
            → Lists buckets
                (next_root_page now client s
                  (root_buckets now client s fuel)
                  truncated
                  token
                  buckets
                  w).0
        ended false token = refl
        ended true none = tt
        ended true (some token) = again (some token) w

    root_buckets-Bare :
        (fuel : ℕ) (token : Option Bytes) (buckets : List Bytes) (w : W)
        → ((t : Option Bytes) (w' : W)
            → Bare (client.list_objects_v2 (root_request now client s t) w').0)
        → Lists buckets (root_buckets now client s fuel token buckets w).0
    unfolding root_buckets
    root_buckets-Bare zero token buckets w bare = tt
    root_buckets-Bare (suc fuel) token buckets w bare =
        after_page fuel buckets (client.list_objects_v2 (root_request now client s token) w).0
          (client.list_objects_v2 (root_request now client s token) w).1
          (λ t w'. root_buckets-Bare fuel t buckets w' bare) (bare token w)

    -- Where a bucket and a prefix are configured, and each common prefix of a page of the mapping
    -- root is the prefix and a text whose one slash is its last byte, ListBuckets lists no bucket.
    pub s3_list_buckets-Bare :
        (fuel : ℕ) (w : W)
        → ((t : Option Bytes) (w' : W)
            → Bare (client.list_objects_v2 (root_request now client s t) w').0)
        → Lists [] (s3_list_buckets now client s fuel w).0
    unfolding s3_list_buckets
    s3_list_buckets-Bare fuel w bare =
        rw (is_nil-false s.bucket mapped) (root_buckets-Bare fuel none [] w bare)
