-- ===== src/Remote/Listed.antt =====
-- remote.go, ListPage: what a backend's pages of physical keys are to a client of the store.
use overlay_s.Base.{
  Bool, Bool-cases, Bytes, List, Option, [], ap, arith, bytes_eq_refl, false, index_byte-append,
  inl, inr, is_nil, length, length-append, none, refl, some, suc, sym, true, ℕ, ◌++◌, ◌∙◌, ◌∷◌, ◌≡◌,
  ◌≢◌,
}
use overlay_s.Base.Exec.{
  Error, Outcome, err, err_not_found, handle, no_return, is_not_found, ok, pure, raise,
}
use overlay_s.Overlay.Cursor.{ListSource, fetch}
use overlay_s.Overlay.Cursor.Stream.{Streams, final, missing, more}
use overlay_s.Overlay.Entries.{ListEntry, merge_entries, merge_page_entries}
use overlay_s.Remote.Calls.{map_s3_error}
use overlay_s.Remote.Client.{
  Client, ListObjectsOutput, ListedObject, bare_etag, to_bool, to_int, to_string, to_time,
}
use overlay_s.Remote.KeyMap.{Mapping, list_prefix, map_key, object_of, split_rest, unmap}
use overlay_s.Remote.KeyMap.RoundTrip.{
  IsBucket, is_nil-false, list_prefix-root, unmap-map_key, unmap-object_of, unmap_key-root,
}
use overlay_s.Remote.Listings.{s3_list_page}
use overlay_s.Remote.Loops.{page_request}
use overlay_s.Remote.Mapped.{Absent, is_missing-Absent, s3_store}
use overlay_s.Remote.Outputs.{listed_objects, listed_prefixes, page_of}
use overlay_s.Store.{ListParams, ObjectMeta}

-- The object that an item of the backend's listing is, under a client's key
abbrev pub shown : Bytes → ListedObject → ObjectMeta
shown k l = record {
  key = k;
  size = to_int l.size;
  etag = bare_etag l.etag;
  last_modified = to_time l.last_modified;
  content_type = [];
}

module _ (s : Mapping) (b : Bytes) where
  -- Items of the backend that hold client objects, each under the key that it is mapped to; the
  -- directory marker of the bucket may stand among them.
  pub data ItemsListed : List ListedObject → List ObjectMeta → Type 0 where
    no_contents : ItemsListed [] []
    marker_item :
        {ls : List ListedObject} {os : List ObjectMeta} (l : ListedObject)
        → to_string l.key ≡ list_prefix s b
        → ItemsListed ls os
        → ItemsListed (l ∷ ls) os
    object_item :
        {ls : List ListedObject} {os : List ObjectMeta} (k : Bytes) (l : ListedObject)
        → k ≢ []
        → to_string l.key ≡ (map_key s b k).1
        → ItemsListed ls os
        → ItemsListed (l ∷ ls) (shown k l ∷ os)

  -- Common prefixes of the backend, each the mapped key of a client's prefix
  pub data PrefixesListed : List (Option Bytes) → List Bytes → Type 0 where
    no_prefixes : PrefixesListed [] []
    prefix_item :
        {ls : List (Option Bytes)} {ps : List Bytes} (p : Bytes) (l : Option Bytes)
        → p ≢ []
        → to_string l ≡ (map_key s b p).1
        → PrefixesListed ls ps
        → PrefixesListed (l ∷ ls) (p ∷ ps)

  module _ (bucket : IsBucket b) where
    mapped_bucket : is_nil s.bucket ≡ false → s.bucket ≢ []
    mapped_bucket h e = ground arith

    unmap-mapped : (k : Bytes) → k ≢ [] → unmap s b (map_key s b k).1 ≡ some k
    unmap-mapped k h = elim (Bool-cases (is_nil s.bucket)) [
      | inl plain ↦ unfold unmap map_key in rw plain (rw (is_nil-false k h) refl)
      | inr mapped ↦
          rw (unmap-map_key s (mapped_bucket mapped) b b k bucket h, bytes_eq_refl b) refl
    ]

    marker_rest : split_rest (b ++ b'/' ∷ []) (some (length b)) ≡ none
    unfolding split_rest
    marker_rest = ground (arith, length-append b (b'/' ∷ []))

    unmap-marker : unmap s b (list_prefix s b) ≡ none
    unmap-marker = elim (Bool-cases (is_nil s.bucket)) [
      | inl plain ↦ unfold unmap list_prefix in rw plain refl
      | inr mapped ↦
          let m = mapped_bucket mapped in
          rw
            (
              unmap-object_of s m b (list_prefix s b),
              list_prefix-root s m b bucket.0,
              unmap_key-root s m (b ++ b'/' ∷ []),
              index_byte-append b [] b'/' bucket.1,
              marker_rest,
            )
            (unfold object_of in refl)
    ]

    listed_objects-ItemsListed :
        (ls : List ListedObject) (os : List ObjectMeta)
        → ItemsListed ls os
        → listed_objects s b ls ≡ os
    unfolding listed_objects
    listed_objects-ItemsListed _ _ no_contents = refl
    listed_objects-ItemsListed _ _ (marker_item {ls = ls} {os = os} l e c) =
        rw (ap (unmap s b) e ∙ unmap-marker, listed_objects) (listed_objects-ItemsListed ls os c)
    listed_objects-ItemsListed _ _ (object_item {ls = ls} {os = os} k l h e c) =
        rw (ap (unmap s b) e ∙ unmap-mapped k h, listed_objects)
          (ap (◌∷◌ (shown k l)) (listed_objects-ItemsListed ls os c))

    listed_prefixes-PrefixesListed :
        (ls : List (Option Bytes)) (ps : List Bytes)
        → PrefixesListed ls ps
        → listed_prefixes s b ls ≡ ps
    unfolding listed_prefixes
    listed_prefixes-PrefixesListed _ _ no_prefixes = refl
    listed_prefixes-PrefixesListed _ _ (prefix_item {ls = ls} {ps = ps} p l h e c) =
        rw (ap (unmap s b) e ∙ unmap-mapped p h, listed_prefixes)
          (ap (◌∷◌ p) (listed_prefixes-PrefixesListed ls ps c))

-- The listing that a backend serves for a bucket of a client, page by page: its pages hold items and
-- common prefixes under mapped keys, and add up to these entries. Of a bucket that is not there, the
-- backend may say so where an absent bucket is taken for an empty one.
pub data ListingServed {W : Type 0} (now : W → ℕ) (client : Client W) (s : Mapping) (b : Bytes)
    (p : ListParams) (tolerate : Bool) : ℕ → Bytes → List ListEntry → Type 0 where
  last_page :
      {n : ℕ} {after : Bytes} {es : List ListEntry} (resp : ListObjectsOutput)
      (os : List ObjectMeta) (ps : List Bytes)
      → ((w : W)
          → (client.list_objects_v2 (page_request now client s b (record p { after = after })) w).0
            ≡ ok resp)
      → to_bool resp.is_truncated ≡ false
      → ItemsListed s b resp.contents os
      → PrefixesListed s b resp.common_prefixes ps
      → es ≡ merge_entries os ps
      → ListingServed now client s b p tolerate (suc n) after es
  next_page :
      {n : ℕ} {after : Bytes} {es rest : List ListEntry} (resp : ListObjectsOutput)
      (os : List ObjectMeta) (ps : List Bytes) (token : Bytes)
      → ((w : W)
          → (client.list_objects_v2 (page_request now client s b (record p { after = after })) w).0
            ≡ ok resp)
      → to_bool resp.is_truncated ≡ true
      → to_string resp.next_continuation_token ≡ token
      → ItemsListed s b resp.contents os
      → PrefixesListed s b resp.common_prefixes ps
      → ListingServed now client s b p tolerate n token rest
      → es ≡ merge_entries os ps ++ rest
      → ListingServed now client s b p tolerate (suc n) after es
  no_bucket :
      {n : ℕ} {after : Bytes} (e : Error)
      → ((w : W)
          → (client.list_objects_v2 (page_request now client s b (record p { after = after })) w).0
            ≡ err e)
      → Absent e
      → tolerate ≡ true
      → ListingServed now client s b p tolerate (suc n) after []

module _ {W : Type 0} (now : W → ℕ) (client : Client W) (s : Mapping) (fuel : ℕ) (b : Bytes)
    (bucket : IsBucket b) (p : ListParams) where
  -- The store's listing, as a cursor reads it
  abbrev pub listing_source : Bool → ListSource W
  listing_source tolerate = record {
    store = s3_store now client s fuel;
    bucket = b;
    prefix = p.prefix;
    delimiter = p.delimiter;
    max_keys = p.max_keys;
    tolerate_missing = tolerate;
  }

  fetched :
      (tolerate : Bool) (after : Bytes) (o : Outcome ListObjectsOutput)
      → ((w : W)
          → (client.list_objects_v2 (page_request now client s b (record p { after = after })) w).0
            ≡ o)
      → (w : W)
      → (fetch (listing_source tolerate) after w).0
        ≡ (handle o (λ resp. pure (page_of s b resp)) (λ e. raise (map_s3_error e)) w).0
  unfolding fetch s3_store s3_list_page
  fetched tolerate after o h w = world_free _ o _ w (h w)
    where
      world_free :
          (o o' : Outcome ListObjectsOutput) (w w' : W)
          → o ≡ o'
          → (handle o (λ resp. pure (page_of s b resp)) (λ e. raise (map_s3_error e)) w).0
            ≡ (handle o' (λ resp. pure (page_of s b resp)) (λ e. raise (map_s3_error e)) w').0
      world_free (ok resp) o' w w' e = rw⁻¹ e refl
      world_free (err e') o' w w' e = rw⁻¹ e refl
      world_free no_return o' w w' e = rw⁻¹ e refl

  page_entries :
      (resp : ListObjectsOutput) (os : List ObjectMeta) (ps : List Bytes)
      → ItemsListed s b resp.contents os
      → PrefixesListed s b resp.common_prefixes ps
      → merge_page_entries (page_of s b resp) ≡ merge_entries os ps
  unfolding merge_page_entries page_of
  page_entries resp os ps c d =
      rw
        (
          listed_objects-ItemsListed s b bucket _ os c,
          listed_prefixes-PrefixesListed s b bucket _ ps d,
        )
        refl

  -- Behind the store, the backend's pages are the client's listing.
  pub s3_store-Streams :
      (tolerate : Bool) (n : ℕ) (after : Bytes) (es : List ListEntry)
      → ListingServed now client s b p tolerate n after es
      → Streams (listing_source tolerate) n after es
  unfolding page_of is_not_found
  s3_store-Streams tolerate _ after es (last_page resp os ps h is_last c d e) =
      final (page_of s b resp) (fetched tolerate after (ok resp) h) is_last
        (e ∙ sym (page_entries resp os ps c d))
  s3_store-Streams tolerate _ after es
        (next_page {rest = rest} resp os ps token h going named c d later e) =
      more (page_of s b resp) (fetched tolerate after (ok resp) h) going
        (rw (going, named) (s3_store-Streams tolerate _ token rest later))
        (e ∙ ap (λ es. es ++ rest) (sym (page_entries resp os ps c d)))
  s3_store-Streams tolerate _ after _ (no_bucket e h gone taken) =
      missing err_not_found taken refl
        (λ w.
          fetched tolerate after (err e) h w
          ∙ (unfold map_s3_error in rw (is_missing-Absent e gone) refl))
        refl
