-- ===== src/Remote/View.antt =====
-- The gateway's listing over two S3 stores, against what their backends hold.
use overlay_s.Base.{Bytes, List, [], false, length, true, ℕ, ◌+◌, ◌<◌, ◌≡◌}
use overlay_s.Base.Exec.{ok}
use overlay_s.Overlay.Entries.{ListEntry, objects_of, prefixes_of}
use overlay_s.Overlay.Entries.Order.{Ascending}
use overlay_s.Overlay.Listing.{Gateway, OverlayStore, with_default_max_keys}
use overlay_s.Overlay.Listing.Order.{find_key, or_else}
use overlay_s.Overlay.Listing.View.{list_all-view}
use overlay_s.Overlay.Listing.Walk.{list_all}
use overlay_s.Remote.Client.{Client}
use overlay_s.Remote.KeyMap.{Mapping}
use overlay_s.Remote.KeyMap.RoundTrip.{IsBucket}
use overlay_s.Remote.Listed.{ListingServed, s3_store-Streams}
use overlay_s.Remote.Mapped.{s3_store}
use overlay_s.Store.{ListParams}

module _ {W : Type 0} (now : W → ℕ) (fuel : ℕ) (overlay_client baseline_client : Client W)
    (overlay_mapping baseline_mapping : Mapping) (b : Bytes) (bucket : IsBucket b)
    (q : ListParams) where
  abbrev s3_stores : OverlayStore W
  s3_stores = record {
    overlay = s3_store now overlay_client overlay_mapping fuel;
    baseline = s3_store now baseline_client baseline_mapping fuel;
  }

  -- Where the overlay's backend serves the client's entries `xs` under the keys that they are mapped to,
  -- the directory marker among them or no bucket at all, and the baseline's backend serves `ys`, each
  -- in strict key order and on fewer pages than the fuel, a client that follows the tokens of the
  -- gateway sees one listing by its own keys: in strict key order, and with the overlay's entry for
  -- a key where the overlay has one, else the baseline's. More requests than both listings have
  -- entries are enough. The bucket has a name without a slash.
  pub list_all-s3_view :
      (m n : ℕ) (xs ys : List ListEntry) (rounds : ℕ) (g : Gateway W)
      → m < fuel
      → n < fuel
      → ListingServed now overlay_client overlay_mapping b (with_default_max_keys q) true m [] xs
      → ListingServed now baseline_client baseline_mapping b (with_default_max_keys q) false n [] ys
      → Ascending xs
      → Ascending ys
      → length xs + length ys < rounds
      → (es : List ListEntry) × ((list_all now fuel s3_stores b q rounds [] g).0
          ≡ ok (objects_of es, prefixes_of es))
        × Ascending es
        × ((k : Bytes) → find_key k es ≡ or_else (find_key k xs) (find_key k ys))
  list_all-s3_view m n xs ys rounds g hm hn sx sy ax ay h =
      let p = with_default_max_keys q in
      list_all-view now fuel s3_stores b q m n xs ys rounds g hm hn
        (s3_store-Streams now overlay_client overlay_mapping fuel b bucket p true m [] xs sx)
        (s3_store-Streams now baseline_client baseline_mapping fuel b bucket p false n [] ys sy) ax
        ay h
