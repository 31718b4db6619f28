-- ===== src/Overlay/Listing/View.antt =====
-- The listing that a client sees, against what each store lists.
use overlay_s.Base.{Bytes, List, [], arith, length, ℕ, ◌+◌, ◌<◌, ◌≡◌}
use overlay_s.Base.Exec.{ok}
use overlay_s.Overlay.Cursor.Stream.{Streams}
use overlay_s.Overlay.Entries.{ListEntry, objects_of, prefixes_of}
use overlay_s.Overlay.Entries.Order.{Ascending}
use overlay_s.Overlay.Listing.{
  Gateway, OverlayStore, baseline_source, overlay_source, with_default_max_keys,
}
use overlay_s.Overlay.Listing.Merged.{overlay_merge}
use overlay_s.Overlay.Listing.Order.{
  find_key, find_key-overlay_merge, length-overlay_merge, or_else, overlay_merge-Ascending,
}
use overlay_s.Overlay.Listing.Walk.{list_all, list_all_lem}
use overlay_s.Store.{ListParams}

module _ {W : Type 0} (now : W → ℕ) (fuel : ℕ) (o : OverlayStore W) (bucket : Bytes)
    (q : ListParams) where
  -- Where the overlay serves `xs` and the baseline `ys` in strict key order, on fewer pages than the
  -- fuel, a client that follows the tokens sees one listing: it is in strict key order, and each key
  -- has the overlay's entry where the overlay has one, and else the baseline's. `rounds` requests
  -- are enough where both listings together have fewer entries.
  pub list_all-view :
      (m n : ℕ) (xs ys : List ListEntry) (rounds : ℕ) (g : Gateway W)
      → m < fuel
      → n < fuel
      → Streams (overlay_source now fuel o bucket (with_default_max_keys q)) m [] xs
      → Streams (baseline_source now fuel o bucket (with_default_max_keys q)) n [] ys
      → Ascending xs
      → Ascending ys
      → length xs + length ys < rounds
      → (es : List ListEntry) × ((list_all now fuel o bucket q rounds [] g).0
          ≡ ok (objects_of es, prefixes_of es))
        × Ascending es
        × ((k : Bytes) → find_key k es ≡ or_else (find_key k xs) (find_key k ys))
  list_all-view m n xs ys rounds g hm hn sx sy ax ay h = (
    overlay_merge xs ys,
    list_all_lem now fuel o bucket q m n xs ys rounds g hm hn sx sy
        (omega (arith, length-overlay_merge xs ys)),
    overlay_merge-Ascending xs ys ax ay,
    λ k. find_key-overlay_merge k xs ys ax,
  )
