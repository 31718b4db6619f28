-- ===== src/Tests/Views.antt =====
-- The listing of one bucket over two S3 backends: two pages above, with the directory marker, and one
-- page below.
use mathlib.Core.List.{cons-ne-nil}
use overlay_s.Base.{
  Bytes, Lacks-of_contains_byte, List, Option, [], arith, bytes_le, codes, contains_byte, false,
  join, none, pos, refl, some, true, ◌∷◌, ◌≡◌,
}
use overlay_s.Base.Exec.{ok, pure}
use overlay_s.Overlay.Entries.{
  ListEntry, common_prefix, merge_entries, object, objects_of, prefixes_of,
}
use overlay_s.Overlay.Entries.Order.{Ascending}
use overlay_s.Overlay.Listing.{with_default_max_keys}
use overlay_s.Overlay.Listing.Order.{find_key, or_else}
use overlay_s.Overlay.Listing.Walk.{list_all}
use overlay_s.Remote.Client.{Client, ListObjectsOutput, ListedObject}
use overlay_s.Remote.KeyMap.{Mapping, join_key, keep_parts, list_prefix, map_key}
use overlay_s.Remote.KeyMap.RoundTrip.{IsBucket}
use overlay_s.Remote.Listed.{
  ListingServed, last_page, marker_item, next_page, no_contents, no_prefixes, object_item,
  prefix_item, shown,
}
use overlay_s.Remote.Mapped.{s3_store}
use overlay_s.Remote.View.{list_all-s3_view}
use overlay_s.Store.{ListParams}
use overlay_s.Tests.Backends.{backend, lower_backend, physical}
use overlay_s.Tests.Stores.{World, clock, gateway}

abbrev listed : Bytes → ListedObject
listed key = record { key = some key; size = some (pos 5); etag = none; last_modified = none }

abbrev first_page : ListObjectsOutput
first_page = record {
  contents = listed (codes "root/media/") ∷ listed (codes "root/media/a") ∷ [];
  common_prefixes = [];
  is_truncated = some true;
  next_continuation_token = some (codes "behind a");
}

abbrev second_page : ListObjectsOutput
second_page = record {
  contents = listed (codes "root/media/c") ∷ [];
  common_prefixes = [];
  is_truncated = some false;
  next_continuation_token = none;
}

abbrev only_page : ListObjectsOutput
only_page = record {
  contents = listed (codes "b") ∷ listed (codes "c") ∷ [];
  common_prefixes = some (codes "d/") ∷ [];
  is_truncated = none;
  next_continuation_token = none;
}

abbrev page_behind : Option Bytes → ListObjectsOutput
page_behind none = first_page
page_behind (some token) = second_page

abbrev above : Client World
above = record backend { list_objects_v2 = λ i. pure (page_behind i.continuation_token) }

abbrev below : Client World
below = record lower_backend { list_objects_v2 = λ i. pure only_page }

abbrev plain : Mapping
plain = record { bucket = []; prefix = [] }

abbrev media : Bytes
media = codes "media"

media-IsBucket : IsBucket media
unfolding contains_byte
media-IsBucket = (cons-ne-nil _ _, Lacks-of_contains_byte media b'/' refl)

abbrev two_a_page : ListParams
two_a_page = record { prefix = []; delimiter = codes "/"; after = []; max_keys = pos 2 }

abbrev above_entries : List ListEntry
above_entries =
    object (shown (codes "a") (listed (codes "root/media/a")))
    ∷ object (shown (codes "c") (listed (codes "root/media/c")))
    ∷ []

abbrev below_entries : List ListEntry
below_entries =
    object (shown (codes "b") (listed (codes "b")))
    ∷ object (shown (codes "c") (listed (codes "c")))
    ∷ common_prefix (codes "d/")
    ∷ []

above-ListingServed :
    ListingServed clock above physical media
      (with_default_max_keys two_a_page)
      true
      2
      []
      above_entries
unfolding list_prefix map_key join_key keep_parts join merge_entries
above-ListingServed =
    next_page first_page (shown (codes "a") (listed (codes "root/media/a")) ∷ []) []
      (codes "behind a") (λ w. refl) refl refl
      (marker_item (listed (codes "root/media/")) refl (
        object_item (codes "a") (listed (codes "root/media/a")) (cons-ne-nil _ _) refl no_contents))
      no_prefixes
      (last_page second_page (shown (codes "c") (listed (codes "root/media/c")) ∷ []) [] (λ w. refl)
        refl
        (object_item (codes "c") (listed (codes "root/media/c")) (cons-ne-nil _ _) refl no_contents)
        no_prefixes refl)
      refl

below-ListingServed :
    ListingServed clock below plain media
      (with_default_max_keys two_a_page)
      false
      1
      []
      below_entries
unfolding map_key merge_entries bytes_le
below-ListingServed =
    last_page only_page
      (shown (codes "b") (listed (codes "b")) ∷ shown (codes "c") (listed (codes "c")) ∷ [])
      (codes "d/" ∷ []) (λ w. refl) refl
      (object_item (codes "b") (listed (codes "b")) (cons-ne-nil _ _) refl
        (object_item (codes "c") (listed (codes "c")) (cons-ne-nil _ _) refl no_contents))
      (prefix_item (codes "d/") (some (codes "d/")) (cons-ne-nil _ _) refl no_prefixes) refl

above-Ascending : Ascending above_entries
unfolding bytes_le
above-Ascending = ((refl, tt), (tt, tt))

below-Ascending : Ascending below_entries
unfolding bytes_le
below-Ascending = ((refl, (refl, tt)), ((refl, tt), (tt, tt)))

list_all-s3_view_example :
    (es : List ListEntry) × ((list_all clock 5
        (record {
          overlay = s3_store clock above physical 5;
          baseline = s3_store clock below plain 5;
        })
        media
        two_a_page
        9
        []
        gateway).0
      ≡ ok (objects_of es, prefixes_of es))
    × Ascending es
    × ((k : Bytes) → find_key k es ≡ or_else (find_key k above_entries) (find_key k below_entries))
list_all-s3_view_example =
    list_all-s3_view clock 5 above below physical plain media media-IsBucket two_a_page 2 1
      above_entries below_entries 9 gateway (omega arith) (omega arith) above-ListingServed
      below-ListingServed above-Ascending below-Ascending (omega arith)
