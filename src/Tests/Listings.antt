-- ===== src/Tests/Listings.antt =====
-- Listings at concrete stores, pages and tokens.
use overlay_s.Overlay.Sessions
use overlay_s.Base.{
  Bytes, List, [], arith, bytes_eq, bytes_le, codes, false, pos, refl, ◌||◌, ◌∷◌, ◌≡◌,
}
use overlay_s.Base.Exec.{ok}
use overlay_s.Overlay.Buckets.{contains, union_buckets}
use overlay_s.Overlay.Buckets.Union.{contains-union_buckets}
use overlay_s.Overlay.Cursor.{ListSource, fetch, new_list_cursor}
use overlay_s.Overlay.Cursor.Stream.{Streams, final, more}
use overlay_s.Overlay.Entries.{
  ListEntry, common_prefix, merge_entries, merge_page_entries, object, objects_of, prefixes_of,
}
use overlay_s.Overlay.Entries.Order.{Ascending, merge_entries-Ascending}
use overlay_s.Overlay.Listing.{baseline_source, list_page, overlay_source, with_default_max_keys}
use overlay_s.Overlay.Listing.Merged.{overlay_merge}
use overlay_s.Overlay.Listing.Order.{find_key, or_else}
use overlay_s.Overlay.Listing.Resume.{PagedResult, Position, list_page_lem}
use overlay_s.Overlay.Listing.View.{list_all-view}
use overlay_s.Overlay.Listing.Walk.{list_all, list_all_lem}
use overlay_s.Overlay.Sessions.{CursorState, create, new_list_sessions, start_state}
use overlay_s.Overlay.Sessions.Lifetime.{SessionEvent, created, looked_up, lookup-run, run}
use overlay_s.Store.{ListParams}
use overlay_s.Tests.Stores.{World, baseline_page, clock, gateway, meta, overlay_pages, two_stores}

abbrev params : ListParams
params = record { prefix = []; delimiter = codes "/"; after = []; max_keys = pos 2 }

abbrev bucket : Bytes
bucket = codes "media"

abbrev os : ListSource World
os = overlay_source clock 5 two_stores bucket (with_default_max_keys params)

abbrev bs : ListSource World
bs = baseline_source clock 5 two_stores bucket (with_default_max_keys params)

abbrev overlay_entries : List ListEntry
overlay_entries =
    object (meta (codes "a") (codes "upper")) ∷ object (meta (codes "c") (codes "upper")) ∷ []

abbrev baseline_entries : List ListEntry
baseline_entries =
    object (meta (codes "b") (codes "lower"))
    ∷ object (meta (codes "c") (codes "lower"))
    ∷ common_prefix (codes "d/")
    ∷ []

overlay-Streams : Streams os 2 [] overlay_entries
unfolding merge_page_entries merge_entries fetch with_default_max_keys
overlay-Streams =
    more (overlay_pages []) (λ w. refl) refl
      (final (overlay_pages (codes "behind a")) (λ w. refl) refl refl) refl

baseline-Streams : Streams bs 1 [] baseline_entries
unfolding merge_page_entries merge_entries fetch with_default_max_keys bytes_le
baseline-Streams = final baseline_page (λ w. refl) refl refl

abbrev merged : List ListEntry
merged = overlay_merge overlay_entries baseline_entries

list_all_example :
    (list_all clock 5 two_stores bucket params 9 [] gateway).0
    ≡ ok (objects_of merged, prefixes_of merged)
unfolding overlay_merge bytes_le bytes_eq
list_all_example =
    list_all_lem clock 5 two_stores bucket params 2 1 overlay_entries baseline_entries 9 gateway
      (omega arith) (omega arith) overlay-Streams baseline-Streams (omega arith)

start : Position clock 5 two_stores bucket params new_list_sessions [] merged
unfolding Sessions.lookup new_list_cursor
start t = record {
  overlay_rest = overlay_entries;
  baseline_rest = baseline_entries;
  merged = refl;
  overlay_remains = record {
    pages = 2;
    rest = overlay_entries;
    bound = omega arith;
    loaded = refl;
    behind = overlay-Streams;
  };
  baseline_remains = record {
    pages = 1;
    rest = baseline_entries;
    bound = omega arith;
    loaded = refl;
    behind = baseline-Streams;
  };
}

list_page_example :
    PagedResult clock 5 two_stores bucket params merged
      (list_page clock 5 two_stores bucket params gateway)
list_page_example = list_page_lem clock 5 two_stores bucket params [] merged gateway start

overlay-Ascending : Ascending overlay_entries
unfolding bytes_le
overlay-Ascending = ((refl, tt), (tt, tt))

baseline-Ascending : Ascending baseline_entries
unfolding bytes_le
baseline-Ascending = ((refl, (refl, tt)), ((refl, tt), (tt, tt)))

list_all-view_example :
    (es : List ListEntry) × ((list_all clock 5 two_stores bucket params 9 [] gateway).0
      ≡ ok (objects_of es, prefixes_of es))
    × Ascending es
    × ((k : Bytes)
        → find_key k es ≡ or_else (find_key k overlay_entries) (find_key k baseline_entries))
list_all-view_example =
    list_all-view clock 5 two_stores bucket params 2 1 overlay_entries baseline_entries 9 gateway
      (omega arith) (omega arith) overlay-Streams baseline-Streams overlay-Ascending
      baseline-Ascending (omega arith)

merge_entries-Ascending_example :
    Ascending (merge_entries baseline_page.objects baseline_page.common_prefixes)
unfolding bytes_le
merge_entries-Ascending_example =
    merge_entries-Ascending baseline_page.objects baseline_page.common_prefixes
      ((refl, tt), (tt, tt)) (tt, tt) (((λ e. ground arith), tt), (((λ e. ground arith), tt), tt))

abbrev state : CursorState
state = record { after = codes "t"; remaining = overlay_entries; done = false }

abbrev events : List SessionEvent
events = created 200 start_state state ∷ looked_up 300 (codes "2") ∷ []

lookup-run_example :
    (Sessions.lookup 900
      (create 100 state start_state new_list_sessions).0
      (run events (create 100 state start_state new_list_sessions).1)).0
    ≡ (state, start_state)
lookup-run_example =
    lookup-run 100 900 state start_state new_list_sessions events (omega arith)
      ((omega arith, omega arith), ((omega arith, omega arith), tt))

contains-union_buckets_example :
    contains (union_buckets (codes "b" ∷ []) (codes "a" ∷ codes "b" ∷ [])) (codes "a")
    ≡ (contains (codes "b" ∷ []) (codes "a") || contains (codes "a" ∷ codes "b" ∷ []) (codes "a"))
contains-union_buckets_example =
    contains-union_buckets (codes "a") (codes "b" ∷ []) (codes "a" ∷ codes "b" ∷ [])
