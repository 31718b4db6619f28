-- ===== src/Overlay/Listing/Walk.antt =====
-- A client that follows the tokens of ListPage to the end.
use overlay_s.Overlay.Sessions
use overlay_s.Base.{
  Bool, Bytes, List, [], ap, arith, drop, false, length, length-drop, refl, suc, sym, take,
  take-append-drop, take_all, true, zero, ℕ, ◌++◌, ◌<◌, ◌∙◌, ◌≡◌, ◌≤◌,
}
use overlay_s.Base.Exec.{Exec, Outcome, continue, err, no_return, ok, pure, ◌>>=◌}
use overlay_s.Overlay.Cursor.{ListSource, new_list_cursor}
use overlay_s.Overlay.Cursor.Stream.{Streams}
use overlay_s.Overlay.Entries.{ListEntry, objects_of, prefixes_of}
use overlay_s.Overlay.Listing.{
  Gateway, OverlayStore, baseline_source, list_page, overlay_source, with_default_max_keys,
}
use overlay_s.Overlay.Listing.Merged.{overlay_merge}
use overlay_s.Overlay.Listing.Pages.{objects_of-append, prefixes_of-append}
use overlay_s.Overlay.Listing.Resume.{Paged, PagedResult, Position, list_page_lem, page_size}
use overlay_s.Store.{ListPage, ListParams, ObjectMeta}

module _ {W : Type 0} (now : W → ℕ) (fuel : ℕ) (o : OverlayStore W) (bucket : Bytes)
    (q : ListParams) where
  abbrev os : ListSource W
  os = overlay_source now fuel o bucket (with_default_max_keys q)

  abbrev bs : ListSource W
  bs = baseline_source now fuel o bucket (with_default_max_keys q)

  abbrev turn :
      (Bytes → Exec (Gateway W) (List ObjectMeta × List Bytes))
      → ListPage
      → Bool
      → Exec (Gateway W) (List ObjectMeta × List Bytes)
  turn again page false = pure (page.objects, page.common_prefixes)
  turn again page true = again page.next_token >>= λ rest.
      pure (page.objects ++ rest.0, page.common_prefixes ++ rest.1)

  -- At most `rounds` requests, with all that their pages show.
  unfoldable pub list_all : ℕ → Bytes → Exec (Gateway W) (List ObjectMeta × List Bytes)
  list_all zero token = λ g. (no_return, g)
  list_all (suc rounds) token = list_page now fuel o bucket (record q { after = token }) >>= λ page.
      turn (list_all rounds) page page.truncated

  page_size-pos : 0 < page_size now fuel o bucket q
  unfolding with_default_max_keys
  page_size-pos = ground arith

  abbrev size : ℕ
  size = page_size now fuel o bucket q

  module _ (es : List ListEntry) where
    objects-split : objects_of (take size es) ++ objects_of (drop size es) ≡ objects_of es
    objects-split =
        sym (objects_of-append (take size es) (drop size es))
        ∙ ap objects_of (take-append-drop size es)

    prefixes-split : prefixes_of (take size es) ++ prefixes_of (drop size es) ≡ prefixes_of es
    prefixes-split =
        sym (prefixes_of-append (take size es) (drop size es))
        ∙ ap prefixes_of (take-append-drop size es)

  module _ (rounds : ℕ)
      (again : (token : Bytes) (es : List ListEntry) (g : Gateway W)
        → length es < rounds
        → Position now fuel o bucket q g.sessions token es
        → (list_all rounds token g).0 ≡ ok (objects_of es, prefixes_of es))
      (es : List ListEntry) (h : length es < suc rounds) where
    turn_lem :
        (page : ListPage) (g : Gateway W) (cut : Bool)
        → page.truncated ≡ cut
        → Paged now fuel o bucket q es page g.sessions
        → (turn (list_all rounds) page cut g).0 ≡ ok (objects_of es, prefixes_of es)
    turn_lem page g false e p =
        let whole : length es ≤ size = ground (arith, p.cut, e) in
        let all_of : take size es ≡ es = take_all size es whole in
        cc (p.objects, p.prefixes, all_of)
    turn_lem page g true e p =
        let longer : size < length es = ground (arith, p.cut, e) in
        let shorter : length (drop size es) < rounds =
          omega (arith, length-drop size es, page_size-pos) in
        rw (again page.next_token (drop size es) g shorter (p.resume e))
          (cc (p.objects, p.prefixes, objects-split es, prefixes-split es))

    after_page :
        (r : Outcome ListPage) (g : Gateway W)
        → PagedResult now fuel o bucket q es (r, g)
        → (continue r (λ page. turn (list_all rounds) page page.truncated) g).0
          ≡ ok (objects_of es, prefixes_of es)
    after_page (ok page) g p = turn_lem page g page.truncated refl p
    after_page (err e) g h = elim h [ ]
    after_page no_return g h = elim h [ ]

  walk_lem :
      (rounds : ℕ) (token : Bytes) (es : List ListEntry) (g : Gateway W)
      → length es < rounds
      → Position now fuel o bucket q g.sessions token es
      → (list_all rounds token g).0 ≡ ok (objects_of es, prefixes_of es)
  unfolding list_all
  walk_lem zero token es g h at_token = absurd (omega arith)
  walk_lem (suc rounds) token es g h at_token =
      let r = list_page now fuel o bucket (record q { after = token }) g in
      after_page rounds (walk_lem rounds) es h r.0 r.1
        (list_page_lem now fuel o bucket q token es g at_token)

  -- Where the overlay serves `xs` and the baseline `ys`, the empty token stands before all of them.
  start_position :
      (m n : ℕ) (xs ys : List ListEntry) (ls : Sessions.ListSessions)
      → m < fuel
      → n < fuel
      → Streams os m [] xs
      → Streams bs n [] ys
      → Position now fuel o bucket q ls [] (overlay_merge xs ys)
  unfolding Sessions.lookup new_list_cursor
  start_position m n xs ys ls hm hn sx sy t = record {
    overlay_rest = xs;
    baseline_rest = ys;
    merged = refl;
    overlay_remains = record { pages = m; rest = xs; bound = hm; loaded = refl; behind = sx };
    baseline_remains = record { pages = n; rest = ys; bound = hn; loaded = refl; behind = sy };
  }

  -- Where the overlay serves `xs` and the baseline `ys`, each on fewer pages than the fuel,
  -- whatever pages they cut them into and whatever the page size, the pages of the gateway add up
  -- to the merged listing. More requests than it has entries are enough.
  pub list_all_lem :
      (m n : ℕ) (xs ys : List ListEntry) (rounds : ℕ) (g : Gateway W)
      → m < fuel
      → n < fuel
      → Streams os m [] xs
      → Streams bs n [] ys
      → length (overlay_merge xs ys) < rounds
      → (list_all rounds [] g).0
        ≡ ok (objects_of (overlay_merge xs ys), prefixes_of (overlay_merge xs ys))
  list_all_lem m n xs ys rounds g hm hn sx sy h =
      walk_lem rounds [] (overlay_merge xs ys) g h (start_position m n xs ys g.sessions hm hn sx sy)
