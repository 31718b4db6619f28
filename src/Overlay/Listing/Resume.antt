-- ===== src/Overlay/Listing/Resume.antt =====
-- ListPage as a whole: a page shows the next entries of the merged listing, its token resumes the
-- rest, and a client that follows the tokens sees the merged listing once.
use overlay_s.Overlay.Sessions
use overlay_s.Base.{
  Bool, Bytes, List, [], ap, arith, drop, false, is_nil, length, ltb, not, pos_part, refl, suc, sym,
  take, take_all, true, zero, ℕ, ◌∙◌, ◌∷◌, ◌≡◌,
}
use overlay_s.Base.Exec.{Outcome, continue, err, no_return, ok}
use overlay_s.Overlay.Cursor.{ListCursor, ListSource, new_list_cursor, snapshot}
use overlay_s.Overlay.Cursor.Stream.{Remains}
use overlay_s.Overlay.Entries.{ListEntry, objects_of, prefixes_of}
use overlay_s.Overlay.Listing.{
  Gateway, LoopEnd, OverlayStore, baseline_source, close_page, filled, finish, list_page,
  lookup_session, merge_loop, overlay_source, peek_more, returned, with_default_max_keys,
}
use overlay_s.Overlay.Listing.Merge.{Filled, Merges, merge_loop_lem}
use overlay_s.Overlay.Listing.Merged.{append_entries}
use overlay_s.Overlay.Listing.Pages.{
  MorePeeked, objects-append_entries, peek_more_lem, prefixes-append_entries,
  truncated-append_entries,
}
use overlay_s.Overlay.Sessions.{ListSessions}
use overlay_s.Overlay.Sessions.Lifetime.{lookup-create}
use overlay_s.Store.{ListPage, ListParams, empty_page}

module _ {W : Type 0} (now : W → ℕ) (fuel : ℕ) (o : OverlayStore W) (bucket : Bytes)
    (q : ListParams) where
  abbrev os : ListSource W
  os = overlay_source now fuel o bucket (with_default_max_keys q)

  abbrev bs : ListSource W
  bs = baseline_source now fuel o bucket (with_default_max_keys q)

  -- The entries that a page may hold.
  abbrev pub page_size : ℕ
  page_size = pos_part (with_default_max_keys q).max_keys

  -- With the sessions `ls`, a request with this token has the entries `es` before it.
  abbrev pub Position : ListSessions → Bytes → List ListEntry → Type 0
  Position ls token es =
      (t : ℕ)
      → Merges os bs fuel (new_list_cursor (Sessions.lookup t token ls).0.0)
          (new_list_cursor (Sessions.lookup t token ls).0.1) es

  pub record Paged (es : List ListEntry) (page : ListPage) (ls : ListSessions) : Type 0 where
    pub objects : page.objects ≡ objects_of (take page_size es)
    pub prefixes : page.common_prefixes ≡ prefixes_of (take page_size es)
    pub cut : page.truncated ≡ ltb page_size (length es)
    pub resume : page.truncated ≡ true → Position ls page.next_token (drop page_size es)

  abbrev pub PagedResult : List ListEntry → Outcome ListPage × Gateway W → Type 0
  PagedResult es (ok page, g) = Paged es page g.sessions
  PagedResult es (err e, g) = ⊥
  PagedResult es (no_return, g) = ⊥

  Remains-snapshot :
      (s : ListSource W) (c : ListCursor) (es : List ListEntry)
      → Remains s fuel c es
      → Remains s fuel (new_list_cursor (snapshot c)) es
  unfolding new_list_cursor snapshot
  Remains-snapshot s c es r = record {
    pages = r.pages;
    rest = r.rest;
    bound = r.bound;
    loaded = r.loaded;
    behind = r.behind;
  }

  Position-create :
      (t : ℕ) (oc bc : ListCursor) (ls : ListSessions) (es : List ListEntry)
      → Merges os bs fuel oc bc es
      → Position
          (Sessions.create t (snapshot oc) (snapshot bc) ls).1
          (Sessions.create t (snapshot oc) (snapshot bc) ls).0
          es
  Position-create t oc bc ls es m later =
      rw (lookup-create t later (snapshot oc) (snapshot bc) ls) (record {
        overlay_rest = m.overlay_rest;
        baseline_rest = m.baseline_rest;
        merged = m.merged;
        overlay_remains = Remains-snapshot os oc m.overlay_rest m.overlay_remains;
        baseline_remains = Remains-snapshot bs bc m.baseline_rest m.baseline_remains;
      })

  is_nil-drop : (n : ℕ) (es : List ListEntry) → not (is_nil (drop n es)) ≡ ltb n (length es)
  is_nil-drop zero [] = ground arith
  is_nil-drop zero (e ∷ es) = ground arith
  is_nil-drop (suc n) [] = ground arith
  is_nil-drop (suc n) (e ∷ es) = ground (arith, is_nil-drop n es)

  module _ (es shown : List ListEntry) (page : ListPage)
      (e : page ≡ append_entries empty_page shown) where
    shown-objects : page.objects ≡ objects_of shown
    shown-objects = rw e (objects-append_entries shown empty_page)

    shown-prefixes : page.common_prefixes ≡ prefixes_of shown
    shown-prefixes = rw e (prefixes-append_entries shown empty_page)

    shown-truncated : page.truncated ≡ false
    shown-truncated = rw e (truncated-append_entries shown empty_page)

    -- A page that is not cut resumes nothing.
    whole_page :
        (ls : ListSessions)
        → shown ≡ take page_size es
        → ltb page_size (length es) ≡ false
        → Paged es page ls
    whole_page ls all_shown short = record {
      objects = shown-objects ∙ ap objects_of all_shown;
      prefixes = shown-prefixes ∙ ap prefixes_of all_shown;
      cut = shown-truncated ∙ sym short;
      resume = λ t. cc (t, shown-truncated);
    }

  close_page_lem :
      (es : List ListEntry) (page : ListPage) (r : Outcome (Bool × ListCursor × ListCursor))
      (g : Gateway W)
      → page ≡ append_entries empty_page (take page_size es)
      → MorePeeked os bs fuel (drop page_size es) r
      → PagedResult es (continue r (close_page now fuel o page) g)
  unfolding close_page
  close_page_lem es page (ok (true, oc, bc)) g e (found, m) = record {
    objects = shown-objects es (take page_size es) page e;
    prefixes = shown-prefixes es (take page_size es) page e;
    cut = found ∙ is_nil-drop page_size es;
    resume = λ _. Position-create (now g.world) oc bc g.sessions (drop page_size es) m;
  }
  close_page_lem es page (ok (false, oc, bc)) g e (found, m) =
      whole_page es (take page_size es) page e g.sessions refl
        (sym (is_nil-drop page_size es) ∙ sym found)
  close_page_lem es page (err x) g e h = h
  close_page_lem es page no_return g e h = h

  finish_lem :
      (es : List ListEntry) (r : Outcome LoopEnd) (g : Gateway W)
      → Filled os bs fuel page_size empty_page es r
      → PagedResult es (continue r (finish now fuel o os bs) g)
  unfolding finish
  finish_lem es (ok (returned page)) g (e, short) =
      whole_page es es page e g.sessions (sym (take_all page_size es (omega arith))) (ground arith)
  finish_lem es (ok (filled oc bc page)) g (e, long, m) =
      close_page_lem es page (peek_more os bs fuel oc bc g.world).0
        (record g { world = (peek_more os bs fuel oc bc g.world).1 }) e
        (peek_more_lem os bs fuel oc bc (drop page_size es) g.world m)
  finish_lem es (err x) g h = h
  finish_lem es no_return g h = h

  -- From a position with `es` before it, ListPage returns the next MaxKeys entries (1000 where
  -- MaxKeys is not positive), says that it is cut exactly where `es` has more, and then its token
  -- is the position behind them.
  pub list_page_lem :
      (token : Bytes) (es : List ListEntry) (g : Gateway W)
      → Position g.sessions token es
      → PagedResult es (list_page now fuel o bucket (record q { after = token }) g)
  unfolding list_page lookup_session with_default_max_keys
  list_page_lem token es g at_token =
      let found = (Sessions.lookup (now g.world) token g.sessions).0 in
      let left = (Sessions.lookup (now g.world) token g.sessions).1 in
      let oc = new_list_cursor found.0 in
      let bc = new_list_cursor found.1 in
      let r = merge_loop os bs fuel page_size oc bc empty_page g.world in
      finish_lem es r.0 (record { world = r.1; sessions = left })
        (merge_loop_lem os bs fuel page_size oc bc empty_page es g.world (at_token (now g.world)))
