-- ===== src/Overlay/Listing.antt =====
-- overlay.go, overlayStore.ListPage: the merge of both backends' streams, a page at a time.
pub mod Merged
pub mod Merge
pub mod Order
pub mod Pages
pub mod Resume
pub mod Walk
pub mod View
use overlay_s.Overlay.Sessions
use overlay_s.Base.{
  Bool, Bytes, Option, bytes_eq, bytes_le, false, if◌then◌else◌, is_some, leb_ℤ, none, pos,
  pos_part, some, suc, true, zero, ℕ,
}
use overlay_s.Base.Exec.{Exec, ok, pure, ◌>>=◌}
use overlay_s.Overlay.Cursor.{ListCursor, ListSource, new_list_cursor, next, peek, snapshot}
use overlay_s.Overlay.Entries.{ListEntry, append_entry, entry_key}
use overlay_s.Overlay.Sessions.{CursorState, ListSessions}
use overlay_s.Store.{ListPage, ListParams, Store, empty_page}

-- The loop ends in the middle of the function (`return out, nil`), or by its test.
pub data LoopEnd : Type 0 where
  returned : ListPage → LoopEnd
  filled : ListCursor → ListCursor → ListPage → LoopEnd

-- One round of the loop: both cursors and the page after it, or the return.
pub data Round : Type 0 where
  stop : Round
  go_on : ListCursor → ListCursor → ListEntry → Round

-- The switch on what the two cursors show.
unfoldable pub choose : ListCursor → ListCursor → Option ListEntry → Option ListEntry → Round
choose oc bc (some oe) (some be) =
    if bytes_le (entry_key oe) (entry_key be)
    then go_on (next oc) (if bytes_eq (entry_key oe) (entry_key be) then next bc else bc) oe
    else go_on oc (next bc) be
choose oc bc (some oe) none = go_on (next oc) bc oe
choose oc bc none (some be) = go_on oc (next bc) be
choose oc bc none none = stop

-- `if p.MaxKeys <= 0 { p.MaxKeys = 1000 }`
unfoldable pub with_default_max_keys : ListParams → ListParams
with_default_max_keys p = record p {
  max_keys = if leb_ℤ p.max_keys (pos 0) then pos 1000 else p.max_keys;
}

module _ {W : Type 0} (os bs : ListSource W) (fuel : ℕ) where
  -- The end of a round: the return, or the append and the next test of the loop.
  abbrev pub end_round :
      (ListCursor → ListCursor → ListPage → Exec W LoopEnd) → ListPage → Round → Exec W LoopEnd
  end_round again out stop = pure (returned out)
  end_round again out (go_on oc bc e) = again oc bc (append_entry out e)

  -- Every round appends one entry, so the rounds left are MaxKeys less the entries of `out`.
  unfoldable pub merge_loop : ℕ → ListCursor → ListCursor → ListPage → Exec W LoopEnd
  merge_loop zero oc bc out = pure (filled oc bc out)
  merge_loop (suc left) oc bc out = peek os fuel oc >>= λ o.
      peek bs fuel bc >>= λ b. end_round (merge_loop left) out (choose o.0 b.0 o.1 b.1)

  -- `if !more { if _, more, err = bc.peek(ctx); … }`
  abbrev pub peek_other :
      ListCursor → ListCursor → Option ListEntry → Exec W (Bool × ListCursor × ListCursor)
  peek_other bc oc (some e) = pure (true, oc, bc)
  peek_other bc oc none = peek bs fuel bc >>= λ b. pure (is_some b.1, oc, b.0)

  -- Whether either stream goes on, with the cursors after the peeks.
  unfoldable pub peek_more : ListCursor → ListCursor → Exec W (Bool × ListCursor × ListCursor)
  peek_more oc bc = peek os fuel oc >>= λ o. peek_other bc o.0 o.1

-- The world and the overlay store's own state.
pub record Gateway (W : Type 0) : Type 0 where
  pub world : W
  pub sessions : ListSessions

-- A call of a backend leaves the sessions alone.
abbrev pub on_world {ℓ} : {W : Type 0} {A : Type ℓ} → Exec W A → Exec (Gateway W) A
on_world m g = ((m g.world).0, record g { world = (m g.world).1 })

pub record OverlayStore (W : Type 0) : Type 0 where
  pub overlay : Store W
  pub baseline : Store W

-- `time.Now()` reads the clock of the world; `fuel` bounds the pages that one load fetches.
module _ {W : Type 0} (now : W → ℕ) (fuel : ℕ) (o : OverlayStore W) where
  unfoldable pub lookup_session : Bytes → Exec (Gateway W) (CursorState × CursorState)
  lookup_session token g =
      let found = Sessions.lookup (now g.world) token g.sessions in
      (ok found.0, record g { sessions = found.1 })

  -- The end of ListPage: a page that is cut has a token for the rest.
  unfoldable pub close_page : ListPage → Bool × ListCursor × ListCursor → Exec (Gateway W) ListPage
  close_page out (false, oc, bc) g = (ok out, g)
  close_page out (true, oc, bc) g =
      let made = Sessions.create (now g.world) (snapshot oc) (snapshot bc) g.sessions in
      (ok (record out { truncated = true; next_token = made.0 }), record g { sessions = made.1 })

  unfoldable pub finish : ListSource W → ListSource W → LoopEnd → Exec (Gateway W) ListPage
  finish os bs (returned out) = pure out
  finish os bs (filled oc bc out) = on_world (peek_more os bs fuel oc bc) >>= close_page out

  -- newListCursor for each of the two stores
  abbrev pub overlay_source : Bytes → ListParams → ListSource W
  overlay_source bucket p = record {
    store = o.overlay;
    bucket = bucket;
    prefix = p.prefix;
    delimiter = p.delimiter;
    max_keys = p.max_keys;
    tolerate_missing = true;
  }

  abbrev pub baseline_source : Bytes → ListParams → ListSource W
  baseline_source bucket p = record {
    store = o.baseline;
    bucket = bucket;
    prefix = p.prefix;
    delimiter = p.delimiter;
    max_keys = p.max_keys;
    tolerate_missing = false;
  }

  unfoldable pub list_page : Bytes → ListParams → Exec (Gateway W) ListPage
  list_page bucket params =
      let p = with_default_max_keys params in
      let os = overlay_source bucket p in
      let bs = baseline_source bucket p in
      lookup_session p.after >>= λ found.
      on_world (
        merge_loop os bs fuel (pos_part p.max_keys) (new_list_cursor found.0)
          (new_list_cursor found.1) empty_page)
      >>= finish os bs
