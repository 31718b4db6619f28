-- ===== src/Overlay/Cursor.antt =====
-- overlay.go, listCursor: one backend's listing as a stream of entries.
pub mod Stream
use overlay_s.Base.{
  Bool, Bytes, List, Option, drop, false, get_elem?, if◌then◌else◌, leb, length, not, suc, true,
  zero, ℕ, ℤ, ◌&&◌, ◌+◌,
}
use overlay_s.Base.Exec.{Error, Exec, no_return, is_not_found, pure, raise, try_call, ◌>>=◌}
use overlay_s.Overlay.Entries.{ListEntry, merge_page_entries}
use overlay_s.Overlay.Sessions.{CursorState}
use overlay_s.Store.{ListPage, Store}

-- The fields of a cursor that are set once, by newListCursor. Of `p`, its After is never read.
pub record ListSource (W : Type 0) : Type 0 where
  pub store : Store W
  pub bucket : Bytes
  pub prefix : Bytes
  pub delimiter : Bytes
  pub max_keys : ℤ
  pub tolerate_missing : Bool

-- The fields of a cursor that its methods change.
pub record ListCursor : Type 0 where
  pub after : Bytes
  pub entries : List ListEntry
  pub idx : ℕ
  pub done : Bool

unfoldable pub new_list_cursor : CursorState → ListCursor
new_list_cursor st = record { after = st.after; entries = st.remaining; idx = 0; done = st.done }

unfoldable pub next : ListCursor → ListCursor
next c = record c { idx = c.idx + 1 }

unfoldable pub snapshot : ListCursor → CursorState
snapshot c = record { after = c.after; remaining = drop c.idx c.entries; done = c.done }

module _ {W : Type 0} (s : ListSource W) where
  -- the call of the backend for the page behind a token
  unfoldable pub fetch : Bytes → Exec W ListPage
  fetch after =
      s.store.list_page s.bucket (record {
        prefix = s.prefix;
        delimiter = s.delimiter;
        after = after;
        max_keys = s.max_keys;
      })

  -- c.idx >= len(c.entries) && !c.done
  unfoldable pub is_spent : ListCursor → Bool
  is_spent c = leb (length c.entries) c.idx && not c.done

  unfoldable pub enter_page : ListCursor → ListPage → ListCursor
  enter_page c page = record {
    after = page.next_token;
    entries = merge_page_entries page;
    idx = 0;
    done = not page.truncated;
  }

  -- what `load` does with an error of the backend
  unfoldable pub load_error : ListCursor → Error → Exec W ListCursor
  load_error c e =
      if is_not_found e && s.tolerate_missing then pure (record c { done = true }) else raise e

  -- The fuel bounds the pages that one call fetches.
  unfoldable pub load : ℕ → ListCursor → Exec W ListCursor
  load zero c = λ w. (no_return, w)
  load (suc fuel) c = elim (is_spent c) [
    | true ↦ try_call (fetch c.after) (λ page. load fuel (enter_page c page)) (load_error c)
    | false ↦ pure c
  ]

  -- The cursor after the load, and the entry at its index, if there is one.
  unfoldable pub peek : ℕ → ListCursor → Exec W (ListCursor × Option ListEntry)
  peek fuel c = load fuel c >>= λ c'. pure (c', get_elem? c'.entries c'.idx)
