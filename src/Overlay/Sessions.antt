-- ===== src/Overlay/Sessions.antt =====
-- overlay.go, listSession and listSessions: the resume positions of paginated listings.
pub mod Lifetime
use overlay_s.Base.Assoc
use overlay_s.Base.{Bool, Bytes, List, Option, [], false, ltb, none, some, ℕ, ◌%◌, ◌+◌, ◌^◌, ◌∷◌}
use overlay_s.Base.Decimal.{format_uint, parse_uint}
use overlay_s.Overlay.Entries.{ListEntry}

-- 10 * time.Minute, in nanoseconds
abbrev pub list_session_ttl : ℕ
list_session_ttl = 600_000_000_000

pub record CursorState : Type 0 where
  pub after : Bytes
  pub remaining : List ListEntry
  pub done : Bool

-- cursorState{}
abbrev pub start_state : CursorState
start_state = record { after = []; remaining = []; done = false }

pub record ListSession : Type 0 where
  pub overlay : CursorState
  pub baseline : CursorState
  pub expires : ℕ

pub record ListSessions : Type 0 where
  pub next_id : ℕ
  pub active : List (ℕ × ListSession)

abbrev pub new_list_sessions : ListSessions
new_list_sessions = record { next_id = 0; active = [] }

-- now.After(st.expires)
pub expired : ℕ → ListSession → Bool
expired now st = ltb st.expires now

unfoldable pub gc : ℕ → ListSessions → ListSessions
gc now ls = record ls { active = Assoc.delete_if (expired now) ls.active }

-- The id is a uint64, so its increment wraps around.
unfoldable pub create : ℕ → CursorState → CursorState → ListSessions → Bytes × ListSessions
create now ov bs ls =
    let id = (ls.next_id + 1) % 2 ^ 64 in
    let st : ListSession = record {
      overlay = ov;
      baseline = bs;
      expires = now + list_session_ttl;
    } in
    (format_uint id, record { next_id = id; active = Assoc.insert id st (gc now ls).active })

-- `if !ok { return cursorState{}, cursorState{} }`, and the touch of a session that is found
pub touch : ℕ → ℕ → Option ListSession → ListSessions → (CursorState × CursorState) × ListSessions
touch now n none ls = ((start_state, start_state), ls)
touch now n (some st) ls = (
  (st.overlay, st.baseline),
  record ls { active = Assoc.insert n (record st { expires = now + list_session_ttl }) ls.active },
)

pub lookup_id : ℕ → Option ℕ → ListSessions → (CursorState × CursorState) × ListSessions
lookup_id now none ls = ((start_state, start_state), ls)
lookup_id now (some n) ls = touch now n (Assoc.lookup n ls.active) ls

unfoldable pub lookup : ℕ → Bytes → ListSessions → (CursorState × CursorState) × ListSessions
lookup now [] ls = ((start_state, start_state), ls)
lookup now (c ∷ token) ls = lookup_id now (parse_uint 10 (c ∷ token)) ls
