-- ===== src/Overlay/Sessions/Lifetime.antt =====
-- How long a listing session can be resumed.
use native.Mathlib.Nat.{mod-eq_of_lt}
use overlay_s.Base.Assoc
use mathlib.Core.Path.{ap₂}
use overlay_s.Base.{
  ==_iff, All, Bool-cases, Bytes, List, Option, [], arith, false, inl, inr, length, none, refl,
  some, ℕ, ◌%◌, ◌+◌, ◌<◌, ◌==◌, ◌^◌, ◌∙◌, ◌∷◌, ◌≡◌, ◌≤◌,
}
use overlay_s.Base.Decimal.{format_uint, max_u64, parse_uint, parse_uint-format_uint}
use overlay_s.Overlay.Sessions.{
  CursorState, ListSession, ListSessions, create, expired, gc, list_session_ttl, lookup, lookup_id,
  touch,
}

lookup-parse :
    (now : ℕ) (token : Bytes) (ls : ListSessions)
    → lookup now token ls ≡ lookup_id now (parse_uint 10 token) ls
unfolding lookup lookup_id parse_uint
lookup-parse now [] ls = refl
lookup-parse now (c ∷ token) ls = refl

touch-state :
    (now n : ℕ) (o : Option ListSession) (ls : ListSessions) (st : ListSession)
    → o ≡ some st
    → (touch now n o ls).0 ≡ (st.overlay, st.baseline)
unfolding touch
touch-state now n none ls st h = cc
touch-state now n (some x) ls st h = ground arith

-- The session of a number in the table is what its token resumes.
lookup-state :
    (now n : ℕ) (ls : ListSessions) (st : ListSession)
    → n ≤ max_u64
    → Assoc.lookup n ls.active ≡ some st
    → (lookup now (format_uint n) ls).0 ≡ (st.overlay, st.baseline)
unfolding lookup_id
lookup-state now n ls st fits h =
    rw (lookup-parse, parse_uint-format_uint n fits) (touch-state now n _ ls st h)

new_id-fits : (n : ℕ) → (n + 1) % 2 ^ 64 ≤ max_u64
new_id-fits n = omega arith

insert_self :
    (n : ℕ) (st : ListSession) (m : List (ℕ × ListSession))
    → Assoc.lookup n (Assoc.insert n st m) ≡ some st
insert_self n st m = ground (arith, Assoc.lookup-insert n n st m)

-- The token that `create` returns resumes both states that it was given, whatever the table holds.
pub lookup-create :
    (now later : ℕ) (ov bs : CursorState) (ls : ListSessions)
    → (lookup later (create now ov bs ls).0 (create now ov bs ls).1).0 ≡ (ov, bs)
unfolding create
lookup-create now later ov bs ls =
    lookup-state later ((ls.next_id + 1) % 2 ^ 64) _
      (record { overlay = ov; baseline = bs; expires = now + list_session_ttl })
      (new_id-fits ls.next_id) (insert_self _ _ _)

-- The operations of the table, which its mutex makes one after the other, each with its time.
pub data SessionEvent : Type 0 where
  created : ℕ → CursorState → CursorState → SessionEvent
  looked_up : ℕ → Bytes → SessionEvent

abbrev pub time : SessionEvent → ℕ
time (created t ov bs) = t
time (looked_up t token) = t

pub apply : SessionEvent → ListSessions → ListSessions
apply (created t ov bs) ls = (create t ov bs ls).1
apply (looked_up t token) ls = (lookup t token ls).1

pub run : List SessionEvent → ListSessions → ListSessions
run [] ls = ls
run (e ∷ es) ls = run es (apply e ls)

abbrev pub Within : ℕ → SessionEvent → Type 0
Within t e = (t ≤ time e) × (time e ≤ t + list_session_ttl)

module _ (n t0 : ℕ) (ov bs : CursorState) where
  -- The session `n` is there, has the two states, and does not expire before `t0` plus the TTL.
  record Holds (ls : ListSessions) : Type 0 where
    st : ListSession
    found : Assoc.lookup n ls.active ≡ some st
    states : (st.overlay ≡ ov) × (st.baseline ≡ bs)
    alive : t0 + list_session_ttl ≤ st.expires
    issued : n ≤ ls.next_id

  create-Holds :
      (t : ℕ) (ov' bs' : CursorState) (ls : ListSessions)
      → t ≤ t0 + list_session_ttl
      → ls.next_id + 1 < 2 ^ 64
      → Holds ls
      → Holds (create t ov' bs' ls).1
  unfolding create gc expired
  create-Holds t ov' bs' ls early room h = record {
    st = h.st;
    found = ground (
      arith,
      Assoc.lookup-insert ((ls.next_id + 1) % 2 ^ 64) n
          (record { overlay = ov'; baseline = bs'; expires = t + list_session_ttl })
          (Assoc.delete_if (expired t) ls.active),
      Assoc.lookup-delete_if (expired t) n h.st ls.active h.found (unfold expired in ground arith),
    );
    states = h.states;
    alive = h.alive;
    issued = omega (arith, h.issued);
  }

  touch-same :
      (t : ℕ) (o : Option ListSession) (ls : ListSessions)
      → t0 ≤ t
      → Assoc.lookup n ls.active ≡ o
      → Holds ls
      → Holds (touch t n o ls).1
  unfolding touch
  touch-same t none ls late e h = h
  touch-same t (some st) ls late e h =
      let same : st ≡ h.st = ground (arith, h.found) in
      record {
        st = record st { expires = t + list_session_ttl };
        found = insert_self n _ ls.active;
        states = rw same h.states;
        alive = omega arith;
        issued = h.issued;
      }

  touch-other :
      (t m : ℕ) (o : Option ListSession) (ls : ListSessions)
      → (m == n) ≡ false
      → Holds ls
      → Holds (touch t m o ls).1
  unfolding touch
  touch-other t m none ls ne h = h
  touch-other t m (some st) ls ne h = record {
    st = h.st;
    found = Assoc.lookup-insert m n _ ls.active ∙ rw ne h.found;
    states = h.states;
    alive = h.alive;
    issued = h.issued;
  }

  lookup_id-Holds :
      (t : ℕ) (o : Option ℕ) (ls : ListSessions) → t0 ≤ t → Holds ls → Holds (lookup_id t o ls).1
  unfolding lookup_id
  lookup_id-Holds t none ls late h = h
  lookup_id-Holds t (some m) ls late h = elim (Bool-cases (m == n)) [
    | inl eq ↦
        let e : m ≡ n = (==_iff m n).0 eq in
        rw e (touch-same t (Assoc.lookup n ls.active) ls late refl h)
    | inr ne ↦ touch-other t m (Assoc.lookup m ls.active) ls ne h
  ]

  lookup-Holds :
      (t : ℕ) (token : Bytes) (ls : ListSessions) → t0 ≤ t → Holds ls → Holds (lookup t token ls).1
  lookup-Holds t token ls late h =
      rw lookup-parse (lookup_id-Holds t (parse_uint 10 token) ls late h)

  apply-Holds :
      (e : SessionEvent) (ls : ListSessions)
      → Within t0 e
      → ls.next_id + 1 < 2 ^ 64
      → Holds ls
      → Holds (apply e ls)
  unfolding apply
  apply-Holds (created t ov' bs') ls (late, early) room h = create-Holds t ov' bs' ls early room h
  apply-Holds (looked_up t token) ls (late, early) room h = lookup-Holds t token ls late h

next_id-lookup :
    (t : ℕ) (token : Bytes) (ls : ListSessions) → (lookup t token ls).1.next_id ≡ ls.next_id
unfolding lookup_id touch
next_id-lookup t token ls = rw lookup-parse (ground arith)

next_id-apply :
    (e : SessionEvent) (ls : ListSessions)
    → ls.next_id + 1 < 2 ^ 64
    → (apply e ls).next_id ≤ ls.next_id + 1
unfolding apply create
next_id-apply (created t ov bs) ls room = omega arith
next_id-apply (looked_up t token) ls room = omega (arith, next_id-lookup t token ls)

run-Holds :
    (n t0 : ℕ) (ov bs : CursorState) (events : List SessionEvent) (ls : ListSessions)
    → ls.next_id + length events < 2 ^ 64
    → All (Within t0) events
    → Holds n t0 ov bs ls
    → Holds n t0 ov bs (run events ls)
unfolding run
run-Holds n t0 ov bs [] ls room h k = k
run-Holds n t0 ov bs (e ∷ events) ls room (he, h) k =
    let one : ls.next_id + 1 < 2 ^ 64 = omega arith in
    run-Holds n t0 ov bs events (apply e ls) (omega (arith, next_id-apply e ls one)) h
      (apply-Holds n t0 ov bs e ls he one k)

created-Holds :
    (t0 : ℕ) (ov bs : CursorState) (ls : ListSessions)
    → ls.next_id + 1 < 2 ^ 64
    → Holds (ls.next_id + 1) t0 ov bs (create t0 ov bs ls).1
unfolding create
created-Holds t0 ov bs ls room = record {
  st = record { overlay = ov; baseline = bs; expires = t0 + list_session_ttl };
  found = rw (mod-eq_of_lt room) (insert_self _ _ _);
  states = (refl, refl);
  alive = omega arith;
  issued = omega arith;
}

created-token :
    (t0 : ℕ) (ov bs : CursorState) (ls : ListSessions)
    → ls.next_id + 1 < 2 ^ 64
    → (create t0 ov bs ls).0 ≡ format_uint (ls.next_id + 1)
unfolding create
created-token t0 ov bs ls room = rw (mod-eq_of_lt room)

-- A token can be resumed for ten minutes after `create`, whatever other listings create and look up
-- in that time, as long as the ids do not wrap around.
pub lookup-run :
    (t0 later : ℕ) (ov bs : CursorState) (ls : ListSessions) (events : List SessionEvent)
    → ls.next_id + 1 + length events < 2 ^ 64
    → All (Within t0) events
    → (lookup later (create t0 ov bs ls).0 (run events (create t0 ov bs ls).1)).0 ≡ (ov, bs)
lookup-run t0 later ov bs ls events room h =
    let n = ls.next_id + 1 in
    let one : n < 2 ^ 64 = omega arith in
    let made = (create t0 ov bs ls).1 in
    let start = created-Holds t0 ov bs ls one in
    let id_bound = next_id-apply (created t0 ov bs) ls one in
    let kept = run-Holds n t0 ov bs events made (unfold apply in omega (arith, id_bound)) h start in
    rw (created-token t0 ov bs ls one) (
      lookup-state later n (run events made) kept.st (omega arith) kept.found
      ∙ ap₂ (λ a b. (a, b)) kept.states.0 kept.states.1)
