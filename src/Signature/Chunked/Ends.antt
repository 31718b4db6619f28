-- ===== src/Signature/Chunked/Ends.antt =====
-- Reading a body in aws-chunked framing comes to an end, whatever its bytes are.
use overlay_s.Base.{
  All, Bool, Bool-cases, Bytes, List, Option, Option-cases, [], arith, cut, drop, eqb_ℤ, false,
  if◌then◌else◌, inl, inr, is_nil, length, length-append, length-drop, length-take, ltb, negsuc,
  none, pos, refl, some, take, true, ℕ, ℤ, ◌&&◌, ◌++◌, ◌+◌, ◌<◌, ◌||◌, ◌∷◌, ◌≡◌, ◌≤◌,
}
use overlay_s.Overlay.Gateway.Layered.{over}
use overlay_s.Signature.Chunked.{
  ChunkedReader, ReadAnswer, ReadCall, ReadEnd, after_read, chunk_size, end_chunk, joined, read,
  read_all, read_data, read_header, start_chunk, with_unread,
}
use overlay_s.Signature.Chunked.Steps.{IsCall}

-- A call that started with `u` bytes to read takes no more than there are, and leaves fewer of them
-- where it has not come to an end.
abbrev Advances : ℕ → ReadAnswer × ChunkedReader → Type 0
Advances u (a, c) = (length a.taken + length c.unread ≤ u) × (a.ending ≡ none → length c.unread < u)

some_bytes : (t : Bytes) → is_nil t ≡ false → 0 < length t
some_bytes [] h = absurd (ground arith)
some_bytes (x ∷ t) h = omega arith

end_chunk-Advances :
    (c : ChunkedReader) (t l : Bytes) (u : ℕ)
    → is_nil t ≡ false
    → length t + length l ≤ u
    → Advances u (end_chunk c t l)
unfolding end_chunk
end_chunk-Advances c t l u h k = elim (Bool-cases (ltb (length l) 2)) [
  | inl short ↦ rw short (omega arith, λ e. absurd (ground arith))
  | inr long ↦
      rw long (omega (arith, length-drop 2 l), λ e. omega (arith, length-drop 2 l, some_bytes t h))
]

after_read-Advances :
    (call : ReadCall) (c : ChunkedReader) (remaining : ℤ) (t l : Bytes) (u : ℕ)
    → length t + length l ≤ u
    → Advances u (after_read call c remaining t l)
unfolding after_read
after_read-Advances call c remaining t l u k =
    elim (Bool-cases (is_nil t || (call.eager && is_nil l))) [
      | inl ended ↦ rw ended (k, λ e. absurd (ground arith))
      | inr going ↦ rw going (elim (Bool-cases (eqb_ℤ remaining (pos 0))) [
        | inl over ↦ rw over (end_chunk-Advances c t l u (ground arith) k)
        | inr more_left ↦ rw more_left (k, λ e. omega (arith, some_bytes t (ground arith)))
      ])
    ]

read_data-Advances :
    (call : ReadCall) (c : ChunkedReader) (remaining : ℤ)
    → Advances (length c.unread) (read_data call c remaining)
unfolding read_data
read_data-Advances call c (negsuc n) = (omega arith, λ e. absurd (ground arith))
read_data-Advances call c (pos r) = after_read-Advances call c _ _ _ _ (taken_left _ c.unread)
  where
    taken_left : (n : ℕ) (u : Bytes) → length (take n u) + length (drop n u) ≤ length u
    taken_left n u = ground (arith, length-take n u, length-drop n u)

Advances-weaken : (u v : ℕ) (r : ReadAnswer × ChunkedReader) → u ≤ v → Advances u r → Advances v r
Advances-weaken u v (a, c) h (k, l) = (omega arith, λ e. omega (arith, l e))

if-Advances :
    (t : Bool) (x y : ReadAnswer × ChunkedReader) (u : ℕ)
    → Advances u x
    → Advances u y
    → Advances u (if t then x else y)
if-Advances true x y u hx hy = hx
if-Advances false x y u hx hy = hy

start_chunk-Advances :
    (call : ReadCall) (c : ChunkedReader) (rest : Bytes) (size : Option ℤ) (u : ℕ)
    → length rest ≤ u
    → Advances u (start_chunk call c rest size)
unfolding start_chunk
start_chunk-Advances call c rest none u h = (omega arith, λ e. absurd (ground arith))
start_chunk-Advances call c rest (some size) u h =
    if-Advances (eqb_ℤ size (pos 0)) _ _ u (omega arith, λ e. absurd (ground arith))
      (Advances-weaken (length rest) u (read_data call (with_unread c rest size) size) h
        (read_data-Advances call (with_unread c rest size) size))

length-cut : (s : Bytes) (c : ℕ) (a b : Bytes) → cut s c ≡ some (a, b) → length b ≤ length s
unfolding cut
length-cut [] c a b h = absurd (ground arith)
length-cut (x ∷ s) c a b h = elim (Option-cases (cut s c)) [
  | inl none_later ↦ ground arith
  | inr ((a', b'), later) ↦ ground (arith, length-cut s c a' b' later)
]

read-Advances : (call : ReadCall) (c : ChunkedReader) → Advances (length c.unread) (read call c)
unfolding read
read-Advances call c =
    if-Advances c.done _ _ _ (omega arith, λ e. absurd (ground arith))
      (if-Advances (eqb_ℤ c.remaining (pos 0)) _ _ _
        (header_read (cut c.unread 10) (length-cut c.unread 10))
        (read_data-Advances call c c.remaining))
  where
    header_read :
        (o : Option (Bytes × Bytes))
        → ((a b : Bytes) → o ≡ some (a, b) → length b ≤ length c.unread)
        → Advances (length c.unread) (read_header call c o)
    header_read none h = unfold read_header in (omega arith, λ e. absurd (ground arith))
    header_read (some (line, rest)) h =
        unfold read_header in
        start_chunk-Advances call c rest (chunk_size line) (length c.unread) (h line rest refl)

-- A body in aws-chunked framing reads to an end whatever its bytes are, to io.EOF, an error or a panic,
-- within one call more than it has bytes, and gives no more bytes than it has. Each call has room for
-- a byte, of a reader that gives one.
pub read_all-ends :
    (calls : List ReadCall) (c : ChunkedReader)
    → All IsCall calls
    → length c.unread < length calls
    → (taken : Bytes) × (end : ReadEnd) × (read_all calls c ≡ some (taken, end))
      × (length taken ≤ length c.unread)
unfolding read_all
read_all-ends [] c room h = absurd (omega arith)
read_all-ends (call ∷ calls) c (fits, room) h =
    joined_ends (read call c).0.taken (read call c).0.ending (read_all calls (read call c).1)
      (read-Advances call c)
      (λ e. read_all-ends calls (read call c).1 room (omega (arith, (read-Advances call c).1 e)))
  where
    joined_ends :
        (taken : Bytes) (ending : Option ReadEnd) (later : Option (Bytes × ReadEnd))
        → (length taken + length (read call c).1.unread ≤ length c.unread)
          × (ending ≡ none → length (read call c).1.unread < length c.unread)
        → (ending ≡ none
            → (b : Bytes) × (e : ReadEnd) × (later ≡ some (b, e))
              × (length b ≤ length (read call c).1.unread))
        → (b : Bytes) × (e : ReadEnd) × (joined taken ending later ≡ some (b, e))
          × (length b ≤ length c.unread)
    joined_ends taken (some e) later h k = (taken, e, unfold joined in refl, omega arith)
    joined_ends taken none later (le, lt) k =
        let (b, e, is, small) = k refl in
        (taken ++ b, e, rw is (unfold joined in refl), omega (arith, length-append taken b))
