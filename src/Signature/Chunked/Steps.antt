-- ===== src/Signature/Chunked/Steps.antt =====
-- One call of Read on a body in aws-chunked framing, inside a chunk.
use Prim.Native.Nat.{min}
use overlay_s.Base.{
  Bytes, Lacks, List, Option, [], ap, arith, cut-append, drop, eqb_ℤ, false, is_nil, length,
  length-append, length-drop, none, pos, refl, some, sub64, sub64-pos, suc, sym, take,
  trim_suffix-append, zero, ℕ, ◌++◌, ◌<◌, ◌^◌, ◌∙◌, ◌∷◌, ◌≡◌, ◌≢◌, ◌≤◌,
}
use overlay_s.Base.Decimal.{parse_int}
use overlay_s.Base.Exec.{Error}
use overlay_s.Signature.Chunked.{
  ChunkedReader, ReadAnswer, ReadCall, after_read, before_extension, chunk_size, end_chunk,
  read_data,
}

-- The size of a chunk's line is the number that stands before its extension.
pub chunk_size-extension :
    (size extension : Bytes)
    → Lacks b';' size
    → chunk_size ((size ++ b';' ∷ extension) ++ 13 ∷ []) ≡ parse_int 16 size
unfolding chunk_size before_extension
chunk_size-extension size extension h =
    rw (trim_suffix-append (size ++ b';' ∷ extension) 13, cut-append size extension b';' h) refl

-- A chunk: its line without \n, and its data
pub record Chunk : Type 0 where
  pub line : Bytes
  pub bytes : Bytes

-- A line with the size of its data, which is not empty
abbrev pub IsChunk : Chunk → Type 0
IsChunk c =
    Lacks 10 c.line
    × (chunk_size c.line ≡ some (pos (length c.bytes)))
    × (c.bytes ≢ [])
    × (length c.bytes < 2 ^ 63)

abbrev pub data_of : List Chunk → Bytes
data_of [] = []
data_of (c ∷ cs) = c.bytes ++ data_of cs

-- The chunks, and behind them the line of a chunk of size 0 and what follows it
abbrev pub encode : Bytes → Bytes → List Chunk → Bytes
encode last trailer [] = last ++ 10 ∷ trailer
encode last trailer (c ∷ cs) = c.line ++ 10 ∷ (c.bytes ++ 13 ∷ 10 ∷ encode last trailer cs)

-- A call that has room for a byte, of a reader that gives one
abbrev pub IsCall : ReadCall → Type 0
IsCall call = (0 < call.len) × (0 < call.give)

abbrev pub state : Option Error → Bytes → ℕ → ChunkedReader
state f unread n = record { unread = unread; failure = f; remaining = pos n; done = false }

abbrev pub taking : Bytes → ReadAnswer
taking t = record { taken = t; ending = none }

take-append_le : (n : ℕ) (xs ys : Bytes) → n ≤ length xs → take n (xs ++ ys) ≡ take n xs
take-append_le zero xs ys h = refl
take-append_le (suc n) [] ys h = absurd (omega arith)
take-append_le (suc n) (x ∷ xs) ys h = ap (◌∷◌ x) (take-append_le n xs ys (omega arith))

drop-append_le : (n : ℕ) (xs ys : Bytes) → n ≤ length xs → drop n (xs ++ ys) ≡ drop n xs ++ ys
drop-append_le zero xs ys h = refl
drop-append_le (suc n) [] ys h = absurd (omega arith)
drop-append_le (suc n) (x ∷ xs) ys h = drop-append_le n xs ys (omega arith)

pub is_nil-length : (xs : Bytes) → is_nil xs ≡ false → 0 < length xs
is_nil-length [] h = absurd (ground arith)
is_nil-length (x ∷ xs) h = omega arith

pub is_nil-take : (n : ℕ) (xs : Bytes) → 0 < n → is_nil xs ≡ false → is_nil (take n xs) ≡ false
is_nil-take zero xs h k = absurd (omega arith)
is_nil-take (suc n) [] h k = k
is_nil-take (suc n) (x ∷ xs) h k = refl

module _ (f : Option Error) (tail : Bytes) where
  -- The reader with these bytes of a chunk to give; between two chunks where there are none
  abbrev pub within : Bytes → ChunkedReader
  within [] = state f tail 0
  within (x ∷ e) = state f ((x ∷ e) ++ 13 ∷ 10 ∷ tail) (length (x ∷ e))

  after_read_lem :
      (call : ReadCall) (u : Bytes) (n : ℕ) (t e : Bytes)
      → is_nil t ≡ false
      → after_read call (state f u n) (pos (length e)) t (e ++ 13 ∷ 10 ∷ tail)
        ≡ (taking t, within e)
  unfolding after_read end_chunk
  after_read_lem call u n t [] h = ground arith
  after_read_lem call u n t (x ∷ e) h = ground arith

  module _ (call : ReadCall) (room : IsCall call) (d : Bytes) (some_data : is_nil d ≡ false)
      (small : length d < 2 ^ 63) where
    -- How many bytes the call takes
    abbrev pub count : ℕ
    count = min (min (length d) call.len) call.give

    count_le : count ≤ length d
    count_le = ground arith

    left_length : sub64 (pos (length d)) (pos count) ≡ pos (length (drop count d))
    left_length = sub64-pos (length d) count count_le small ∙ ap pos (sym (length-drop count d))

    taken_some : is_nil (take count d) ≡ false
    taken_some = is_nil-take count d (ground (arith, is_nil-length d some_data)) some_data

    count_whole :
        min (min (length d) call.len) (min call.give (length (d ++ 13 ∷ 10 ∷ tail))) ≡ count
    count_whole = ground (arith, length-append d (13 ∷ 10 ∷ tail))

    pub read_data_lem :
        read_data call (state f (d ++ 13 ∷ 10 ∷ tail) (length d)) (pos (length d))
        ≡ (taking (take count d), within (drop count d))
    unfolding read_data
    read_data_lem =
        rw
          (
            count_whole,
            left_length,
            take-append_le count d (13 ∷ 10 ∷ tail) count_le,
            drop-append_le count d (13 ∷ 10 ∷ tail) count_le,
          )
          (after_read_lem call (d ++ 13 ∷ 10 ∷ tail) (length d) (take count d) (drop count d)
            taken_some)

pub not_zero : (n : ℕ) → 0 < n → eqb_ℤ (pos n) (pos 0) ≡ false
not_zero n h = ground arith
