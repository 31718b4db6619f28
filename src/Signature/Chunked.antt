-- ===== src/Signature/Chunked.antt =====
-- sigv4.go, awsChunkedReader: the data of a body in aws-chunked framing.
pub mod Steps
pub mod RoundTrip
pub mod Truncated
pub mod Ends
use Prim.Native.Nat.{min}
use overlay_s.Base.{
  Bool, Bytes, List, Option, [], codes, cut, drop, eqb_ℤ, false, if◌then◌else◌, is_nil, length, ltb,
  negsuc, none, pos, some, sub64, take, trim_suffix, true, ℕ, ℤ, ◌&&◌, ◌++◌, ◌||◌, ◌∷◌,
}
use overlay_s.Base.Decimal.{parse_int}
use overlay_s.Base.Exec.{Error, message_error, unexpected_eof}
use overlay_s.Range.{header}
use overlay_s.Store.{Reader}

-- The fields of awsChunkedReader, with the bytes that its bufio.Reader has still to give and the
-- error behind them; none for io.EOF.
pub record ChunkedReader : Type 0 where
  pub unread : Bytes
  pub failure : Option Error
  pub remaining : ℤ
  pub done : Bool

-- newAwsChunkedReader
abbrev pub new_aws_chunked_reader : Reader → ChunkedReader
new_aws_chunked_reader r = record {
  unread = r.content;
  failure = r.failure;
  remaining = pos 0;
  done = false;
}

-- io.EOF, another error, or a panic on a slice with a negative bound
pub data ReadEnd : Type 0 where
  eof : ReadEnd
  failed : Error → ReadEnd
  panicked : ReadEnd

pub record ReadAnswer : Type 0 where
  pub taken : Bytes
  pub ending : Option ReadEnd

-- One call of Read: len(p), the bytes that the reader below gives at once (at least 1), and whether
-- it tells its end with the last of them.
pub record ReadCall : Type 0 where
  pub len : ℕ
  pub give : ℕ
  pub eager : Bool

abbrev pub end_of : Option Error → ReadEnd
end_of none = eof
end_of (some e) = failed e

-- if err == io.EOF && c.remaining == 0 { return n, io.ErrUnexpectedEOF }
unfoldable pub end_in_data : Option Error → ℤ → ReadEnd
end_in_data none left = if eqb_ℤ left (pos 0) then failed unexpected_eof else eof
end_in_data (some e) left = failed e

abbrev pub with_unread : ChunkedReader → Bytes → ℤ → ChunkedReader
with_unread c unread remaining = record c { unread = unread; remaining = remaining }

-- The trailing \r\n of a chunk, once all of its data is read
unfoldable pub end_chunk : ChunkedReader → Bytes → Bytes → ReadAnswer × ChunkedReader
end_chunk c taken left =
    if ltb (length left) 2
    then (record { taken = taken; ending = some (end_of c.failure) }, with_unread c [] (pos 0))
    else (record { taken = taken; ending = none }, with_unread c (drop 2 left) (pos 0))

-- Read behind its call of the bufio.Reader, with the bytes that this gave and those left
unfoldable pub after_read :
    ReadCall → ChunkedReader → ℤ → Bytes → Bytes → ReadAnswer × ChunkedReader
after_read call c remaining taken left =
    if is_nil taken || (call.eager && is_nil left)
    then (
      record { taken = taken; ending = some (end_in_data c.failure remaining) },
      with_unread c left remaining,
    )
    else if eqb_ℤ remaining (pos 0)
    then end_chunk c taken left
    else (record { taken = taken; ending = none }, with_unread c left remaining)

-- Read where a chunk has data left
unfoldable pub read_data : ReadCall → ChunkedReader → ℤ → ReadAnswer × ChunkedReader
read_data call c (negsuc n) = (record { taken = []; ending = some panicked }, c)
read_data call c (pos r) =
    let n = min (min r call.len) (min call.give (length c.unread)) in
    after_read call c (sub64 (pos r) (pos n)) (take n c.unread) (drop n c.unread)

-- The text before the first ';', or all of it
unfoldable pub before_extension : Bytes → Option (Bytes × Bytes) → Bytes
before_extension header none = header
before_extension header (some (size, extension)) = size

unfoldable pub chunk_size : Bytes → Option ℤ
chunk_size line =
    let header = trim_suffix line 13 in parse_int 16 (before_extension header (cut header b';'))

-- The size of a chunk as it was read, with what stands behind its line
unfoldable pub start_chunk :
    ReadCall → ChunkedReader → Bytes → Option ℤ → ReadAnswer × ChunkedReader
start_chunk call c rest none = (
  record {
    taken = [];
    ending = some (failed (message_error (codes "aws-chunked: invalid chunk size")));
  },
  record c { unread = rest },
)
start_chunk call c rest (some size) =
    if eqb_ℤ size (pos 0)
    then (record { taken = []; ending = some eof }, record c { unread = rest; done = true })
    else read_data call (with_unread c rest size) size

-- c.br.ReadString('\n')
unfoldable pub read_header :
    ReadCall → ChunkedReader → Option (Bytes × Bytes) → ReadAnswer × ChunkedReader
read_header call c none =
    (record { taken = []; ending = some (end_of c.failure) }, record c { unread = [] })
read_header call c (some (line, rest)) = start_chunk call c rest (chunk_size line)

unfoldable pub read : ReadCall → ChunkedReader → ReadAnswer × ChunkedReader
read call c =
    if c.done
    then (record { taken = []; ending = some eof }, c)
    else if eqb_ℤ c.remaining (pos 0)
    then read_header call c (cut c.unread 10)
    else read_data call c c.remaining

-- What a caller has when this call took `taken` and ended so, and the later calls gave `rest`
unfoldable pub joined : Bytes → Option ReadEnd → Option (Bytes × ReadEnd) → Option (Bytes × ReadEnd)
joined taken (some e) rest = some (taken, e)
joined taken none none = none
joined taken none (some (later, e)) = some (taken ++ later, e)

-- A caller that reads to the end, as io.ReadAll does: the calls it makes in order, what it has read,
-- and how it ended. It is none where the calls are used up.
unfoldable pub read_all : List ReadCall → ChunkedReader → Option (Bytes × ReadEnd)
read_all [] c = none
read_all (call ∷ calls) c =
    joined (read call c).0.taken (read call c).0.ending (read_all calls (read call c).1)
