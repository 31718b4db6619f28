-- ===== src/Tests/Bodies.antt =====
-- Bodies in aws-chunked framing.
use mathlib.Core.List.{cons-ne-nil}
use overlay_s.Base.{
  All, Bytes, Lacks-of_contains_byte, List, [], arith, codes, contains_byte, cut, false, length,
  none, pos, refl, some, trim_suffix, true, ◌++◌, ◌∷◌, ◌≡◌, ◌≤◌,
}
use overlay_s.Base.Decimal.{parse_int}
use overlay_s.Signature.Chunked.{
  ChunkedReader, ReadCall, ReadEnd, before_extension, chunk_size, eof, new_aws_chunked_reader,
  read_all,
}
use overlay_s.Signature.Chunked.Ends.{read_all-ends}
use overlay_s.Signature.Chunked.RoundTrip.{read_all-encode}
use overlay_s.Signature.Chunked.Steps.{Chunk, IsCall, IsChunk, chunk_size-extension, encode}
use overlay_s.Signature.Chunked.Truncated.{read_all-cut}
use overlay_s.Signature.Encoding.{aws_encode}
use overlay_s.Signature.Encoding.Decoding.{outside, percent_decode, percent_decode-aws_encode}
use overlay_s.Tests.Stores.{reader}

abbrev call : ReadCall
call = record { len = 4; give = 3; eager = true }

abbrev calls : List ReadCall
calls = call ∷ call ∷ call ∷ call ∷ call ∷ call ∷ []

abbrev pub chunk : Chunk
chunk = record {
  line = (codes "5" ++ b';' ∷ codes "chunk-signature=ab") ++ 13 ∷ [];
  bytes = codes "hello";
}

abbrev pub last_line : Bytes
last_line = codes "0" ++ 13 ∷ []

calls-IsCall : All IsCall calls
calls-IsCall = (
  (omega arith, omega arith),
  (
    (omega arith, omega arith),
    (
      (omega arith, omega arith),
      ((omega arith, omega arith), ((omega arith, omega arith), ((omega arith, omega arith), tt))),
    ),
  ),
)

pub chunk-IsChunk : IsChunk chunk
unfolding contains_byte parse_int
chunk-IsChunk = (
  Lacks-of_contains_byte chunk.line 10 refl,
  chunk_size-extension (codes "5") (codes "chunk-signature=ab")
      (Lacks-of_contains_byte (codes "5") b';' refl),
  cons-ne-nil _ _,
  omega arith,
)

pub last-size : chunk_size last_line ≡ some (pos 0)
unfolding chunk_size parse_int before_extension cut trim_suffix
last-size = refl

read_all-encode_example :
    read_all calls (
      new_aws_chunked_reader
        (record { content = encode last_line (codes "end") (chunk ∷ []); failure = none }))
    ≡ some (codes "hello", eof)
read_all-encode_example =
    read_all-encode last_line (codes "end")
      (Lacks-of_contains_byte last_line 10 (unfold contains_byte in refl)) last-size none calls
      (chunk ∷ []) calls-IsCall (chunk-IsChunk, tt) (omega arith)

read_all-cut_example :
    read_all calls
      (record { unread = codes "hel"; failure = none; remaining = pos 5; done = false })
    ≡ some (codes "hel", eof)
read_all-cut_example =
    read_all-cut calls (codes "hel") 5 calls-IsCall (omega arith) (omega arith) (omega arith)

percent_decode-aws_encode_example :
    percent_decode outside (aws_encode (codes "a b/%")) ≡ codes "a b/%"
percent_decode-aws_encode_example =
    percent_decode-aws_encode (codes "a b/%")
      (omega arith, (omega arith, (omega arith, (omega arith, (omega arith, tt)))))

-- A chunk size that is no number, where the body is read to its end all the same
abbrev broken_body : ChunkedReader
broken_body = new_aws_chunked_reader (reader (codes "5\nxx"))

read_all-ends_example :
    (taken : Bytes) × (end : ReadEnd) × (read_all calls broken_body ≡ some (taken, end))
    × (length taken ≤ length broken_body.unread)
read_all-ends_example = read_all-ends calls broken_body calls-IsCall (omega arith)
