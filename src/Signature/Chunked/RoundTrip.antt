-- ===== src/Signature/Chunked/RoundTrip.antt =====
-- Reading a body in aws-chunked framing gives the data of its chunks.
use Prim.Native.Nat.{min}
use overlay_s.Base.{
  All, Bytes, Lacks, List, Option, [], ap, append_assoc, arith, cut-append, drop, false, is_nil,
  length, length-append, length-drop, pos, refl, some, suc, sym, take, take-append-drop, ℕ, ◌++◌,
  ◌<◌, ◌^◌, ◌∙◌, ◌∷◌, ◌≡◌,
}
use overlay_s.Base.Exec.{Error}
use overlay_s.Remote.KeyMap.RoundTrip.{is_nil-false}
use overlay_s.Signature.Chunked.{
  ChunkedReader, ReadCall, chunk_size, eof, joined, new_aws_chunked_reader, read, read_all,
  read_header, start_chunk,
}
use overlay_s.Signature.Chunked.Steps.{
  Chunk, IsCall, IsChunk, data_of, encode, is_nil-length, not_zero, read_data_lem, taking, within,
}

module _ (last trailer : Bytes) (last_lacks : Lacks 10 last)
    (last_size : chunk_size last ≡ some (pos 0)) (f : Option Error) where
  -- The reader with `d` of a chunk to give, and `cs` behind it
  abbrev reading : Bytes → List Chunk → ChunkedReader
  reading d cs = within f (encode last trailer cs) d

  read_end :
      (call : ReadCall) → (read call (reading [] [])).0 ≡ record { taken = []; ending = some eof }
  unfolding read read_header start_chunk
  read_end call = rw (cut-append last trailer 10 last_lacks, last_size) refl

  read_start :
      (call : ReadCall) (room : IsCall call) (c : Chunk) (cs : List Chunk) (h : IsChunk c)
      → read call (reading [] (c ∷ cs)) ≡ (
        taking (take (min (min (length c.bytes) call.len) call.give) c.bytes),
        reading (drop (min (min (length c.bytes) call.len) call.give) c.bytes) cs,
      )
  unfolding read read_header start_chunk
  read_start call room c cs (lacks, size, nonempty, small) =
      rw
        (
          cut-append c.line (c.bytes ++ 13 ∷ 10 ∷ encode last trailer cs) 10 lacks,
          size,
          not_zero (length c.bytes) (is_nil-length c.bytes (is_nil-false c.bytes nonempty)),
        )
        (read_data_lem f (encode last trailer cs) call room c.bytes (is_nil-false c.bytes nonempty)
          small)

  read_within :
      (call : ReadCall) (room : IsCall call) (x : ℕ) (e : Bytes) (cs : List Chunk)
      → length (x ∷ e) < 2 ^ 63
      → read call (reading (x ∷ e) cs) ≡ (
        taking (take (min (min (length (x ∷ e)) call.len) call.give) (x ∷ e)),
        reading (drop (min (min (length (x ∷ e)) call.len) call.give) (x ∷ e)) cs,
      )
  unfolding read
  read_within call room x e cs small =
      rw (not_zero (length (x ∷ e)) (omega arith))
        (read_data_lem f (encode last trailer cs) call room (x ∷ e) refl small)

  read_all_step :
      (call : ReadCall) (calls : List ReadCall) (c c' : ChunkedReader) (t r : Bytes)
      → read call c ≡ (taking t, c')
      → read_all calls c' ≡ some (r, eof)
      → read_all (call ∷ calls) c ≡ some (t ++ r, eof)
  unfolding read_all joined
  read_all_step call calls c c' t r h k = rw (h, k) refl

  abbrev Complete : List ReadCall → Type 0
  Complete calls =
      (d : Bytes) (cs : List Chunk)
      → All IsChunk cs
      → length d < 2 ^ 63
      → length (d ++ data_of cs) < length calls
      → read_all calls (reading d cs) ≡ some (d ++ data_of cs, eof)

  -- One call that takes some of `d`, and then the others
  taken_step :
      (call : ReadCall) (calls : List ReadCall) (room : IsCall call) (c : ChunkedReader) (d : Bytes)
      (cs : List Chunk)
      → is_nil d ≡ false
      → All IsChunk cs
      → length d < 2 ^ 63
      → length (d ++ data_of cs) < suc (length calls)
      → read call c ≡ (
        taking (take (min (min (length d) call.len) call.give) d),
        reading (drop (min (min (length d) call.len) call.give) d) cs,
      )
      → Complete calls
      → read_all (call ∷ calls) c ≡ some (d ++ data_of cs, eof)
  taken_step call calls room c d cs nonempty hs small short h again =
      let n = min (min (length d) call.len) call.give in
      let left = drop n d in
      let rest = again left cs hs (omega (arith, length-drop n d)) (
        omega (
          arith,
          length-drop n d,
          length-append d (data_of cs),
          length-append left (data_of cs),
          counted,
        )) in
      read_all_step call calls c (reading left cs) (take n d) (left ++ data_of cs) h rest
      ∙ ap (λ bytes. some (bytes, eof))
          (sym (append_assoc (take n d) left (data_of cs))
            ∙ ap (λ bytes. bytes ++ data_of cs) (take-append-drop n d))
    where
      counted : 0 < min (min (length d) call.len) call.give
      counted = ground (arith, is_nil-length d nonempty)

  All-Complete : (calls : List ReadCall) → All IsCall calls → Complete calls
  unfolding read_all joined
  All-Complete [] hc d cs hs small short = absurd (omega arith)
  All-Complete (call ∷ calls) (room, hc) [] [] hs small short = rw (read_end call) refl
  All-Complete (call ∷ calls) (room, hc) [] (c ∷ cs) (h, hs) small short =
      taken_step call calls room _ c.bytes cs (is_nil-false c.bytes h.2) hs h.3 short
        (read_start call room c cs h) (All-Complete calls hc)
  All-Complete (call ∷ calls) (room, hc) (x ∷ e) cs hs small short =
      taken_step call calls room _ (x ∷ e) cs refl hs small short
        (read_within call room x e cs small) (All-Complete calls hc)

  -- Whatever sizes the caller asks for and the reader below gives, the body of some chunks reads as
  -- their data and then io.EOF; one call more than there are bytes is enough. Each chunk's line gives
  -- the size of its data, which is not empty and below 2^63 bytes; the last line gives 0.
  pub read_all-encode :
      (calls : List ReadCall) (cs : List Chunk)
      → All IsCall calls
      → All IsChunk cs
      → length (data_of cs) < length calls
      → read_all calls
          (new_aws_chunked_reader (record { content = encode last trailer cs; failure = f }))
        ≡ some (data_of cs, eof)
  read_all-encode calls cs hc hs short = All-Complete calls hc [] cs hs (omega arith) short
