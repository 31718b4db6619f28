-- ===== src/Server/Gate/Chunked.antt =====
-- sigv4.go, sigv4Middleware on a body in aws-chunked framing: what the handler behind it reads.
use overlay_s.Base.{
  All, Bytes, Lacks, List, Option, [], ap, arith, bytes_eq_refl, codes, false, length,
  length-append, none, pos, refl, some, suc, zero, ℕ, ◌++◌, ◌+◌, ◌∙◌, ◌∷◌, ◌≡◌, ◌≤◌,
}
use overlay_s.Base.Decimal.{format_int, parse_int}
use overlay_s.Base.Exec.{Error, ok}
use overlay_s.Server.Gate.{
  Handler, admitted, body_failure, calls_from, chunked_request, dechunked, delete_header, is_panic,
  read_body, set_header, sigv4_middleware,
}
use overlay_s.Signature.Check.{verify_sig_v4}
use overlay_s.Signature.Chunked.{ReadCall, chunk_size}
use overlay_s.Signature.Chunked.RoundTrip.{read_all-encode}
use overlay_s.Signature.Chunked.Steps.{Chunk, IsCall, IsChunk, data_of, encode}
use overlay_s.Signature.Middleware.{admit, admit_body, chunked_length, handed_on_chunked}
use overlay_s.Signature.Verify.{SignedRequest, header_value, streaming_payload}
use overlay_s.Store.{Reader}

length-data_of :
    (last trailer : Bytes) (cs : List Chunk) → length (data_of cs) ≤ length (encode last trailer cs)
length-data_of last trailer [] = omega arith
length-data_of last trailer (c ∷ cs) = omega (
  arith,
  length-data_of last trailer cs,
  length-append c.bytes (data_of cs),
  length-append c.line (10 ∷ (c.bytes ++ 13 ∷ 10 ∷ encode last trailer cs)),
  length-append c.bytes (13 ∷ 10 ∷ encode last trailer cs),
)

length-calls_from : (caller : ℕ → ReadCall) (i n : ℕ) → length (calls_from caller i n) ≡ n
unfolding calls_from
length-calls_from caller i zero = refl
length-calls_from caller i (suc n) = ap suc (length-calls_from caller (i + 1) n)

calls_from-IsCall :
    (caller : ℕ → ReadCall) (i n : ℕ)
    → ((i : ℕ) → IsCall (caller i))
    → All IsCall (calls_from caller i n)
unfolding calls_from
calls_from-IsCall caller i zero room = tt
calls_from-IsCall caller i (suc n) room = (room i, calls_from-IsCall caller (i + 1) n room)

chunked_length_lem :
    (body : Reader) (n : ℕ) → chunked_length body (some (pos n)) ≡ handed_on_chunked body (pos n)
unfolding chunked_length
chunked_length_lem body n = ground arith

module _ (last trailer : Bytes) (last_lacks : Lacks 10 last)
    (last_size : chunk_size last ≡ some (pos 0)) (f : Option Error) (caller : ℕ → ReadCall)
    (room : (i : ℕ) → IsCall (caller i)) (cs : List Chunk) (are_chunks : All IsChunk cs) where
  abbrev pub framed_body : Reader
  framed_body = record { content = encode last trailer cs; failure = f }

  dechunked-encode :
      dechunked caller framed_body ≡ (record { content = data_of cs; failure = none }, false)
  unfolding dechunked
  dechunked-encode =
      let n = length (encode last trailer cs) + 1 in
      rw
        (read_all-encode last trailer last_lacks last_size f (calls_from caller 0 n) cs
          (calls_from-IsCall caller 0 n room) are_chunks
          (omega (arith, length-calls_from caller 0 n, length-data_of last trailer cs)))
        (unfold read_body body_failure is_panic in refl)

  -- A request that is signed, says that its payload is streamed, and gives the length of its data, with
  -- a body of well-formed chunks, reaches the handler behind the middleware with the data of its chunks
  -- for its body, that length for its own, and without the header that said so: whatever sizes the
  -- handler asks for, and whatever stands behind the last chunk.
  pub sigv4_middleware-encode :
      {W : Type 0} (next_handler : Handler W) (sha256 : Bytes → Bytes)
      (hmac : Bytes → Bytes → Bytes) (hex : Bytes → Bytes) (parse_time : Bytes → Option ℕ)
      (now : W → ℕ) (describe : Error → Bytes) (access_key secret_key : Bytes) (r : SignedRequest)
      (w : W) (n : ℕ)
      → verify_sig_v4 sha256 hmac hex parse_time (now w) access_key secret_key r ≡ ok tt
      → header_value r.request.headers (codes "x-amz-content-sha256") ≡ streaming_payload
      → parse_int 10 (header_value r.request.headers (codes "x-amz-decoded-content-length"))
        ≡ some (pos n)
      → r.request.body ≡ framed_body
      → sigv4_middleware caller next_handler sha256 hmac hex parse_time now describe access_key
          secret_key r w
        ≡ next_handler
            (record r {
              request = record r.request {
                headers =
                    delete_header
                      (codes "X-Amz-Content-Sha256")
                      (set_header (codes "Content-Length") (format_int (pos n)) r.request.headers);
                body = record { content = data_of cs; failure = none };
                panics = false;
              };
              content_length = pos n;
            })
            w
  unfolding sigv4_middleware admit admit_body admitted chunked_request
  sigv4_middleware-encode next_handler sha256 hmac hex parse_time now describe access_key secret_key
        r w n signed streamed counted framed =
      rw
        (
          signed,
          streamed,
          bytes_eq_refl streaming_payload,
          counted,
          chunked_length_lem r.request.body n,
        )
        (ap
          (λ b.
            next_handler
              (record r {
                request = record r.request {
                  headers =
                      delete_header (codes "X-Amz-Content-Sha256") (
                        set_header (codes "Content-Length") (format_int (pos n)) r.request.headers);
                  body = b.0;
                  panics = b.1;
                };
                content_length = pos n;
              })
              w)
          (ap (dechunked caller) framed ∙ dechunked-encode))
