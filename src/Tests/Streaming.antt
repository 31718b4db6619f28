-- ===== src/Tests/Streaming.antt =====
-- A signed request whose body is in aws-chunked framing.
use overlay_s.Base.{
  Lacks-of_contains_byte, [], arith, bytes_eq, bytes_le, codes, contains_byte, cut, false,
  has_prefix, index_byte, join, none, pos, refl, split, trim_prefix, trim_suffix, true, ℕ, ◌++◌,
  ◌∷◌, ◌≡◌,
}
use overlay_s.Base.Decimal.{parse_int}
use overlay_s.Base.Exec.{Exec, no_return, ok}
use overlay_s.Overlay.Buckets.{contains, insert_sorted, set_key, set_keys, sort_strings}
use overlay_s.Overlay.Gateway.{overlay_store}
use overlay_s.Protocol.{
  Request, get_value, has, object_op, parse_s3_request, route, split_at, split_path,
}
use overlay_s.Server.{Response, bytes_piece}
use overlay_s.Server.Gate.{calls_from, dechunked, is_panic, read_body, sigv4_middleware}
use overlay_s.Server.Gate.Chunked.{sigv4_middleware-encode}
use overlay_s.Server.Handlers.{
  check_match, check_none_match, completed, dispatch, handle_put_object, reads_body, serve_http,
}
use overlay_s.Signature.Check.{
  canonical_query_string, canonical_request, check_headers, check_request, check_signature, keys_of,
  payload_hash_of, query_pairs, signature_of, signing_key, string_to_sign, values_of, verify_sig_v4,
}
use overlay_s.Signature.Chunked.{
  ReadCall, before_extension, chunk_size, joined, read, read_all, read_data, read_header,
  start_chunk,
}
use overlay_s.Signature.Chunked.Steps.{encode}
use overlay_s.Signature.Encoding.{
  aws_encode, canonical_uri, encode_segments, hex_digit, is_unreserved,
}
use overlay_s.Signature.Verify.{
  SignedRequest, add_field, canonical_headers, credential_scope, field, follow, guard, header_names,
  header_value, is_space, parse_fields, required, scheme_rest, signed_value, squeeze,
  streaming_payload, to_lower, trim_space, trim_space_left, trim_space_right,
}
use overlay_s.Tests.Bodies.{chunk, chunk-IsChunk, last-size, last_line}
use overlay_s.Tests.Layers.{decode, error_text}
use overlay_s.Tests.Signatures.{at_noon, tag}
use overlay_s.Tests.Stores.{World, clock, gateway, reader, two_stores, world}

abbrev caller : ℕ → ReadCall
caller i = record { len = 4; give = 3; eager = true }

abbrev streamed_request : SignedRequest
streamed_request = record {
  request = record {
    method = codes "PUT";
    path = codes "/media/a";
    query = [];
    headers =
        (
          codes "Authorization",
          codes
              "AWS4-HMAC-SHA256 Credential=key/d/r/s/aws4_request, SignedHeaders=host, Signature=AA",
        )
        ∷ (codes "X-Amz-Date", codes "20260101T120000Z")
        ∷ (codes "X-Amz-Content-Sha256", streaming_payload)
        ∷ (codes "X-Amz-Decoded-Content-Length", codes "5")
        ∷ [];
    body = record { content = encode last_line (codes "end") (chunk ∷ []); failure = none };
    panics = false;
  };
  host = codes "localhost";
  content_length = pos 90;
}

-- What the handler behind the middleware reads, sent back
abbrev echo : SignedRequest → Exec World Response
echo r w =
    (ok (record { status = 200; headers = []; body = bytes_piece r.request.body.content ∷ [] }), w)

streamed-accepted :
    verify_sig_v4
      (λ s. s)
      tag
      to_lower
      at_noon
      43_200_000_000_001
      (codes "key")
      (codes "secret")
      streamed_request
    ≡ ok tt
unfolding verify_sig_v4 follow guard header_value bytes_eq to_lower required scheme_rest cut
    parse_fields split add_field trim_space trim_space_right trim_space_left is_space field bytes_le
    has_prefix join contains insert_sorted set_key set_keys sort_strings get_value
    canonical_query_string canonical_request check_headers check_request check_signature keys_of
    payload_hash_of query_pairs signature_of signing_key string_to_sign values_of aws_encode
    canonical_uri encode_segments hex_digit is_unreserved canonical_headers credential_scope
    header_names signed_value squeeze
streamed-accepted = refl

sigv4_middleware-encode_example :
    sigv4_middleware caller echo
      (λ s. s)
      tag
      to_lower
      at_noon
      (λ w. 43_200_000_000_001)
      error_text
      (codes "key")
      (codes "secret")
      streamed_request
      world
    ≡ (ok (record { status = 200; headers = []; body = bytes_piece (codes "hello") ∷ [] }), world)
unfolding header_value bytes_eq to_lower parse_int
sigv4_middleware-encode_example =
    sigv4_middleware-encode last_line (codes "end")
      (Lacks-of_contains_byte last_line 10 (unfold contains_byte in refl)) last-size none caller
      (λ i. (omega arith, omega arith)) (chunk ∷ []) (chunk-IsChunk, tt) echo (λ s. s) tag to_lower
      at_noon (λ w. 43_200_000_000_001) error_text (codes "key") (codes "secret") streamed_request
      world 5 streamed-accepted refl refl refl

-- A chunk of negative size panics, and a PUT of such a body has no answer and stores nothing.
negative_chunk : (dechunked caller (reader (codes "-5" ++ 10 ∷ codes "hello"))).1 ≡ true
unfolding dechunked read_all read read_header start_chunk read_data joined read_body is_panic
    calls_from chunk_size before_extension parse_int cut trim_suffix
negative_chunk = refl

abbrev panicking_put : Request
panicking_put = record {
  method = codes "PUT";
  path = codes "/media/greeting";
  query = [];
  headers = [];
  body = reader [];
  panics = true;
}

panicking_put-serve_http :
    serve_http
      (λ g. clock g.world)
      decode
      (overlay_store clock 5 two_stores)
      error_text
      panicking_put
      gateway
    ≡ (no_return, gateway)
unfolding contains_byte serve_http completed dispatch parse_s3_request route split_path split_at
    index_byte trim_prefix object_op bytes_eq has get_value handle_put_object check_none_match
    check_match overlay_store reads_body
panicking_put-serve_http = refl
