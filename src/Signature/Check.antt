-- ===== src/Signature/Check.antt =====
-- sigv4.go, verifySigV4, canonicalQueryString and signingKey: the checks in their order.
pub mod Accepted
pub mod Repeated
pub mod Tokens
pub mod Written
pub mod Complete
use overlay_s.Base.{
  Bytes, List, Option, [], bytes_eq, codes, cut, has_prefix, if◌then◌else◌, is_nil, join, leb, not,
  some, split, ℕ, ◌&&◌, ◌++◌, ◌-◌, ◌||◌, ◌∷◌,
}
use overlay_s.Base.Exec.{Outcome}
use overlay_s.Overlay.Buckets.{contains, first_of, set_keys, sort_strings}
use overlay_s.Protocol.{get_value}
use overlay_s.Signature.Encoding.{aws_encode, canonical_uri}
use overlay_s.Signature.Verify.{
  Scope, SignedRequest, aws_algorithm, canonical_headers, credential_scope, field, follow, guard,
  header_names, header_value, max_clock_skew, parse_fields, request_terminator, required,
  scheme_rest, streaming_payload, to_lower, unsigned_payload,
}

unfoldable pub keys_of : List (Bytes × Bytes) → List Bytes
keys_of [] = []
keys_of ((k, v) ∷ q) = k ∷ keys_of q

unfoldable pub values_of : List (Bytes × Bytes) → Bytes → List Bytes
values_of [] k = []
values_of ((j, v) ∷ q) k = let rest = values_of q k in if bytes_eq j k then v ∷ rest else rest

-- The loop over the sorted keys
unfoldable pub query_pairs : List (Bytes × Bytes) → List Bytes → List Bytes
query_pairs q [] = []
query_pairs q (k ∷ ks) =
    (aws_encode k ++ b'=' ∷ aws_encode (first_of (sort_strings (values_of q k)))) ∷ query_pairs q ks

unfoldable pub canonical_query_string : List (Bytes × Bytes) → Bytes
canonical_query_string q = join (query_pairs q (sort_strings (set_keys [] (keys_of q)))) b'&'

-- payloadHash, with its default
unfoldable pub payload_hash_of : Bytes → Bytes
payload_hash_of v = if is_nil v then unsigned_payload else v

-- The hash and the HMAC are crypto/sha256's and crypto/hmac's, `hex` is hex.EncodeToString, and
-- `parse_time` reads a time as x-amz-date has it.
module _ (sha256 : Bytes → Bytes) (hmac : Bytes → Bytes → Bytes) (hex : Bytes → Bytes)
    (parse_time : Bytes → Option ℕ) where
  unfoldable pub signing_key : Bytes → Bytes → Bytes → Bytes → Bytes
  signing_key secret date region service =
      hmac (hmac (hmac (hmac (codes "AWS4" ++ secret) date) region) service) request_terminator

  unfoldable pub canonical_request : SignedRequest → List Bytes → Bytes → Bytes → Bytes
  canonical_request r signed_headers headers payload_hash =
      join
        (r.request.method
          ∷ canonical_uri r.request.path
          ∷ canonical_query_string r.request.query
          ∷ headers
          ∷ join signed_headers b';'
          ∷ payload_hash
          ∷ [])
        10

  unfoldable pub string_to_sign : Scope → Bytes → Bytes → Bytes
  string_to_sign scope amz_date request =
      join
        (aws_algorithm
          ∷ amz_date
          ∷ join (scope.date ∷ scope.region ∷ scope.service ∷ request_terminator ∷ []) b'/'
          ∷ hex (sha256 request)
          ∷ [])
        10

  -- expected
  unfoldable pub signature_of : Bytes → Scope → Bytes → Bytes → Bytes
  signature_of secret scope amz_date request = hex (
      hmac (signing_key secret scope.date scope.region scope.service)
        (string_to_sign scope amz_date request))

  module _ (secret_key : Bytes) (r : SignedRequest) (scope : Scope) (amz_date signature : Bytes)
      (names : List Bytes) where
    unfoldable pub check_signature : Bytes → Outcome (Unit {0})
    check_signature headers =
        follow (guard (contains names (codes "host")) (codes "signed headers must include host"))
          (λ hosted.
            guard
              (bytes_eq
                (signature_of secret_key scope amz_date (
                  canonical_request r names headers (
                    payload_hash_of
                      (header_value r.request.headers (codes "x-amz-content-sha256")))))
                (to_lower signature))
              (codes "signature mismatch"))

    unfoldable pub check_headers : Outcome (Unit {0})
    check_headers =
        let payload_hash =
          payload_hash_of (header_value r.request.headers (codes "x-amz-content-sha256")) in
        follow
          (guard
            (not (has_prefix payload_hash (codes "STREAMING-"))
              || bytes_eq payload_hash streaming_payload)
            (codes "unsupported streaming payload signing"))
          (λ supported. follow (canonical_headers r names) check_signature)

  -- The checks behind the parsing of the Authorization header, at the time `now`
  unfoldable pub check_request :
      ℕ → Bytes → Bytes → SignedRequest → Scope → Bytes → Bytes → Outcome (Unit {0})
  check_request now access_key secret_key r scope signed_headers signature =
      let amz_date = header_value r.request.headers (codes "x-amz-date") in
      follow (guard (bytes_eq scope.key_id access_key) (codes "access key mismatch")) (λ known.
        follow
          (guard (is_nil (get_value r.request.query (codes "X-Amz-Signature")))
            (codes "presigned URLs not supported"))
          (λ header_signed.
            follow (guard (not (is_nil amz_date)) (codes "missing x-amz-date")) (λ dated.
              follow (required (parse_time amz_date) (codes "invalid x-amz-date")) (λ t.
                follow
                  (guard (leb (now - t) max_clock_skew && leb (t - now) max_clock_skew)
                    (codes "request time outside acceptable skew"))
                  (λ in_time.
                    check_headers secret_key r scope amz_date signature
                      (sort_strings (header_names (split signed_headers b';'))))))))

  unfoldable pub verify_sig_v4 : ℕ → Bytes → Bytes → SignedRequest → Outcome (Unit {0})
  verify_sig_v4 now access_key secret_key r =
      let auth = header_value r.request.headers (codes "authorization") in
      follow (guard (not (is_nil auth)) (codes "missing Authorization header")) (λ present.
        follow (required (scheme_rest (cut auth 32)) (codes "unsupported authorization scheme"))
          (λ rest.
            follow
              (required (parse_fields (split rest b',') (some []))
                (codes "malformed authorization header"))
              (λ fields.
                follow (required (field (codes "Credential") fields) (codes "missing Credential"))
                  (λ credential.
                    follow
                      (required (field (codes "SignedHeaders") fields)
                        (codes "missing SignedHeaders"))
                      (λ signed_headers.
                        follow
                          (required (field (codes "Signature") fields) (codes "missing Signature"))
                          (λ signature.
                            follow
                              (required (credential_scope (split credential b'/'))
                                (codes "malformed Credential"))
                              (λ scope.
                                check_request now access_key secret_key r scope signed_headers
                                  signature)))))))
