-- ===== src/Tests/Signatures.antt =====
-- A signed request, with functions in place of the hash and the HMAC that keep it short.
use mathlib.Core.List.{cons-ne-nil}
use overlay_s.Base.{
  Bytes, Lacks-of_contains_byte, Option, [], arith, bytes_eq, bytes_le, codes, contains_byte, cut,
  false, has_prefix, join, none, pos, refl, some, split, take, true, ℕ, ◌++◌, ◌∷◌, ◌≡◌,
}
use overlay_s.Base.Exec.{ok}
use overlay_s.Overlay.Buckets.{contains, insert_sorted, set_key, set_keys, sort_strings}
use overlay_s.Protocol.{get_value}
use overlay_s.Signature.Check.{
  canonical_query_string, canonical_request, check_headers, check_request, check_signature, keys_of,
  payload_hash_of, query_pairs, signature_of, signing_key, string_to_sign, values_of, verify_sig_v4,
}
use overlay_s.Signature.Check.Accepted.{Authorized, Signed, verify_sig_v4-Signed}
use overlay_s.Signature.Check.Complete.{Plain}
use overlay_s.Signature.Check.Repeated.{canonical_query_string-repeated}
use overlay_s.Signature.Check.Tokens.{IsToken, IsToken-of_is_token, is_token, one_space}
use overlay_s.Signature.Check.Written.{credential_of, verify_sig_v4-authorization_of}
use overlay_s.Signature.Encoding.{
  aws_encode, canonical_uri, encode_segments, hex_digit, is_unreserved,
}
use overlay_s.Signature.Fields.{auth_fields, auth_fields-unspaced}
use overlay_s.Signature.Middleware.{admit, admit-verifying, handed_on}
use overlay_s.Signature.Verify.{
  Scope, SignedRequest, add_field, aws_algorithm, canonical_headers, credential_scope, field,
  follow, guard, header_names, header_value, is_space, parse_fields, required, scheme_rest,
  signed_value, squeeze, to_lower, trim_space, trim_space_left, trim_space_right,
}
use overlay_s.Store.{Reader}
use overlay_s.Tests.Layers.{error_text}
use overlay_s.Tests.Stores.{reader}

abbrev pub tag : Bytes → Bytes → Bytes
tag k s = take 1 k ++ take 1 s

abbrev pub at_noon : Bytes → Option ℕ
at_noon s = some 43_200_000_000_000

abbrev signed_request : SignedRequest
signed_request = record {
  request = record {
    method = codes "GET";
    path = codes "/media/a";
    query = [];
    headers =
        (
          codes "Authorization",
          codes
              "AWS4-HMAC-SHA256 Credential=key/d/r/s/aws4_request, SignedHeaders=host, Signature=AA",
        )
        ∷ (codes "X-Amz-Date", codes "20260101T120000Z")
        ∷ [];
    body = reader [];
    panics = false;
  };
  host = codes "localhost";
  content_length = pos 0;
}

accepted :
    verify_sig_v4
      (λ s. s)
      tag
      to_lower
      at_noon
      43_200_000_000_001
      (codes "key")
      (codes "secret")
      signed_request
    ≡ ok tt
unfolding verify_sig_v4 follow guard header_value bytes_eq to_lower required scheme_rest cut
    parse_fields split add_field trim_space trim_space_right trim_space_left is_space field bytes_le
    has_prefix join contains insert_sorted set_key set_keys sort_strings get_value
    canonical_query_string canonical_request check_headers check_request check_signature keys_of
    payload_hash_of query_pairs signature_of signing_key string_to_sign values_of aws_encode
    canonical_uri encode_segments hex_digit is_unreserved canonical_headers credential_scope
    header_names signed_value squeeze
accepted = refl

verify_sig_v4-Signed_example :
    (scope : Scope) × (signed_headers : Bytes) × (signature : Bytes) × Authorized
      (λ s. s)
      tag
      to_lower
      at_noon
      43_200_000_000_001
      (codes "key")
      (codes "secret")
      signed_request
      scope
      signed_headers
      signature
    × Signed
        (λ s. s)
        tag
        to_lower
        at_noon
        43_200_000_000_001
        (codes "key")
        (codes "secret")
        signed_request
        scope
        signed_headers
        signature
verify_sig_v4-Signed_example =
    verify_sig_v4-Signed (λ s. s) tag to_lower at_noon 43_200_000_000_001 (codes "key")
      (codes "secret") signed_request accepted

canonical_query_string-repeated_example :
    canonical_query_string (
      (codes "delimiter", codes "/")
      ∷ (codes "prefix", codes "b")
      ∷ (codes "list-type", codes "2")
      ∷ (codes "prefix", codes "a")
      ∷ [])
    ≡ canonical_query_string (
        (codes "delimiter", codes "/")
        ∷ (codes "list-type", codes "2")
        ∷ (codes "prefix", codes "a")
        ∷ [])
unfolding bytes_le contains values_of bytes_eq
canonical_query_string-repeated_example =
    canonical_query_string-repeated ((codes "delimiter", codes "/") ∷ [])
      ((codes "list-type", codes "2") ∷ (codes "prefix", codes "a") ∷ []) (codes "prefix")
      (codes "a") (codes "b") refl refl

abbrev digest : Bytes
digest = codes "0123456789abcdef0123456789abcdef0123456789abcdef0123456789abcdef"

abbrev hashed_request : SignedRequest
hashed_request = record {
  request = record {
    method = codes "PUT";
    path = codes "/media/a";
    query = [];
    headers = (codes "X-Amz-Content-Sha256", digest) ∷ [];
    body = reader digest;
    panics = false;
  };
  host = codes "localhost";
  content_length = pos 64;
}

admit-verifying_example :
    (body : Reader) × (admit (λ s. s) error_text hashed_request (ok tt) ≡ handed_on body)
    × (body.failure ≡ none → body.content ≡ digest)
unfolding header_value to_lower bytes_eq
admit-verifying_example = admit-verifying (λ s. s) error_text hashed_request digest refl refl

auth_fields-unspaced_example :
    auth_fields (
      (aws_algorithm ++ 32 ∷ [])
      ++ (codes "Credential="
          ++ (codes "key/d/r/s/aws4_request" ++ b',' ∷ codes "SignedHeaders=host,Signature=AA")))
    ≡ (codes "key/d/r/s/aws4_request" ++ b',' ∷ codes "SignedHeaders=host,Signature=AA", [])
auth_fields-unspaced_example =
    auth_fields-unspaced (codes "key/d/r/s/aws4_request") (codes "SignedHeaders=host,Signature=AA")
      (Lacks-of_contains_byte
        (codes "key/d/r/s/aws4_request" ++ b',' ∷ codes "SignedHeaders=host,Signature=AA") 32
        (unfold contains_byte in refl))

abbrev test_scope : Scope
test_scope = record {
  key_id = codes "key";
  date = codes "d";
  region = codes "r";
  service = codes "s";
}

request-Signed :
    Signed
      (λ s. s)
      tag
      to_lower
      at_noon
      43_200_000_000_001
      (codes "key")
      (codes "secret")
      signed_request
      test_scope
      (codes "host")
      (codes "AA")
unfolding header_value bytes_eq to_lower cut split trim_space trim_space_right trim_space_left
    is_space bytes_le has_prefix join contains insert_sorted set_key set_keys sort_strings get_value
    canonical_query_string canonical_request keys_of payload_hash_of query_pairs signature_of
    signing_key string_to_sign values_of aws_encode canonical_uri encode_segments hex_digit
    is_unreserved canonical_headers header_names signed_value squeeze
request-Signed = record {
  known = refl;
  time = 43_200_000_000_000;
  dated = refl;
  recent = (omega arith, omega arith);
  lines = codes "host:localhost" ++ 10 ∷ [];
  present = refl;
  hosted = refl;
  matches = refl;
}

request-Plain :
    Plain
      (λ s. s)
      tag
      to_lower
      at_noon
      43_200_000_000_001
      (codes "key")
      (codes "secret")
      signed_request
unfolding get_value header_value payload_hash_of has_prefix bytes_eq to_lower
request-Plain = record { header_signed = refl; dated = cons-ne-nil _ _; supported = refl }

token : (s : Bytes) → is_token s ≡ true → IsToken s
token s h = IsToken-of_is_token s h

verify_sig_v4-authorization_of_example :
    verify_sig_v4
      (λ s. s)
      tag
      to_lower
      at_noon
      43_200_000_000_001
      (codes "key")
      (codes "secret")
      signed_request
    ≡ ok tt
unfolding is_token is_space contains_byte header_value bytes_eq to_lower
verify_sig_v4-authorization_of_example =
    verify_sig_v4-authorization_of (λ s. s) tag to_lower at_noon 43_200_000_000_001 (codes "key")
      (codes "secret") signed_request (32 ∷ []) (32 ∷ []) test_scope (codes "host") (codes "AA")
      one_space one_space (Lacks-of_contains_byte (codes "key") b'/' refl)
      (Lacks-of_contains_byte (codes "d") b'/' refl) (Lacks-of_contains_byte (codes "r") b'/' refl)
      (Lacks-of_contains_byte (codes "s") b'/' refl) (token (credential_of test_scope) refl)
      (token (codes "host") refl) (token (codes "AA") refl) refl request-Plain request-Signed
