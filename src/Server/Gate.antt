-- ===== src/Server/Gate.antt =====
-- sigv4.go, sigv4Middleware as a handler before another, and what it answers by itself.
pub mod Chunked
use overlay_s.Base.{
  Bool, Bytes, List, Option, [], bytes_eq, codes, false, if◌then◌else◌, inl, inr, length, none,
  refl, some, suc, true, zero, ℕ, ℤ, ◌+◌, ◌∷◌, ◌≡◌, ◌⊎◌,
}
use overlay_s.Base.Decimal.{format_int}
use overlay_s.Base.Exec.{Error, Exec, Outcome, err, no_return, ok, pure}
use overlay_s.Base.Exec.Rules.{Claim, Follows, pure-Follows}
use overlay_s.Server.{Response, error_document, xml_response}
use overlay_s.Signature.Check.{verify_sig_v4}
use overlay_s.Signature.Check.Accepted.{Authorized, Signed, verify_sig_v4-Signed}
use overlay_s.Signature.Chunked.{
  ReadCall, ReadEnd, failed, new_aws_chunked_reader, panicked, read_all,
}
use overlay_s.Signature.Middleware.{Admission, admit, handed_on, handed_on_chunked, refused}
use overlay_s.Signature.Verify.{Scope, SignedRequest, to_lower}
use overlay_s.Store.{Reader}

-- A handler of requests, as net/http has them
abbrev pub Handler : Type 0 → Type 0
Handler W = SignedRequest → Exec W Response

-- writeSigError
abbrev pub sig_error_response : ℕ → Bytes → Bytes → Bytes → Response
sig_error_response status code message resource =
    xml_response status (error_document code message resource)

-- The calls of a caller that reads a body: its call `i` and the n - 1 behind it
unfoldable pub calls_from : (ℕ → ReadCall) → ℕ → ℕ → List ReadCall
calls_from caller i zero = []
calls_from caller i (suc n) = caller i ∷ calls_from caller (i + 1) n

-- How the reads of a body end: the error behind its bytes, and whether there is a panic instead
unfoldable pub body_failure : ReadEnd → Option Error
body_failure (failed e) = some e
body_failure _ = none

unfoldable pub is_panic : ReadEnd → Bool
is_panic panicked = true
is_panic _ = false

unfoldable pub read_body : Option (Bytes × ReadEnd) → Reader × Bool
read_body none = (record { content = []; failure = none }, false)
read_body (some (bytes, end)) =
    (record { content = bytes; failure = body_failure end }, is_panic end)

-- The body that a handler reads through newAwsChunkedReader; one call more than there are bytes is
-- enough for it.
unfoldable pub dechunked : (ℕ → ReadCall) → Reader → Reader × Bool
dechunked caller body =
    read_body
      (read_all (calls_from caller 0 (length body.content + 1)) (new_aws_chunked_reader body))

-- http.Header.Del; names are blind to case
unfoldable pub delete_header : Bytes → List (Bytes × Bytes) → List (Bytes × Bytes)
delete_header name [] = []
delete_header name ((j, v) ∷ hs) =
    let rest = delete_header name hs in
    if bytes_eq (to_lower j) (to_lower name) then rest else (j, v) ∷ rest

-- http.Header.Set
abbrev pub set_header : Bytes → Bytes → List (Bytes × Bytes) → List (Bytes × Bytes)
set_header name v hs = (name, v) ∷ delete_header name hs

abbrev pub with_body : SignedRequest → Reader → SignedRequest
with_body r body = record r { request = record r.request { body = body } }

-- The request that the case of streamingPayload hands on
unfoldable pub chunked_request : (ℕ → ReadCall) → SignedRequest → Reader → ℤ → SignedRequest
chunked_request caller r body n = record r {
  request = record r.request {
    headers =
        delete_header (codes "X-Amz-Content-Sha256")
          (set_header (codes "Content-Length") (format_int n) r.request.headers);
    body = (dechunked caller body).0;
    panics = (dechunked caller body).1;
  };
  content_length = n;
}

module _ {W : Type 0} (caller : ℕ → ReadCall) (next_handler : Handler W) where
  unfoldable pub admitted : SignedRequest → Admission → Exec W Response
  admitted r (refused status code message) =
      pure (sig_error_response status code message r.request.path)
  admitted r (handed_on body) = next_handler (with_body r body)
  admitted r (handed_on_chunked body n) = next_handler (chunked_request caller r body n)

  module _ (sha256 : Bytes → Bytes) (hmac : Bytes → Bytes → Bytes) (hex : Bytes → Bytes)
      (parse_time : Bytes → Option ℕ) (now : W → ℕ) (describe : Error → Bytes)
      (access_key secret_key : Bytes) where
    unfoldable pub sigv4_middleware : Handler W
    sigv4_middleware r w =
        admitted r
          (admit (λ content. hex (sha256 content)) describe r
            (verify_sig_v4 sha256 hmac hex parse_time (now w) access_key secret_key r))
          w

    -- The request is signed as the keys say it must be, at the time of this world.
    abbrev pub SignedAt : SignedRequest → W → Type 0
    SignedAt r w =
        (scope : Scope) × (signed_headers : Bytes) × (signature : Bytes) × Authorized sha256 hmac
          hex parse_time (now w) access_key secret_key r scope signed_headers signature
        × Signed sha256 hmac hex parse_time (now w) access_key secret_key r scope signed_headers
            signature

    -- What stands before the handler lets only signed requests through: to any other it answers 403
    -- itself, and changes nothing.
    pub sigv4_middleware-Signed :
        (r : SignedRequest) (w : W)
        → SignedAt r w
          ⊎ ((message : Bytes) × (sigv4_middleware r w ≡ (
            ok (sig_error_response 403 (codes "SignatureDoesNotMatch") message r.request.path),
            w,
          )))
    unfolding sigv4_middleware
    sigv4_middleware-Signed r w =
        decided (verify_sig_v4 sha256 hmac hex parse_time (now w) access_key secret_key r) refl
      where
        decided :
            (o : Outcome (Unit {0}))
            → verify_sig_v4 sha256 hmac hex parse_time (now w) access_key secret_key r ≡ o
            → SignedAt r w
              ⊎ ((message : Bytes) × (admitted r
                      (admit (λ content. hex (sha256 content)) describe r o)
                      w
                    ≡ (
                      ok (
                          sig_error_response 403
                            (codes "SignatureDoesNotMatch")
                            message
                            r.request.path),
                      w,
                    )))
        decided (ok u) e =
            inl (verify_sig_v4-Signed sha256 hmac hex parse_time (now w) access_key secret_key r e)
        decided (err e') e = inr (describe e', unfold admitted admit in refl)
        decided no_return e = inr ([], unfold admitted admit in refl)

  -- A claim that holds of the handler behind holds of the requests that are handed on.
  pub admitted-Follows :
      (K : Claim W)
      → Follows K
      → ((r : SignedRequest) → K Response (next_handler r))
      → (r : SignedRequest) (a : Admission) → K Response (admitted r a)
  unfolding admitted
  admitted-Follows K k h r (refused status code message) = pure-Follows k _
  admitted-Follows K k h r (handed_on body) = h _
  admitted-Follows K k h r (handed_on_chunked body n) = h _
