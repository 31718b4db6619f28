-- ===== src/Signature/Check/Complete.antt =====
-- Which requests are accepted: the converse of what an accepted request has been checked for.
use mathlib.Core.Path.{subst}
use overlay_s.Base.{
  Bool, Bytes, Option, [], ap, arith, bytes_eq, bytes_eq_refl, codes, cut, has_prefix, is_nil, leb,
  not, refl, some, sym, true, ℕ, ◌&&◌, ◌+◌, ◌-◌, ◌||◌, ◌∙◌, ◌∷◌, ◌≡◌, ◌≢◌, ◌≤◌,
}
use overlay_s.Base.Exec.{Outcome, ok}
use overlay_s.Protocol.{get_value}
use overlay_s.Signature.Check.{
  check_headers, check_request, check_signature, payload_hash_of, verify_sig_v4,
}
use overlay_s.Signature.Check.Accepted.{Authorized, Signed}
use overlay_s.Signature.Verify.{
  Scope, SignedRequest, follow, guard, header_value, max_clock_skew, required, scheme_rest,
  streaming_payload,
}

guard-true : (c : Bool) (message : Bytes) → c ≡ true → guard c message ≡ ok tt
unfolding guard
guard-true c message h = rw h refl

required-some :
    {A : Type 0} (o : Option A) (message : Bytes) (a : A) → o ≡ some a → required o message ≡ ok a
unfolding required
required-some o message a h = rw h refl

follow-ok : {A B : Type 0} (o : Outcome A) (f : A → Outcome B) (a : A) → o ≡ ok a → follow o f ≡ f a
unfolding follow
follow-ok o f a h = rw h refl

-- A guard that holds, and what is checked behind it
past :
    {B : Type 0} (c : Bool) (message : Bytes) (f : Unit {0} → Outcome B) (b : Outcome B)
    → c ≡ true
    → f tt ≡ b
    → follow (guard c message) f ≡ b
past c message f b h k = follow-ok (guard c message) f tt (guard-true c message h) ∙ k

-- A value that is there, and what is checked behind it
with_value :
    {A B : Type 0} (o : Option A) (message : Bytes) (f : A → Outcome B) (a : A) (b : Outcome B)
    → o ≡ some a
    → f a ≡ b
    → follow (required o message) f ≡ b
with_value o message f a b h k =
    follow-ok (required o message) f a (required-some o message a h) ∙ k

bytes_eq-true : (s t : Bytes) → s ≡ t → bytes_eq s t ≡ true
bytes_eq-true s t e = subst (λ t. bytes_eq s t ≡ true) e (bytes_eq_refl s)

skew_within :
    (now t : ℕ)
    → (now ≤ t + max_clock_skew) × (t ≤ now + max_clock_skew)
    → (leb (now - t) max_clock_skew && leb (t - now) max_clock_skew) ≡ true
skew_within now t h = ground arith

present_not_nil : (s : Bytes) → s ≢ [] → not (is_nil s) ≡ true
present_not_nil [] h = absurd (h refl)
present_not_nil (c ∷ s) h = refl

module _ (sha256 : Bytes → Bytes) (hmac : Bytes → Bytes → Bytes) (hex : Bytes → Bytes)
    (parse_time : Bytes → Option ℕ) (now : ℕ) (access_key secret_key : Bytes)
    (r : SignedRequest) where
  -- What a signed request needs beside its signature: it is not signed in its query, it has a date, and
  -- its payload is not of a kind of streaming that is not supported.
  pub record Plain : Type 0 where
    pub header_signed : get_value r.request.query (codes "X-Amz-Signature") ≡ []
    pub dated : header_value r.request.headers (codes "x-amz-date") ≢ []
    pub supported :
        (not (
            has_prefix
              (payload_hash_of (header_value r.request.headers (codes "x-amz-content-sha256")))
              (codes "STREAMING-"))
          || bytes_eq
              (payload_hash_of (header_value r.request.headers (codes "x-amz-content-sha256")))
              streaming_payload)
        ≡ true

  check_request-accepts :
      (scope : Scope) (signed_headers signature : Bytes)
      → Plain
      → Signed sha256 hmac hex parse_time now access_key secret_key r scope signed_headers signature
      → check_request sha256 hmac hex parse_time now access_key secret_key r scope signed_headers
          signature
        ≡ ok tt
  unfolding check_request check_headers check_signature
  check_request-accepts scope signed_headers signature p s =
      past _ _ _ _ (bytes_eq-true _ _ s.known) (
        past _ _ _ _ (rw p.header_signed refl) (
          past _ _ _ _ (present_not_nil _ p.dated) (
            with_value _ _ _ s.time _ s.dated (
              past _ _ _ _ (skew_within now s.time s.recent) (
                past _ _ _ _ p.supported (
                  follow-ok _ _ s.lines s.present
                  ∙ past _ _ _ _ s.hosted (guard-true _ _ (bytes_eq-true _ _ (sym s.matches)))))))))

  -- A request is accepted, whatever the hash and the HMAC are, whose Authorization header has the
  -- signature of the secret key over the canonical form of the request that verifySigV4 computes, for
  -- this access key, within the allowed clock skew and with its host signed. It must not be signed in
  -- its query as well, and its payload must be of a kind that is supported.
  pub verify_sig_v4-accepts :
      (scope : Scope) (signed_headers signature : Bytes)
      → Plain
      → Authorized sha256 hmac hex parse_time now access_key secret_key r scope signed_headers
          signature
      → Signed sha256 hmac hex parse_time now access_key secret_key r scope signed_headers signature
      → verify_sig_v4 sha256 hmac hex parse_time now access_key secret_key r ≡ ok tt
  unfolding verify_sig_v4
  verify_sig_v4-accepts scope signed_headers signature p a s =
      past _ _ _ _ (present_not_nil _ (some_header a.rest a.scheme)) (
        with_value _ _ _ a.rest _ a.scheme (
          with_value _ _ _ a.fields _ a.parsed (
            with_value _ _ _ a.credential _ a.credential_field (
              with_value _ _ _ signed_headers _ a.headers_field (
                with_value _ _ _ signature _ a.signature_field (
                  with_value _ _ _ scope _ a.scoped
                    (check_request-accepts scope signed_headers signature p s)))))))
    where
      some_header :
          (rest : Bytes)
          → scheme_rest (cut (header_value r.request.headers (codes "authorization")) 32)
            ≡ some rest
          → header_value r.request.headers (codes "authorization") ≢ []
      some_header rest h e = absurd (no_scheme (ap (λ t. scheme_rest (cut t 32)) (sym e) ∙ h))
        where
          no_scheme : scheme_rest (cut [] 32) ≢ some rest
          no_scheme h = unfold scheme_rest cut in ground arith
