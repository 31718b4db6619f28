-- ===== src/Signature/Check/Accepted.antt =====
-- What an accepted request has been checked for.
use overlay_s.Base.{
  Bool, Bytes, List, Option, [], arith, bytes_eq_sound, codes, cut, false, leb, none, refl, some,
  split, sym, true, ℕ, ◌&&◌, ◌+◌, ◌-◌, ◌≡◌, ◌≤◌,
}
use overlay_s.Base.Exec.{Outcome, err, no_return, ok}
use overlay_s.Overlay.Buckets.{contains, sort_strings}
use overlay_s.Signature.Check.{
  canonical_request, check_headers, check_request, check_signature, payload_hash_of, signature_of,
  verify_sig_v4,
}
use overlay_s.Signature.Verify.{
  Scope, SignedRequest, canonical_headers, credential_scope, field, follow, guard, header_names,
  header_value, max_clock_skew, parse_fields, required, scheme_rest, to_lower,
}

-- An outcome that is fine went well so far, and then behind it.
behind :
    {A B G : Type 0} (o : Outcome A) (f : A → Outcome B) (b : B)
    → follow o f ≡ ok b
    → ((a : A) → o ≡ ok a → f a ≡ ok b → G)
    → G
unfolding follow
behind (ok a) f b h k = k a refl h
behind (err e) f b h k = absurd (ground arith)
behind no_return f b h k = absurd (ground arith)

guard_ok : (c : Bool) (message : Bytes) (u : Unit {0}) → guard c message ≡ ok u → c ≡ true
unfolding guard
guard_ok true message u h = refl
guard_ok false message u h = absurd (ground arith)

-- A guard, and what is checked behind it
guarded :
    {B G : Type 0} (c : Bool) (message : Bytes) (f : Unit {0} → Outcome B) (b : B)
    → follow (guard c message) f ≡ ok b
    → (c ≡ true → f tt ≡ ok b → G)
    → G
unfolding follow guard
guarded true message f b h k = k refl h
guarded false message f b h k = absurd (ground arith)

-- A value that must be there, and what is checked behind it
given :
    {A B G : Type 0} (o : Option A) (message : Bytes) (f : A → Outcome B) (b : B)
    → follow (required o message) f ≡ ok b
    → ((a : A) → o ≡ some a → f a ≡ ok b → G)
    → G
unfolding follow required
given (some a) message f b h k = k a refl h
given none message f b h k = absurd (ground arith)

within_skew :
    (now t : ℕ)
    → (leb (now - t) max_clock_skew && leb (t - now) max_clock_skew) ≡ true
    → (now ≤ t + max_clock_skew) × (t ≤ now + max_clock_skew)
within_skew now t h = (ground arith, ground arith)

module _ (sha256 : Bytes → Bytes) (hmac : Bytes → Bytes → Bytes) (hex : Bytes → Bytes)
    (parse_time : Bytes → Option ℕ) (now : ℕ) (access_key secret_key : Bytes)
    (r : SignedRequest) where
  abbrev amz_date : Bytes
  amz_date = header_value r.request.headers (codes "x-amz-date")

  abbrev payload_hash : Bytes
  payload_hash = payload_hash_of (header_value r.request.headers (codes "x-amz-content-sha256"))

  -- The signed headers that a SignedHeaders field names
  abbrev pub names_of : Bytes → List Bytes
  names_of signed_headers = sort_strings (header_names (split signed_headers b';'))

  -- A request that the owner of the secret key has signed: with this access key, in the last or the
  -- next quarter of an hour, over its method, path, query, payload hash and the values of the headers
  -- it names, the host among them.
  pub record Signed (scope : Scope) (signed_headers signature : Bytes) : Type 0 where
    pub known : scope.key_id ≡ access_key
    pub time : ℕ
    pub dated : parse_time amz_date ≡ some time
    pub recent : (now ≤ time + max_clock_skew) × (time ≤ now + max_clock_skew)
    pub lines : Bytes
    pub present : canonical_headers r (names_of signed_headers) ≡ ok lines
    pub hosted : contains (names_of signed_headers) (codes "host") ≡ true
    pub matches :
        to_lower signature
        ≡ signature_of sha256 hmac hex parse_time secret_key scope amz_date (
            canonical_request sha256 hmac hex parse_time r
              (names_of signed_headers)
              lines
              payload_hash)

  -- The Authorization header has these three fields, the scope as five parts of Credential.
  pub record Authorized (scope : Scope) (signed_headers signature : Bytes) : Type 0 where
    pub fields : List (Bytes × Bytes)
    pub rest : Bytes
    pub scheme :
        scheme_rest (cut (header_value r.request.headers (codes "authorization")) 32) ≡ some rest
    pub parsed : parse_fields (split rest b',') (some []) ≡ some fields
    pub credential : Bytes
    pub credential_field : field (codes "Credential") fields ≡ some credential
    pub headers_field : field (codes "SignedHeaders") fields ≡ some signed_headers
    pub signature_field : field (codes "Signature") fields ≡ some signature
    pub scoped : credential_scope (split credential b'/') ≡ some scope

  check_request-Signed :
      (scope : Scope) (signed_headers signature : Bytes)
      → check_request sha256 hmac hex parse_time now access_key secret_key r scope signed_headers
          signature
        ≡ ok tt
      → Signed scope signed_headers signature
  unfolding check_request check_headers check_signature
  check_request-Signed scope signed_headers signature h = guarded _ _ _ tt h λ known h1.
      guarded _ _ _ tt h1 λ header_signed h2. guarded _ _ _ tt h2 λ dated h3.
        given _ _ _ tt h3 λ t at h4. guarded _ _ _ tt h4 λ in_time h5.
          guarded _ _ _ tt h5 λ supported h6. behind _ _ tt h6 λ lines present h7.
            guarded _ _ _ tt h7 λ hosted h8. record {
              known = bytes_eq_sound _ _ known;
              time = t;
              dated = at;
              recent = within_skew now t in_time;
              lines = lines;
              present = present;
              hosted = hosted;
              matches = sym (bytes_eq_sound _ _ (guard_ok _ _ tt h8));
            }

  -- Only signed requests are accepted: whatever the hash and the HMAC are, a request that passes has
  -- an Authorization header whose signature is the one that the secret key gives over the request as
  -- it came, for this access key, within the allowed clock skew and with its host signed.
  pub verify_sig_v4-Signed :
      verify_sig_v4 sha256 hmac hex parse_time now access_key secret_key r ≡ ok tt
      → (scope : Scope) × (signed_headers : Bytes) × (signature : Bytes) × Authorized scope
          signed_headers signature
        × Signed scope signed_headers signature
  unfolding verify_sig_v4
  verify_sig_v4-Signed h = guarded _ _ _ tt h λ present h1. given _ _ _ tt h1 λ rest scheme h2.
      given _ _ _ tt h2 λ fields parsed h3. given _ _ _ tt h3 λ credential c h4.
        given _ _ _ tt h4 λ signed_headers s h5. given _ _ _ tt h5 λ signature g h6.
          given _ _ _ tt h6 λ scope scoped h7. (
            scope,
            signed_headers,
            signature,
            record {
              fields = fields;
              rest = rest;
              scheme = scheme;
              parsed = parsed;
              credential = credential;
              credential_field = c;
              headers_field = s;
              signature_field = g;
              scoped = scoped;
            },
            check_request-Signed scope signed_headers signature h7,
          )
