-- ===== src/Signature/Check/Written.antt =====
-- The Authorization header as a signer writes it, read back by verifySigV4.
use overlay_s.Base.{
  All-append, Bytes, Lacks, Lacks-of_contains_byte, Option, [], ap, arith, bytes_eq, bytes_eq_refl,
  codes, contains_byte, cut, cut-append, false, refl, some, split, ℕ, ◌++◌, ◌∙◌, ◌∷◌, ◌≡◌, ◌≢◌,
}
use overlay_s.Base.Exec.{ok}
use overlay_s.Signature.Check.{verify_sig_v4}
use overlay_s.Signature.Check.Accepted.{Authorized, Signed}
use overlay_s.Signature.Check.Complete.{Plain, verify_sig_v4-accepts}
use overlay_s.Signature.Check.Tokens.{
  Gap, Gap-Lacks, IsToken, IsToken-Lacks, IsToken-of_is_token, is_token, split-end, split-next,
  trim_space-Gap, trim_space-IsToken,
}
use overlay_s.Signature.Verify.{
  Scope, SignedRequest, add_field, aws_algorithm, credential_scope, field, header_value, is_space,
  parse_fields, request_terminator, scheme_rest,
}

abbrev named_field : Bytes → Bytes → Bytes
named_field k v = k ++ b'=' ∷ v

-- The parts of a credential
abbrev pub credential_of : Scope → Bytes
credential_of scope =
    scope.key_id
    ++ b'/'
      ∷ (scope.date ++ b'/' ∷ (scope.region ++ b'/' ∷ (scope.service ++ b'/' ∷ request_terminator)))

-- The fields of a header, with what stands behind each comma
abbrev pub fields_of : Bytes → Bytes → Bytes → Bytes → Bytes → Bytes
fields_of gap gap' credential signed_headers signature =
    named_field (codes "Credential") credential
    ++ b','
      ∷ ((gap ++ named_field (codes "SignedHeaders") signed_headers)
          ++ b',' ∷ (gap' ++ named_field (codes "Signature") signature))

-- The header of a signer
abbrev pub authorization_of : Bytes → Bytes → Scope → Bytes → Bytes → Bytes
authorization_of gap gap' scope signed_headers signature =
    aws_algorithm ++ 32 ∷ fields_of gap gap' (credential_of scope) signed_headers signature

credential_scope_lem :
    (scope : Scope)
    → Lacks b'/' scope.key_id
    → Lacks b'/' scope.date
    → Lacks b'/' scope.region
    → Lacks b'/' scope.service
    → credential_scope (split (credential_of scope) b'/') ≡ some scope
credential_scope_lem scope hk hd hr hs =
    rw
      (
        split-next scope.key_id _ b'/' hk,
        split-next scope.date _ b'/' hd,
        split-next scope.region _ b'/' hr,
        split-next scope.service _ b'/' hs,
        split-end request_terminator b'/'
            (Lacks-of_contains_byte request_terminator b'/' (unfold contains_byte in refl)),
      )
      (unfold credential_scope bytes_eq in refl)

module _ (gap gap' credential signed_headers signature : Bytes) (is_gap : Gap gap)
    (is_gap' : Gap gap') (hc : IsToken credential) (hh : IsToken signed_headers)
    (hs : IsToken signature) where
  token_field : (k v : Bytes) → IsToken k → IsToken v → IsToken (named_field k v)
  token_field k v hk hv =
      All-append (λ c. (is_space c ≡ false) × (c ≢ b',')) k (b'=' ∷ v) hk
        ((unfold is_space in refl, λ e. ground arith), hv)

  credential_token : IsToken (codes "Credential")
  credential_token = IsToken-of_is_token (codes "Credential") (unfold is_token is_space in refl)

  headers_token : IsToken (codes "SignedHeaders")
  headers_token = IsToken-of_is_token (codes "SignedHeaders") (unfold is_token is_space in refl)

  signature_token : IsToken (codes "Signature")
  signature_token = IsToken-of_is_token (codes "Signature") (unfold is_token is_space in refl)

  cut_field : (k v : Bytes) → Lacks b'=' k → cut (named_field k v) b'=' ≡ some (k, v)
  cut_field k v h = cut-append k v b'=' h

  credential_field : IsToken (named_field (codes "Credential") credential)
  credential_field = token_field (codes "Credential") credential credential_token hc

  signed_headers_field : IsToken (named_field (codes "SignedHeaders") signed_headers)
  signed_headers_field = token_field (codes "SignedHeaders") signed_headers headers_token hh

  signature_field : IsToken (named_field (codes "Signature") signature)
  signature_field = token_field (codes "Signature") signature signature_token hs

  split_fields :
      split (fields_of gap gap' credential signed_headers signature) b','
      ≡ named_field (codes "Credential") credential
        ∷ (gap ++ named_field (codes "SignedHeaders") signed_headers)
        ∷ (gap' ++ named_field (codes "Signature") signature)
        ∷ []
  split_fields =
      split-next (named_field (codes "Credential") credential) _ b','
        (IsToken-Lacks (named_field (codes "Credential") credential) credential_field)
      ∙ ap (◌∷◌ (named_field (codes "Credential") credential)) (
          split-next (gap ++ named_field (codes "SignedHeaders") signed_headers) _ b',' (
            Gap-Lacks gap _ is_gap (
              IsToken-Lacks (named_field (codes "SignedHeaders") signed_headers)
                signed_headers_field))
          ∙ ap (◌∷◌ (gap ++ named_field (codes "SignedHeaders") signed_headers)) (
              split-end (gap' ++ named_field (codes "Signature") signature) b',' (
                Gap-Lacks gap' _ is_gap'
                  (IsToken-Lacks (named_field (codes "Signature") signature) signature_field))))

  parsed_fields :
      parse_fields (split (fields_of gap gap' credential signed_headers signature) b',') (some [])
      ≡ some (
          (codes "Signature", signature)
          ∷ (codes "SignedHeaders", signed_headers)
          ∷ (codes "Credential", credential)
          ∷ [])
  unfolding parse_fields add_field
  parsed_fields =
      rw
        (
          split_fields,
          trim_space-IsToken (named_field (codes "Credential") credential) credential_field,
          trim_space-Gap gap (named_field (codes "SignedHeaders") signed_headers) is_gap
              signed_headers_field,
          trim_space-Gap gap' (named_field (codes "Signature") signature) is_gap' signature_field,
          cut_field (codes "Credential") credential
              (Lacks-of_contains_byte (codes "Credential") b'=' (unfold contains_byte in refl)),
          cut_field (codes "SignedHeaders") signed_headers
              (Lacks-of_contains_byte (codes "SignedHeaders") b'=' (unfold contains_byte in refl)),
          cut_field (codes "Signature") signature
              (Lacks-of_contains_byte (codes "Signature") b'=' (unfold contains_byte in refl)),
        )
        refl

module _ (sha256 : Bytes → Bytes) (hmac : Bytes → Bytes → Bytes) (hex : Bytes → Bytes)
    (parse_time : Bytes → Option ℕ) (now : ℕ) (access_key secret_key : Bytes)
    (r : SignedRequest) where
  written_fields :
      (gap gap' : Bytes) (scope : Scope) (signed_headers signature : Bytes)
      → cut (authorization_of gap gap' scope signed_headers signature) 32
        ≡ some (aws_algorithm, fields_of gap gap' (credential_of scope) signed_headers signature)
  written_fields gap gap' scope signed_headers signature =
      cut-append aws_algorithm _ 32
        (Lacks-of_contains_byte aws_algorithm 32 (unfold contains_byte in refl))

  -- A header as signers write it is read as what they mean, with a space behind each comma or without.
  authorization_of-Authorized :
      (gap gap' : Bytes) (scope : Scope) (signed_headers signature : Bytes)
      → Gap gap
      → Gap gap'
      → Lacks b'/' scope.key_id
      → Lacks b'/' scope.date
      → Lacks b'/' scope.region
      → Lacks b'/' scope.service
      → IsToken (credential_of scope)
      → IsToken signed_headers
      → IsToken signature
      → header_value r.request.headers (codes "authorization")
        ≡ authorization_of gap gap' scope signed_headers signature
      → Authorized sha256 hmac hex parse_time now access_key secret_key r scope signed_headers
          signature
  authorization_of-Authorized gap gap' scope signed_headers signature is_gap is_gap' hk hd hr hv hc
        hh hs e =
      record {
        fields =
            (codes "Signature", signature)
            ∷ (codes "SignedHeaders", signed_headers)
            ∷ (codes "Credential", credential_of scope)
            ∷ [];
        rest = fields_of gap gap' (credential_of scope) signed_headers signature;
        scheme =
            ap (λ t. scheme_rest (cut t 32)) e
            ∙ rw (written_fields gap gap' scope signed_headers signature)
                (unfold scheme_rest in rw (bytes_eq_refl aws_algorithm) refl);
        parsed =
            parsed_fields gap gap' (credential_of scope) signed_headers signature is_gap is_gap' hc
              hh hs;
        credential = credential_of scope;
        credential_field = unfold field bytes_eq in refl;
        headers_field = unfold field bytes_eq in refl;
        signature_field = unfold field bytes_eq in refl;
        scoped = credential_scope_lem scope hk hd hr hv;
      }

  -- An Authorization header that is written out is read back, and its request accepted: the header has
  -- the algorithm, the credential, the names of the signed headers and the signature, with a space behind
  -- each comma or without. The signature must be the one that verifySigV4 computes with the secret key
  -- over its own canonical form of the request, for this access key, within the allowed clock skew and
  -- with the host signed. The fields have no white space and no comma, the parts of the credential no
  -- slash; the request is not signed in its query as well, and its payload is of a supported kind.
  pub verify_sig_v4-authorization_of :
      (gap gap' : Bytes) (scope : Scope) (signed_headers signature : Bytes)
      → Gap gap
      → Gap gap'
      → Lacks b'/' scope.key_id
      → Lacks b'/' scope.date
      → Lacks b'/' scope.region
      → Lacks b'/' scope.service
      → IsToken (credential_of scope)
      → IsToken signed_headers
      → IsToken signature
      → header_value r.request.headers (codes "authorization")
        ≡ authorization_of gap gap' scope signed_headers signature
      → Plain sha256 hmac hex parse_time now access_key secret_key r
      → Signed sha256 hmac hex parse_time now access_key secret_key r scope signed_headers signature
      → verify_sig_v4 sha256 hmac hex parse_time now access_key secret_key r ≡ ok tt
  verify_sig_v4-authorization_of gap gap' scope signed_headers signature is_gap is_gap' hk hd hr hv
        hc hh hs e plain signed =
      verify_sig_v4-accepts sha256 hmac hex parse_time now access_key secret_key r scope
        signed_headers signature plain
        (authorization_of-Authorized gap gap' scope signed_headers signature is_gap is_gap' hk hd hr
          hv hc hh hs e)
        signed
