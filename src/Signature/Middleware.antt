-- ===== src/Signature/Middleware.antt =====
-- sigv4.go, sigv4Middleware and hashVerifyingReader: what stands before the handlers.
use overlay_s.Base.{
  Bool, Bool-cases, Bytes, Option, [], ap, arith, bytes_eq, bytes_eq_sound, codes, false,
  if◌then◌else◌, inl, inr, is_nil, length, ltb_ℤ, none, pos, refl, some, sym, true, ℕ, ℤ, ◌==◌,
  ◌||◌, ◌∙◌, ◌∷◌, ◌≡◌, ◌≢◌,
}
use overlay_s.Base.Decimal.{parse_int}
use overlay_s.Base.Exec.{Error, Outcome, err, err_payload_hash_mismatch, no_return, ok}
use overlay_s.Signature.Verify.{SignedRequest, header_value, streaming_payload, unsigned_payload}
use overlay_s.Store.{Reader}

-- A body read to its end through hashVerifyingReader: the bytes, and the error in place of io.EOF
-- where their hash, in hexadecimal, is not the one expected
unfoldable pub verifying : (Bytes → Bytes) → Bytes → Reader → Reader
verifying hash expected body = record {
  content = body.content;
  failure = elim body.failure [
    | some e ↦ some e
    | none ↦ if bytes_eq (hash body.content) expected then none else some err_payload_hash_mismatch
  ];
}

-- What the middleware does with a request: it is refused with a status, a code and a message, or
-- handed on with this body, in aws-chunked framing beside the length of its data.
pub data Admission : Type 0 where
  refused : ℕ → Bytes → Bytes → Admission
  handed_on : Reader → Admission
  handed_on_chunked : Reader → ℤ → Admission

abbrev bad_length : Admission
bad_length =
    refused 400 (codes "InvalidRequest") (codes "missing or invalid x-amz-decoded-content-length")

-- x-amz-decoded-content-length
unfoldable pub chunked_length : Reader → Option ℤ → Admission
chunked_length body none = bad_length
chunked_length body (some n) = if ltb_ℤ n (pos 0) then bad_length else handed_on_chunked body n

-- The switch on x-amz-content-sha256
unfoldable pub admit_body : (Bytes → Bytes) → SignedRequest → Bytes → Admission
admit_body hash r payload_hash =
    if bytes_eq payload_hash streaming_payload
    then chunked_length r.request.body
        (parse_int 10 (header_value r.request.headers (codes "x-amz-decoded-content-length")))
    else if is_nil payload_hash || bytes_eq payload_hash unsigned_payload
    then handed_on r.request.body
    else if length payload_hash == 64
    then handed_on (verifying hash payload_hash r.request.body)
    else handed_on r.request.body

-- `describe` is err.Error().
unfoldable pub admit :
    (Bytes → Bytes) → (Error → Bytes) → SignedRequest → Outcome (Unit {0}) → Admission
admit hash describe r (ok u) =
    admit_body hash r (header_value r.request.headers (codes "x-amz-content-sha256"))
admit hash describe r (err e) = refused 403 (codes "SignatureDoesNotMatch") (describe e)
admit hash describe r no_return = refused 403 (codes "SignatureDoesNotMatch") []

no_mark : (p mark : Bytes) → length p ≡ 64 → length mark ≢ 64 → bytes_eq p mark ≡ false
no_mark p mark h ne = elim (Bool-cases (bytes_eq p mark)) [
  | inl same ↦ absurd (ne (ap length (sym (bytes_eq_sound p mark same)) ∙ h))
  | inr other ↦ other
]

not_empty : (p : Bytes) → length p ≡ 64 → is_nil p ≡ false
not_empty [] h = absurd (omega arith)
not_empty (c ∷ p) h = refl

verifying_lem :
    (hash : Bytes → Bytes) (p : Bytes) (body : Reader)
    → (verifying hash p body).failure ≡ none
    → hash (verifying hash p body).content ≡ p
unfolding verifying
verifying_lem hash p body h =
    bytes_eq_sound (hash body.content) p (passed body.failure (bytes_eq (hash body.content) p) h)
  where
    passed :
        (o : Option Error) (c : Bool)
        → elim o [ some e ↦ some e | none ↦ if c then none else some err_payload_hash_mismatch ]
          ≡ none
        → c ≡ true
    passed (some e) c h = absurd (ground arith)
    passed none true h = refl
    passed none false h = absurd (ground arith)

-- A request that is handed on with a hash of its payload gives a body whose bytes, where they come
-- to an end without an error, have that hash, where it has 64 digits.
pub admit-verifying :
    (hash : Bytes → Bytes) (describe : Error → Bytes) (r : SignedRequest) (payload_hash : Bytes)
    → header_value r.request.headers (codes "x-amz-content-sha256") ≡ payload_hash
    → length payload_hash ≡ 64
    → (body : Reader) × (admit hash describe r (ok tt) ≡ handed_on body)
      × (body.failure ≡ none → hash body.content ≡ payload_hash)
unfolding admit admit_body
admit-verifying hash describe r payload_hash h digits = (
  verifying hash payload_hash r.request.body,
  rw
      (
        h,
        no_mark payload_hash streaming_payload digits (omega arith),
        not_empty payload_hash digits,
        no_mark payload_hash unsigned_payload digits (omega arith),
        digits,
      )
      refl,
  verifying_lem hash payload_hash r.request.body,
)
