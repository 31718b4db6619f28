-- ===== src/Signature/Fields.antt =====
-- sigv4.go, authFields: what is logged of the Authorization header of a request that is refused.
use overlay_s.Base.{
  All-append, Bytes, Lacks, Lacks-of_contains_byte, List, Option, [], append-nil, append_assoc,
  arith, bytes_eq, codes, contains_byte, cut, cut-append, has_prefix, has_prefix-append,
  if◌then◌else◌, none, refl, some, trim_prefix, trim_prefix-append, ◌&&◌, ◌++◌, ◌==◌, ◌∷◌, ◌≡◌, ◌≢◌,
}
use overlay_s.Signature.Verify.{aws_algorithm}

-- strings.Split(s, ", "), with the part so far
unfoldable pub split_pairs : Bytes → Bytes → List Bytes
split_pairs word [] = word ∷ []
split_pairs word (c ∷ []) = (word ++ c ∷ []) ∷ []
split_pairs word (c ∷ d ∷ s) =
    let ended = split_pairs [] s in
    let longer = split_pairs (word ++ c ∷ []) (d ∷ s) in
    if c == b',' && d == 32 then word ∷ ended else longer

-- The switch on the key of one field
unfoldable pub log_field : Option (Bytes × Bytes) → Bytes × Bytes → Bytes × Bytes
log_field none (cred, signed) = (cred, signed)
log_field (some (k, v)) (cred, signed) =
    if bytes_eq k (codes "Credential")
    then (v, signed)
    else if bytes_eq k (codes "SignedHeaders")
    then (cred, v)
    else (cred, signed)

-- The loop over the fields
unfoldable pub log_fields : List Bytes → Bytes × Bytes → Bytes × Bytes
log_fields [] logged = logged
log_fields (kv ∷ kvs) logged = log_fields kvs (log_field (cut kv b'=') logged)

unfoldable pub auth_fields : Bytes → Bytes × Bytes
auth_fields auth =
    if has_prefix auth (aws_algorithm ++ 32 ∷ [])
    then log_fields (split_pairs [] (trim_prefix auth (aws_algorithm ++ 32 ∷ []))) ([], [])
    else ([], [])

split_pairs_lem : (word s : Bytes) → Lacks 32 s → split_pairs word s ≡ (word ++ s) ∷ []
unfolding split_pairs
split_pairs_lem word [] h = rw (append-nil word) refl
split_pairs_lem word (c ∷ []) h = refl
split_pairs_lem word (c ∷ d ∷ s) (hc, h) =
    ground (arith, split_pairs_lem (word ++ c ∷ []) (d ∷ s) h, append_assoc word (c ∷ []) (d ∷ s))

-- The fields of a header that are separated by commas alone, as minio-go's streaming signer writes
-- them, are logged as one: where the credential stands first, all that follows it is logged with it,
-- the signature included. The fields have no space in them.
pub auth_fields-unspaced :
    (credential rest : Bytes)
    → Lacks 32 (credential ++ b',' ∷ rest)
    → auth_fields
        ((aws_algorithm ++ 32 ∷ []) ++ (codes "Credential=" ++ (credential ++ b',' ∷ rest)))
      ≡ (credential ++ b',' ∷ rest, [])
unfolding auth_fields
auth_fields-unspaced credential rest h =
    let body = credential ++ b',' ∷ rest in
    rw
      (
        has_prefix-append (aws_algorithm ++ 32 ∷ []) (codes "Credential=" ++ body),
        trim_prefix-append (aws_algorithm ++ 32 ∷ []) (codes "Credential=" ++ body),
        split_pairs_lem [] (codes "Credential=" ++ body) (
            All-append (λ x. x ≢ 32) (codes "Credential=") body
              (Lacks-of_contains_byte (codes "Credential=") 32 (unfold contains_byte in refl)) h),
      )
      (one_field body)
  where
    one_field :
        (body : Bytes) → log_fields ((codes "Credential=" ++ body) ∷ []) ([], []) ≡ (body, [])
    one_field body =
        unfold log_fields log_field bytes_eq in
        rw
          (cut-append (codes "Credential") body b'='
            (Lacks-of_contains_byte (codes "Credential") b'=' (unfold contains_byte in refl)))
          refl
