-- ===== src/Signature/Verify.antt =====
-- sigv4.go, verifySigV4: what the checks read of a request's Authorization header.
-- Texts are ASCII where they are trimmed, put in lower case or cut at white space.
use overlay_s.Base.{
  Bool, Bytes, List, Option, [], bytes_eq, codes, cut, false, if◌then◌else◌, is_nil, leb, none,
  some, true, ℕ, ℤ, ◌&&◌, ◌++◌, ◌+◌, ◌==◌, ◌||◌, ◌∷◌,
}
use overlay_s.Base.Decimal.{format_int}
use overlay_s.Base.Exec.{Outcome, err, no_return, message_error, ok}
use overlay_s.Protocol.{Request}

-- What verifySigV4 reads of a request beside the fields that the router reads
pub record SignedRequest : Type 0 where
  pub request : Request
  pub host : Bytes
  pub content_length : ℤ

abbrev pub aws_algorithm : Bytes
aws_algorithm = codes "AWS4-HMAC-SHA256"

abbrev pub request_terminator : Bytes
request_terminator = codes "aws4_request"

abbrev pub unsigned_payload : Bytes
unsigned_payload = codes "UNSIGNED-PAYLOAD"

abbrev pub streaming_payload : Bytes
streaming_payload = codes "STREAMING-AWS4-HMAC-SHA256-PAYLOAD"

-- 15 * time.Minute, in nanoseconds
abbrev pub max_clock_skew : ℕ
max_clock_skew = 900_000_000_000

-- unicode.IsSpace, on ASCII
unfoldable pub is_space : ℕ → Bool
is_space c = c == 32 || (leb 9 c && leb c 13)

unfoldable pub trim_space_left : Bytes → Bytes
trim_space_left [] = []
trim_space_left (c ∷ s) = let rest = trim_space_left s in if is_space c then rest else c ∷ s

unfoldable pub trim_space_right : Bytes → Bytes
trim_space_right [] = []
trim_space_right (c ∷ s) =
    let rest = trim_space_right s in if is_nil rest && is_space c then [] else c ∷ rest

-- strings.TrimSpace
unfoldable pub trim_space : Bytes → Bytes
trim_space s = trim_space_right (trim_space_left s)

-- strings.ToLower
unfoldable pub to_lower : Bytes → Bytes
to_lower [] = []
to_lower (c ∷ s) = (if leb b'A' c && leb c b'Z' then c + 32 else c) ∷ to_lower s

-- strings.Fields and strings.Join(…, " "), with the word so far
unfoldable pub squeeze : Bytes → Bytes → Bytes
squeeze word [] = word
squeeze [] (c ∷ s) =
    let rest = squeeze [] s in let begun = squeeze (c ∷ []) s in if is_space c then rest else begun
squeeze (w ∷ word) (c ∷ s) =
    let rest = squeeze [] s in
    let longer = squeeze (w ∷ word ++ c ∷ []) s in
    if is_space c then (w ∷ word ++ (if is_nil rest then [] else 32 ∷ rest)) else longer

-- The header of a name in lower case; http.Header.Get is blind to case
unfoldable pub header_value : List (Bytes × Bytes) → Bytes → Bytes
header_value [] name = []
header_value ((j, v) ∷ hs) name = if bytes_eq (to_lower j) name then v else header_value hs name

unfoldable pub guard : Bool → Bytes → Outcome (Unit {0})
guard true message = ok tt
guard false message = err (message_error message)

unfoldable pub required : {A : Type 0} → Option A → Bytes → Outcome A
required (some a) message = ok a
required none message = err (message_error message)

unfoldable pub follow : {A B : Type 0} → Outcome A → (A → Outcome B) → Outcome B
follow (ok a) f = f a
follow (err e) f = err e
follow no_return f = no_return

-- algo, rest, ok := strings.Cut(auth, " ")
unfoldable pub scheme_rest : Option (Bytes × Bytes) → Option Bytes
scheme_rest none = none
scheme_rest (some (algo, rest)) = if bytes_eq algo aws_algorithm then some rest else none

-- fields[k] = v, so that a later field stands first
unfoldable pub add_field :
    Option (Bytes × Bytes) → Option (List (Bytes × Bytes)) → Option (List (Bytes × Bytes))
add_field none fields = none
add_field (some (k, v)) none = none
add_field (some (k, v)) (some fields) = some ((k, v) ∷ fields)

unfoldable pub parse_fields :
    List Bytes → Option (List (Bytes × Bytes)) → Option (List (Bytes × Bytes))
parse_fields [] fields = fields
parse_fields (kv ∷ kvs) fields = parse_fields kvs (add_field (cut (trim_space kv) b'=') fields)

unfoldable pub field : Bytes → List (Bytes × Bytes) → Option Bytes
field k [] = none
field k ((j, v) ∷ fields) = if bytes_eq j k then some v else field k fields

pub record Scope : Type 0 where
  pub key_id : Bytes
  pub date : Bytes
  pub region : Bytes
  pub service : Bytes

-- len(credParts) != 5 || credParts[4] != requestTerminator
unfoldable pub credential_scope : List Bytes → Option Scope
credential_scope (key_id ∷ date ∷ region ∷ service ∷ terminator ∷ []) =
    if bytes_eq terminator request_terminator
    then some (record { key_id = key_id; date = date; region = region; service = service })
    else none
credential_scope _ = none

unfoldable pub header_names : List Bytes → List Bytes
header_names [] = []
header_names (h ∷ hs) = to_lower (trim_space h) ∷ header_names hs

-- The switch on a signed header's name
unfoldable pub signed_value : SignedRequest → Bytes → Bytes
signed_value r h =
    if bytes_eq h (codes "host")
    then r.host
    else if bytes_eq h (codes "content-length")
    then format_int r.content_length
    else header_value r.request.headers h

abbrev header_line : Bytes → Bytes → Outcome Bytes → Outcome Bytes
header_line h v (ok lines) = ok (h ++ b':' ∷ (squeeze [] v ++ 10 ∷ lines))
header_line h v (err e) = err e
header_line h v no_return = no_return

-- The loop over the signed headers
unfoldable pub canonical_headers : SignedRequest → List Bytes → Outcome Bytes
canonical_headers r [] = ok []
canonical_headers r (h ∷ hs) =
    let v = signed_value r h in
    let lines = canonical_headers r hs in
    if is_nil v
    then err (message_error (codes "missing signed header " ++ h))
    else header_line h v lines
