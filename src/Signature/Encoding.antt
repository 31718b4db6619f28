-- ===== src/Signature/Encoding.antt =====
-- sigv4.go, awsEncode and canonicalURI: percent-encoding in the canonical request.
pub mod Decoding
use overlay_s.Base.{
  Bool, Bytes, List, [], codes, if◌then◌else◌, is_nil, join, leb, ltb, split, ℕ, ◌%◌, ◌&&◌, ◌+◌,
  ◌-◌, ◌/◌, ◌==◌, ◌||◌, ◌∷◌,
}

-- "0123456789ABCDEF"[d]
unfoldable pub hex_digit : ℕ → ℕ
hex_digit d = if ltb d 10 then b'0' + d else b'A' + (d - 10)

unfoldable pub is_unreserved : ℕ → Bool
is_unreserved c =
    (leb b'A' c && leb c b'Z')
    || (leb b'a' c && leb c b'z')
    || (leb b'0' c && leb c b'9')
    || c == b'-'
    || c == b'_'
    || c == b'.'
    || c == b'~'

unfoldable pub aws_encode : Bytes → Bytes
aws_encode [] = []
aws_encode (c ∷ s) =
    let rest = aws_encode s in
    if is_unreserved c then c ∷ rest else b'%' ∷ hex_digit (c / 16) ∷ hex_digit (c % 16) ∷ rest

-- The loop over the segments
unfoldable pub encode_segments : List Bytes → List Bytes
encode_segments [] = []
encode_segments (s ∷ ss) = aws_encode s ∷ encode_segments ss

unfoldable pub canonical_uri : Bytes → Bytes
canonical_uri path =
    if is_nil path then codes "/" else join (encode_segments (split path b'/')) b'/'
