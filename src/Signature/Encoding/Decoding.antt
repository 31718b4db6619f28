-- ===== src/Signature/Encoding/Decoding.antt =====
-- Percent-decoding takes awsEncode back.
use overlay_s.Base.{
  All, Bool-cases, Bytes, [], ap, arith, false, if◌then◌else◌, inl, inr, leb, refl, true, ℕ, ◌%◌,
  ◌*◌, ◌+◌, ◌-◌, ◌/◌, ◌<◌, ◌==◌, ◌∷◌, ◌≡◌,
}
use overlay_s.Signature.Encoding.{aws_encode, hex_digit, is_unreserved}

pub hex_value : ℕ → ℕ
hex_value d = if leb b'A' d then d - b'A' + 10 else d - b'0'

hex_value-hex_digit : (d : ℕ) → d < 16 → hex_value (hex_digit d) ≡ d
unfolding hex_value hex_digit
hex_value-hex_digit d h = ground arith

-- Where percent-decoding stands: outside an escape, behind its '%', or behind its first digit.
pub data Escape : Type 0 where
  outside : Escape
  at_first : Escape
  at_second : ℕ → Escape

-- The text that a percent-encoded text stands for
unfoldable pub percent_decode : Escape → Bytes → Bytes
percent_decode e [] = []
percent_decode outside (c ∷ s) =
    let plain = percent_decode outside s in
    let escaped = percent_decode at_first s in if c == b'%' then escaped else c ∷ plain
percent_decode at_first (d ∷ s) = percent_decode (at_second (hex_value d)) s
percent_decode (at_second high) (d ∷ s) = (high * 16 + hex_value d) ∷ percent_decode outside s

plain_byte :
    (c : ℕ) (s : Bytes)
    → is_unreserved c ≡ true
    → percent_decode outside (c ∷ s) ≡ c ∷ percent_decode outside s
unfolding percent_decode is_unreserved
plain_byte c s h = ground arith

escaped_byte :
    (c : ℕ) (s : Bytes)
    → c < 256
    → percent_decode outside (b'%' ∷ hex_digit (c / 16) ∷ hex_digit (c % 16) ∷ s)
      ≡ c ∷ percent_decode outside s
unfolding percent_decode
escaped_byte c s h =
    rw (hex_value-hex_digit (c / 16) (omega arith), hex_value-hex_digit (c % 16) (omega arith))
      (ap (λ b. b ∷ percent_decode outside s) (omega arith))

-- The percent-encoding of a text of bytes stands for that text, so that no two texts share one.
pub percent_decode-aws_encode :
    (s : Bytes) → All (λ c. c < 256) s → percent_decode outside (aws_encode s) ≡ s
percent_decode-aws_encode [] h = unfold aws_encode percent_decode in refl
percent_decode-aws_encode (c ∷ s) (byte, h) = elim (Bool-cases (is_unreserved c)) [
  | inl plain ↦
      rw (encode_plain c s plain, plain_byte c (aws_encode s) plain)
        (ap (◌∷◌ c) (percent_decode-aws_encode s h))
  | inr reserved ↦
      rw (encode_reserved c s reserved, escaped_byte c (aws_encode s) byte)
        (ap (◌∷◌ c) (percent_decode-aws_encode s h))
]
  where
    encode_plain :
        (c : ℕ) (s : Bytes) → is_unreserved c ≡ true → aws_encode (c ∷ s) ≡ c ∷ aws_encode s
    encode_plain c s e = unfold aws_encode in rw e refl

    encode_reserved :
        (c : ℕ) (s : Bytes)
        → is_unreserved c ≡ false
        → aws_encode (c ∷ s) ≡ b'%' ∷ hex_digit (c / 16) ∷ hex_digit (c % 16) ∷ aws_encode s
    encode_reserved c s e = unfold aws_encode in rw e refl
