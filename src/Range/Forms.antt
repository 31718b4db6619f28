-- ===== src/Range/Forms.antt =====
-- The header of a byte range reads back as that range.
use overlay_s.Base.{
  All-append, Bytes, Lacks, [], add64-pos, arith, codes, contains_byte-Lacks, cut-append, false,
  has_prefix-append, is_nil, pos, refl, some, sub64-pos, trim_prefix-append, ℕ, ◌++◌, ◌+◌, ◌-◌, ◌<◌,
  ◌^◌, ◌∷◌, ◌≡◌, ◌≢◌, ◌≤◌,
}
use overlay_s.Base.Decimal.{
  format_uint, format_uint-Lacks, is_nil-format_uint, parse_int, parse_int-format_uint,
}
use overlay_s.Range.{closed_range, cut_range, header, parse_byte_range, start_range}
use overlay_s.Range.Bounds.{closed_range_lem, served, start_range_closed}

-- The digits of two numbers, joined by a dash
abbrev digits : ℕ → ℕ → Bytes
digits a b = format_uint a ++ b'-' ∷ format_uint b

digits-Lacks_comma : (a b : ℕ) → Lacks b',' (digits a b)
digits-Lacks_comma a b =
    All-append (λ x. x ≢ b',') (format_uint a) (b'-' ∷ format_uint b)
      (format_uint-Lacks b',' a (omega arith))
      ((omega arith), format_uint-Lacks b',' b (omega arith))

module _ (size : ℕ) (fits : size < 2 ^ 63) where
  pub header-digits :
      (first count : ℕ)
      → 0 < count
      → first + count ≤ size
      → header (record { start = pos first; length = pos count })
        ≡ codes "bytes=" ++ digits first (first + count - 1)
  unfolding header
  header-digits first count h k =
      rw
        (
          add64-pos first count (omega arith),
          sub64-pos (first + count) 1 (omega arith) (omega arith),
        )
        refl

  start_range_lem :
      (a : ℕ) (e : Bytes)
      → a < size
      → is_nil e ≡ false
      → start_range (some (pos a)) e (pos size) ≡ closed_range (pos a) (parse_int 10 e) (pos size)
  start_range_lem a [] h n = absurd (ground arith)
  start_range_lem a (c ∷ e) h n = start_range_closed size fits a c e h

  cut_range_lem :
      (s e : Bytes)
      → is_nil s ≡ false
      → cut_range (some (s, e)) (pos size) ≡ start_range (parse_int 10 s) e (pos size)
  unfolding cut_range
  cut_range_lem s e n = ground arith

  parse_digits :
      (a b : ℕ)
      → a ≤ b
      → b < size
      → parse_byte_range (codes "bytes=" ++ digits a b) (pos size)
        ≡ closed_range (pos a) (some (pos b)) (pos size)
  unfolding parse_byte_range
  parse_digits a b h k =
      rw
        (
          has_prefix-append (codes "bytes=") (digits a b),
          trim_prefix-append (codes "bytes=") (digits a b),
          contains_byte-Lacks (digits a b) b',' (digits-Lacks_comma a b),
          cut-append (format_uint a) (format_uint b) b'-' (format_uint-Lacks b'-' a (omega arith)),
          cut_range_lem (format_uint a) (format_uint b) (is_nil-format_uint a),
          parse_int-format_uint a (omega arith),
          start_range_lem a (format_uint b) (omega arith) (is_nil-format_uint b),
          parse_int-format_uint b (omega arith),
        )
        refl

  -- The header that a range renders to is parsed back as that range. The range has a byte at least
  -- and lies in the object, which has less than 2^63 bytes.
  pub parse_byte_range-header :
      (first count : ℕ)
      → 0 < count
      → first + count ≤ size
      → parse_byte_range (header (record { start = pos first; length = pos count })) (pos size)
        ≡ served first count
  parse_byte_range-header first count h k =
      rw
        (
          header-digits first count h k,
          parse_digits first (first + count - 1) (omega arith) (omega arith),
          closed_range_lem size fits first (first + count - 1) (omega arith),
        )
        (ground arith)
