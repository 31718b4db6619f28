-- ===== src/Range.antt =====
-- handlers.go, parseByteRange, and store.go, ByteRange.header: byte ranges of an object.
pub mod Bounds
pub mod Forms
use overlay_s.Base.{
  Bytes, Option, add64, codes, contains_byte, cut, eqb_ℤ, has_prefix, if◌then◌else◌, is_nil, leb_ℤ,
  length, ltb_ℤ, none, not, pos, some, sub64, trim_prefix, ℤ, ◌++◌, ◌∷◌,
}
use overlay_s.Base.Decimal.{format_int, parse_int}
use overlay_s.Store.{ByteRange}

-- A nil range with a nil error is `whole`; the error is `unsatisfiable`.
pub data RangeAnswer : Type 0 where
  whole : RangeAnswer
  part : ByteRange → RangeAnswer
  unsatisfiable : RangeAnswer

-- "bytes=-n", with n as ParseInt reads it
unfoldable pub suffix_range : Option ℤ → ℤ → RangeAnswer
suffix_range none size = whole
suffix_range (some n) size =
    if leb_ℤ n (pos 0)
    then unsatisfiable
    else (let n' = if leb_ℤ size n then size else n in
        if eqb_ℤ n' (pos 0)
        then unsatisfiable
        else part (record { start = sub64 size n'; length = n' }))

-- Length: end - start + 1
abbrev pub span : ℤ → ℤ → RangeAnswer
span start last = part (record { start = start; length = add64 (sub64 last start) (pos 1) })

-- The end as ParseInt reads it, in range
unfoldable pub closed_range : ℤ → Option ℤ → ℤ → RangeAnswer
closed_range start none size = whole
closed_range start (some last) size =
    if ltb_ℤ last start
    then unsatisfiable
    else span start (if leb_ℤ size last then sub64 size (pos 1) else last)

-- "bytes=start-" and "bytes=start-end", with the start as ParseInt reads it
unfoldable pub start_range : Option ℤ → Bytes → ℤ → RangeAnswer
start_range none end_str size = whole
start_range (some start) end_str size =
    if ltb_ℤ start (pos 0)
    then whole
    else if leb_ℤ size start
    then unsatisfiable
    else if is_nil end_str
    then span start (sub64 size (pos 1))
    else closed_range start (parse_int 10 end_str) size

-- What stands behind "bytes=", cut at its first dash
unfoldable pub cut_range : Option (Bytes × Bytes) → ℤ → RangeAnswer
cut_range none size = whole
cut_range (some (start_str, end_str)) size =
    if is_nil start_str
    then suffix_range (parse_int 10 end_str) size
    else start_range (parse_int 10 start_str) end_str size

unfoldable pub parse_byte_range : Bytes → ℤ → RangeAnswer
parse_byte_range h size =
    if not (has_prefix h (codes "bytes="))
    then whole
    else (let spec = trim_prefix h (codes "bytes=") in
        if contains_byte spec b',' then whole else cut_range (cut spec b'-') size)

-- ByteRange.header
unfoldable pub header : ByteRange → Bytes
header b =
    codes "bytes="
    ++ (format_int b.start ++ b'-' ∷ format_int (sub64 (add64 b.start b.length) (pos 1)))
