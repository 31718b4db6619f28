-- ===== src/Tests/Keys.antt =====
-- Key mapping and byte ranges at concrete texts.
use mathlib.Core.List.{cons-ne-nil}
use overlay_s.Base.{
  Lacks-of_contains_byte, [], arith, bytes_eq, codes, contains_byte, if◌then◌else◌, none, pos, refl,
  some, ◌≡◌, ◌≢◌,
}
use overlay_s.Range.{header, parse_byte_range}
use overlay_s.Range.Bounds.{Inside, parse_byte_range-Inside, served}
use overlay_s.Range.Forms.{parse_byte_range-header}
use overlay_s.Remote.KeyMap.{Mapping, map_key, unmap}
use overlay_s.Remote.KeyMap.RoundTrip.{IsBucket, map_key_injective, unmap-map_key}

abbrev mapping : Mapping
mapping = record { bucket = codes "physical"; prefix = codes "root" }

mapped : mapping.bucket ≢ []
mapped = cons-ne-nil _ _

media-IsBucket : IsBucket (codes "media")
unfolding contains_byte
media-IsBucket = (cons-ne-nil _ _, Lacks-of_contains_byte (codes "media") b'/' refl)

unmap-map_key_example :
    unmap mapping (codes "media") (map_key mapping (codes "media") (codes "a/b")).1
    ≡ (if bytes_eq (codes "media") (codes "media") then some (codes "a/b") else none)
unmap-map_key_example =
    unmap-map_key mapping mapped (codes "media") (codes "media") (codes "a/b") media-IsBucket
      (cons-ne-nil _ _)

map_key_injective_example : (codes "media" ≡ codes "media") × (codes "a" ≡ codes "a")
map_key_injective_example =
    map_key_injective mapping mapped (codes "media") (codes "media") (codes "a") (codes "a")
      media-IsBucket media-IsBucket (cons-ne-nil _ _) (cons-ne-nil _ _) refl

parse_byte_range-Inside_example :
    Inside 10 (omega arith) (parse_byte_range (codes "bytes=2-40") (pos 10))
parse_byte_range-Inside_example = parse_byte_range-Inside 10 (omega arith) (codes "bytes=2-40")

parse_byte_range-header_example :
    parse_byte_range (header (record { start = pos 2; length = pos 3 })) (pos 10) ≡ served 2 3
parse_byte_range-header_example =
    parse_byte_range-header 10 (omega arith) 2 3 (omega arith) (omega arith)
