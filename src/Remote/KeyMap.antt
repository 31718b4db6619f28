-- ===== src/Remote/KeyMap.antt =====
-- remote.go, the mapping of client buckets and keys to keys of one physical bucket.
pub mod RoundTrip
pub mod Roots
use overlay_s.Base.{
  Bytes, List, Option, [], bytes_eq, drop, has_prefix, if◌then◌else◌, index_byte, is_nil, join,
  length, none, not, some, take, trim_right, trim_suffix, ℕ, ◌++◌, ◌+◌, ◌==◌, ◌||◌, ◌∷◌,
}

-- The fields of s3Store beside its client; an empty bucket is the baseline mode.
pub record Mapping : Type 0 where
  pub bucket : Bytes
  pub prefix : Bytes

-- newMappedStore
unfoldable pub new_mapping : Bytes → Bytes → Mapping
new_mapping bucket prefix = record { bucket = bucket; prefix = trim_right prefix b'/' }

-- the loop of joinKey
unfoldable pub keep_parts : List Bytes → List Bytes
keep_parts [] = []
keep_parts (p ∷ parts) = let rest = keep_parts parts in if is_nil p then rest else p ∷ rest

unfoldable pub join_key : List Bytes → Bytes
join_key parts = join (keep_parts parts) b'/'

unfoldable pub map_key : Mapping → Bytes → Bytes → Bytes × Bytes
map_key s bucket key =
    if is_nil s.bucket then (bucket, key) else (s.bucket, join_key (s.prefix ∷ bucket ∷ key ∷ []))

unfoldable pub list_prefix : Mapping → Bytes → Bytes
list_prefix s bucket =
    if is_nil s.bucket then [] else join_key (s.prefix ∷ bucket ∷ []) ++ b'/' ∷ []

unfoldable pub backend_prefix : Mapping → Bytes → Bytes → Bytes
backend_prefix s bucket client_prefix = list_prefix s bucket ++ client_prefix

-- unmapKey behind the mapping prefix
unfoldable pub split_rest : Bytes → Option ℕ → Option (Bytes × Bytes)
split_rest rest none = if is_nil rest then none else some (rest, [])
split_rest rest (some i) =
    if i == 0 || i + 1 == length rest then none else some (take i rest, drop (i + 1) rest)

-- The result `ok = false` is `none`.
unfoldable pub unmap_key : Mapping → Bytes → Option (Bytes × Bytes)
unmap_key s key =
    if is_nil s.bucket
    then some ([], key)
    else if is_nil s.prefix
    then split_rest key (index_byte key b'/')
    else if has_prefix key (s.prefix ++ b'/' ∷ [])
    then (let rest = drop (length s.prefix + 1) key in split_rest rest (index_byte rest b'/'))
    else none

-- if !ok || cb != bucket || obj == ""
unfoldable pub object_of : Bytes → Option (Bytes × Bytes) → Option Bytes
object_of bucket none = none
object_of bucket (some (cb, obj)) =
    if not (bytes_eq cb bucket) || is_nil obj then none else some obj

unfoldable pub unmap : Mapping → Bytes → Bytes → Option Bytes
unmap s bucket key =
    if is_nil s.bucket
    then (if is_nil key then none else some key)
    else object_of bucket (unmap_key s key)

unfoldable pub bucket_of : Option (Bytes × Bytes) → Option Bytes
bucket_of none = none
bucket_of (some (bucket, obj)) = some bucket

unfoldable pub unmap_prefix_root : Mapping → Bytes → Option Bytes
unmap_prefix_root s prefix = bucket_of (unmap_key s (trim_suffix prefix b'/'))
