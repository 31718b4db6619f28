-- ===== src/Overlay/Buckets.antt =====
-- overlay.go, the union of bucket names in overlayStore.ListBuckets.
pub mod Union
pub mod Sorted
use overlay_s.Base.{
  Bool, Bytes, List, [], bytes_eq, bytes_le, false, if◌then◌else◌, true, ◌++◌, ◌∷◌,
}

unfoldable pub contains : List Bytes → Bytes → Bool
contains [] b = false
contains (x ∷ xs) b = if bytes_eq x b then true else contains xs b

-- set[b] = true; the keys of the map in the order of their first assignment
unfoldable pub set_key : List Bytes → Bytes → List Bytes
set_key set b = if contains set b then set else set ++ b ∷ []

-- for _, b := range names { set[b] = true }
unfoldable pub set_keys : List Bytes → List Bytes → List Bytes
set_keys set [] = set
set_keys set (b ∷ names) = set_keys (set_key set b) names

-- sort.Strings
unfoldable pub insert_sorted : Bytes → List Bytes → List Bytes
insert_sorted b [] = b ∷ []
insert_sorted b (x ∷ xs) = if bytes_le b x then b ∷ x ∷ xs else x ∷ insert_sorted b xs

unfoldable pub sort_strings : List Bytes → List Bytes
sort_strings [] = []
sort_strings (b ∷ names) = insert_sorted b (sort_strings names)

-- Go ranges over the map in any order; the sort makes the result the same for each.
unfoldable pub union_buckets : List Bytes → List Bytes → List Bytes
union_buckets overlay baseline = sort_strings (set_keys (set_keys [] overlay) baseline)

-- vs[0]; no list that the code takes it of is empty
abbrev pub first_of : List Bytes → Bytes
first_of [] = []
first_of (v ∷ vs) = v
