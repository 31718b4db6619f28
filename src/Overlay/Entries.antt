-- ===== src/Overlay/Entries.antt =====
-- overlay.go, listEntry and mergePageEntries: one backend page as a list of entries by key.
pub mod Order
use overlay_s.Base.{Bytes, List, [], bytes_le, false, length, true, ℕ, ◌++◌, ◌+◌, ◌∷◌}
use overlay_s.Store.{ListPage, ObjectMeta}

-- An item of a listing: an object, or a common prefix.
pub data ListEntry : Type 0 where
  object : ObjectMeta → ListEntry
  common_prefix : Bytes → ListEntry

abbrev pub entry_key : ListEntry → Bytes
entry_key (object o) = o.key
entry_key (common_prefix p) = p

-- The loop over both lists: the object goes first where its key is not above the prefix.
unfoldable pub merge_entries : List ObjectMeta → List Bytes → List ListEntry
merge_entries [] [] = []
merge_entries [] (p ∷ ps) = common_prefix p ∷ merge_entries [] ps
merge_entries (o ∷ os) [] = object o ∷ merge_entries os []
merge_entries (o ∷ os) (p ∷ ps) = elim (bytes_le o.key p) [
  | true ↦ object o ∷ merge_entries os (p ∷ ps)
  | false ↦ common_prefix p ∷ merge_entries (o ∷ os) ps
]

unfoldable pub merge_page_entries : ListPage → List ListEntry
unfolding merge_entries
merge_page_entries page = merge_entries page.objects page.common_prefixes

-- `appendEntry` of ListPage
unfoldable pub append_entry : ListPage → ListEntry → ListPage
append_entry out (object o) = record out { objects = out.objects ++ o ∷ [] }
append_entry out (common_prefix p) = record out { common_prefixes = out.common_prefixes ++ p ∷ [] }

-- len(out.Objects) + len(out.CommonPrefixes)
abbrev pub entry_count : ListPage → ℕ
entry_count page = length page.objects + length page.common_prefixes

-- The objects and the common prefixes of a list of entries, in order.
unfoldable pub objects_of : List ListEntry → List ObjectMeta
objects_of [] = []
objects_of (object o ∷ es) = o ∷ objects_of es
objects_of (common_prefix p ∷ es) = objects_of es

unfoldable pub prefixes_of : List ListEntry → List Bytes
prefixes_of [] = []
prefixes_of (object o ∷ es) = prefixes_of es
prefixes_of (common_prefix p ∷ es) = p ∷ prefixes_of es
