-- ===== src/Overlay/Listing/Merged.antt =====
-- The merge of two whole listings, which the loop of ListPage computes a page at a time.
use overlay_s.Base.{List, [], arith, bytes_eq, bytes_le, false, refl, true, ◌∷◌, ◌≡◌}
use overlay_s.Overlay.Entries.{ListEntry, append_entry, entry_key}
use overlay_s.Store.{ListPage}

-- Both listings in key order; where both have a key, the overlay's entry stands alone.
unfoldable pub overlay_merge : List ListEntry → List ListEntry → List ListEntry
overlay_merge [] ys = ys
overlay_merge (x ∷ xs) [] = x ∷ xs
overlay_merge (x ∷ xs) (y ∷ ys) = elim (bytes_le (entry_key x) (entry_key y)) [
  | true ↦ elim (bytes_eq (entry_key x) (entry_key y)) [
    | true ↦ x ∷ overlay_merge xs ys
    | false ↦ x ∷ overlay_merge xs (y ∷ ys)
  ]
  | false ↦ y ∷ overlay_merge (x ∷ xs) ys
]

-- The page after `appendEntry` of each entry.
unfoldable pub append_entries : ListPage → List ListEntry → ListPage
append_entries out [] = out
append_entries out (e ∷ es) = append_entries (append_entry out e) es

pub merge-nil : (xs : List ListEntry) → overlay_merge xs [] ≡ xs
unfolding overlay_merge
merge-nil [] = refl
merge-nil (x ∷ xs) = refl

module _ (x y : ListEntry) (xs ys : List ListEntry) where
  pub merge_tie :
      bytes_le (entry_key x) (entry_key y) ≡ true
      → bytes_eq (entry_key x) (entry_key y) ≡ true
      → overlay_merge (x ∷ xs) (y ∷ ys) ≡ x ∷ overlay_merge xs ys
  unfolding overlay_merge
  merge_tie le eq = ground arith

  pub merge_overlay :
      bytes_le (entry_key x) (entry_key y) ≡ true
      → bytes_eq (entry_key x) (entry_key y) ≡ false
      → overlay_merge (x ∷ xs) (y ∷ ys) ≡ x ∷ overlay_merge xs (y ∷ ys)
  unfolding overlay_merge
  merge_overlay le ne = ground arith

  pub merge_baseline :
      bytes_le (entry_key x) (entry_key y) ≡ false
      → overlay_merge (x ∷ xs) (y ∷ ys) ≡ y ∷ overlay_merge (x ∷ xs) ys
  unfolding overlay_merge
  merge_baseline gt = ground arith
