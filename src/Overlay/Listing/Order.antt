-- ===== src/Overlay/Listing/Order.antt =====
-- The merged listing as a view of both stores: strict key order, and which entry a key has.
use mathlib.Core.Path.{subst}
use overlay_s.Base.{
  Bool-cases, Bytes, List, Option, [], ap, arith, bytes_eq, bytes_eq_iff, bytes_eq_sound, bytes_le,
  bytes_le_refl, if◌then◌else◌, inl, inr, length, none, refl, some, sym, ◌+◌, ◌∷◌, ◌≡◌, ◌≤◌,
}
use overlay_s.Overlay.Entries.{ListEntry, entry_key}
use overlay_s.Overlay.Entries.Order.{Above, Above-trans, Ascending, Below-of_le_ne}
use overlay_s.Overlay.Listing.Merged.{merge_baseline, merge_overlay, merge_tie, overlay_merge}

-- The first entry with the key.
unfoldable pub find_key : Bytes → List ListEntry → Option ListEntry
find_key k [] = none
find_key k (e ∷ es) = if bytes_eq (entry_key e) k then some e else find_key k es

-- The overlay's entry, or else the baseline's.
abbrev pub or_else : Option ListEntry → Option ListEntry → Option ListEntry
or_else none b = b
or_else (some e) b = some e

Above-overlay_merge :
    (k : Bytes) (xs ys : List ListEntry) → Above k xs → Above k ys → Above k (overlay_merge xs ys)
unfolding overlay_merge
Above-overlay_merge k [] ys hx hy = hy
Above-overlay_merge k (x ∷ xs) [] hx hy = hx
Above-overlay_merge k (x ∷ xs) (y ∷ ys) (kx, hx) (ky, hy) = ground (
  arith,
  Above-overlay_merge k xs ys hx hy,
  Above-overlay_merge k xs (y ∷ ys),
  Above-overlay_merge k (x ∷ xs) ys,
)

find_key-Above : (k : Bytes) (es : List ListEntry) → Above k es → find_key k es ≡ none
unfolding find_key
find_key-Above k [] h = refl
find_key-Above k (e ∷ es) (ke, h) = ground (
  arith,
  find_key-Above k es h,
  bytes_eq_iff (entry_key e) k,
  bytes_le_refl k,
  ap (bytes_le (entry_key e)),
)

-- The merged listing of two listings in strict key order is in strict key order.
pub overlay_merge-Ascending :
    (xs ys : List ListEntry) → Ascending xs → Ascending ys → Ascending (overlay_merge xs ys)
overlay_merge-Ascending [] ys hx hy = unfold overlay_merge in hy
overlay_merge-Ascending (x ∷ xs) [] hx hy = unfold overlay_merge in hx
overlay_merge-Ascending (x ∷ xs) (y ∷ ys) (kx, hx) (ky, hy) =
    elim (Bool-cases (bytes_le (entry_key x) (entry_key y))) [
      | inl le ↦ elim (Bool-cases (bytes_eq (entry_key x) (entry_key y))) [
        | inl eq ↦ rw (merge_tie x y xs ys le eq) (
          Above-overlay_merge (entry_key x) xs ys kx (rw (bytes_eq_sound _ _ eq) ky),
          overlay_merge-Ascending xs ys hx hy,
        )
        | inr ne ↦
            let lt =
              Below-of_le_ne (entry_key x) (entry_key y) le
                (λ e. cc (ne, (bytes_eq_iff _ _).1 e)) in
            rw (merge_overlay x y xs ys le ne) (
              Above-overlay_merge (entry_key x) xs (y ∷ ys) kx (lt, Above-trans _ _ ys lt ky),
              overlay_merge-Ascending xs (y ∷ ys) hx (ky, hy),
            )
      ]
      | inr gt ↦ rw (merge_baseline x y xs ys gt) (
        Above-overlay_merge (entry_key y) (x ∷ xs) ys (gt, Above-trans _ _ xs gt kx) ky,
        overlay_merge-Ascending (x ∷ xs) ys (kx, hx) hy,
      )
    ]

or_else-none : (o : Option ListEntry) → or_else o none ≡ o
or_else-none none = refl
or_else-none (some e) = refl

module _ (k : Bytes) (x y : ListEntry) (xs ys : List ListEntry) where
  find_tie :
      entry_key x ≡ entry_key y
      → find_key k (overlay_merge xs ys) ≡ or_else (find_key k xs) (find_key k ys)
      → find_key k (x ∷ overlay_merge xs ys) ≡ or_else (find_key k (x ∷ xs)) (find_key k (y ∷ ys))
  unfolding find_key
  find_tie same ih = ground (arith, ap (λ a. bytes_eq a k) same)

  find_overlay :
      find_key k (overlay_merge xs (y ∷ ys)) ≡ or_else (find_key k xs) (find_key k (y ∷ ys))
      → find_key k (x ∷ overlay_merge xs (y ∷ ys))
        ≡ or_else (find_key k (x ∷ xs)) (find_key k (y ∷ ys))
  unfolding find_key
  find_overlay ih = ground arith

  find_baseline :
      (entry_key y ≡ k → find_key k (x ∷ xs) ≡ none)
      → find_key k (overlay_merge (x ∷ xs) ys) ≡ or_else (find_key k (x ∷ xs)) (find_key k ys)
      → find_key k (y ∷ overlay_merge (x ∷ xs) ys)
        ≡ or_else (find_key k (x ∷ xs)) (find_key k (y ∷ ys))
  unfolding find_key
  find_baseline absent ih = elim (Bool-cases (bytes_eq (entry_key y) k)) [
    | inl eq ↦ ground (arith, absent (bytes_eq_sound _ _ eq))
    | inr ne ↦ ground arith
  ]

-- A key has the overlay's entry where the overlay has one, and else the baseline's.
pub find_key-overlay_merge :
    (k : Bytes) (xs ys : List ListEntry)
    → Ascending xs
    → find_key k (overlay_merge xs ys) ≡ or_else (find_key k xs) (find_key k ys)
find_key-overlay_merge k [] ys hx = unfold overlay_merge find_key in refl
find_key-overlay_merge k (x ∷ xs) [] hx =
    unfold overlay_merge find_key in sym (or_else-none (find_key k (x ∷ xs)))
find_key-overlay_merge k (x ∷ xs) (y ∷ ys) (kx, hx) =
    elim (Bool-cases (bytes_le (entry_key x) (entry_key y))) [
      | inl le ↦ elim (Bool-cases (bytes_eq (entry_key x) (entry_key y))) [
        | inl eq ↦
            rw (merge_tie x y xs ys le eq)
              (find_tie k x y xs ys (bytes_eq_sound _ _ eq) (find_key-overlay_merge k xs ys hx))
        | inr ne ↦
            rw (merge_overlay x y xs ys le ne)
              (find_overlay k x y xs ys (find_key-overlay_merge k xs (y ∷ ys) hx))
      ]
      | inr gt ↦ rw (merge_baseline x y xs ys gt) (
          find_baseline k x y xs ys
            (λ e.
              find_key-Above k (x ∷ xs)
                (subst (λ a. Above a (x ∷ xs)) e (gt, Above-trans _ _ xs gt kx)))
            (find_key-overlay_merge k (x ∷ xs) ys (kx, hx)))
    ]

pub length-overlay_merge :
    (xs ys : List ListEntry) → length (overlay_merge xs ys) ≤ length xs + length ys
unfolding overlay_merge
length-overlay_merge [] ys = omega arith
length-overlay_merge (x ∷ xs) [] = omega arith
length-overlay_merge (x ∷ xs) (y ∷ ys) = ground (
  arith,
  length-overlay_merge xs ys,
  length-overlay_merge xs (y ∷ ys),
  length-overlay_merge (x ∷ xs) ys,
)
