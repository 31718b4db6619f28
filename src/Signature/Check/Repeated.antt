-- ===== src/Signature/Check/Repeated.antt =====
-- What the canonical query string leaves unsigned.
use mathlib.Core.Path.{ap₂, subst}
use overlay_s.Base.{
  Bool-cases, Bytes, List, [], ap, arith, bytes_eq, bytes_eq_refl, bytes_eq_sound, bytes_le,
  bytes_le_refl, false, inl, inr, join, refl, sym, true, ◌++◌, ◌||◌, ◌∙◌, ◌∷◌, ◌≡◌,
}
use overlay_s.Overlay.Buckets.{contains, first_of, set_keys, sort_strings}
use overlay_s.Overlay.Buckets.Sorted.{Ascend_unique, first_least}
use overlay_s.Overlay.Buckets.Union.{
  Distinct-set_keys, contains-append, contains-set_keys, contains-sort_strings, sort-Ascend,
}
use overlay_s.Signature.Check.{canonical_query_string, keys_of, query_pairs, values_of}
use overlay_s.Signature.Encoding.{aws_encode}

keys_of-append : (a b : List (Bytes × Bytes)) → keys_of (a ++ b) ≡ keys_of a ++ keys_of b
unfolding keys_of
keys_of-append [] b = refl
keys_of-append ((k, v) ∷ a) b = ap (◌∷◌ k) (keys_of-append a b)

values_of-append :
    (a b : List (Bytes × Bytes)) (k : Bytes) → values_of (a ++ b) k ≡ values_of a k ++ values_of b k
unfolding values_of
values_of-append [] b k = refl
values_of-append ((j, v) ∷ a) b k = ground (arith, values_of-append a b k)

-- A key with a value is one of the keys.
contains-keys_of :
    (q : List (Bytes × Bytes)) (k u : Bytes)
    → contains (values_of q k) u ≡ true
    → contains (keys_of q) k ≡ true
unfolding keys_of values_of contains
contains-keys_of [] k u h = absurd (ground arith)
contains-keys_of ((j, v) ∷ q) k u h = ground (arith, contains-keys_of q k u)

module _ (a b : List (Bytes × Bytes)) (k u v : Bytes) (le : bytes_le u v ≡ true)
    (signed : contains (values_of (a ++ b) k) u ≡ true) where
  abbrev with_pair : List (Bytes × Bytes)
  with_pair = a ++ (k, v) ∷ b

  contains-with_pair : (z : Bytes) → contains (keys_of with_pair) z ≡ contains (keys_of (a ++ b)) z
  unfolding keys_of contains
  contains-with_pair z =
      rw
        (
          keys_of-append a ((k, v) ∷ b),
          keys_of-append a b,
          contains-append z (keys_of a) (k ∷ keys_of b),
          contains-append z (keys_of a) (keys_of b),
        )
        (elim (Bool-cases (bytes_eq k z)) [
          | inl same ↦
              let there =
                subst (λ z. contains (keys_of (a ++ b)) z ≡ true) (bytes_eq_sound k z same)
                  (contains-keys_of (a ++ b) k u signed) in
              ground (
                arith,
                ap (λ ks. contains ks z) (keys_of-append a b),
                contains-append z (keys_of a) (keys_of b),
                there,
              )
          | inr other ↦ ground (arith, other)
        ])

  same_keys :
      sort_strings (set_keys [] (keys_of with_pair)) ≡ sort_strings (set_keys [] (keys_of (a ++ b)))
  same_keys =
      Ascend_unique _ _ (sort-Ascend _ (Distinct-set_keys (keys_of with_pair) [] tt))
        (sort-Ascend _ (Distinct-set_keys (keys_of (a ++ b)) [] tt))
        (λ z.
          contains-sort_strings z _
          ∙ contains-set_keys z (keys_of with_pair) []
          ∙ ap (λ c. contains [] z || c) (contains-with_pair z)
          ∙ sym (contains-set_keys z (keys_of (a ++ b)) [])
          ∙ sym (contains-sort_strings z _))

  -- The values of another key, and those of this one
  other_values : (x : Bytes) → bytes_eq k x ≡ false → values_of with_pair x ≡ values_of (a ++ b) x
  unfolding values_of
  other_values x other = values_of-append a ((k, v) ∷ b) x ∙ rw other (sym (values_of-append a b x))

  this_value :
      (z : Bytes)
      → contains (values_of with_pair k) z ≡ (bytes_eq v z || contains (values_of (a ++ b) k) z)
  unfolding values_of contains
  this_value z =
      rw
        (
          values_of-append a ((k, v) ∷ b) k,
          values_of-append a b k,
          bytes_eq_refl k,
          contains-append z (values_of a k) (v ∷ values_of b k),
          contains-append z (values_of a k) (values_of b k),
        )
        (ground arith)

  still_there :
      (z : Bytes)
      → contains (values_of (a ++ b) k) z ≡ true
      → contains (values_of with_pair k) z ≡ true
  still_there z there = ground (arith, this_value z, there)

  -- The value that is left out is not below one that stays.
  covered :
      (z : Bytes)
      → contains (values_of with_pair k) z ≡ true
      → (t : Bytes) × (contains (values_of (a ++ b) k) t ≡ true) × (bytes_le t z ≡ true)
  covered z there = elim (Bool-cases (bytes_eq v z)) [
    | inl same ↦ (u, signed, subst (λ z. bytes_le u z ≡ true) (bytes_eq_sound v z same) le)
    | inr other ↦ (z, ground (arith, this_value z, there), bytes_le_refl z)
  ]

  same_first :
      (x : Bytes)
      → first_of (sort_strings (values_of with_pair x))
        ≡ first_of (sort_strings (values_of (a ++ b) x))
  same_first x = elim (Bool-cases (bytes_eq k x)) [
    | inl same ↦
        subst
          (λ x.
            first_of (sort_strings (values_of with_pair x))
            ≡ first_of (sort_strings (values_of (a ++ b) x)))
          (bytes_eq_sound k x same) least
    | inr other ↦ ap (λ vs. first_of (sort_strings vs)) (other_values x other)
  ]
    where
      least :
          first_of (sort_strings (values_of with_pair k))
          ≡ first_of (sort_strings (values_of (a ++ b) k))
      least =
          first_least _ _ u u (still_there u signed) signed covered
            (λ z there. (z, still_there z there, bytes_le_refl z))

  same_pairs : (ks : List Bytes) → query_pairs with_pair ks ≡ query_pairs (a ++ b) ks
  unfolding query_pairs
  same_pairs [] = refl
  same_pairs (x ∷ ks) =
      ap₂ ◌∷◌ (ap (λ s. aws_encode x ++ b'=' ∷ aws_encode s) (same_first x)) (same_pairs ks)

-- A value of a query key is not signed where the key has another one that is not greater: whatever else
-- the query holds, and wherever the pair stands in it, the canonical query string is the one of the
-- query without the pair.
pub canonical_query_string-repeated :
    (a b : List (Bytes × Bytes)) (k u v : Bytes)
    → bytes_le u v ≡ true
    → contains (values_of (a ++ b) k) u ≡ true
    → canonical_query_string (a ++ (k, v) ∷ b) ≡ canonical_query_string (a ++ b)
unfolding canonical_query_string
canonical_query_string-repeated a b k u v le signed =
    rw (same_keys a b k u v le signed) (ap (λ ps. join ps b'&') (same_pairs a b k u v le signed _))
