-- ===== src/Overlay/Buckets/Sorted.antt =====
-- Lists of names in order: what determines one, and its least name.
use mathlib.Core.Path.{ap₂, subst}
use overlay_s.Base.{
  All, Bool-cases, Bytes, List, [], arith, bytes_eq, bytes_eq_refl, bytes_eq_sound, bytes_le,
  bytes_le_antisymm, bytes_le_refl, bytes_le_total, bytes_le_trans, false, inl, inr, refl, sym,
  true, ◌||◌, ◌∙◌, ◌∷◌, ◌≡◌,
}
use overlay_s.Overlay.Buckets.{contains, first_of, insert_sorted, sort_strings}
use overlay_s.Overlay.Buckets.Union.{contains-sort_strings}
use overlay_s.Overlay.Entries.Order.{Below, PrefixesAscend}

All-contains :
    (P : Bytes → Type 0) (xs : List Bytes) (z : Bytes) → All P xs → contains xs z ≡ true → P z
unfolding contains
All-contains P [] z h c = absurd (ground arith)
All-contains P (x ∷ xs) z (px, h) c = elim (Bool-cases (bytes_eq x z)) [
  | inl same ↦ subst P (bytes_eq_sound x z same) px
  | inr other ↦ All-contains P xs z h (ground arith)
]

contains_head : (x : Bytes) (xs : List Bytes) → contains (x ∷ xs) x ≡ true
unfolding contains
contains_head x xs = rw (bytes_eq_refl x) refl

Below-irrefl : (x : Bytes) → Below x x → ⊥
Below-irrefl x h = ground (arith, bytes_le_refl x)

-- The head of a list in strict order stands at or before each of its names.
head_first :
    (x : Bytes) (xs : List Bytes) (z : Bytes)
    → PrefixesAscend (x ∷ xs)
    → contains (x ∷ xs) z ≡ true
    → bytes_le x z ≡ true
unfolding contains
head_first x xs z (above, a) c = elim (Bool-cases (bytes_eq x z)) [
  | inl same ↦ subst (λ z. bytes_le x z ≡ true) (bytes_eq_sound x z same) (bytes_le_refl x)
  | inr other ↦ bytes_le_total z x (All-contains (λ p. Below x p) xs z above (ground arith))
]

-- A list in strict order has no name below its head or twice.
fresh_head : (x : Bytes) (xs : List Bytes) → All (λ p. Below x p) xs → contains xs x ≡ false
fresh_head x xs above = elim (Bool-cases (contains xs x)) [
  | inl again ↦ absurd (Below-irrefl x (All-contains (λ p. Below x p) xs x above again))
  | inr fresh ↦ fresh
]

contains_behind :
    (x : Bytes) (xs : List Bytes) (z : Bytes)
    → bytes_eq x z ≡ false
    → contains (x ∷ xs) z ≡ contains xs z
unfolding contains
contains_behind x xs z other = rw other refl

same_tails :
    (x y : Bytes)
    → x ≡ y
    → (xs ys : List Bytes) → All (λ p. Below x p) xs
    → All (λ p. Below y p) ys
    → ((z : Bytes) → contains (x ∷ xs) z ≡ contains (y ∷ ys) z)
    → (z : Bytes) → contains xs z ≡ contains ys z
same_tails x y same xs ys ax by h z = elim (Bool-cases (bytes_eq x z)) [
  | inl here ↦
      subst (λ z. contains xs z ≡ contains ys z) (bytes_eq_sound x z here)
        (fresh_head x xs ax
          ∙ sym (subst (λ t. contains ys t ≡ false) (sym same) (fresh_head y ys by)))
  | inr other ↦
      sym (contains_behind x xs z other)
      ∙ h z
      ∙ contains_behind y ys z (subst (λ t. bytes_eq t z ≡ false) same other)
]

-- Two lists in strict order with the same names are the same.
pub Ascend_unique :
    (xs ys : List Bytes)
    → PrefixesAscend xs
    → PrefixesAscend ys
    → ((z : Bytes) → contains xs z ≡ contains ys z)
    → xs ≡ ys
Ascend_unique [] [] a b h = refl
Ascend_unique [] (y ∷ ys) a b h =
    absurd (true_false (sym (contains_head y ys) ∙ sym (h y) ∙ unfold contains in refl))
  where
    true_false : true ≡ false → ⊥
    true_false e = ground arith
Ascend_unique (x ∷ xs) [] a b h =
    absurd (true_false (sym (contains_head x xs) ∙ h x ∙ unfold contains in refl))
  where
    true_false : true ≡ false → ⊥
    true_false e = ground arith
Ascend_unique (x ∷ xs) (y ∷ ys) (ax, a) (by, b) h =
    let same : x ≡ y =
      bytes_le_antisymm x y (head_first x xs y (ax, a) (h y ∙ contains_head y ys))
        (head_first y ys x (by, b) (sym (h x) ∙ contains_head x xs)) in
    ap₂ ◌∷◌ same (Ascend_unique xs ys a b (same_tails x y same xs ys ax by h))

equal_le : (b z : Bytes) → bytes_eq b z ≡ true → bytes_le b z ≡ true
equal_le b z same = subst (λ z. bytes_le b z ≡ true) (bytes_eq_sound b z same) (bytes_le_refl b)

first-insert_sorted :
    (b : Bytes) (xs : List Bytes) (z : Bytes)
    → (bytes_eq b z || contains xs z) ≡ true
    → (contains xs z ≡ true → bytes_le (first_of xs) z ≡ true)
    → bytes_le (first_of (insert_sorted b xs)) z ≡ true
unfolding insert_sorted contains
first-insert_sorted b [] z c h = equal_le b z (ground arith)
first-insert_sorted b (x ∷ xs) z c h = elim (Bool-cases (bytes_le b x)) [
  | inl before ↦ rw before (elim (Bool-cases (bytes_eq b z)) [
    | inl same ↦ equal_le b z same
    | inr other ↦ bytes_le_trans b x z before (h (ground arith))
  ])
  | inr behind ↦ rw behind (elim (Bool-cases (bytes_eq b z)) [
    | inl same ↦
        subst (λ z. bytes_le x z ≡ true) (bytes_eq_sound b z same) (bytes_le_total b x behind)
    | inr other ↦ h (ground arith)
  ])
]

-- No name of a list is below the first one in order.
pub first-sort_strings :
    (xs : List Bytes) (z : Bytes)
    → contains xs z ≡ true
    → bytes_le (first_of (sort_strings xs)) z ≡ true
unfolding sort_strings contains
first-sort_strings [] z c = absurd (ground arith)
first-sort_strings (b ∷ xs) z c =
    first-insert_sorted b (sort_strings xs) z (ground (arith, contains-sort_strings z xs, c))
      (λ c. first-sort_strings xs z (sym (contains-sort_strings z xs) ∙ c))

contains-first_of :
    (xs : List Bytes) (z : Bytes) → contains xs z ≡ true → contains xs (first_of xs) ≡ true
contains-first_of [] z c = absurd (unfold contains in ground arith)
contains-first_of (x ∷ xs) z c = contains_head x xs

-- The first in order of two lists are the same where neither list has less than the other one's.
pub first_least :
    (xs ys : List Bytes) (x y : Bytes)
    → contains xs x ≡ true
    → contains ys y ≡ true
    → ((z : Bytes)
        → contains xs z ≡ true
        → (t : Bytes) × (contains ys t ≡ true) × (bytes_le t z ≡ true))
    → ((z : Bytes)
        → contains ys z ≡ true
        → (t : Bytes) × (contains xs t ≡ true) × (bytes_le t z ≡ true))
    → first_of (sort_strings xs) ≡ first_of (sort_strings ys)
first_least xs ys x y hx hy f g = bytes_le_antisymm _ _ (below ys xs y hy g) (below xs ys x hx f)
  where
    member :
        (xs : List Bytes) (x : Bytes)
        → contains xs x ≡ true
        → contains xs (first_of (sort_strings xs)) ≡ true
    member xs x h =
        sym (contains-sort_strings (first_of (sort_strings xs)) xs)
        ∙ contains-first_of (sort_strings xs) x (contains-sort_strings x xs ∙ h)

    below :
        (xs ys : List Bytes) (x : Bytes)
        → contains xs x ≡ true
        → ((z : Bytes)
            → contains xs z ≡ true
            → (t : Bytes) × (contains ys t ≡ true) × (bytes_le t z ≡ true))
        → bytes_le (first_of (sort_strings ys)) (first_of (sort_strings xs)) ≡ true
    below xs ys x h f =
        let (t, there, le) = f (first_of (sort_strings xs)) (member xs x h) in
        bytes_le_trans _ t _ (first-sort_strings ys t there) le
