-- ===== src/Overlay/Entries/Order.antt =====
-- Listing entries in strict key order, and mergePageEntries against it.
use mathlib.Core.Path.{subst}
use overlay_s.Base.{
  All, Bool-cases, Bytes, List, [], arith, bytes_le, bytes_le_antisymm, bytes_le_total,
  bytes_le_trans, false, inl, inr, refl, sym, true, ◌∷◌, ◌≡◌, ◌≢◌,
}
use overlay_s.Overlay.Entries.{
  ListEntry, common_prefix, entry_key, merge_entries, object, objects_of, prefixes_of,
}
use overlay_s.Store.{ObjectMeta}

-- a < b
abbrev pub Below : Bytes → Bytes → Type 0
Below a b = bytes_le b a ≡ false

-- Every entry's key lies above `k`.
abbrev pub Above : Bytes → List ListEntry → Type 0
Above k = All (λ e. Below k (entry_key e))

abbrev pub Ascending : List ListEntry → Type 0
Ascending [] = Unit
Ascending (e ∷ es) = Above (entry_key e) es × Ascending es

-- Keys and prefixes of a backend's page, in strict order each, with no prefix that is a key.
abbrev pub ObjectsAscend : List ObjectMeta → Type 0
ObjectsAscend [] = Unit
ObjectsAscend (o ∷ os) = All (λ p. Below o.key p.key) os × ObjectsAscend os

abbrev pub PrefixesAscend : List Bytes → Type 0
PrefixesAscend [] = Unit
PrefixesAscend (p ∷ ps) = All (λ q. Below p q) ps × PrefixesAscend ps

abbrev pub Apart : List ObjectMeta → List Bytes → Type 0
Apart os ps = All (λ o. All (λ p. o.key ≢ p) ps) os

pub Below-of_le_ne : (a b : Bytes) → bytes_le a b ≡ true → a ≢ b → Below a b
Below-of_le_ne a b le ne = elim (Bool-cases (bytes_le b a)) [
  | inl ge ↦ absurd (ne (bytes_le_antisymm a b le ge))
  | inr below ↦ below
]

pub Below-trans : (a b c : Bytes) → Below a b → Below b c → Below a c
Below-trans a b c h k = elim (Bool-cases (bytes_le c a)) [
  | inl ca ↦ cc (k, bytes_le_trans c a b ca (bytes_le_total b a h))
  | inr below ↦ below
]

pub Above-trans : (a b : Bytes) (es : List ListEntry) → Below a b → Above b es → Above a es
Above-trans a b [] h k = tt
Above-trans a b (e ∷ es) h (ke, k) = (Below-trans a b (entry_key e) h ke, Above-trans a b es h k)

module _ (k : Bytes) where
  Above-merge :
      (os : List ObjectMeta) (ps : List Bytes)
      → All (λ o. Below k o.key) os
      → All (λ p. Below k p) ps
      → Above k (merge_entries os ps)
  unfolding merge_entries
  Above-merge [] [] ho hp = tt
  Above-merge [] (p ∷ ps) ho (kp, hp) = (kp, Above-merge [] ps ho hp)
  Above-merge (o ∷ os) [] (ko, ho) hp = (ko, Above-merge os [] ho hp)
  Above-merge (o ∷ os) (p ∷ ps) (ko, ho) (kp, hp) =
      ground (arith, Above-merge os (p ∷ ps), Above-merge (o ∷ os) ps)

pub Below-All :
    (a b : Bytes) (ps : List Bytes) → Below a b → All (λ p. Below b p) ps → All (λ p. Below a p) ps
Below-All a b [] h k = tt
Below-All a b (p ∷ ps) h (kp, k) = (Below-trans a b p h kp, Below-All a b ps h k)

Below-objects :
    (a b : Bytes) (os : List ObjectMeta)
    → Below a b
    → All (λ o. Below b o.key) os
    → All (λ o. Below a o.key) os
Below-objects a b [] h k = tt
Below-objects a b (o ∷ os) h (ko, k) = (Below-trans a b o.key h ko, Below-objects a b os h k)

Apart-tail : (p : Bytes) (os : List ObjectMeta) (ps : List Bytes) → Apart os (p ∷ ps) → Apart os ps
Apart-tail p [] ps h = tt
Apart-tail p (o ∷ os) ps ((ne, ho), h) = (ho, Apart-tail p os ps h)

module _ (o : ObjectMeta) (p : Bytes) (os : List ObjectMeta) (ps : List Bytes) where
  merge_object :
      bytes_le o.key p ≡ true
      → merge_entries (o ∷ os) (p ∷ ps) ≡ object o ∷ merge_entries os (p ∷ ps)
  unfolding merge_entries
  merge_object le = ground arith

  merge_prefix :
      bytes_le o.key p ≡ false
      → merge_entries (o ∷ os) (p ∷ ps) ≡ common_prefix p ∷ merge_entries (o ∷ os) ps
  unfolding merge_entries
  merge_prefix gt = ground arith

-- A page whose objects and whose prefixes are in strict key order, with no prefix that is a key,
-- becomes entries in strict key order.
pub merge_entries-Ascending :
    (os : List ObjectMeta) (ps : List Bytes)
    → ObjectsAscend os
    → PrefixesAscend ps
    → Apart os ps
    → Ascending (merge_entries os ps)
unfolding merge_entries
merge_entries-Ascending [] [] ho hp h = tt
merge_entries-Ascending [] (p ∷ ps) ho (kp, hp) h =
    (Above-merge p [] ps tt kp, merge_entries-Ascending [] ps ho hp h)
merge_entries-Ascending (o ∷ os) [] (ko, ho) hp (_, h) =
    (Above-merge o.key os [] ko tt, merge_entries-Ascending os [] ho hp h)
merge_entries-Ascending (o ∷ os) (p ∷ ps) (ko, ho) (kp, hp) ((ne, ha), h) =
    elim (Bool-cases (bytes_le o.key p)) [
      | inl le ↦
          let lt = Below-of_le_ne o.key p le ne in
          subst Ascending (sym (merge_object o p os ps le)) (
            Above-merge o.key os (p ∷ ps) ko (lt, Below-All o.key p ps lt kp),
            merge_entries-Ascending os (p ∷ ps) ho (kp, hp) h,
          )
      | inr gt ↦ subst Ascending (sym (merge_prefix o p os ps gt)) (
        Above-merge p (o ∷ os) ps (gt, Below-objects p o.key os gt ko) kp,
        merge_entries-Ascending (o ∷ os) ps (ko, ho) hp (ha, Apart-tail p os ps h),
      )
    ]

-- No object and no prefix of a page is lost, and each keeps its order.
pub merge_entries-parts :
    (os : List ObjectMeta) (ps : List Bytes)
    → (objects_of (merge_entries os ps) ≡ os) × (prefixes_of (merge_entries os ps) ≡ ps)
unfolding merge_entries objects_of prefixes_of
merge_entries-parts [] [] = (refl, refl)
merge_entries-parts [] (p ∷ ps) = ground (arith, merge_entries-parts [] ps)
merge_entries-parts (o ∷ os) [] = ground (arith, merge_entries-parts os [])
merge_entries-parts (o ∷ os) (p ∷ ps) =
    ground (arith, merge_entries-parts os (p ∷ ps), merge_entries-parts (o ∷ os) ps)
