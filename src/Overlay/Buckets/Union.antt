-- ===== src/Overlay/Buckets/Union.antt =====
-- The list of buckets: every name of either store once, in strict order.
use mathlib.Core.Path.{subst}
use overlay_s.Base.{
  All, Bool-cases, Bytes, List, [], ap, arith, bytes_eq, bytes_eq_comm, bytes_eq_iff,
  bytes_eq_sound, bytes_le, false, inl, inr, refl, sym, true, ◌++◌, ◌||◌, ◌∙◌, ◌∷◌, ◌≡◌,
}
use overlay_s.Overlay.Buckets.{
  contains, insert_sorted, set_key, set_keys, sort_strings, union_buckets,
}
use overlay_s.Overlay.Entries.Order.{Below, Below-All, Below-of_le_ne, PrefixesAscend}

module _ (k : Bytes) where
  pub contains-append :
      (xs ys : List Bytes) → contains (xs ++ ys) k ≡ (contains xs k || contains ys k)
  unfolding contains
  contains-append [] ys = refl
  contains-append (x ∷ xs) ys = ground (arith, contains-append xs ys)

  contains-set_key :
      (set : List Bytes) (b : Bytes) → contains (set_key set b) k ≡ (contains set k || bytes_eq b k)
  unfolding set_key
  contains-set_key set b = elim (Bool-cases (contains set b)) [
    | inl old ↦ rw old (elim (Bool-cases (bytes_eq b k)) [
      | inl same ↦
          let has_k : contains set k ≡ true = rw (bytes_eq_sound b k same) at old in ground arith
      | inr other ↦ ground arith
    ])
    | inr new ↦ rw (new, contains-append) (unfold contains in ground arith)
  ]

  pub contains-set_keys :
      (names set : List Bytes)
      → contains (set_keys set names) k ≡ (contains set k || contains names k)
  unfolding set_keys contains
  contains-set_keys [] set = ground arith
  contains-set_keys (b ∷ names) set =
      ground (arith, contains-set_keys names (set_key set b), contains-set_key set b)

  contains-insert_sorted :
      (b : Bytes) (xs : List Bytes)
      → contains (insert_sorted b xs) k ≡ (bytes_eq b k || contains xs k)
  unfolding insert_sorted contains
  contains-insert_sorted b [] = ground arith
  contains-insert_sorted b (x ∷ xs) = ground (arith, contains-insert_sorted b xs)

  pub contains-sort_strings : (xs : List Bytes) → contains (sort_strings xs) k ≡ contains xs k
  unfolding sort_strings contains
  contains-sort_strings [] = refl
  contains-sort_strings (b ∷ xs) =
      ground (arith, contains-insert_sorted b (sort_strings xs), contains-sort_strings xs)

abbrev pub Distinct : List Bytes → Type 0
Distinct [] = Unit
Distinct (x ∷ xs) = (contains xs x ≡ false) × Distinct xs

Distinct-append :
    (xs : List Bytes) (b : Bytes) → Distinct xs → contains xs b ≡ false → Distinct (xs ++ b ∷ [])
unfolding contains
Distinct-append [] b d h = (refl, tt)
Distinct-append (x ∷ xs) b (fresh, d) h = (
  ground (arith, contains-append x xs (b ∷ []), bytes_eq_comm x b),
  Distinct-append xs b d (ground arith),
)

Distinct-set_key : (set : List Bytes) (b : Bytes) → Distinct set → Distinct (set_key set b)
unfolding set_key
Distinct-set_key set b d = elim (Bool-cases (contains set b)) [
  | inl old ↦ rw old d
  | inr new ↦ rw new (Distinct-append set b d new)
]

pub Distinct-set_keys : (names set : List Bytes) → Distinct set → Distinct (set_keys set names)
unfolding set_keys
Distinct-set_keys [] set d = d
Distinct-set_keys (b ∷ names) set d =
    Distinct-set_keys names (set_key set b) (Distinct-set_key set b d)

insert-All :
    (x b : Bytes) (xs : List Bytes)
    → Below x b
    → All (λ p. Below x p) xs
    → All (λ p. Below x p) (insert_sorted b xs)
unfolding insert_sorted
insert-All x b [] h k = (h, tt)
insert-All x b (y ∷ xs) h (ky, k) = ground (arith, insert-All x b xs h k)

insert_before :
    (b x : Bytes) (xs : List Bytes) → bytes_le b x ≡ true → insert_sorted b (x ∷ xs) ≡ b ∷ x ∷ xs
unfolding insert_sorted
insert_before b x xs le = rw le

insert_behind :
    (b x : Bytes) (xs : List Bytes)
    → bytes_le b x ≡ false
    → insert_sorted b (x ∷ xs) ≡ x ∷ insert_sorted b xs
unfolding insert_sorted
insert_behind b x xs gt = rw gt

insert-Ascend :
    (b : Bytes) (xs : List Bytes)
    → contains xs b ≡ false
    → PrefixesAscend xs
    → PrefixesAscend (insert_sorted b xs)
insert-Ascend b [] fresh a = unfold insert_sorted in (tt, tt)
insert-Ascend b (x ∷ xs) fresh (ax, a) = elim (Bool-cases (bytes_le b x)) [
  | inl le ↦
      let lt =
        Below-of_le_ne b x le
          (λ e. unfold contains in ground (arith, (bytes_eq_iff x b).1 (sym e))) in
      subst PrefixesAscend (sym (insert_before b x xs le)) ((lt, Below-All b x xs lt ax), (ax, a))
  | inr gt ↦
      subst PrefixesAscend (sym (insert_behind b x xs gt))
        (insert-All x b xs gt ax, insert-Ascend b xs (unfold contains in ground arith) a)
]

pub sort-Ascend : (xs : List Bytes) → Distinct xs → PrefixesAscend (sort_strings xs)
unfolding sort_strings
sort-Ascend [] d = tt
sort-Ascend (b ∷ xs) (fresh, d) =
    insert-Ascend b (sort_strings xs) (contains-sort_strings b xs ∙ fresh) (sort-Ascend xs d)

-- The names are in strict order, so none stands twice.
pub union_buckets-Ascend : (ov bs : List Bytes) → PrefixesAscend (union_buckets ov bs)
unfolding union_buckets
union_buckets-Ascend ov bs =
    sort-Ascend _ (Distinct-set_keys bs (set_keys [] ov) (Distinct-set_keys ov [] tt))

-- A name is listed exactly where one of the stores lists it.
pub contains-union_buckets :
    (k : Bytes) (ov bs : List Bytes)
    → contains (union_buckets ov bs) k ≡ (contains ov k || contains bs k)
unfolding union_buckets
contains-union_buckets k ov bs =
    contains-sort_strings k (set_keys (set_keys [] ov) bs)
    ∙ contains-set_keys k bs (set_keys [] ov)
    ∙ ap (λ b. b || contains bs k) (contains-set_keys k ov [] ∙ unfold contains in refl)
