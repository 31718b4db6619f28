-- ===== src/Base/Text.antt =====
-- The functions of Go's package strings that the program calls, on bytes, with one-byte separators
-- and cut sets.
use overlay_s.Base.Lists.{All, drop, length}
use overlay_s.Base.Strings.{Bytes}
use overlay_s.Base.Tests.{
  Bool, List, Option, [], ap, append-nil, append_assoc, arith, false, if◌then◌else◌, none, refl,
  some, suc, true, ℕ, ◌&&◌, ◌++◌, ◌==◌, ◌∷◌, ◌≡◌, ◌≢◌,
}

-- The double quote
abbrev pub quote : ℕ
quote = 34

-- strings.HasPrefix(s, p)
unfoldable pub has_prefix : Bytes → Bytes → Bool
has_prefix s [] = true
has_prefix [] (c ∷ p) = false
has_prefix (x ∷ s) (c ∷ p) = x == c && has_prefix s p

-- strings.TrimPrefix(s, p)
unfoldable pub trim_prefix : Bytes → Bytes → Bytes
unfolding has_prefix
trim_prefix s p = if has_prefix s p then drop (length p) s else s

-- strings.TrimSuffix(s, string(c)) for one byte c
unfoldable pub trim_suffix : Bytes → ℕ → Bytes
trim_suffix [] c = []
trim_suffix (x ∷ []) c = if x == c then [] else x ∷ []
trim_suffix (x ∷ y ∷ s) c = x ∷ trim_suffix (y ∷ s) c

-- strings.IndexByte(s, c), none for -1
unfoldable pub index_byte : Bytes → ℕ → Option ℕ
index_byte [] c = none
index_byte (x ∷ s) c =
    let later : Option ℕ = elim (index_byte s c) [ none ↦ none | some i ↦ some (suc i) ] in
    if x == c then some 0 else later

-- strings.Cut(s, string(c)) for one byte c, none where c is not found
unfoldable pub cut : Bytes → ℕ → Option (Bytes × Bytes)
cut [] c = none
cut (x ∷ s) c =
    let later : Option (Bytes × Bytes) = elim (cut s c) [
      | none ↦ none
      | some (a, b) ↦ some (x ∷ a, b)
    ] in
    if x == c then some ([], s) else later

-- strings.ContainsRune(s, c) for an ASCII byte c
unfoldable pub contains_byte : Bytes → ℕ → Bool
contains_byte [] c = false
contains_byte (x ∷ s) c = if x == c then true else contains_byte s c

-- strings.TrimLeft(s, string(c)) for one byte c
unfoldable pub trim_left : Bytes → ℕ → Bytes
trim_left [] c = []
trim_left (x ∷ s) c = let rest = trim_left s c in if x == c then rest else x ∷ s

-- strings.TrimRight(s, string(c)) for one byte c
unfoldable pub trim_right : Bytes → ℕ → Bytes
trim_right [] c = []
trim_right (x ∷ s) c = elim (trim_right s c) [
  | [] ↦ if x == c then [] else x ∷ []
  | y ∷ r ↦ x ∷ y ∷ r
]

-- strings.Trim(s, string(c)) for one byte c
unfoldable pub trim : Bytes → ℕ → Bytes
unfolding trim_left trim_right
trim s c = trim_right (trim_left s c) c

-- strings.Join(parts, string(c)) for one byte c
unfoldable pub join : List Bytes → ℕ → Bytes
join [] c = []
join (p ∷ []) c = p
join (p ∷ q ∷ ps) c = p ++ c ∷ join (q ∷ ps) c

-- strings.Split(s, string(c)) for one byte c, with the first part so far
unfoldable pub split_from : Bytes → Bytes → ℕ → List Bytes
split_from cur [] c = cur ∷ []
split_from cur (x ∷ s) c = elim (x == c) [
  | true ↦ cur ∷ split_from [] s c
  | false ↦ split_from (cur ++ x ∷ []) s c
]

unfoldable pub split : Bytes → ℕ → List Bytes
unfolding split_from
split s c = split_from [] s c

-- No byte of the text is `c`.
abbrev pub Lacks : ℕ → Bytes → Type 0
Lacks c = All (λ x. x ≢ c)

pub has_prefix-append : (p s : Bytes) → has_prefix (p ++ s) p ≡ true
unfolding has_prefix
has_prefix-append [] s = refl
has_prefix-append (c ∷ p) s = ground (arith, has_prefix-append p s)

pub has_prefix-append_cancel : (p s q : Bytes) → has_prefix (p ++ s) (p ++ q) ≡ has_prefix s q
unfolding has_prefix
has_prefix-append_cancel [] s q = refl
has_prefix-append_cancel (c ∷ p) s q = ground (arith, has_prefix-append_cancel p s q)

pub has_prefix_sound : (s p : Bytes) → has_prefix s p ≡ true → (r : Bytes) × (s ≡ p ++ r)
unfolding has_prefix
has_prefix_sound s [] h = (s, refl)
has_prefix_sound [] (c ∷ p) h = absurd (ground arith)
has_prefix_sound (x ∷ s) (c ∷ p) h =
    let (r, e) = has_prefix_sound s p (ground arith) in (r, ground arith)

pub trim_prefix-append : (p s : Bytes) → trim_prefix (p ++ s) p ≡ s
unfolding trim_prefix
trim_prefix-append p s = ground (arith, has_prefix-append p s, drop_prefix p s)
  where
    drop_prefix : (p s : Bytes) → drop (length p) (p ++ s) ≡ s
    drop_prefix [] s = refl
    drop_prefix (x ∷ p) s = drop_prefix p s

pub trim_suffix-append : (s : Bytes) (c : ℕ) → trim_suffix (s ++ c ∷ []) c ≡ s
unfolding trim_suffix
trim_suffix-append [] c = ground arith
trim_suffix-append (x ∷ []) c = ground arith
trim_suffix-append (x ∷ y ∷ s) c = ap (◌∷◌ x) (trim_suffix-append (y ∷ s) c)

pub index_byte-append :
    (xs ys : Bytes) (c : ℕ) → Lacks c xs → index_byte (xs ++ c ∷ ys) c ≡ some (length xs)
unfolding index_byte
index_byte-append [] ys c h = ground arith
index_byte-append (x ∷ xs) ys c (ne, h) = ground (arith, index_byte-append xs ys c h)

pub index_byte-none : (xs : Bytes) (c : ℕ) → Lacks c xs → index_byte xs c ≡ none
unfolding index_byte
index_byte-none [] c h = refl
index_byte-none (x ∷ xs) c (ne, h) = ground (arith, index_byte-none xs c h)

pub cut-append : (xs ys : Bytes) (c : ℕ) → Lacks c xs → cut (xs ++ c ∷ ys) c ≡ some (xs, ys)
unfolding cut
cut-append [] ys c h = ground arith
cut-append (x ∷ xs) ys c (ne, h) = ground (arith, cut-append xs ys c h)

pub contains_byte-Lacks : (xs : Bytes) (c : ℕ) → Lacks c xs → contains_byte xs c ≡ false
unfolding contains_byte
contains_byte-Lacks [] c h = refl
contains_byte-Lacks (x ∷ xs) c (ne, h) = ground (arith, contains_byte-Lacks xs c h)

pub Lacks-of_contains_byte : (xs : Bytes) (c : ℕ) → contains_byte xs c ≡ false → Lacks c xs
unfolding contains_byte
Lacks-of_contains_byte [] c h = tt
Lacks-of_contains_byte (x ∷ xs) c h =
    ((λ e. ground arith), Lacks-of_contains_byte xs c (ground arith))

pub split_from-end : (cur s : Bytes) (c : ℕ) → Lacks c s → split_from cur s c ≡ (cur ++ s) ∷ []
unfolding split_from
split_from-end cur [] c h = rw (append-nil cur) refl
split_from-end cur (x ∷ s) c (ne, h) =
    ground (arith, split_from-end (cur ++ x ∷ []) s c h, append_assoc cur (x ∷ []) s)

pub split_from-next :
    (cur a s : Bytes) (c : ℕ)
    → Lacks c a
    → split_from cur (a ++ c ∷ s) c ≡ (cur ++ a) ∷ split_from [] s c
unfolding split_from
split_from-next cur [] s c h = rw (append-nil cur) (ground arith)
split_from-next cur (x ∷ a) s c (ne, h) =
    ground (arith, split_from-next (cur ++ x ∷ []) a s c h, append_assoc cur (x ∷ []) a)

trim_right-append : (s : Bytes) (c : ℕ) → Lacks c s → trim_right (s ++ c ∷ []) c ≡ s
unfolding trim_right
trim_right-append [] c h = ground arith
trim_right-append (x ∷ []) c (ne, h) = ground arith
trim_right-append (x ∷ y ∷ s) c (ne, h) = rw (trim_right-append (y ∷ s) c h) refl

trim_left-other : (x : ℕ) (s : Bytes) (c : ℕ) → x ≢ c → trim_left (c ∷ x ∷ s) c ≡ x ∷ s
unfolding trim_left
trim_left-other x s c ne = ground arith

pub trim-quoted : (s : Bytes) (c : ℕ) → Lacks c s → trim (c ∷ s ++ c ∷ []) c ≡ s
unfolding trim
trim-quoted [] c h = unfold trim_left trim_right in ground arith
trim-quoted (x ∷ s) c (ne, h) =
    rw (trim_left-other x (s ++ c ∷ []) c ne) (trim_right-append (x ∷ s) c (ne, h))
