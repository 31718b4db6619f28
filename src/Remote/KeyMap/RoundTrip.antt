-- ===== src/Remote/KeyMap/RoundTrip.antt =====
-- A mapped key is read back as its client key, in its own bucket only, and keeps the key order.
use native.Mathlib.Numerals.{add-one}
use overlay_s.Base.{
  Bool-cases, Bytes, Lacks, Option, [], ap, append_assoc, arith, bytes_eq, bytes_le,
  bytes_le-append, drop, false, has_prefix, has_prefix-append_cancel, if◌then◌else◌, index_byte,
  index_byte-append, inl, inr, is_nil, join, length, length-append, none, refl, some, suc, sym,
  take-append_length, true, ◌++◌, ◌+◌, ◌==◌, ◌||◌, ◌∙◌, ◌∷◌, ◌≡◌, ◌≢◌,
}
use overlay_s.Remote.KeyMap.{
  Mapping, backend_prefix, join_key, keep_parts, list_prefix, map_key, object_of, split_rest, unmap,
  unmap_key,
}

-- A client bucket: a name, with no slash.
abbrev pub IsBucket : Bytes → Type 0
IsBucket b = (b ≢ []) × Lacks b'/' b

-- The mapping root before the bucket: empty, or the prefix and a slash.
abbrev pub root_of : Bytes → Bytes
root_of p = if is_nil p then [] else p ++ b'/' ∷ []

pub is_nil-false : (xs : Bytes) → xs ≢ [] → is_nil xs ≡ false
is_nil-false [] h = absurd (h refl)
is_nil-false (x ∷ xs) h = refl

join_key-root :
    (p b k : Bytes) → b ≢ [] → k ≢ [] → join_key (p ∷ b ∷ k ∷ []) ≡ root_of p ++ (b ++ b'/' ∷ k)
unfolding join_key keep_parts join
join_key-root p [] k hb hk = absurd (hb refl)
join_key-root p (x ∷ b) [] hb hk = absurd (hk refl)
join_key-root [] (x ∷ b) (y ∷ k) hb hk = refl
join_key-root (c ∷ p) (x ∷ b) (y ∷ k) hb hk = simp append_assoc

join_key-bucket :
    (p b : Bytes) → b ≢ [] → join_key (p ∷ b ∷ []) ++ b'/' ∷ [] ≡ root_of p ++ (b ++ b'/' ∷ [])
unfolding join_key keep_parts join
join_key-bucket p [] hb = absurd (hb refl)
join_key-bucket [] (x ∷ b) hb = refl
join_key-bucket (c ∷ p) (x ∷ b) hb = simp append_assoc

drop_root : (p rest : Bytes) → drop (length p + 1) (p ++ b'/' ∷ rest) ≡ rest
drop_root p rest = rw add-one (drop_suc p)
  where
    drop_suc : (p : Bytes) → drop (suc (length p)) (p ++ b'/' ∷ rest) ≡ rest
    drop_suc [] = refl
    drop_suc (c ∷ p) = drop_suc p

root_prefix : (p rest : Bytes) → has_prefix (p ++ b'/' ∷ rest) (p ++ b'/' ∷ []) ≡ true
root_prefix p rest =
    has_prefix-append_cancel p (b'/' ∷ rest) (b'/' ∷ []) ∙ unfold has_prefix in refl

split_test :
    (b k : Bytes)
    → b ≢ []
    → k ≢ []
    → (length b == 0 || length b + 1 == length (b ++ b'/' ∷ k)) ≡ false
split_test [] k hb hk = absurd (hb refl)
split_test (x ∷ b) [] hb hk = absurd (hk refl)
split_test (x ∷ b) (y ∷ k) hb hk = ground (arith, length-append b (b'/' ∷ y ∷ k))

split_at :
    (b k : Bytes) → b ≢ [] → k ≢ [] → split_rest (b ++ b'/' ∷ k) (some (length b)) ≡ some (b, k)
unfolding split_rest
split_at b k hb hk = rw (split_test b k hb hk, take-append_length, drop_root)

parts_of_some :
    (b b' k k' : Bytes)
    → ◌≡◌ {A = Option (Bytes × Bytes)} (some (b, k)) (some (b', k'))
    → (b ≡ b') × (k ≡ k')
parts_of_some b b' k k' e = ground arith

module _ (s : Mapping) (mapped : s.bucket ≢ []) where
  -- A key of the overlay bucket: the root, the bucket, a slash and the client key.
  pub map_key-root :
      (b k : Bytes)
      → b ≢ []
      → k ≢ []
      → map_key s b k ≡ (s.bucket, root_of s.prefix ++ (b ++ b'/' ∷ k))
  unfolding map_key
  map_key-root b k hb hk = rw (is_nil-false s.bucket mapped, join_key-root s.prefix b k hb hk)

  pub list_prefix-root :
      (b : Bytes) → b ≢ [] → list_prefix s b ≡ root_of s.prefix ++ (b ++ b'/' ∷ [])
  unfolding list_prefix
  list_prefix-root b hb = rw (is_nil-false s.bucket mapped) (join_key-bucket s.prefix b hb)

  -- Reading back behind the root.
  pub unmap_key-root :
      (rest : Bytes)
      → unmap_key s (root_of s.prefix ++ rest) ≡ split_rest rest (index_byte rest b'/')
  unfolding unmap_key
  unmap_key-root rest = elim (Bool-cases (is_nil s.prefix)) [
    | inl bare ↦ rw (is_nil-false s.bucket mapped, bare)
    | inr with_prefix ↦
        rw (is_nil-false s.bucket mapped, with_prefix, append_assoc, root_prefix, drop_root)
  ]

  unmap_key-map_key :
      (b k : Bytes) → IsBucket b → k ≢ [] → unmap_key s (map_key s b k).1 ≡ some (b, k)
  unmap_key-map_key b k hb hk =
      rw (map_key-root b k hb.0 hk) (
        unmap_key-root (b ++ b'/' ∷ k)
        ∙ rw (index_byte-append b k b'/' hb.1) (split_at b k hb.0 hk))

  pub unmap-object_of : (b key : Bytes) → unmap s b key ≡ object_of b (unmap_key s key)
  unfolding unmap
  unmap-object_of b key = rw (is_nil-false s.bucket mapped)

  -- Every object key of every client bucket is read back from its physical key in that bucket, and
  -- in no other bucket. The store is mapped, the bucket has a name without a slash, and the key is
  -- not empty.
  pub unmap-map_key :
      (b b' k : Bytes)
      → IsBucket b
      → k ≢ []
      → unmap s b' (map_key s b k).1 ≡ (if bytes_eq b b' then some k else none)
  unfolding object_of
  unmap-map_key b b' k hb hk =
      rw (unmap-object_of, unmap_key-map_key b k hb hk) (ground (arith, is_nil-false k hk))

  -- Two client keys share a physical key only where they are one key of one bucket. The store is
  -- mapped, the buckets have names without a slash, and the keys are not empty.
  pub map_key_injective :
      (b b' k k' : Bytes)
      → IsBucket b
      → IsBucket b'
      → k ≢ []
      → k' ≢ []
      → map_key s b k ≡ map_key s b' k'
      → (b ≡ b') × (k ≡ k')
  map_key_injective b b' k k' hb hb' hk hk' e =
      let one : ◌≡◌ {A = Option (Bytes × Bytes)} (some (b, k)) (some (b', k')) =
        sym (unmap_key-map_key b k hb hk)
        ∙ ap (λ m. unmap_key s m.1) e
        ∙ unmap_key-map_key b' k' hb' hk' in
      parts_of_some b b' k k' one

  -- Physical keys of a client bucket are ordered as the client's keys are. The store is mapped,
  -- and the bucket's name and the keys are not empty.
  pub bytes_le-map_key :
      (b k k' : Bytes)
      → b ≢ []
      → k ≢ []
      → k' ≢ []
      → bytes_le (map_key s b k).1 (map_key s b k').1 ≡ bytes_le k k'
  bytes_le-map_key b k k' hb hk hk' =
      rw (map_key-root b k hb hk, map_key-root b k' hb hk')
        (bytes_le-append (root_of s.prefix) (b ++ b'/' ∷ k) (b ++ b'/' ∷ k')
          ∙ bytes_le-append b (b'/' ∷ k) (b'/' ∷ k')
          ∙ bytes_le-append (b'/' ∷ []) k k')

  -- A listing of a client bucket under a prefix asks the backend for exactly the physical keys of
  -- the client keys that have the prefix. The store is mapped, and the bucket's name and the keys
  -- are not empty.
  pub has_prefix-map_key :
      (b p k : Bytes)
      → b ≢ []
      → k ≢ []
      → has_prefix (map_key s b k).1 (backend_prefix s b p) ≡ has_prefix k p
  unfolding backend_prefix
  has_prefix-map_key b p k hb hk =
      rw (map_key-root b k hb hk, list_prefix-root b hb, append_assoc, append_assoc)
        (has_prefix-append_cancel (root_of s.prefix) (b ++ b'/' ∷ k) (b ++ b'/' ∷ p)
          ∙ has_prefix-append_cancel b (b'/' ∷ k) (b'/' ∷ p)
          ∙ has_prefix-append_cancel (b'/' ∷ []) k p)
