-- ===== src/Remote/KeyMap/Roots.antt =====
-- The bucket names that a listing of the mapping root decodes.
use overlay_s.Base.{
  Bytes, Lacks, [], append_assoc, arith, false, has_prefix, has_prefix-append_cancel,
  index_byte-none, none, refl, some, trim_suffix-append, ◌++◌, ◌∙◌, ◌∷◌, ◌≡◌, ◌≢◌,
}
use overlay_s.Remote.KeyMap.{Mapping, bucket_of, split_rest, unmap_key, unmap_prefix_root}
use overlay_s.Remote.KeyMap.RoundTrip.{IsBucket, is_nil-false, root_of, unmap_key-root}

-- A text that goes on without a slash does not have the prefix and a slash.
bare_prefix : (p m : Bytes) → Lacks b'/' m → has_prefix (p ++ m) (p ++ b'/' ∷ []) ≡ false
bare_prefix p m hm = has_prefix-append_cancel p m (b'/' ∷ []) ∙ not_slash m hm
  where
    not_slash : (m : Bytes) → Lacks b'/' m → has_prefix m (b'/' ∷ []) ≡ false
    not_slash [] hm = unfold has_prefix in refl
    not_slash (x ∷ m) (ne, hm) = unfold has_prefix in ground arith

module _ (s : Mapping) (mapped : s.bucket ≢ []) where
  -- The first-level prefix of a client bucket below the mapping root decodes to the bucket. The
  -- store is mapped, and the bucket has a name without a slash.
  pub unmap_prefix_root-bucket :
      (b : Bytes) → IsBucket b → unmap_prefix_root s (root_of s.prefix ++ (b ++ b'/' ∷ [])) ≡ some b
  unfolding unmap_prefix_root
  unmap_prefix_root-bucket b (nonempty, no_slash) =
      rw
        (
          ← append_assoc (root_of s.prefix) b (b'/' ∷ []),
          trim_suffix-append,
          unmap_key-root,
          index_byte-none b b'/' no_slash,
        )
        (unfold bucket_of split_rest in rw (is_nil-false b nonempty))

  -- Where a bucket and a prefix are configured, no text that begins with the prefix and has no
  -- slash behind it but its last byte decodes to a bucket.
  pub unmap_prefix_root-bare_prefix :
      (m : Bytes)
      → s.prefix ≢ []
      → Lacks b'/' m
      → unmap_prefix_root s (s.prefix ++ (m ++ b'/' ∷ [])) ≡ none
  unfolding unmap_prefix_root unmap_key bucket_of
  unmap_prefix_root-bare_prefix m hp hm = rw (
    ← append_assoc s.prefix m (b'/' ∷ []),
    trim_suffix-append,
    is_nil-false s.bucket mapped,
    is_nil-false s.prefix hp,
    bare_prefix s.prefix m hm,
  )
