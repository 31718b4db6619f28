-- ===== src/Signature/Chunked/Truncated.antt =====
-- What a body that ends inside a chunk reads as.
use Prim.Native.Nat.{min}
use overlay_s.Base.{
  All, Bool, Bool-cases, Bytes, List, [], ap, arith, drop, false, if◌then◌else◌, inl, inr, is_nil,
  length, length-drop, length-take, none, pos, refl, some, sub64-pos, take, take-append-drop,
  take_all, true, ℕ, ◌&&◌, ◌-◌, ◌<◌, ◌^◌, ◌||◌, ◌∷◌, ◌≡◌, ◌≤◌,
}
use overlay_s.Signature.Chunked.{
  ChunkedReader, ReadCall, after_read, end_in_data, eof, joined, read, read_all, read_data,
}
use overlay_s.Signature.Chunked.Steps.{IsCall, is_nil-length, not_zero}

length_nil : (xs : Bytes) → is_nil xs ≡ true → length xs ≡ 0
length_nil [] h = refl
length_nil (x ∷ xs) h = absurd (ground arith)

module _ (call : ReadCall) (room : IsCall call) (u : Bytes) (n : ℕ) (short : length u < n)
    (small : n < 2 ^ 63) where
  abbrev size : ℕ
  size = min (min n call.len) (min call.give (length u))

  abbrev cut_reader : Bytes → ℕ → ChunkedReader
  cut_reader unread left = record {
    unread = unread;
    failure = none;
    remaining = pos left;
    done = false;
  }

  -- The call ends the body where it takes nothing, or where the end comes with its last bytes.
  abbrev ends : Bool
  ends = is_nil (take size u) || (call.eager && is_nil (drop size u))

  size_le : size ≤ length u
  size_le = ground arith

  read_cut : read call (cut_reader u n) ≡ (
    record { taken = take size u; ending = if ends then some eof else none },
    cut_reader (drop size u) (n - size),
  )
  unfolding read read_data
  read_cut =
      rw (not_zero n (omega arith), sub64-pos n size (omega (arith, size_le)) small)
        (after_cut (n - size) (take size u) (drop size u) (omega (arith, size_le)))
    where
      after_cut :
          (m : ℕ) (t e : Bytes)
          → 0 < m
          → after_read call (cut_reader u n) (pos m) t e ≡ (
            record {
              taken = t;
              ending = if is_nil t || (call.eager && is_nil e) then some eof else none;
            },
            cut_reader e m,
          )
      after_cut m t e h = unfold after_read end_in_data in ground arith

  all_taken : ends ≡ true → take size u ≡ u
  all_taken h = take_all size u (elim (Bool-cases (is_nil (take size u))) [
    | inl none_taken ↦ ground (arith, length-take size u, length_nil (take size u) none_taken)
    | inr some_bytes ↦ omega (arith, length-drop size u, length_nil (drop size u) (ground arith))
  ])

  some_taken : ends ≡ false → length (drop size u) < length u
  some_taken h =
      omega
        (arith, length-drop size u, length-take size u, is_nil-length (take size u) (ground arith))

-- A body without an error that ends inside a chunk reads as the bytes that came and then io.EOF, as
-- a complete body does, whatever the caller asks for; one call more than there are bytes is enough.
-- The chunk has more bytes to give than came, below 2^63.
pub read_all-cut :
    (calls : List ReadCall) (u : Bytes) (n : ℕ)
    → All IsCall calls
    → length u < n
    → n < 2 ^ 63
    → length u < length calls
    → read_all calls (record { unread = u; failure = none; remaining = pos n; done = false })
      ≡ some (u, eof)
unfolding read_all joined
read_all-cut [] u n hc short small enough = absurd (omega arith)
read_all-cut (call ∷ calls) u n (room, hc) short small enough =
    rw (read_cut call room u n short small) (elim (Bool-cases (ends call room u n short small)) [
      | inl ended ↦ rw ended (ap (λ t. some (t, eof)) (all_taken call room u n short small ended))
      | inr going ↦
          let k = size call room u n short small in
          rw
            (
              going,
              read_all-cut calls (drop k u) (n - k) hc
                  (omega (arith, length-drop k u, size_le call room u n short small)) (omega arith)
                  (omega (arith, some_taken call room u n short small going)),
            )
            (ap (λ t. some (t, eof)) (take-append-drop k u))
    ])
