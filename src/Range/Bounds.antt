-- ===== src/Range/Bounds.antt =====
-- A range that is served lies inside the object.
use native.Mathlib.Decide.{dec_lt}
use Prim.Native.Nat.{min}
use mathlib.Core.Path.{subst}
use overlay_s.Base.{
  Bool, Bytes, Option, [], add64-pos, arith, codes, contains_byte, cut, false, has_prefix,
  if◌then◌else◌, ltb, negsuc, none, not, pos, refl, some, sub64-pos, sym, trim_prefix, true, ℕ, ℤ,
  ◌+◌, ◌-◌, ◌<◌, ◌==◌, ◌^◌, ◌||◌, ◌∷◌, ◌≡◌, ◌≤◌,
}
use overlay_s.Base.Decimal.{parse_int}
use overlay_s.Range.{
  RangeAnswer, closed_range, cut_range, parse_byte_range, part, span, start_range, suffix_range,
  unsatisfiable, whole,
}

abbrev pub served : ℕ → ℕ → RangeAnswer
served first count = part (record { start = pos first; length = pos count })

module _ (size : ℕ) (fits : size < 2 ^ 63) where
  -- The last n bytes of the object, or all of them.
  pub suffix_range_lem :
      (n : ℕ)
      → suffix_range (some (pos n)) (pos size)
        ≡ (if n == 0 || size == 0 then unsatisfiable else served (size - n) (min n size))
  unfolding suffix_range
  suffix_range_lem n = ground (arith, sub64-pos size n, sub64-pos size size)

  span_lem : (a b : ℕ) → a ≤ b → b < size → span (pos a) (pos b) ≡ served a (b - a + 1)
  span_lem a b h k = rw (sub64-pos b a h (omega arith), add64-pos (b - a) 1 (omega arith))

  -- From a to b, or to the end of the object.
  pub closed_range_lem :
      (a b : ℕ)
      → a < size
      → closed_range (pos a) (some (pos b)) (pos size)
        ≡ (if ltb b a then unsatisfiable else served a (min b (size - 1) - a + 1))
  unfolding closed_range
  closed_range_lem a b h = ground (arith, span_lem a b, span_lem a (size - 1), sub64-pos size 1)

  -- From a to the end of the object.
  pub open_range_lem :
      (a : ℕ) → a < size → start_range (some (pos a)) [] (pos size) ≡ served a (size - a)
  unfolding start_range
  open_range_lem a h = ground (arith, span_lem a (size - 1), sub64-pos size 1)

  -- A range that is served has a byte at least, and lies in the object.
  abbrev pub Inside : RangeAnswer → Type 0
  Inside whole = Unit
  Inside unsatisfiable = Unit
  Inside (part r) =
      (first : ℕ) × (count : ℕ) × (r ≡ record { start = pos first; length = pos count })
      × (0 < count)
      × (first + count ≤ size)

  Inside-if :
      (b : Bool) (first count : ℕ)
      → (b ≡ false → (0 < count) × (first + count ≤ size))
      → Inside (if b then unsatisfiable else served first count)
  Inside-if true first count h = tt
  Inside-if false first count h = (first, count, refl, (h refl).0, (h refl).1)

  suffix_range_neg : (n : ℕ) → suffix_range (some (negsuc n)) (pos size) ≡ unsatisfiable
  unfolding suffix_range
  suffix_range_neg n = ground arith

  closed_range_neg : (a n : ℕ) → closed_range (pos a) (some (negsuc n)) (pos size) ≡ unsatisfiable
  unfolding closed_range
  closed_range_neg a n = ground arith

  start_range_neg : (n : ℕ) (e : Bytes) → start_range (some (negsuc n)) e (pos size) ≡ whole
  unfolding start_range
  start_range_neg n e = ground arith

  pub start_range_past :
      (a : ℕ) (e : Bytes) → size ≤ a → start_range (some (pos a)) e (pos size) ≡ unsatisfiable
  unfolding start_range
  start_range_past a e h = ground arith

  pub start_range_closed :
      (a c : ℕ) (e : Bytes)
      → a < size
      → start_range (some (pos a)) (c ∷ e) (pos size)
        ≡ closed_range (pos a) (parse_int 10 (c ∷ e)) (pos size)
  unfolding start_range
  start_range_closed a c e h = ground arith

  suffix_range-Inside : (o : Option ℤ) → Inside (suffix_range o (pos size))
  suffix_range-Inside none = unfold suffix_range in tt
  suffix_range-Inside (some (negsuc n)) = rw (suffix_range_neg n) tt
  suffix_range-Inside (some (pos n)) =
      rw suffix_range_lem
        (Inside-if (n == 0 || size == 0) (size - n) (min n size) (λ e. ground arith))

  closed_range-Inside :
      (a : ℕ) (o : Option ℤ) → a < size → Inside (closed_range (pos a) o (pos size))
  closed_range-Inside a none h = unfold closed_range in tt
  closed_range-Inside a (some (negsuc n)) h = rw (closed_range_neg a n) tt
  closed_range-Inside a (some (pos b)) h =
      rw (closed_range_lem a b h)
        (Inside-if (ltb b a) a (min b (size - 1) - a + 1) (λ e. ground arith))

  start-Inside : (a : ℕ) (e : Bytes) → a < size → Inside (start_range (some (pos a)) e (pos size))
  start-Inside a [] h = rw (open_range_lem a h) (a, size - a, refl, omega arith, omega arith)
  start-Inside a (c ∷ e) h =
      subst Inside (sym (start_range_closed a c e h))
        (closed_range-Inside a (parse_int 10 (c ∷ e)) h)

  start_range-Inside : (o : Option ℤ) (end_str : Bytes) → Inside (start_range o end_str (pos size))
  start_range-Inside none e = unfold start_range in tt
  start_range-Inside (some (negsuc n)) e = rw (start_range_neg n e) tt
  start_range-Inside (some (pos a)) e = elim (dec_lt a size) [
    | yes inside ↦ start-Inside a e inside
    | no past ↦ rw (start_range_past a e (omega arith)) tt
  ]

  cut_range-Inside : (o : Option (Bytes × Bytes)) → Inside (cut_range o (pos size))
  unfolding cut_range
  cut_range-Inside none = tt
  cut_range-Inside (some ([], end_str)) = suffix_range-Inside (parse_int 10 end_str)
  cut_range-Inside (some (c ∷ start_str, end_str)) =
      start_range-Inside (parse_int 10 (c ∷ start_str)) end_str

  ignored : (b : Bool) (a : RangeAnswer) → Inside a → Inside (if b then whole else a)
  ignored true a i = tt
  ignored false a i = i

  -- Whatever the header says, a range that is served has a byte at least and lies in the object.
  -- The object has less than 2^63 bytes.
  pub parse_byte_range-Inside : (h : Bytes) → Inside (parse_byte_range h (pos size))
  unfolding parse_byte_range
  parse_byte_range-Inside h =
      let spec = trim_prefix h (codes "bytes=") in
      let answer = cut_range (cut spec b'-') (pos size) in
      let single = contains_byte spec b',' in
      ignored (not (has_prefix h (codes "bytes="))) (if single then whole else answer)
        (ignored single answer (cut_range-Inside (cut spec b'-')))
