-- ===== src/Server/Served.antt =====
-- Requests for objects, answered from what a store of objects holds.
use overlay_s.Base.{
  Bytes, Option, Option-cases, [], ap, bytes_eq, codes, if◌then◌else◌, inl, inr, is_nil, none, pos,
  refl, some, ℕ, ℤ, ◌∙◌, ◌∷◌, ◌≡◌,
}
use overlay_s.Base.Exec.{Outcome, eq_not_found, err, ok, raise, try_call}
use overlay_s.Overlay.Gateway.Layered.{Objects, Reads}
use overlay_s.Protocol.{Request, get_value}
use overlay_s.Range.{RangeAnswer, parse_byte_range, part, unsatisfiable, whole}
use overlay_s.Server.{Answer, bare_answer, no_such_key}
use overlay_s.Server.Answers.{
  Decoder, key_error, object_answer, object_headers, precondition_failed, range_unsatisfiable,
}
use overlay_s.Server.Handlers.{
  check_none_match, handle_get_object, handle_head_object, handle_put_object, read_object,
  read_range,
}
use overlay_s.Store.{ByteRange, Store}

module _ {W X : Type 0} (x : Objects X) (holds : W → Bytes → Bytes → Option X) (now : W → ℕ)
    (decode : Decoder) (store : Store W) (reads : Reads x store holds) where
  -- What is answered for an object that is there; 404 NoSuchKey for one that is not.
  abbrev pub found : Option X → (X → Outcome Answer) → Outcome Answer
  found none f = err no_such_key
  found (some v) f = f v

  -- The object's bytes, or a part of them
  abbrev pub sent : Bytes → Option ByteRange → ℤ → X → Outcome Answer
  sent key rng total v = ok (object_answer rng total (x.serve key rng v).0 (x.serve key rng v).1)

  abbrev pub ranged : Bytes → X → RangeAnswer → Outcome Answer
  ranged key v whole = sent key none (x.describe key v).size v
  ranged key v (part rng) = sent key (some rng) (x.describe key v).size v
  ranged key v unsatisfiable = err range_unsatisfiable

  -- The answer to a GET with this Range header
  abbrev pub get_answer : Bytes → Bytes → X → Outcome Answer
  get_answer key range v =
      if is_nil range
      then sent key none (pos 0) v
      else ranged key v (parse_byte_range range (x.describe key v).size)

  read_object_lem :
      (w : W) (b k : Bytes) (rng : Option ByteRange) (total : ℤ)
      → (read_object now decode store b k rng total w).0 ≡ found (holds w b k) (sent k rng total)
  unfolding read_object eq_not_found
  read_object_lem w b k rng total = elim (Option-cases (holds w b k)) [
    | inl absent ↦ rw (reads.get w b k rng, absent) refl
    | inr (v, present) ↦ rw (reads.get w b k rng, present) refl
  ]

  -- HEAD answers the metadata of the object that is there, and 404 NoSuchKey for one that is not.
  -- The store must answer from what it holds.
  pub handle_head_object_lem :
      (w : W) (b k : Bytes)
      → (handle_head_object now decode store b k w).0
        ≡ found (holds w b k) (λ v. ok (bare_answer 200 (object_headers (x.describe k v))))
  unfolding handle_head_object eq_not_found
  handle_head_object_lem w b k = elim (Option-cases (holds w b k)) [
    | inl absent ↦ rw (reads.head w b k, absent) refl
    | inr (v, present) ↦ rw (reads.head w b k, present) refl
  ]

  module _ (still : (w : W) (b k : Bytes) → holds (store.head b k w).1 ≡ holds w) where
    still_at : (w : W) (b k b' k' : Bytes) → holds (store.head b k w).1 b' k' ≡ holds w b' k'
    still_at w b k b' k' = ap (λ h. h b' k') (still w b k)

    read_range_lem :
        (w : W) (b k : Bytes) (v : X) (a : RangeAnswer)
        → holds w b k ≡ some v
        → (read_range now decode store b k (x.describe k v).size a w).0 ≡ ranged k v a
    unfolding read_range
    read_range_lem w b k v whole h = read_object_lem w b k none _ ∙ rw h refl
    read_range_lem w b k v (part rng) h = read_object_lem w b k (some rng) _ ∙ rw h refl
    read_range_lem w b k v unsatisfiable h = refl

    get_ranged_lem :
        (w : W) (b k range : Bytes)
        → (try_call
            (store.head b k)
            (λ head. read_range now decode store b k head.size (parse_byte_range range head.size))
            (λ e. raise (key_error e))
            w).0
          ≡ found (holds w b k) (λ v. ranged k v (parse_byte_range range (x.describe k v).size))
    unfolding eq_not_found
    get_ranged_lem w b k range = elim (Option-cases (holds w b k)) [
      | inl absent ↦ rw (reads.head w b k, absent) refl
      | inr (v, present) ↦
          rw (reads.head w b k, present)
            (read_range_lem _ b k v (parse_byte_range range (x.describe k v).size)
              (still_at w b k b k ∙ present))
    ]

    -- GET answers from what the store holds: 404 NoSuchKey where it holds nothing, else the whole
    -- object, the part that the Range header asks for, or 416 InvalidRange, as parse_byte_range
    -- says of the object's size. The store must answer from what it holds, and its HEAD must not
    -- change that.
    pub handle_get_object_lem :
        (w : W) (r : Request) (b k : Bytes)
        → (handle_get_object now decode store r b k w).0
          ≡ found (holds w b k) (get_answer k (get_value r.headers (codes "Range")))
    unfolding handle_get_object
    handle_get_object_lem w r b k = with_range (get_value r.headers (codes "Range"))
      where
        with_range :
            (range : Bytes)
            → ((if is_nil range
                  then read_object now decode store b k none (pos 0)
                  else try_call
                      (store.head b k)
                      (λ head.
                        read_range now decode store b k head.size
                          (parse_byte_range range head.size))
                      (λ e. raise (key_error e)))
                w).0
              ≡ found (holds w b k) (get_answer k range)
        with_range [] = read_object_lem w b k none (pos 0)
        with_range (c ∷ range) = get_ranged_lem w b k (c ∷ range)

    -- A PUT with If-None-Match: * for a key that is there is refused with 412 PreconditionFailed,
    -- and what the store holds stays. The store's HEAD must answer from what it holds, and not
    -- change it.
    pub handle_put_object-none_match :
        (w : W) (r : Request) (b k : Bytes) (v : X)
        → get_value r.headers (codes "If-None-Match") ≡ codes "*"
        → holds w b k ≡ some v
        → ((handle_put_object now decode store r b k w).0
            ≡ err (precondition_failed (codes "object already exists")))
          × (holds (handle_put_object now decode store r b k w).1 ≡ holds w)
    unfolding handle_put_object check_none_match bytes_eq
    handle_put_object-none_match w r b k v star present =
        rw (star, reads.head w b k, present) (refl, still w b k)
