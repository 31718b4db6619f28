-- ===== src/Remote/Ranges.antt =====
-- What Get answers to a range, whether or not the backend serves ranges.
use overlay_s.Base.{
  Bool, Bytes, Option, [], ap, arith, drop, false, if◌then◌else◌, is_nil, length, length-drop,
  length-take, ltb, none, pos, refl, some, sym, take, true, ℕ, ◌+◌, ◌∙◌, ◌≡◌, ◌≤◌,
}
use overlay_s.Base.Exec.{Error, Outcome, err, no_return, ok}
use overlay_s.Remote.Calls.{
  cap_size, cut_body, limited, object_answered, object_meta, skip_failure, skipped,
}
use overlay_s.Remote.Client.{GetObjectOutput, to_int, to_string}
use overlay_s.Store.{ObjectMeta, Reader}

-- The bytes of a range
abbrev pub slice : ℕ → ℕ → Bytes → Bytes
slice first count v = take count (drop first v)

-- A backend that keeps `v` answers a request for this range with the whole of it, or with the
-- range's bytes and a Content-Range.
pub data Answers (v : Bytes) (first count : ℕ) : GetObjectOutput → Type 0 where
  whole_answer :
      {out : GetObjectOutput}
      → out.body ≡ record { content = v; failure = none }
      → out.content_length ≡ some (pos (length v))
      → to_string out.content_range ≡ []
      → Answers v first count out
  range_answer :
      {out : GetObjectOutput}
      → out.body ≡ record { content = slice first count v; failure = none }
      → out.content_length ≡ some (pos count)
      → is_nil (to_string out.content_range) ≡ false
      → Answers v first count out

-- A read that gives exactly these bytes, under metadata with their number.
abbrev pub Gives : Bytes → Outcome (Reader × ObjectMeta) → Type 0
Gives bytes (ok (body, meta)) =
    (body ≡ record { content = bytes; failure = none }) × (meta.size ≡ pos (length bytes))
Gives bytes (err e) = ⊥
Gives bytes no_return = ⊥

module _ (v : Bytes) (first count : ℕ) (inside : first + count ≤ length v) where
  length-slice : length (slice first count v) ≡ count
  length-slice = omega (arith, length-take count (drop first v), length-drop first v)

  abbrev plain_body : Reader
  plain_body = record { content = v; failure = none }

  pub skip_failure-none : skip_failure plain_body (pos first) ≡ none
  unfolding skip_failure
  skip_failure-none = ground arith

  pub limited-skipped :
      limited (skipped plain_body (pos first)) (pos count)
      ≡ record { content = slice first count v; failure = none }
  unfolding limited skipped
  limited-skipped = rw (if_same (ltb (length (drop first v)) count)) refl
    where
      if_same : (b : Bool) → ◌≡◌ {A = Option Error} (if b then none else none) none
      if_same true = refl
      if_same false = refl

  cap_size_lem :
      (meta : ObjectMeta)
      → meta.size ≡ pos (length v)
      → (cap_size meta (record { start = pos first; length = pos count })).size
        ≡ pos (length (slice first count v))
  unfolding cap_size
  cap_size_lem meta h = rw (h, length-slice) (ground arith)

  cut_body_lem :
      (meta : ObjectMeta)
      → meta.size ≡ pos (length v)
      → Gives
          (slice first count v)
          (cut_body (record { start = pos first; length = pos count }) plain_body meta)
  unfolding cut_body
  cut_body_lem meta h =
      rw (Gives, cut_body, skip_failure-none) (limited-skipped, cap_size_lem meta h)

  -- Where the range lies in the object, Get gives exactly the range's bytes and their number as
  -- the size, whether the backend serves the range, with a Content-Range, or ignores it and sends
  -- the whole object.
  pub object_answered-slice :
      (key : Bytes) (out : GetObjectOutput)
      → Answers v first count out
      → Gives
          (slice first count v)
          (object_answered key (some (record { start = pos first; length = pos count })) out)
  unfolding object_answered object_meta
  object_answered-slice key out (whole_answer body size plain) =
      rw (plain, body) (cut_body_lem (object_meta key out) (ap to_int size))
  object_answered-slice key out (range_answer body size ranged) =
      rw ranged (body, ap to_int size ∙ ap pos (sym length-slice))
