-- ===== src/Server/Written.antt =====
-- What a PUT request leaves behind, and what a later GET reads.
use overlay_s.Base.{
  Bool, Bytes, Option, [], ap, arith, bytes_eq, bytes_eq_refl, codes, false, if◌then◌else◌, is_nil,
  quote, refl, some, trim, true, ℕ, ◌∙◌, ◌∷◌, ◌≡◌,
}
use overlay_s.Base.Exec.{
  Error, Exec, Outcome, continue, eq_not_found, err, handle, no_return, ok, pure, raise, try_call,
}
use overlay_s.Overlay.Cursor.{next}
use overlay_s.Overlay.Gateway.Layered.{Objects, Reads, Stored, Writes, same_place}
use overlay_s.Protocol.{Request, get_value}
use overlay_s.Server.{Answer, bare_answer, content_type_or_default, no_such_bucket, quoted, text}
use overlay_s.Server.Answers.{Decoder}
use overlay_s.Server.Handlers.{
  check_match, check_none_match, handle_get_object, handle_put_object, panic, reads_body,
}
use overlay_s.Server.Served.{found, get_answer, handle_get_object_lem}
use overlay_s.Store.{ObjectMeta, Reader, Store}

-- Handlers of a call's outcome that leave the world alone.
handle_world {ℓ κ} :
    {W : Type 0} {A : Type ℓ} {B : Type κ} (r : Outcome A) (f : A → Exec W B) (g : Error → Exec W B)
    (w : W)
    → ((a : A) → (f a w).1 ≡ w)
    → ((e : Error) → (g e w).1 ≡ w)
    → (handle r f g w).1 ≡ w
handle_world (ok a) f g w hf hg = hf a
handle_world (err e) f g w hf hg = hg e
handle_world no_return f g w hf hg = refl

if_world {ℓ} :
    {W : Type 0} {A : Type ℓ} (c : Bool) (m n : Exec W A) (w : W)
    → (m w).1 ≡ w
    → (n w).1 ≡ w
    → ((if c then m else n) w).1 ≡ w
if_world true m n w hm hn = hm
if_world false m n w hm hn = hn

module _ {W X : Type 0} (x : Objects X) (holds : W → Bytes → Bytes → Option X) (now : W → ℕ)
    (decode : Decoder) (store : Store W)
    (still : (w : W) (b k : Bytes) → holds (store.head b k w).1 ≡ holds w) where
  if_holds {ℓ} :
      {A : Type ℓ} (c : Bool) (m n : Exec W A) (w : W)
      → holds (m w).1 ≡ holds w
      → holds (n w).1 ≡ holds w
      → holds ((if c then m else n) w).1 ≡ holds w
  if_holds true m n w hm hn = hm
  if_holds false m n w hm hn = hn

  check_none_match-holds :
      (w : W) (r : Request) (b k : Bytes)
      → holds (check_none_match now decode store r b k w).1 ≡ holds w
  unfolding check_none_match
  check_none_match-holds w r b k =
      if_holds (bytes_eq (get_value r.headers (codes "If-None-Match")) (codes "*")) _ _ w
        (ap holds (
            handle_world (store.head b k w).0 _ _ (store.head b k w).1 (λ meta. refl)
              (λ e. if_world (eq_not_found e) _ _ _ refl refl))
          ∙ still w b k)
        refl

  check_match-holds :
      (w : W) (r : Request) (b k : Bytes) → holds (check_match now decode store r b k w).1 ≡ holds w
  unfolding check_match
  check_match-holds w r b k =
      if_holds (is_nil (get_value r.headers (codes "If-Match"))) _ _ w refl (
        ap holds (
          handle_world (store.head b k w).0 _ _ (store.head b k w).1
            (λ meta.
              if_world (bytes_eq meta.etag (trim (get_value r.headers (codes "If-Match")) quote)) _
                _ _ refl refl)
            (λ e. refl))
        ∙ still w b k)

  -- What a PUT leaves where the store held `before`: an object made of the body at its key alone
  -- when it succeeds, and else nothing new.
  abbrev pub Put {ℓ} :
      {A : Type ℓ}
      → (Bytes → Bytes → Option X)
      → Bytes
      → Bytes
      → Reader
      → Bytes
      → Outcome A × W
      → Type 0
  Put before b k body ct (ok a, w) =
      (v : X) × x.made body ct v
      × ((b' k' : Bytes) → holds w b' k' ≡ (if same_place b k b' k' then some v else before b' k'))
  Put before b k body ct (err e, w) = (b' k' : Bytes) → holds w b' k' ≡ before b' k'
  Put before b k body ct (no_return, w) = (b' k' : Bytes) → holds w b' k' ≡ before b' k'

  module _ (writes : Writes x store holds) (before : Bytes → Bytes → Option X) (r : Request)
      (b k : Bytes) where
    abbrev type : Bytes
    type = content_type_or_default (get_value r.headers (codes "Content-Type"))

    answered :
        (o : Outcome ObjectMeta) (w w' : W)
        → holds w ≡ before
        → Stored x holds w w' b k r.body type o
        → Put before b k r.body type (
            handle o
              (λ meta. pure (bare_answer 200 ((codes "ETag", text (quoted meta.etag)) ∷ [])))
              (λ e. raise (no_such_bucket e))
              w')
    answered (ok m) w w' e (v, made, law) =
        (v, made, λ b' k'. law b' k' ∙ ap (λ h. if same_place b k b' k' then some v else h b' k') e)
    answered (err e') w w' e law = λ b' k'. law b' k' ∙ ap (λ h. h b' k') e
    answered no_return w w' e law = λ b' k'. law b' k' ∙ ap (λ h. h b' k') e

    abbrev store_body : Exec W Answer
    store_body =
        try_call (reads_body r (store.put b k r.body type))
          (λ meta. pure (bare_answer 200 ((codes "ETag", text (quoted meta.etag)) ∷ [])))
          (λ e. raise (no_such_bucket e))

    answered_or_not :
        (p : Bool) (w : W)
        → holds w ≡ before
        → Put before b k r.body type (
            try_call
              (if p then panic else store.put b k r.body type)
              (λ meta. pure (bare_answer 200 ((codes "ETag", text (quoted meta.etag)) ∷ [])))
              (λ e. raise (no_such_bucket e))
              w)
    answered_or_not true w e = λ b' k'. ap (λ h. h b' k') e
    answered_or_not false w e =
        answered (store.put b k r.body type w).0 w _ e (writes.put w b k r.body type)

    -- A check that lets the request through, or ends it
    checked {ℓ} :
        {A : Type ℓ} (o : Outcome A) (w : W) (next : Exec W Answer)
        → holds w ≡ before
        → ((w' : W) → holds w' ≡ before → Put before b k r.body type (next w'))
        → Put before b k r.body type (continue o (λ a. next) w)
    checked (ok a) w next e h = h w e
    checked (err e') w next e h = λ b' k'. ap (λ h. h b' k') e
    checked no_return w next e h = λ b' k'. ap (λ h. h b' k') e

  -- PUT: where it succeeds, the store holds an object made of the request's body and content type at
  -- its key, and everything else as before; where it fails, for whatever reason, everything stays.
  -- The store's PUT must do so, and its HEAD must not change what it holds.
  pub handle_put_object-Put :
      (writes : Writes x store holds) (w : W) (r : Request) (b k : Bytes)
      → Put
          (holds w)
          b
          k
          r.body
          (content_type_or_default (get_value r.headers (codes "Content-Type")))
          (handle_put_object now decode store r b k w)
  unfolding handle_put_object
  handle_put_object-Put writes w r b k =
      checked writes (holds w) r b k (check_none_match now decode store r b k w).0 _ _
        (check_none_match-holds w r b k)
        (λ w1 e1.
          checked writes (holds w) r b k (check_match now decode store r b k w1).0 _
            (store_body writes (holds w) r b k) (check_match-holds w1 r b k ∙ e1)
            (λ w2 e2. unfold reads_body in answered_or_not writes (holds w) r b k r.panics w2 e2))

  same_place_refl : (b k : Bytes) → same_place b k b k ≡ true
  same_place_refl b k = ground (arith, bytes_eq_refl b, bytes_eq_refl k)

  Put-holds :
      (before : Bytes → Bytes → Option X) (b k : Bytes) (body : Reader) (ct : Bytes) (a : Answer)
      (result : Outcome Answer × W)
      → result.0 ≡ ok a
      → Put before b k body ct result
      → (v : X) × x.made body ct v × (holds result.1 b k ≡ some v)
  Put-holds before b k body ct a (ok a', w) e (v, made, law) =
      (v, made, law b k ∙ rw (same_place_refl b k) refl)
  Put-holds before b k body ct a (err e', w) e h = absurd (ground arith)
  Put-holds before b k body ct a (no_return, w) e h = absurd (ground arith)

  -- A GET behind a PUT of the same key that succeeded answers an object made of the body and the
  -- content type that were put, cut as its own Range header asks. The store must answer from what it
  -- holds, its PUT must hold the object, and its HEAD must not change what it holds.
  pub handle_put_object-handle_get_object :
      (reads : Reads x store holds) (writes : Writes x store holds) (w : W) (put_request : Request)
      (get_request : Request) (b k : Bytes) (a : Answer)
      → (handle_put_object now decode store put_request b k w).0 ≡ ok a
      → (v : X) × x.made put_request.body
          (content_type_or_default (get_value put_request.headers (codes "Content-Type")))
          v
        × ((handle_get_object now decode store get_request b k
              (handle_put_object now decode store put_request b k w).1).0
            ≡ get_answer x holds now decode store reads k
                (get_value get_request.headers (codes "Range"))
                v)
  handle_put_object-handle_get_object reads writes w put_request get_request b k a e =
      let w' = (handle_put_object now decode store put_request b k w).1 in
      let (v, made, there) =
        Put-holds (holds w) b k put_request.body _ a
          (handle_put_object now decode store put_request b k w) e
          (handle_put_object-Put writes w put_request b k) in
      (
        v,
        made,
        handle_get_object_lem x holds now decode store reads still w' get_request b k
            ∙ ap
                (λ o. found x holds now decode store reads o (
                  get_answer x holds now decode store reads k
                    (get_value get_request.headers (codes "Range"))))
                there,
      )
