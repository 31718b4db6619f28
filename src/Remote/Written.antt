-- ===== src/Remote/Written.antt =====
-- What s3Store.Put leaves under the client keys.
use mathlib.Core.Path.{ap₂}
use overlay_s.Base.{
  Bool, Bool-cases, Bytes, Option, [], ap, arith, bytes_eq, bytes_eq_refl, bytes_eq_sound,
  if◌then◌else◌, inl, inr, none, refl, some, sym, true, ℕ, ◌&&◌, ◌∙◌, ◌≡◌, ◌≢◌,
}
use overlay_s.Base.Exec.{Error, Outcome, continue, err, no_return, ok}
use overlay_s.Overlay.Gateway.Layered.{Objects, same_place}
use overlay_s.Remote.Calls.{put_body, s3_put, written}
use overlay_s.Remote.Client.{Client}
use overlay_s.Remote.KeyMap.{Mapping, map_key}
use overlay_s.Remote.KeyMap.RoundTrip.{IsBucket, map_key_injective}
use overlay_s.Store.{ObjectMeta, Reader}

both : (a b : Bool) → (a && b) ≡ true → (a ≡ true) × (b ≡ true)
both a b h = (ground arith, ground arith)

same_place_sound : (b k b' k' : Bytes) → same_place b k b' k' ≡ true → (b ≡ b') × (k ≡ k')
same_place_sound b k b' k' h =
    let e = both (bytes_eq b b') (bytes_eq k k') h in
    (bytes_eq_sound b b' e.0, bytes_eq_sound k k' e.1)

same_place_complete : (b k b' k' : Bytes) → b ≡ b' → k ≡ k' → same_place b k b' k' ≡ true
same_place_complete b k b' k' e f = rw (e, f) (ground (arith, bytes_eq_refl b', bytes_eq_refl k'))

module _ (s : Mapping) (mapped : s.bucket ≢ []) where
  -- Two client places are one where their physical places are.
  pub same_place-map_key :
      (b k b' k' : Bytes)
      → IsBucket b
      → k ≢ []
      → IsBucket b'
      → k' ≢ []
      → same_place (map_key s b k).0 (map_key s b k).1 (map_key s b' k').0 (map_key s b' k').1
        ≡ same_place b k b' k'
  same_place-map_key b k b' k' hb hk hb' hk' = elim (Bool-cases (same_place b k b' k')) [
    | inl same ↦
        let e = same_place_sound b k b' k' same in
        same_place_complete _ _ _ _ (ap₂ (λ b k. (map_key s b k).0) e.0 e.1)
          (ap₂ (λ b k. (map_key s b k).1) e.0 e.1)
        ∙ sym same
    | inr apart ↦
        elim (Bool-cases (
          same_place (map_key s b k).0 (map_key s b k).1 (map_key s b' k').0 (map_key s b' k').1)) [
            | inl met ↦
                let p = same_place_sound _ _ _ _ met in
                let e =
                  map_key_injective s mapped b b' k k' hb hb' hk hk'
                    (ap₂ (λ x y. (x, y)) p.0 p.1) in
                absurd (cc (apart, same_place_complete b k b' k' e.0 e.1))
            | inr far ↦ far ∙ sym apart
          ]
  ]

module _ {W X : Type 0} (x : Objects X) (client : Client W)
    (held : W → Bytes → Bytes → Option X) where
  -- What a PUT of the backend does: an object made of the bytes at its place alone when it succeeds,
  -- and else nothing.
  abbrev pub Sent : W → W → Bytes → Bytes → Bytes → Bytes → Outcome (Option Bytes) → Type 0
  Sent w w' pb pk content ct (ok etag) =
      (v : X) × x.made (record { content = content; failure = none }) ct v
      × ((b' k' : Bytes)
          → held w' b' k' ≡ (if same_place pb pk b' k' then some v else held w b' k'))
  Sent w w' pb pk content ct (err e) = (b' k' : Bytes) → held w' b' k' ≡ held w b' k'
  Sent w w' pb pk content ct no_return = (b' k' : Bytes) → held w' b' k' ≡ held w b' k'

  pub record BackendWrites : Type 0 where
    pub put_object :
        (w : W) (pb pk content ct : Bytes)
        → Sent w
            (client.put_object pb pk content (some ct) w).1
            pb
            pk
            content
            ct
            (client.put_object pb pk content (some ct) w).0

  module _ (s : Mapping) where
    abbrev at : W → Bytes → Bytes → Option X
    at w b k = held w (map_key s b k).0 (map_key s b k).1

    -- The same for a store, on the names of client objects.
    abbrev pub StoredNamed : W → Bytes → Bytes → Reader → Bytes → Outcome ObjectMeta × W → Type 0
    StoredNamed w b k body ct (ok m, w') =
        (v : X) × x.made body ct v
        × ((b' k' : Bytes)
            → IsBucket b'
            → k' ≢ []
            → at w' b' k' ≡ (if same_place b k b' k' then some v else at w b' k'))
    StoredNamed w b k body ct (err e, w') = (b' k' : Bytes) → at w' b' k' ≡ at w b' k'
    StoredNamed w b k body ct (no_return, w') = (b' k' : Bytes) → at w' b' k' ≡ at w b' k'

    module _ (mapped : s.bucket ≢ []) (now : W → ℕ) (writes : BackendWrites) where
      Sent-named :
          (w w' : W) (b k content ct : Bytes) (r : Outcome (Option Bytes))
          → IsBucket b
          → k ≢ []
          → Sent w w' (map_key s b k).0 (map_key s b k).1 content ct r
          → StoredNamed w b k
              (record { content = content; failure = none })
              ct
              (continue r (written now client s k) w')
      Sent-named w w' b k content ct (ok etag) hb hk (v, made, law) = (
        v,
        made,
        λ b' k' hb' hk'.
            law (map_key s b' k').0 (map_key s b' k').1
            ∙ ap (λ c. if c then some v else at w b' k')
                (same_place-map_key s mapped b k b' k' hb hk hb' hk'),
      )
      Sent-named w w' b k content ct (err e) hb hk law = λ b' k'. law _ _
      Sent-named w w' b k content ct no_return hb hk law = λ b' k'. law _ _

      s3_put-named :
          (w : W) (b k content ct : Bytes) (failure : Option Error)
          → IsBucket b
          → k ≢ []
          → StoredNamed w b k
              (record { content = content; failure = failure })
              ct
              (s3_put now client s b k (record { content = content; failure = failure }) ct w)
      unfolding s3_put put_body
      s3_put-named w b k content ct (some e) hb hk = λ b' k'. refl
      s3_put-named w b k content ct none hb hk =
          Sent-named w _ b k content ct
            (client.put_object (map_key s b k).0 (map_key s b k).1 content (some ct) w).0 hb hk
            (writes.put_object w (map_key s b k).0 (map_key s b k).1 content ct)

      -- Put of a client key leaves an object made of the body under that key, and every other key of
      -- every client bucket as it was; where it fails, also because the body could not be read,
      -- everything stays. The store is mapped, the bucket has a name without a slash, and the key is
      -- not empty; the backend's PUT must do so on its own keys.
      pub s3_put-StoredNamed :
          (w : W) (b k : Bytes) (body : Reader) (ct : Bytes)
          → IsBucket b
          → k ≢ []
          → StoredNamed w b k body ct (s3_put now client s b k body ct w)
      s3_put-StoredNamed w b k body ct hb hk = s3_put-named w b k body.content ct body.failure hb hk
