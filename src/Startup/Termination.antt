-- ===== src/Startup/Termination.antt =====
-- main.go: the gateway, once started, answers.
use mathlib.Core.Path.{subst}
use overlay_s.Base.{
  Bool, Bool-cases, Bytes, Option, bytes_eq, bytes_eq_sound, codes, false, if◌then◌else◌, inl, inr,
  is_nil, length, ltb_ℤ, none, pos, refl, some, sym, true, ℕ, ℤ, ◌<◌, ◌==◌, ◌||◌, ◌≡◌,
}
use overlay_s.Base.Exec.{Error, Exec, Outcome, err, no_return, ok}
use overlay_s.Overlay.Gateway.Ending.{StoreEnds}
use overlay_s.Overlay.Listing.{Gateway, OverlayStore}
use overlay_s.Remote.Client.{Client}
use overlay_s.Remote.Ending.{ClientEnds, s3_store-StoreEnds}
use overlay_s.Server.{Response}
use overlay_s.Server.Answers.{Decoder}
use overlay_s.Server.Gate.{Handler, admitted, chunked_request, dechunked, sigv4_middleware}
use overlay_s.Server.Termination.{serve_http-overlay_store}
use overlay_s.Signature.Chunked.{ReadCall}
use overlay_s.Signature.Middleware.{
  Admission, admit, admit_body, chunked_length, handed_on, refused, verifying,
}
use overlay_s.Signature.Verify.{SignedRequest, header_value, streaming_payload, unsigned_payload}
use overlay_s.Startup.{ClientOptions, Flags, client_options, handler_of, main, s3_server, serving}
use overlay_s.Startup.Wiring.{main-Serves}
use overlay_s.Store.{Reader}

-- A request as net/http hands it over, whose body, where it is to be decoded, has no chunk that the
-- decoder panics on.
pub record PanicFree (caller : ℕ → ReadCall) (r : SignedRequest) : Type 0 where
  pub plain_body : r.request.panics ≡ false
  pub decoded_body :
      header_value r.request.headers (codes "x-amz-content-sha256") ≡ streaming_payload
      → (dechunked caller r.request.body).1 ≡ false

module _ {W C : Type 0} (load_default_config : Bytes → Bytes → Bytes → Exec W C)
    (new_from_config : C → ClientOptions → Client W) (now : W → ℕ) (sha256 : Bytes → Bytes)
    (hmac : Bytes → Bytes → Bytes) (hex : Bytes → Bytes) (parse_time : Bytes → Option ℕ)
    (caller : ℕ → ReadCall) (decode : Decoder) (describe : Error → Bytes) (fuel : ℕ)
    (f : Flags) where
  abbrev Answers : Handler (Gateway W) → (SignedRequest → Type 0) → Type 0
  Answers h Fit =
      (r : SignedRequest) (g : Gateway W) → Fit r → (resp : Response) × ((h r g).0 ≡ ok resp)

  module _ (pages : ℕ) (enough : pages < fuel)
      (overlay_ends : (cfg : C) → ClientEnds pages (new_from_config cfg (client_options f.overlay)))
      (baseline_ends : (cfg : C)
        → ClientEnds pages (new_from_config cfg (client_options f.baseline))) where
    server-Answers :
        (o : OverlayStore W)
        → StoreEnds pages o.overlay
        → StoreEnds pages o.baseline
        → Answers
            (s3_server load_default_config new_from_config now sha256 hmac hex parse_time caller
              decode describe fuel o)
            (λ r. r.request.panics ≡ false)
    unfolding s3_server
    server-Answers o ov bs r g =
        serve_http-overlay_store now fuel o pages enough ov bs decode describe r.request g

    module _ (next_handler : Handler (Gateway W))
        (h : Answers next_handler (λ r. r.request.panics ≡ false)) (r : SignedRequest)
        (fit : PanicFree caller r) (g : Gateway W) where
      abbrev Answered : Admission → Type 0
      Answered a = (resp : Response) × ((admitted caller next_handler r a g).0 ≡ ok resp)

      refusal : (status : ℕ) (code message : Bytes) → Answered (refused status code message)
      unfolding admitted
      refusal status code message = (_, refl)

      handed : (body : Reader) → Answered (handed_on body)
      unfolding admitted
      handed body = h _ g fit.plain_body

      either :
          (b : Bool) (a a' : Admission) → Answered a → Answered a' → Answered (if b then a else a')
      either true a a' h h' = h
      either false a a' h h' = h'

      chunked :
          (o : Option ℤ)
          → header_value r.request.headers (codes "x-amz-content-sha256") ≡ streaming_payload
          → Answered (chunked_length r.request.body o)
      unfolding chunked_length
      chunked none streamed = refusal _ _ _
      chunked (some n) streamed = elim (Bool-cases (ltb_ℤ n (pos 0))) [
        | inl negative ↦ rw negative (refusal _ _ _)
        | inr counted ↦
            rw counted (unfold admitted chunked_request in h _ g (fit.decoded_body streamed))
      ]

      admission-Answered :
          (o : Outcome (Unit {0})) (hash : Bytes → Bytes) → Answered (admit hash describe r o)
      unfolding admit admit_body
      admission-Answered (ok u) hash =
          let payload = header_value r.request.headers (codes "x-amz-content-sha256") in
          elim (Bool-cases (bytes_eq payload streaming_payload)) [
            | inl streamed ↦
                rw streamed (chunked _ (bytes_eq_sound payload streaming_payload streamed))
            | inr other ↦ rw other (
                either (is_nil payload || bytes_eq payload unsigned_payload)
                  (handed_on r.request.body) _ (handed r.request.body)
                  (either (length payload == 64) (handed_on (verifying hash payload r.request.body))
                    (handed_on r.request.body) (handed _) (handed r.request.body)))
          ]
      admission-Answered (err e) hash = refusal _ _ _
      admission-Answered no_return hash = refusal _ _ _

    handler-Answers :
        (o : OverlayStore W)
        → Answers
            (s3_server load_default_config new_from_config now sha256 hmac hex parse_time caller
              decode describe fuel o)
            (λ r. r.request.panics ≡ false)
        → Answers
            (handler_of load_default_config new_from_config now sha256 hmac hex parse_time caller
              decode describe fuel f o)
            (PanicFree caller)
    unfolding handler_of sigv4_middleware
    handler-Answers o h r g fit = elim (Bool-cases (is_nil f.auth_key)) [
      | inl open_to_all ↦ rw open_to_all (h r g fit.plain_body)
      | inr guarded ↦ rw guarded (admission-Answered _ h r fit g _ _)
    ]

    -- The handler that main serves answers every request, signed or not, that net/http hands over and
    -- whose chunks, if it says that its payload is streamed, can be read without a panic, which a chunk
    -- of negative size brings about. Both backends must answer every call, with a result or an error,
    -- and no listing may have as many pages as the fuel of one call.
    pub main-answers :
        (w : W) (o : OverlayStore W) (h : Handler (Gateway W))
        → (main load_default_config new_from_config now sha256 hmac hex parse_time caller decode
            describe fuel f w).0
          ≡ ok (serving o h)
        → (r : SignedRequest) (g : Gateway W) → PanicFree caller r
        → (resp : Response) × ((h r g).0 ≡ ok resp)
    main-answers w o h e =
        let wired =
          (main-Serves load_default_config new_from_config now sha256 hmac hex parse_time caller
              decode describe fuel f w).wired
            o h e in
        subst (λ h. Answers h (PanicFree caller)) (sym wired.handler)
          (handler-Answers o (
            server-Answers o
              (subst (λ o. StoreEnds pages o.overlay) (sym wired.stores)
                (s3_store-StoreEnds now _ _ fuel pages enough (overlay_ends wired.overlay_config)))
              (subst (λ o. StoreEnds pages o.baseline) (sym wired.stores)
                (s3_store-StoreEnds now _ _ fuel pages enough
                  (baseline_ends wired.baseline_config)))))
