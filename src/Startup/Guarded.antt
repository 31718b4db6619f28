-- ===== src/Startup/Guarded.antt =====
-- main.go: what the flags -auth-key and -auth-secret promise.
use mathlib.Core.Path.{subst}
use overlay_s.Base.{Bytes, Option, [], codes, false, is_nil, refl, sym, ℕ, ◌∙◌, ◌∷◌, ◌≡◌, ◌≢◌, ◌⊎◌}
use overlay_s.Base.Exec.{Error, Exec, ok}
use overlay_s.Overlay.Listing.{Gateway, OverlayStore}
use overlay_s.Remote.Client.{Client}
use overlay_s.Server.Answers.{Decoder}
use overlay_s.Server.Gate.{
  Handler, SignedAt, sig_error_response, sigv4_middleware, sigv4_middleware-Signed,
}
use overlay_s.Signature.Chunked.{ReadCall}
use overlay_s.Signature.Verify.{SignedRequest}
use overlay_s.Startup.{ClientOptions, Flags, handler_of, main, s3_server, serving}
use overlay_s.Startup.Wiring.{main-Serves}

module _ {W C : Type 0} (load_default_config : Bytes → Bytes → Bytes → Exec W C)
    (new_from_config : C → ClientOptions → Client W) (now : W → ℕ) (sha256 : Bytes → Bytes)
    (hmac : Bytes → Bytes → Bytes) (hex : Bytes → Bytes) (parse_time : Bytes → Option ℕ)
    (caller : ℕ → ReadCall) (decode : Decoder) (describe : Error → Bytes) (fuel : ℕ)
    (f : Flags) where
  guarded_handler :
      (o : OverlayStore W)
      → f.auth_key ≢ []
      → handler_of load_default_config new_from_config now sha256 hmac hex parse_time caller decode
          describe fuel f o
        ≡ sigv4_middleware caller
            (s3_server load_default_config new_from_config now sha256 hmac hex parse_time caller
              decode describe fuel o)
            sha256
            hmac
            hex
            parse_time
            (λ g. now g.world)
            describe
            f.auth_key
            f.auth_secret
  unfolding handler_of
  guarded_handler o h = rw (has_key f.auth_key h) refl
    where
      has_key : (s : Bytes) → s ≢ [] → is_nil s ≡ false
      has_key [] h = absurd (h refl)
      has_key (c ∷ s) h = refl

  -- With an access key among its flags, main serves a handler that lets only requests through that are
  -- signed with that key and its secret: it answers any other with 403 itself, and neither store
  -- nor session has changed behind it.
  pub main-Signed :
      f.auth_key ≢ []
      → (w : W) (o : OverlayStore W) (h : Handler (Gateway W))
      → (main load_default_config new_from_config now sha256 hmac hex parse_time caller decode
          describe fuel f w).0
        ≡ ok (serving o h)
      → (r : SignedRequest) (g : Gateway W)
      → SignedAt caller
          (s3_server load_default_config new_from_config now sha256 hmac hex parse_time caller
            decode describe fuel o)
          sha256
          hmac
          hex
          parse_time
          (λ g. now g.world)
          describe
          f.auth_key
          f.auth_secret
          r
          g
        ⊎ ((message : Bytes) × (h r g ≡ (
          ok (sig_error_response 403 (codes "SignatureDoesNotMatch") message r.request.path),
          g,
        )))
  main-Signed key w o h e r g =
      let wired =
        (main-Serves load_default_config new_from_config now sha256 hmac hex parse_time caller
            decode describe fuel f w).wired
          o h e in
      subst
        (λ h.
          SignedAt caller
            (s3_server load_default_config new_from_config now sha256 hmac hex parse_time caller
              decode describe fuel o)
            sha256 hmac hex parse_time (λ g. now g.world) describe f.auth_key f.auth_secret r g
          ⊎ ((message : Bytes) × (h r g ≡ (
            ok (sig_error_response 403 (codes "SignatureDoesNotMatch") message r.request.path),
            g,
          ))))
        (sym (wired.handler ∙ guarded_handler o key))
        (sigv4_middleware-Signed caller _ sha256 hmac hex parse_time (λ g. now g.world) describe
          f.auth_key f.auth_secret r g)
