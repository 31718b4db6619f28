-- ===== src/Startup/ReadOnly.antt =====
-- main.go: what the gateway, once started, can change.
use mathlib.Core.Path.{subst}
use overlay_s.Base.{Bool-cases, Bytes, Option, inl, inr, is_nil, refl, sym, ℕ, ◌≡◌}
use overlay_s.Base.Exec.{Error, Exec, Outcome, err, handle, no_return, ok}
use overlay_s.Base.Exec.Rules.{
  Follows, Keeping, Keeping-Follows, Keeps, bind-Follows, if-Follows, pure-Follows, try-Follows,
}
use overlay_s.Overlay.Gateway.ReadOnly.{OnGateway, ReadsKeep, WritesKeep}
use overlay_s.Overlay.Listing.{Gateway, OverlayStore}
use overlay_s.Remote.Backend.{ClientReads, ClientWrites, ensure_bucket-calls}
use overlay_s.Remote.Client.{Client}
use overlay_s.Remote.KeyMap.{new_mapping}
use overlay_s.Remote.Unchanged.{ClientListsKeep, s3_store-ReadsKeep, s3_store-WritesKeep}
use overlay_s.Server.Answers.{Decoder}
use overlay_s.Server.Gate.{Handler, admitted-Follows, sigv4_middleware}
use overlay_s.Server.ReadOnly.{serve_http-read_only}
use overlay_s.Signature.Chunked.{ReadCall}
use overlay_s.Signature.Verify.{SignedRequest}
use overlay_s.Startup.{
  ClientOptions, Flags, S3Store, client_options, handler_of, lacks_required, main, new_mapped_store,
  new_remote_store, new_s3_client, s3_server, serving, start_baseline, start_ensured, start_stores,
}
use overlay_s.Startup.Wiring.{main-Serves, mapped_store-ok}

-- A call behind which only the results that it can have matter
kept_behind :
    {W A B : Type 0} (P : W → Type 0) (o : Outcome A) (next_step : A → Exec W B)
    (failed_step : Error → Exec W B) (w : W)
    → P w
    → ((a : A) → o ≡ ok a → Keeps P (next_step a))
    → ((e : Error) → Keeps P (failed_step e))
    → P (handle o next_step failed_step w).1
kept_behind P (ok a) next_step failed_step w h hf hg = (hf a refl).at w h
kept_behind P (err e) next_step failed_step w h hf hg = (hg e).at w h
kept_behind P no_return next_step failed_step w h hf hg = h

module _ {W C : Type 0} (load_default_config : Bytes → Bytes → Bytes → Exec W C)
    (new_from_config : C → ClientOptions → Client W) (now : W → ℕ) (sha256 : Bytes → Bytes)
    (hmac : Bytes → Bytes → Bytes) (hex : Bytes → Bytes) (parse_time : Bytes → Option ℕ)
    (caller : ℕ → ReadCall) (decode : Decoder) (describe : Error → Bytes) (fuel : ℕ)
    (f : Flags) where
  module _ (P : W → Type 0)
      (loads : (region key secret : Bytes) → Keeps P (load_default_config region key secret))
      (overlay_reads : (cfg : C)
        → ClientReads (Keeping P) (new_from_config cfg (client_options f.overlay)))
      (overlay_writes : (cfg : C)
        → ClientWrites (Keeping P) (new_from_config cfg (client_options f.overlay))) where
    keeping : Follows (Keeping P)
    keeping = Keeping-Follows P

    mapped_store-Keeps : Keeps P (
        new_mapped_store load_default_config new_from_config now f.overlay f.overlay_bucket
          f.overlay_prefix)
    unfolding new_mapped_store new_s3_client
    mapped_store-Keeps =
        bind-Follows keeping _ _
          (bind-Follows keeping _ _ (loads _ _ _) (λ cfg. pure-Follows keeping _))
          (λ client. pure-Follows keeping _)

    remote_store-Keeps :
        Keeps P (new_remote_store load_default_config new_from_config now f.baseline)
    unfolding new_remote_store new_s3_client
    remote_store-Keeps =
        bind-Follows keeping _ _
          (bind-Follows keeping _ _ (loads _ _ _) (λ cfg. pure-Follows keeping _))
          (λ client. pure-Follows keeping _)

    ensured_Keeps :
        (overlay : S3Store W) (w : W)
        → (new_mapped_store load_default_config new_from_config now f.overlay f.overlay_bucket
            f.overlay_prefix w).0
          ≡ ok overlay
        → Keeps P (
            start_ensured load_default_config new_from_config now sha256 hmac hex parse_time caller
              decode describe fuel f overlay)
    unfolding start_ensured start_baseline
    ensured_Keeps overlay w made =
        let (cfg, is) =
          mapped_store-ok load_default_config new_from_config now sha256 hmac hex parse_time caller
            decode describe fuel f w overlay made in
        try-Follows keeping _ _ _
          (ensure_bucket-calls keeping now overlay.client overlay.mapping fuel (λ b.
            subst (λ s. Keeps P (s.client.create_bucket b)) (sym is)
              ((overlay_writes cfg).create_bucket b)))
          (λ ensured.
            try-Follows keeping _ _ _ remote_store-Keeps (λ baseline. pure-Follows keeping _)
              (λ e. pure-Follows keeping _))
          (λ e. pure-Follows keeping _)

    stores_Keep : Keeps P (
        start_stores load_default_config new_from_config now sha256 hmac hex parse_time caller
          decode describe fuel f)
    unfolding start_stores
    stores_Keep = record {
      at = λ w h.
          kept_behind P
            (new_mapped_store load_default_config new_from_config now f.overlay f.overlay_bucket
              f.overlay_prefix w).0
            _ _ _ (mapped_store-Keeps.at w h) (λ overlay made. ensured_Keeps overlay w made)
            (λ e. pure-Follows keeping _);
    }

    main-Keeps : Keeps P (
        main load_default_config new_from_config now sha256 hmac hex parse_time caller decode
          describe fuel f)
    unfolding main
    main-Keeps = if-Follows keeping (lacks_required f) _ _ (pure-Follows keeping _) stores_Keep

    module _
        (overlay_lists : (cfg : C)
          → ClientListsKeep P now
              (new_from_config cfg (client_options f.overlay))
              (new_mapping f.overlay_bucket f.overlay_prefix))
        (baseline_reads : (cfg : C)
          → ClientReads (Keeping P) (new_from_config cfg (client_options f.baseline))) where
      server-Keeps :
          (o : OverlayStore W)
          → ReadsKeep o.overlay P
          → WritesKeep o.overlay P
          → ReadsKeep o.baseline P
          → (r : SignedRequest)
          → Keeps (OnGateway P) (
              s3_server load_default_config new_from_config now sha256 hmac hex parse_time caller
                decode describe fuel o r)
      unfolding s3_server
      server-Keeps o reads writes bs r =
          serve_http-read_only P now fuel o reads writes bs decode describe r.request

      handler-Keeps :
          (o : OverlayStore W)
          → ((r : SignedRequest)
              → Keeps (OnGateway P) (
                  s3_server load_default_config new_from_config now sha256 hmac hex parse_time
                    caller decode describe fuel o r))
          → (r : SignedRequest)
          → Keeps (OnGateway P) (
              handler_of load_default_config new_from_config now sha256 hmac hex parse_time caller
                decode describe fuel f o r)
      unfolding handler_of sigv4_middleware
      handler-Keeps o h r = elim (Bool-cases (is_nil f.auth_key)) [
        | inl open_to_all ↦ rw open_to_all (h r)
        | inr guarded ↦ rw guarded (record {
          at = λ g k.
              (admitted-Follows caller _ (Keeping (OnGateway P)) (Keeping-Follows (OnGateway P)) h r
                  _).at
                g k;
        })
      ]

      served-Keeps :
          (w : W) (o : OverlayStore W) (h : Handler (Gateway W))
          → (main load_default_config new_from_config now sha256 hmac hex parse_time caller decode
              describe fuel f w).0
            ≡ ok (serving o h)
          → (r : SignedRequest) → Keeps (OnGateway P) (h r)
      served-Keeps w o h e r =
          let wired =
            (main-Serves load_default_config new_from_config now sha256 hmac hex parse_time caller
                decode describe fuel f w).wired
              o h e in
          subst (λ h. Keeps (OnGateway P) (h r)) (sym wired.handler)
            (handler-Keeps o
              (server-Keeps o
                (subst (λ o. ReadsKeep o.overlay P) (sym wired.stores)
                  (s3_store-ReadsKeep P now _ _ fuel (overlay_reads wired.overlay_config)))
                (subst (λ o. WritesKeep o.overlay P) (sym wired.stores)
                  (s3_store-WritesKeep P now _ _ fuel (overlay_writes wired.overlay_config)
                    (overlay_lists wired.overlay_config)))
                (subst (λ o. ReadsKeep o.baseline P) (sym wired.stores)
                  (s3_store-ReadsKeep P now _ _ fuel (baseline_reads wired.baseline_config))))
              r)

      -- The gateway never writes to the baseline: whatever the calls of the overlay's client and those
      -- calls of the baseline's client that read keep, main keeps while it starts, and the handler
      -- that it serves keeps, whatever it is asked. Loading the SDK's configuration must keep it too;
      -- of the baseline's client, the calls that write are not among the conditions.
      pub main-read_only :
          Keeps P (
            main load_default_config new_from_config now sha256 hmac hex parse_time caller decode
              describe fuel f)
          × ((w : W) (o : OverlayStore W) (h : Handler (Gateway W))
              → (main load_default_config new_from_config now sha256 hmac hex parse_time caller
                  decode describe fuel f w).0
                ≡ ok (serving o h)
              → (r : SignedRequest) → Keeps (OnGateway P) (h r))
      main-read_only = (main-Keeps, served-Keeps)
