-- ===== src/Startup/Wiring.antt =====
-- main.go: how the gateway that is served is put together from the flags.
use overlay_s.Base.{Bool-cases, Bytes, Option, [], ap, arith, inl, inr, refl, sym, ℕ, ◌∙◌, ◌≡◌}
use overlay_s.Base.Exec.{Error, Exec, Outcome, continue, err, handle, no_return, ok, pure, try_call}
use overlay_s.Overlay.Listing.{Gateway, OverlayStore}
use overlay_s.Remote.Calls.{ensure_bucket}
use overlay_s.Remote.Client.{Client}
use overlay_s.Remote.KeyMap.{new_mapping}
use overlay_s.Server.Answers.{Decoder}
use overlay_s.Server.Gate.{Handler}
use overlay_s.Signature.Chunked.{ReadCall}
use overlay_s.Startup.{
  ClientOptions, Flags, S3Store, Started, client_options, fatal, handler_of, lacks_required, main,
  new_mapped_store, new_remote_store, new_s3_client, serving, start_baseline, start_ensured,
  start_stores, stores_of, usage_exit,
}

-- Where a claim on outcomes holds behind a call
handle-Holds :
    {W A B : Type 0} (P : Outcome B → Type 0) (o : Outcome A) (f : A → Exec W B)
    (g : Error → Exec W B) (w : W)
    → P no_return
    → ((a : A) → o ≡ ok a → P (f a w).0)
    → ((e : Error) → P (g e w).0)
    → P (handle o f g w).0
handle-Holds P (ok a) f g w h hf hg = hf a refl
handle-Holds P (err e) f g w h hf hg = hg e
handle-Holds P no_return f g w h hf hg = h

-- Two calls that change what the first one gave
changed_twice-ok :
    {W A B D : Type 0} (o : Outcome A) (g : A → B) (k : B → D) (w : W) (d : D)
    → (continue
        (continue o (λ a. pure (g a)) w).0
        (λ b. pure (k b))
        (continue o (λ a. pure (g a)) w).1).0
      ≡ ok d
    → (a : A) × (d ≡ k (g a))
changed_twice-ok {D = D} (ok a) g k w d h = (a, ok_inside h)
  where
    ok_inside : {x y : D} → ok x ≡ ok y → y ≡ x
    ok_inside e = cc
changed_twice-ok (err e) g k w d h = absurd (ground arith)
changed_twice-ok no_return g k w d h = absurd (ground arith)

module _ {W C : Type 0} (load_default_config : Bytes → Bytes → Bytes → Exec W C)
    (new_from_config : C → ClientOptions → Client W) (now : W → ℕ) (sha256 : Bytes → Bytes)
    (hmac : Bytes → Bytes → Bytes) (hex : Bytes → Bytes) (parse_time : Bytes → Option ℕ)
    (caller : ℕ → ReadCall) (decode : Decoder) (describe : Error → Bytes) (fuel : ℕ)
    (f : Flags) where
  -- The overlay's and the baseline's store, as the SDK's configurations give them
  abbrev pub overlay_of : C → S3Store W
  overlay_of cfg = record {
    client = new_from_config cfg (client_options f.overlay);
    mapping = new_mapping f.overlay_bucket f.overlay_prefix;
  }

  abbrev pub baseline_of : C → S3Store W
  baseline_of cfg = record {
    client = new_from_config cfg (client_options f.baseline);
    mapping = record { bucket = []; prefix = [] };
  }

  -- The stores are the overlay's, mapped into its bucket, and the baseline's as it is, and the handler
  -- is the one of the flags over both.
  pub record Wired (o : OverlayStore W) (h : Handler (Gateway W)) : Type 0 where
    pub overlay_config : C
    pub baseline_config : C
    pub stores :
        o
        ≡ stores_of load_default_config new_from_config now sha256 hmac hex parse_time caller decode
            describe fuel
            (overlay_of overlay_config)
            (baseline_of baseline_config)
    pub handler :
        h
        ≡ handler_of load_default_config new_from_config now sha256 hmac hex parse_time caller
            decode describe fuel f o

  -- If main serves, it serves what is wired so.
  pub record Serves (out : Outcome (Started W)) : Type 0 where
    pub wired : (o : OverlayStore W) (h : Handler (Gateway W)) → out ≡ ok (serving o h) → Wired o h

  serving-Serves :
      (o : OverlayStore W) (h : Handler (Gateway W)) → Wired o h → Serves (ok (serving o h))
  serving-Serves o h k = record {
    wired = λ o' h' e. record {
      overlay_config = k.overlay_config;
      baseline_config = k.baseline_config;
      stores = stores_inside e ∙ k.stores;
      handler = handler_inside e ∙ k.handler ∙ ap handler' (sym (stores_inside e));
    };
  }
    where
      stores_inside :
          {x x' : OverlayStore W} {y y' : Handler (Gateway W)}
          → ok (serving x y) ≡ ok (serving x' y')
          → x' ≡ x
      stores_inside e = cc

      handler_inside :
          {x x' : OverlayStore W} {y y' : Handler (Gateway W)}
          → ok (serving x y) ≡ ok (serving x' y')
          → y' ≡ y
      handler_inside e = cc

      handler' : OverlayStore W → Handler (Gateway W)
      handler' o =
          handler_of load_default_config new_from_config now sha256 hmac hex parse_time caller
            decode describe fuel f o

  fatal-Serves : (message : Bytes) (e : Error) → Serves (ok (fatal message e))
  fatal-Serves message e = record { wired = λ o h same. absurd (ground arith) }

  usage-Serves : (n : ℕ) → Serves (ok (usage_exit n))
  usage-Serves n = record { wired = λ o h same. absurd (ground arith) }

  no_return-Serves : Serves no_return
  no_return-Serves = record { wired = λ o h same. absurd (ground arith) }

  pub mapped_store-ok :
      (w : W) (s : S3Store W)
      → (new_mapped_store load_default_config new_from_config now f.overlay f.overlay_bucket
          f.overlay_prefix w).0
        ≡ ok s
      → (cfg : C) × (s ≡ overlay_of cfg)
  unfolding new_mapped_store new_s3_client
  mapped_store-ok w s h = changed_twice-ok _ _ _ _ s h

  remote_store-ok :
      (w : W) (s : S3Store W)
      → (new_remote_store load_default_config new_from_config now f.baseline w).0 ≡ ok s
      → (cfg : C) × (s ≡ baseline_of cfg)
  unfolding new_remote_store new_s3_client
  remote_store-ok w s h = changed_twice-ok _ _ _ _ s h

  abbrev pub started : Exec W (Started W)
  started =
      main load_default_config new_from_config now sha256 hmac hex parse_time caller decode describe
        fuel f

  abbrev both : S3Store W → S3Store W → OverlayStore W
  both =
      stores_of load_default_config new_from_config now sha256 hmac hex parse_time caller decode
        describe fuel

  made_both :
      (overlay baseline : S3Store W) (w w' : W)
      → (new_mapped_store load_default_config new_from_config now f.overlay f.overlay_bucket
          f.overlay_prefix w).0
        ≡ ok overlay
      → (new_remote_store load_default_config new_from_config now f.baseline w').0 ≡ ok baseline
      → Wired (both overlay baseline) (
          handler_of load_default_config new_from_config now sha256 hmac hex parse_time caller
            decode describe fuel f
            (both overlay baseline))
  made_both overlay baseline w w' made made' =
      let (cfg, is) = mapped_store-ok w overlay made in
      let (cfg', is') = remote_store-ok w' baseline made' in
      record { overlay_config = cfg; baseline_config = cfg'; stores = same is is'; handler = refl }
    where
      same : {x x' y y' : S3Store W} → x ≡ x' → y ≡ y' → both x y ≡ both x' y'
      same e e' = rw (e, e') refl

  record ServesFrom (m : Exec W (Started W)) : Type 0 where
    from : (w : W) → Serves (m w).0

  try-ServesFrom :
      {A : Type 0} (m : Exec W A) (next_step : A → Exec W (Started W))
      (failed_step : Error → Exec W (Started W))
      → ((w : W) (a : A) → (m w).0 ≡ ok a → ServesFrom (next_step a))
      → ((e : Error) → ServesFrom (failed_step e))
      → ServesFrom (try_call m next_step failed_step)
  try-ServesFrom m next_step failed_step hf hg = record {
    from = λ w.
        handle-Holds Serves (m w).0 next_step failed_step (m w).1 no_return-Serves
          (λ a e. (hf w a e).from (m w).1) (λ e. (hg e).from (m w).1);
  }

  start_baseline-Serves :
      (overlay : S3Store W) (w : W)
      → (new_mapped_store load_default_config new_from_config now f.overlay f.overlay_bucket
          f.overlay_prefix w).0
        ≡ ok overlay
      → ServesFrom (
          start_baseline load_default_config new_from_config now sha256 hmac hex parse_time caller
            decode describe fuel f overlay)
  unfolding start_baseline
  start_baseline-Serves overlay w made =
      try-ServesFrom (new_remote_store load_default_config new_from_config now f.baseline) _ _
        (λ w' baseline made'. record {
          from = λ last. serving-Serves _ _ (made_both overlay baseline w w' made made');
        })
        (λ e. record { from = λ last. fatal-Serves _ e })

  start_ensured-Serves :
      (overlay : S3Store W) (w : W)
      → (new_mapped_store load_default_config new_from_config now f.overlay f.overlay_bucket
          f.overlay_prefix w).0
        ≡ ok overlay
      → ServesFrom (
          start_ensured load_default_config new_from_config now sha256 hmac hex parse_time caller
            decode describe fuel f overlay)
  unfolding start_ensured
  start_ensured-Serves overlay w made =
      try-ServesFrom (ensure_bucket now overlay.client overlay.mapping) _ _
        (λ w' ensured there. start_baseline-Serves overlay w made)
        (λ e. record { from = λ last. fatal-Serves _ e })

  start_stores-Serves : ServesFrom (
      start_stores load_default_config new_from_config now sha256 hmac hex parse_time caller decode
        describe fuel f)
  unfolding start_stores
  start_stores-Serves =
      try-ServesFrom
        (new_mapped_store load_default_config new_from_config now f.overlay f.overlay_bucket
          f.overlay_prefix)
        _ _ (λ w overlay made. start_ensured-Serves overlay w made)
        (λ e. record { from = λ last. fatal-Serves _ e })

  -- Where main serves, it serves the overlay's store, mapped into its bucket and prefix, over the
  -- baseline's as it is, by the handler that the flags choose.
  pub main-Serves : (w : W) → Serves (started w).0
  unfolding main
  main-Serves w = elim (Bool-cases (lacks_required f)) [
    | inl lacking ↦ rw lacking (usage-Serves 2)
    | inr complete ↦ rw complete (start_stores-Serves.from w)
  ]
