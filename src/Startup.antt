-- ===== src/Startup.antt =====
-- main.go, and the constructors of remote.go that it calls: from the flags to the handler that is
-- served. The AWS SDK's LoadDefaultConfig and NewFromConfig are parameters.
pub mod Wiring
pub mod Guarded
pub mod ReadOnly
pub mod Termination
use overlay_s.Base.{
  Bool, Bytes, List, Option, [], codes, false, if◌then◌else◌, is_nil, none, some, true, ℕ, ◌++◌,
  ◌||◌, ◌∷◌,
}
use overlay_s.Base.Exec.{Error, Exec, pure, try_call, ◌>>=◌}
use overlay_s.Overlay.Gateway.{overlay_store}
use overlay_s.Overlay.Listing.{Gateway, OverlayStore}
use overlay_s.Overlay.Sessions.{new_list_sessions}
use overlay_s.Remote.Calls.{ensure_bucket}
use overlay_s.Remote.Client.{Client}
use overlay_s.Remote.KeyMap.{Mapping, new_mapping}
use overlay_s.Remote.Mapped.{s3_store}
use overlay_s.Server.Answers.{Decoder}
use overlay_s.Server.Gate.{Handler, sigv4_middleware}
use overlay_s.Server.Handlers.{serve_http}
use overlay_s.Signature.Chunked.{ReadCall}
use overlay_s.Store.{Store}

-- The flags of main that reach the stores and the handler
pub record StoreFlags : Type 0 where
  pub endpoint : Bytes
  pub region : Bytes
  pub access_key : Bytes
  pub secret_key : Bytes
  pub path_style : Bool

pub record Flags : Type 0 where
  pub overlay : StoreFlags
  pub overlay_bucket : Bytes
  pub overlay_prefix : Bytes
  pub baseline : StoreFlags
  pub auth_key : Bytes
  pub auth_secret : Bytes

-- The flags' defaults
abbrev pub default_store_flags : StoreFlags
default_store_flags = record {
  endpoint = [];
  region = codes "us-east-1";
  access_key = [];
  secret_key = [];
  path_style = true;
}

abbrev pub default_flags : Flags
default_flags = record {
  overlay = default_store_flags;
  overlay_bucket = [];
  overlay_prefix = [];
  baseline = default_store_flags;
  auth_key = [];
  auth_secret = [];
}

-- The options of the SDK's client that newS3Client sets; its base endpoint is none where it is the
-- SDK's own.
pub record ClientOptions : Type 0 where
  pub base_endpoint : Option Bytes
  pub use_path_style : Bool
  pub checksums_when_required : Bool

abbrev pub default_options : ClientOptions
default_options = record {
  base_endpoint = none;
  use_path_style = false;
  checksums_when_required = false;
}

-- The list of options, which NewFromConfig applies in order
unfoldable pub option_list : Bytes → Bool → List (ClientOptions → ClientOptions)
option_list endpoint path_style =
    (if is_nil endpoint then [] else (λ o. record o { base_endpoint = some endpoint }) ∷ [])
    ++ ((if path_style then (λ o. record o { use_path_style = true }) ∷ [] else [])
        ++ (λ o. record o { checksums_when_required = true }) ∷ [])

unfoldable pub apply_options : List (ClientOptions → ClientOptions) → ClientOptions → ClientOptions
apply_options [] o = o
apply_options (f ∷ fs) o = apply_options fs (f o)

abbrev pub client_options : StoreFlags → ClientOptions
client_options f = apply_options (option_list f.endpoint f.path_style) default_options

-- s3Store
pub record S3Store (W : Type 0) : Type 0 where
  pub client : Client W
  pub mapping : Mapping

-- How main ends, or that it serves
pub data Started (W : Type 0) : Type 0 where
  usage_exit : ℕ → Started W
  fatal : Bytes → Error → Started W
  serving : OverlayStore W → Handler (Gateway W) → Started W

-- *overlayEndpoint == "" || …
unfoldable pub lacks_required : Flags → Bool
lacks_required f =
    is_nil f.overlay.endpoint
    || (is_nil f.overlay_bucket || (is_nil f.overlay.access_key || is_nil f.overlay.secret_key))

module _ {W C : Type 0} (load_default_config : Bytes → Bytes → Bytes → Exec W C)
    (new_from_config : C → ClientOptions → Client W) (now : W → ℕ) where
  unfoldable pub new_s3_client : StoreFlags → Exec W (Client W)
  new_s3_client f = load_default_config f.region f.access_key f.secret_key >>= λ cfg.
      pure (new_from_config cfg (client_options f))

  unfoldable pub new_remote_store : StoreFlags → Exec W (S3Store W)
  new_remote_store f = new_s3_client f >>= λ client.
      pure (record { client = client; mapping = record { bucket = []; prefix = [] } })

  unfoldable pub new_mapped_store : StoreFlags → Bytes → Bytes → Exec W (S3Store W)
  new_mapped_store f bucket prefix = new_s3_client f >>= λ client.
      pure (record { client = client; mapping = new_mapping bucket prefix })

  -- The hash, the HMAC, the hexadecimal digits and the time format that the signatures use, how a
  -- caller reads bodies, the XML decoder, err.Error(), and the pages that one call may fetch
  module _ (sha256 : Bytes → Bytes) (hmac : Bytes → Bytes → Bytes) (hex : Bytes → Bytes)
      (parse_time : Bytes → Option ℕ) (caller : ℕ → ReadCall) (decode : Decoder)
      (describe : Error → Bytes) (fuel : ℕ) where
    abbrev pub store_of : S3Store W → Store W
    store_of s = s3_store now s.client s.mapping fuel

    abbrev pub stores_of : S3Store W → S3Store W → OverlayStore W
    stores_of overlay baseline = record { overlay = store_of overlay; baseline = store_of baseline }

    -- newS3Server(newOverlayStore(overlay, baseline))
    unfoldable pub s3_server : OverlayStore W → Handler (Gateway W)
    s3_server o r =
        serve_http (λ g. now g.world) decode (overlay_store now fuel o) describe r.request

    -- if *authKey != ""
    unfoldable pub handler_of : Flags → OverlayStore W → Handler (Gateway W)
    handler_of f o =
        if is_nil f.auth_key
        then s3_server o
        else sigv4_middleware caller (s3_server o) sha256 hmac hex parse_time (λ g. now g.world)
            describe f.auth_key f.auth_secret

    abbrev pub serve_stores : Flags → S3Store W → S3Store W → Started W
    serve_stores f overlay baseline =
        serving (stores_of overlay baseline) (handler_of f (stores_of overlay baseline))

    -- main behind EnsureBucket
    unfoldable pub start_baseline : Flags → S3Store W → Exec W (Started W)
    start_baseline f overlay =
        try_call (new_remote_store f.baseline) (λ baseline. pure (serve_stores f overlay baseline))
          (λ e. pure (fatal (codes "create baseline store") e))

    -- main behind newMappedStore
    unfoldable pub start_ensured : Flags → S3Store W → Exec W (Started W)
    start_ensured f overlay =
        try_call (ensure_bucket now overlay.client overlay.mapping)
          (λ ensured. start_baseline f overlay)
          (λ e. pure (fatal (codes "ensure overlay bucket") e))

    -- main behind its check of the flags
    unfoldable pub start_stores : Flags → Exec W (Started W)
    start_stores f =
        try_call (new_mapped_store f.overlay f.overlay_bucket f.overlay_prefix) (start_ensured f)
          (λ e. pure (fatal (codes "create overlay store") e))

    unfoldable pub main : Flags → Exec W (Started W)
    main f = if lacks_required f then pure (usage_exit 2) else start_stores f

-- The sessions of newOverlayStore, and the world that main leaves
abbrev pub first_state : {W : Type 0} → W → Gateway W
first_state w = record { world = w; sessions = new_list_sessions }
