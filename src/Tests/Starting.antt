-- ===== src/Tests/Starting.antt =====
-- The gateway as main starts it, over two backends in memory.
use mathlib.Core.List.{cons-ne-nil}
use overlay_s.Base.{
  Bytes, Option, [], arith, bytes_eq, codes, false, none, pos, refl, some, sym, trim_right, ℕ, ◌≡◌,
  ◌⊎◌,
}
use overlay_s.Base.Exec.{Exec, ok, pure}
use overlay_s.Base.Exec.Rules.{Keeping, Keeps}
use overlay_s.Overlay.Gateway.ReadOnly.{OnGateway}
use overlay_s.Overlay.Listing.{Gateway, OverlayStore}
use overlay_s.Remote.Backend.{ClientReads, ClientWrites}
use overlay_s.Remote.Calls.{ensure_bucket}
use overlay_s.Remote.Client.{Client}
use overlay_s.Remote.Ending.{ClientEnds}
use overlay_s.Remote.KeyMap.{new_mapping}
use overlay_s.Remote.Unchanged.{ClientListsKeep}
use overlay_s.Server.{Response}
use overlay_s.Server.Gate.{Handler, SignedAt, sig_error_response}
use overlay_s.Signature.Chunked.{ReadCall}
use overlay_s.Signature.Verify.{SignedRequest, header_value, to_lower}
use overlay_s.Startup.{
  ClientOptions, Flags, apply_options, client_options, default_flags, default_store_flags,
  first_state, handler_of, lacks_required, main, new_mapped_store, new_remote_store, new_s3_client,
  option_list, s3_server, serving, start_baseline, start_ensured, start_stores, stores_of,
  usage_exit,
}
use overlay_s.Startup.Guarded.{main-Signed}
use overlay_s.Startup.ReadOnly.{main-read_only}
use overlay_s.Startup.Termination.{main-answers}
use overlay_s.Tests.Backends.{backend, lower_backend}
use overlay_s.Tests.Endings.{client_ends}
use overlay_s.Tests.Layers.{decode, error_text}
use overlay_s.Tests.Requests.{get_request}
use overlay_s.Tests.Stores.{World, clock, world}

-- The endpoint chooses the backend; none is the baseline's.
abbrev connect : Unit {0} → ClientOptions → Client World
connect cfg options = elim options.base_endpoint [ none ↦ lower_backend | some e ↦ backend ]

abbrev load_config : Bytes → Bytes → Bytes → Exec World (Unit {0})
load_config region key secret = pure tt

abbrev flags : Flags
flags = record default_flags {
  overlay = record default_store_flags {
    endpoint = codes "http://overlay";
    access_key = codes "id";
    secret_key = codes "key";
  };
  overlay_bucket = codes "physical";
  overlay_prefix = codes "root/";
  auth_key = codes "client";
  auth_secret = codes "secret";
}

abbrev one_byte : ℕ → ReadCall
one_byte i = record { len = 1; give = 1; eager = false }

abbrev no_time : Bytes → Option ℕ
no_time s = none

abbrev wired_stores : OverlayStore World
wired_stores =
    stores_of load_config connect clock (λ s. s) (λ k s. s) (λ s. s) no_time one_byte decode
      error_text 3
      (record { client = backend; mapping = new_mapping (codes "physical") (codes "root/") })
      (record { client = lower_backend; mapping = record { bucket = []; prefix = [] } })

abbrev wired_handler : Handler (Gateway World)
wired_handler =
    handler_of load_config connect clock (λ s. s) (λ k s. s) (λ s. s) no_time one_byte decode
      error_text 3 flags wired_stores

main_serves :
    (main load_config connect clock
      (λ s. s)
      (λ k s. s)
      (λ s. s)
      no_time
      one_byte
      decode
      error_text
      3
      flags
      world).0
    ≡ ok (serving wired_stores wired_handler)
unfolding main lacks_required start_stores start_ensured start_baseline new_mapped_store
    new_remote_store new_s3_client ensure_bucket apply_options option_list new_mapping trim_right
main_serves = refl

-- Without an endpoint for the overlay, main ends before any call.
main_usage :
    main load_config connect clock
      (λ s. s)
      (λ k s. s)
      (λ s. s)
      no_time
      one_byte
      decode
      error_text
      3
      default_flags
      world
    ≡ (ok (usage_exit 2), world)
unfolding main lacks_required
main_usage = refl

abbrev unsigned : SignedRequest
unsigned = record { request = get_request; host = codes "localhost"; content_length = pos 0 }

main-Signed_example :
    SignedAt one_byte
      (s3_server load_config connect clock
        (λ s. s)
        (λ k s. s)
        (λ s. s)
        no_time
        one_byte
        decode
        error_text
        3
        wired_stores)
      (λ s. s)
      (λ k s. s)
      (λ s. s)
      no_time
      (λ g. clock g.world)
      error_text
      (codes "client")
      (codes "secret")
      unsigned
      (first_state world)
    ⊎ ((message : Bytes) × (wired_handler unsigned (first_state world) ≡ (
      ok (sig_error_response 403 (codes "SignatureDoesNotMatch") message unsigned.request.path),
      first_state world,
    )))
main-Signed_example =
    main-Signed load_config connect clock (λ s. s) (λ k s. s) (λ s. s) no_time one_byte decode
      error_text 3 flags (cons-ne-nil _ _) world wired_stores wired_handler main_serves unsigned
      (first_state world)

overlay_always_ends : (cfg : Unit {0}) → ClientEnds 2 (connect cfg (client_options flags.overlay))
unfolding apply_options option_list
overlay_always_ends cfg = client_ends (λ w. w.upper) (λ m w. record w { upper = m })

baseline_always_ends : (cfg : Unit {0}) → ClientEnds 2 (connect cfg (client_options flags.baseline))
unfolding apply_options option_list
baseline_always_ends cfg = client_ends (λ w. w.lower) (λ m w. record w { lower = m })

main-answers_example :
    (resp : Response) × ((wired_handler unsigned (first_state world)).0 ≡ ok resp)
unfolding header_value bytes_eq to_lower
main-answers_example =
    main-answers load_config connect clock (λ s. s) (λ k s. s) (λ s. s) no_time one_byte decode
      error_text 3 flags 2 (omega arith) overlay_always_ends baseline_always_ends world wired_stores
      wired_handler main_serves unsigned (first_state world)
      (record { plain_body = refl; decoded_body = λ e. absurd (cons-ne-nil _ _ (sym e)) })

-- The lower map has not changed.
abbrev Lower : World → Type 0
Lower w = w.lower ≡ world.lower

overlay_client-reads :
    (cfg : Unit {0}) → ClientReads (Keeping Lower) (connect cfg (client_options flags.overlay))
unfolding apply_options option_list
overlay_client-reads cfg = record {
  get_object = λ b k r. record { at = λ w h. h };
  head_object = λ b k. record { at = λ w h. h };
  list_objects = λ i. record { at = λ w h. h };
  list_buckets = record { at = λ w h. h };
  head_bucket = λ b. record { at = λ w h. h };
}

overlay_client-writes :
    (cfg : Unit {0}) → ClientWrites (Keeping Lower) (connect cfg (client_options flags.overlay))
unfolding apply_options option_list
overlay_client-writes cfg = record {
  put_object = λ b k bytes ct. record { at = λ w h. h };
  create_bucket = λ b. record { at = λ w h. h };
  create_upload = λ b k ct. record { at = λ w h. h };
  upload_part = λ b k id n bytes. record { at = λ w h. h };
  complete_upload = λ b k id parts. record { at = λ w h. h };
  abort_upload = λ b k id. record { at = λ w h. h };
}

overlay_client-lists :
    (cfg : Unit {0})
    → ClientListsKeep Lower clock
        (connect cfg (client_options flags.overlay))
        (new_mapping flags.overlay_bucket flags.overlay_prefix)
unfolding apply_options option_list
overlay_client-lists cfg = record {
  list_parts = λ b k id m. record { at = λ w h. h };
  list_uploads = λ b p k m. record { at = λ w h. h };
}

baseline_client-reads :
    (cfg : Unit {0}) → ClientReads (Keeping Lower) (connect cfg (client_options flags.baseline))
unfolding apply_options option_list
baseline_client-reads cfg = record {
  get_object = λ b k r. record { at = λ w h. h };
  head_object = λ b k. record { at = λ w h. h };
  list_objects = λ i. record { at = λ w h. h };
  list_buckets = record { at = λ w h. h };
  head_bucket = λ b. record { at = λ w h. h };
}

main-read_only_example :
    Keeps Lower (
      main load_config connect clock
        (λ s. s)
        (λ k s. s)
        (λ s. s)
        no_time
        one_byte
        decode
        error_text
        3
        flags)
    × ((w : World) (o : OverlayStore World) (h : Handler (Gateway World))
        → (main load_config connect clock
            (λ s. s)
            (λ k s. s)
            (λ s. s)
            no_time
            one_byte
            decode
            error_text
            3
            flags
            w).0
          ≡ ok (serving o h)
        → (r : SignedRequest) → Keeps (OnGateway Lower) (h r))
main-read_only_example =
    main-read_only load_config connect clock (λ s. s) (λ k s. s) (λ s. s) no_time one_byte decode
      error_text 3 flags Lower (λ region key secret. record { at = λ w h. h }) overlay_client-reads
      overlay_client-writes overlay_client-lists baseline_client-reads
