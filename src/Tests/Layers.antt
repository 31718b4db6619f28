-- ===== src/Tests/Layers.antt =====
-- The gateway over two stores in memory.
use mathlib.Core.List.{cons-ne-nil}
use overlay_s.Base.{
  Bytes, Lacks-of_contains_byte, [], bytes_eq, codes, contains_byte, false, index_byte, inl, none,
  refl, trim_prefix, ◌∷◌, ◌≡◌,
}
use overlay_s.Base.Exec.{Error}
use overlay_s.Base.Exec.Rules.{Keeps}
use overlay_s.Overlay.Gateway.{overlay_store}
use overlay_s.Overlay.Gateway.Layered.{
  Leaves, Reads, Writes, layered, layered-Reads, layered-Writes,
}
use overlay_s.Overlay.Gateway.ReadOnly.{OnGateway, ReadsKeep, WritesKeep}
use overlay_s.Overlay.Listing.{Gateway}
use overlay_s.Protocol.{
  Request, get_value, has, object_op, parse_s3_request, route, split_at, split_path,
}
use overlay_s.Server.{Response, quoted, text}
use overlay_s.Server.Answers.{Decoder}
use overlay_s.Server.Handlers.{
  check_match, check_none_match, completed, dispatch, handle_put_object, reads_body, serve_http,
}
use overlay_s.Server.ReadOnly.{serve_http-read_only}
use overlay_s.Server.Requests.{GetsObject, PutsObject}
use overlay_s.Server.RoundTrip.{HeadsLeave, serve_http-layered_put_get}
use overlay_s.Server.Served.{get_answer}
use overlay_s.Store.{Store}
use overlay_s.Tests.Stores.{Contents, World, clock, gateway, kept, reader, two_stores, world}

abbrev above : World → Contents
above w = w.upper

abbrev below : World → Contents
below w = w.lower

abbrev layers : Store (Gateway World)
layers = overlay_store clock 5 two_stores

upper-Reads : Reads kept two_stores.overlay above
upper-Reads = record { get = λ w b k r. refl; head = λ w b k. refl }

lower-Reads : Reads kept two_stores.baseline below
lower-Reads = record { get = λ w b k r. refl; head = λ w b k. refl }

upper-Leaves : Leaves two_stores.overlay below
upper-Leaves = record { get = λ w b k r. refl; head = λ w b k. refl; put = λ w b k body ct. refl }

upper-Writes : Writes kept two_stores.overlay above
upper-Writes = record { put = λ w b k body ct. (body.content, refl, λ b' k'. refl) }

layered-Reads_example : Reads kept layers (layered kept clock 5 two_stores above below)
layered-Reads_example =
    layered-Reads kept clock 5 two_stores above below upper-Reads lower-Reads upper-Leaves

layered-Writes_example : Writes kept layers (layered kept clock 5 two_stores above below)
layered-Writes_example =
    layered-Writes kept clock 5 two_stores above below upper-Writes upper-Leaves

-- The lower map has not changed.
abbrev Same : World → Type 0
Same w = w.lower ≡ world.lower

upper-ReadsKeep : ReadsKeep two_stores.overlay Same
upper-ReadsKeep = record {
  get = λ b k r. record { at = λ w h. h };
  head = λ b k. record { at = λ w h. h };
  list_page = λ b p. record { at = λ w h. h };
  list_buckets = record { at = λ w h. h };
  bucket_exists = λ b. record { at = λ w h. h };
}

lower-ReadsKeep : ReadsKeep two_stores.baseline Same
lower-ReadsKeep = record {
  get = λ b k r. record { at = λ w h. h };
  head = λ b k. record { at = λ w h. h };
  list_page = λ b p. record { at = λ w h. h };
  list_buckets = record { at = λ w h. h };
  bucket_exists = λ b. record { at = λ w h. h };
}

upper-WritesKeep : WritesKeep two_stores.overlay Same
upper-WritesKeep = record {
  put = λ b k body ct. record { at = λ w h. h };
  create_bucket = λ b. record { at = λ w h. h };
  initiate_multipart = λ b k ct. record { at = λ w h. h };
  upload_part = λ b k id n body. record { at = λ w h. h };
  complete_multipart = λ b k id parts. record { at = λ w h. h };
  abort_multipart = λ b k id. record { at = λ w h. h };
  list_parts = λ b k id. record { at = λ w h. h };
  list_multipart_uploads = λ b. record { at = λ w h. h };
}

abbrev pub decode : Decoder
decode = record { decoded = λ r. inl (codes "EOF"); before_panic = λ r. none }

abbrev pub error_text : Error → Bytes
error_text e = codes "error"

abbrev put_request : Request
put_request = record {
  method = codes "PUT";
  path = codes "/media/greeting";
  query = [];
  headers = [];
  body = reader (codes "bye");
  panics = false;
}

serve_http-read_only_example :
    Keeps (OnGateway Same) (serve_http (λ g. clock g.world) decode layers error_text put_request)
serve_http-read_only_example =
    serve_http-read_only Same clock 5 two_stores upper-ReadsKeep upper-WritesKeep lower-ReadsKeep
      decode error_text put_request

abbrev get_note : Request
get_note = record {
  method = codes "GET";
  path = codes "/media/greeting";
  query = [];
  headers = [];
  body = reader [];
  panics = false;
}

heads_leave : HeadsLeave kept clock 5 two_stores above below decode error_text
heads_leave = record {
  overlay_upper = λ w b k. refl;
  overlay_lower = λ w b k. refl;
  baseline_upper = λ w b k. refl;
  baseline_lower = λ w b k. refl;
}

put_greeting : PutsObject put_request (codes "media") (codes "greeting")
unfolding has get_value
put_greeting = record { method = refl; path = refl; no_part = refl; no_source = refl }

get_greeting : GetsObject get_note (codes "media") (codes "greeting")
unfolding has
get_greeting = record { method = refl; path = refl; no_upload = refl }

abbrev put_response : Response
put_response = record {
  status = 200;
  headers = (codes "ETag", text (quoted (codes "tag"))) ∷ [];
  body = [];
}

serve_http-layered_put_get_example :
    (v : Bytes) × (v ≡ codes "bye")
    × ((serve_http
          (λ g. clock g.world)
          decode
          layers
          error_text
          get_note
          (serve_http (λ g. clock g.world) decode layers error_text put_request gateway).1).0
        ≡ completed error_text (
            get_answer kept
              (layered kept clock 5 two_stores above below)
              (λ g. clock g.world)
              decode
              layers
              (layered-Reads kept clock 5 two_stores above below upper-Reads lower-Reads
                upper-Leaves)
              (codes "greeting")
              (get_value get_note.headers (codes "Range"))
              v))
unfolding contains_byte serve_http completed dispatch parse_s3_request route split_path split_at
    index_byte trim_prefix object_op bytes_eq has get_value handle_put_object check_none_match
    check_match overlay_store reads_body
serve_http-layered_put_get_example =
    serve_http-layered_put_get kept clock 5 two_stores above below decode error_text upper-Reads
      lower-Reads upper-Leaves upper-Writes heads_leave gateway put_request get_note (codes "media")
      (codes "greeting") (cons-ne-nil _ _) (Lacks-of_contains_byte (codes "media") b'/' refl)
      (cons-ne-nil _ _) put_greeting get_greeting put_response refl refl
