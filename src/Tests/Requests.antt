-- ===== src/Tests/Requests.antt =====
-- Requests over one store in memory.
use mathlib.Core.List.{cons-ne-nil}
use overlay_s.Base.{
  Bytes, Lacks-of_contains_byte, [], bytes_eq, codes, contains_byte, false, inl, refl, ◌∷◌, ◌≡◌,
}
use overlay_s.Base.Exec.{err}
use overlay_s.Base.Exec.Rules.{Keeps}
use overlay_s.Overlay.Gateway.Layered.{Reads, Writes}
use overlay_s.Overlay.Gateway.ReadOnly.{ReadsKeep}
use overlay_s.Protocol.{Request, get_value, parse_s3_request}
use overlay_s.Protocol.Routes.{Names, parse_s3_request-object_path}
use overlay_s.Server.{Answer, bare_answer, content_type_or_default, quoted, text}
use overlay_s.Server.Answers.{precondition_failed}
use overlay_s.Server.Handlers.{
  check_match, check_none_match, handle_get_object, handle_put_object, reads_body, serve_http,
}
use overlay_s.Server.Safe.{UploadListsKeep, serve_http-safe}
use overlay_s.Server.Served.{found, get_answer, handle_get_object_lem, handle_put_object-none_match}
use overlay_s.Server.Written.{Put, handle_put_object-Put, handle_put_object-handle_get_object}
use overlay_s.Store.{Store}
use overlay_s.Tests.Layers.{decode, error_text}
use overlay_s.Tests.Stores.{Contents, World, baseline_page, clock, kept, memory, reader, world}

abbrev pub get_request : Request
get_request = record {
  method = codes "GET";
  path = codes "/media/a/b";
  query = [];
  headers = (codes "Range", codes "bytes=1-2") ∷ [];
  body = reader [];
  panics = false;
}

parse_s3_request-object_path_example :
    Names (parse_s3_request get_request) (codes "media") (codes "a/b")
unfolding contains_byte
parse_s3_request-object_path_example =
    parse_s3_request-object_path get_request (codes "media") (codes "a/b") (cons-ne-nil _ _)
      (Lacks-of_contains_byte (codes "media") b'/' refl) refl

abbrev here : World → Contents
here w = w.lower

abbrev store : Store World
store = memory here (λ m w. record w { lower = m }) (λ token. baseline_page)

store-Reads : Reads kept store here
store-Reads = record { get = λ w b k r. refl; head = λ w b k. refl }

handle_get_object_example :
    (handle_get_object clock decode store get_request (codes "media") (codes "greeting") world).0
    ≡ found kept here clock decode store store-Reads
        (here world (codes "media") (codes "greeting"))
        (get_answer kept here clock decode store store-Reads (codes "greeting") (codes "bytes=1-2"))
unfolding get_value bytes_eq
handle_get_object_example =
    handle_get_object_lem kept here clock decode store store-Reads (λ w b k. refl) world get_request
      (codes "media") (codes "greeting")

abbrev guarded_put : Request
guarded_put = record {
  method = codes "PUT";
  path = codes "/media/greeting";
  query = [];
  headers = (codes "If-None-Match", codes "*") ∷ [];
  body = reader (codes "bye");
  panics = false;
}

handle_put_object-none_match_example :
    ((handle_put_object clock decode store guarded_put (codes "media") (codes "greeting") world).0
      ≡ err (precondition_failed (codes "object already exists")))
    × (here
          (handle_put_object clock decode store guarded_put
            (codes "media")
            (codes "greeting")
            world).1
        ≡ here world)
unfolding get_value bytes_eq
handle_put_object-none_match_example =
    handle_put_object-none_match kept here clock decode store store-Reads (λ w b k. refl) world
      guarded_put (codes "media") (codes "greeting") (codes "hello") refl refl

-- The store's map has not changed.
abbrev Kept : World → Type 0
Kept w = w.lower ≡ world.lower

store-ReadsKeep : ReadsKeep store Kept
store-ReadsKeep = record {
  get = λ b k r. record { at = λ w h. h };
  head = λ b k. record { at = λ w h. h };
  list_page = λ b p. record { at = λ w h. h };
  list_buckets = record { at = λ w h. h };
  bucket_exists = λ b. record { at = λ w h. h };
}

store-UploadListsKeep : UploadListsKeep Kept clock decode store
store-UploadListsKeep = record {
  list_parts = λ b k id. record { at = λ w h. h };
  list_multipart_uploads = λ b. record { at = λ w h. h };
}

serve_http-safe_example : Keeps Kept (serve_http clock decode store error_text get_request)
serve_http-safe_example =
    serve_http-safe Kept clock decode store store-ReadsKeep store-UploadListsKeep error_text
      get_request (inl refl)

store-Writes : Writes kept store here
store-Writes = record { put = λ w b k body ct. (body.content, refl, λ b' k'. refl) }

abbrev plain_put : Request
plain_put = record {
  method = codes "PUT";
  path = codes "/media/note";
  query = [];
  headers = [];
  body = reader (codes "bye");
  panics = false;
}

handle_put_object-Put_example :
    Put kept here clock decode store
      (λ w b k. refl)
      (here world)
      (codes "media")
      (codes "note")
      plain_put.body
      (content_type_or_default (get_value plain_put.headers (codes "Content-Type")))
      (handle_put_object clock decode store plain_put (codes "media") (codes "note") world)
handle_put_object-Put_example =
    handle_put_object-Put kept here clock decode store (λ w b k. refl) store-Writes world plain_put
      (codes "media") (codes "note")

abbrev put_answer : Answer
put_answer = bare_answer 200 ((codes "ETag", text (quoted (codes "tag"))) ∷ [])

handle_put_object-handle_get_object_example :
    (v : Bytes) × (v ≡ codes "bye")
    × ((handle_get_object clock decode store get_request
          (codes "media")
          (codes "note")
          (handle_put_object clock decode store plain_put (codes "media") (codes "note") world).1).0
        ≡ get_answer kept here clock decode store store-Reads
            (codes "note")
            (get_value get_request.headers (codes "Range"))
            v)
unfolding handle_put_object check_none_match check_match get_value bytes_eq reads_body
handle_put_object-handle_get_object_example =
    handle_put_object-handle_get_object kept here clock decode store (λ w b k. refl) store-Reads
      store-Writes world plain_put get_request (codes "media") (codes "note") put_answer refl
