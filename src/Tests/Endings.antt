-- ===== src/Tests/Endings.antt =====
-- Calls that come to an end, over the backend in memory.
use mathlib.Core.Bool.{false≢true}
use mathlib.Core.Path.{subst}
use overlay_s.Base.{
  Bytes, Option, [], ap, arith, codes, cut, none, refl, some, suc, true, ℕ, ◌∙◌, ◌≡◌, ◌≢◌,
}
use overlay_s.Base.Exec.{no_return, ok}
use overlay_s.Overlay.Gateway.{overlay_store}
use overlay_s.Overlay.Listing.{OverlayStore}
use overlay_s.Overlay.Sessions.{new_list_sessions}
use overlay_s.Remote.Client.{Client, ListObjectsInput, ListObjectsOutput, ListPartsOutput, to_bool}
use overlay_s.Remote.Ending.{ClientEnds, s3_store-StoreEnds}
use overlay_s.Remote.Loops.{
  ObjectPages, PartsRunOut, UploadsRunOut, object_pages, parts_run_out, uploads_run_out,
}
use overlay_s.Remote.Mapped.{s3_store}
use overlay_s.Server.{Response}
use overlay_s.Server.Handlers.{serve_http}
use overlay_s.Server.Termination.{serve_http-overlay_store}
use overlay_s.Tests.Backends.{
  backend, client_of, output, physical, root_page, sent_object, shown_object,
}
use overlay_s.Tests.Layers.{decode, error_text}
use overlay_s.Tests.Requests.{get_request}
use overlay_s.Tests.Stores.{Contents, World, clock, world}

ok_inside : {x y : ListObjectsOutput} → ok x ≡ ok y → x ≡ y
ok_inside e = cc

parts_inside : {x y : ListPartsOutput} → ok x ≡ ok y → x ≡ y
parts_inside e = cc

uncut : (resp : ListObjectsOutput) → ok root_page ≡ ok resp → to_bool resp.is_truncated ≢ true
uncut resp e cut = false≢true (ap (λ r. to_bool r.is_truncated) (ok_inside e) ∙ cut)

module _ (held : World → Contents) (with_held : Contents → World → World) where
  abbrev client : Client World
  client = client_of held with_held

  objects_end : (i : ListObjectsInput) → ObjectPages client 2 i
  objects_end i =
      object_pages (λ w e. ground arith) (λ w resp e cut. absurd (uncut resp e cut))
        (λ w resp token e cut named. absurd (uncut resp e cut))

  last_part : (b k id : Bytes) (n : ℕ) (m : Bytes) → PartsRunOut client b k id (suc n) (some m)
  last_part b k id n m =
      parts_run_out (λ w e. ground arith)
        (λ w resp e cut.
          absurd (false≢true (ap (λ r. to_bool r.is_truncated) (parts_inside e) ∙ cut)))

  parts_end : (b k id : Bytes) (m : Option Bytes) → PartsRunOut client b k id 2 m
  parts_end b k id (some m) = last_part b k id 1 m
  parts_end b k id none =
      parts_run_out (λ w e. ground arith)
        (λ w resp e cut.
          subst (PartsRunOut client b k id 1) (ap (λ r. r.next_part_number_marker) (parts_inside e))
            (last_part b k id 0 (codes "1")))

  uploads_end : (b prefix : Bytes) (k m : Option Bytes) → UploadsRunOut client b prefix 2 k m
  uploads_end b prefix k m =
      uploads_run_out (λ w e. ground arith) (λ w resp e cut. absurd (ground arith))

  pub client_ends : ClientEnds 2 client
  client_ends = record {
    answered = record {
      get_object = λ b k r. record { ends = λ w. sent (held w b k) };
      head_object = λ b k. record { ends = λ w. shown (held w b k) };
      list_objects = λ i. record { ends = λ w e. ground arith };
      list_buckets = record { ends = λ w e. ground arith };
      head_bucket = λ b. record { ends = λ w e. ground arith };
    };
    written = record {
      put_object = λ b k bytes ct. record { ends = λ w e. ground arith };
      create_bucket = λ b. record { ends = λ w e. ground arith };
      create_upload = λ b k ct. record { ends = λ w e. ground arith };
      upload_part = λ b k id n bytes. record { ends = λ w e. ground arith };
      complete_upload = λ b k id parts. record { ends = λ w e. ground arith };
      abort_upload = λ b k id. record { ends = λ w e. ground arith };
    };
    list_objects = objects_end;
    list_parts = parts_end;
    list_uploads = uploads_end;
  }
    where
      sent : (o : Option Bytes) → sent_object output o ≢ no_return
      sent none e = ground arith
      sent (some v) e = ground arith

      shown : (o : Option Bytes) → shown_object o ≢ no_return
      shown none e = ground arith
      shown (some v) e = ground arith

abbrev served : OverlayStore World
served = record {
  overlay = s3_store clock backend physical 3;
  baseline = s3_store clock backend (record { bucket = []; prefix = [] }) 3;
}

serve_http-overlay_store_example :
    (resp : Response) × ((serve_http
        (λ g. clock g.world)
        decode
        (overlay_store clock 3 served)
        error_text
        get_request
        (record { world = world; sessions = new_list_sessions })).0
      ≡ ok resp)
serve_http-overlay_store_example =
    serve_http-overlay_store clock 3 served 2 (omega arith)
      (s3_store-StoreEnds clock backend physical 3 2 (omega arith)
        (client_ends (λ w. w.upper) (λ m w. record w { upper = m })))
      (s3_store-StoreEnds clock backend _ 3 2 (omega arith)
        (client_ends (λ w. w.upper) (λ m w. record w { upper = m })))
      decode error_text get_request _ refl
