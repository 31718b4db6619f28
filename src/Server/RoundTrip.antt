-- ===== src/Server/RoundTrip.antt =====
-- A PUT and a later GET of the same path, through routing and answers.
use mathlib.Core.Path.{ap₂}
use overlay_s.Base.{Bytes, Lacks, Option, [], ap, codes, refl, sym, ℕ, ◌∙◌, ◌≡◌, ◌≢◌}
use overlay_s.Base.Exec.{Error, eq_not_found, ok}
use overlay_s.Base.Exec.Rules.{
  Keeping-Follows, Keeps, if-Follows, pure-Follows, raise-Follows, try-Follows,
}
use overlay_s.Overlay.Gateway.{head_with_fallback, overlay_store}
use overlay_s.Overlay.Gateway.Layered.{
  Leaves, Objects, Reads, Writes, layered, layered-Reads, layered-Writes, over,
}
use overlay_s.Overlay.Listing.{Gateway, OverlayStore}
use overlay_s.Protocol.{Request, get_value, op_get_object, op_put_object, parse_s3_request}
use overlay_s.Server.{Response, content_type_or_default}
use overlay_s.Server.Answers.{Decoder}
use overlay_s.Server.Handlers.{
  completed, dispatch, handle_get_object, handle_put_object, serve_http,
}
use overlay_s.Server.Requests.{GetsObject, PutsObject, completed-bare, parse-get, parse-put}
use overlay_s.Server.Served.{get_answer}
use overlay_s.Server.Written.{handle_put_object-handle_get_object}
use overlay_s.Store.{Store}

module _ {W X : Type 0} (x : Objects X) (holds : W → Bytes → Bytes → Option X) (now : W → ℕ)
    (decode : Decoder) (store : Store W)
    (still : (w : W) (b k : Bytes) → holds (store.head b k w).1 ≡ holds w)
    (describe : Error → Bytes) where
  serve-put :
      (r : Request) (b k : Bytes) (w : W)
      → parse_s3_request r ≡ (op_put_object, b, k)
      → serve_http now decode store describe r w ≡ (
        completed describe (handle_put_object now decode store r b k w).0,
        (handle_put_object now decode store r b k w).1,
      )
  unfolding serve_http dispatch
  serve-put r b k w e = rw e refl

  serve-get :
      (r : Request) (b k : Bytes) (w : W)
      → parse_s3_request r ≡ (op_get_object, b, k)
      → serve_http now decode store describe r w ≡ (
        completed describe (handle_get_object now decode store r b k w).0,
        (handle_get_object now decode store r b k w).1,
      )
  unfolding serve_http dispatch
  serve-get r b k w e = rw e refl

  -- What a client PUTs at a path it GETs from that path: behind a PUT that is answered without a body,
  -- as no error is, a GET is answered with an object made of the PUT's body and content type, cut as
  -- its own Range header asks. The path names a bucket and a key; the PUT is no part of an upload and
  -- no copy, the GET no listing of parts. The store must answer from what it holds, its PUT must
  -- hold the object, and its HEAD must not change what it holds.
  pub serve_http-put_get :
      (reads : Reads x store holds) (writes : Writes x store holds) (w : W)
      (put_request get_request : Request) (b k : Bytes)
      → b ≢ []
      → Lacks b'/' b
      → k ≢ []
      → PutsObject put_request b k
      → GetsObject get_request b k
      → (resp : Response) → (serve_http now decode store describe put_request w).0 ≡ ok resp
      → resp.body ≡ []
      → (v : X) × x.made put_request.body
          (content_type_or_default (get_value put_request.headers (codes "Content-Type")))
          v
        × ((serve_http now decode store describe get_request
              (serve_http now decode store describe put_request w).1).0
            ≡ completed describe (
                get_answer x holds now decode store reads k
                  (get_value get_request.headers (codes "Range"))
                  v))
  serve_http-put_get reads writes w put_request get_request b k hb slash hk puts gets resp e bare =
      let put_is = serve-put put_request b k w (parse-put put_request b k hb slash hk puts) in
      let (a, done) = completed-bare describe _ resp (sym (ap (λ r. r.0) put_is) ∙ e) bare in
      let (v, made, law) =
        handle_put_object-handle_get_object x holds now decode store still reads writes w
          put_request get_request b k a done in
      (
        v,
        made,
        ap (λ r. (serve_http now decode store describe get_request r.1).0) put_is
            ∙ ap (λ r. r.0)
                (serve-get get_request b k _ (parse-get get_request b k hb slash hk gets))
            ∙ ap (completed describe) law,
      )

module _ {W X : Type 0} (x : Objects X) (now : W → ℕ) (fuel : ℕ) (o : OverlayStore W)
    (upper lower : W → Bytes → Bytes → Option X) (decode : Decoder) (describe : Error → Bytes) where
  -- HEADs of both stores leave what both hold.
  pub record HeadsLeave : Type 0 where
    pub overlay_upper : (w : W) (b k : Bytes) → upper (o.overlay.head b k w).1 ≡ upper w
    pub overlay_lower : (w : W) (b k : Bytes) → lower (o.overlay.head b k w).1 ≡ lower w
    pub baseline_upper : (w : W) (b k : Bytes) → upper (o.baseline.head b k w).1 ≡ upper w
    pub baseline_lower : (w : W) (b k : Bytes) → lower (o.baseline.head b k w).1 ≡ lower w

  module _ (heads : HeadsLeave) (held : W) where
    abbrev SameHeld : W → Type 0
    SameHeld w = (upper w ≡ upper held) × (lower w ≡ lower held)

    overlay_head : (b k : Bytes) → Keeps SameHeld (o.overlay.head b k)
    overlay_head b k = record {
      at = λ w (u, l). (heads.overlay_upper w b k ∙ u, heads.overlay_lower w b k ∙ l);
    }

    baseline_head : (b k : Bytes) → Keeps SameHeld (o.baseline.head b k)
    baseline_head b k = record {
      at = λ w (u, l). (heads.baseline_upper w b k ∙ u, heads.baseline_lower w b k ∙ l);
    }

    both_heads : (b k : Bytes) → Keeps SameHeld (head_with_fallback o b k)
    unfolding head_with_fallback
    both_heads b k =
        try-Follows (Keeping-Follows SameHeld) _ _ _ (overlay_head b k)
          (λ meta. pure-Follows (Keeping-Follows SameHeld) meta)
          (λ e.
            if-Follows (Keeping-Follows SameHeld) (eq_not_found e) _ _ (baseline_head b k)
              (raise-Follows (Keeping-Follows SameHeld) e))

  head_still :
      HeadsLeave
      → (g : Gateway W) (b k : Bytes)
      → layered x now fuel o upper lower ((overlay_store now fuel o).head b k g).1
        ≡ layered x now fuel o upper lower g
  unfolding overlay_store
  head_still heads g b k =
      let (u, l) = (both_heads heads g.world b k).at g.world (refl, refl) in
      ap₂ (λ h h'. λ b k. over (h b k) (h' b k)) u l

  -- What a client PUTs at a path of the gateway it GETs from that path, whatever the baseline holds
  -- there: behind a PUT that is answered without a body, as no error is, a GET is answered with an
  -- object made of the PUT's body and content type, cut as its own Range header asks. The path
  -- names a bucket and a key; the PUT is no part of an upload and no copy, the GET no listing of
  -- parts. Each store must answer from what it holds, the overlay's PUT must hold the object and
  -- leave what the baseline holds, and HEADs must change nothing that is held.
  pub serve_http-layered_put_get :
      (overlay_reads : Reads x o.overlay upper) (baseline_reads : Reads x o.baseline lower)
      (leaves : Leaves o.overlay lower) (overlay_writes : Writes x o.overlay upper)
      (heads : HeadsLeave) (g : Gateway W) (put_request get_request : Request) (b k : Bytes)
      → b ≢ []
      → Lacks b'/' b
      → k ≢ []
      → PutsObject put_request b k
      → GetsObject get_request b k
      → (resp : Response)
      → (serve_http (λ g. now g.world) decode (overlay_store now fuel o) describe put_request g).0
        ≡ ok resp
      → resp.body ≡ []
      → (v : X) × x.made put_request.body
          (content_type_or_default (get_value put_request.headers (codes "Content-Type")))
          v
        × ((serve_http
              (λ g. now g.world)
              decode
              (overlay_store now fuel o)
              describe
              get_request
              (serve_http
                (λ g. now g.world)
                decode
                (overlay_store now fuel o)
                describe
                put_request
                g).1).0
            ≡ completed describe (
                get_answer x
                  (layered x now fuel o upper lower)
                  (λ g. now g.world)
                  decode
                  (overlay_store now fuel o)
                  (layered-Reads x now fuel o upper lower overlay_reads baseline_reads leaves)
                  k
                  (get_value get_request.headers (codes "Range"))
                  v))
  serve_http-layered_put_get overlay_reads baseline_reads leaves overlay_writes heads =
      serve_http-put_get x (layered x now fuel o upper lower) (λ g. now g.world) decode
        (overlay_store now fuel o) (head_still heads) describe
        (layered-Reads x now fuel o upper lower overlay_reads baseline_reads leaves)
        (layered-Writes x now fuel o upper lower overlay_writes leaves)
