-- ===== src/Server/ReadOnly.antt =====
-- What any request can change, and what it can change through the overlay.
use overlay_s.Base.{Bytes, ℕ}
use overlay_s.Base.Exec.{Error}
use overlay_s.Base.Exec.Rules.{Keeping-Follows, Keeps}
use overlay_s.Overlay.Gateway.{overlay_store}
use overlay_s.Overlay.Gateway.ReadOnly.{
  OnGateway, ReadsKeep, WritesKeep, overlay_store-ReadsKeep, overlay_store-WritesKeep,
}
use overlay_s.Overlay.Listing.{OverlayStore}
use overlay_s.Protocol.{Request, parse_s3_request}
use overlay_s.Server.Answers.{Decoder}
use overlay_s.Server.Calls.{dispatch_calls}
use overlay_s.Server.Handlers.{serve_http}
use overlay_s.Store.{Store}

module _ {W : Type 0} (P : W → Type 0) (now : W → ℕ) (decode : Decoder) (store : Store W)
    (reads : ReadsKeep store P) (writes : WritesKeep store P) where
  -- What every call of the store keeps is kept by any request.
  pub serve_http-Keeps :
      (describe : Error → Bytes) (r : Request) → Keeps P (serve_http now decode store describe r)
  unfolding serve_http
  serve_http-Keeps describe r = record {
    at = λ w h.
        (dispatch_calls (Keeping-Follows P) now decode store reads writes r
            (λ A p. record { at = λ w h. h }) (parse_s3_request r).0 _ _).at
          w h;
  }

module _ {W : Type 0} (P : W → Type 0) (now : W → ℕ) (fuel : ℕ) (o : OverlayStore W)
    (overlay_reads : ReadsKeep o.overlay P) (overlay_writes : WritesKeep o.overlay P)
    (baseline_reads : ReadsKeep o.baseline P) where
  -- No request writes to the baseline: a predicate on the two stores that every call of the overlay
  -- and the reads of the baseline keep is kept by any request to the gateway, whatever it asks for.
  pub serve_http-read_only :
      (decode : Decoder) (describe : Error → Bytes) (r : Request)
      → Keeps
          (OnGateway P)
          (serve_http (λ g. now g.world) decode (overlay_store now fuel o) describe r)
  serve_http-read_only decode describe r =
      serve_http-Keeps (OnGateway P) (λ g. now g.world) decode (overlay_store now fuel o)
        (overlay_store-ReadsKeep P now fuel o overlay_reads baseline_reads)
        (overlay_store-WritesKeep P now fuel o overlay_writes) describe r
