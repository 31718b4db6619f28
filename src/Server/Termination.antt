-- ===== src/Server/Termination.antt =====
-- Every request is answered.
use overlay_s.Base.{Bytes, arith, false, none, refl, some, ℕ, ◌<◌, ◌≡◌, ◌≢◌}
use overlay_s.Base.Exec.{Error, Outcome, err, no_return, ok}
use overlay_s.Base.Exec.Rules.{Ending, Ending-Follows}
use overlay_s.Overlay.Gateway.{overlay_store}
use overlay_s.Overlay.Gateway.Calls.{ReadCalls, WriteCalls}
use overlay_s.Overlay.Gateway.Ending.{StoreEnds, overlay_store-ReadsEnd, overlay_store-WritesEnd}
use overlay_s.Overlay.Listing.{Gateway, OverlayStore}
use overlay_s.Protocol.{Request, parse_s3_request}
use overlay_s.Server.{Answer, Response}
use overlay_s.Server.Answers.{Decoder}
use overlay_s.Server.Calls.{dispatch_calls}
use overlay_s.Server.Handlers.{completed, serve_http}
use overlay_s.Store.{Store}

module _ {W : Type 0} (now : W → ℕ) (decode : Decoder) (store : Store W)
    (describe : Error → Bytes) where
  completed_answers :
      (o : Outcome Answer) → o ≢ no_return → (resp : Response) × (completed describe o ≡ ok resp)
  unfolding completed
  completed_answers (ok (resp, none)) h = (_, refl)
  completed_answers (ok (resp, some e)) h = (_, refl)
  completed_answers (err e) h = (_, refl)
  completed_answers no_return h = absurd (h refl)

  -- A server over a store whose calls come to an end answers every request whose body can be read
  -- without a panic, whatever it asks for and whichever errors the store returns.
  pub serve_http-answers :
      ReadCalls Ending store
      → WriteCalls Ending store
      → (r : Request) (w : W) → r.panics ≡ false
      → (resp : Response) × ((serve_http now decode store describe r w).0 ≡ ok resp)
  unfolding serve_http
  serve_http-answers reads writes r w whole_body = completed_answers _ (
      (dispatch_calls Ending-Follows now decode store reads writes r (λ A p. absurd (ground arith))
          (parse_s3_request r).0 _ _).ends
        w)

-- The gateway answers every request whose body can be read without a panic, where the calls of both
-- stores come to an end and their listings have fewer pages than the fuel that one call has for them.
pub serve_http-overlay_store :
    {W : Type 0} (now : W → ℕ) (fuel : ℕ) (o : OverlayStore W) (pages : ℕ)
    → pages < fuel
    → StoreEnds pages o.overlay
    → StoreEnds pages o.baseline
    → (decode : Decoder) (describe : Error → Bytes) (r : Request) (g : Gateway W) → r.panics ≡ false
    → (resp : Response) × ((serve_http
          (λ g. now g.world)
          decode
          (overlay_store now fuel o)
          describe
          r
          g).0
        ≡ ok resp)
serve_http-overlay_store now fuel o pages enough overlay_ends baseline_ends decode describe =
    serve_http-answers (λ g. now g.world) decode (overlay_store now fuel o) describe
      (overlay_store-ReadsEnd now fuel o pages enough overlay_ends baseline_ends)
      (overlay_store-WritesEnd now fuel o pages enough overlay_ends baseline_ends)
