-- ===== src/Server/Safe.antt =====
-- Which calls of the store a request can make.
use overlay_s.Base.{Bytes, ℕ}
use overlay_s.Base.Exec.{Error}
use overlay_s.Base.Exec.Rules.{Keeping-Follows, Keeps}
use overlay_s.Overlay.Gateway.ReadOnly.{ReadsKeep}
use overlay_s.Protocol.{Request, parse_s3_request}
use overlay_s.Protocol.Routes.{IsSafe, parse_s3_request-IsRead}
use overlay_s.Server.Answers.{Decoder}
use overlay_s.Server.Calls.{UploadLists, read_calls}
use overlay_s.Server.Handlers.{serve_http}
use overlay_s.Store.{Store}

module _ {W : Type 0} (P : W → Type 0) (now : W → ℕ) (decode : Decoder) (store : Store W) where
  -- The two listings of multipart uploads keep `P`.
  abbrev pub UploadListsKeep : Type 0
  UploadListsKeep = UploadLists (Keeping-Follows P) now decode store

  -- A GET or a HEAD changes the store only as its reads do: a predicate on the store's world
  -- that the reads and the two listings of uploads keep is kept by the whole request.
  pub serve_http-safe :
      (reads : ReadsKeep store P) (lists : UploadListsKeep) (describe : Error → Bytes) (r : Request)
      → IsSafe r.method
      → Keeps P (serve_http now decode store describe r)
  unfolding serve_http
  serve_http-safe reads lists describe r safe = record {
    at = λ w h.
        (read_calls (Keeping-Follows P) now decode store reads lists r (parse_s3_request r).0 _ _
            (parse_s3_request-IsRead r safe)).at
          w h;
  }
