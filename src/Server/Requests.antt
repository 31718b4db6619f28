-- ===== src/Server/Requests.antt =====
-- Requests for one object, and how they are routed.
use mathlib.Core.List.{cons-ne-nil}
use overlay_s.Base.{
  Bytes, Lacks, List, [], ap, arith, bytes_eq, codes, false, refl, ◌∙◌, ◌∷◌, ◌≡◌, ◌≢◌,
}
use overlay_s.Base.Exec.{Error, Outcome, err, no_return, ok}
use overlay_s.Protocol.{
  Request, get_value, has, object_op, op_get_object, op_put_object, parse_s3_request, route,
}
use overlay_s.Protocol.Routes.{object_path, split_path-object_path}
use overlay_s.Server.{Answer, Response}
use overlay_s.Server.Handlers.{completed}

-- The requests that the router takes for a PUT and for a GET of an object
pub record PutsObject (r : Request) (bucket key : Bytes) : Type 0 where
  pub method : r.method ≡ codes "PUT"
  pub path : r.path ≡ object_path bucket key
  pub no_part : has r.query (codes "partNumber") ≡ false
  pub no_source : get_value r.headers (codes "X-Amz-Copy-Source") ≡ []

pub record GetsObject (r : Request) (bucket key : Bytes) : Type 0 where
  pub method : r.method ≡ codes "GET"
  pub path : r.path ≡ object_path bucket key
  pub no_upload : has r.query (codes "uploadId") ≡ false

route-object :
    (m : Bytes) (q : List (Bytes × Bytes)) (c bucket key : Bytes)
    → bucket ≢ []
    → key ≢ []
    → route m q c (bucket, key) ≡ (object_op m q c, bucket, key)
unfolding route
route-object m q c [] key hb hk = absurd (hb refl)
route-object m q c (b ∷ bucket) [] hb hk = absurd (hk refl)
route-object m q c (b ∷ bucket) (d ∷ key) hb hk = refl

module _ (r : Request) (bucket key : Bytes) (hb : bucket ≢ []) (slash : Lacks b'/' bucket)
    (hk : key ≢ []) where
  parse-object :
      r.path ≡ object_path bucket key
      → parse_s3_request r ≡ (
        object_op r.method r.query (get_value r.headers (codes "X-Amz-Copy-Source")),
        bucket,
        key,
      )
  unfolding parse_s3_request
  parse-object e =
      rw (e, split_path-object_path bucket key slash)
        (route-object r.method r.query (get_value r.headers (codes "X-Amz-Copy-Source")) bucket key
          hb hk)

  pub parse-put : PutsObject r bucket key → parse_s3_request r ≡ (op_put_object, bucket, key)
  unfolding object_op bytes_eq
  parse-put p = parse-object p.path ∙ rw (p.method, p.no_part, p.no_source) refl

  pub parse-get : GetsObject r bucket key → parse_s3_request r ≡ (op_get_object, bucket, key)
  unfolding object_op bytes_eq
  parse-get p = parse-object p.path ∙ rw (p.method, p.no_upload) refl

-- An answer without a body is not an error's.
pub completed-bare :
    (describe : Error → Bytes) (o : Outcome Answer) (resp : Response)
    → completed describe o ≡ ok resp
    → resp.body ≡ []
    → (a : Answer) × (o ≡ ok a)
unfolding completed
completed-bare describe (ok a) resp h e = (a, refl)
completed-bare describe (err e') resp h e =
    absurd (cons-ne-nil _ _ (ap (λ r. r.body) (ok_inside h) ∙ e))
  where
    ok_inside : {y z : Response} → ok y ≡ ok z → y ≡ z
    ok_inside h = cc
completed-bare describe no_return resp h e = absurd (ground arith)
