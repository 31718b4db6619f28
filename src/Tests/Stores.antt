-- ===== src/Tests/Stores.antt =====
-- Two stores in memory, of which each serves its pages and keeps its objects in its own map.
use overlay_s.Base.{
  Bytes, Option, [], codes, drop, false, if◌then◌else◌, length, none, pos, pos_part, some, take,
  true, ℕ, ◌∷◌, ◌≡◌,
}
use overlay_s.Base.Exec.{err_upload_not_found, ok, pure, raise}
use overlay_s.Overlay.Gateway.Layered.{Objects, answer, same_place}
use overlay_s.Overlay.Listing.{Gateway, OverlayStore}
use overlay_s.Overlay.Sessions.{new_list_sessions}
use overlay_s.Store.{ByteRange, ListPage, ObjectMeta, Reader, Store}

abbrev pub Contents : Type 0
Contents = Bytes → Bytes → Option Bytes

pub record World : Type 0 where
  pub upper : Contents
  pub lower : Contents

abbrev pub reader : Bytes → Reader
reader v = record { content = v; failure = none }

abbrev pub meta : Bytes → Bytes → ObjectMeta
meta k v = record {
  key = k;
  size = pos (length v);
  etag = codes "tag";
  last_modified = 7;
  content_type = codes "text/plain";
}

-- The bytes of a range
abbrev pub range_bytes : Option ByteRange → Bytes → Bytes
range_bytes none v = v
range_bytes (some r) v = take (pos_part r.length) (drop (pos_part r.start) v)

abbrev pub kept : Objects Bytes
kept = record {
  serve = λ k r v. (reader (range_bytes r v), meta k (range_bytes r v));
  describe = meta;
  made = λ body ct v. v ≡ body.content;
}

abbrev pub stored : Contents → Bytes → Bytes → Bytes → Contents
stored held b k v b' k' = if same_place b k b' k' then some v else held b' k'

-- A store of one of the two maps, with `pages` for its listings
abbrev pub memory :
    (World → Contents) → (Contents → World → World) → (Bytes → ListPage) → Store World
memory held with_held pages = record {
  get = λ b k r w. (answer (kept.serve k r) (held w b k), w);
  head = λ b k w. (answer (kept.describe k) (held w b k), w);
  put = λ b k body ct w. (ok (meta k body.content), with_held (stored (held w) b k body.content) w);
  list_page = λ b p w. (ok (pages p.after), w);
  list_buckets = pure (codes "media" ∷ []);
  bucket_exists = λ b. pure true;
  create_bucket = λ b. pure tt;
  initiate_multipart = λ b k ct. pure (codes "upload");
  upload_part = λ b k id n body. pure (codes "tag");
  complete_multipart = λ b k id parts. pure (meta k []);
  abort_multipart = λ b k id. raise err_upload_not_found;
  list_parts = λ b k id. raise err_upload_not_found;
  list_multipart_uploads = λ b. pure [];
}

-- Keys a and c, on two pages
abbrev pub overlay_pages : Bytes → ListPage
overlay_pages [] = record {
  objects = meta (codes "a") (codes "upper") ∷ [];
  common_prefixes = [];
  truncated = true;
  next_token = codes "behind a";
}
overlay_pages (x ∷ token) = record {
  objects = meta (codes "c") (codes "upper") ∷ [];
  common_prefixes = [];
  truncated = false;
  next_token = [];
}

-- Keys b and c and a common prefix, on one page
abbrev pub baseline_page : ListPage
baseline_page = record {
  objects = meta (codes "b") (codes "lower") ∷ meta (codes "c") (codes "lower") ∷ [];
  common_prefixes = codes "d/" ∷ [];
  truncated = false;
  next_token = [];
}

abbrev pub two_stores : OverlayStore World
two_stores = record {
  overlay = memory (λ w. w.upper) (λ m w. record w { upper = m }) overlay_pages;
  baseline = memory (λ w. w.lower) (λ m w. record w { lower = m }) (λ token. baseline_page);
}

-- No object above, and "hello" under one key below
abbrev pub world : World
world = record {
  upper = λ b k. none;
  lower = stored (λ b k. none) (codes "media") (codes "greeting") (codes "hello");
}

abbrev pub clock : World → ℕ
clock w = 100

abbrev pub gateway : Gateway World
gateway = record { world = world; sessions = new_list_sessions }
