-- ===== src/Tests/Documents.antt =====
-- A listing whose names have characters that XML writes as references.
use overlay_s.Base.{Bytes, [], bytes_eq, codes, false, none, pos, refl, true, ℕ, ◌∷◌, ◌≡◌}
use overlay_s.Base.Exec.{ok}
use overlay_s.Protocol.{Request, get_value}
use overlay_s.Server.{Response}
use overlay_s.Server.Answers.{max_keys_of}
use overlay_s.Server.Handlers.{handle_list_objects_v2}
use overlay_s.Server.Markup.Reading.{is_readable}
use overlay_s.Server.Xml.{body_bytes}
use overlay_s.Server.Xml.Listed.{ReadsListing, handle_list_objects_v2-ReadsListing, params_of}
use overlay_s.Store.{ListPage, Store}
use overlay_s.Tests.Layers.{decode}
use overlay_s.Tests.Stores.{World, clock, memory, meta, reader, world}

abbrev listed_page : ListPage
listed_page = record {
  objects = meta (codes "a<b&c>") (codes "upper") ∷ meta (codes "it's") (codes "lower") ∷ [];
  common_prefixes = codes "d&/" ∷ [];
  truncated = true;
  next_token = codes "5";
}

abbrev lister : Store World
lister = memory (λ w. w.upper) (λ m w. record w { upper = m }) (λ token. listed_page)

abbrev list_request : Request
list_request = record {
  method = codes "GET";
  path = codes "/media";
  query = (codes "list-type", codes "2") ∷ (codes "delimiter", codes "/") ∷ [];
  headers = [];
  body = reader [];
  panics = false;
}

-- The time 7 of the tests
abbrev written_time : ℕ → Bytes
written_time t = codes "0001-01-01T00:00:00Z"

handle_list_objects_v2-ReadsListing_example :
    (resp : Response) × (handle_list_objects_v2 clock decode lister list_request
        (codes "media")
        world
      ≡ (ok (resp, none), world))
    × (resp.status ≡ 200)
    × ReadsListing
        (params_of list_request (pos 1000))
        listed_page
        (body_bytes written_time resp.body)
unfolding max_keys_of get_value is_readable bytes_eq
handle_list_objects_v2-ReadsListing_example =
    handle_list_objects_v2-ReadsListing clock decode lister written_time list_request
      (codes "media") (pos 1000) listed_page world world refl refl
      ((refl, (refl, (refl, (refl, (refl, (refl, tt)))))), ((refl, (refl, (refl, (refl, tt)))), tt))
      ((refl, (refl, (refl, tt))), tt) tt (refl, tt)
