-- ===== src/Server/Xml/Listed.antt =====
-- handlers.go, handleListObjectsV2, with the document that s3xml.go writes: what a client reads.
use overlay_s.Base.{
  All, Bool, Bytes, Lacks, Lacks-of_contains_byte, List, [], ap, append-nil, append_assoc, bytes_eq,
  codes, contains_byte, cut, drop, false, if◌then◌else◌, is_nil, map, none, not, refl, some, sym,
  true, ℕ, ℤ, ◌&&◌, ◌++◌, ◌∙◌, ◌∷◌, ◌≡◌,
}
use overlay_s.Base.Exec.{ok}
use overlay_s.Protocol.{Request, get_value}
use overlay_s.Server.{ListBucketResult, Response, document_piece, listing_document}
use overlay_s.Server.Answers.{Decoder, listing_answer, max_keys_of}
use overlay_s.Server.Handlers.{handle_list_objects_v2, list_with}
use overlay_s.Server.Markup.{
  Root, escape_byte, escape_text, marshal, marshal_root, xml_header, xmlns_attribute,
}
use overlay_s.Server.Markup.Fields.{IsOpening, ended, ended-Lacks, texts-marshal, under_ended}
use overlay_s.Server.Markup.Reading.{
  fields, is_name, is_readable, named, text_under, texts, texts_end, texts_next,
  unescape-escape_text,
}
use overlay_s.Server.Xml.{
  body_bytes, bool_text, listing_content, listing_root, root_of, s3_ns, written_document,
}
use overlay_s.Server.Xml.Elements.{
  keys_read, named-listing_content, prefixes_read, read_text, token_read, truncation_read,
}
use overlay_s.Store.{ListPage, ListParams, Store}

-- xml.Header behind its first '<'
abbrev declaration : Bytes
declaration = drop 1 xml_header

root_texts :
    (name : Bytes) (e : Root)
    → IsOpening name
    → is_name e.name ≡ true
    → named e.content ≡ true
    → Lacks b'<' ((e.name ++ xmlns_attribute e.xmlns) ++ b'>' ∷ [])
    → texts name (declaration ++ marshal_root e)
      ≡ text_under name (cut declaration b'>')
        ++ (text_under name (cut ((e.name ++ xmlns_attribute e.xmlns) ++ b'>' ∷ []) b'>')
            ++ fields name e.content)
unfolding marshal_root
root_texts name e h hn hc hx =
    let opening = e.name ++ xmlns_attribute e.xmlns in
    rw
      (
        texts_next name declaration (opening ++ b'>' ∷ (marshal e.content ++ b'<' ∷ ended e.name))
            (Lacks-of_contains_byte declaration b'<' (unfold contains_byte in refl)),
        sym (append_assoc opening (b'>' ∷ []) (marshal e.content ++ b'<' ∷ ended e.name)),
        texts-marshal name e.content (opening ++ b'>' ∷ []) (some (ended e.name)) h hc hx,
        texts_end name (ended e.name) (ended-Lacks e.name hn),
        under_ended name e.name h hn,
        append-nil (fields name e.content),
      )
      refl

document_texts : (name s : Bytes) → texts name (xml_header ++ s) ≡ texts name (declaration ++ s)
document_texts name s = texts_next name [] (declaration ++ s) tt ∙ unfold text_under cut in refl

abbrev listing_opening : Bytes
listing_opening = (codes "ListBucketResult" ++ xmlns_attribute (some s3_ns)) ++ b'>' ∷ []

-- Names that neither the header nor the root of a listing has
abbrev Inner : Bytes → Type 0
Inner name =
    (text_under name (cut declaration b'>') ≡ [])
    × (text_under name (cut listing_opening b'>') ≡ [])

listing_texts :
    (rfc3339 : ℕ → Bytes) (name : Bytes) (r : ListBucketResult)
    → IsOpening name
    → Inner name
    → texts name (body_bytes rfc3339 (document_piece (listing_document r) ∷ []))
      ≡ fields name (listing_content rfc3339 r)
unfolding body_bytes written_document root_of
listing_texts rfc3339 name r h (behind_header, behind_root) =
    rw
      (
        append-nil (xml_header ++ marshal_root (listing_root rfc3339 r)),
        document_texts name (marshal_root (listing_root rfc3339 r)),
        root_texts name (listing_root rfc3339 r) h (unfold is_name contains_byte in refl)
            (named-listing_content rfc3339 r)
            (Lacks-of_contains_byte listing_opening b'<'
              (unfold contains_byte xmlns_attribute escape_text escape_byte in refl)),
        behind_header,
        behind_root,
      )
      refl

-- A text without the control characters that XML has no reference for
abbrev pub Readable : Bytes → Type 0
Readable = All (λ c. is_readable c ≡ true)

read_text_lem : (s : Bytes) → Readable s → read_text s ≡ s
unfolding read_text
read_text_lem s h = unescape-escape_text s h

read_texts :
    {A : Type 0} (f : A → Bytes) (xs : List A)
    → All (λ x. Readable (f x)) xs
    → map (λ x. read_text (f x)) xs ≡ map f xs
read_texts f [] h = refl
read_texts f (x ∷ xs) (hx, h) = rw (read_text_lem (f x) hx) (ap (◌∷◌ (f x)) (read_texts f xs h))

-- What a client reads in the body of a listing
pub record ReadsListing (p : ListParams) (page : ListPage) (body : Bytes) : Type 0 where
  pub keys : texts (codes "Key") body ≡ map (λ o. o.key) page.objects
  pub prefixes : texts (codes "Prefix") body ≡ p.prefix ∷ page.common_prefixes
  pub truncation : texts (codes "IsTruncated") body ≡ bool_text page.truncated ∷ []
  pub token :
      texts (codes "NextContinuationToken") body
      ≡ (if page.truncated && not (is_nil page.next_token) then page.next_token ∷ [] else [])

key-Inner : Inner (codes "Key")
unfolding text_under cut xmlns_attribute escape_text escape_byte bytes_eq
key-Inner = (refl, refl)

prefix-Inner : Inner (codes "Prefix")
unfolding text_under cut xmlns_attribute escape_text escape_byte bytes_eq
prefix-Inner = (refl, refl)

truncation-Inner : Inner (codes "IsTruncated")
unfolding text_under cut xmlns_attribute escape_text escape_byte bytes_eq
truncation-Inner = (refl, refl)

token-Inner : Inner (codes "NextContinuationToken")
unfolding text_under cut xmlns_attribute escape_text escape_byte bytes_eq
token-Inner = (refl, refl)

map_same : (xs : List Bytes) → map (λ c. c) xs ≡ xs
map_same [] = refl
map_same (x ∷ xs) = ap (◌∷◌ x) (map_same xs)

read_bool : (b : Bool) → read_text (bool_text b) ≡ bool_text b
read_bool true =
    read_text_lem (codes "true") (unfold is_readable in (refl, (refl, (refl, (refl, tt)))))
read_bool false =
    read_text_lem (codes "false") (unfold is_readable in (refl, (refl, (refl, (refl, (refl, tt))))))

token_shown :
    (truncated : Bool) (token : Bytes)
    → Readable token
    → (let shown = if truncated then token else [] in
        if is_nil shown then [] else read_text shown ∷ [])
      ≡ (if truncated && not (is_nil token) then token ∷ [] else [])
token_shown false token h = refl
token_shown true [] h = refl
token_shown true (c ∷ token) h = ap (λ s. s ∷ []) (read_text_lem (c ∷ token) h)

listing_answer-ReadsListing :
    (rfc3339 : ℕ → Bytes) (bucket : Bytes) (p : ListParams) (page : ListPage)
    → All (λ o. Readable o.key) page.objects
    → All Readable page.common_prefixes
    → Readable p.prefix
    → Readable page.next_token
    → ReadsListing p page (body_bytes rfc3339 (listing_answer bucket p page).0.body)
unfolding listing_answer
listing_answer-ReadsListing rfc3339 bucket p page hk hp hq ht = record {
  keys =
      listing_texts rfc3339 (codes "Key") _ (unfold bytes_eq in λ n. refl) key-Inner
      ∙ keys_read rfc3339 _
      ∙ read_texts (λ o. o.key) page.objects hk;
  prefixes =
      listing_texts rfc3339 (codes "Prefix") _ (unfold bytes_eq in λ n. refl) prefix-Inner
      ∙ prefixes_read rfc3339 _
      ∙ rw (read_text_lem p.prefix hq, read_texts (λ c. c) page.common_prefixes hp)
          (ap (◌∷◌ p.prefix) (map_same page.common_prefixes));
  truncation =
      listing_texts rfc3339 (codes "IsTruncated") _ (unfold bytes_eq in λ n. refl) truncation-Inner
      ∙ truncation_read rfc3339 _
      ∙ ap (λ s. s ∷ []) (read_bool page.truncated);
  token =
      listing_texts rfc3339 (codes "NextContinuationToken") _ (unfold bytes_eq in λ n. refl)
        token-Inner
      ∙ token_read rfc3339 _
      ∙ token_shown page.truncated page.next_token ht;
}

-- The page that a request of a listing asks for
abbrev pub params_of : Request → ℤ → ListParams
params_of r n = record {
  prefix = get_value r.query (codes "prefix");
  delimiter = get_value r.query (codes "delimiter");
  after = get_value r.query (codes "continuation-token");
  max_keys = n;
}

-- A request for a listing with a max-keys that is accepted, where the store gives a page, is answered
-- 200 with a document in which a client reads the keys and the common prefixes of that page, in its
-- order, the prefix that was asked for, whether more follows, and the token of the next page where one
-- does. The keys, the prefixes and the token have no control characters but white space, since XML has
-- no reference for these.
pub handle_list_objects_v2-ReadsListing :
    {W : Type 0} (now : W → ℕ) (decode : Decoder) (store : Store W) (rfc3339 : ℕ → Bytes)
    (r : Request) (bucket : Bytes) (n : ℤ) (page : ListPage) (w w' : W)
    → max_keys_of (get_value r.query (codes "max-keys")) ≡ some n
    → store.list_page bucket (params_of r n) w ≡ (ok page, w')
    → All (λ o. Readable o.key) page.objects
    → All Readable page.common_prefixes
    → Readable (params_of r n).prefix
    → Readable page.next_token
    → (resp : Response) × (handle_list_objects_v2 now decode store r bucket w
        ≡ (ok (resp, none), w'))
      × (resp.status ≡ 200)
      × ReadsListing (params_of r n) page (body_bytes rfc3339 resp.body)
unfolding handle_list_objects_v2 list_with
handle_list_objects_v2-ReadsListing now decode store rfc3339 r bucket n page w w' hn listed hk hp hq
      ht =
    (
      (listing_answer bucket (params_of r n) page).0,
      rw (hn, listed) (unfold listing_answer in refl),
      unfold listing_answer in refl,
      listing_answer-ReadsListing rfc3339 bucket (params_of r n) page hk hp hq ht,
    )
