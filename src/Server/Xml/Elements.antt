-- ===== src/Server/Xml/Elements.antt =====
-- The fields of the document of a listing, by name.
use overlay_s.Base.{
  All, Bytes, List, [], ap, append-nil, bytes_eq, codes, contains_byte, false, if◌then◌else◌,
  is_nil, map, none, refl, some, true, ℕ, ◌++◌, ◌∷◌, ◌≡◌,
}
use overlay_s.Base.Decimal.{format_int}
use overlay_s.Server.{ListBucketResult, quoted}
use overlay_s.Server.Markup.{Content, escape_text, no_more, omit_empty}
use overlay_s.Server.Markup.Reading.{fields, is_name, named, text_under, unescape}
use overlay_s.Server.Xml.{bool_text, listing_content, object_elements, prefix_elements}
use overlay_s.Store.{ObjectMeta}

named-object_elements :
    (rfc3339 : ℕ → Bytes) (os : List ObjectMeta) (rest : Content)
    → named (object_elements rfc3339 os rest) ≡ named rest
unfolding object_elements named is_name contains_byte
named-object_elements rfc3339 [] rest = refl
named-object_elements rfc3339 (o ∷ os) rest = named-object_elements rfc3339 os rest

named-prefix_elements :
    (ps : List Bytes) (rest : Content) → named (prefix_elements ps rest) ≡ named rest
unfolding prefix_elements named is_name contains_byte
named-prefix_elements [] rest = refl
named-prefix_elements (p ∷ ps) rest = named-prefix_elements ps rest

named-omit_empty :
    (n t : Bytes) (rest : Content) → is_name n ≡ true → named (omit_empty n t rest) ≡ named rest
unfolding omit_empty named
named-omit_empty n [] rest h = refl
named-omit_empty n (c ∷ t) rest h = rw h refl

pub named-listing_content :
    (rfc3339 : ℕ → Bytes) (r : ListBucketResult) → named (listing_content rfc3339 r) ≡ true
named-listing_content rfc3339 r =
    let objects = named-object_elements rfc3339 r.contents in
    unfold listing_content named is_name contains_byte in
    rw (named-omit_empty (codes "Delimiter") r.delimiter _ refl) (
      rw (objects _, named-prefix_elements r.common_prefixes _)
        (rw (named-omit_empty (codes "ContinuationToken") r.continuation_token _ refl) (
          named-omit_empty (codes "NextContinuationToken") r.next_continuation_token no_more refl)))

abbrev Others : Bytes → List Bytes → Type 0
Others name = All (λ n. bytes_eq n name ≡ false)

abbrev object_names : List Bytes
object_names =
    codes "Contents"
    ∷ codes "Key"
    ∷ codes "LastModified"
    ∷ codes "ETag"
    ∷ codes "Size"
    ∷ codes "StorageClass"
    ∷ []

under_other : (name n s : Bytes) → bytes_eq n name ≡ false → text_under name (some (n, s)) ≡ []
unfolding text_under
under_other name n s h = rw h refl

-- The text that a client reads of one that is written
unfoldable pub read_text : Bytes → Bytes
read_text s = unescape none (escape_text s)

fields-object_elements :
    (rfc3339 : ℕ → Bytes) (name : Bytes) (os : List ObjectMeta) (rest : Content)
    → Others name object_names
    → fields name (object_elements rfc3339 os rest) ≡ fields name rest
unfolding fields object_elements
fields-object_elements rfc3339 name [] rest h = refl
fields-object_elements rfc3339 name (o ∷ os) rest (h0, (h1, (h2, (h3, (h4, (h5, h6)))))) =
    rw
      (
        under_other name (codes "Contents") [] h0,
        under_other name (codes "Key") (escape_text o.key) h1,
        under_other name (codes "LastModified") (escape_text (rfc3339 o.last_modified)) h2,
        under_other name (codes "ETag") (escape_text (quoted o.etag)) h3,
        under_other name (codes "Size") (escape_text (format_int o.size)) h4,
        under_other name (codes "StorageClass") (escape_text (codes "STANDARD")) h5,
      )
      (fields-object_elements rfc3339 name os rest (h0, (h1, (h2, (h3, (h4, (h5, h6)))))))

keys-object_elements :
    (rfc3339 : ℕ → Bytes) (os : List ObjectMeta) (rest : Content)
    → fields (codes "Key") (object_elements rfc3339 os rest)
      ≡ map (λ o. read_text o.key) os ++ fields (codes "Key") rest
unfolding fields object_elements text_under bytes_eq read_text
keys-object_elements rfc3339 [] rest = refl
keys-object_elements rfc3339 (o ∷ os) rest =
    ap (◌∷◌ (unescape none (escape_text o.key))) (keys-object_elements rfc3339 os rest)

fields-prefix_elements :
    (name : Bytes) (ps : List Bytes) (rest : Content)
    → Others name (codes "CommonPrefixes" ∷ codes "Prefix" ∷ [])
    → fields name (prefix_elements ps rest) ≡ fields name rest
unfolding fields prefix_elements
fields-prefix_elements name [] rest h = refl
fields-prefix_elements name (p ∷ ps) rest (h0, (h1, h2)) =
    rw
      (
        under_other name (codes "CommonPrefixes") [] h0,
        under_other name (codes "Prefix") (escape_text p) h1,
      )
      (fields-prefix_elements name ps rest (h0, (h1, h2)))

prefixes-prefix_elements :
    (ps : List Bytes) (rest : Content)
    → fields (codes "Prefix") (prefix_elements ps rest)
      ≡ map read_text ps ++ fields (codes "Prefix") rest
unfolding fields prefix_elements text_under bytes_eq read_text
prefixes-prefix_elements [] rest = refl
prefixes-prefix_elements (p ∷ ps) rest =
    ap (◌∷◌ (unescape none (escape_text p))) (prefixes-prefix_elements ps rest)

fields-omit_empty :
    (name n t : Bytes) (rest : Content)
    → bytes_eq n name ≡ false
    → fields name (omit_empty n t rest) ≡ fields name rest
unfolding omit_empty fields
fields-omit_empty name n [] rest h = refl
fields-omit_empty name n (c ∷ t) rest h = rw (under_other name n (escape_text (c ∷ t)) h) refl

own_token :
    (token : Bytes)
    → fields
        (codes "NextContinuationToken")
        (omit_empty (codes "NextContinuationToken") token no_more)
      ≡ (if is_nil token then [] else read_text token ∷ [])
unfolding omit_empty fields text_under bytes_eq read_text
own_token [] = refl
own_token (c ∷ token) = refl

module _ (rfc3339 : ℕ → Bytes) (r : ListBucketResult) where
  pub keys_read :
      fields (codes "Key") (listing_content rfc3339 r) ≡ map (λ o. read_text o.key) r.contents
  unfolding listing_content fields text_under bytes_eq
  keys_read =
      rw
        (
          fields-omit_empty (codes "Key") (codes "Delimiter") r.delimiter _ refl,
          keys-object_elements rfc3339 r.contents _,
          fields-prefix_elements (codes "Key") r.common_prefixes _ (refl, (refl, tt)),
          fields-omit_empty (codes "Key") (codes "ContinuationToken") r.continuation_token _ refl,
          fields-omit_empty (codes "Key") (codes "NextContinuationToken") r.next_continuation_token
              no_more refl,
        )
        (append-nil _)

  pub prefixes_read :
      fields (codes "Prefix") (listing_content rfc3339 r)
      ≡ read_text r.prefix ∷ map read_text r.common_prefixes
  unfolding listing_content fields text_under bytes_eq read_text
  prefixes_read =
      rw
        (
          fields-omit_empty (codes "Prefix") (codes "Delimiter") r.delimiter _ refl,
          fields-object_elements rfc3339 (codes "Prefix") r.contents _
              (refl, (refl, (refl, (refl, (refl, (refl, tt)))))),
          prefixes-prefix_elements r.common_prefixes _,
          fields-omit_empty (codes "Prefix") (codes "ContinuationToken") r.continuation_token _
              refl,
          fields-omit_empty (codes "Prefix") (codes "NextContinuationToken")
              r.next_continuation_token no_more refl,
        )
        (ap (◌∷◌ (unescape none (escape_text r.prefix))) (append-nil _))

  pub truncation_read :
      fields (codes "IsTruncated") (listing_content rfc3339 r)
      ≡ read_text (bool_text r.is_truncated) ∷ []
  unfolding listing_content fields text_under bytes_eq read_text
  truncation_read =
      rw
        (
          fields-omit_empty (codes "IsTruncated") (codes "Delimiter") r.delimiter _ refl,
          fields-object_elements rfc3339 (codes "IsTruncated") r.contents _
              (refl, (refl, (refl, (refl, (refl, (refl, tt)))))),
          fields-prefix_elements (codes "IsTruncated") r.common_prefixes _ (refl, (refl, tt)),
          fields-omit_empty (codes "IsTruncated") (codes "ContinuationToken") r.continuation_token _
              refl,
          fields-omit_empty (codes "IsTruncated") (codes "NextContinuationToken")
              r.next_continuation_token no_more refl,
        )
        refl

  pub token_read :
      fields (codes "NextContinuationToken") (listing_content rfc3339 r)
      ≡ (if is_nil r.next_continuation_token then [] else read_text r.next_continuation_token ∷ [])
  unfolding listing_content fields text_under bytes_eq
  token_read =
      rw
        (
          fields-omit_empty (codes "NextContinuationToken") (codes "Delimiter") r.delimiter _ refl,
          fields-object_elements rfc3339 (codes "NextContinuationToken") r.contents _
              (refl, (refl, (refl, (refl, (refl, (refl, tt)))))),
          fields-prefix_elements (codes "NextContinuationToken") r.common_prefixes _
              (refl, (refl, tt)),
          fields-omit_empty (codes "NextContinuationToken") (codes "ContinuationToken")
              r.continuation_token _ refl,
        )
        (own_token r.next_continuation_token)
