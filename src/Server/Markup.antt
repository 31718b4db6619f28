-- ===== src/Server/Markup.antt =====
-- encoding/xml, as far as the types of s3xml.go use it. A text is taken to be valid UTF-8 without U+FFFE
-- and U+FFFF, so that of its characters only those below the space are replaced.
pub mod Reading
pub mod Fields
use overlay_s.Base.{
  Bytes, Option, [], codes, if◌then◌else◌, is_nil, ltb, none, quote, some, ℕ, ◌++◌, ◌==◌, ◌∷◌,
}

-- The content of an element: texts in elements of their own, and elements in elements
pub data Content : Type 0 where
  no_more : Content
  leaf : Bytes → Bytes → Content → Content
  node : Bytes → Content → Content → Content

-- xml.EscapeText on one character
unfoldable pub escape_byte : ℕ → Bytes
escape_byte c =
    if c == quote
    then codes "&#34;"
    else if c == 39
    then codes "&#39;"
    else if c == b'&'
    then codes "&amp;"
    else if c == b'<'
    then codes "&lt;"
    else if c == b'>'
    then codes "&gt;"
    else if c == 9
    then codes "&#x9;"
    else if c == 10
    then codes "&#xA;"
    else if c == 13
    then codes "&#xD;"
    else if ltb c 32
    then 239 ∷ 191 ∷ 189 ∷ []
    else c ∷ []

unfoldable pub escape_text : Bytes → Bytes
escape_text [] = []
escape_text (c ∷ s) = escape_byte c ++ escape_text s

-- xml.Marshal of a struct's fields
unfoldable pub marshal : Content → Bytes
marshal no_more = []
marshal (leaf name t rest) =
    b'<' ∷ (name ++ b'>' ∷ (escape_text t ++ b'<' ∷ b'/' ∷ (name ++ b'>' ∷ marshal rest)))
marshal (node name content rest) =
    b'<' ∷ (name ++ b'>' ∷ (marshal content ++ b'<' ∷ b'/' ∷ (name ++ b'>' ∷ marshal rest)))

-- A struct with its XMLName and, where it has one, its Xmlns
pub record Root : Type 0 where
  pub name : Bytes
  pub xmlns : Option Bytes
  pub content : Content

unfoldable pub xmlns_attribute : Option Bytes → Bytes
xmlns_attribute none = []
xmlns_attribute (some ns) = codes " xmlns=" ++ quote ∷ escape_text ns ++ quote ∷ []

unfoldable pub marshal_root : Root → Bytes
marshal_root e =
    b'<'
    ∷ ((e.name ++ xmlns_attribute e.xmlns)
        ++ b'>' ∷ (marshal e.content ++ b'<' ∷ b'/' ∷ (e.name ++ b'>' ∷ [])))

-- xml.Header
abbrev pub xml_header : Bytes
xml_header =
    codes "<?xml version="
    ++ quote ∷ codes "1.0"
    ++ quote ∷ codes " encoding="
    ++ quote ∷ codes "UTF-8"
    ++ quote ∷ codes "?>"
    ++ 10 ∷ []

-- A field with omitempty
unfoldable pub omit_empty : Bytes → Bytes → Content → Content
omit_empty name t rest = if is_nil t then rest else leaf name t rest
