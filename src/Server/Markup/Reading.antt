-- ===== src/Server/Markup/Reading.antt =====
-- A reading of XML that knows nothing of the types of s3xml.go: the texts of the elements of one
-- name, with the references of encoding/xml put back.
use mathlib.Core.Path.{subst}
use overlay_s.Base.{
  All, All-append, Bool, Bytes, Lacks, Lacks-of_contains_byte, List, Option, [], ap, arith,
  bytes_eq, codes, contains_byte, cut, false, if◌then◌else◌, leb, none, not, quote, refl, some,
  split, split_from-end, split_from-next, sym, true, ℕ, ◌&&◌, ◌++◌, ◌==◌, ◌||◌, ◌∙◌, ◌∷◌, ◌≡◌, ◌≢◌,
}
use overlay_s.Server.Markup.{Content, escape_byte, escape_text, leaf, no_more, node}

-- The character of a reference, without its '&' and ';'
unfoldable pub referred : Bytes → ℕ
referred r =
    if bytes_eq r (codes "#34")
    then quote
    else if bytes_eq r (codes "#39")
    then 39
    else if bytes_eq r (codes "amp")
    then b'&'
    else if bytes_eq r (codes "lt")
    then b'<'
    else if bytes_eq r (codes "gt")
    then b'>'
    else if bytes_eq r (codes "#x9")
    then 9
    else if bytes_eq r (codes "#xA")
    then 10
    else 13

-- The text that is written, from inside a reference or from outside
unfoldable pub unescape : Option Bytes → Bytes → Bytes
unescape inside [] = []
unescape none (c ∷ s) = elim (c == b'&') [
  | true ↦ unescape (some []) s
  | false ↦ c ∷ unescape none s
]
unescape (some r) (c ∷ s) = elim (c == b';') [
  | true ↦ referred r ∷ unescape none s
  | false ↦ unescape (some (r ++ c ∷ [])) s
]

-- A character that encoding/xml writes so that it can be read back
unfoldable pub is_readable : ℕ → Bool
is_readable c = leb 32 c || (c == 9 || (c == 10 || c == 13))

unescape-escape_byte :
    (c : ℕ) (s : Bytes)
    → is_readable c ≡ true
    → unescape none (escape_byte c ++ s) ≡ c ∷ unescape none s
unfolding escape_byte unescape referred bytes_eq is_readable
unescape-escape_byte c s h = ground arith

escape_text_cons : (c : ℕ) (s : Bytes) → escape_text (c ∷ s) ≡ escape_byte c ++ escape_text s
unfolding escape_text
escape_text_cons c s = refl

pub unescape-escape_text :
    (s : Bytes) → All (λ c. is_readable c ≡ true) s → unescape none (escape_text s) ≡ s
unescape-escape_text [] h = unfold escape_text unescape in refl
unescape-escape_text (c ∷ s) (hc, h) =
    ap (unescape none) (escape_text_cons c s)
    ∙ unescape-escape_byte c (escape_text s) hc
    ∙ ap (◌∷◌ c) (unescape-escape_text s h)

escape_byte-Lacks : (c : ℕ) → Lacks b'<' (escape_byte c)
escape_byte-Lacks c =
    Lacks-of_contains_byte (escape_byte c) b'<' (unfold escape_byte contains_byte in ground arith)

pub escape_text-Lacks : (s : Bytes) → Lacks b'<' (escape_text s)
escape_text-Lacks [] = unfold escape_text in tt
escape_text-Lacks (c ∷ s) = subst (Lacks b'<') (sym (escape_text_cons c s)) (
    All-append (λ x. x ≢ b'<') (escape_byte c) (escape_text s) (escape_byte-Lacks c)
      (escape_text-Lacks s))

-- What stands behind one '<': a tag, and a text up to the next one
unfoldable pub text_under : Bytes → Option (Bytes × Bytes) → List Bytes
text_under name none = []
text_under name (some (tag, s)) = if bytes_eq tag name then unescape none s ∷ [] else []

unfoldable pub texts_behind : Bytes → List Bytes → List Bytes
texts_behind name [] = []
texts_behind name (p ∷ ps) = text_under name (cut p b'>') ++ texts_behind name ps

-- The texts behind the opening tags of this name, in order
unfoldable pub texts : Bytes → Bytes → List Bytes
texts name s = texts_behind name (split s b'<')

pub texts_next :
    (name x s : Bytes)
    → Lacks b'<' x
    → texts name (x ++ b'<' ∷ s) ≡ text_under name (cut x b'>') ++ texts name s
unfolding texts split texts_behind
texts_next name x s h = rw (split_from-next [] x s b'<' h) refl

pub texts_end : (name x : Bytes) → Lacks b'<' x → texts name x ≡ text_under name (cut x b'>') ++ []
unfolding texts split texts_behind
texts_end name x h = rw (split_from-end [] x b'<' h) refl

-- The same texts in the content that is written
unfoldable pub fields : Bytes → Content → List Bytes
fields name no_more = []
fields name (leaf n t rest) = text_under name (some (n, escape_text t)) ++ fields name rest
fields name (node n content rest) =
    text_under name (some (n, [])) ++ (fields name content ++ fields name rest)

unfoldable pub is_name : Bytes → Bool
is_name n = not (contains_byte n b'<') && not (contains_byte n b'>')

unfoldable pub named : Content → Bool
named no_more = true
named (leaf n t rest) = is_name n && named rest
named (node n content rest) = is_name n && (named content && named rest)

pub is_name-Lacks : (n : Bytes) → is_name n ≡ true → Lacks b'<' n × Lacks b'>' n
unfolding is_name
is_name-Lacks n h =
    (Lacks-of_contains_byte n b'<' (ground arith), Lacks-of_contains_byte n b'>' (ground arith))
