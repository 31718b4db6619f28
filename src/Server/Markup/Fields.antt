-- ===== src/Server/Markup/Fields.antt =====
-- The texts that are read out of marshalled content are those of its fields.
use overlay_s.Base.{
  All-append, Bool, Bytes, Lacks, List, Option, [], append-nil, append_assoc, arith, bytes_eq, cut,
  cut-append, false, none, refl, some, sym, true, ◌&&◌, ◌++◌, ◌∷◌, ◌≡◌, ◌≢◌,
}
use overlay_s.Server.Markup.{Content, escape_text, leaf, marshal, no_more, node}
use overlay_s.Server.Markup.Reading.{
  escape_text-Lacks, fields, is_name, is_name-Lacks, named, text_under, texts, texts_end,
  texts_next,
}

abbrev opened : Bytes → Bytes → Bytes
opened n t = n ++ b'>' ∷ t

abbrev pub ended : Bytes → Bytes
ended n = b'/' ∷ n ++ b'>' ∷ []

-- What stands behind a content: nothing, or the next tag
abbrev pub tail : Option Bytes → Bytes
tail none = []
tail (some u) = b'<' ∷ u

abbrev pub after : Bytes → Option Bytes → List Bytes
after name none = []
after name (some u) = texts name u

framed :
    (n mid behind u : Bytes)
    → (b'<' ∷ (n ++ b'>' ∷ (mid ++ b'<' ∷ b'/' ∷ (n ++ b'>' ∷ behind)))) ++ u
      ≡ b'<' ∷ (opened n mid ++ b'<' ∷ (ended n ++ (behind ++ u)))
framed n mid behind u = simp (append_assoc)

opened-Lacks : (n t : Bytes) → is_name n ≡ true → Lacks b'<' t → Lacks b'<' (opened n t)
opened-Lacks n t hn ht =
    All-append (λ x. x ≢ b'<') n (b'>' ∷ t) (is_name-Lacks n hn).0 ((λ e. ground arith), ht)

pub ended-Lacks : (n : Bytes) → is_name n ≡ true → Lacks b'<' (ended n)
ended-Lacks n hn = ((λ e. ground arith), opened-Lacks n [] hn tt)

cut_opened : (n t : Bytes) → is_name n ≡ true → cut (opened n t) b'>' ≡ some (n, t)
cut_opened n t hn = cut-append n t b'>' (is_name-Lacks n hn).1

cut_ended : (n : Bytes) → is_name n ≡ true → cut (ended n) b'>' ≡ some (b'/' ∷ n, [])
cut_ended n hn = cut-append (b'/' ∷ n) [] b'>' ((λ e. ground arith), (is_name-Lacks n hn).1)

-- A name that no closing tag has
abbrev pub IsOpening : Bytes → Type 0
IsOpening name = (n : Bytes) → bytes_eq (b'/' ∷ n) name ≡ false

pub under_ended :
    (name n : Bytes) → IsOpening name → is_name n ≡ true → text_under name (cut (ended n) b'>') ≡ []
under_ended name n h hn = rw (cut_ended n hn) (unfold text_under in rw (h n) refl)

split_named : {a b : Bool} → (a && b) ≡ true → (a ≡ true) × (b ≡ true)
split_named h = (ground arith, ground arith)

pub texts-marshal :
    (name : Bytes) (c : Content) (x : Bytes) (t : Option Bytes)
    → IsOpening name
    → named c ≡ true
    → Lacks b'<' x
    → texts name (x ++ (marshal c ++ tail t))
      ≡ text_under name (cut x b'>') ++ (fields name c ++ after name t)
unfolding fields marshal named
texts-marshal name no_more x none h hc hx = rw (append-nil x) (texts_end name x hx)
texts-marshal name no_more x (some u) h hc hx = texts_next name x u hx
texts-marshal name (leaf n s rest) x t h hc hx =
    let (hn, hr) = split_named hc in
    let written = opened n (escape_text s) in
    rw
      (
        framed n (escape_text s) (marshal rest) (tail t),
        texts_next name x (written ++ b'<' ∷ (ended n ++ (marshal rest ++ tail t))) hx,
        texts_next name written (ended n ++ (marshal rest ++ tail t))
            (opened-Lacks n (escape_text s) hn (escape_text-Lacks s)),
        cut_opened n (escape_text s) hn,
        texts-marshal name rest (ended n) t h hr (ended-Lacks n hn),
        under_ended name n h hn,
      )
      (simp (append_assoc))
texts-marshal name (node n c rest) x t h hc hx =
    let (hn, hcr) = split_named hc in
    let (hk, hr) = split_named hcr in
    let closed = ended n ++ (marshal rest ++ tail t) in
    rw
      (
        framed n (marshal c) (marshal rest) (tail t),
        append_assoc n (b'>' ∷ marshal c) (b'<' ∷ closed),
        texts_next name x (n ++ b'>' ∷ (marshal c ++ b'<' ∷ closed)) hx,
        sym (append_assoc n (b'>' ∷ []) (marshal c ++ b'<' ∷ closed)),
        texts-marshal name c (opened n []) (some closed) h hk (opened-Lacks n [] hn tt),
        cut_opened n [] hn,
        texts-marshal name rest (ended n) t h hr (ended-Lacks n hn),
        under_ended name n h hn,
      )
      (simp (append_assoc))
