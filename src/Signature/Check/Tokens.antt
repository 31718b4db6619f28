-- ===== src/Signature/Check/Tokens.antt =====
-- The fields of an Authorization header as texts: tokens, and the gaps between them.
use overlay_s.Base.{
  All, All-imp, Bool, Bytes, Lacks, [], arith, false, if◌then◌else◌, is_nil, not, refl, split,
  split_from-end, split_from-next, true, ℕ, ◌&&◌, ◌++◌, ◌==◌, ◌∷◌, ◌≡◌, ◌≢◌,
}
use overlay_s.Signature.Verify.{is_space, trim_space, trim_space_left, trim_space_right}

-- A text with no white space and no comma in it
abbrev pub IsToken : Bytes → Type 0
IsToken = All (λ c. (is_space c ≡ false) × (c ≢ b','))

pub split-end : (s : Bytes) (c : ℕ) → Lacks c s → split s c ≡ s ∷ []
unfolding split
split-end s c h = split_from-end [] s c h

pub split-next : (a s : Bytes) (c : ℕ) → Lacks c a → split (a ++ c ∷ s) c ≡ a ∷ split s c
unfolding split
split-next a s c h = split_from-next [] a s c h

pub IsToken-Lacks : (s : Bytes) → IsToken s → Lacks b',' s
IsToken-Lacks s h = All-imp s (λ c k. k.1) h

pub trim_right-IsToken : (s : Bytes) → IsToken s → trim_space_right s ≡ s
unfolding trim_space_right
trim_right-IsToken [] h = refl
trim_right-IsToken (c ∷ s) ((sp, ne), h) = rw (trim_right-IsToken s h, sp) (no_cut (is_nil s))
  where
    no_cut : (t : Bool) → (if t && false then [] else c ∷ s) ≡ c ∷ s
    no_cut true = refl
    no_cut false = refl

pub trim_left-IsToken : (s : Bytes) → IsToken s → trim_space_left s ≡ s
unfolding trim_space_left
trim_left-IsToken [] h = refl
trim_left-IsToken (c ∷ s) ((sp, ne), h) = rw sp refl

pub trim_space-IsToken : (s : Bytes) → IsToken s → trim_space s ≡ s
unfolding trim_space
trim_space-IsToken s h = rw (trim_left-IsToken s h) (trim_right-IsToken s h)

-- A space before a field, or none
pub data Gap : Bytes → Type 0 where
  no_gap : Gap []
  one_space : Gap (32 ∷ [])

pub trim_space-Gap : (gap s : Bytes) → Gap gap → IsToken s → trim_space (gap ++ s) ≡ s
trim_space-Gap _ s no_gap h = trim_space-IsToken s h
trim_space-Gap _ s one_space h =
    unfold trim_space trim_space_left is_space in
    rw (trim_left-IsToken s h) (trim_right-IsToken s h)

pub Gap-Lacks : (gap s : Bytes) → Gap gap → Lacks b',' s → Lacks b',' (gap ++ s)
Gap-Lacks _ s no_gap h = h
Gap-Lacks _ s one_space h = ((λ e. ground arith), h)

-- The test that a text is a token
unfoldable pub is_token : Bytes → Bool
is_token [] = true
is_token (c ∷ s) = not (is_space c) && (not (c == b',') && is_token s)

pub IsToken-of_is_token : (s : Bytes) → is_token s ≡ true → IsToken s
unfolding is_token
IsToken-of_is_token [] h = tt
IsToken-of_is_token (c ∷ s) h =
    ((ground arith, λ e. ground arith), IsToken-of_is_token s (ground arith))
