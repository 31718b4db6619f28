-- ===== src/Base/Decimal.antt =====
-- strconv.ParseUint, ParseInt and FormatUint, with an error of any kind as `none`.
use overlay_s.Base.Int.{negsuc, pos, ℤ}
use overlay_s.Base.Lists.{All, All-imp, is_nil}
use overlay_s.Base.Strings.{Bytes}
use overlay_s.Base.Tests.{
  Bool, Option, [], arith, false, if◌then◌else◌, leb, ltb, none, refl, some, suc, true, zero, ℕ,
  ◌%◌, ◌&&◌, ◌*◌, ◌+◌, ◌-◌, ◌/◌, ◌<◌, ◌==◌, ◌^◌, ◌||◌, ◌∙◌, ◌∷◌, ◌≡◌, ◌≤◌,
}
use overlay_s.Base.Text.{Lacks}

abbrev pub max_u64 : ℕ
max_u64 = 2 ^ 64 - 1

-- The value of a digit of any base up to 36.
digit : ℕ → Option ℕ
digit c =
    if leb b'0' c && leb c b'9'
    then some (c - b'0')
    else if leb b'a' c && leb c b'z'
    then some (c - b'a' + 10)
    else if leb b'A' c && leb c b'Z'
    then some (c - b'A' + 10)
    else none

push_digit : ℕ → ℕ → Option ℕ → Option ℕ
push_digit base n none = none
push_digit base n (some d) =
    if leb base d || ltb max_u64 (n * base + d) then none else some (n * base + d)

scan : ℕ → Bytes → ℕ → Option ℕ
unfolding digit push_digit
scan base [] n = some n
scan base (c ∷ s) n = elim (push_digit base n (digit c)) [ none ↦ none | some m ↦ scan base s m ]

-- strconv.ParseUint(s, base, 64) for a base between 2 and 36
unfoldable pub parse_uint : ℕ → Bytes → Option ℕ
unfolding scan
parse_uint base [] = none
parse_uint base (c ∷ s) = scan base (c ∷ s) 0

abbrev signed : Bool → Option ℕ → Option ℤ
signed neg none = none
signed true (some zero) = some (pos 0)
signed true (some (suc n)) = if ltb n (2 ^ 63) then some (negsuc n) else none
signed false (some n) = if ltb n (2 ^ 63) then some (pos n) else none

-- strconv.ParseInt(s, base, 64); strconv.Atoi(s) is the same at base 10
unfoldable pub parse_int : ℕ → Bytes → Option ℤ
unfolding parse_uint
parse_int base [] = none
parse_int base (c ∷ s) =
    if c == b'+'
    then signed false (parse_uint base s)
    else if c == b'-'
    then signed true (parse_uint base s)
    else signed false (parse_uint base (c ∷ s))

-- The digits of n before `out`; `n + 1` rounds are enough.
digits : ℕ → ℕ → Bytes → Bytes
digits zero n out = out
digits (suc f) n out =
    let rest = digits f (n / 10) ((b'0' + n % 10) ∷ out) in
    if ltb n 10 then (b'0' + n) ∷ out else rest

-- strconv.FormatUint(n, 10)
unfoldable pub format_uint : ℕ → Bytes
unfolding digits
format_uint n = digits (n + 1) n []

scan_digit :
    (n m : ℕ) (s : Bytes)
    → n < 10
    → m * 10 + n ≤ max_u64
    → scan 10 ((b'0' + n) ∷ s) m ≡ scan 10 s (m * 10 + n)
unfolding scan
scan_digit n m s h k = ground arith

scan-digits :
    (f n : ℕ) (out : Bytes) → n < f → n ≤ max_u64 → scan 10 (digits f n out) 0 ≡ scan 10 out n
unfolding digits
scan-digits zero n out h k = absurd (omega arith)
scan-digits (suc f) n out h k = ground (
  arith,
  scan_digit n 0 out,
  scan_digit (n % 10) (n / 10) out,
  scan-digits f (n / 10) ((b'0' + n % 10) ∷ out),
)

abbrev head_or_zero : Bytes → ℕ
head_or_zero [] = 0
head_or_zero (c ∷ s) = c

digits_head :
    (f n : ℕ) (out : Bytes)
    → n < f
    → (b'0' ≤ head_or_zero (digits f n out)) × (head_or_zero (digits f n out) ≤ b'9')
unfolding digits
digits_head zero n out h = absurd (omega arith)
digits_head (suc f) n out h = ground (arith, digits_head f (n / 10) ((b'0' + n % 10) ∷ out))

parse_uint-scan : (base : ℕ) (s : Bytes) → 0 < head_or_zero s → parse_uint base s ≡ scan base s 0
unfolding parse_uint
parse_uint-scan base [] h = absurd (omega arith)
parse_uint-scan base (c ∷ s) h = refl

-- Every uint64 is read back from its decimal print.
pub parse_uint-format_uint : (n : ℕ) → n ≤ max_u64 → parse_uint 10 (format_uint n) ≡ some n
unfolding format_uint
parse_uint-format_uint n h =
    let starts = (digits_head (n + 1) n [] (omega arith)).0 in
    parse_uint-scan 10 _ (omega (arith, starts))
    ∙ unfold scan in scan-digits (n + 1) n [] (omega arith) h

parse_int-parse_uint :
    (base : ℕ) (s : Bytes)
    → b'0' ≤ head_or_zero s
    → parse_int base s ≡ signed false (parse_uint base s)
unfolding parse_int
parse_int-parse_uint base [] h = absurd (omega arith)
parse_int-parse_uint base (c ∷ s) h = ground arith

-- Every nonnegative int64 is read back from its decimal print.
pub parse_int-format_uint : (n : ℕ) → n < 2 ^ 63 → parse_int 10 (format_uint n) ≡ some (pos n)
unfolding format_uint
parse_int-format_uint n h =
    let starts = (digits_head (n + 1) n [] (omega arith)).0 in
    ground (arith, parse_int-parse_uint 10 (format_uint n) starts, parse_uint-format_uint n)

abbrev pub IsDigit : ℕ → Type 0
IsDigit c = (b'0' ≤ c) × (c ≤ b'9')

digits-IsDigit : (f n : ℕ) (out : Bytes) → n < f → All IsDigit out → All IsDigit (digits f n out)
unfolding digits
digits-IsDigit zero n out h k = k
digits-IsDigit (suc f) n out h k = ground (arith, digits-IsDigit f (n / 10) ((b'0' + n % 10) ∷ out))

pub format_uint-IsDigit : (n : ℕ) → All IsDigit (format_uint n)
unfolding format_uint
format_uint-IsDigit n = digits-IsDigit (n + 1) n [] (omega arith) tt

pub format_uint-Lacks : (c n : ℕ) → c < b'0' → Lacks c (format_uint n)
format_uint-Lacks c n h =
    All-imp (format_uint n) (λ x (d : IsDigit x). omega arith) (format_uint-IsDigit n)

pub is_nil-format_uint : (n : ℕ) → is_nil (format_uint n) ≡ false
unfolding format_uint
is_nil-format_uint n = ground (arith, digits_head (n + 1) n [])

-- fmt's %d
abbrev pub format_int : ℤ → Bytes
format_int (pos n) = format_uint n
format_int (negsuc n) = b'-' ∷ format_uint (n + 1)
