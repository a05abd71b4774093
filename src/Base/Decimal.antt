-- ===== src/Base/Decimal.antt =====
-- `strconv.FormatUint`, `FormatInt` and `ParseInt` in base ten, for 64-bit integers.
use s3pgstore.Base.{
  ℕ, zero, suc, ◌+◌, ◌-◌, ◌*◌, ◌/◌, ◌%◌, ◌^◌, ◌≤◌, ◌<◌, ◌≡◌, ◌≢◌, refl, ap, ◌∙◌, ◌&&◌, Option, none,
  some, [], ◌∷◌, ◌++◌, arith, if◌then◌else◌, ltb, leb, ◌==◌, Bool-cases, inl, inr, subst, Bytes,
  All, All-append,
}
use mathlib.Core.List.{concat-ne-nil}
use s3pgstore.Base.Int.{ℤ, pos, negsuc}

-- The decimal digits; the fuel is enough when it exceeds the number.
digits : ℕ → ℕ → Bytes
digits zero n = []
digits (suc f) n =
    let front = digits f (n / 10) in
    if ltb n 10 then (48 + n) ∷ [] else front ++ ((48 + n % 10) ∷ [])

unfoldable pub format_uint : ℕ → Bytes
unfolding digits
format_uint n = digits (suc n) n

unfoldable pub format_int : ℤ → Bytes
unfolding format_uint
format_int (pos n) = format_uint n
format_int (negsuc n) = b'-' ∷ format_uint (suc n)

abbrev pub IsDigit : ℕ → Type 0
IsDigit c = (48 ≤ c) × (c ≤ 57)

parse_digits : Bytes → ℕ → Option ℕ
parse_digits [] n = some n
parse_digits (c ∷ s) n = if leb 48 c && leb c 57 then parse_digits s (n * 10 + (c - 48)) else none

parse_uint : Bytes → Option ℕ
unfolding parse_digits
parse_uint [] = none
parse_uint (c ∷ s) = parse_digits (c ∷ s) 0

-- The range of an int64.
negated : Option ℕ → Option ℤ
negated none = none
negated (some zero) = some (pos 0)
negated (some (suc n)) = if ltb n (2 ^ 63) then some (negsuc n) else none

positive : Option ℕ → Option ℤ
positive none = none
positive (some n) = if ltb n (2 ^ 63) then some (pos n) else none

unfoldable pub parse_int : Bytes → Option ℤ
unfolding parse_uint positive negated
parse_int [] = none
parse_int (c ∷ s) =
    if c == b'-'
    then negated (parse_uint s)
    else if c == b'+'
    then positive (parse_uint s)
    else positive (parse_uint (c ∷ s))

-- The int64 values.
abbrev pub IsInt64 : ℤ → Type 0
IsInt64 (pos n) = n < 2 ^ 63
IsInt64 (negsuc n) = n < 2 ^ 63

digits-IsDigit : (f n : ℕ) → All IsDigit (digits f n)
unfolding digits
digits-IsDigit zero n = tt
digits-IsDigit (suc f) n = ground (
  arith,
  digits-IsDigit f (n / 10),
  All-append IsDigit (digits f (n / 10)) ((48 + n % 10) ∷ []) (digits-IsDigit f (n / 10))
      (omega arith),
)

parse_digits-append :
    (s : Bytes) (c acc m : ℕ)
    → IsDigit c
    → parse_digits s acc ≡ some m
    → parse_digits (s ++ (c ∷ [])) acc ≡ some (m * 10 + (c - 48))
unfolding parse_digits
parse_digits-append [] c acc m d h = ground arith
parse_digits-append (x ∷ s) c acc m d h =
    ground (arith, parse_digits-append s c (acc * 10 + (x - 48)) m d)

parse_digits-digits : (f n : ℕ) → n < f → parse_digits (digits f n) 0 ≡ some n
unfolding digits
parse_digits-digits zero n h = absurd (omega arith)
parse_digits-digits (suc f) n h = elim (Bool-cases (ltb n 10)) [
  | inl small ↦ rw small (unfold parse_digits in ground arith)
  | inr big ↦ rw big (
      parse_digits-append (digits f (n / 10)) (48 + n % 10) 0 (n / 10) (ground arith)
        (parse_digits-digits f (n / 10) (ground arith))
      ∙ ap some (ground arith))
]

digits-ne-nil : (f n : ℕ) → digits (suc f) n ≢ []
unfolding digits
digits-ne-nil f n = ground (arith, concat-ne-nil (48 + n % 10) (digits f (n / 10)))

-- The print of a number starts with a digit.
format_uint-cons : (n : ℕ) → (c : ℕ) × (s : Bytes) × (format_uint n ≡ c ∷ s) × IsDigit c
format_uint-cons n = go (format_uint n) refl (unfold format_uint in digits-IsDigit (suc n) n)
  where
    go :
        (t : Bytes)
        → format_uint n ≡ t
        → All IsDigit t
        → (c : ℕ) × (s : Bytes) × (format_uint n ≡ c ∷ s) × IsDigit c
    go [] e d = absurd (unfold format_uint in digits-ne-nil n n e)
    go (c ∷ s) e (dc, d) = (c, s, e, dc)

parse_uint_of_ne_nil : (s : Bytes) → s ≢ [] → parse_uint s ≡ parse_digits s 0
unfolding parse_uint
parse_uint_of_ne_nil [] h = absurd (h refl)
parse_uint_of_ne_nil (c ∷ s) h = refl

parse_uint-format_uint : (n : ℕ) → parse_uint (format_uint n) ≡ some n
unfolding format_uint
parse_uint-format_uint n =
    parse_uint_of_ne_nil (digits (suc n) n) (digits-ne-nil n n)
    ∙ parse_digits-digits (suc n) n (omega arith)

parse_int_of_digits :
    (n c : ℕ) (s : Bytes)
    → format_uint n ≡ c ∷ s
    → IsDigit c
    → n < 2 ^ 63
    → parse_int (format_uint n) ≡ some (pos n)
unfolding parse_int
parse_int_of_digits n c s e d h =
    let back : parse_uint (c ∷ s) ≡ some n =
      subst (λ t. parse_uint t ≡ some n) e (parse_uint-format_uint n) in
    rw e (ground (arith, back))

-- Every int64 is read back from its decimal print.
pub parse_int-format_int : (z : ℤ) → IsInt64 z → parse_int (format_int z) ≡ some z
unfolding format_int parse_int
parse_int-format_int (pos n) h =
    let (c, s, e, d) = format_uint-cons n in parse_int_of_digits n c s e d h
parse_int-format_int (negsuc n) h = ground (arith, parse_uint-format_uint (suc n))

pub parse_int-format_uint : (n : ℕ) → n < 2 ^ 63 → parse_int (format_uint n) ≡ some (pos n)
parse_int-format_uint n h = unfold format_int in parse_int-format_int (pos n) h
