-- ===== src/Common/Strings/Decimal.antt =====
-- strconv.Itoa and strconv.Atoi, at 64 bits.
use Prim.Native.Nat.{ℕ, zero, suc, ◌+◌, ◌-◌, ◌*◌, ◌/◌, ◌%◌, ◌^◌, ◌≤◌, ◌<◌, min}
use mathlib.Core.Path.{◌≡◌, refl, sym, ap, ◌∙◌}
use mathlib.Core.Logic.{inl, inr}
use mathlib.Core.List.{[], ◌∷◌, ◌++◌, append_assoc, append-nil}
use mathlib.Core.Bool.{Bool, ◌&&◌, not}
use mathlib.Core.Option.{Option, none, some}
use native.Mathlib.Omega.{arith}
use singbox_deploy.Common.Tests.{nat_beq, ltb, leb, if◌then◌else◌, Bool-cases}
use singbox_deploy.Common.Lists.{All, All-append, All-map}
use singbox_deploy.Common.Int.{ℤ, pos, negsuc}
use singbox_deploy.Common.Strings.Defs.{Text, is_empty}

abbrev pub IsDigit : ℕ → Type 0
IsDigit c = (b'0' ≤ c) × (c ≤ b'9')

digits : ℕ → ℕ → Text
digits zero n = []
digits (suc fuel) n =
    let rest = digits fuel (n / 10) in
    if ltb n 10 then (b'0' + n) ∷ [] else rest ++ (b'0' + n % 10) ∷ []

-- Every round divides by ten, so that `n + 1` rounds are enough.
unfoldable pub format_nat : ℕ → Text
unfolding digits
format_nat n = digits (suc n) n

unfoldable pub itoa : ℤ → Text
unfolding format_nat
itoa (pos n) = format_nat n
itoa (negsuc n) = b'-' ∷ format_nat (suc n)

unfoldable pub parse_digits : ℕ → Text → Option ℕ
parse_digits acc [] = some acc
parse_digits acc (c ∷ s) =
    let rest = parse_digits (acc * 10 + (c - b'0')) s in
    if leb b'0' c && leb c b'9' then rest else none

abbrev pub int_limit : ℕ
int_limit = 2 ^ 63

abbrev negate : ℕ → ℤ
negate zero = pos zero
negate (suc n) = negsuc n

parse_magnitude : Text → Option ℕ
unfolding parse_digits
parse_magnitude s = if is_empty s then none else parse_digits 0 s

abbrev within : (ℕ → Bool) → (ℕ → ℤ) → Option ℕ → Option ℤ
within fits sign none = none
within fits sign (some n) = if fits n then some (sign n) else none

unfoldable pub atoi : Text → Option ℤ
unfolding parse_magnitude
atoi [] = none
atoi (c ∷ s) =
    if nat_beq c b'-'
    then within (λ n. leb n int_limit) negate (parse_magnitude s)
    else if nat_beq c b'+'
    then within (λ n. ltb n int_limit) pos (parse_magnitude s)
    else within (λ n. ltb n int_limit) pos (parse_magnitude (c ∷ s))

parse_digits-digits :
    (fuel n : ℕ) (rest : Text)
    → n < fuel
    → parse_digits 0 (digits fuel n ++ rest) ≡ parse_digits n rest
unfolding digits parse_digits
parse_digits-digits zero n rest h = elim h [ ]
parse_digits-digits (suc fuel) n rest h = elim (Bool-cases (ltb n 10)) [
  | inl small ↦ rw small (ground arith)
  | inr large ↦
      rw (large, append_assoc (digits fuel (n / 10)) ((b'0' + n % 10) ∷ []) rest)
        (parse_digits-digits fuel (n / 10) ((b'0' + n % 10) ∷ rest) (ground arith) ∙ ground arith)
]

IsDigit-digits : (fuel n : ℕ) → All IsDigit (digits fuel n)
unfolding digits
IsDigit-digits zero n = tt
IsDigit-digits (suc fuel) n = elim (Bool-cases (ltb n 10)) [
  | inl small ↦ rw small (ground arith)
  | inr large ↦
      rw large
        (All-append IsDigit (digits fuel (n / 10)) _ (IsDigit-digits fuel (n / 10)) (omega arith))
]

-- A printed natural number begins with a digit.
format_nat-cons : (n : ℕ) → (c : ℕ) × (s : Text) × (format_nat n ≡ c ∷ s) × (IsDigit c)
unfolding format_nat
format_nat-cons n = elim (Bool-cases (ltb n 10)) [
  | inl small ↦ (b'0' + n, [], ground arith, ground arith)
  | inr large ↦ go (digits n (n / 10)) (rw large) (IsDigit-digits (suc n) n)
]
  where
    go :
        (s : Text)
        → digits (suc n) n ≡ s ++ (b'0' + n % 10) ∷ []
        → All IsDigit (digits (suc n) n)
        → (c : ℕ) × (t : Text) × (digits (suc n) n ≡ c ∷ t) × (IsDigit c)
    go [] e h = (b'0' + n % 10, [], e, ground arith)
    go (c ∷ s) e h = (c, s ++ (b'0' + n % 10) ∷ [], e, let h' = rw e at h in h'.0)

pub IsDigit-format_nat : (n : ℕ) → All IsDigit (format_nat n)
unfolding format_nat
IsDigit-format_nat n = IsDigit-digits (suc n) n

pub parse_digits-format_nat : (n : ℕ) → parse_digits 0 (format_nat n) ≡ some n
unfolding format_nat parse_digits
parse_digits-format_nat n =
    ap (parse_digits 0) (sym-append-nil (digits (suc n) n))
    ∙ parse_digits-digits (suc n) n [] (omega arith)
  where
    sym-append-nil : (s : Text) → s ≡ s ++ []
    sym-append-nil s = rw append-nil

pub itoa-pos : (n : ℕ) → itoa (pos n) ≡ format_nat n
unfolding itoa
itoa-pos n = refl

atoi_of_digits :
    (c : ℕ) (s : Text) (n : ℕ)
    → IsDigit c
    → parse_digits 0 (c ∷ s) ≡ some n
    → n < int_limit
    → atoi (c ∷ s) ≡ some (pos n)
unfolding atoi
atoi_of_digits c s n digit parsed fits = ground arith

-- A number that fits comes back from its decimal form.
pub atoi-itoa : (n : ℕ) → n < int_limit → atoi (itoa (pos n)) ≡ some (pos n)
atoi-itoa n h =
    let (c, s, e, digit) = format_nat-cons n in
    rw (itoa-pos n, e)
      (atoi_of_digits c s n digit (ap (parse_digits 0) (sym e) ∙ parse_digits-format_nat n) h)

-- More fuel changes nothing.
digits_fuel : (f g n : ℕ) → n < f → n < g → digits f n ≡ digits g n
unfolding digits
digits_fuel zero g n hf hg = elim hf [ ]
digits_fuel (suc f) zero n hf hg = elim hg [ ]
digits_fuel (suc f) (suc g) n hf hg = elim (Bool-cases (ltb n 10)) [
  | inl small ↦ rw small refl
  | inr large ↦
      rw large (
        ap (λ s. s ++ (b'0' + n % 10) ∷ [])
          (digits_fuel f g (n / 10) (ground arith) (ground arith)))
]

pub format_nat_small : (n : ℕ) → n < 10 → format_nat n ≡ (b'0' + n) ∷ []
unfolding format_nat
format_nat_small n h = ground arith

pub format_nat_large : (n : ℕ) → 10 ≤ n → format_nat n ≡ format_nat (n / 10) ++ (b'0' + n % 10) ∷ []
unfolding format_nat
format_nat_large n h = elim (Bool-cases (ltb n 10)) [
  | inl small ↦ absurd (ground arith)
  | inr large ↦ rw large (
      ap (λ s. s ++ (b'0' + n % 10) ∷ [])
        (digits_fuel n (suc (n / 10)) (n / 10) (ground arith) (omega arith)))
]

-- What strconv.ParseUint returns in base 10 beside any error: 0 at the first character that is no
-- digit, the largest word at the first digit that overflows.
abbrev pub uint_limit : ℕ
uint_limit = 2 ^ 64

unfoldable pub uint_from : ℕ → Text → ℕ
uint_from acc [] = acc
uint_from acc (c ∷ s) =
    let rest = uint_from (acc * 10 + (c - b'0')) s in
    if not (leb b'0' c && leb c b'9')
    then 0
    else if leb uint_limit (acc * 10 + (c - b'0'))
    then uint_limit - 1
    else rest

unfoldable pub parse_uint : Text → ℕ
unfolding uint_from
parse_uint s = uint_from 0 s

-- What strconv.Atoi returns beside any error: 0, or the nearest number that fits.
unfoldable pub atoi_value : Text → ℤ
unfolding parse_uint
atoi_value [] = pos 0
atoi_value (c ∷ s) =
    if nat_beq c b'-'
    then negate (min (parse_uint s) int_limit)
    else if nat_beq c b'+'
    then pos (min (parse_uint s) (int_limit - 1))
    else pos (min (parse_uint (c ∷ s)) (int_limit - 1))

parse_digits-le : (acc : ℕ) (s : Text) (n : ℕ) → parse_digits acc s ≡ some n → acc ≤ n
unfolding parse_digits
parse_digits-le acc [] n h = ground arith
parse_digits-le acc (c ∷ s) n h = ground (arith, parse_digits-le (acc * 10 + (c - b'0')) s n)

uint_from_lem :
    (acc : ℕ) (s : Text) (n : ℕ)
    → parse_digits acc s ≡ some n
    → n < uint_limit
    → uint_from acc s ≡ n
unfolding parse_digits uint_from
uint_from_lem acc [] n h fits = ground arith
uint_from_lem acc (c ∷ s) n h fits =
    ground (
      arith,
      parse_digits-le (acc * 10 + (c - b'0')) s n,
      uint_from_lem (acc * 10 + (c - b'0')) s n,
    )

pub parse_uint-format_nat : (n : ℕ) → n < uint_limit → parse_uint (format_nat n) ≡ n
unfolding parse_uint
parse_uint-format_nat n h = uint_from_lem 0 (format_nat n) n (parse_digits-format_nat n) h

-- The integers of 64 bits.
abbrev pub FitsInt : ℤ → Type 0
FitsInt (pos n) = n < int_limit
FitsInt (negsuc n) = n < int_limit

-- Every integer of 64 bits comes back from its decimal form.
pub atoi_value-itoa : (p : ℤ) → FitsInt p → atoi_value (itoa p) ≡ p
unfolding atoi_value itoa
atoi_value-itoa (pos n) h =
    let (c, s, e, digit) = format_nat-cons n in
    let parsed : parse_uint (c ∷ s) ≡ n =
      ap parse_uint (sym e) ∙ parse_uint-format_nat n (ground arith) in
    rw e (ground (arith, parsed))
atoi_value-itoa (negsuc n) h = ground (arith, parse_uint-format_nat (suc n))

-- A printed number is not empty, and begins and ends with no space.
pub itoa-cons : (p : ℤ) → (c : ℕ) × (s : Text) × (itoa p ≡ c ∷ s)
unfolding itoa
itoa-cons (pos n) = let (c, s, e, digit) = format_nat-cons n in (c, s, e)
itoa-cons (negsuc n) = (b'-', format_nat (suc n), refl)

pub format_nat-some : (n : ℕ) → (c : ℕ) × (s : Text) × (format_nat n ≡ c ∷ s)
format_nat-some n = let (c, s, e, digit) = format_nat-cons n in (c, s, e)

-- Digits and the sign, of which no character is a space.
abbrev pub IsNumeral : ℕ → Type 0
IsNumeral c = (45 ≤ c) × (c ≤ b'9')

pub IsNumeral-format_nat : (n : ℕ) → All IsNumeral (format_nat n)
IsNumeral-format_nat n =
    All-map IsDigit IsNumeral (λ c d. omega arith) (format_nat n) (IsDigit-format_nat n)

pub IsNumeral-itoa : (p : ℤ) → All IsNumeral (itoa p)
unfolding itoa
IsNumeral-itoa (pos n) = IsNumeral-format_nat n
IsNumeral-itoa (negsuc n) = (omega arith, IsNumeral-format_nat (suc n))
