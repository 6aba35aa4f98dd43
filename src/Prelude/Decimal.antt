-- ===== src/Prelude/Decimal.antt =====
-- `strconv`: decimal printing, and parsing of what may be no number.
use vortexkv.Prelude.Tests.{ltb, leb, ◌==◌, if◌then◌else◌, Bool-cases}
use vortexkv.Prelude.Keys.{Bytes}
use vortexkv.Prelude.Int.{ℤ, pos, negsuc, IsInt64}
use Prim.Native.Nat.{ℕ, zero, suc, ◌+◌, ◌-◌, ◌*◌, ◌/◌, ◌%◌, ◌^◌, ◌≤◌, ◌<◌}
use mathlib.Core.Path.{◌≡◌, ◌∙◌, refl}
use mathlib.Core.Bool.{Bool, ◌&&◌, true}
use mathlib.Core.Logic.{inl, inr}
use mathlib.Core.Option.{Option, none, some}
use mathlib.Core.List.{[], ◌∷◌, ◌++◌}
use native.Mathlib.Omega.{arith}

-- The digits of `n`, most significant first; the number itself is fuel enough.
unfoldable pub print_fuel : ℕ → ℕ → Bytes
print_fuel zero n = (48 + n) ∷ []
print_fuel (suc f) n =
    let more = print_fuel f (n / 10) ++ (48 + n % 10) ∷ [] in
    if ltb n 10 then (48 + n) ∷ [] else more

-- `strconv.Itoa` of a number that is not negative
unfoldable pub print : ℕ → Bytes
unfolding print_fuel
print n = print_fuel n n

-- `strconv.FormatInt(z, 10)`
unfoldable pub print_int : ℤ → Bytes
unfolding print
print_int (pos n) = print n
print_int (negsuc n) = b'-' ∷ print (suc n)

abbrev pub is_digit : ℕ → Bool
is_digit c = leb 48 c && leb c 57

-- The digits read so far are worth `acc`.
unfoldable pub parse_from : ℕ → Bytes → Option ℕ
parse_from acc [] = some acc
parse_from acc (c ∷ cs) = if is_digit c then parse_from (acc * 10 + (c - 48)) cs else none

parse_digits : Bytes → Option ℕ
unfolding parse_from
parse_digits [] = none
parse_digits (c ∷ cs) = parse_from 0 (c ∷ cs)

in_range : ℕ → Option ℕ → Option ℕ
in_range top none = none
in_range top (some n) = if leb n top then some n else none

negate : Option ℕ → Option ℤ
negate none = none
negate (some zero) = some (pos 0)
negate (some (suc n)) = some (negsuc n)

plain : Option ℕ → Option ℤ
plain none = none
plain (some n) = some (pos n)

-- `strconv.ParseInt(s, 10, 64)`, an error as `none`
unfoldable pub parse_int : Bytes → Option ℤ
unfolding parse_digits in_range negate plain parse_from
parse_int [] = none
parse_int (c ∷ cs) =
    if c == b'-'
    then negate (in_range (2 ^ 63) (parse_digits cs))
    else plain (in_range (2 ^ 63 - 1) (parse_digits (if c == b'+' then cs else c ∷ cs)))

-- `strconv.ParseUint(s, 10, 64)`, an error as `none`
unfoldable pub parse_uint : Bytes → Option ℕ
unfolding parse_digits in_range parse_from
parse_uint s = in_range (2 ^ 64 - 1) (parse_digits s)

pub parse_from-append :
    (acc n : ℕ) (xs ys : Bytes)
    → parse_from acc xs ≡ some n
    → parse_from acc (xs ++ ys) ≡ parse_from n ys
unfolding parse_from
parse_from-append acc n [] ys h = ground arith
parse_from-append acc n (x ∷ xs) ys h =
    ground (arith, parse_from-append (acc * 10 + (x - 48)) n xs ys)

parse_from-print_fuel : (f n : ℕ) → n ≤ f → parse_from 0 (print_fuel f n) ≡ some n
unfolding parse_from print_fuel
parse_from-print_fuel zero n h = ground arith
parse_from-print_fuel (suc f) n h = ground (
  arith,
  parse_from-print_fuel f (n / 10),
  parse_from-append 0 (n / 10) (print_fuel f (n / 10)) ((48 + n % 10) ∷ []),
)

-- Reading the digits of a number gives the number back.
pub parse_from-print : (n : ℕ) → parse_from 0 (print n) ≡ some n
unfolding print
parse_from-print n = parse_from-print_fuel n n (omega arith)

-- The first byte of a printed number is a digit.
StartsWithDigit : Bytes → Type 0
StartsWithDigit [] = ⊥
StartsWithDigit (c ∷ cs) = is_digit c ≡ true

StartsWithDigit-append : (xs ys : Bytes) → StartsWithDigit xs → StartsWithDigit (xs ++ ys)
unfolding StartsWithDigit
StartsWithDigit-append [] ys h = absurd h
StartsWithDigit-append (x ∷ xs) ys h = h

print_fuel-StartsWithDigit : (f n : ℕ) → n ≤ f → StartsWithDigit (print_fuel f n)
unfolding print_fuel
print_fuel-StartsWithDigit zero n h = unfold StartsWithDigit in ground arith
print_fuel-StartsWithDigit (suc f) n h = elim (Bool-cases (ltb n 10)) [
  | inl small ↦ rw small (unfold StartsWithDigit in ground arith)
  | inr large ↦ rw large (
      StartsWithDigit-append (print_fuel f (n / 10)) _
        (print_fuel-StartsWithDigit f (n / 10) (ground arith)))
]

parse_digits_lem : (xs : Bytes) → StartsWithDigit xs → parse_digits xs ≡ parse_from 0 xs
unfolding parse_digits StartsWithDigit
parse_digits_lem [] h = absurd h
parse_digits_lem (c ∷ cs) h = refl

parse_digits-print : (n : ℕ) → parse_digits (print n) ≡ some n
unfolding print
parse_digits-print n =
    parse_digits_lem _ (print_fuel-StartsWithDigit n n (omega arith))
    ∙ parse_from-print_fuel n n (omega arith)

-- Without a sign, `parse_int` reads the digits.
parse_int-unsigned :
    (xs : Bytes)
    → StartsWithDigit xs
    → parse_int xs ≡ plain (in_range (2 ^ 63 - 1) (parse_digits xs))
unfolding parse_int StartsWithDigit
parse_int-unsigned [] h = absurd h
parse_int-unsigned (c ∷ cs) h = ground arith

-- Printing an `int64` and reading it again gives it back.
pub parse_int-print_int : (z : ℤ) → IsInt64 z → parse_int (print_int z) ≡ some z
unfolding print_int
parse_int-print_int (pos n) h =
    parse_int-unsigned (print n) (unfold print in print_fuel-StartsWithDigit n n (omega arith))
    ∙ (rw (parse_digits-print n) (unfold plain in_range in ground arith))
parse_int-print_int (negsuc n) h =
    unfold parse_int in rw (parse_digits-print (suc n)) (unfold negate in_range in ground arith)

pub parse_uint-print : (n : ℕ) → n < 2 ^ 64 → parse_uint (print n) ≡ some n
unfolding parse_uint
parse_uint-print n h = rw (parse_digits-print n) (unfold in_range in ground arith)

-- A printed number is digits only.
abbrev pub Digits : Bytes → Type 0
Digits [] = Unit
Digits (c ∷ cs) = (is_digit c ≡ true) × Digits cs

Digits-append : (xs ys : Bytes) → Digits xs → Digits ys → Digits (xs ++ ys)
Digits-append [] ys h k = k
Digits-append (x ∷ xs) ys h k = (h.0, Digits-append xs ys h.1 k)

print_fuel-Digits : (f n : ℕ) → n ≤ f → Digits (print_fuel f n)
unfolding print_fuel
print_fuel-Digits zero n h = (ground arith, tt)
print_fuel-Digits (suc f) n h = elim (Bool-cases (ltb n 10)) [
  | inl small ↦ rw small (ground arith, tt)
  | inr large ↦ rw large (
      Digits-append (print_fuel f (n / 10)) _ (print_fuel-Digits f (n / 10) (ground arith))
        (ground arith, tt))
]

pub print-Digits : (n : ℕ) → Digits (print n)
unfolding print
print-Digits n = print_fuel-Digits n n (omega arith)

in_range-le : (top : ℕ) (o : Option ℕ) (n : ℕ) → in_range top o ≡ some n → n ≤ top
unfolding in_range
in_range-le top none n h = absurd (ground (arith, h))
in_range-le top (some m) n h = ground (arith, h)

pub parse_uint-lt : (xs : Bytes) (n : ℕ) → parse_uint xs ≡ some n → n < 2 ^ 64
unfolding parse_uint
parse_uint-lt xs n h = omega (arith, in_range-le (2 ^ 64 - 1) (parse_digits xs) n h)
