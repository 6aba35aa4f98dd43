-- ===== src/Resp/Reader/Lines.antt =====
-- Reading a line, a number and a bulk string that were written.
use vortexkv.Prelude.{
  ℕ, zero, suc, ◌+◌, ◌-◌, ◌%◌, ◌/◌, ◌^◌, ◌≤◌, ◌<◌, ◌≡◌, refl, ap, ◌∙◌, none, some, [], ◌∷◌, ◌++◌,
  Bytes, length, take, drop, get_or, arith, length-append, take-append_length,
}
use vortexkv.Prelude.Int.{ℤ, pos, negsuc, IsInt64}
use vortexkv.Prelude.Decimal.{
  print, print_fuel, print_int, parse_int, parse_int-print_int, Digits, print-Digits,
}
use vortexkv.Reactor.Parser.{index_byte}
use vortexkv.Resp.Values.{bulk_string}
use vortexkv.Resp.Reader.{
  got, failed, Reader, buffer_size, line_to, read_line, read_number, as_number, read_full,
  ended_bulk, bulk_of_length, read_bulk, max_bulk_length, ◌>>=◌,
}

index_byte-ended :
    (xs rest : Bytes)
    → index_byte 10 xs ≡ none
    → index_byte 10 (xs ++ 13 ∷ 10 ∷ rest) ≡ some (length xs + 1)
unfolding index_byte
index_byte-ended [] rest h = refl
index_byte-ended (x ∷ xs) rest h = ground (arith, index_byte-ended xs rest)

get_or-append : (xs ys : Bytes) (y d : ℕ) → get_or (xs ++ y ∷ ys) (length xs) d ≡ y
get_or-append [] ys y d = refl
get_or-append (x ∷ xs) ys y d = get_or-append xs ys y d

drop-two : (xs ys : Bytes) (a b : ℕ) → drop (length xs + 2) (xs ++ a ∷ b ∷ ys) ≡ ys
drop-two [] ys a b = refl
drop-two (x ∷ xs) ys a b =
    ap (λ n. drop n ((x ∷ xs) ++ a ∷ b ∷ ys)) {x = length (x ∷ xs) + 2} {y = suc (length xs + 2)}
      (omega arith)
    ∙ drop-two xs ys a b

-- A line without "\n" that fits the buffer is read as it was written.
pub read_line-ended :
    (xs rest : Bytes)
    → index_byte 10 xs ≡ none
    → length xs + 1 < buffer_size
    → read_line (xs ++ 13 ∷ 10 ∷ rest) ≡ got xs rest
unfolding read_line
read_line-ended xs rest h small =
    let bs : Bytes = xs ++ 13 ∷ 10 ∷ rest in
    let found : line_to bs (index_byte 10 bs) ≡ line_to bs (some (length xs + 1)) =
      ap (line_to bs) (index_byte-ended xs rest h) in
    let before : get_or bs (length xs + 1 - 1) 0 ≡ 13 =
      ap (λ n. get_or bs n 0) {x = length xs + 1 - 1} {y = length xs} (omega arith)
      ∙ get_or-append xs (10 ∷ rest) 13 0 in
    let body : take (length xs + 1 - 1) bs ≡ xs =
      ap (λ n. take n bs) {x = length xs + 1 - 1} {y = length xs} (omega arith)
      ∙ take-append_length xs (13 ∷ 10 ∷ rest) in
    let behind : drop (length xs + 1 + 1) bs ≡ rest =
      ap (λ n. drop n bs) {x = length xs + 1 + 1} {y = length xs + 2} (omega arith)
      ∙ drop-two xs rest 13 10 in
    found ∙ (unfold line_to in ground (arith, before, body, behind))

-- The digits of a number below 10 ^ (k + 1).
IsShort : ℕ → ℕ → Type 0
IsShort zero n = n < 10
IsShort (suc k) n = IsShort k (n / 10)

length-print_fuel : (k f n : ℕ) → IsShort k n → length (print_fuel f n) ≤ suc k
unfolding print_fuel IsShort
length-print_fuel k zero n h = omega arith
length-print_fuel zero (suc f) n h = ground (arith, h)
length-print_fuel (suc k) (suc f) n h = ground (
  arith,
  length-print_fuel k f (n / 10) h,
  length-append (print_fuel f (n / 10)) ((48 + n % 10) ∷ []),
)

length-print : (n : ℕ) → n ≤ 2 ^ 63 → length (print n) ≤ 19
unfolding print IsShort
length-print n h = length-print_fuel 18 n n (omega (arith, h))

index_byte-Digits : (xs : Bytes) → Digits xs → index_byte 10 xs ≡ none
unfolding index_byte
index_byte-Digits [] h = refl
index_byte-Digits (x ∷ xs) h = ground (arith, h.0, index_byte-Digits xs h.1)

index_byte-print_int : (z : ℤ) → index_byte 10 (print_int z) ≡ none
unfolding print_int
index_byte-print_int (pos n) = index_byte-Digits (print n) (print-Digits n)
index_byte-print_int (negsuc n) =
    unfold index_byte in ground (arith, index_byte-Digits (print (suc n)) (print-Digits (suc n)))

length-print_int : (z : ℤ) → IsInt64 z → length (print_int z) ≤ 20
unfolding print_int
length-print_int (pos n) h = omega (arith, h, length-print n)
length-print_int (negsuc n) h = omega (arith, h, length-print (suc n))

-- A reader that succeeds hands its result and the bytes behind it on.
pub bind-got :
    {A B : Type 0} (m : Reader A) (k : A → Reader B) {bs rest : Bytes} {a : A}
    → m bs ≡ got a rest
    → (m >>= k) bs ≡ k a rest
bind-got m k h = ap (λ r. elim r [ got a rest ↦ k a rest | failed e ↦ failed e ]) h

-- The line of a number is read back.
pub read_number-print_int :
    (z : ℤ) (rest : Bytes) → IsInt64 z → read_number (print_int z ++ 13 ∷ 10 ∷ rest) ≡ got z rest
unfolding read_number
read_number-print_int z rest h =
    let line : read_line (print_int z ++ 13 ∷ 10 ∷ rest) ≡ got (print_int z) rest =
      read_line-ended (print_int z) rest (index_byte-print_int z)
        (omega (arith, length-print_int z h)) in
    let next : as_number (parse_int (print_int z)) rest ≡ got z rest =
      unfold as_number in rw (parse_int-print_int z h) refl in
    bind-got read_line (λ l. as_number (parse_int l)) line ∙ next

take-two : (xs ys : Bytes) (a b : ℕ) → take (length xs + 2) (xs ++ a ∷ b ∷ ys) ≡ xs ++ a ∷ b ∷ []
take-two [] ys a b = refl
take-two (x ∷ xs) ys a b =
    ap (λ n. take n ((x ∷ xs) ++ a ∷ b ∷ ys)) {x = length (x ∷ xs) + 2} {y = suc (length xs + 2)}
      (omega arith)
    ∙ ap (λ l. x ∷ l) (take-two xs ys a b)

get_or-second : (xs : Bytes) (a b d : ℕ) → get_or (xs ++ a ∷ b ∷ []) (length xs + 1) d ≡ b
get_or-second [] a b d = refl
get_or-second (x ∷ xs) a b d =
    ap (λ n. get_or ((x ∷ xs) ++ a ∷ b ∷ []) n d) {x = length (x ∷ xs) + 1}
      {y = suc (length xs + 1)} (omega arith)
    ∙ get_or-second xs a b d

read_full-ended :
    (s rest : Bytes) → read_full (length s + 2) (s ++ 13 ∷ 10 ∷ rest) ≡ got (s ++ 13 ∷ 10 ∷ []) rest
unfolding read_full
read_full-ended s rest =
    ground (arith, length-append s (13 ∷ 10 ∷ rest), take-two s rest 13 10, drop-two s rest 13 10)

ended_bulk-ended :
    (s rest : Bytes) → ended_bulk (length s) (s ++ 13 ∷ 10 ∷ []) rest ≡ got (bulk_string s) rest
unfolding ended_bulk
ended_bulk-ended s rest = ground (
  arith,
  get_or-append s (10 ∷ []) 13 0,
  get_or-second s 13 10 0,
  take-append_length s (13 ∷ 10 ∷ []),
)

-- A bulk string of at most 512 MB is read back.
pub read_bulk-bulk_string :
    (s rest : Bytes)
    → length s ≤ max_bulk_length
    → read_bulk (print (length s) ++ 13 ∷ 10 ∷ (s ++ 13 ∷ 10 ∷ rest)) ≡ got (bulk_string s) rest
unfolding read_bulk
read_bulk-bulk_string s rest small =
    let n : ℕ = length s in
    let after : Bytes = s ++ 13 ∷ 10 ∷ rest in
    let number : read_number (print n ++ 13 ∷ 10 ∷ after) ≡ got (pos n) after =
      unfold print_int in read_number-print_int (pos n) after (omega (arith, small)) in
    let within : bulk_of_length (pos n) after ≡ (read_full (n + 2) >>= ended_bulk n) after =
      unfold bulk_of_length in ground (arith, small) in
    bind-got read_number bulk_of_length number
    ∙ within
    ∙ bind-got (read_full (n + 2)) (ended_bulk n) (read_full-ended s rest)
    ∙ ended_bulk-ended s rest
