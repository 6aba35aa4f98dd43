-- ===== src/Reactor/Parser/Round.antt =====
-- What `SerializeCommand` writes, the parser reads.
use vortexkv.Prelude.{
  ℕ, zero, suc, ◌+◌, ◌-◌, ◌*◌, ◌%◌, ◌/◌, ◌^◌, ◌≤◌, ◌<◌, ◌≡◌, ◌≢◌, refl, sym, ap, ap₂, ◌&&◌, ◌∙◌,
  Bool, true, false, some, List, [], ◌∷◌, ◌++◌, Bytes, length, take, drop, get_or, ltb, arith,
  Bool-cases, inl, inr, length-append, drop-append_length, take-append_length, ==_ne, le→ltb-false,
  lt→leb-false, lt→ltb,
}
use mathlib.Core.List.{append_assoc, append-nil}
use vortexkv.Prelude.Decimal.{print, print_fuel, Digits, print-Digits}
use vortexkv.Resp.Serialize.{cr, lf, header_line, serialize_args, serialize_command}
use vortexkv.Reactor.Parser.{
  Parsed, command, index_byte, line, header, line_at, word_from, bulk_len, argument, payload, bulk,
  bulks, with_count, parse_array, parse_command,
}

index_byte-Digits :
    (xs rest : Bytes) → Digits xs → index_byte 10 (xs ++ 13 ∷ 10 ∷ rest) ≡ some (length xs + 1)
unfolding index_byte
index_byte-Digits [] rest h = refl
index_byte-Digits (x ∷ xs) rest h = ground (arith, index_byte-Digits xs rest h.1)

get_or-append : (xs ys : Bytes) (y d : ℕ) → get_or (xs ++ y ∷ ys) (length xs) d ≡ y
get_or-append [] ys y d = refl
get_or-append (x ∷ xs) ys y d = get_or-append xs ys y d

word_from-append :
    (acc n : ℕ) (xs ys : Bytes)
    → word_from acc xs ≡ some n
    → word_from acc (xs ++ ys) ≡ word_from n ys
unfolding word_from
word_from-append acc n [] ys h = ground arith
word_from-append acc n (x ∷ xs) ys h =
    ground (arith, word_from-append ((acc * 10 + (x - 48)) % 2 ^ 64) n xs ys)

word_from-print_fuel : (f n : ℕ) → n ≤ f → n < 2 ^ 64 → word_from 0 (print_fuel f n) ≡ some n
unfolding word_from print_fuel
word_from-print_fuel zero n h k = ground arith
word_from-print_fuel (suc f) n h k = ground (
  arith,
  word_from-print_fuel f (n / 10),
  word_from-append 0 (n / 10) (print_fuel f (n / 10)) ((48 + n % 10) ∷ []),
)

pub word_from-print : (n : ℕ) → n < 2 ^ 64 → word_from 0 (print n) ≡ some n
unfolding print
word_from-print n h = word_from-print_fuel n n (omega arith) h

line_at_lem :
    (p : ℕ) (xs after : Bytes)
    → line_at (p ∷ (xs ++ 13 ∷ 10 ∷ after)) (some (suc (length xs + 1)))
      ≡ line xs after (length xs + 2)
unfolding line_at
line_at_lem p xs after =
    let at_cr : get_or (p ∷ (xs ++ 13 ∷ 10 ∷ after)) (suc (length xs + 1) - 1) 0 ≡ 13 =
      ap (λ i. get_or (p ∷ (xs ++ 13 ∷ 10 ∷ after)) i 0) {x = suc (length xs + 1) - 1}
        {y = suc (length xs)} (omega arith)
      ∙ get_or-append xs (10 ∷ after) 13 0 in
    let body : take (suc (length xs + 1) - 2) (xs ++ 13 ∷ 10 ∷ after) ≡ xs =
      ap (λ i. take i (xs ++ 13 ∷ 10 ∷ after)) {x = suc (length xs + 1) - 2} {y = length xs}
        (omega arith)
      ∙ take-append_length xs (13 ∷ 10 ∷ after) in
    let behind : drop (suc (length xs + 1) + 1) (p ∷ (xs ++ 13 ∷ 10 ∷ after)) ≡ after =
      ap (λ i. drop i (p ∷ (xs ++ 13 ∷ 10 ∷ after))) {x = suc (length xs + 1) + 1}
        {y = suc (length (xs ++ 13 ∷ 10 ∷ []))} (omega (arith, length-append xs (13 ∷ 10 ∷ [])))
      ∙ ap (drop (length (xs ++ 13 ∷ 10 ∷ []))) (sym (append_assoc xs (13 ∷ 10 ∷ []) after))
      ∙ drop-append_length (xs ++ 13 ∷ 10 ∷ []) after in
    rw (at_cr, body, behind, le→ltb-false (suc (length xs + 1)) 2 (omega arith))
      (ap (line xs after) (omega arith))

header-Digits :
    (p : ℕ) (xs after : Bytes)
    → p ≢ 10
    → Digits xs
    → header (p ∷ (xs ++ 13 ∷ 10 ∷ after)) ≡ line xs after (length xs + 2)
unfolding header index_byte
header-Digits p xs after ne h =
    rw (==_ne p 10 ne, index_byte-Digits xs after h) (line_at_lem p xs after)

pub header-header_line :
    (p n : ℕ) (after : Bytes)
    → p ≢ 10
    → header (header_line p n after) ≡ line (print n) after (length (print n) + 2)
header-header_line p n after ne = header-Digits p (print n) after ne (print-Digits n)

bulk_len-Digits : (xs : Bytes) → xs ≢ [] → Digits xs → bulk_len xs ≡ word_from 0 xs
unfolding bulk_len
bulk_len-Digits [] ne h = absurd (ne refl)
bulk_len-Digits (x ∷ xs) ne h = ground (arith, h.0)

append-ne-nil : (xs : Bytes) (d : ℕ) → xs ++ d ∷ [] ≢ []
append-ne-nil [] d h = cc
append-ne-nil (x ∷ xs) d h = cc

print_fuel-ne-nil : (f n : ℕ) → print_fuel f n ≢ []
unfolding print_fuel
print_fuel-ne-nil zero n = λ h. cc
print_fuel-ne-nil (suc f) n = elim (Bool-cases (ltb n 10)) [
  | inl small ↦ rw small (λ h. cc)
  | inr large ↦ rw large (append-ne-nil (print_fuel f (n / 10)) (48 + n % 10))
]

pub bulk_len-print : (n : ℕ) → n < 2 ^ 64 → bulk_len (print n) ≡ some n
bulk_len-print n h =
    bulk_len-Digits (print n) (unfold print in print_fuel-ne-nil n n) (print-Digits n)
    ∙ word_from-print n h

-- A payload that is all there.
payload-whole :
    (arg after : Bytes) (used : ℕ)
    → length arg + 2 < 2 ^ 63
    → payload (length arg) (arg ++ 13 ∷ 10 ∷ after) used
      ≡ argument arg after (used + length arg + 2)
unfolding payload
payload-whole arg after used h =
    let all = length-append arg (13 ∷ 10 ∷ after) in
    let at_lf : get_or (arg ++ 13 ∷ 10 ∷ after) (length arg + 1) 0 ≡ 10 =
      ap (λ l. get_or l (length arg + 1) 0) (sym (append_assoc arg (13 ∷ []) (10 ∷ after)))
      ∙ ap (λ i. get_or ((arg ++ 13 ∷ []) ++ 10 ∷ after) i 0) {x = length arg + 1}
          {y = length (arg ++ 13 ∷ [])} (omega (arith, length-append arg (13 ∷ [])))
      ∙ get_or-append (arg ++ 13 ∷ []) after 10 0 in
    let behind : drop (length arg + 2) (arg ++ 13 ∷ 10 ∷ after) ≡ after =
      ap (λ l. drop (length arg + 2) l) (sym (append_assoc arg (13 ∷ 10 ∷ []) after))
      ∙ ap (λ i. drop i ((arg ++ 13 ∷ 10 ∷ []) ++ after)) {x = length arg + 2}
          {y = length (arg ++ 13 ∷ 10 ∷ [])} (omega (arith, length-append arg (13 ∷ 10 ∷ [])))
      ∙ drop-append_length (arg ++ 13 ∷ 10 ∷ []) after in
    rw
      (
        ==_ne (length arg) (2 ^ 64 - 1) (omega arith),
        lt→leb-false (2 ^ 63) (length arg) (omega arith),
        lt→ltb (length arg + 2) (2 ^ 63) h,
        le→ltb-false (length (arg ++ 13 ∷ 10 ∷ after)) (length arg + 2) (omega (arith, all)),
        lt→leb-false (length (arg ++ 13 ∷ 10 ∷ after)) (length arg) (omega (arith, all)),
        get_or-append arg (10 ∷ after) 13 0,
        lt→leb-false (length (arg ++ 13 ∷ 10 ∷ after)) (length arg + 1) (omega (arith, all)),
        at_lf,
        take-append_length arg (13 ∷ 10 ∷ after),
        behind,
      )
      refl

pub header_line-append :
    (p n : ℕ) (xs ys : Bytes) → header_line p n xs ++ ys ≡ header_line p n (xs ++ ys)
header_line-append p n xs ys = ap (λ l. p ∷ l) (append_assoc (print n) (cr ∷ lf ∷ xs) ys)

length-header_line :
    (p n : ℕ) (xs : Bytes) → length (header_line p n xs) ≡ length (print n) + 3 + length xs
length-header_line p n xs = omega (arith, length-append (print n) (cr ∷ lf ∷ xs))

pub bulk-arg :
    (arg after : Bytes)
    → length arg + 2 < 2 ^ 63
    → bulk (header_line b'$' (length arg) (arg ++ cr ∷ lf ∷ after))
      ≡ argument arg after (length (print (length arg)) + 3 + length arg + 2)
unfolding bulk
bulk-arg arg after h =
    rw
      (
        header-header_line b'$' (length arg) (arg ++ cr ∷ lf ∷ after) (omega arith),
        bulk_len-print (length arg) (omega arith),
        payload-whole arg after (length (print (length arg)) + 2 + 1) h,
      )
      (ap (argument arg after) (omega arith))

-- Every argument is short enough for its length, with the line end behind it, to be an `int`.
abbrev pub Sized : List Bytes → Type 0
Sized [] = Unit
Sized (arg ∷ args) = (length arg + 2 < 2 ^ 63) × Sized args

pub bulks-argument :
    (k : ℕ) (rest : Bytes) (consumed : ℕ) (done : List Bytes) (a rest' : Bytes) (used : ℕ)
    → bulk rest ≡ argument a rest' used
    → bulks (suc k) rest consumed done ≡ bulks k rest' (consumed + used) (done ++ a ∷ [])
unfolding bulks
bulks-argument k rest consumed done a rest' used h = rw (h, bulks) refl

bulks-serialize_args :
    (args : List Bytes) (rest : Bytes) (consumed : ℕ) (done : List Bytes)
    → Sized args
    → bulks (length args) (serialize_args args ++ rest) consumed done
      ≡ command (done ++ args) (consumed + length (serialize_args args))
unfolding serialize_args
bulks-serialize_args [] rest consumed done h =
    unfold bulks in ap₂ command (sym (append-nil done)) (omega arith)
bulks-serialize_args (arg ∷ args) rest consumed done h =
    let onto : header_line b'$' (length arg) (arg ++ cr ∷ lf ∷ serialize_args args) ++ rest
        ≡ header_line b'$' (length arg) (arg ++ cr ∷ lf ∷ (serialize_args args ++ rest)) =
      header_line-append b'$' (length arg) (arg ++ cr ∷ lf ∷ serialize_args args) rest
      ∙ ap (header_line b'$' (length arg))
          (append_assoc arg (cr ∷ lf ∷ serialize_args args) rest) in
    rw
      (
        onto,
        bulks-argument (length args) _ consumed done _ _ _
            (bulk-arg arg (serialize_args args ++ rest) h.0),
      )
      (bulks-serialize_args args rest
          (consumed + (length (print (length arg)) + 3 + length arg + 2)) (done ++ arg ∷ []) h.1
        ∙ ap₂ command (append_assoc done (arg ∷ []) args) (
            omega (
              arith,
              length-header_line b'$' (length arg) (arg ++ cr ∷ lf ∷ serialize_args args),
              length-append arg (cr ∷ lf ∷ serialize_args args),
            )))

pub and_false : (b : Bool) → (b && false) ≡ false
and_false true = refl
and_false false = refl

counted :
    (room limit : ℕ) (args : List Bytes) (rest : Bytes) (consumed : ℕ)
    → length args < 2 ^ 63
    → length args ≤ limit
    → Sized args
    → with_count room limit (length args) (serialize_args args ++ rest) consumed
      ≡ command args (consumed + length (serialize_args args))
unfolding with_count
counted room limit [] rest consumed small fits h =
    unfold serialize_args in ap (command []) (omega arith)
counted room limit (arg ∷ args) rest consumed small fits h =
    rw
      (
        ==_ne (suc (length args)) 0 (omega arith),
        lt→leb-false (2 ^ 63) (suc (length args)) small,
        le→ltb-false limit (suc (length args)) fits,
        and_false (ltb room (suc (length args))),
      )
      (bulks-serialize_args (arg ∷ args) rest consumed [] h)

-- Whatever stands behind it in the buffer, a serialized command is parsed to its arguments, and
-- all its bytes are consumed and no more. Its arguments are as many as the runtime can make room
-- for, and each has a length that is an `int`.
pub parse_command-serialize_command :
    (room limit : ℕ) (inline : Bytes → Parsed) (args : List Bytes) (rest : Bytes)
    → length args < 2 ^ 63
    → length args ≤ limit
    → Sized args
    → parse_command room limit inline (serialize_command args ++ rest)
      ≡ command args (length (serialize_command args))
unfolding parse_command serialize_command
parse_command-serialize_command room limit inline args rest small fits h =
    let onto = header_line-append b'*' (length args) (serialize_args args) rest in
    let headed =
      header-header_line b'*' (length args) (serialize_args args ++ rest) (omega arith) in
    rw onto (
      unfold parse_array in
      rw (headed, word_from-print (length args) (omega arith))
        (counted room limit args rest (length (print (length args)) + 2 + 1) small fits h
          ∙ ap (command args)
              (omega (arith, length-header_line b'*' (length args) (serialize_args args)))))
