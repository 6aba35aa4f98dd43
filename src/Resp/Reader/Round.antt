-- ===== src/Resp/Reader/Round.antt =====
-- What `SerializeValue` and `SerializeCommand` write, `ReadValue` and `ReadCommand` read.
use vortexkv.Prelude.{
  ℕ, zero, suc, ◌+◌, ◌≤◌, ◌<◌, ◌≡◌, refl, sym, ap, ap₂, ◌∙◌, none, List, [], ◌∷◌, ◌++◌, Bytes,
  length, arith,
}
use Prim.Native.Nat.{max}
use mathlib.Core.List.{append_assoc}
use vortexkv.Prelude.Every.{All}
use vortexkv.Prelude.Int.{pos, negsuc, IsInt64}
use vortexkv.Prelude.Decimal.{print, print_fuel, print_int}
use vortexkv.Reactor.Parser.{index_byte}
use vortexkv.Resp.Serialize.{serialize_value, serialize_items, serialize_args, serialize_command}
use vortexkv.Resp.Values.{
  Value, Values, simple_string, error, integer, bulk_string, nil_bulk, null, null_array, boolean,
  array, untyped, nil, cons, count, bulk_strings,
}
use vortexkv.Resp.Reader.{
  got, Reader, buffer_size, read_byte, read_line, read_number, read_items, array_of_length,
  read_array, value_of_prefix, read_value, read_command, command_of, arguments_of, argument_of,
  max_bulk_length, max_array_length, ◌>>=◌, pure, bulk_of_length, read_bulk,
}
use vortexkv.Resp.Reader.Lines.{
  read_line-ended, bind-got, read_number-print_int, read_bulk-bulk_string,
}

-- A line without "\n" that fits the reader's buffer.
abbrev pub IsLine : Bytes → Type 0
IsLine s = (index_byte 10 s ≡ none) × (length s + 1 < buffer_size)

-- The values within the reader's limits. Booleans and untyped values are not serialized, and a nil bulk
-- string is read as an empty one.
unfoldable mutual
  unfolding count

  pub IsReadable : Value → Type 0
  IsReadable (simple_string s) = IsLine s
  IsReadable (error s) = IsLine s
  IsReadable (integer n) = IsInt64 n
  IsReadable (bulk_string s) = length s ≤ max_bulk_length
  IsReadable null = Unit
  IsReadable null_array = Unit
  IsReadable (boolean b) = ⊥
  IsReadable nil_bulk = ⊥
  IsReadable (untyped t) = ⊥
  IsReadable (array vs) = (count vs ≤ max_array_length) × AreReadable vs

  pub AreReadable : Values → Type 0
  AreReadable nil = Unit
  AreReadable (cons v vs) = IsReadable v × AreReadable vs

-- How deep arrays stand in one another.
unfoldable mutual
  pub depth : Value → ℕ
  depth (array vs) = suc (depth_items vs)
  depth v = 1

  pub depth_items : Values → ℕ
  depth_items nil = 0
  depth_items (cons v vs) = max (depth v) (depth_items vs)

read_array-items :
    (item : Reader Value) (vs : Values) (after rest : Bytes)
    → count vs ≤ max_array_length
    → read_items item (count vs) after ≡ got vs rest
    → read_array item (print (count vs) ++ 13 ∷ 10 ∷ after) ≡ got (array vs) rest
unfolding read_array
read_array-items item vs after rest small items =
    let n : ℕ = count vs in
    let number : read_number (print n ++ 13 ∷ 10 ∷ after) ≡ got (pos n) after =
      unfold print_int in read_number-print_int (pos n) after (omega (arith, small)) in
    let within : array_of_length item (pos n) after
        ≡ (read_items item n >>= λ ws. pure (array ws)) after =
      unfold array_of_length in ground (arith, small) in
    bind-got read_number (array_of_length item) number
    ∙ within
    ∙ bind-got (read_items item n) (λ ws. pure (array ws)) items

null-read : (rest : Bytes) → read_bulk (print_int (negsuc 0) ++ 13 ∷ 10 ∷ rest) ≡ got null rest
unfolding read_bulk bulk_of_length
null-read rest =
    bind-got read_number bulk_of_length (read_number-print_int (negsuc 0) rest (omega arith))

null_array-read :
    (item : Reader Value) (rest : Bytes)
    → read_array item (print_int (negsuc 0) ++ 13 ∷ 10 ∷ rest) ≡ got null_array rest
unfolding read_array array_of_length
null_array-read item rest =
    bind-got read_number (array_of_length item)
      (read_number-print_int (negsuc 0) rest (omega arith))

read_items-cons :
    (item : Reader Value) (v : Value) (vs : Values) (bs middle rest : Bytes)
    → item bs ≡ got v middle
    → read_items item (count vs) middle ≡ got vs rest
    → read_items item (count (cons v vs)) bs ≡ got (cons v vs) rest
unfolding read_items count
read_items-cons item v vs bs middle rest first others = rw first (rw others refl)

mutual
  unfolding serialize_value IsReadable depth count print_int print print_fuel read_items read_value
      read_byte value_of_prefix

  value-read :
      (f : ℕ) (v : Value) (rest : Bytes)
      → IsReadable v
      → depth v ≤ f
      → read_value f (serialize_value v rest) ≡ got v rest
  value-read zero (simple_string s) rest h enough = absurd (omega (arith, enough))
  value-read zero (error s) rest h enough = absurd (omega (arith, enough))
  value-read zero (integer n) rest h enough = absurd (omega (arith, enough))
  value-read zero (bulk_string s) rest h enough = absurd (omega (arith, enough))
  value-read zero null rest h enough = absurd (omega (arith, enough))
  value-read zero null_array rest h enough = absurd (omega (arith, enough))
  value-read zero (boolean b) rest h enough = absurd h
  value-read zero nil_bulk rest h enough = absurd h
  value-read zero (untyped t) rest h enough = absurd h
  value-read zero (array vs) rest h enough = absurd (omega (arith, enough))
  value-read (suc f) (simple_string s) rest h enough =
      bind-got read_line (λ l. pure (simple_string l)) (read_line-ended s rest h.0 h.1)
  value-read (suc f) (error s) rest h enough =
      bind-got read_line (λ l. pure (error l)) (read_line-ended s rest h.0 h.1)
  value-read (suc f) (integer n) rest h enough =
      bind-got read_number (λ k. pure (integer k)) (read_number-print_int n rest h)
  value-read (suc f) (bulk_string s) rest h enough = read_bulk-bulk_string s rest h
  value-read (suc f) null rest h enough = null-read rest
  value-read (suc f) null_array rest h enough = null_array-read (read_value f) rest
  value-read (suc f) (boolean b) rest h enough = absurd h
  value-read (suc f) nil_bulk rest h enough = absurd h
  value-read (suc f) (untyped t) rest h enough = absurd h
  value-read (suc f) (array vs) rest h enough =
      read_array-items (read_value f) vs (serialize_items vs rest) rest h.0
        (items-read f vs rest h.1 (omega (arith, enough)))

  items-read :
      (f : ℕ) (vs : Values) (rest : Bytes)
      → AreReadable vs
      → depth_items vs ≤ f
      → read_items (read_value f) (count vs) (serialize_items vs rest) ≡ got vs rest
  items-read f nil rest h enough = refl
  items-read f (cons v vs) rest h enough =
      read_items-cons (read_value f) v vs (serialize_value v (serialize_items vs rest))
        (serialize_items vs rest) rest
        (value-read f v (serialize_items vs rest) h.0 (ground (arith, enough)))
        (items-read f vs rest h.1 (ground (arith, enough)))

-- A value within the reader's limits that holds no boolean, no nil bulk string and no value of another
-- type, serialized before other bytes, is read back with the bytes behind it, given fuel for its depth.
-- The limits are lines without a line feed that fit the buffer with their end, bulk strings of at most
-- 512 MB and arrays of at most 1048576 items.
pub read_value-serialize_value :
    (f : ℕ) (v : Value) (rest : Bytes)
    → IsReadable v
    → depth v ≤ f
    → read_value f (serialize_value v rest) ≡ got v rest
read_value-serialize_value f v rest h enough = value-read f v rest h enough

append-line : (xs ys rest : Bytes) → (xs ++ 13 ∷ 10 ∷ ys) ++ rest ≡ xs ++ 13 ∷ 10 ∷ (ys ++ rest)
append-line xs ys rest = append_assoc xs (13 ∷ 10 ∷ ys) rest

serialize_args-append :
    (args : List Bytes) (rest : Bytes)
    → serialize_args args ++ rest ≡ serialize_items (bulk_strings args) rest
unfolding serialize_args serialize_value bulk_strings
serialize_args-append [] rest = refl
serialize_args-append (a ∷ as') rest =
    ap (λ l. b'$' ∷ l)
      (append-line (print (length a)) (a ++ 13 ∷ 10 ∷ serialize_args as') rest
        ∙ ap (λ l. print (length a) ++ 13 ∷ 10 ∷ l)
            (append-line a (serialize_args as') rest
              ∙ ap (λ l. a ++ 13 ∷ 10 ∷ l) (serialize_args-append as' rest)))

count-bulk_strings : (args : List Bytes) → count (bulk_strings args) ≡ length args
unfolding count bulk_strings
count-bulk_strings [] = refl
count-bulk_strings (a ∷ as') = ap suc (count-bulk_strings as')

-- The bytes of a command are those of its array of bulk strings.
pub serialize_command-append :
    (args : List Bytes) (rest : Bytes)
    → serialize_command args ++ rest ≡ serialize_value (array (bulk_strings args)) rest
unfolding serialize_command serialize_value
serialize_command-append args rest =
    ap (λ l. b'*' ∷ l)
      (append-line (print (length args)) (serialize_args args) rest
        ∙ ap₂ (λ n l. print n ++ 13 ∷ 10 ∷ l) (sym (count-bulk_strings args))
            (serialize_args-append args rest))

AreReadable-bulk_strings :
    (args : List Bytes)
    → All (λ a. length a ≤ max_bulk_length) args
    → AreReadable (bulk_strings args)
unfolding IsReadable bulk_strings
AreReadable-bulk_strings [] h = tt
AreReadable-bulk_strings (a ∷ as') h = (h.0, AreReadable-bulk_strings as' h.1)

depth_items-bulk_strings : (args : List Bytes) → depth_items (bulk_strings args) ≤ 1
unfolding depth bulk_strings
depth_items-bulk_strings [] = omega arith
depth_items-bulk_strings (a ∷ as') = ground (arith, depth_items-bulk_strings as')

arguments_of-bulk_strings : (args : List Bytes) → arguments_of (bulk_strings args) ≡ args
unfolding arguments_of argument_of bulk_strings
arguments_of-bulk_strings [] = refl
arguments_of-bulk_strings (a ∷ as') = ap (λ l. a ∷ l) (arguments_of-bulk_strings as')

-- A command of at most 1048576 arguments, each of at most 512 MB, that `SerializeCommand` wrote
-- before other bytes is what `ReadCommand` reads, with the other bytes behind it.
pub read_command-serialize_command :
    (args : List Bytes) (rest : Bytes)
    → length args ≤ max_array_length
    → All (λ a. length a ≤ max_bulk_length) args
    → read_command (serialize_command args ++ rest) ≡ got args rest
unfolding read_command
read_command-serialize_command args rest few small =
    let bs : Bytes = serialize_command args ++ rest in
    let v : Value = array (bulk_strings args) in
    let readable : IsReadable v =
      unfold IsReadable in
      (omega (arith, few, count-bulk_strings args), AreReadable-bulk_strings args small) in
    let enough : depth v ≤ suc (length bs) =
      unfold depth serialize_command in omega (arith, depth_items-bulk_strings args) in
    let value : read_value (suc (length bs)) bs ≡ got v rest =
      ap (read_value (suc (length bs))) (serialize_command-append args rest)
      ∙ read_value-serialize_value (suc (length bs)) v rest readable enough in
    let answer : command_of v rest ≡ got args rest =
      unfold command_of in ap (λ l. got l rest) (arguments_of-bulk_strings args) in
    bind-got (read_value (suc (length bs))) command_of {bs = bs} value ∙ answer
