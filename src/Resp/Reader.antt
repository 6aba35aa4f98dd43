-- ===== src/Resp/Reader.antt =====
-- internal/resp/parser.go: a value is read from the bytes that the connection or the log will give.
-- The buffer of the reader holds 64 KB, which is the longest line.
pub mod Lines
pub mod Round
pub mod Fuel
use vortexkv.Prelude.{
  ℕ, zero, suc, ◌+◌, ◌-◌, ◌*◌, ◌^◌, Bool, true, false, not, ◌&&◌, ◌||◌, Option, none, some, List,
  [], ◌∷◌, ◌++◌, Bytes, length, take, drop, get_or, ltb, leb, ◌==◌, if◌then◌else◌,
}
use vortexkv.Prelude.Int.{ℤ, pos, negsuc}
use vortexkv.Prelude.Decimal.{parse_int, print_int}
use vortexkv.Reactor.Parser.{index_byte}
use vortexkv.Resp.Values.{
  Value, Values, simple_string, error, integer, bulk_string, nil_bulk, null, null_array, boolean,
  array, nil, cons, bulk_strings, value_string,
}

pub data ReadError : Type 0 where
  end_of_input line_too_long invalid_syntax bulk_too_large multibulk_too_large : ReadError
  -- not an array where a command is expected
  not_a_command : ReadError
  -- no error of the program: the model's fuel ran out
  out_of_fuel : ReadError

-- A result with the bytes behind it. `io.EOF` and `io.ErrUnexpectedEOF` are both end_of_input.
pub data Read (A : Type 0) : Type 0 where
  got : A → Bytes → Read A
  failed : ReadError → Read A

abbrev pub Reader : Type 0 → Type 0
Reader A = Bytes → Read A

infixl 5 ◌>>=◌ ◌>>◌
abbrev pub ◌>>=◌ : {A B : Type 0} → Reader A → (A → Reader B) → Reader B
◌>>=◌ m f bs = elim (m bs) [ got a rest ↦ f a rest | failed e ↦ failed e ]

abbrev pub ◌>>◌ : {A B : Type 0} → Reader A → Reader B → Reader B
m >> k = m >>= λ _. k

abbrev pub pure : {A : Type 0} → A → Reader A
pure a bs = got a bs

abbrev pub fail : {A : Type 0} → ReadError → Reader A
fail e bs = failed e

abbrev pub buffer_size : ℕ
buffer_size = 64 * 1024

unfoldable pub read_byte : Reader ℕ
read_byte [] = failed end_of_input
read_byte (b ∷ bs) = got b bs

-- The line that ends at an index, without "\r\n" or a bare "\n".
unfoldable pub line_to : Bytes → Option ℕ → Read Bytes
line_to bs none = failed (if leb buffer_size (length bs) then line_too_long else end_of_input)
line_to bs (some i) =
    if leb buffer_size i
    then failed line_too_long
    else if i == 0 || not (get_or bs (i - 1) 0 == 13)
    then got (take i bs) (drop (i + 1) bs)
    else got (take (i - 1) bs) (drop (i + 1) bs)

-- `readLine`
unfoldable pub read_line : Reader Bytes
unfolding line_to
read_line bs = line_to bs (index_byte 10 bs)

-- `io.ReadFull`
unfoldable pub read_full : ℕ → Reader Bytes
read_full n bs = if ltb (length bs) n then failed end_of_input else got (take n bs) (drop n bs)

unfoldable pub as_number : Option ℤ → Reader ℤ
as_number none = fail invalid_syntax
as_number (some n) = pure n

-- A line with `strconv.ParseInt`
unfoldable pub read_number : Reader ℤ
unfolding as_number
read_number = do line ← read_line; as_number (parse_int line)

abbrev pub max_bulk_length : ℕ
max_bulk_length = 512 * 1024 * 1024

abbrev pub max_array_length : ℕ
max_array_length = 1024 * 1024

-- The payload of a bulk string with its line end.
unfoldable pub ended_bulk : ℕ → Bytes → Reader Value
ended_bulk n buf =
    if not (get_or buf n 0 == 13) || not (get_or buf (n + 1) 0 == 10)
    then fail invalid_syntax
    else pure (bulk_string (take n buf))

unfoldable pub bulk_of_length : ℤ → Reader Value
unfolding ended_bulk
bulk_of_length (negsuc zero) = pure null
bulk_of_length (negsuc (suc n)) = fail bulk_too_large
bulk_of_length (pos n) =
    if ltb max_bulk_length n
    then fail bulk_too_large
    else do buf ← read_full (n + 2); ended_bulk n buf

unfoldable pub read_bulk : Reader Value
unfolding bulk_of_length
read_bulk = do n ← read_number; bulk_of_length n

-- The loop of `readArray`, with the reader of a value.
unfoldable pub read_items : Reader Value → ℕ → Reader Values
read_items item zero bs = got nil bs
read_items item (suc n) bs = elim (item bs) [
  | failed e ↦ failed e
  | got v rest ↦ elim (read_items item n rest) [
    | failed e ↦ failed e
    | got vs rest' ↦ got (cons v vs) rest'
  ]
]

unfoldable pub array_of_length : Reader Value → ℤ → Reader Value
array_of_length item (negsuc zero) = pure null_array
array_of_length item (negsuc (suc n)) = fail invalid_syntax
array_of_length item (pos n) =
    if ltb max_array_length n
    then fail multibulk_too_large
    else do vs ← read_items item n; pure (array vs)

unfoldable pub read_array : Reader Value → Reader Value
unfolding array_of_length
read_array item = do n ← read_number; array_of_length item n

-- An argument ends at a space, if there is one.
unfoldable pub end_argument : Bytes → List Bytes → List Bytes
end_argument [] args = args
end_argument (c ∷ cs) args = args ++ ((c ∷ cs) ∷ [])

-- The loop of `parseCommandLine`: the open quote, the argument so far, the arguments before it.
unfoldable pub command_line : Option ℕ → Bytes → List Bytes → Bytes → List Bytes
unfolding end_argument
command_line quote current args [] = end_argument current args
command_line (some q) current args (c ∷ []) =
    if c == q then end_argument current args else end_argument (current ++ (c ∷ [])) args
command_line (some q) current args (c ∷ d ∷ cs) =
    let closed = command_line none current args (d ∷ cs) in
    let escaped = command_line (some q) (current ++ (d ∷ [])) args cs in
    let more = command_line (some q) (current ++ (c ∷ [])) args (d ∷ cs) in
    if c == q then closed else if c == 92 then escaped else more
command_line none current args (c ∷ cs) =
    let quoted = command_line (some c) current args cs in
    let spaced = command_line none [] (end_argument current args) cs in
    let more = command_line none (current ++ (c ∷ [])) args cs in
    if c == 34 || c == 39 then quoted else if c == 32 || c == 9 then spaced else more

unfoldable pub parse_command_line : Bytes → List Bytes
unfolding command_line
parse_command_line cmd = command_line none [] [] cmd

unfoldable pub read_inline : ℕ → Reader Value
read_inline first = do
  line ← read_line
  pure (array (bulk_strings (parse_command_line (first ∷ line))))

abbrev pub starts_with_t : Bytes → Bool
starts_with_t [] = false
starts_with_t (c ∷ cs) = c == b't'

-- `ReadValue` after its first byte, with the reader of an array's items.
unfoldable pub value_of_prefix : Reader Value → ℕ → Reader Value
unfolding read_number read_bulk read_array read_inline
value_of_prefix item b =
    if b == b'+'
    then (do line ← read_line; pure (simple_string line))
    else if b == b'-'
    then (do line ← read_line; pure (error line))
    else if b == b':'
    then (do n ← read_number; pure (integer n))
    else if b == b'$'
    then read_bulk
    else if b == b'*'
    then read_array item
    else if b == b'_'
    then (do line ← read_line; pure null)
    else if b == b'#'
    then (do line ← read_line; pure (boolean (starts_with_t line)))
    else read_inline b

-- The fuel bounds the depth of arrays.
unfoldable pub read_value : ℕ → Reader Value
unfolding value_of_prefix read_byte
read_value zero bs = failed out_of_fuel
read_value (suc f) bs = (read_byte >>= λ b. value_of_prefix (read_value f) b) bs

unfoldable pub argument_of : Value → Bytes
unfolding value_string
argument_of (bulk_string s) = s
argument_of (simple_string s) = s
argument_of (integer n) = print_int n
argument_of null = []
argument_of nil_bulk = []
argument_of v = value_string v

unfoldable pub arguments_of : Values → List Bytes
unfolding argument_of
arguments_of nil = []
arguments_of (cons v vs) = argument_of v ∷ arguments_of vs

-- A null bulk string has no bytes, and a null array no items.
unfoldable pub command_of : Value → Reader (List Bytes)
unfolding arguments_of
command_of (array vs) = pure (arguments_of vs)
command_of null_array = pure []
command_of (bulk_string s) = pure (s ∷ [])
command_of null = pure ([] ∷ [])
command_of nil_bulk = pure ([] ∷ [])
command_of v = fail not_a_command

-- `ReadCommand`
unfoldable pub read_command : Reader (List Bytes)
unfolding read_value command_of
read_command bs = (read_value (suc (length bs)) >>= command_of) bs
