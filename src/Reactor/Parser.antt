-- ===== src/Reactor/Parser.antt =====
-- internal/reactor/parser.go: the array format of a command, from the bytes that are buffered.
pub mod Round
pub mod Bounds
pub mod Panics
use vortexkv.Prelude.{
  ℕ, zero, suc, ◌+◌, ◌-◌, ◌*◌, ◌%◌, ◌^◌, Bool, true, false, not, ◌&&◌, ◌||◌, Option, none, some,
  List, [], ◌∷◌, ◌++◌, Bytes, length, take, drop, get_or, ltb, leb, ◌==◌, if◌then◌else◌,
}
use vortexkv.Prelude.Decimal.{is_digit}

-- What `ParseCommandInto` returns: arguments and the number of bytes that they take; nothing yet;
-- `ErrProtocol`; or nothing at all, since the goroutine panics.
pub data Parsed : Type 0 where
  command : List Bytes → ℕ → Parsed
  incomplete protocol_error panics : Parsed

-- `bytes.IndexByte`
unfoldable pub index_byte : ℕ → Bytes → Option ℕ
index_byte b [] = none
index_byte b (c ∷ cs) =
    if c == b then some 0 else elim (index_byte b cs) [ none ↦ none | some i ↦ some (suc i) ]

-- The line that begins with a prefix byte: none yet, badly ended, or what stands between the
-- prefix and "\r\n", with the bytes behind it and the index of its "\n".
pub data Line : Type 0 where
  no_line bad_line : Line
  line : Bytes → Bytes → ℕ → Line

line_at : Bytes → Option ℕ → Line
line_at rest none = no_line
line_at rest (some idx) =
    if ltb idx 2 || not (get_or rest (idx - 1) 0 == 13)
    then bad_line
    else line (take (idx - 2) (drop 1 rest)) (drop (idx + 1) rest) idx

unfoldable pub header : Bytes → Line
unfolding line_at
header rest = line_at rest (index_byte 10 rest)

-- The digit loops, over the bit pattern of an `int`.
unfoldable pub word_from : ℕ → Bytes → Option ℕ
word_from acc [] = some acc
word_from acc (c ∷ cs) = if is_digit c then word_from ((acc * 10 + (c - 48)) % 2 ^ 64) cs else none

negated : Option ℕ → Option ℕ
negated none = none
negated (some n) = some ((2 ^ 64 - n) % 2 ^ 64)

unfoldable pub bulk_len : Bytes → Option ℕ
unfolding negated
bulk_len [] = some 0
bulk_len (c ∷ cs) = if c == b'-' then negated (word_from 0 cs) else word_from 0 (c ∷ cs)

-- One turn of the argument loop ends the call, or goes on with an argument, what stands behind it
-- and the number of bytes that it took.
pub data Turn : Type 0 where
  stop : Parsed → Turn
  argument : Bytes → Bytes → ℕ → Turn

-- `bulkLen` bytes and "\r\n". Where `bulkLen+2` wraps round, the test for the payload passes, and
-- the index behind it is out of range.
unfoldable pub payload : ℕ → Bytes → ℕ → Turn
payload n after used =
    if n == 2 ^ 64 - 1
    then argument [] after used
    else if leb (2 ^ 63) n
    then stop protocol_error
    else if ltb (n + 2) (2 ^ 63) && ltb (length after) (n + 2)
    then stop incomplete
    else if leb (length after) n
    then stop panics
    else if not (get_or after n 0 == 13)
    then stop protocol_error
    else if leb (length after) (n + 1)
    then stop panics
    else if not (get_or after (n + 1) 0 == 10)
    then stop protocol_error
    else argument (take n after) (drop (n + 2) after) (used + n + 2)

bulk_body : Option ℕ → Bytes → ℕ → Turn
bulk_body none after used = stop protocol_error
bulk_body (some n) after used = payload n after used

bulk_line : Line → Turn
bulk_line no_line = stop incomplete
bulk_line bad_line = stop protocol_error
bulk_line (line body after idx) = bulk_body (bulk_len body) after (idx + 1)

unfoldable pub bulk : Bytes → Turn
unfolding bulk_body bulk_line
bulk [] = stop incomplete
bulk (c ∷ cs) = if not (c == b'$') then stop protocol_error else bulk_line (header (c ∷ cs))

-- The argument loop, with the arguments still to come, the bytes that are left, the bytes consumed
-- and the arguments so far.
unfoldable pub bulks : ℕ → Bytes → ℕ → List Bytes → Parsed
bulks zero rest consumed args = command args consumed
bulks (suc k) rest consumed args = elim (bulk rest) [
  | stop r ↦ r
  | argument a rest' used ↦ bulks k rest' (consumed + used) (args ++ a ∷ [])
]

-- `room` is the capacity of `dst`; the runtime makes a slice of up to `limit` strings.
module _ (room limit : ℕ) where
  -- A count with the sign bit is negative: no turn is made.
  unfoldable pub with_count : ℕ → Bytes → ℕ → Parsed
  with_count count after consumed =
      if count == 0
      then command [] consumed
      else if leb (2 ^ 63) count
      then command [] consumed
      else if ltb room count && ltb limit count
      then panics
      else bulks count after consumed []

  array_body : Option ℕ → Bytes → ℕ → Parsed
  array_body none after consumed = protocol_error
  array_body (some count) after consumed = with_count count after consumed

  array_line : Line → Parsed
  array_line no_line = incomplete
  array_line bad_line = protocol_error
  array_line (line body after idx) = array_body (word_from 0 body) after (idx + 1)

  unfoldable pub parse_array : Bytes → Parsed
  unfolding array_body array_line
  parse_array bs = array_line (header bs)

  -- `ParseCommandInto`, with what it does on an inline command as a parameter.
  unfoldable pub parse_command : (Bytes → Parsed) → Bytes → Parsed
  parse_command inline [] = incomplete
  parse_command inline (c ∷ cs) = if c == b'*' then parse_array (c ∷ cs) else inline (c ∷ cs)
