-- ===== src/Resp/Serialize.antt =====
-- internal/resp/writer.go: the bytes of a value or a command, before what follows them.
use vortexkv.Prelude.{ℕ, List, [], ◌∷◌, ◌++◌, Bytes, bytes, length}
use vortexkv.Prelude.Decimal.{print, print_int}
use vortexkv.Resp.Values.{
  Value, Values, simple_string, error, integer, bulk_string, nil_bulk, null, null_array, boolean,
  array, untyped, nil, cons, count,
}

abbrev pub cr : ℕ
cr = 13

abbrev pub lf : ℕ
lf = 10

-- A prefix byte, a number and the end of the line, before what follows.
abbrev pub header_line : ℕ → ℕ → Bytes → Bytes
header_line prefix n after = prefix ∷ (print n ++ cr ∷ lf ∷ after)

unfoldable pub serialize_args : List Bytes → Bytes
serialize_args [] = []
serialize_args (arg ∷ args) = header_line b'$' (length arg) (arg ++ cr ∷ lf ∷ serialize_args args)

unfoldable pub serialize_command : List Bytes → Bytes
serialize_command args = header_line b'*' (length args) (serialize_args args)

-- `SerializeValue`; a boolean has no bytes, and a nil bulk string those of an empty one.
unfoldable mutual
  unfolding count

  pub serialize_value : Value → Bytes → Bytes
  serialize_value (simple_string s) after = b'+' ∷ (s ++ cr ∷ lf ∷ after)
  serialize_value (error s) after = b'-' ∷ (s ++ cr ∷ lf ∷ after)
  serialize_value (integer n) after = b':' ∷ (print_int n ++ cr ∷ lf ∷ after)
  serialize_value (bulk_string s) after = header_line b'$' (length s) (s ++ cr ∷ lf ∷ after)
  serialize_value nil_bulk after = header_line b'$' 0 (cr ∷ lf ∷ after)
  serialize_value null after = bytes "$-1" ++ cr ∷ lf ∷ after
  serialize_value null_array after = bytes "*-1" ++ cr ∷ lf ∷ after
  serialize_value (boolean b) after = after
  serialize_value (untyped t) after = after
  serialize_value (array vs) after = header_line b'*' (count vs) (serialize_items vs after)

  pub serialize_items : Values → Bytes → Bytes
  serialize_items nil after = after
  serialize_items (cons v vs) after = serialize_value v (serialize_items vs after)
