-- ===== src/Resp/Tests.antt =====
-- A command and its reply, and the theorems about the wire format at them.
use vortexkv.Prelude.{◌≤◌, ◌≡◌, refl, [], ◌∷◌, ◌++◌, List, Bytes, bytes, length, arith}
use vortexkv.Prelude.Int.{pos}
use vortexkv.Resp.Values.{Value, simple_string, integer, bulk_string, null, array, nil, cons}
use vortexkv.Resp.Serialize.{serialize_value, serialize_command}
use vortexkv.Resp.Writer.{IsUniform, write_value, write_value-serialize_value}
use vortexkv.Resp.Reader.{got, read_value, read_command}
use vortexkv.Resp.Reader.Round.{
  IsReadable, depth, read_value-serialize_value, read_command-serialize_command,
}
use vortexkv.Resp.Reader.Fuel.{Ends, read_value-length}
use vortexkv.Reactor.Parser.{index_byte}

-- [+OK, [:7, $-1], "a\nb"]
abbrev reply : Value
reply = array (
    cons (simple_string (bytes "OK")) (
      cons (array (cons (integer (pos 7)) (cons null nil)))
        (cons (bulk_string (97 ∷ 10 ∷ 98 ∷ [])) nil)))

abbrev behind : Bytes
behind = bytes "+PONG"

reply-IsReadable : IsReadable reply
unfolding IsReadable index_byte
reply-IsReadable = (
  omega arith,
  ((refl, omega arith), ((omega arith, (omega arith, (tt, tt))), (omega arith, tt))),
)

reply-depth : depth reply ≤ 3
unfolding depth
reply-depth = omega arith

reply-IsUniform : IsUniform reply
unfolding IsUniform
reply-IsUniform = (tt, ((tt, (tt, tt)), (tt, tt)))

read_value-serialize_value_example : read_value 3 (serialize_value reply behind) ≡ got reply behind
read_value-serialize_value_example =
    read_value-serialize_value 3 reply behind reply-IsReadable reply-depth

write_value-serialize_value_example : write_value reply behind ≡ serialize_value reply behind
write_value-serialize_value_example = write_value-serialize_value reply behind reply-IsUniform

abbrev set_command : List Bytes
set_command = bytes "SET" ∷ bytes "k" ∷ [] ∷ []

read_command-serialize_command_example :
    read_command (serialize_command set_command ++ behind) ≡ got set_command behind
read_command-serialize_command_example =
    read_command-serialize_command set_command behind (omega arith)
      (omega arith, (omega arith, (omega arith, tt)))

read_value-length_example : Ends (length (bytes "**")) (read_value 3 (bytes "**"))
read_value-length_example = read_value-length 3 (bytes "**") (omega arith)
