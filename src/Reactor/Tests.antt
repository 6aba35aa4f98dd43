-- ===== src/Reactor/Tests.antt =====
-- Runs of the ring buffer and of the parser, and the theorems about them at concrete states.
use Prim.Native.Nat.{min}
use vortexkv.Prelude.{
  ◌-◌, ◌^◌, ◌≤◌, ◌<◌, ◌≡◌, refl, List, [], ◌∷◌, ◌++◌, Bytes, bytes, length, arith,
}
use vortexkv.Prelude.Int.{pos}
use vortexkv.Prelude.Decimal.{print}
use vortexkv.Resp.Serialize.{header_line, serialize_command, serialize_args}
use vortexkv.Reactor.Copy.{copy_at}
use vortexkv.Reactor.RingBuffer.{
  RingBuffer, len, write, read, linear_bytes, advance_write, write_slice, socket_read,
}
use vortexkv.Reactor.RingBuffer.View.{IsValid, contents}
use vortexkv.Reactor.RingBuffer.Write.{write_lem, socket_read_lem}
use vortexkv.Reactor.RingBuffer.Read.{Delivered, read_lem}
use vortexkv.Reactor.Parser.{
  Parsed, command, incomplete, panics, parse_array, parse_command, header, index_byte, word_from,
  with_count, bulks, bulk, bulk_len, payload,
}
use vortexkv.Reactor.Parser.Round.{parse_command-serialize_command}
use vortexkv.Reactor.Parser.Bounds.{parse_array-bounds}
use vortexkv.Reactor.Parser.Panics.{parse_command-bulk_overflow}

-- 8 and 9, then 7 round the end of the array.
abbrev wrapped : RingBuffer
wrapped = record { buf = 7 ∷ 0 ∷ 8 ∷ 9 ∷ []; size = 4; r = 2; w = 1 }

wrapped-IsValid : IsValid wrapped
wrapped-IsValid = omega arith

linear_bytes-wrapped : linear_bytes wrapped ≡ 8 ∷ 9 ∷ 7 ∷ []
unfolding linear_bytes copy_at
linear_bytes-wrapped = refl

write_lem_example :
    ((write wrapped (1 ∷ 2 ∷ [])).0 ≡ 2)
    × IsValid (write wrapped (1 ∷ 2 ∷ [])).1
    × (contents (write wrapped (1 ∷ 2 ∷ [])).1 ≡ contents wrapped ++ 1 ∷ 2 ∷ [])
write_lem_example = write_lem wrapped (1 ∷ 2 ∷ []) wrapped-IsValid

-- Before 7 was written there was a free byte round the end.
abbrev half : RingBuffer
half = record { buf = 0 ∷ 0 ∷ 8 ∷ 9 ∷ []; size = 4; r = 2; w = 3 }

socket_read_lem_example :
    IsValid (advance_write (socket_read half (9 ∷ [])) (pos 1))
    × (contents (advance_write (socket_read half (9 ∷ [])) (pos 1)) ≡ contents half ++ 9 ∷ [])
socket_read_lem_example =
    socket_read_lem half (9 ∷ []) (omega arith) (unfold write_slice in omega arith)

read_lem_example :
    Delivered wrapped (0 ∷ 0 ∷ 0 ∷ 0 ∷ []) (min (len wrapped) 4) (read wrapped (0 ∷ 0 ∷ 0 ∷ 0 ∷ []))
read_lem_example = read_lem wrapped (0 ∷ 0 ∷ 0 ∷ 0 ∷ []) wrapped-IsValid (unfold len in omega arith)

abbrev refuse : Bytes → Parsed
refuse bs = incomplete

abbrev get_k : List Bytes
get_k = bytes "GET" ∷ bytes "k" ∷ []

serialize-get_k :
    serialize_command get_k
    ≡ 42 ∷ 50 ∷ 13 ∷ 10 ∷ 36 ∷ 51 ∷ 13 ∷ 10 ∷ 71 ∷ 69 ∷ 84 ∷ 13 ∷ 10 ∷ 36 ∷ 49 ∷ 13 ∷ 10 ∷ 107 ∷ 13
      ∷ 10 ∷ []
unfolding serialize_command serialize_args print
serialize-get_k = refl

parse_command-serialize_command_example :
    parse_command 0 1000 refuse (serialize_command get_k ++ 42 ∷ [])
    ≡ command get_k (length (serialize_command get_k))
parse_command-serialize_command_example =
    parse_command-serialize_command 0 1000 refuse get_k (42 ∷ []) (omega arith) (omega arith)
      (omega arith)

parse-ping :
    parse_array 0 1000 (42 ∷ 49 ∷ 13 ∷ 10 ∷ 36 ∷ 49 ∷ 13 ∷ 10 ∷ 107 ∷ 13 ∷ 10 ∷ 42 ∷ [])
    ≡ command (bytes "k" ∷ []) 11
unfolding parse_array header index_byte word_from with_count bulks bulk bulk_len payload
parse-ping = refl

parse_array-bounds_example : (0 < 11) × (11 ≤ 12)
parse_array-bounds_example =
    parse_array-bounds 0 1000 (42 ∷ 49 ∷ 13 ∷ 10 ∷ 36 ∷ 49 ∷ 13 ∷ 10 ∷ 107 ∷ 13 ∷ 10 ∷ 42 ∷ [])
      (bytes "k" ∷ []) 11 parse-ping

parse_command-bulk_overflow_example :
    parse_command 0 1000 refuse (header_line b'*' 1 (header_line b'$' (2 ^ 63 - 1) (120 ∷ [])))
    ≡ panics
parse_command-bulk_overflow_example =
    parse_command-bulk_overflow 0 1000 refuse (2 ^ 63 - 1) (120 ∷ []) (omega arith) (omega arith)
      (omega arith) (omega arith)
