-- ===== src/Reactor/Parser/Panics.antt =====
-- Headers that end the server's goroutine: lengths that do not fit.
use vortexkv.Prelude.{
  ℕ, suc, ◌+◌, ◌-◌, ◌^◌, ◌≤◌, ◌<◌, ◌≡◌, refl, List, [], Bytes, length, ltb, arith, ==_ne, le→leb,
  le→ltb-false, lt→leb-false, lt→ltb,
}
use vortexkv.Prelude.Decimal.{print}
use vortexkv.Resp.Serialize.{header_line}
use vortexkv.Reactor.Parser.{
  Parsed, panics, stop, payload, bulk, bulks, with_count, parse_array, parse_command,
}
use vortexkv.Reactor.Parser.Round.{header-header_line, bulk_len-print, word_from-print, and_false}

payload-overflow :
    (n : ℕ) (after : Bytes) (used : ℕ)
    → n < 2 ^ 63
    → 2 ^ 63 ≤ n + 2
    → length after ≤ n
    → payload n after used ≡ stop panics
unfolding payload
payload-overflow n after used h k fits =
    rw
      (
        ==_ne n (2 ^ 64 - 1) (omega arith),
        lt→leb-false (2 ^ 63) n (omega arith),
        le→ltb-false (n + 2) (2 ^ 63) k,
        le→leb (length after) n fits,
      )
      refl

bulk-overflow :
    (n : ℕ) (after : Bytes)
    → n < 2 ^ 63
    → 2 ^ 63 ≤ n + 2
    → length after ≤ n
    → bulk (header_line b'$' n after) ≡ stop panics
unfolding bulk
bulk-overflow n after h k fits =
    rw (header-header_line b'$' n after (omega arith), bulk_len-print n (omega arith))
      (payload-overflow n after (length (print n) + 2 + 1) h k fits)

bulks-stop :
    (k : ℕ) (rest : Bytes) (consumed : ℕ) (done : List Bytes) (r : Parsed)
    → bulk rest ≡ stop r
    → bulks (suc k) rest consumed done ≡ r
unfolding bulks
bulks-stop k rest consumed done r h = rw (h, bulks) refl

-- A bulk length from 2^63 - 2 up to the largest `int` wraps round when the line end is added to
-- it. The test that the payload is there passes, and the index behind the payload is out of range:
-- the parser panics, whatever bytes (fewer than that length) stand behind the header.
pub parse_command-bulk_overflow :
    (room limit : ℕ) (inline : Bytes → Parsed) (n : ℕ) (after : Bytes)
    → 1 ≤ limit
    → n < 2 ^ 63
    → 2 ^ 63 ≤ n + 2
    → length after ≤ n
    → parse_command room limit inline (header_line b'*' 1 (header_line b'$' n after)) ≡ panics
unfolding parse_command parse_array
parse_command-bulk_overflow room limit inline n after one h k fits =
    rw
      (
        header-header_line b'*' 1 (header_line b'$' n after) (omega arith),
        word_from-print 1 (omega arith),
      )
      (unfold with_count in
        rw (le→ltb-false limit 1 one, and_false (ltb room 1))
          (bulks-stop 0 _ _ [] panics (bulk-overflow n after h k fits)))

-- An array header with a count that is an `int`, but for which the runtime cannot make a slice and
-- `dst` has no room, panics before any argument is read.
pub parse_command-count_overflow :
    (room limit : ℕ) (inline : Bytes → Parsed) (n : ℕ) (after : Bytes)
    → room < n
    → limit < n
    → n < 2 ^ 63
    → parse_command room limit inline (header_line b'*' n after) ≡ panics
unfolding parse_command parse_array
parse_command-count_overflow room limit inline n after small over h =
    rw (header-header_line b'*' n after (omega arith), word_from-print n (omega arith))
      (unfold with_count in
        rw
          (
            ==_ne n 0 (omega arith),
            lt→leb-false (2 ^ 63) n h,
            lt→ltb room n small,
            lt→ltb limit n over,
          )
          refl)
