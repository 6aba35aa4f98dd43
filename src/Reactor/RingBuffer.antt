-- ===== src/Reactor/RingBuffer.antt =====
-- internal/reactor/ring_buffer.go: a circular byte buffer that grows. A length or a cursor is a
-- number: the program keeps them below the size of its memory.
pub mod View
pub mod Write
pub mod Read
use vortexkv.Prelude.{
  ℕ, zero, suc, ◌+◌, ◌-◌, ◌*◌, ◌%◌, ◌≡◌, Bool, true, false, Option, none, some, List, [], ◌∷◌, ◌++◌,
  Bytes, length, take, drop, replicate, ltb, leb, ◌==◌, if◌then◌else◌,
}
use vortexkv.Prelude.Int.{ℤ, pos, negsuc}
use vortexkv.Reactor.Copy.{copy_at}

pub record RingBuffer : Type 0 where
  pub buf : Bytes
  pub size : ℕ
  -- the read cursor and the write cursor
  pub r : ℕ
  pub w : ℕ

of_capacity : ℕ → RingBuffer
of_capacity c = record { buf = replicate c 0; size = c; r = 0; w = 0 }

unfoldable pub new_ring_buffer : ℤ → RingBuffer
unfolding of_capacity
new_ring_buffer (pos zero) = of_capacity (64 * 1024)
new_ring_buffer (pos (suc c)) = of_capacity (suc c)
new_ring_buffer (negsuc n) = of_capacity (64 * 1024)

unfoldable pub len : RingBuffer → ℕ
len b = if leb b.r b.w then b.w - b.r else b.size - b.r + b.w

unfoldable pub free : RingBuffer → ℕ
unfolding len
free b = b.size - 1 - len b

unfoldable pub is_empty : RingBuffer → Bool
is_empty b = b.r == b.w

unfoldable pub is_full : RingBuffer → Bool
unfolding free
is_full b = free b == 0

unfoldable pub reset : RingBuffer → RingBuffer
reset b = record b { r = 0; w = 0 }

-- The readable bytes copied to the front of a new array.
unfoldable pub grown_buf : RingBuffer → Bytes → Bytes
unfolding len
grown_buf b new_buf =
    if ltb 0 (len b)
    then (if ltb b.r b.w
        then copy_at new_buf 0 (take (b.w - b.r) (drop b.r b.buf))
        else (let c1 = b.size - b.r in
            copy_at (copy_at new_buf 0 (take c1 (drop b.r b.buf))) c1 (take b.w b.buf)))
    else new_buf

unfoldable pub grown_cap : RingBuffer → ℕ → ℕ
grown_cap b min_cap = if ltb (b.size * 2) min_cap then min_cap * 2 else b.size * 2

unfoldable pub grow : RingBuffer → ℕ → RingBuffer
unfolding grown_buf grown_cap len
grow b min_cap = record {
  buf = grown_buf b (replicate (grown_cap b min_cap) 0);
  size = grown_cap b min_cap;
  r = 0;
  w = len b;
}

-- `Write` once there is room.
unfoldable pub write_into : RingBuffer → Bytes → RingBuffer
write_into b p =
    let n = length p in
    let c1 = b.size - b.w in
    if leb b.r b.w
    then (if leb n c1
        then record b { buf = copy_at b.buf b.w p; w = if b.w + n == b.size then 0 else b.w + n }
        else record b {
          buf = copy_at (copy_at b.buf b.w (take c1 p)) 0 (take (n - c1) (drop c1 p));
          w = n - c1;
        })
    else record b { buf = copy_at b.buf b.w p; w = b.w + n }

unfoldable pub write : RingBuffer → Bytes → ℕ × RingBuffer
unfolding free
write b p =
    let n = length p in
    if n == 0
    then (0, b)
    else (n, write_into (if ltb (free b) n then grow b (len b + n + 1) else b) p)

-- `Read` into `p`: how many bytes (none at the end of what is readable), `p` with them, the buffer.
unfoldable pub read : RingBuffer → Bytes → Option ℕ × Bytes × RingBuffer
unfolding len is_empty
read b p =
    let n = if ltb (len b) (length p) then len b else length p in
    let c1 = b.size - b.r in
    if is_empty b
    then (none, p, b)
    else if ltb b.r b.w
    then (some n, copy_at p 0 (take n (drop b.r b.buf)), record b { r = b.r + n })
    else if leb n c1
    then (
      some n,
      copy_at p 0 (take n (drop b.r b.buf)),
      record b { r = if b.r + n == b.size then 0 else b.r + n },
    )
    else (
      some n,
      copy_at (copy_at p 0 (take c1 (drop b.r b.buf))) c1 (take (n - c1) b.buf),
      record b { r = n - c1 },
    )

unfoldable pub peek : RingBuffer → Bytes
unfolding is_empty
peek b =
    if is_empty b
    then []
    else if ltb b.r b.w
    then take (b.w - b.r) (drop b.r b.buf)
    else take (b.size - b.r) (drop b.r b.buf)

unfoldable pub linear_bytes : RingBuffer → Bytes
unfolding len
linear_bytes b =
    let c1 = b.size - b.r in
    if len b == 0
    then []
    else if ltb b.r b.w
    then take (b.w - b.r) (drop b.r b.buf)
    else copy_at (copy_at (replicate (len b) 0) 0 (take c1 (drop b.r b.buf))) c1 (take b.w b.buf)

unfoldable pub advance_read : RingBuffer → ℤ → RingBuffer
unfolding len
advance_read b (negsuc n) = b
advance_read b (pos zero) = b
advance_read b (pos (suc n)) = record b {
  r = (b.r + (if ltb (len b) (suc n) then len b else suc n)) % b.size;
}

unfoldable pub advance_write : RingBuffer → ℤ → RingBuffer
advance_write b (negsuc n) = b
advance_write b (pos zero) = b
advance_write b (pos (suc n)) = record b { w = (b.w + suc n) % b.size }

-- The bounds of the slice that `WriteSlice` gives the socket to read into.
unfoldable pub write_slice : RingBuffer → ℕ × ℕ
write_slice b =
    if leb b.r b.w then (if b.r == 0 then (b.w, b.size - 1) else (b.w, b.size)) else (b.w, b.r - 1)

-- The socket fills the start of that slice with `p`.
unfoldable pub socket_read : RingBuffer → Bytes → RingBuffer
socket_read b p = record b { buf = copy_at b.buf b.w p }
