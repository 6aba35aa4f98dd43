-- ===== src/Persistence.antt =====
-- internal/persistence/rdb.go: the encoding of a value in a snapshot. A writer puts bytes before what
-- is written later, and a reader answers with the bytes behind its result.
pub mod Numbers
pub mod Maps
pub mod Round
mod Tests
use vortexkv.Prelude.{
  ℕ, zero, suc, ◌+◌, ◌-◌, ◌*◌, ◌/◌, ◌%◌, ◌^◌, Bool, true, false, not, ◌||◌, ◌&&◌, Option, none,
  some, List, [], ◌∷◌, ◌++◌, Bytes, bytes_key, length, take, drop, ltb, ◌==◌, if◌then◌else◌,
}
use vortexkv.Map.{Map, insert}

pub data DecodeError : Type 0 where
  end_of_file varint_overflow unsupported_type : DecodeError
  -- the panic of `make` with a length that the runtime cannot give
  make_panic : DecodeError

pub data Decoded (A : Type 0) : Type 0 where
  got : A → Bytes → Decoded A
  failed : DecodeError → Decoded A

abbrev pub Decoder : Type 0 → Type 0
Decoder A = Bytes → Decoded A

infixl 5 ◌>>=◌
abbrev pub ◌>>=◌ : {A B : Type 0} → Decoder A → (A → Decoder B) → Decoder B
◌>>=◌ m f bs = elim (m bs) [ got a rest ↦ f a rest | failed e ↦ failed e ]

abbrev pub pure : {A : Type 0} → A → Decoder A
pure a bs = got a bs

-- `binary.PutUvarint`: seven bits a byte, the lowest first; a `uint64` has ten bytes at most.
unfoldable pub put_uvarint : ℕ → ℕ → Bytes → Bytes
put_uvarint zero x after = x ∷ after
put_uvarint (suc f) x after =
    let more = (128 + x % 128) ∷ put_uvarint f (x / 128) after in
    if ltb x 128 then x ∷ after else more

-- `binary.ReadUvarint`, with the number of bytes that may follow
unfoldable pub get_uvarint : ℕ → Decoder ℕ
get_uvarint f [] = failed end_of_file
get_uvarint zero (b ∷ bs) = if ltb b 2 then got b bs else failed varint_overflow
get_uvarint (suc f) (b ∷ bs) =
    let more = (get_uvarint f >>= λ x. pure (b - 128 + 128 * x)) bs in
    if ltb b 128 then got b bs else more

unfoldable pub write_varint : ℕ → Bytes → Bytes
unfolding put_uvarint
write_varint x after = put_uvarint 9 x after

unfoldable pub read_varint : Decoder ℕ
unfolding get_uvarint
read_varint bs = get_uvarint 9 bs

-- `binary.LittleEndian`, a number of some bytes
unfoldable pub put_word : ℕ → ℕ → Bytes → Bytes
put_word zero x after = after
put_word (suc k) x after = x % 256 ∷ put_word k (x / 256) after

unfoldable pub get_word : ℕ → Decoder ℕ
get_word zero bs = got 0 bs
get_word (suc k) [] = failed end_of_file
get_word (suc k) (b ∷ bs) = (get_word k >>= λ x. pure (b + 256 * x)) bs

unfoldable pub write_string : Bytes → Bytes → Bytes
unfolding write_varint
write_string s after = write_varint (length s) (s ++ after)

-- Each item of a list.
unfoldable pub write_all : {A : Type 0} → (A → Bytes → Bytes) → List A → Bytes → Bytes
write_all write [] after = after
write_all write (a ∷ as') after = write a (write_all write as' after)

unfoldable pub read_times : {A : Type 0} → Decoder A → ℕ → Decoder (List A)
read_times item zero bs = got [] bs
read_times item (suc n) bs = (item >>= λ a. read_times item n >>= λ as'. pure (a ∷ as')) bs

-- A number of items and the items.
unfoldable pub write_list : {A : Type 0} → (A → Bytes → Bytes) → List A → Bytes → Bytes
unfolding write_varint write_all
write_list write xs after = write_varint (length xs) (write_all write xs after)

unfoldable pub write_pair : Bytes × Bytes → Bytes → Bytes
unfolding write_string
write_pair (f, v) after = write_string f (write_string v after)

-- Pairs go into a map one after the other.
unfoldable pub map_of : {V : Type 0} → List (Bytes × V) → Map Bytes V → Map Bytes V
map_of [] m = m
map_of ((k, v) ∷ kvs) m = map_of kvs (insert k v m)

-- Floating-point numbers stand for their bits.
pub data Stored : Type 0 where
  text : Bytes → Stored
  strings : List Bytes → Stored
  hash : Map Bytes Bytes → Stored
  scored : List (ℕ × Bytes) → Stored
  stream : List (Bytes × Map Bytes Bytes) → Stored
  vectors : ℕ → Map Bytes (List ℕ) → Stored

unfoldable pub write_scored : ℕ × Bytes → Bytes → Bytes
unfolding put_word write_string
write_scored (score, member) after = put_word 8 score (write_string member after)

unfoldable pub write_entry : Bytes × Map Bytes Bytes → Bytes → Bytes
unfolding write_string write_list write_pair
write_entry (id, fields) after = write_string id (write_list write_pair fields after)

unfoldable pub write_vector : Bytes × List ℕ → Bytes → Bytes
unfolding write_string put_word write_all
write_vector (id, vec) after = write_string id (write_all (put_word 4) vec after)

-- `encodeValue` by the type of the entry; none is `ErrUnsupportedRDBType`.
unfoldable pub encode_value : ℕ → Stored → Bytes → Option Bytes
unfolding write_string write_list write_pair write_scored write_entry write_vector write_varint
encode_value typ (text s) after = if typ == 0 then some (write_string s after) else none
encode_value typ (strings xs) after =
    if typ == 1 || typ == 2 then some (write_list write_string xs after) else none
encode_value typ (hash m) after = if typ == 4 then some (write_list write_pair m after) else none
encode_value typ (scored xs) after =
    if typ == 3 then some (write_list write_scored xs after) else none
encode_value typ (stream es) after =
    if typ == 6 then some (write_list write_entry es after) else none
encode_value typ (vectors dim m) after =
    if typ == 240 then some (write_varint dim (write_list write_vector m after)) else none

-- Whether the runtime can make a slice: the bytes of an element, and how many.
module _ (can_make : ℕ → ℕ → Bool) where
  unfoldable pub make_slice : {A : Type 0} → ℕ → ℕ → Decoder A → Decoder A
  make_slice size n then_ bs = if can_make size n then then_ bs else failed make_panic

  -- `io.ReadFull` into a slice
  unfoldable pub read_bytes : ℕ → Decoder Bytes
  read_bytes n bs = if ltb (length bs) n then failed end_of_file else got (take n bs) (drop n bs)

  unfoldable pub read_string : Decoder Bytes
  unfolding read_varint make_slice read_bytes
  read_string = read_varint >>= λ n. make_slice 1 n (read_bytes n)

  unfoldable pub read_list : {A : Type 0} → ℕ → Decoder A → Decoder (List A)
  unfolding read_varint make_slice read_times
  read_list size item = read_varint >>= λ n. make_slice size n (read_times item n)

  unfoldable pub read_pair : Decoder (Bytes × Bytes)
  unfolding read_string
  read_pair = read_string >>= λ f. read_string >>= λ v. pure (f, v)

  unfoldable pub read_map : {V : Type 0} → Decoder (Bytes × V) → Decoder (Map Bytes V)
  unfolding read_varint read_times map_of
  read_map item = read_varint >>= λ n. read_times item n >>= λ kvs. pure (map_of kvs [])

  unfoldable pub read_scored : Decoder (ℕ × Bytes)
  unfolding get_word read_string
  read_scored = get_word 8 >>= λ score. read_string >>= λ member. pure (score, member)

  unfoldable pub read_entry : Decoder (Bytes × Map Bytes Bytes)
  unfolding read_string read_map read_pair
  read_entry = read_string >>= λ id. read_map read_pair >>= λ fields. pure (id, fields)

  unfoldable pub read_vector : ℕ → Decoder (Bytes × List ℕ)
  unfolding read_string make_slice read_times get_word
  read_vector dim =
      read_string >>= λ id. make_slice 4 dim (read_times (get_word 4) dim) >>= λ vec. pure (id, vec)

  -- `decodeValue`
  unfoldable pub decode_value : ℕ → Decoder Stored
  unfolding read_string read_list read_map read_pair read_scored read_entry read_vector read_varint
  decode_value typ =
      if typ == 0
      then (read_string >>= λ s. pure (text s))
      else if typ == 1 || typ == 2
      then (read_list 16 read_string >>= λ xs. pure (strings xs))
      else if typ == 4
      then (read_map read_pair >>= λ m. pure (hash m))
      else if typ == 3
      then (read_list 24 read_scored >>= λ xs. pure (scored xs))
      else if typ == 6
      then (read_list 24 read_entry >>= λ es. pure (stream es))
      else if typ == 240
      then (read_varint >>= λ dim. read_map (read_vector dim) >>= λ m. pure (vectors dim m))
      else λ bs. failed unsupported_type
