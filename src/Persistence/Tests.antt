-- ===== src/Persistence/Tests.antt =====
-- A hash, and the theorem about snapshots at it.
use vortexkv.Prelude.{ℕ, ◌≡◌, refl, Bool, true, some, [], ◌∷◌, Bytes, bytes, bytes_key, arith}
use vortexkv.Map.{Map, Distinct}
use vortexkv.Persistence.{got, hash, encode_value, decode_value}
use vortexkv.Persistence.Round.{IsStorable, decode_value-encode_value}

abbrev colors : Map Bytes Bytes
colors = (bytes "sky", bytes "blue") ∷ (bytes "sun", []) ∷ []

abbrev always : ℕ → ℕ → Bool
always size n = true

abbrev written : Bytes
written = 2 ∷ 3 ∷ 115 ∷ 107 ∷ 121 ∷ 4 ∷ 98 ∷ 108 ∷ 117 ∷ 101 ∷ 3 ∷ 115 ∷ 117 ∷ 110 ∷ 0 ∷ 255 ∷ []

colors-IsStorable : IsStorable always (hash colors)
unfolding vortexkv.Map.lookup vortexkv.Prelude.bytes_eq
colors-IsStorable = (
  omega arith,
  (refl, (refl, tt)),
  (((omega arith, refl), (omega arith, refl)), (((omega arith, refl), (omega arith, refl)), tt)),
)

written_lem : encode_value 4 (hash colors) (255 ∷ []) ≡ some written
unfolding encode_value
written_lem = refl

decode_value-encode_value_example : decode_value always 4 written ≡ got (hash colors) (255 ∷ [])
decode_value-encode_value_example =
    decode_value-encode_value always 4 (hash colors) (255 ∷ []) written colors-IsStorable
      written_lem
