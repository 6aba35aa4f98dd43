-- ===== src/Keyspace/Fnv.antt =====
-- The shard hash: the unrolled FNV-1a loop.
use Prim.Native.Nat.{bit_and, bit_xor}
use vortexkv.Prelude.{◌≡◌, refl, ◌∙◌, ℕ, ◌*◌, ◌-◌, ◌%◌, ◌^◌, ◌<◌, bit_and-le, [], ◌∷◌, Bytes, arith}

abbrev pub offset64 : ℕ
offset64 = 14695981039346656037

abbrev pub prime64 : ℕ
prime64 = 1099511628211

-- One byte, as both loops do it: `hash = (hash ^ uint64(s[i])) * prime64`
pub mix : ℕ → ℕ → ℕ
mix hash b = bit_xor hash b * prime64 % 2 ^ 64

-- The second loop: the bytes that are left one at a time.
pub tail_loop : ℕ → Bytes → ℕ
tail_loop hash [] = hash
tail_loop hash (b ∷ s) = tail_loop (mix hash b) s

-- The first loop: four bytes a round, while four are left.
pub unrolled_loop : ℕ → Bytes → ℕ
unfolding tail_loop
unrolled_loop hash (a ∷ b ∷ c ∷ d ∷ s) = unrolled_loop (mix (mix (mix (mix hash a) b) c) d) s
unrolled_loop hash s = tail_loop hash s

unfoldable pub fnv1a : Bytes → ℕ
unfolding unrolled_loop mix
fnv1a s = unrolled_loop offset64 s

abbrev pub num_shards : ℕ
num_shards = 256

-- `fnv1a(key) & (NumShards-1)`
unfoldable pub shard_index : Bytes → ℕ
shard_index key = bit_and (fnv1a key) (num_shards - 1)

pub shard_index-lt : (key : Bytes) → shard_index key < 256
unfolding shard_index
shard_index-lt key = omega (arith, bit_and-le (fnv1a key) 255)

unrolled_loop-eq-tail_loop : (hash : ℕ) (s : Bytes) → unrolled_loop hash s ≡ tail_loop hash s
unfolding unrolled_loop
unrolled_loop-eq-tail_loop hash (a ∷ b ∷ c ∷ d ∷ s) =
    unrolled_loop-eq-tail_loop (mix (mix (mix (mix hash a) b) c) d) s
unrolled_loop-eq-tail_loop hash [] = refl
unrolled_loop-eq-tail_loop hash (a ∷ []) = refl
unrolled_loop-eq-tail_loop hash (a ∷ b ∷ []) = refl
unrolled_loop-eq-tail_loop hash (a ∷ b ∷ c ∷ []) = refl

-- FNV-1a as its authors define it: fold the bytes into the hash, first to last.
abbrev pub fold_left : (ℕ → ℕ → ℕ) → ℕ → Bytes → ℕ
fold_left f acc [] = acc
fold_left f acc (b ∷ s) = fold_left f (f acc b) s

tail_loop-eq-fold_left : (hash : ℕ) (s : Bytes) → tail_loop hash s ≡ fold_left mix hash s
unfolding tail_loop
tail_loop-eq-fold_left hash [] = refl
tail_loop-eq-fold_left hash (b ∷ s) = tail_loop-eq-fold_left (mix hash b) s

-- The unrolled hash is FNV-1a: the fold of xor and product, one byte at a time, in 64 bits.
pub fnv1a-eq-fold :
    (s : Bytes) → fnv1a s ≡ fold_left (λ h b. bit_xor h b * prime64 % 2 ^ 64) offset64 s
unfolding fnv1a
fnv1a-eq-fold s =
    unrolled_loop-eq-tail_loop offset64 s ∙ unfold mix in tail_loop-eq-fold_left offset64 s
