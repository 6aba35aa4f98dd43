-- ===== src/Keyspace/Valid.antt =====
-- The invariant of the keyspace, and that every handler keeps it.
use vortexkv.Prelude.{
  ℕ, zero, suc, ◌+◌, ◌%◌, ◌^◌, ◌<◌, ◌≡◌, ◌≢◌, refl, ◌∙◌, none, List, [], ◌∷◌, Bytes, bytes_key,
  bytes_eq, bytes_eq_iff, length, arith, if◌then◌else◌, Bool-cases, inl, inr, get_or, set,
  replicate, length-set, get_or-set_self, get_or-set_ne, length-replicate, ◌==◌, ==_refl, ==_ne,
}
use native.Mathlib.Decide.{ℕ_discrete}
use vortexkv.Map.{lookup, Distinct}
use vortexkv.Keyspace.Fnv.{shard_index, shard_index-lt}
use vortexkv.Keyspace.Lock.{
  Shard, Keyspace, Locked, shard_at, find, locked, unlocked, with_lock, new_keyspace,
}
use vortexkv.Keyspace.Sound.{Sound, Keeps}

-- The number of entries in all shards.
abbrev pub size : List Shard → ℕ
size [] = 0
size (m ∷ ms) = length m + size ms

pub size-set :
    (ms : List Shard) (i : ℕ) (m : Shard)
    → i < length ms
    → size (set ms i m) + length (get_or ms i []) ≡ size ms + length m
size-set [] i m h = absurd (omega arith)
size-set (x ∷ xs) zero m h = omega arith
size-set (x ∷ xs) (suc i) m h = omega (arith, size-set xs i m)

pub record IsValid (ks : Keyspace) : Type 0 where
  pub striped : length ks.shards ≡ 256
  pub distinct : (i : ℕ) → Distinct (shard_at ks i)
  pub routed : (i : ℕ) (key : Bytes) → shard_index key ≢ i → lookup key (shard_at ks i) ≡ none
  pub counted : ks.key_count % 2 ^ 64 ≡ size ks.shards % 2 ^ 64

module _ (key : Bytes) (ks : Keyspace) (s : Locked) where
  pub shard_at-unlocked :
      IsValid ks
      → (i : ℕ)
      → shard_at (unlocked ks key s) i ≡ (if shard_index key == i then s.entries else shard_at ks i)
  unfolding unlocked
  shard_at-unlocked v i = elim (ℕ_discrete (shard_index key) i) [
    | yes same ↦
        ground (arith, get_or-set_self ks.shards (shard_index key) s.entries [], shard_index-lt key)
    | no other ↦ ground (arith, get_or-set_ne ks.shards (shard_index key) i s.entries [])
  ]

  -- A key that the handler did not touch reads the same, in its shard or in another.
  neighbour :
      (j : Bytes) (i : ℕ)
      → lookup j s.entries ≡ lookup j (shard_at ks (shard_index key))
      → lookup j (if shard_index key == i then s.entries else shard_at ks i)
        ≡ lookup j (shard_at ks i)
  neighbour j i h = elim (ℕ_discrete (shard_index key) i) [
    | yes same ↦ rw (← same, ==_refl) h
    | no other ↦ rw (==_ne (shard_index key) i other) refl
  ]

  -- Another key is left where it was, also one of the same shard.
  pub find-unlocked :
      IsValid ks
      → Sound key (locked ks key) s
      → (j : Bytes)
      → find (unlocked ks key s) j ≡ (if bytes_eq key j then lookup key s.entries else find ks j)
  unfolding find locked
  find-unlocked v p j = elim (Bool-cases (bytes_eq key j)) [
    | inl same ↦
        rw (same, ← (bytes_eq_iff key j).0 same, shard_at-unlocked v (shard_index key), ==_refl)
          refl
    | inr other ↦
        rw (other, shard_at-unlocked v (shard_index j))
          (neighbour j (shard_index j) (p.others j other))
  ]

  pub unlocked-IsValid : IsValid ks → Sound key (locked ks key) s → IsValid (unlocked ks key s)
  unfolding locked
  unlocked-IsValid v p = record {
    striped = unfold unlocked in length-set ks.shards (shard_index key) s.entries ∙ v.striped;
    distinct = λ i. rw (shard_at-unlocked v i) (ground (arith, p.distinct, v.distinct i));
    routed = λ i j ne. rw (shard_at-unlocked v i) (elim (Bool-cases (bytes_eq key j)) [
      | inl same ↦
          rw (==_ne (shard_index key) i (rw ((bytes_eq_iff key j).0 same) ne)) (v.routed i j ne)
      | inr other ↦ neighbour j i (p.others j other) ∙ v.routed i j ne
    ]);
    counted =
        unfold unlocked in
        omega (
          arith,
          p.balance,
          v.counted,
          size-set ks.shards (shard_index key) s.entries,
          shard_index-lt key,
          v.striped,
        );
  }

-- Whatever a handler answers, the keyspace that it leaves is valid.
pub with_lock-IsValid :
    {A : Type 0} (key : Bytes) (ks : Keyspace) {body : Locked → A × Locked}
    → Keeps key body
    → IsValid ks
    → IsValid (with_lock body key ks).1
unfolding with_lock
with_lock-IsValid key ks {body} k v =
    unlocked-IsValid key ks (body (locked ks key)).1 v
      (k.at (locked ks key) (unfold locked in v.distinct (shard_index key)))

-- What the other keys hold is untouched, and `key` holds what the handler left.
pub find-with_lock :
    {A : Type 0} (key : Bytes) (ks : Keyspace) {body : Locked → A × Locked}
    → Keeps key body
    → IsValid ks
    → (j : Bytes)
    → find (with_lock body key ks).1 j
      ≡ (if bytes_eq key j then lookup key (body (locked ks key)).1.entries else find ks j)
unfolding with_lock
find-with_lock key ks {body} k v j =
    find-unlocked key ks (body (locked ks key)).1 v
      (k.at (locked ks key) (unfold locked in v.distinct (shard_index key))) j

pub shard_at-new : (i n : ℕ) → get_or (replicate {A = Shard} n []) i [] ≡ []
shard_at-new i zero = refl
shard_at-new zero (suc n) = refl
shard_at-new (suc i) (suc n) = shard_at-new i n

pub size-new : (n : ℕ) → size (replicate n []) ≡ 0
size-new zero = refl
size-new (suc n) = omega (arith, size-new n)

pub new_keyspace-IsValid : IsValid new_keyspace
unfolding new_keyspace lookup
new_keyspace-IsValid = record {
  striped = length-replicate {A = Shard} 256 [];
  distinct = λ i. rw (shard_at-new i 256) tt;
  routed = λ i key ne. rw (shard_at-new i 256) refl;
  counted = omega (arith, size-new 256);
}
