-- ===== src/Keyspace/Flush.antt =====
-- `FlushDB` by itself, and with a SET between its sections.
use vortexkv.Prelude.{
  ℕ, zero, suc, ◌+◌, ◌≡◌, refl, sym, ap, ◌∙◌, List, [], ◌∷◌, ◌++◌, Bytes, bytes_key, length,
  replicate, set, arith, length-replicate,
}
use vortexkv.Prelude.Int.{ℤ}
use vortexkv.Map.{lookup, insert}
use vortexkv.Keyspace.Fnv.{num_shards, shard_index, shard_index-lt}
use vortexkv.Keyspace.Entry.{Entry}
use vortexkv.Keyspace.Lock.{
  Shard, Keyspace, Locked, locked, unlocked, with_lock, add_entry, new_keyspace,
}
use vortexkv.Keyspace.Valid.{IsValid, size, size-set, size-new, shard_at-new}
use vortexkv.Keyspace.Ops.{
  clear_shard, clear_shards, reset_count, flush_db, set_found, set_body, set_entry,
}

-- The shards are empty and the counter is `c`.
abbrev emptied : ℕ → ℕ → Keyspace
emptied n c = record { shards = replicate n []; key_count = c }

set-replicate :
    (i : ℕ) (m : Shard) (ms : List Shard)
    → set (replicate i [] ++ (m ∷ ms)) i [] ≡ replicate (suc i) [] ++ ms
set-replicate zero m ms = refl
set-replicate (suc i) m ms = ap (λ r. [] ∷ r) (set-replicate i m ms)

replicate-end : (i : ℕ) → replicate {A = Shard} i [] ++ [] ≡ replicate i []
replicate-end zero = refl
replicate-end (suc i) = ap (λ r. [] ∷ r) (replicate-end i)

-- The loop, when the shards before `i` are empty already.
clear_shards-from :
    (ms : List Shard) (i c : ℕ)
    → clear_shards (length ms) i (record { shards = replicate i [] ++ ms; key_count = c })
      ≡ emptied (i + length ms) c
unfolding clear_shards clear_shard
clear_shards-from [] i c =
    ap (λ r. record { shards = r; key_count = c }) (replicate-end i)
    ∙ ap (λ n. emptied n c) (omega arith)
clear_shards-from (m ∷ ms) i c =
    ap (λ r. clear_shards (length ms) (suc i) (record { shards = r; key_count = c }))
      (set-replicate i m ms)
    ∙ clear_shards-from ms (suc i) c
    ∙ ap (λ n. emptied n c) (omega arith)

clear_shards_lem :
    (ks : Keyspace)
    → length ks.shards ≡ num_shards
    → clear_shards num_shards 0 ks ≡ emptied num_shards ks.key_count
clear_shards_lem ks h =
    ap (λ n. clear_shards n 0 ks) (sym h)
    ∙ clear_shards-from ks.shards 0 ks.key_count
    ∙ ap (λ n. emptied n ks.key_count) {y = num_shards} (omega (arith, h))

-- `FlushDB` with nothing of other connections between its sections leaves the empty keyspace.
pub flush_db_lem : (ks : Keyspace) → length ks.shards ≡ num_shards → flush_db ks ≡ new_keyspace
unfolding flush_db new_keyspace reset_count
flush_db_lem ks h = ap reset_count (clear_shards_lem ks h)

set_body-empty :
    (now : ℤ) (key : Bytes) (e : Entry) (s : Locked)
    → s.entries ≡ []
    → length (set_body now key e s).1.entries ≡ 1
unfolding set_body set_found add_entry lookup insert
set_body-empty now key e s h = rw h refl

set_entry-emptied :
    (now : ℤ) (key : Bytes) (e : Entry) (c : ℕ)
    → size (set_entry now key e (emptied num_shards c)).shards ≡ 1
unfolding set_entry with_lock unlocked locked
set_entry-emptied now key e c =
    let ks = emptied num_shards c in
    omega (
      arith,
      size-set ks.shards (shard_index key) (set_body now key e (locked ks key)).1.entries,
      set_body-empty now key e (locked ks key) (shard_at-new (shard_index key) num_shards),
      ap length (shard_at-new (shard_index key) num_shards),
      size-new num_shards,
      length-replicate {A = Shard} num_shards [],
      shard_index-lt key,
    )

-- A SET between the last section of a `FlushDB` and its store to the counter leaves one entry and a
-- counter of none, so the keyspace is no longer valid.
flush_db-drift :
    (now : ℤ) (key : Bytes) (e : Entry) (ks : Keyspace)
    → IsValid ks
    → let after = reset_count (set_entry now key e (clear_shards num_shards 0 ks)) in
      (size after.shards ≡ 1) × (after.key_count ≡ 0) × (¬ IsValid after)
unfolding reset_count
flush_db-drift now key e ks v =
    let one =
      ap (λ k. size (set_entry now key e k).shards) (clear_shards_lem ks v.striped)
      ∙ set_entry-emptied now key e ks.key_count in
    (one, refl, λ bad. absurd (omega (arith, bad.counted, one)))
