-- ===== src/Keyspace/Lock.antt =====
-- The keyspace, and how a handler works on one shard under its lock.
use vortexkv.Prelude.{
  ℕ, ◌+◌, ◌-◌, ◌%◌, ◌^◌, Option, none, some, List, [], Bytes, bytes_key, get_or, set, replicate,
  if◌then◌else◌,
}
use vortexkv.Prelude.Int.{ℤ}
use vortexkv.Map.{Map, lookup, insert, delete}
use vortexkv.Keyspace.Fnv.{num_shards, shard_index}
use vortexkv.Keyspace.Entry.{Entry, is_expired}

abbrev pub Shard : Type 0
Shard = Map Bytes Entry

-- `keyCount` is the bit pattern of its `int64`.
pub record Keyspace : Type 0 where
  pub shards : List Shard
  pub key_count : ℕ

unfoldable pub new_keyspace : Keyspace
new_keyspace = record { shards = replicate num_shards []; key_count = 0 }

abbrev pub shard_at : Keyspace → ℕ → Shard
shard_at ks i = get_or ks.shards i []

-- `getShard(key)`, and the entry that a read of the shard finds.
abbrev pub get_shard : Keyspace → Bytes → Shard
get_shard ks key = shard_at ks (shard_index key)

unfoldable pub find : Keyspace → Bytes → Option Entry
find ks key = lookup key (get_shard ks key)

-- What a handler reads and writes between `shard.mu.Lock()` and `Unlock()`.
pub record Locked : Type 0 where
  pub entries : Shard
  pub key_count : ℕ

unfoldable pub locked : Keyspace → Bytes → Locked
locked ks key = record { entries = get_shard ks key; key_count = ks.key_count }

unfoldable pub unlocked : Keyspace → Bytes → Locked → Keyspace
unlocked ks key s = record {
  shards = set ks.shards (shard_index key) s.entries;
  key_count = s.key_count;
}

module _ {A : Type 0} where
  unfoldable pub with_lock : (Locked → A × Locked) → Bytes → Keyspace → A × Keyspace
  with_lock body key ks = let (a, s) = body (locked ks key) in (a, unlocked ks key s)

-- `delete(shard.entries, key); ks.keyCount.Add(-1)`
unfoldable pub remove_entry : Bytes → Locked → Locked
remove_entry key s = record {
  entries = delete key s.entries;
  key_count = (s.key_count + 2 ^ 64 - 1) % 2 ^ 64;
}

-- `shard.entries[key] = entry; ks.keyCount.Add(1)`
unfoldable pub add_entry : Bytes → Entry → Locked → Locked
add_entry key e s = record {
  entries = insert key e s.entries;
  key_count = (s.key_count + 1) % 2 ^ 64;
}

-- A write through the pointer to an entry that is in the map, or over it.
unfoldable pub put_entry : Bytes → Entry → Locked → Locked
put_entry key e s = record s { entries = insert key e s.entries }

-- `entry, exists := shard.entries[key]; if exists && entry.IsExpired(now) { delete … }`
unfoldable pub drop_if_expired : ℤ → Bytes → Option Entry → Locked → Option Entry × Locked
drop_if_expired now key none s = (none, s)
drop_if_expired now key (some e) s =
    if is_expired e now then (none, remove_entry key s) else (some e, s)

unfoldable pub fetch : ℤ → Bytes → Locked → Option Entry × Locked
unfolding drop_if_expired
fetch now key s = drop_if_expired now key (lookup key s.entries) s
