-- ===== src/Keyspace/Ops.antt =====
-- `Get`, `SetString`, `Set`, `SetNX`, `Delete`, `Exists`, `FlushDB`: each handler with the clock
-- readings that it takes.
use vortexkv.Prelude.{
  ℕ, zero, suc, ◌+◌, Bool, true, false, Option, none, some, List, [], ◌∷◌, Bytes, bytes_key, set,
  if◌then◌else◌,
}
use vortexkv.Prelude.Int.{ℤ, pos, lt_ℤ}
use vortexkv.Map.{lookup}
use vortexkv.Keyspace.Fnv.{num_shards}
use vortexkv.Keyspace.Entry.{EntryType, type_string, is_string, Value, text, Entry, is_expired}
use vortexkv.Keyspace.Lock.{
  Keyspace, Locked, find, with_lock, remove_entry, add_entry, put_entry, fetch,
}

-- `&Entry{Type: …, Value: …, UpdatedAt: now, LastAccessedAt: now}`
abbrev pub new_entry : ℤ → EntryType → Value → Entry
new_entry now t v = record {
  entry_type = t;
  value = v;
  expires_at = pos 0;
  updated_at = now;
  last_accessed_at = now;
}

abbrev pub stamped : ℤ → Entry → Entry
stamped now e = record e { updated_at = now; last_accessed_at = now }

-- The second critical section of `Get`: it looks again, for others may have come between.
unfoldable pub expire_found : ℤ → Bytes → Option Entry → Locked → Unit {0} × Locked
expire_found now key none s = (tt, s)
expire_found now key (some e) s = (tt, if is_expired e now then remove_entry key s else s)

unfoldable pub expire_key : ℤ → Bytes → Locked → Unit {0} × Locked
unfolding expire_found
expire_key now key s = expire_found now key (lookup key s.entries) s

unfoldable pub get_found : ℤ → Bytes → Option Entry → Keyspace → Option Entry × Keyspace
get_found now key none ks = (none, ks)
get_found now key (some e) ks =
    if lt_ℤ (pos 0) e.expires_at
    then (if is_expired e now
        then (none, (with_lock (expire_key now key) key ks).1)
        else (some e, ks))
    else (some e, ks)

unfoldable pub get : ℤ → Bytes → Keyspace → Option Entry × Keyspace
unfolding get_found
get now key ks = get_found now key (find ks key) ks

unfoldable pub set_string_found : ℤ → Bytes → Bytes → Option Entry → Locked → Unit {0} × Locked
set_string_found now key val none s = (tt, add_entry key (new_entry now type_string (text val)) s)
set_string_found now key val (some e) s =
    if is_string e.entry_type
    then (tt, put_entry key (stamped now (record e { value = text val; expires_at = pos 0 })) s)
    else (tt, add_entry key (new_entry now type_string (text val)) s)

unfoldable pub set_string_body : ℤ → Bytes → Bytes → Locked → Unit {0} × Locked
unfolding set_string_found is_string
set_string_body now key val s = set_string_found now key val (lookup key s.entries) s

unfoldable pub set_string : ℤ → Bytes → Bytes → Keyspace → Keyspace
set_string now key val ks = (with_lock (set_string_body now key val) key ks).1

unfoldable pub set_found : Bytes → Entry → Option Entry → Locked → Unit {0} × Locked
set_found key e none s = (tt, add_entry key e s)
set_found key e (some old) s = (tt, put_entry key e s)

unfoldable pub set_body : ℤ → Bytes → Entry → Locked → Unit {0} × Locked
unfolding set_found
set_body now key e s = set_found key (stamped now e) (lookup key s.entries) s

unfoldable pub set_entry : ℤ → Bytes → Entry → Keyspace → Keyspace
set_entry now key e ks = (with_lock (set_body now key e) key ks).1

unfoldable pub set_nx_found : ℤ → Bytes → Entry → Option Entry × Locked → Bool × Locked
set_nx_found now key e (none, s) = (true, add_entry key (stamped now e) s)
set_nx_found now key e (some old, s) = (false, s)

unfoldable pub set_nx_body : ℤ → Bytes → Entry → Locked → Bool × Locked
unfolding set_nx_found
set_nx_body now key e s = set_nx_found now key e (fetch now key s)

unfoldable pub set_nx : ℤ → Bytes → Entry → Keyspace → Bool × Keyspace
set_nx now key e ks = with_lock (set_nx_body now key e) key ks

unfoldable pub delete_found : Bytes → Option Entry → Locked → ℕ × Locked
delete_found key none s = (0, s)
delete_found key (some e) s = (1, remove_entry key s)

unfoldable pub delete_body : Bytes → Locked → ℕ × Locked
unfolding delete_found
delete_body key s = delete_found key (lookup key s.entries) s

unfoldable pub delete_keys : List Bytes → Keyspace → ℕ × Keyspace
delete_keys [] ks = (0, ks)
delete_keys (key ∷ keys) ks =
    let (n, ks') = with_lock (delete_body key) key ks in
    let (m, ks'') = delete_keys keys ks' in (n + m, ks'')

-- Each key comes with the clock reading of its `Get`.
unfoldable pub exists_keys : List (ℤ × Bytes) → Keyspace → ℕ × Keyspace
exists_keys [] ks = (0, ks)
exists_keys ((now, key) ∷ keys) ks =
    let (found, ks') = get now key ks in
    let (m, ks'') = exists_keys keys ks' in (elim found [ none ↦ m | some e ↦ 1 + m ], ks'')

-- One round of `FlushDB`: `shard.entries = make(map[string]*Entry)` under the lock of that shard.
unfoldable pub clear_shard : ℕ → Keyspace → Keyspace
clear_shard i ks = record ks { shards = set ks.shards i [] }

-- Its loop, over `n` shards from `i`. The locks are taken and released one after the other.
unfoldable pub clear_shards : ℕ → ℕ → Keyspace → Keyspace
unfolding clear_shard
clear_shards zero i ks = ks
clear_shards (suc n) i ks = clear_shards n (suc i) (clear_shard i ks)

-- `ks.keyCount.Store(0)`, under no lock.
unfoldable pub reset_count : Keyspace → Keyspace
reset_count ks = record ks { key_count = 0 }

-- `FlushDB` when no other connection works between its sections.
unfoldable pub flush_db : Keyspace → Keyspace
unfolding clear_shards reset_count
flush_db ks = reset_count (clear_shards num_shards 0 ks)

unfoldable pub total_keys : Keyspace → ℕ
total_keys ks = ks.key_count
