-- ===== src/Keyspace/Deletes.antt =====
-- `Delete`: which keys go, and how many.
use vortexkv.Prelude.{
  ◌+◌, ◌≡◌, refl, ap, ◌∙◌, Bool, false, ◌||◌, Option, none, some, List, [], ◌∷◌, Bytes, bytes_key,
  bytes_eq, if◌then◌else◌, arith, length,
}
use vortexkv.Map.{lookup, Distinct}
use vortexkv.Map.Laws.{length-delete-some}
use vortexkv.Keyspace.Fnv.{shard_index, shard_index-lt}
use vortexkv.Keyspace.Entry.{Entry}
use vortexkv.Keyspace.Lock.{Keyspace, Locked, find, locked, unlocked, with_lock, remove_entry}
use vortexkv.Keyspace.Valid.{IsValid, size, size-set, with_lock-IsValid, find-with_lock}
use vortexkv.Keyspace.Handlers.{delete_body-Keeps}
use vortexkv.Keyspace.Ops.{delete_found, delete_body, delete_keys}
use vortexkv.Keyspace.View.{lookup-remove}

delete_found-left :
    (key : Bytes) (o : Option Entry) (s : Locked)
    → lookup key s.entries ≡ o
    → Distinct s.entries
    → (lookup key (delete_found key o s).1.entries ≡ none)
      × ((delete_found key o s).0 + length (delete_found key o s).1.entries ≡ length s.entries)
unfolding delete_found
delete_found-left key none s h d = (h, omega arith)
delete_found-left key (some e) s h d = (
  lookup-remove key s,
  unfold remove_entry in omega (arith, length-delete-some key e s.entries d h),
)

delete_body-left :
    (key : Bytes) (s : Locked)
    → Distinct s.entries
    → (lookup key (delete_body key s).1.entries ≡ none)
      × ((delete_body key s).0 + length (delete_body key s).1.entries ≡ length s.entries)
unfolding delete_body
delete_body-left key s d = delete_found-left key (lookup key s.entries) s refl d

module _ (key : Bytes) (ks : Keyspace) (v : IsValid ks) where
  delete_one-size :
      (with_lock (delete_body key) key ks).0 + size (with_lock (delete_body key) key ks).1.shards
      ≡ size ks.shards
  unfolding with_lock unlocked locked
  delete_one-size = omega (
    arith,
    (delete_body-left key (locked ks key) (v.distinct (shard_index key))).1,
    size-set ks.shards (shard_index key) (delete_body key (locked ks key)).1.entries,
    shard_index-lt key,
    v.striped,
  )

  delete_one-find :
      (j : Bytes)
      → find (with_lock (delete_body key) key ks).1 j ≡ (if bytes_eq key j then none else find ks j)
  delete_one-find j =
      find-with_lock key ks (delete_body-Keeps key) v j
      ∙ ap (λ o. if bytes_eq key j then o else find ks j)
          (delete_body-left key (locked ks key) (unfold locked in v.distinct (shard_index key))).0

-- The key is in the list.
abbrev pub listed : List Bytes → Bytes → Bool
listed [] j = false
listed (k ∷ keys) j = bytes_eq k j || listed keys j

-- `Delete` keeps the invariant, removes the listed keys and no other, and answers how many entries
-- went.
pub delete_keys_lem :
    (keys : List Bytes) (ks : Keyspace)
    → IsValid ks
    → IsValid (delete_keys keys ks).1
      × ((delete_keys keys ks).0 + size (delete_keys keys ks).1.shards ≡ size ks.shards)
      × ((j : Bytes) → find (delete_keys keys ks).1 j ≡ (if listed keys j then none else find ks j))
unfolding delete_keys
delete_keys_lem [] ks v = (v, omega arith, λ j. refl)
delete_keys_lem (key ∷ keys) ks v =
    let step = with_lock-IsValid key ks (delete_body-Keeps key) v in
    let (valid, count, gone) = delete_keys_lem keys (with_lock (delete_body key) key ks).1 step in
    (
      valid,
      omega (arith, count, delete_one-size key ks v),
      λ j. gone j ∙ ground (arith, delete_one-find key ks v j),
    )
