-- ===== src/Keyspace/Strings.antt =====
-- `SetString`, the fast path of SET: what it leaves, and its counter.
use vortexkv.Prelude.{
  ◌+◌, ◌%◌, ◌^◌, ◌≡◌, refl, ap, ◌∙◌, true, false, Option, none, some, Bytes, bytes_key, bytes_eq,
  Bool-cases, inl, inr, if◌then◌else◌, arith, length,
}
use vortexkv.Prelude.Int.{ℤ}
use vortexkv.Map.{lookup, Distinct}
use vortexkv.Map.Laws.{length-insert-some}
use vortexkv.Keyspace.Fnv.{shard_index, shard_index-lt}
use vortexkv.Keyspace.Entry.{
  EntryType, type_string, type_hash, type_list, type_set, type_zset, type_vector, type_stream, text,
  Entry, is_string,
}
use vortexkv.Keyspace.Lock.{Keyspace, Locked, find, locked, unlocked, with_lock, add_entry}
use vortexkv.Keyspace.Sound.{Sound, Sound-add, Sound-put}
use vortexkv.Keyspace.Valid.{IsValid, size, size-set, unlocked-IsValid, find-unlocked}
use vortexkv.Keyspace.Ops.{new_entry, set_string_found, set_string_body, set_string}
use vortexkv.Keyspace.View.{lookup-put, lookup-add}

is_string-eq : (t : EntryType) → is_string t ≡ true → t ≡ type_string
unfolding is_string
is_string-eq type_string h = refl
is_string-eq type_hash h = cc
is_string-eq type_list h = cc
is_string-eq type_set h = cc
is_string-eq type_zset h = cc
is_string-eq type_vector h = cc
is_string-eq type_stream h = cc

-- The key is free, or holds a string already.
abbrev pub StringOrFree : Option Entry → Type 0
StringOrFree none = Unit
StringOrFree (some e) = is_string e.entry_type ≡ true

module _ (now : ℤ) (key val : Bytes) where
  set_string_found-Sound :
      (o : Option Entry) (s : Locked)
      → StringOrFree o
      → Distinct s.entries
      → lookup key s.entries ≡ o
      → Sound key s (set_string_found now key val o s).1
  unfolding set_string_found
  set_string_found-Sound none s f d h = Sound-add key _ s d h
  set_string_found-Sound (some e) s f d h = rw f (Sound-put key _ e s d h)

  set_string_found-left :
      (o : Option Entry) (s : Locked)
      → lookup key (set_string_found now key val o s).1.entries
        ≡ some (new_entry now type_string (text val))
  unfolding set_string_found
  set_string_found-left none s = lookup-add key _ s
  set_string_found-left (some e) s = elim (Bool-cases (is_string e.entry_type)) [
    | inl same ↦ rw same (
        lookup-put key _ s
        ∙ ap (λ t. some (record (new_entry now type_string (text val)) { entry_type = t }))
            (is_string-eq e.entry_type same))
    | inr other ↦ rw other (lookup-add key _ s)
  ]

  -- Over a free key or a string the fast path of SET keeps the invariant, leaves a fresh string
  -- without a deadline under its key, and every other key as it was.
  pub set_string_lem :
      (ks : Keyspace)
      → IsValid ks
      → StringOrFree (find ks key)
      → IsValid (set_string now key val ks)
        × ((j : Bytes)
            → find (set_string now key val ks) j
              ≡ (if bytes_eq key j then some (new_entry now type_string (text val)) else find ks j))
  unfolding set_string set_string_body with_lock
  set_string_lem ks v f = (
    unlocked-IsValid key ks _ v sound,
    λ j.
        find-unlocked key ks _ v sound j
        ∙ ap (λ o. if bytes_eq key j then o else find ks j)
            (set_string_found-left _ (locked ks key)),
  )
    where
      sound : Sound key (locked ks key) (set_string_body now key val (locked ks key)).1
      sound =
          set_string_found-Sound _ (locked ks key) (unfold find locked in f)
            (unfold locked in v.distinct (shard_index key)) refl

  drift_body :
      (e : Entry) (s : Locked)
      → is_string e.entry_type ≡ false
      → lookup key s.entries ≡ some e
      → ((set_string_body now key val s).1.key_count ≡ (s.key_count + 1) % 2 ^ 64)
        × (length (set_string_body now key val s).1.entries ≡ length s.entries)
  unfolding set_string_found set_string_body add_entry
  drift_body e s o h =
      rw (h, set_string_found) (rw o (refl, length-insert-some key _ e s.entries h))

  -- Over a key that holds another type, the fast path of SET counts one key more and the shards
  -- hold as many entries as before; so the count is no longer theirs.
  pub set_string-drift :
      (ks : Keyspace) (e : Entry)
      → IsValid ks
      → find ks key ≡ some e
      → is_string e.entry_type ≡ false
      → (size (set_string now key val ks).shards ≡ size ks.shards)
        × ((set_string now key val ks).key_count ≡ (ks.key_count + 1) % 2 ^ 64)
        × (¬ IsValid (set_string now key val ks))
  unfolding find locked unlocked set_string with_lock
  set_string-drift ks e v h o =
      let (count, same) = drift_body e (locked ks key) o h in
      let still : size (set_string now key val ks).shards ≡ size ks.shards = omega (
        arith,
        size-set ks.shards (shard_index key)
            (set_string_body now key val (locked ks key)).1.entries,
        same,
        shard_index-lt key,
        v.striped,
      ) in
      (still, count, λ bad. absurd (omega (arith, bad.counted, v.counted, still, count)))
