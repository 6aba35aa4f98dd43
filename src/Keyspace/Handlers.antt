-- ===== src/Keyspace/Handlers.antt =====
-- Every handler body keeps its shard sound, except `SetString` over a key of another type.
use vortexkv.Prelude.{
  zero, suc, ◌≡◌, refl, Option, none, some, Bytes, bytes_key, Bool-cases, inl, inr,
}
use vortexkv.Prelude.Int.{ℤ, pos, negsuc}
use vortexkv.Map.{lookup, Distinct}
use vortexkv.Keyspace.Entry.{EntryType, Value, Entry, is_expired}
use vortexkv.Keyspace.Lock.{Locked, put_entry}
use vortexkv.Keyspace.Sound.{
  Sound, Sound-refl, Sound-remove, Sound-add, Sound-put, Keeps, Keeps-fetch,
}
use vortexkv.Keyspace.Ops.{
  expire_found, expire_key, set_found, set_body, set_nx_found, set_nx_body, delete_found,
  delete_body,
}
use vortexkv.Keyspace.Values.{
  Result, ok, err, incr_by_stored, incr_by_found, incr_by_body, append_stored, append_found,
  append_body, get_or_create_found, get_or_create_body, number_of, string_of,
}
use vortexkv.Keyspace.Expiry.{expire_entry, expire_body, persist_by, persist_entry, persist_body}

module _ (key : Bytes) where
  expire_found-Sound :
      (now : ℤ) (o : Option Entry) (s : Locked)
      → Distinct s.entries
      → lookup key s.entries ≡ o
      → Sound key s (expire_found now key o s).1
  unfolding expire_found
  expire_found-Sound now none s d h = Sound-refl key s d
  expire_found-Sound now (some e) s d h = elim (Bool-cases (is_expired e now)) [
    | inl old ↦ rw old (Sound-remove key e s d h)
    | inr fresh ↦ rw fresh (Sound-refl key s d)
  ]

  pub expire_key-Keeps : (now : ℤ) → Keeps key (expire_key now key)
  unfolding expire_key
  expire_key-Keeps now = record {
    at = λ s d. expire_found-Sound now (lookup key s.entries) s d refl;
  }

  set_found-Sound :
      (e : Entry) (o : Option Entry) (s : Locked)
      → Distinct s.entries
      → lookup key s.entries ≡ o
      → Sound key s (set_found key e o s).1
  unfolding set_found
  set_found-Sound e none s d h = Sound-add key e s d h
  set_found-Sound e (some old) s d h = Sound-put key e old s d h

  pub set_body-Keeps : (now : ℤ) (e : Entry) → Keeps key (set_body now key e)
  unfolding set_body
  set_body-Keeps now e = record { at = λ s d. set_found-Sound _ (lookup key s.entries) s d refl }

  delete_found-Sound :
      (o : Option Entry) (s : Locked)
      → Distinct s.entries
      → lookup key s.entries ≡ o
      → Sound key s (delete_found key o s).1
  unfolding delete_found
  delete_found-Sound none s d h = Sound-refl key s d
  delete_found-Sound (some e) s d h = Sound-remove key e s d h

  pub delete_body-Keeps : Keeps key (delete_body key)
  unfolding delete_body
  delete_body-Keeps = record { at = λ s d. delete_found-Sound (lookup key s.entries) s d refl }

  set_nx_found-Sound :
      (now : ℤ) (e : Entry) (o : Option Entry) (s : Locked)
      → Distinct s.entries
      → lookup key s.entries ≡ o
      → Sound key s (set_nx_found now key e (o, s)).1
  unfolding set_nx_found
  set_nx_found-Sound now e none s d h = Sound-add key _ s d h
  set_nx_found-Sound now e (some old) s d h = Sound-refl key s d

  pub set_nx_body-Keeps : (now : ℤ) (e : Entry) → Keeps key (set_nx_body now key e)
  unfolding set_nx_body
  set_nx_body-Keeps now e = Keeps-fetch now key (set_nx_found now key e) (set_nx_found-Sound now e)

  incr_by_found-Sound :
      (now delta : ℤ) (o : Option Entry) (s : Locked)
      → Distinct s.entries
      → lookup key s.entries ≡ o
      → Sound key s (incr_by_found now key delta (o, s)).1
  unfolding incr_by_found incr_by_stored put_entry
  incr_by_found-Sound now delta none s d h = Sound-add key _ s d h
  incr_by_found-Sound now delta (some e) s d h = stored (number_of e.entry_type e.value)
    where
      stored : (r : Result ℤ) → Sound key s (incr_by_stored now key delta e r s).1
      stored (ok n) = Sound-put key _ e s d h
      stored (err x) = Sound-refl key s d

  pub incr_by_body-Keeps : (now delta : ℤ) → Keeps key (incr_by_body now key delta)
  unfolding incr_by_body
  incr_by_body-Keeps now delta =
      Keeps-fetch now key (incr_by_found now key delta) (incr_by_found-Sound now delta)

  append_found-Sound :
      (now : ℤ) (val : Bytes) (o : Option Entry) (s : Locked)
      → Distinct s.entries
      → lookup key s.entries ≡ o
      → Sound key s (append_found now key val (o, s)).1
  unfolding append_found append_stored put_entry
  append_found-Sound now val none s d h = Sound-add key _ s d h
  append_found-Sound now val (some e) s d h = stored (string_of e.entry_type e.value)
    where
      stored : (r : Result Bytes) → Sound key s (append_stored now key val e r s).1
      stored (ok n) = Sound-put key _ e s d h
      stored (err x) = Sound-refl key s d

  pub append_body-Keeps : (now : ℤ) (val : Bytes) → Keeps key (append_body now key val)
  unfolding append_body
  append_body-Keeps now val =
      Keeps-fetch now key (append_found now key val) (append_found-Sound now val)

  get_or_create_found-Sound :
      (now : ℤ) (t : EntryType) (v : Value) (o : Option Entry) (s : Locked)
      → Distinct s.entries
      → lookup key s.entries ≡ o
      → Sound key s (get_or_create_found now key t v (o, s)).1
  unfolding get_or_create_found
  get_or_create_found-Sound now t v none s d h = Sound-add key _ s d h
  get_or_create_found-Sound now t v (some e) s d h = Sound-put key _ e s d h

  pub get_or_create_body-Keeps :
      (now : ℤ) (t : EntryType) (v : Value) → Keeps key (get_or_create_body now key t v)
  unfolding get_or_create_body
  get_or_create_body-Keeps now t v =
      Keeps-fetch now key (get_or_create_found now key t v) (get_or_create_found-Sound now t v)

  expire_entry-Sound :
      (now ttl : ℤ) (o : Option Entry) (s : Locked)
      → Distinct s.entries
      → lookup key s.entries ≡ o
      → Sound key s (expire_entry now key ttl (o, s)).1
  unfolding expire_entry
  expire_entry-Sound now ttl none s d h = Sound-refl key s d
  expire_entry-Sound now ttl (some e) s d h = Sound-put key _ e s d h

  pub expire_body-Keeps : (now ttl : ℤ) → Keeps key (expire_body now key ttl)
  unfolding expire_body
  expire_body-Keeps now ttl =
      Keeps-fetch now key (expire_entry now key ttl) (expire_entry-Sound now ttl)

  persist_by-Sound :
      (t : ℤ) (e : Entry) (s : Locked)
      → Distinct s.entries
      → lookup key s.entries ≡ some e
      → Sound key s (persist_by t key e s).1
  unfolding persist_by
  persist_by-Sound (pos zero) e s d h = Sound-refl key s d
  persist_by-Sound (pos (suc n)) e s d h = Sound-put key _ e s d h
  persist_by-Sound (negsuc n) e s d h = Sound-put key _ e s d h

  persist_entry-Sound :
      (o : Option Entry) (s : Locked)
      → Distinct s.entries
      → lookup key s.entries ≡ o
      → Sound key s (persist_entry key (o, s)).1
  unfolding persist_entry
  persist_entry-Sound none s d h = Sound-refl key s d
  persist_entry-Sound (some e) s d h = persist_by-Sound e.expires_at e s d h

  pub persist_body-Keeps : (now : ℤ) → Keeps key (persist_body now key)
  unfolding persist_body
  persist_body-Keeps now = Keeps-fetch now key (persist_entry key) persist_entry-Sound
