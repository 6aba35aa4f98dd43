-- ===== src/Keyspace/Reach.antt =====
-- The modelled handlers on a keyspace, one after the other. A `Delete` or an `Exists` of several keys
-- is one after the other for each key; a `FlushDB` is here as a whole, without the sections of others
-- among its own. What those can do to the counter is in `Keyspace.Flush`.
use vortexkv.Prelude.{◌%◌, ◌^◌, ◌≡◌, Bool-cases, inl, inr, List, [], ◌∷◌, Bytes, Option, none, some}
use vortexkv.Prelude.Int.{ℤ, pos, lt_ℤ}
use vortexkv.Keyspace.Entry.{EntryType, Value, Entry, is_expired}
use vortexkv.Keyspace.Lock.{Keyspace, find, with_lock, new_keyspace}
use vortexkv.Keyspace.Valid.{IsValid, size, with_lock-IsValid, new_keyspace-IsValid}
use vortexkv.Keyspace.Handlers.{
  expire_key-Keeps, set_body-Keeps, set_nx_body-Keeps, incr_by_body-Keeps, append_body-Keeps,
  get_or_create_body-Keeps, expire_body-Keeps, persist_body-Keeps,
}
use vortexkv.Keyspace.Ops.{
  expire_key, get_found, get, set_string, set_entry, set_nx, delete_keys, exists_keys, flush_db,
  total_keys,
}
use vortexkv.Keyspace.Values.{incr_by, append_value, get_or_create}
use vortexkv.Keyspace.Expiry.{expire, persist, pttl, ttl}
use vortexkv.Keyspace.Strings.{StringOrFree, set_string_lem}
use vortexkv.Keyspace.Deletes.{delete_keys_lem}
use vortexkv.Keyspace.Flush.{flush_db_lem}

-- `Get` is two steps, for others may work between its two critical sections; the first changes
-- nothing, and the second is `expires`. SET by the fast path is a step only over a free key or a
-- string, and FlushDB only when nothing comes between its sections.
pub data Step (ks : Keyspace) : Keyspace → Type 0 where
  gets : (now : ℤ) (key : Bytes) → Step ks (get now key ks).1
  expires : (now : ℤ) (key : Bytes) → Step ks (with_lock (expire_key now key) key ks).1
  sets_string :
      (now : ℤ) (key val : Bytes) → StringOrFree (find ks key) → Step ks (set_string now key val ks)
  sets : (now : ℤ) (key : Bytes) (e : Entry) → Step ks (set_entry now key e ks)
  sets_nx : (now : ℤ) (key : Bytes) (e : Entry) → Step ks (set_nx now key e ks).1
  increments : (now : ℤ) (key : Bytes) (delta : ℤ) → Step ks (incr_by now key delta ks).1
  appends : (now : ℤ) (key val : Bytes) → Step ks (append_value now key val ks).1
  creates :
      (now : ℤ) (key : Bytes) (t : EntryType) (v : Value) → Step ks (get_or_create now key t v ks).1
  sets_deadline : (now : ℤ) (key : Bytes) (left : ℤ) → Step ks (expire now key left ks).1
  persists : (now : ℤ) (key : Bytes) → Step ks (persist now key ks).1
  deletes : (keys : List Bytes) → Step ks (delete_keys keys ks).1
  counts : (keys : List (ℤ × Bytes)) → Step ks (exists_keys keys ks).1
  asks_ttl : (now now' : ℤ) (key : Bytes) → Step ks (ttl now now' key ks).1
  flushes : Step ks (flush_db ks)

pub data Reach : Keyspace → Type 0 where
  start : Reach new_keyspace
  next : {ks ks' : Keyspace} → Reach ks → Step ks ks' → Reach ks'

get_found-IsValid :
    (now : ℤ) (key : Bytes) (o : Option Entry) (ks : Keyspace)
    → IsValid ks
    → IsValid (get_found now key o ks).1
unfolding get_found
get_found-IsValid now key none ks v = v
get_found-IsValid now key (some e) ks v = elim (Bool-cases (lt_ℤ (pos 0) e.expires_at)) [
  | inl timed ↦ rw timed (elim (Bool-cases (is_expired e now)) [
    | inl old ↦ rw old (with_lock-IsValid key ks (expire_key-Keeps key now) v)
    | inr fresh ↦ rw fresh v
  ])
  | inr lasting ↦ rw lasting v
]

pub get-IsValid : (now : ℤ) (key : Bytes) (ks : Keyspace) → IsValid ks → IsValid (get now key ks).1
unfolding get
get-IsValid now key ks v = get_found-IsValid now key (find ks key) ks v

pub exists_keys-IsValid :
    (keys : List (ℤ × Bytes)) (ks : Keyspace) → IsValid ks → IsValid (exists_keys keys ks).1
unfolding exists_keys
exists_keys-IsValid [] ks v = v
exists_keys-IsValid ((now, key) ∷ keys) ks v =
    exists_keys-IsValid keys (get now key ks).1 (get-IsValid now key ks v)

-- Every handler keeps the invariant.
pub Step-IsValid : {ks ks' : Keyspace} → Step ks ks' → IsValid ks → IsValid ks'
Step-IsValid {ks} (gets now key) v = get-IsValid now key ks v
Step-IsValid {ks} (expires now key) v = with_lock-IsValid key ks (expire_key-Keeps key now) v
Step-IsValid {ks} (sets_string now key val f) v = (set_string_lem now key val ks v f).0
Step-IsValid {ks} (sets now key e) v =
    unfold set_entry in with_lock-IsValid key ks (set_body-Keeps key now e) v
Step-IsValid {ks} (sets_nx now key e) v =
    unfold set_nx in with_lock-IsValid key ks (set_nx_body-Keeps key now e) v
Step-IsValid {ks} (increments now key delta) v =
    unfold incr_by in with_lock-IsValid key ks (incr_by_body-Keeps key now delta) v
Step-IsValid {ks} (appends now key val) v =
    unfold append_value in with_lock-IsValid key ks (append_body-Keeps key now val) v
Step-IsValid {ks} (creates now key t w) v =
    unfold get_or_create in with_lock-IsValid key ks (get_or_create_body-Keeps key now t w) v
Step-IsValid {ks} (sets_deadline now key left) v =
    unfold expire in with_lock-IsValid key ks (expire_body-Keeps key now left) v
Step-IsValid {ks} (persists now key) v =
    unfold persist in with_lock-IsValid key ks (persist_body-Keeps key now) v
Step-IsValid {ks} (deletes keys) v = (delete_keys_lem keys ks v).0
Step-IsValid {ks} (counts keys) v = exists_keys-IsValid keys ks v
Step-IsValid {ks} (asks_ttl now now' key) v = unfold ttl pttl in get-IsValid now key ks v
Step-IsValid {ks} flushes v = rw (flush_db_lem ks v.striped) new_keyspace-IsValid

pub Reach-IsValid : {ks : Keyspace} → Reach ks → IsValid ks
Reach-IsValid start = new_keyspace-IsValid
Reach-IsValid (next r s) = Step-IsValid s (Reach-IsValid r)

-- In every state that is reached from an empty keyspace by the steps above (the fast path of SET over
-- a free key or a string only, and each FlushDB with nothing of another connection between its
-- sections), DBSIZE's counter is the number of entries in the shards, in 64 bits, and the keyspace is
-- valid: 256 shards, no key twice, each key only in the shard of its hash.
pub Reach-counted :
    {ks : Keyspace} → Reach ks → (total_keys ks % 2 ^ 64 ≡ size ks.shards % 2 ^ 64) × IsValid ks
unfolding total_keys
Reach-counted r = ((Reach-IsValid r).counted, Reach-IsValid r)
