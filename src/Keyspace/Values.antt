-- ===== src/Keyspace/Values.antt =====
-- `IncrBy`, `Append`, `GetOrCreate`: handlers that read and replace a value under the lock.
use vortexkv.Prelude.{ℕ, Bool, true, false, Option, none, some, ◌++◌, Bytes, bytes_key, length}
use vortexkv.Prelude.Int.{ℤ, pos, add64}
use vortexkv.Prelude.Decimal.{parse_int, print_int}
use vortexkv.Keyspace.Entry.{EntryType, type_string, Value, text, object, Entry}
use vortexkv.Keyspace.Lock.{Keyspace, Locked, with_lock, add_entry, put_entry, fetch}
use vortexkv.Keyspace.Ops.{new_entry, stamped}

pub data Error : Type 0 where
  wrong_type not_an_integer : Error

pub data Result (A : Type 0) : Type 0 where
  ok : A → Result A
  err : Error → Result A

-- The number that an existing entry stands for, as `IncrBy` reads it.
unfoldable pub number_of : EntryType → Value → Result ℤ
number_of type_string (text v) = elim (parse_int v) [ none ↦ err not_an_integer | some n ↦ ok n ]
number_of type_string (object a) = err not_an_integer
number_of _ v = err wrong_type

unfoldable pub incr_by_stored : ℤ → Bytes → ℤ → Entry → Result ℤ → Locked → Result ℤ × Locked
incr_by_stored now key delta e (err x) s = (err x, s)
incr_by_stored now key delta e (ok n) s =
    let sum = add64 n delta in
    (ok sum, put_entry key (stamped now (record e { value = text (print_int sum) })) s)

unfoldable pub incr_by_found : ℤ → Bytes → ℤ → Option Entry × Locked → Result ℤ × Locked
incr_by_found now key delta (none, s) =
    let sum = add64 (pos 0) delta in
    (ok sum, add_entry key (new_entry now type_string (text (print_int sum))) s)
incr_by_found now key delta (some e, s) =
    incr_by_stored now key delta e (number_of e.entry_type e.value) s

unfoldable pub incr_by_body : ℤ → Bytes → ℤ → Locked → Result ℤ × Locked
unfolding incr_by_found incr_by_stored number_of
incr_by_body now key delta s = incr_by_found now key delta (fetch now key s)

unfoldable pub incr_by : ℤ → Bytes → ℤ → Keyspace → Result ℤ × Keyspace
incr_by now key delta ks = with_lock (incr_by_body now key delta) key ks

-- The string that an existing entry holds, as `Append` reads it.
unfoldable pub string_of : EntryType → Value → Result Bytes
string_of type_string (text v) = ok v
string_of _ v = err wrong_type

unfoldable pub append_stored : ℤ → Bytes → Bytes → Entry → Result Bytes → Locked → Result ℕ × Locked
append_stored now key val e (err x) s = (err x, s)
append_stored now key val e (ok v) s =
    let whole = v ++ val in
    (ok (length whole), put_entry key (stamped now (record e { value = text whole })) s)

unfoldable pub append_found : ℤ → Bytes → Bytes → Option Entry × Locked → Result ℕ × Locked
append_found now key val (none, s) =
    (ok (length val), add_entry key (new_entry now type_string (text val)) s)
append_found now key val (some e, s) =
    append_stored now key val e (string_of e.entry_type e.value) s

unfoldable pub append_body : ℤ → Bytes → Bytes → Locked → Result ℕ × Locked
unfolding append_found append_stored string_of
append_body now key val s = append_found now key val (fetch now key s)

unfoldable pub append_value : ℤ → Bytes → Bytes → Keyspace → Result ℕ × Keyspace
append_value now key val ks = with_lock (append_body now key val) key ks

unfoldable pub get_or_create_found :
    ℤ → Bytes → EntryType → Value → Option Entry × Locked → (Entry × Bool) × Locked
get_or_create_found now key t v (none, s) =
    let e = new_entry now t v in ((e, true), add_entry key e s)
get_or_create_found now key t v (some e, s) =
    let e' : Entry = record e { last_accessed_at = now } in ((e', false), put_entry key e' s)

unfoldable pub get_or_create_body : ℤ → Bytes → EntryType → Value → Locked → (Entry × Bool) × Locked
unfolding get_or_create_found
get_or_create_body now key t v s = get_or_create_found now key t v (fetch now key s)

-- `creator()` allocates the collection: `v` is what it returns.
unfoldable pub get_or_create : ℤ → Bytes → EntryType → Value → Keyspace → (Entry × Bool) × Keyspace
get_or_create now key t v ks = with_lock (get_or_create_body now key t v) key ks
