-- ===== src/Keyspace/Expiry.antt =====
-- `Expire`, `Persist`, `PTTL`, `TTL`.
use vortexkv.Prelude.{
  zero, ◌/◌, Bool, true, false, Option, none, some, Bytes, bytes_key, if◌then◌else◌,
}
use vortexkv.Prelude.Int.{ℤ, pos, negsuc, le_ℤ, add64, sub64}
use vortexkv.Keyspace.Entry.{Entry}
use vortexkv.Keyspace.Lock.{Keyspace, Locked, with_lock, put_entry, fetch}
use vortexkv.Keyspace.Ops.{get}

unfoldable pub expire_entry : ℤ → Bytes → ℤ → Option Entry × Locked → Bool × Locked
expire_entry now key ttl (none, s) = (false, s)
expire_entry now key ttl (some e, s) =
    (true, put_entry key (record e { expires_at = add64 now ttl }) s)

unfoldable pub expire_body : ℤ → Bytes → ℤ → Locked → Bool × Locked
unfolding expire_entry
expire_body now key ttl s = expire_entry now key ttl (fetch now key s)

unfoldable pub expire : ℤ → Bytes → ℤ → Keyspace → Bool × Keyspace
expire now key ttl ks = with_lock (expire_body now key ttl) key ks

-- By the deadline of the entry: 0 is no deadline.
unfoldable pub persist_by : ℤ → Bytes → Entry → Locked → Bool × Locked
persist_by (pos zero) key e s = (false, s)
persist_by _ key e s = (true, put_entry key (record e { expires_at = pos 0 }) s)

unfoldable pub persist_entry : Bytes → Option Entry × Locked → Bool × Locked
unfolding persist_by
persist_entry key (none, s) = (false, s)
persist_entry key (some e, s) = persist_by e.expires_at key e s

unfoldable pub persist_body : ℤ → Bytes → Locked → Bool × Locked
unfolding persist_entry
persist_body now key s = persist_entry key (fetch now key s)

unfoldable pub persist : ℤ → Bytes → Keyspace → Bool × Keyspace
persist now key ks = with_lock (persist_body now key) key ks

-- The time that is left before a deadline, as `PTTL` answers it: -1 for none, -2 for gone.
unfoldable pub left_until : ℤ → ℤ → ℤ
left_until now (pos zero) = negsuc 0
left_until now deadline =
    let left = sub64 deadline now in if le_ℤ left (pos 0) then negsuc 1 else left

-- From the entry that `Get` returned, by the second clock reading.
unfoldable pub remaining_of : ℤ → Option Entry → ℤ
unfolding left_until
remaining_of now none = negsuc 1
remaining_of now (some e) = left_until now e.expires_at

unfoldable pub pttl : ℤ → ℤ → Bytes → Keyspace → ℤ × Keyspace
unfolding remaining_of
pttl now now' key ks = let (found, ks') = get now key ks in (remaining_of now' found, ks')

-- `remaining / 1000`, for the answers that are a time
unfoldable pub seconds_of : ℤ → ℤ
seconds_of (pos ms) = pos (ms / 1000)
seconds_of (negsuc n) = negsuc n

unfoldable pub ttl : ℤ → ℤ → Bytes → Keyspace → ℤ × Keyspace
unfolding seconds_of pttl
ttl now now' key ks = let (ms, ks') = pttl now now' key ks in (seconds_of ms, ks')
