-- ===== src/Datastruct/Stream/Entries.antt =====
-- The log itself: `Add`, `Range`, `RevRange`, `Read`, `Delete`, `Trim`, the first and the last id.
use Prim.Native.Nat.Ordering.{lt, gt}
use Prim.Native.Nat.{Ordering}
use vortexkv.Prelude.{
  ℕ, ◌+◌, ◌-◌, ◌%◌, ◌^◌, Bool, true, false, not, ◌&&◌, ◌||◌, Option, none, some, List, [], ◌∷◌,
  ◌++◌, Bytes, bytes, bytes_key, bytes_eq, length, take, drop, ltb, leb, ◌==◌, if◌then◌else◌,
}
use mathlib.Core.List.{reverse}
use vortexkv.Prelude.Int.{ℤ, pos, negsuc}
use vortexkv.Prelude.Decimal.{parse_uint}
use vortexkv.Map.{Map}
use vortexkv.Datastruct.Stream.Ids.{StreamId, id_string, parse_stream_id, compare_stream_ids}

pub record StreamEntry : Type 0 where
  pub id : Bytes
  pub fields : Map Bytes Bytes
  pub order : List Bytes

-- A `*PendingEntry` is an address in the stream's heap; times are milliseconds.
pub record PendingEntry : Type 0 where
  pub id : Bytes
  pub consumer_name : Bytes
  pub delivery_time : ℤ
  pub delivery_count : ℤ

pub record Consumer : Type 0 where
  pub name : Bytes
  pub seen_time : ℤ
  pub pel : Map Bytes ℕ

pub record ConsumerGroup : Type 0 where
  pub name : Bytes
  pub last_delivered_id : Bytes
  pub consumers : Map Bytes Consumer
  pub pel : Map Bytes ℕ

-- A waiter is the address of its channel. `heap` has the pending entries made so far.
pub record Stream : Type 0 where
  pub entries : List StreamEntry
  pub last_id : StreamId
  pub groups : Map Bytes ConsumerGroup
  pub waiters : List ℕ
  pub heap : List PendingEntry

unfoldable pub new_stream : Stream
new_stream = record {
  entries = [];
  last_id = record { millis = 0; seq = 0 };
  groups = [];
  waiters = [];
  heap = [];
}

pub data AddError : Type 0 where
  bad_number invalid_stream_id : AddError

pub data AddResult : Type 0 where
  assigned : StreamId → AddResult
  refused : AddError → AddResult

-- The id that comes after, in the same millisecond: `Seq + 1` wraps round.
unfoldable pub next_seq : StreamId → StreamId
next_seq last = record last { seq = (last.seq + 1) % 2 ^ 64 }

-- "*"
unfoldable pub auto_id : ℕ → StreamId → StreamId
unfolding next_seq
auto_id now last = if ltb last.millis now then record { millis = now; seq = 0 } else next_seq last

-- "<ms>-*"
unfoldable pub partial_id : StreamId → Option ℕ → AddResult
unfolding next_seq
partial_id last none = refused bad_number
partial_id last (some m) =
    if ltb m last.millis
    then refused invalid_stream_id
    else if m == last.millis
    then assigned (next_seq last)
    else assigned (record { millis = m; seq = 0 })

unfoldable pub not_above : StreamId → StreamId → Bool
not_above sid last =
    ltb sid.millis last.millis || (sid.millis == last.millis && leb sid.seq last.seq)

-- "<ms>-<seq>" or "<ms>"
unfoldable pub explicit_id : List StreamEntry → StreamId → Option StreamId → AddResult
unfolding not_above
explicit_id entries last none = refused bad_number
explicit_id [] last (some sid) = assigned sid
explicit_id (e ∷ es) last (some sid) =
    if not_above sid last then refused invalid_stream_id else assigned sid

-- `strings.HasSuffix(id, "-*")` with `strings.TrimSuffix`: what stands before the suffix
unfoldable pub before_suffix : Bytes → Bytes → Option Bytes
before_suffix suffix id =
    let n = length id - length suffix in
    if leb (length suffix) (length id) && bytes_eq (drop n id) suffix
    then some (take n id)
    else none

unfoldable pub suffixed_id : Stream → Bytes → Option Bytes → AddResult
unfolding partial_id explicit_id
suffixed_id s id (some prefix) = partial_id s.last_id (parse_uint prefix)
suffixed_id s id none = explicit_id s.entries s.last_id (parse_stream_id id)

unfoldable pub choose_id : ℕ → Bytes → Stream → AddResult
unfolding auto_id suffixed_id
choose_id now id s =
    if bytes_eq id (bytes "*")
    then assigned (auto_id now s.last_id)
    else suffixed_id s id (before_suffix (bytes "-*") id)

abbrev pub entry_of : StreamId → Map Bytes Bytes → List Bytes → StreamEntry
entry_of sid fields order = record { id = id_string sid; fields = fields; order = order }

-- `Add` once the id is chosen; the channels of the waiters are closed.
unfoldable pub append_entry : StreamId → Map Bytes Bytes → List Bytes → Stream → Stream
append_entry sid fields order s = record s {
  entries = s.entries ++ (entry_of sid fields order ∷ []);
  last_id = sid;
  waiters = [];
}

unfoldable pub add_assigned : AddResult → Map Bytes Bytes → List Bytes → Stream → AddResult × Stream
unfolding append_entry
add_assigned (refused e) fields order s = (refused e, s)
add_assigned (assigned sid) fields order s = (assigned sid, append_entry sid fields order s)

-- `Add`, at the clock's milliseconds; it answers the text of the id.
unfoldable pub add_entry : ℕ → Bytes → Map Bytes Bytes → List Bytes → Stream → AddResult × Stream
unfolding choose_id add_assigned
add_entry now id fields order s = add_assigned (choose_id now id s) fields order s

unfoldable pub last_entry_id : Stream → Bytes
last_entry_id s = elim s.entries [ [] ↦ bytes "0-0" | e ∷ es ↦ id_string s.last_id ]

unfoldable pub first_entry_id : Stream → Bytes
first_entry_id s = elim s.entries [ [] ↦ bytes "0-0" | e ∷ es ↦ e.id ]

abbrev pub is_lt : Ordering → Bool
is_lt lt = true
is_lt _ = false

abbrev pub is_gt : Ordering → Bool
is_gt gt = true
is_gt _ = false

-- The entry's id is below the start, or above the end, of a range.
unfoldable pub before_start : Bytes → Bytes → Bool
before_start start id =
    not (bytes_eq start (bytes "-"))
    && not (bytes_eq start [])
    && is_lt (compare_stream_ids id start)

unfoldable pub after_end : Bytes → Bytes → Bool
after_end end id =
    not (bytes_eq end (bytes "+")) && not (bytes_eq end []) && is_gt (compare_stream_ids id end)

-- `count > 0 && len(results) >= count`
unfoldable pub reached : ℤ → ℕ → Bool
reached (pos c) n = ltb 0 c && leb c n
reached (negsuc c) n = false

-- The loops of `Range`, `RevRange` and `Read`, with the number of results so far: an entry is skipped,
-- ends the loop, or is a result.
unfoldable pub scan :
    (StreamEntry → Bool) → (StreamEntry → Bool) → ℤ → ℕ → List StreamEntry → List StreamEntry
scan skip stop count n [] = []
scan skip stop count n (e ∷ es) =
    let skipped = scan skip stop count n es in
    let more = scan skip stop count (n + 1) es in
    if skip e
    then skipped
    else if stop e
    then []
    else if reached count (n + 1)
    then e ∷ []
    else e ∷ more

-- `Range`
unfoldable pub range_entries : Bytes → Bytes → ℤ → Stream → List StreamEntry
range_entries start end count s =
    scan (λ e. before_start start e.id) (λ e. after_end end e.id) count 0 s.entries

-- `RevRange`: from the last entry on.
unfoldable pub rev_range_entries : Bytes → Bytes → ℤ → Stream → List StreamEntry
rev_range_entries end start count s =
    scan (λ e. after_end end e.id) (λ e. before_start start e.id) count 0 (reverse s.entries)

-- `Read`
unfoldable pub read_entries : Bytes → ℤ → Stream → List StreamEntry
read_entries last count s =
    scan (λ e. not (is_gt (compare_stream_ids e.id last))) (λ e. false) count 0 s.entries

-- `idMap[id]`
unfoldable pub is_listed : List Bytes → Bytes → Bool
is_listed [] id = false
is_listed (i ∷ ids) id = bytes_eq i id || is_listed ids id

unfoldable pub delete_loop : List Bytes → List StreamEntry → ℕ × List StreamEntry
delete_loop ids [] = (0, [])
delete_loop ids (e ∷ es) =
    let (removed, kept) = delete_loop ids es in
    if is_listed ids e.id then (removed + 1, kept) else (removed, e ∷ kept)

-- `Delete`
unfoldable pub delete_entries : List Bytes → Stream → ℕ × Stream
delete_entries ids s =
    let (removed, kept) = delete_loop ids s.entries in (removed, record s { entries = kept })

-- `Trim`
unfoldable pub trim : ℤ → Stream → ℕ × Stream
trim (negsuc n) s = (0, s)
trim (pos max) s =
    let evicted = length s.entries - max in
    if leb (length s.entries) max
    then (0, s)
    else (evicted, record s { entries = drop evicted s.entries })

-- `RegisterWaiter` with a fresh channel, and its `cancel`.
unfoldable pub register_waiter : ℕ → Stream → Stream
register_waiter ch s = record s { waiters = s.waiters ++ (ch ∷ []) }

unfoldable pub remove_first : ℕ → List ℕ → List ℕ
remove_first ch [] = []
remove_first ch (w ∷ ws) = if w == ch then ws else w ∷ remove_first ch ws

unfoldable pub cancel_waiter : ℕ → Stream → Stream
unfolding remove_first
cancel_waiter ch s = record s { waiters = remove_first ch s.waiters }
