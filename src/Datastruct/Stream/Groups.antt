-- ===== src/Datastruct/Stream/Groups.antt =====
-- Consumer groups: who was given which entry, and what is acknowledged.
use vortexkv.Prelude.{
  ℕ, ◌+◌, Bool, true, false, Option, none, some, List, [], ◌∷◌, ◌++◌, Bytes, bytes, bytes_key,
  bytes_eq, length, get_or, set, if◌then◌else◌,
}
use vortexkv.Prelude.Int.{ℤ, pos, add64}
use vortexkv.Map.{Map, lookup, insert, delete, is_some}
use vortexkv.Datastruct.Stream.Ids.{compare_stream_ids}
use vortexkv.Datastruct.Stream.Entries.{
  StreamEntry, PendingEntry, Consumer, ConsumerGroup, Stream, is_lt, is_gt, reached, last_entry_id,
}

pub data GroupError : Type 0 where
  group_exists group_not_found : GroupError

unfoldable pub put_group : Bytes → ConsumerGroup → Stream → Stream
put_group name g s = record s { groups = insert name g s.groups }

-- "$" is the last id of a stream with entries, or 0-0.
unfoldable pub start_of : Bytes → Stream → Bytes
start_of id s = if bytes_eq id (bytes "$") then last_entry_id s else id

unfoldable pub create_group : Bytes → Bytes → Stream → Option GroupError × Stream
unfolding put_group start_of
create_group name id s = if is_some (lookup name s.groups) then (some group_exists, s) else (
  none,
  put_group name
      (record { name = name; last_delivered_id = start_of id s; consumers = []; pel = [] }) s,
)

unfoldable pub destroy_group : Bytes → Stream → Bool × Stream
destroy_group name s =
    if is_some (lookup name s.groups)
    then (true, record s { groups = delete name s.groups })
    else (false, s)

unfoldable pub set_group_found :
    Bytes → Bytes → Option ConsumerGroup → Stream → Option GroupError × Stream
unfolding put_group start_of
set_group_found name id none s = (some group_not_found, s)
set_group_found name id (some g) s =
    (none, put_group name (record g { last_delivered_id = start_of id s }) s)

unfoldable pub set_group_id : Bytes → Bytes → Stream → Option GroupError × Stream
unfolding set_group_found
set_group_id name id s = set_group_found name id (lookup name s.groups) s

-- `for id := range consumer.PEL { delete(group.PEL, id) }`
unfoldable pub forget_all : Map Bytes ℕ → Map Bytes ℕ → Map Bytes ℕ
forget_all [] pel = pel
forget_all ((id, p) ∷ ids) pel = forget_all ids (delete id pel)

unfoldable pub drop_consumer : Bytes → Option Consumer → ConsumerGroup → ℕ × ConsumerGroup
unfolding forget_all
drop_consumer name none g = (0, g)
drop_consumer name (some c) g =
    (length c.pel, record g { pel = forget_all c.pel g.pel; consumers = delete name g.consumers })

unfoldable pub delete_consumer_found : Bytes → Bytes → Option ConsumerGroup → Stream → ℕ × Stream
unfolding drop_consumer put_group
delete_consumer_found group consumer none s = (0, s)
delete_consumer_found group consumer (some g) s =
    let (n, g') = drop_consumer consumer (lookup consumer g.consumers) g in
    (n, put_group group g' s)

unfoldable pub delete_consumer : Bytes → Bytes → Stream → ℕ × Stream
unfolding delete_consumer_found
delete_consumer group consumer s = delete_consumer_found group consumer (lookup group s.groups) s

abbrev pub no_pending : PendingEntry
no_pending = record { id = []; consumer_name = []; delivery_time = pos 0; delivery_count = pos 0 }

abbrev pub pending_at : List PendingEntry → ℕ → PendingEntry
pending_at heap p = get_or heap p no_pending

-- A group, the consumer that reads with the name that it gave, and the heap.
pub record Reading : Type 0 where
  pub consumer_name : Bytes
  pub group : ConsumerGroup
  pub consumer : Consumer
  pub heap : List PendingEntry

-- A new pending entry, in both lists.
unfoldable pub make_pending : ℤ → Bytes → Reading → Reading
make_pending now id r = record r {
  group = record r.group { pel = insert id (length r.heap) r.group.pel };
  consumer = record r.consumer { pel = insert id (length r.heap) r.consumer.pel };
  heap =
      r.heap
      ++ (record {
        id = id;
        consumer_name = r.consumer_name;
        delivery_time = now;
        delivery_count = pos 1;
      }
          ∷ []);
}

unfoldable pub deliver : ℤ → Bool → Bytes → Reading → Reading
unfolding make_pending
deliver now no_ack id r =
    let r' : Reading = record r { group = record r.group { last_delivered_id = id } } in
    if no_ack then r' else make_pending now id r'

-- The loop over the entries that were not delivered yet.
unfoldable pub read_new : ℤ → Bool → ℤ → ℕ → List StreamEntry → Reading → List StreamEntry × Reading
read_new now no_ack count n [] r = ([], r)
read_new now no_ack count n (e ∷ es) r =
    let r' = deliver now no_ack e.id r in
    let skipped = read_new now no_ack count n es r in
    let more = read_new now no_ack count (n + 1) es r' in
    if is_gt (compare_stream_ids e.id r.group.last_delivered_id)
    then (if reached count (n + 1) then (e ∷ [], r') else (e ∷ more.0, more.1))
    else skipped

-- `entryMap[id]`: the last entry with the id.
unfoldable pub entry_at : Bytes → List StreamEntry → Option StreamEntry → Option StreamEntry
entry_at id [] found = found
entry_at id (e ∷ es) found = entry_at id es (if bytes_eq e.id id then some e else found)

unfoldable pub pending_from : Bytes → Map Bytes ℕ → List Bytes
pending_from id [] = []
pending_from id ((pid, p) ∷ pel) =
    let rest = pending_from id pel in if is_lt (compare_stream_ids pid id) then rest else pid ∷ rest

-- `sort.Slice` by the order of ids
unfoldable pub insert_id : Bytes → List Bytes → List Bytes
insert_id i [] = i ∷ []
insert_id i (j ∷ js) = if is_gt (compare_stream_ids i j) then j ∷ insert_id i js else i ∷ j ∷ js

unfoldable pub sort_ids : List Bytes → List Bytes
unfolding insert_id
sort_ids [] = []
sort_ids (i ∷ is) = insert_id i (sort_ids is)

unfoldable pub redeliver_at : ℤ → Option ℕ → List PendingEntry → List PendingEntry
redeliver_at now none heap = heap
redeliver_at now (some p) heap =
    let pe = pending_at heap p in
    set heap p (record pe { delivery_count = add64 pe.delivery_count (pos 1); delivery_time = now })

unfoldable pub redeliver : ℤ → Bool → Bytes → Reading → Reading
unfolding redeliver_at
redeliver now no_ack id r =
    if no_ack then r else record r { heap = redeliver_at now (lookup id r.consumer.pel) r.heap }

-- The loop over the consumer's pending ids, in order.
unfoldable pub read_pending :
    ℤ → Bool → ℤ → ℕ → List StreamEntry → List Bytes → Reading → List StreamEntry × Reading
read_pending now no_ack count n entries [] r = ([], r)
read_pending now no_ack count n entries (id ∷ ids) r = elim (entry_at id entries none) [
  | none ↦ read_pending now no_ack count n entries ids r
  | some e ↦
      let r' = redeliver now no_ack id r in
      let more = read_pending now no_ack count (n + 1) entries ids r' in
      if reached count (n + 1) then (e ∷ [], r') else (e ∷ more.0, more.1)
]

unfoldable pub consumer_or_new : ℤ → Bytes → Option Consumer → Consumer
consumer_or_new now name none = record { name = name; seen_time = now; pel = [] }
consumer_or_new now name (some c) = record c { seen_time = now }

-- The group with the reading consumer in it.
unfoldable pub group_of : Reading → ConsumerGroup
group_of r = record r.group { consumers = insert r.consumer_name r.consumer r.group.consumers }

-- What was read goes back into the stream.
unfoldable pub stored :
    Bytes → List StreamEntry × Reading → Stream → Option (List StreamEntry) × Stream
stored group (results, r) s =
    (some results, record s { heap = r.heap; groups = insert group (group_of r) s.groups })

unfoldable pub reading : ℤ → Bytes → ConsumerGroup → Stream → Reading
unfolding consumer_or_new
reading now consumer g s = record {
  consumer_name = consumer;
  group = g;
  consumer = consumer_or_new now consumer (lookup consumer g.consumers);
  heap = s.heap;
}

unfoldable pub read_found :
    ℤ
    → Bytes
    → Bytes
    → Bytes
    → ℤ
    → Bool
    → Option ConsumerGroup
    → Stream
    → Option (List StreamEntry) × Stream
unfolding reading read_new read_pending pending_from sort_ids stored group_of
read_found now group consumer id count no_ack none s = (none, s)
read_found now group consumer id count no_ack (some g) s =
    let r = reading now consumer g s in
    if bytes_eq id (bytes ">")
    then stored group (read_new now no_ack count 0 s.entries r) s
    else stored group
        (read_pending now no_ack count 0 s.entries (sort_ids (pending_from id r.consumer.pel)) r) s

-- `ReadGroup`; none is the error that there is no such group.
unfoldable pub read_group :
    ℤ → Bytes → Bytes → Bytes → ℤ → Bool → Stream → Option (List StreamEntry) × Stream
unfolding read_found
read_group now group consumer id count no_ack s =
    read_found now group consumer id count no_ack (lookup group s.groups) s

unfoldable pub ack_consumer :
    Bytes → Bytes → Option Consumer → Map Bytes Consumer → Map Bytes Consumer
ack_consumer id name none consumers = consumers
ack_consumer id name (some c) consumers = insert name (record c { pel = delete id c.pel }) consumers

unfoldable pub ack_one : List PendingEntry → Bytes → Option ℕ → ConsumerGroup → ℕ × ConsumerGroup
unfolding ack_consumer
ack_one heap id none g = (0, g)
ack_one heap id (some p) g =
    let name = (pending_at heap p).consumer_name in
    (
      1,
      record g {
        pel = delete id g.pel;
        consumers = ack_consumer id name (lookup name g.consumers) g.consumers;
      },
    )

unfoldable pub ack_loop : List PendingEntry → List Bytes → ConsumerGroup → ℕ × ConsumerGroup
unfolding ack_one
ack_loop heap [] g = (0, g)
ack_loop heap (id ∷ ids) g =
    let (n, g') = ack_one heap id (lookup id g.pel) g in
    let (acked, g'') = ack_loop heap ids g' in (n + acked, g'')

unfoldable pub ack_found : Bytes → List Bytes → Option ConsumerGroup → Stream → ℕ × Stream
unfolding ack_loop put_group
ack_found group ids none s = (0, s)
ack_found group ids (some g) s =
    let (acked, g') = ack_loop s.heap ids g in (acked, put_group group g' s)

unfoldable pub ack : Bytes → List Bytes → Stream → ℕ × Stream
unfolding ack_found
ack group ids s = ack_found group ids (lookup group s.groups) s
