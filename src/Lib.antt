-- ===== src/Lib.antt =====
-- VortexKV: an in-memory key-value server. This library models the parts of it that keep state or
-- decode bytes.
--
-- The server's event loops (internal/reactor) read bytes from sockets into a ring buffer, parse
-- commands from it and run them on the keyspace (internal/engine/keyspace.go). A cluster manager
-- (internal/cluster) records which node owns which of the 16384 slots of the keys.
--
-- Keyspace is internal/engine/keyspace.go. A Keyspace is its 256 shards and its key counter, the
-- bit pattern of an int64; a shard is a Go map, modelled in Map as an association list without
-- double keys. A handler of one key takes its shard's lock once (Get takes it again to drop an expired
-- entry), so it is a function on what stands under the lock, and with_lock puts it back: SetString is
-- set_string, Set is set_entry, SetNX is set_nx, IncrBy is incr_by, Append is append_value,
-- GetOrCreate is get_or_create, and so on. Delete (delete_keys) and Exists (exists_keys) do so for each
-- key. FlushDB takes the 256 locks one after the other (clear_shards) and then stores 0 in the counter
-- without a lock (reset_count); flush_db is both with nothing in between, and Keyspace.Flush has a SET
-- between them. The clock (FastNowMilli) is an argument of each handler. A value is a Go string or the
-- address of a collection. Keyspace.Reach has the handlers one after the other, the two sections of Get
-- apart and FlushDB as a whole. int64 sums wrap round (Prelude.Int.add64).
--
-- Reactor.RingBuffer is internal/reactor/ring_buffer.go; lengths and cursors are numbers, for they
-- stay below the size of memory. Reactor.Parser is internal/reactor/parser.go; its length fields
-- wrap round as an int does, and a panic is a result. The capacity of the destination slice and the
-- largest slice that the runtime can make are parameters, and so is the inline format, which is
-- split by the standard library.
--
-- Resp is internal/resp: Values is types.go, Reader is parser.go, Writer and Serialize are writer.go.
-- A reader takes the bytes that the connection or the log will still give and answers with the bytes
-- behind its result; the fuel of read_value bounds the depth of arrays, and one more than the number
-- of bytes is enough. The persistent log (AOF) is written by SerializeCommand and read by ReadCommand.
--
-- Cluster is the slot ownership of internal/cluster/cluster.go and node.go. A *ClusterNode is an
-- address in a heap, so that the slot map, the table of nodes and the node itself share it as the
-- program's pointers do; an array of 16384 is a function of the index, and a range over it is
-- Cluster.Nodes.sweep. AddSlots is add_slots, AssignSlotsToNode is assign_slots_to_node, DelSlots is
-- del_slots, SetSlot is set_slot, AddNode is add_node, RemoveNode is remove_node, Replicate is
-- replicate_node. strings.ToUpper is a parameter. Writing nodes.conf is left out: the commands drop
-- its errors.
--
-- Cluster.Rebalance is ComputeRebalancePlan of internal/cluster/rebalancer.go; sort.Slice is an
-- insertion sort by the ids, and a slice out of range is the result panicked.
--
-- Cluster.KeySlots is crc16.go: the slot of a key is the CRC16 of its hash tag.
--
-- Datastruct.Set and Datastruct.Hash are internal/datastruct/set.go and hash.go, over the same model of
-- a Go map: Add is add, Rem is rem, IsMember is is_member, Card is card; Set is set_field, MSet is
-- set_fields, Del is delete_fields, IncrBy is incr_field. Members, GetAll, Keys and Vals copy a map in
-- random order and are left out.
--
-- Datastruct.Deque is internal/datastruct/list.go: LPush is lpush, RPop is rpop, Range is range_items.
--
-- Access is internal/engine/acl.go: Authenticate is authenticate, CanExecute is can_execute, SetUser is
-- set_user, DeleteUser is delete_user. strings.ToUpper and filepath.Match are parameters, and the texts
-- of refusals are a data type. Access.Rules has the lists and the patterns apart from the code.
--
-- Broker is internal/pubsub/broker.go: Subscribe is subscribe, Unsubscribe is unsubscribe,
-- UnsubscribeAll is unsubscribe_all, Publish is publish; a subscriber is the address of its channel.
-- Broker.View has who listens, Broker.Channels which channels are kept.
--
-- Persistence is the encoding of values of internal/persistence/rdb.go: encodeValue is encode_value,
-- decodeValue is decode_value. A floating-point number stands for its bits, and whether the runtime can
-- make a slice is a parameter; a uint64 has ten bytes at most as a variable-length number, which is the
-- bound of put_uvarint and get_uvarint.
--
-- Datastruct.Stream is internal/datastruct/stream.go: Ids has the ids, Entries the log (Add is
-- add_entry, Range is range_entries, Delete is delete_entries, Trim is trim), Groups the consumer
-- groups (CreateGroup is create_group, ReadGroup is read_group, Ack is ack). A *PendingEntry is an
-- address in the stream's heap, for the group's list and the consumer's share it; a map of streams'
-- groups is the association list of Map. The clock is an argument. The reports (GetPendingSummary,
-- GetPendingDetailed, GetGroupsInfo, GetConsumersInfo) are left out: they copy.
--
-- Recursion is structural everywhere; printing a number takes the number itself as fuel, which is
-- enough since each step divides it by ten.
--
-- Not modelled: sockets, timers, the file system, the web studio and scripting, which are input and
-- output or third-party code; floating-point values; and the random order of map iteration, on which
-- eviction and the background reaper rest.
pub mod Prelude
pub mod Map
pub mod Cluster
pub mod Datastruct
pub mod Keyspace
pub mod Resp
pub mod Reactor
pub mod Access
pub mod Broker
pub mod Persistence
