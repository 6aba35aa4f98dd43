-- ===== src/Cluster/Slots.antt =====
-- The commands on slots: `GetSlotOwner`, `AddSlots`, `AssignSlotsToNode`, `DelSlots`, `SetSlot`.
use vortexkv.Prelude.{
  ℕ, Bool, true, false, not, Option, none, some, List, [], ◌∷◌, Bytes, bytes, bytes_key, bytes_eq,
  nat_eq, leb, if◌then◌else◌,
}
use vortexkv.Map.{lookup, insert, delete, is_some}
use vortexkv.Cluster.{num_slots, ClusterManager, node_id, set_bit, set_owner}

pub data SlotError : Type 0 where
  out_of_range busy not_owned : ℕ → SlotError
  unknown_node : Bytes → SlotError
  own_node not_a_master invalid_action : SlotError

unfoldable pub get_slot_owner : ℕ → ClusterManager → Option ℕ
get_slot_owner s cm = if leb num_slots s then none else cm.slot_map s

-- `owner != nil && owner.ID == id`
unfoldable pub held_by : ClusterManager → Bytes → Option ℕ → Bool
held_by cm id none = false
held_by cm id (some o) = bytes_eq (node_id cm o) id

-- `owner != nil && owner.ID != id`
unfoldable pub held_by_other : ClusterManager → Bytes → Option ℕ → Bool
held_by_other cm id none = false
held_by_other cm id (some o) = not (bytes_eq (node_id cm o) id)

unfoldable pub add_check : ClusterManager → List ℕ → Option SlotError
unfolding held_by_other
add_check cm [] = none
add_check cm (s ∷ ss) =
    if leb num_slots s
    then some (out_of_range s)
    else if held_by_other cm (node_id cm cm.self) (cm.slot_map s)
    then some (busy s)
    else add_check cm ss

unfoldable pub take_slot : ℕ → ClusterManager → ClusterManager
take_slot s cm = set_owner s (some cm.self) (set_bit cm.self s true cm)

unfoldable pub add_loop : List ℕ → ClusterManager → ClusterManager
add_loop [] cm = cm
add_loop (s ∷ ss) cm = add_loop ss (take_slot s cm)

-- The error that the check found, or none and the loop's work.
unfoldable pub checked :
    Option SlotError
    → (ClusterManager → ClusterManager)
    → ClusterManager
    → Option SlotError × ClusterManager
checked none work cm = (none, work cm)
checked (some e) work cm = (some e, cm)

unfoldable pub add_slots : List ℕ → ClusterManager → Option SlotError × ClusterManager
unfolding checked
add_slots ss cm = checked (add_check cm ss) (add_loop ss) cm

unfoldable pub clear_old : ℕ → ℕ → Option ℕ → ClusterManager → ClusterManager
unfolding held_by_other
clear_old a s none cm = cm
clear_old a s (some o) cm =
    if held_by_other cm (node_id cm a) (some o) then set_bit o s false cm else cm

-- The body of the loop of `AssignSlotsToNode`, and of `SetSlot` with NODE.
unfoldable pub give_slot : ℕ → ℕ → ClusterManager → ClusterManager
unfolding clear_old
give_slot a s cm = set_owner s (some a) (set_bit a s true (clear_old a s (cm.slot_map s) cm))

unfoldable pub assign_loop : ℕ → List ℕ → ClusterManager → Option SlotError × ClusterManager
assign_loop a [] cm = (none, cm)
assign_loop a (s ∷ ss) cm =
    let rest = assign_loop a ss (give_slot a s cm) in
    if leb num_slots s then (some (out_of_range s), cm) else rest

unfoldable pub assign_found :
    Bytes → Option ℕ → List ℕ → ClusterManager → Option SlotError × ClusterManager
assign_found id none ss cm = (some (unknown_node id), cm)
assign_found id (some a) ss cm = assign_loop a ss cm

unfoldable pub assign_slots_to_node :
    Bytes → List ℕ → ClusterManager → Option SlotError × ClusterManager
unfolding assign_found
assign_slots_to_node id ss cm = assign_found id (lookup id cm.nodes) ss cm

unfoldable pub del_check : ClusterManager → List ℕ → Option SlotError
unfolding held_by
del_check cm [] = none
del_check cm (s ∷ ss) =
    if leb num_slots s
    then some (out_of_range s)
    else if not (held_by cm (node_id cm cm.self) (cm.slot_map s))
    then some (not_owned s)
    else del_check cm ss

unfoldable pub drop_slot : ℕ → ClusterManager → ClusterManager
drop_slot s cm = set_owner s none (set_bit cm.self s false cm)

unfoldable pub del_loop : List ℕ → ClusterManager → ClusterManager
del_loop [] cm = cm
del_loop (s ∷ ss) cm = del_loop ss (drop_slot s cm)

unfoldable pub del_slots : List ℕ → ClusterManager → Option SlotError × ClusterManager
unfolding checked
del_slots ss cm = checked (del_check cm ss) (del_loop ss) cm

unfoldable pub settle : ℕ → ClusterManager → ClusterManager
settle s cm = record cm {
  migrating_slots = delete s cm.migrating_slots;
  importing_slots = delete s cm.importing_slots;
}

unfoldable pub set_slot_node :
    ℕ → Bytes → Option ℕ → ClusterManager → Option SlotError × ClusterManager
set_slot_node s id none cm = (some (unknown_node id), cm)
set_slot_node s id (some a) cm = (none, settle s (give_slot a s cm))

unfoldable pub set_slot_migrating : ℕ → Bytes → ClusterManager → Option SlotError × ClusterManager
unfolding held_by
set_slot_migrating s id cm =
    if not (held_by cm (node_id cm cm.self) (cm.slot_map s))
    then (some (not_owned s), cm)
    else if not (is_some (lookup id cm.nodes))
    then (some (unknown_node id), cm)
    else (none, record cm { migrating_slots = insert s id cm.migrating_slots })

unfoldable pub set_slot_importing : ℕ → Bytes → ClusterManager → Option SlotError × ClusterManager
set_slot_importing s id cm =
    if not (is_some (lookup id cm.nodes))
    then (some (unknown_node id), cm)
    else (none, record cm { importing_slots = insert s id cm.importing_slots })

-- `strings.ToUpper` is a parameter.
unfoldable pub set_slot :
    (Bytes → Bytes) → ℕ → Bytes → Bytes → ClusterManager → Option SlotError × ClusterManager
unfolding set_slot_node set_slot_migrating set_slot_importing
set_slot to_upper s subcommand id cm =
    let sub = to_upper subcommand in
    if leb num_slots s
    then (some (out_of_range s), cm)
    else if bytes_eq sub (bytes "NODE")
    then set_slot_node s id (lookup id cm.nodes) cm
    else if bytes_eq sub (bytes "MIGRATING")
    then set_slot_migrating s id cm
    else if bytes_eq sub (bytes "IMPORTING")
    then set_slot_importing s id cm
    else if bytes_eq sub (bytes "STABLE")
    then (none, settle s cm)
    else (some invalid_action, cm)
