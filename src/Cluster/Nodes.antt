-- ===== src/Cluster/Nodes.antt =====
-- `AddNode`, `RemoveNode` and `Replicate`: nodes that come, go and change roles.
use vortexkv.Prelude.{
  ℕ, zero, suc, Bool, false, ◌&&◌, Option, none, some, Bytes, bytes, bytes_key, bytes_eq, ◌==◌, not,
  if◌then◌else◌,
}
use vortexkv.Map.{lookup, insert, delete}
use vortexkv.Cluster.{num_slots, ClusterManager, node_id, update, set_bit, set_owner}
use vortexkv.Cluster.Slots.{SlotError, own_node, unknown_node, not_a_master}

-- `for i, s := range node.Slots`, over the first slots
unfoldable pub sweep : (ℕ → ClusterManager → ClusterManager) → ℕ → ClusterManager → ClusterManager
sweep body zero cm = cm
sweep body (suc i) cm = body i (sweep body i cm)

-- `cm.SlotMap[i] == target`, of pointers
unfoldable pub points_to : Option ℕ → ℕ → Bool
points_to none a = false
points_to (some o) a = o == a

unfoldable pub claim : (ℕ → Bool) → ℕ → ℕ → ClusterManager → ClusterManager
claim slots a i cm = if slots i then set_owner i (some a) cm else cm

unfoldable pub known_as : ℕ → ClusterManager → ClusterManager
known_as a cm = record cm { nodes = insert (node_id cm a) a cm.nodes }

unfoldable pub add_node : ℕ → ClusterManager → ClusterManager
unfolding claim known_as sweep
add_node a cm =
    if bytes_eq (cm.heap a).role (bytes "master")
    then sweep (claim (cm.heap a).slots a) num_slots (known_as a cm)
    else known_as a cm

unfoldable pub disown : (ℕ → Bool) → ℕ → ℕ → ClusterManager → ClusterManager
unfolding points_to
disown slots a i cm = if slots i && points_to (cm.slot_map i) a then set_owner i none cm else cm

unfoldable pub remove_found : Bytes → Option ℕ → ClusterManager → Option SlotError × ClusterManager
unfolding disown sweep
remove_found id none cm = (some (unknown_node id), cm)
remove_found id (some a) cm =
    let swept = sweep (disown (cm.heap a).slots a) num_slots cm in
    (none, record swept { nodes = delete id swept.nodes })

unfoldable pub remove_node : Bytes → ClusterManager → Option SlotError × ClusterManager
unfolding remove_found
remove_node id cm =
    if bytes_eq id (node_id cm cm.self)
    then (some own_node, cm)
    else remove_found id (lookup id cm.nodes) cm

unfoldable pub release : (ℕ → Bool) → ℕ → ClusterManager → ClusterManager
unfolding points_to
release slots i cm =
    if slots i
    then (let freed = set_bit cm.self i false cm in
        if points_to (freed.slot_map i) freed.self then set_owner i none freed else freed)
    else cm

unfoldable pub become_replica : Bytes → ClusterManager → ClusterManager
become_replica master_id cm = record cm {
  heap =
      update cm.heap cm.self
        (record (cm.heap cm.self) { role = bytes "slave"; master_id = master_id });
}

unfoldable pub replicate_found :
    Bytes → Option ℕ → ClusterManager → Option SlotError × ClusterManager
unfolding release sweep become_replica
replicate_found id none cm = (some (unknown_node id), cm)
replicate_found id (some m) cm =
    if not (bytes_eq (cm.heap m).role (bytes "master"))
    then (some not_a_master, cm)
    else (none, become_replica id (sweep (release (cm.heap cm.self).slots) num_slots cm))

unfoldable pub replicate_node : Bytes → ClusterManager → Option SlotError × ClusterManager
unfolding replicate_found
replicate_node id cm =
    if bytes_eq id (node_id cm cm.self)
    then (some own_node, cm)
    else replicate_found id (lookup id cm.nodes) cm
