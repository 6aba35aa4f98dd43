-- ===== src/Cluster/Reach.antt =====
-- Sequences of the commands that change the slots of a cluster manager, from a new one.
use vortexkv.Prelude.{
  ℕ, ◌≡◌, refl, subst, true, false, none, some, List, [], ◌∷◌, Bytes, bytes, bytes_key, bytes_eq,
  bytes_eq_refl, bytes_eq_iff, arith,
}
use vortexkv.Map.{lookup}
use vortexkv.Cluster.{ClusterNode, ClusterManager, node_id}
use vortexkv.Cluster.Slots.{add_slots, assign_slots_to_node, del_slots, set_slot}
use vortexkv.Cluster.Nodes.{add_node, remove_node, replicate_node}
use vortexkv.Cluster.Consistent.{IsConsistent}
use vortexkv.Cluster.Additions.{add_slots_lem}
use vortexkv.Cluster.Releases.{del_slots_lem}
use vortexkv.Cluster.Transfers.{assign_slots_to_node_lem}
use vortexkv.Cluster.Migrations.{set_slot_lem}
use vortexkv.Cluster.Arrivals.{add_node_lem}
use vortexkv.Cluster.Departures.{remove_node_lem}
use vortexkv.Cluster.Roles.{replicate_node_lem}

-- `NewClusterManager` without a configuration file: the node knows itself, and no slot is owned.
-- The heap holds the nodes that may join later.
unfoldable pub new_cluster_manager : (ℕ → ClusterNode) → ℕ → ClusterManager
new_cluster_manager heap self = record {
  heap = heap;
  self = self;
  nodes = ((heap self).id, self) ∷ [];
  slot_map = λ s. none;
  migrating_slots = [];
  importing_slots = [];
}

-- The commands where they succeed; `AddSlots`, `DelSlots` and `SetSlot` where they fail, too.
pub data Step (cm : ClusterManager) : ClusterManager → Type 0 where
  adds : (ss : List ℕ) → Step cm (add_slots ss cm).1
  deletes : (ss : List ℕ) → Step cm (del_slots ss cm).1
  assigns :
      (id : Bytes) (a : ℕ) (ss : List ℕ)
      → lookup id cm.nodes ≡ some a
      → Step cm (assign_slots_to_node id ss cm).1
  sets :
      (to_upper : Bytes → Bytes) (s : ℕ) (subcommand id : Bytes)
      → Step cm (set_slot to_upper s subcommand id cm).1
  joins :
      (a : ℕ)
      → (cm.heap a).role ≡ bytes "master"
      → lookup (node_id cm a) cm.nodes ≡ none
      → ((j : ℕ) → (cm.heap a).slots j ≡ true → cm.slot_map j ≡ none)
      → Step cm (add_node a cm)
  leaves :
      (id : Bytes) (a : ℕ)
      → lookup id cm.nodes ≡ some a
      → ¬ (id ≡ node_id cm cm.self)
      → Step cm (remove_node id cm).1
  follows :
      (id : Bytes) (m : ℕ)
      → lookup id cm.nodes ≡ some m
      → (cm.heap m).role ≡ bytes "master"
      → ¬ (id ≡ node_id cm cm.self)
      → Step cm (replicate_node id cm).1

-- A new node's slots are all off, as `NewNode` makes it.
pub data Reach : ClusterManager → Type 0 where
  start :
      (heap : ℕ → ClusterNode) (self : ℕ)
      → ((s : ℕ) → (heap self).slots s ≡ false)
      → Reach (new_cluster_manager heap self)
  next : {cm cm' : ClusterManager} → Reach cm → Step cm cm' → Reach cm'

module _ (heap : ℕ → ClusterNode) (self : ℕ) (off : (s : ℕ) → (heap self).slots s ≡ false) where
  new_keyed :
      (id : Bytes) (a : ℕ)
      → lookup id (((heap self).id, self) ∷ []) ≡ some a
      → (bytes_eq (heap self).id id ≡ true) × (self ≡ a)
  unfolding lookup
  new_keyed id a p = ground (arith, p)

  new_cluster_manager-IsConsistent : IsConsistent (new_cluster_manager heap self)
  unfolding new_cluster_manager
  new_cluster_manager-IsConsistent = record {
    keyed = λ id a p.
        let (same, e) = new_keyed id a p in
        subst (λ z. (heap z).id ≡ id) e ((bytes_eq_iff (heap self).id id).0 same);
    self_known = unfold lookup in rw (bytes_eq_refl (heap self).id) refl;
    owners_known = λ s o p. absurd (ground (arith, p));
    in_range = λ s o p. absurd (ground (arith, p));
    agree = λ a s k h. subst (λ z. (heap z).slots s ≡ false) (new_keyed (heap a).id a k).1 (off s);
  }

Step-IsConsistent : {cm cm' : ClusterManager} → Step cm cm' → IsConsistent cm → IsConsistent cm'
Step-IsConsistent {cm} (adds ss) v = (add_slots_lem ss cm v).0
Step-IsConsistent {cm} (deletes ss) v = (del_slots_lem ss cm v).0
Step-IsConsistent {cm} (assigns id a ss p) v = (assign_slots_to_node_lem id a ss cm v p).0
Step-IsConsistent {cm} (sets up s sub id) v = (set_slot_lem up s sub id cm v).0
Step-IsConsistent {cm} (joins a master unknown unowned) v =
    (add_node_lem a cm v master unknown unowned).0
Step-IsConsistent {cm} (leaves id a p other) v = (remove_node_lem id a cm v p other).1
Step-IsConsistent {cm} (follows id m p master other) v =
    (replicate_node_lem id m cm v p master other).1

-- Whatever the commands do to the slots of a new manager, where nodes join with slots that nobody
-- owns, the bits of the known nodes agree with the slot map.
pub Reach-IsConsistent : {cm : ClusterManager} → Reach cm → IsConsistent cm
Reach-IsConsistent (start heap self off) = new_cluster_manager-IsConsistent heap self off
Reach-IsConsistent (next r s) = Step-IsConsistent s (Reach-IsConsistent r)
