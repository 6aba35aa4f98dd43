-- ===== src/Cluster/Tests.antt =====
-- A small cluster, and the theorems about slots at it.
use vortexkv.Prelude.{
  ℕ, zero, suc, ◌≡◌, ◌<◌, ◌^◌, refl, ap, ◌∙◌, Bool, true, false, ◌&&◌, ◌==◌, ◌⊎◌, none, some, [],
  ◌∷◌, bytes, bytes_key, bytes_eq, bytes_eq_iff, nat_eq, ltb, if◌then◌else◌, arith,
}
use vortexkv.Map.{lookup}
use vortexkv.Cluster.{ClusterNode, ClusterManager, node_id, num_slots, update, set_bit, set_owner}
use vortexkv.Cluster.Slots.{
  SlotError, add_slots, add_check, add_loop, take_slot, checked, held_by_other,
}
use vortexkv.Cluster.Nodes.{add_node, remove_node}
use vortexkv.Cluster.KeySlots.{tagged, key_slot, key_slot-tagged}
use vortexkv.Reactor.Parser.{index_byte}
use vortexkv.Cluster.Consistent.{is_owner, IsConsistent}
use vortexkv.Cluster.Additions.{listed, Usable, add_slots_lem}
use vortexkv.Cluster.Arrivals.{add_node_lem, add_node-overlap}
use vortexkv.Cluster.Departures.{remove_node_lem}
use vortexkv.Cluster.Reach.{Reach, start, next, adds, new_cluster_manager, Reach-IsConsistent}

abbrev no_slots : ℕ → Bool
no_slots s = false

abbrev slot_five : ℕ → Bool
slot_five s = s == 5

-- The node itself, and another master, which claims slot 5.
abbrev cluster_nodes : ℕ → ClusterNode
cluster_nodes zero = record {
  id = bytes "a";
  role = bytes "master";
  master_id = bytes "-";
  slots = no_slots;
}
cluster_nodes (suc n) = record {
  id = bytes "b";
  role = bytes "master";
  master_id = bytes "-";
  slots = slot_five;
}

abbrev alone : ClusterManager
alone = new_cluster_manager cluster_nodes 0

abbrev alone-Reach : Reach alone
alone-Reach = start cluster_nodes 0 (λ s. refl)

abbrev with_five : ClusterManager
with_five = (add_slots (5 ∷ []) alone).1

abbrev with_five-Reach : Reach with_five
with_five-Reach = next alone-Reach (adds (5 ∷ []))

abbrev pair : ClusterManager
pair = add_node 1 alone

unknown_b : lookup (node_id alone 1) alone.nodes ≡ none
unfolding new_cluster_manager lookup bytes_eq
unknown_b = refl

pair_lem :
    IsConsistent pair
    × (lookup (node_id alone 1) pair.nodes ≡ some 1)
    × ((j : ℕ)
        → pair.slot_map j
          ≡ (if ltb j num_slots && (alone.heap 1).slots j then some 1 else alone.slot_map j))
    × (pair.heap ≡ alone.heap)
    × (pair.self ≡ alone.self)
pair_lem =
    add_node_lem 1 alone (Reach-IsConsistent alone-Reach) (unfold new_cluster_manager in refl)
      unknown_b (λ j h. unfold new_cluster_manager in refl)

known_b : lookup (bytes "b") pair.nodes ≡ some 1
unfolding new_cluster_manager
known_b = pair_lem.1

master_b : (pair.heap 1).role ≡ bytes "master"
master_b = ap (λ h. (h 1).role) pair_lem.3 ∙ (unfold new_cluster_manager in refl)

other_b : ¬ (bytes "b" ≡ node_id pair pair.self)
other_b e =
    let self_id : node_id pair pair.self ≡ bytes "a" =
      ap (λ h. (h pair.self).id) pair_lem.3
      ∙ ap (λ x. (alone.heap x).id) pair_lem.4
      ∙ (unfold new_cluster_manager in refl) in
    let same : bytes_eq (bytes "b") (bytes "a") ≡ true =
      (bytes_eq_iff (bytes "b") (bytes "a")).1 (e ∙ self_id) in
    absurd (unfold bytes_eq in ground (arith, same))

with_five-role : (with_five.heap 1).role ≡ bytes "master"
unfolding new_cluster_manager add_slots checked add_check held_by_other add_loop take_slot set_owner
    set_bit update
with_five-role = refl

with_five-unknown : lookup (node_id with_five 1) with_five.nodes ≡ none
unfolding new_cluster_manager add_slots checked add_check held_by_other add_loop take_slot set_owner
    set_bit update lookup bytes_eq
with_five-unknown = refl

with_five-claims : (with_five.heap 1).slots 5 ≡ true
unfolding new_cluster_manager add_slots checked add_check held_by_other add_loop take_slot set_owner
    set_bit update
with_five-claims = refl

with_five-owned : with_five.slot_map 5 ≡ some 0
unfolding new_cluster_manager add_slots checked add_check held_by_other add_loop take_slot set_owner
    set_bit update
with_five-owned = refl

Reach-IsConsistent_example : IsConsistent with_five
Reach-IsConsistent_example = Reach-IsConsistent with_five-Reach

add_slots_lem_example :
    IsConsistent (add_slots (6 ∷ 5 ∷ []) with_five).1
    × (((add_slots (6 ∷ 5 ∷ []) with_five).0 ≡ none)
          × Usable (6 ∷ 5 ∷ []) with_five
          × ((j : ℕ)
              → (add_slots (6 ∷ 5 ∷ []) with_five).1.slot_map j
                ≡ (if listed (6 ∷ 5 ∷ []) j then some with_five.self else with_five.slot_map j))
        ⊎ ((e : SlotError) × ((add_slots (6 ∷ 5 ∷ []) with_five).0 ≡ some e)
            × ((add_slots (6 ∷ 5 ∷ []) with_five).1 ≡ with_five)
            × (¬ Usable (6 ∷ 5 ∷ []) with_five)))
add_slots_lem_example = add_slots_lem (6 ∷ 5 ∷ []) with_five (Reach-IsConsistent with_five-Reach)

remove_node_lem_example :
    ((remove_node (bytes "b") pair).0 ≡ none)
    × IsConsistent (remove_node (bytes "b") pair).1
    × (lookup (bytes "b") (remove_node (bytes "b") pair).1.nodes ≡ none)
    × ((j : ℕ)
        → (remove_node (bytes "b") pair).1.slot_map j
          ≡ (if is_owner 1 (pair.slot_map j) then none else pair.slot_map j))
remove_node_lem_example = remove_node_lem (bytes "b") 1 pair pair_lem.0 known_b other_b

add_node-overlap_example :
    ((add_node 1 with_five).slot_map 5 ≡ some 1)
    × (((add_node 1 with_five).heap 0).slots 5 ≡ true)
    × (¬ IsConsistent (add_node 1 with_five))
add_node-overlap_example =
    add_node-overlap 1 0 5 with_five (Reach-IsConsistent with_five-Reach) with_five-role
      with_five-unknown (omega arith) with_five-claims with_five-owned

key_slot-tagged_example :
    (key_slot (tagged (bytes "a") (bytes "t") (bytes "x"))
      ≡ key_slot (tagged (bytes "b") (bytes "t") []))
    × (key_slot (tagged (bytes "a") (bytes "t") (bytes "x")) < 2 ^ 14)
key_slot-tagged_example =
    key_slot-tagged (bytes "a") (bytes "x") (bytes "b") [] b't' [] (unfold index_byte in refl)
      (unfold index_byte in refl) (unfold index_byte in refl)
