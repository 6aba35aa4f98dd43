-- ===== src/Cluster/Transfers.antt =====
-- `AssignSlotsToNode` and `SetSlot`: slots that go to any known node, and migration states.
use vortexkv.Prelude.{
  ℕ, ◌≡◌, refl, sym, subst, ◌∙◌, Bool, Bool-cases, true, not, some, inl, inr, List, [], ◌∷◌, Bytes,
  bytes_key, nat_eq, ◌&&◌, leb, if◌then◌else◌, arith,
}
use vortexkv.Map.{lookup, is_some}
use vortexkv.Cluster.{ClusterManager, num_slots}
use vortexkv.Cluster.Slots.{give_slot, assign_loop, assign_found, assign_slots_to_node}
use vortexkv.Cluster.Consistent.{IsKnown, IsConsistent}
use vortexkv.Cluster.Moves.{give_slot-IsConsistent, give_slot-slot_map, give_slot-IsKnown}
use vortexkv.Cluster.Additions.{listed}

-- The slots of the list up to the first that does not exist.
abbrev pub existing : List ℕ → List ℕ
existing [] = []
existing (s ∷ ss) = if leb num_slots s then [] else s ∷ existing ss

abbrev pub all_exist : List ℕ → Bool
all_exist [] = true
all_exist (s ∷ ss) = not (leb num_slots s) && all_exist ss

assign_loop_lem :
    (a : ℕ) (ss : List ℕ) (cm : ClusterManager)
    → IsConsistent cm
    → IsKnown cm a
    → IsConsistent (assign_loop a ss cm).1
      × (is_some (assign_loop a ss cm).0 ≡ not (all_exist ss))
      × ((j : ℕ)
          → (assign_loop a ss cm).1.slot_map j
            ≡ (if listed (existing ss) j then some a else cm.slot_map j))
unfolding assign_loop is_some
assign_loop_lem a [] cm v k = (v, refl, λ j. refl)
assign_loop_lem a (s ∷ ss) cm v k = elim (Bool-cases (leb num_slots s)) [
  | inl beyond ↦ rw beyond (v, refl, λ j. refl)
  | inr within ↦
      let (valid, answer, owner) =
        assign_loop_lem a ss (give_slot a s cm) (give_slot-IsConsistent a s cm v k (ground arith))
          (subst (λ t. t) (sym (give_slot-IsKnown a s cm v k a)) k) in
      rw within (valid, answer, λ j. owner j ∙ ground (arith, give_slot-slot_map a s cm j))
]

-- `AssignSlotsToNode` for a known node, on a consistent manager, keeps it consistent, makes the
-- node the owner of the listed slots up to the first that does not exist, and of no other, and
-- answers an error exactly if there is such a slot.
pub assign_slots_to_node_lem :
    (id : Bytes) (a : ℕ) (ss : List ℕ) (cm : ClusterManager)
    → IsConsistent cm
    → lookup id cm.nodes ≡ some a
    → IsConsistent (assign_slots_to_node id ss cm).1
      × (is_some (assign_slots_to_node id ss cm).0 ≡ not (all_exist ss))
      × ((j : ℕ)
          → (assign_slots_to_node id ss cm).1.slot_map j
            ≡ (if listed (existing ss) j then some a else cm.slot_map j))
unfolding assign_slots_to_node assign_found
assign_slots_to_node_lem id a ss cm v p =
    rw p
      (assign_loop_lem a ss cm v (subst (λ i. lookup i cm.nodes ≡ some a) (sym (v.keyed id a p)) p))
