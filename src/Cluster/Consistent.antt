-- ===== src/Cluster/Consistent.antt =====
-- The two records of ownership agree: the slot map and the bits of the nodes.
use vortexkv.Prelude.{
  ℕ, ◌≡◌, ◌<◌, Bool, false, Option, none, some, Bytes, bytes_key, ◌==◌, ◌&&◌, ==_iff, if◌then◌else◌,
  arith,
}
use vortexkv.Map.{lookup}
use vortexkv.Cluster.{ClusterManager, node_id, num_slots, update, set_bit}

abbrev pub is_owner : ℕ → Option ℕ → Bool
is_owner a none = false
is_owner a (some o) = o == a

-- The node at an address is the one that `Nodes` has under its id.
abbrev pub IsKnown : ClusterManager → ℕ → Type 0
IsKnown cm a = lookup (node_id cm a) cm.nodes ≡ some a

pub record IsConsistent (cm : ClusterManager) : Type 0 where
  -- `Nodes` is keyed by id
  pub keyed : (id : Bytes) (a : ℕ) → lookup id cm.nodes ≡ some a → node_id cm a ≡ id
  pub self_known : IsKnown cm cm.self
  pub owners_known : (s o : ℕ) → cm.slot_map s ≡ some o → IsKnown cm o
  pub in_range : (s o : ℕ) → cm.slot_map s ≡ some o → s < num_slots
  -- a known node's bit is on exactly if the slot map points to it
  pub agree :
      (a s : ℕ) → IsKnown cm a → s < num_slots → (cm.heap a).slots s ≡ is_owner a (cm.slot_map s)

pub set_bit-id :
    (a s : ℕ) (v : Bool) (cm : ClusterManager) (x : ℕ) → node_id (set_bit a s v cm) x ≡ node_id cm x
unfolding set_bit update
set_bit-id a s v cm x = ground (arith, ==_iff a x)

pub set_bit-slots :
    (a s : ℕ) (v : Bool) (cm : ClusterManager) (x j : ℕ)
    → ((set_bit a s v cm).heap x).slots j
      ≡ (if (a == x) && (s == j) then v else (cm.heap x).slots j)
unfolding set_bit update
set_bit-slots a s v cm x j = ground (arith, ==_iff a x)
