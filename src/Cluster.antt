-- ===== src/Cluster.antt =====
-- internal/cluster/cluster.go and node.go: which node owns which hash slot, and how commands move
-- slots. Writing nodes.conf, whose errors the program drops, is left out.
pub mod Slots
pub mod KeySlots
pub mod Consistent
pub mod Moves
pub mod Additions
pub mod Releases
pub mod Transfers
pub mod Migrations
pub mod Nodes
pub mod Arrivals
pub mod Departures
pub mod Roles
pub mod Reach
pub mod Rebalance
mod Tests
use vortexkv.Prelude.{ℕ, ◌==◌, Bool, Option, Bytes, if◌then◌else◌}
use vortexkv.Map.{Map}

abbrev pub num_slots : ℕ
num_slots = 16384

-- The fields that slot ownership rests on. An array is a function of its index.
pub record ClusterNode : Type 0 where
  pub id : Bytes
  pub role : Bytes
  pub master_id : Bytes
  pub slots : ℕ → Bool

-- A `*ClusterNode` is an address in `heap`.
pub record ClusterManager : Type 0 where
  pub heap : ℕ → ClusterNode
  pub self : ℕ
  pub nodes : Map Bytes ℕ
  pub slot_map : ℕ → Option ℕ
  pub migrating_slots : Map ℕ Bytes
  pub importing_slots : Map ℕ Bytes

unfoldable pub update : {A : Type 0} → (ℕ → A) → ℕ → A → ℕ → A
update f i v j = if i == j then v else f j

abbrev pub node_id : ClusterManager → ℕ → Bytes
node_id cm a = (cm.heap a).id

-- `node.Slots[s] = v`
unfoldable pub set_bit : ℕ → ℕ → Bool → ClusterManager → ClusterManager
set_bit a s v cm = record cm {
  heap = update cm.heap a (record (cm.heap a) { slots = update (cm.heap a).slots s v });
}

-- `cm.SlotMap[s] = owner`
unfoldable pub set_owner : ℕ → Option ℕ → ClusterManager → ClusterManager
set_owner s owner cm = record cm { slot_map = update cm.slot_map s owner }
