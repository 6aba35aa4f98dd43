-- ===== src/Cluster/Rebalance/Tally.antt =====
-- What moves take from an id and give to it.
use vortexkv.Prelude.{
  ℕ, ◌+◌, ◌≡◌, refl, ap, List, [], ◌∷◌, ◌++◌, map, Bytes, bytes_eq, length, if◌then◌else◌, arith,
}
use vortexkv.Cluster.Rebalance.{MasterNodeInfo, SlotMove, Donor, Receiver, move_slot}

-- The slots that donors have to give, in order.
abbrev pub slots_left : List Donor → List ℕ
slots_left [] = []
slots_left (d ∷ ds) = d.avail ++ slots_left ds

abbrev pub moved_slots : List SlotMove → List ℕ
moved_slots [] = []
moved_slots (v ∷ vs) = v.slot ∷ moved_slots vs

abbrev pub need : List Receiver → ℕ
need [] = 0
need (r ∷ rs) = r.needed + need rs

-- What the masters with an id have to give, and need.
abbrev pub avail_of : Bytes → List Donor → ℕ
avail_of id [] = 0
avail_of id (d ∷ ds) = (if bytes_eq d.m.id id then length d.avail else 0) + avail_of id ds

abbrev pub need_of : Bytes → List Receiver → ℕ
need_of id [] = 0
need_of id (r ∷ rs) = (if bytes_eq r.m.id id then r.needed else 0) + need_of id rs

-- The moves from an id, and to it.
abbrev pub moves_from : Bytes → List SlotMove → ℕ
moves_from id [] = 0
moves_from id (v ∷ vs) = (if bytes_eq v.from_node_id id then 1 else 0) + moves_from id vs

abbrev pub moves_to : Bytes → List SlotMove → ℕ
moves_to id [] = 0
moves_to id (v ∷ vs) = (if bytes_eq v.to_node_id id then 1 else 0) + moves_to id vs

pub moved_slots-append :
    (vs ws : List SlotMove) → moved_slots (vs ++ ws) ≡ moved_slots vs ++ moved_slots ws
moved_slots-append [] ws = refl
moved_slots-append (v ∷ vs) ws = ap (λ l. v.slot ∷ l) (moved_slots-append vs ws)

pub moves_from-append :
    (id : Bytes) (vs ws : List SlotMove)
    → moves_from id (vs ++ ws) ≡ moves_from id vs + moves_from id ws
moves_from-append id [] ws = omega arith
moves_from-append id (v ∷ vs) ws = omega (arith, moves_from-append id vs ws)

pub moves_to-append :
    (id : Bytes) (vs ws : List SlotMove) → moves_to id (vs ++ ws) ≡ moves_to id vs + moves_to id ws
moves_to-append id [] ws = omega arith
moves_to-append id (v ∷ vs) ws = omega (arith, moves_to-append id vs ws)

-- The moves of some slots from one master to another.
module _ (from to : MasterNodeInfo) where
  pub moved_slots-map : (ss : List ℕ) → moved_slots (map (move_slot from to) ss) ≡ ss
  moved_slots-map [] = refl
  moved_slots-map (s ∷ ss) = ap (λ l. s ∷ l) (moved_slots-map ss)

  pub moves_from-map :
      (id : Bytes) (ss : List ℕ)
      → moves_from id (map (move_slot from to) ss) ≡ (if bytes_eq from.id id then length ss else 0)
  moves_from-map id [] = ground arith
  moves_from-map id (s ∷ ss) = ground (arith, moves_from-map id ss)

  pub moves_to-map :
      (id : Bytes) (ss : List ℕ)
      → moves_to id (map (move_slot from to) ss) ≡ (if bytes_eq to.id id then length ss else 0)
  moves_to-map id [] = ground arith
  moves_to-map id (s ∷ ss) = ground (arith, moves_to-map id ss)
