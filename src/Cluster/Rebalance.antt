-- ===== src/Cluster/Rebalance.antt =====
-- `ComputeRebalancePlan` of internal/cluster/rebalancer.go: which slots to move so that the masters
-- own equal shares.
pub mod Tally
pub mod Moves
pub mod Tables
pub mod Shares
pub mod Balance
mod Tests
use Prim.Native.Nat.{min}
use vortexkv.Prelude.{
  ℕ, zero, suc, ◌+◌, ◌-◌, ◌/◌, ◌%◌, Bool, true, false, ◌&&◌, ◌||◌, Option, none, some, List, [],
  ◌∷◌, ◌++◌, map, Bytes, bytes_key, length, take, drop, ltb, ◌==◌, if◌then◌else◌,
}
use vortexkv.Prelude.Int.{ℤ, pos, negsuc}
use vortexkv.Prelude.Decimal.{print_int}
use vortexkv.Map.{Map, lookup, insert}

-- The fields that the plan reads.
pub record MasterNodeInfo : Type 0 where
  pub id : Bytes
  pub ip : Bytes
  pub port : ℤ
  pub slots : List ℕ

pub record SlotMove : Type 0 where
  pub slot : ℕ
  pub from_node_id : Bytes
  pub from_addr : Bytes
  pub to_node_id : Bytes
  pub to_addr : Bytes

pub record RebalancePlan : Type 0 where
  pub total_slots_to_move : ℕ
  pub moves : List SlotMove
  pub initial_counts : Map Bytes ℕ
  pub final_counts : Map Bytes ℤ

-- A slice expression out of range panics.
pub data PlanResult : Type 0 where
  too_few_masters panicked : PlanResult
  planned : RebalancePlan → PlanResult

-- `<` on strings
unfoldable pub id_below : Bytes → Bytes → Bool
id_below xs [] = false
id_below [] (y ∷ ys) = true
id_below (x ∷ xs) (y ∷ ys) = ltb x y || (x == y && id_below xs ys)

-- `sort.Slice` by the ids
unfoldable pub insert_master : MasterNodeInfo → List MasterNodeInfo → List MasterNodeInfo
insert_master m [] = m ∷ []
insert_master m (k ∷ ks) =
    let later = insert_master m ks in if id_below k.id m.id then k ∷ later else m ∷ k ∷ ks

unfoldable pub sort_masters : List MasterNodeInfo → List MasterNodeInfo
unfolding insert_master
sort_masters [] = []
sort_masters (m ∷ ms) = insert_master m (sort_masters ms)

pub record Counts : Type 0 where
  pub initial : Map Bytes ℕ
  pub target : Map Bytes ℕ
  pub final : Map Bytes ℤ

-- A value of a map, or zero.
abbrev pub count_at : Bytes → Map Bytes ℕ → ℕ
count_at id m = elim (lookup id m) [ none ↦ 0 | some n ↦ n ]

abbrev pub int_at : Bytes → Map Bytes ℤ → ℤ
int_at id m = elim (lookup id m) [ none ↦ pos 0 | some n ↦ n ]

-- The first masters take what the division leaves over.
abbrev pub target_at : ℕ → ℕ → ℕ → ℕ
target_at base remainder i = if ltb i remainder then base + 1 else base

unfoldable pub count_masters : ℕ → ℕ → ℕ → List MasterNodeInfo → Counts → Counts
count_masters base remainder i [] c = c
count_masters base remainder i (m ∷ ms) c = count_masters base remainder (suc i) ms (record {
  initial = insert m.id (length m.slots) c.initial;
  target = insert m.id (target_at base remainder i) c.target;
  final = insert m.id (pos (length m.slots)) c.final;
})

pub record Donor : Type 0 where
  pub m : MasterNodeInfo
  pub avail : List ℕ

pub record Receiver : Type 0 where
  pub m : MasterNodeInfo
  pub needed : ℕ

pub record Sides : Type 0 where
  pub donors : List Donor
  pub receivers : List Receiver

abbrev pub with_donor : Donor → Option Sides → Option Sides
with_donor d none = none
with_donor d (some s) = some (record s { donors = d ∷ s.donors })

abbrev pub with_receiver : Receiver → Option Sides → Option Sides
with_receiver r none = none
with_receiver r (some s) = some (record s { receivers = r ∷ s.receivers })

-- The slots behind the last `excess` of a master; none where it has fewer.
unfoldable pub excess_slots : ℕ → List ℕ → Option (List ℕ)
excess_slots excess slots =
    if ltb (length slots) excess then none else some (drop (length slots - excess) slots)

abbrev pub donated : MasterNodeInfo → Option (List ℕ) → Option Sides → Option Sides
donated m none rest = none
donated m (some avail) rest = with_donor (record { m = m; avail = avail }) rest

-- Who has too many slots and who too few; none where the program panics.
unfoldable pub divide : Counts → List MasterNodeInfo → Option Sides
unfolding excess_slots
divide c [] = some (record { donors = []; receivers = [] })
divide c (m ∷ ms) =
    let cur = count_at m.id c.initial in
    let tgt = count_at m.id c.target in
    let rest = divide c ms in
    if ltb tgt cur
    then donated m (excess_slots (cur - tgt) m.slots) rest
    else if ltb cur tgt
    then with_receiver (record { m = m; needed = tgt - cur }) rest
    else rest

abbrev pub addr : MasterNodeInfo → Bytes
addr m = m.ip ++ (b':' ∷ print_int m.port)

abbrev pub move_slot : MasterNodeInfo → MasterNodeInfo → ℕ → SlotMove
move_slot from to slot = record {
  slot = slot;
  from_node_id = from.id;
  from_addr = addr from;
  to_node_id = to.id;
  to_addr = addr to;
}

abbrev pub is_nil : List ℕ → Bool
is_nil [] = true
is_nil (s ∷ ss) = false

-- The inner loop for one receiver, from the donors that are left: the moves, what it still needs and
-- the donors behind. Where a donor keeps some of its slots the need is met, and the loop ends.
unfoldable pub give : MasterNodeInfo → ℕ → List Donor → List SlotMove × (ℕ × List Donor)
give to zero ds = ([], (zero, ds))
give to (suc n) [] = ([], (suc n, []))
give to (suc n) (d ∷ ds) =
    let taken = min (suc n) (length d.avail) in
    let moves = map (move_slot d.m to) (take taken d.avail) in
    let left = drop taken d.avail in
    let later = give to (suc n - taken) ds in
    if is_nil left
    then (moves ++ later.0, later.1)
    else (moves, (suc n - taken, record d { avail = left } ∷ ds))

-- The loop over the receivers.
unfoldable pub transfer : List Receiver → List Donor → List SlotMove × (List Receiver × List Donor)
unfolding give
transfer [] ds = ([], ([], ds))
transfer (r ∷ rs) ds =
    let (moves, (needed, ds')) = give r.m r.needed ds in
    let (later, (rs', ds'')) = transfer rs ds' in
    (moves ++ later, (record r { needed = needed } ∷ rs', ds''))

unfoldable pub increment : ℤ → ℤ
increment (pos n) = pos (suc n)
increment (negsuc zero) = pos 0
increment (negsuc (suc n)) = negsuc n

unfoldable pub decrement : ℤ → ℤ
decrement (pos zero) = negsuc 0
decrement (pos (suc n)) = pos n
decrement (negsuc n) = negsuc (suc n)

-- `finalCounts[from]--` and `finalCounts[to]++`, for each move in turn.
unfoldable pub count_move : SlotMove → Map Bytes ℤ → Map Bytes ℤ
unfolding increment decrement
count_move v final =
    let given = insert v.from_node_id (decrement (int_at v.from_node_id final)) final in
    insert v.to_node_id (increment (int_at v.to_node_id given)) given

unfoldable pub count_moves : List SlotMove → Map Bytes ℤ → Map Bytes ℤ
unfolding count_move
count_moves [] final = final
count_moves (v ∷ vs) final = count_moves vs (count_move v final)

unfoldable pub plan_of : Counts → Option Sides → PlanResult
unfolding transfer count_moves
plan_of c none = panicked
plan_of c (some s) =
    let moves = (transfer s.receivers s.donors).0 in
    planned (record {
      total_slots_to_move = length moves;
      moves = moves;
      initial_counts = c.initial;
      final_counts = count_moves moves c.final;
    })

-- The counts of the masters, in the order of their ids.
unfoldable pub counts_of : List MasterNodeInfo → Counts
unfolding count_masters
counts_of sorted =
    count_masters (16384 / length sorted) (16384 % length sorted) 0 sorted
      (record { initial = []; target = []; final = [] })

unfoldable pub compute_rebalance_plan : List MasterNodeInfo → PlanResult
unfolding sort_masters counts_of divide plan_of
compute_rebalance_plan masters =
    let sorted = sort_masters masters in
    let c = counts_of sorted in
    if ltb (length masters) 2 then too_few_masters else plan_of c (divide c sorted)
