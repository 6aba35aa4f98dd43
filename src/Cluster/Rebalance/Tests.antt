-- ===== src/Cluster/Rebalance/Tests.antt =====
-- Three masters, the last of which has just joined, and the theorem about plans at them.
use vortexkv.Prelude.{
  ℕ, zero, suc, ◌≤◌, ◌≡◌, refl, subst, inl, inr, List, [], ◌∷◌, Bytes, bytes, bytes_eq,
  bytes_eq_iff, length, arith, Bool-cases,
}
use vortexkv.Prelude.Int.{pos}
use vortexkv.Cluster.Rebalance.{
  MasterNodeInfo, RebalancePlan, planned, sort_masters, compute_rebalance_plan,
}
use vortexkv.Cluster.Rebalance.Tables.{mentions, total}
use vortexkv.Cluster.Rebalance.Balance.{IsFair, compute_rebalance_plan_lem}

slots_below : ℕ → List ℕ
slots_below zero = []
slots_below (suc n) = n ∷ slots_below n

length-slots_below : (n : ℕ) → length (slots_below n) ≡ n
unfolding slots_below
length-slots_below zero = refl
length-slots_below (suc n) = omega (arith, length-slots_below n)

abbrev master : Bytes → ℕ → MasterNodeInfo
master id n = record { id = id; ip = bytes "10.0.0.1"; port = pos 7000; slots = slots_below n }

abbrev three : List MasterNodeInfo
three = master (bytes "b") 10000 ∷ master (bytes "a") 6384 ∷ master (bytes "c") 0 ∷ []

three-once : (id : Bytes) → mentions id three ≤ 1
unfolding bytes_eq
three-once id = elim (Bool-cases (bytes_eq (bytes "b") id)) [
  | inl b ↦ subst (λ i. mentions i three ≤ 1) ((bytes_eq_iff (bytes "b") id).0 b) (omega arith)
  | inr not_b ↦ elim (Bool-cases (bytes_eq (bytes "a") id)) [
    | inl a ↦ subst (λ i. mentions i three ≤ 1) ((bytes_eq_iff (bytes "a") id).0 a) (omega arith)
    | inr not_a ↦ ground (arith, not_b, not_a)
  ]
]

three-total : total three ≡ 16384
three-total = omega (arith, length-slots_below 10000, length-slots_below 6384, length-slots_below 0)

compute_rebalance_plan_lem_example :
    (plan : RebalancePlan) × (compute_rebalance_plan three ≡ planned plan)
    × IsFair (length three) (sort_masters three) plan
compute_rebalance_plan_lem_example =
    compute_rebalance_plan_lem three (omega arith) three-once three-total
