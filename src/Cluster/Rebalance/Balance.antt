-- ===== src/Cluster/Rebalance/Balance.antt =====
-- The plan leaves every master with its share.
use vortexkv.Prelude.{
  ℕ, suc, ◌+◌, ◌-◌, ◌/◌, ◌%◌, ◌≤◌, ◌<◌, ◌≡◌, ◌∙◌, refl, sym, ap, ap₂, subst, inl, inr, true, false,
  List, [], ◌∷◌, ◌++◌, Bytes, bytes_eq, bytes_eq_refl, length, ltb, arith, length-append,
}
use mathlib.Core.List.{append-nil}
use vortexkv.Prelude.Int.{ℤ, pos, sub_ℕ}
use vortexkv.Map.{Map}
use vortexkv.Cluster.Rebalance.{
  MasterNodeInfo, SlotMove, Counts, Donor, Receiver, RebalancePlan, planned, target_at, int_at,
  sort_masters, counts_of, count_moves, divide, transfer, plan_of, compute_rebalance_plan,
}
use vortexkv.Cluster.Rebalance.Moves.{Transferred, transfer-Transferred}
use vortexkv.Cluster.Rebalance.Tally.{
  slots_left, moved_slots, need, avail_of, need_of, moves_from, moves_to,
}
use vortexkv.Cluster.Rebalance.Tables.{
  mentions, total, mentions-sort_masters, sizes-sort_masters, Recorded, count_masters-Recorded,
  count_moves_lem,
}
use vortexkv.Cluster.Rebalance.Shares.{excess, excess_of, lack_of, divide_lem, shares-total}

length-zero : (xs : List ℕ) → length xs ≡ 0 → xs ≡ []
length-zero [] h = refl
length-zero (x ∷ xs) h = absurd (omega (arith, h))

length-moved_slots : (vs : List SlotMove) → length (moved_slots vs) ≡ length vs
length-moved_slots [] = refl
length-moved_slots (v ∷ vs) = omega (arith, length-moved_slots vs)

need_of-le : (id : Bytes) (rs : List Receiver) → need_of id rs ≤ need rs
need_of-le id [] = omega arith
need_of-le id (r ∷ rs) = ground (arith, need_of-le id rs)

avail_of-le : (id : Bytes) (ds : List Donor) → avail_of id ds ≤ length (slots_left ds)
avail_of-le id [] = omega arith
avail_of-le id (d ∷ ds) = ground (arith, avail_of-le id ds, length-append d.avail (slots_left ds))

-- Where as much is needed as there is, the moves are all of it.
module _ (rs : List Receiver) (ds : List Donor) (enough : need rs ≡ length (slots_left ds)) where
  abbrev moves : List SlotMove
  moves = (transfer rs ds).0

  abbrev after : List Receiver × List Donor
  after = (transfer rs ds).1

  done : Transferred rs ds (transfer rs ds)
  done = transfer-Transferred rs ds

  sizes : length (moved_slots moves) + length (slots_left after.1) ≡ length (slots_left ds)
  sizes = sym (length-append (moved_slots moves) (slots_left after.1)) ∙ ap length done.slots

  both_met : (need after.0 ≡ 0) × (length (slots_left after.1) ≡ 0)
  both_met = elim done.exhausted [
    | inl met ↦ (met, omega (arith, met, sizes, done.wanted, enough))
    | inr gone ↦
        let none_left : length (slots_left after.1) ≡ 0 = ap length gone in
        (omega (arith, none_left, sizes, done.wanted, enough), none_left)
  ]

  pub moved-all : moved_slots moves ≡ slots_left ds
  moved-all =
      sym (append-nil (moved_slots moves))
      ∙ ap (λ l. moved_slots moves ++ l) (sym (length-zero (slots_left after.1) both_met.1))
      ∙ done.slots

  pub moves_from-all : (id : Bytes) → moves_from id moves ≡ avail_of id ds
  moves_from-all id = omega (arith, done.from id, avail_of-le id after.1, both_met.1)

  pub moves_to-all : (id : Bytes) → moves_to id moves ≡ need_of id rs
  moves_to-all id = omega (arith, done.received id, need_of-le id after.0, both_met.0)

module _ (base remainder : ℕ) where
  -- The count of each of these masters is its share.
  abbrev pub Balanced : ℕ → List MasterNodeInfo → Map Bytes ℤ → Type 0
  Balanced i [] final = Unit
  Balanced i (m ∷ ms) final =
      (int_at m.id final ≡ pos (target_at base remainder i)) × Balanced (suc i) ms final

  absent :
      (id : Bytes) (i : ℕ) (ms : List MasterNodeInfo)
      → mentions id ms ≡ 0
      → (excess_of base remainder id i ms ≡ 0) × (lack_of base remainder id i ms ≡ 0)
  absent id i [] h = (refl, refl)
  absent id i (m ∷ ms) h =
      let (a, b) = absent id (suc i) ms (ground (arith, h)) in
      (ground (arith, h, a), ground (arith, h, b))

  balanced_count : (t n : ℕ) → sub_ℕ ((t - n) + n) (n - t) ≡ pos t
  balanced_count t n = ground arith

  balances :
      (c : Counts) (final : Map Bytes ℤ) (up down : Bytes → ℕ)
      (moved : (id : Bytes) (a : ℕ)
        → int_at id c.final ≡ pos a
        → int_at id final ≡ sub_ℕ (up id + a) (down id))
      (i : ℕ) (ms : List MasterNodeInfo)
      → Recorded base remainder c i ms
      → ((id : Bytes) → mentions id ms ≤ 1)
      → ((id : Bytes)
          → 1 ≤ mentions id ms
          → (up id ≡ lack_of base remainder id i ms) × (down id ≡ excess_of base remainder id i ms))
      → Balanced i ms final
  balances c final up down moved i [] r once at = tt
  balances c final up down moved i (m ∷ ms) (cur, tgt, fin, rest) once at =
      let t : ℕ = target_at base remainder i in
      let n : ℕ = length m.slots in
      let same : bytes_eq m.id m.id ≡ true = bytes_eq_refl m.id in
      let alone : mentions m.id ms ≡ 0 = ground (arith, same, once m.id) in
      let (no_excess, no_lack) = absent m.id (suc i) ms alone in
      let (ups, downs) = at m.id (ground (arith, same)) in
      let up' : up m.id ≡ t - n = ground (arith, ups, same, no_lack) in
      let down' : down m.id ≡ n - t = ground (arith, downs, same, no_excess) in
      (
        moved m.id n fin ∙ ap₂ (λ a b. sub_ℕ (a + n) b) up' down' ∙ balanced_count t n,
        balances c final up down moved (suc i) ms rest (λ id. omega (arith, once id))
            (λ id here.
              let other : bytes_eq m.id id ≡ false = ground (arith, once id, here) in
              let (u, d) = at id (omega (arith, here)) in
              (ground (arith, u, other), ground (arith, d, other))),
      )

-- What a plan for the sorted masters has to be, with shares for `n` masters.
abbrev pub IsFair : ℕ → List MasterNodeInfo → RebalancePlan → Type 0
IsFair n ms plan =
    (moved_slots plan.moves ≡ excess (16384 / n) (16384 % n) 0 ms)
    × (plan.total_slots_to_move ≡ length plan.moves)
    × Balanced (16384 / n) (16384 % n) 0 ms plan.final_counts

plan_of_lem :
    (ms : List MasterNodeInfo)
    → 0 < length ms
    → ((id : Bytes) → mentions id ms ≤ 1)
    → total ms ≡ 16384
    → (plan : RebalancePlan) × (plan_of (counts_of ms) (divide (counts_of ms) ms) ≡ planned plan)
      × IsFair (length ms) ms plan
plan_of_lem ms some_master once all =
    let b : ℕ = 16384 / length ms in
    let r : ℕ = 16384 % length ms in
    let c : Counts = counts_of ms in
    let recorded : Recorded b r c 0 ms =
      unfold counts_of in count_masters-Recorded b r 0 ms _ once in
    let (s, e, v) = divide_lem b r c 0 ms recorded in
    let rs : List Receiver = s.receivers in
    let ds : List Donor = s.donors in
    let vs : List SlotMove = (transfer rs ds).0 in
    let enough : need rs ≡ length (slots_left ds) =
      omega (arith, v.wanted, ap length v.slots, shares-total ms 16384 some_master, all) in
    let moved : (id : Bytes) (a : ℕ)
        → int_at id c.final ≡ pos a
        → int_at id (count_moves vs c.final)
          ≡ sub_ℕ (lack_of b r id 0 ms + a) (excess_of b r id 0 ms) =
      λ id a h.
        count_moves_lem vs c.final id a 0 (h ∙ (ground arith))
        ∙ ap₂ sub_ℕ {x = moves_to id vs + a} {y = lack_of b r id 0 ms + a}
            (omega (arith, moves_to-all rs ds enough id, v.received id))
            (omega (arith, moves_from-all rs ds enough id, v.given id)) in
    (
      record {
        total_slots_to_move = length vs;
        moves = vs;
        initial_counts = c.initial;
        final_counts = count_moves vs c.final;
      },
      ap (plan_of c) e ∙ (unfold plan_of in refl),
      (
        moved-all rs ds enough ∙ v.slots,
        refl,
        balances b r c (count_moves vs c.final) (λ id. lack_of b r id 0 ms)
            (λ id. excess_of b r id 0 ms) moved 0 ms recorded once (λ id here. (refl, refl)),
      ),
    )

-- With at least two masters of different ids that have all 16384 slots between them, there is a plan
-- that moves, in order, exactly the slots that each master has behind its share, counts its moves, and
-- leaves each master with its share: 16384 divided by the number of masters, and one more for the
-- first masters, in the order of their ids, as many as the division leaves over.
pub compute_rebalance_plan_lem :
    (masters : List MasterNodeInfo)
    → 2 ≤ length masters
    → ((id : Bytes) → mentions id masters ≤ 1)
    → total masters ≡ 16384
    → (plan : RebalancePlan) × (compute_rebalance_plan masters ≡ planned plan)
      × IsFair (length masters) (sort_masters masters) plan
compute_rebalance_plan_lem masters many once all =
    let sorted : List MasterNodeInfo = sort_masters masters in
    let (same_total, same_length) = sizes-sort_masters masters in
    let (plan, e, fair) =
      plan_of_lem sorted (omega (arith, many, same_length))
        (λ id. omega (arith, once id, mentions-sort_masters id masters)) (same_total ∙ all) in
    let enough : ltb (length masters) 2 ≡ false = ground (arith, many) in
    (
      plan,
      unfold compute_rebalance_plan in (rw enough e),
      subst (λ n. IsFair n sorted plan) same_length fair,
    )
