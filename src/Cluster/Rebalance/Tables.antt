-- ===== src/Cluster/Rebalance/Tables.antt =====
-- Sorting the masters keeps them, and the maps record their counts.
use vortexkv.Prelude.{
  ℕ, suc, ◌+◌, ◌-◌, ◌≤◌, ◌≡◌, ◌∙◌, refl, ap, inl, inr, true, false, List, [], ◌∷◌, Bytes, bytes_eq,
  bytes_eq_iff, bytes_eq_refl, bytes_key, length, leb, ◌==◌, ap₂, if◌then◌else◌, arith, Bool-cases,
  none, some,
}
use vortexkv.Prelude.Int.{ℤ, pos, negsuc, sub_ℕ}
use vortexkv.Map.{Map, insert}
use vortexkv.Map.Laws.{lookup-insert}
use vortexkv.Cluster.Rebalance.{
  MasterNodeInfo, SlotMove, Counts, count_at, int_at, target_at, id_below, insert_master,
  sort_masters, count_masters, increment, decrement, count_move, count_moves,
}
use vortexkv.Cluster.Rebalance.Tally.{moves_from, moves_to}

-- How often an id stands among the masters, and how many slots they have.
abbrev pub mentions : Bytes → List MasterNodeInfo → ℕ
mentions id [] = 0
mentions id (m ∷ ms) = (if bytes_eq m.id id then 1 else 0) + mentions id ms

abbrev pub total : List MasterNodeInfo → ℕ
total [] = 0
total (m ∷ ms) = length m.slots + total ms

mentions-insert_master :
    (id : Bytes) (m : MasterNodeInfo) (ms : List MasterNodeInfo)
    → mentions id (insert_master m ms) ≡ mentions id (m ∷ ms)
unfolding insert_master
mentions-insert_master id m [] = refl
mentions-insert_master id m (k ∷ ks) = elim (Bool-cases (id_below k.id m.id)) [
  | inl below ↦ rw below (omega (arith, mentions-insert_master id m ks))
  | inr above ↦ rw above refl
]

pub mentions-sort_masters :
    (id : Bytes) (ms : List MasterNodeInfo) → mentions id (sort_masters ms) ≡ mentions id ms
unfolding sort_masters
mentions-sort_masters id [] = refl
mentions-sort_masters id (m ∷ ms) =
    omega (arith, mentions-insert_master id m (sort_masters ms), mentions-sort_masters id ms)

sizes-insert_master :
    (m : MasterNodeInfo) (ms : List MasterNodeInfo)
    → (total (insert_master m ms) ≡ length m.slots + total ms)
      × (length (insert_master m ms) ≡ suc (length ms))
unfolding insert_master
sizes-insert_master m [] = (refl, omega arith)
sizes-insert_master m (k ∷ ks) = elim (Bool-cases (id_below k.id m.id)) [
  | inl below ↦
      let (a, b) = sizes-insert_master m ks in rw below (omega (arith, a), omega (arith, b))
  | inr above ↦ rw above (refl, omega arith)
]

pub sizes-sort_masters :
    (ms : List MasterNodeInfo)
    → (total (sort_masters ms) ≡ total ms) × (length (sort_masters ms) ≡ length ms)
unfolding sort_masters
sizes-sort_masters [] = (refl, refl)
sizes-sort_masters (m ∷ ms) =
    let (a, b) = sizes-insert_master m (sort_masters ms) in
    let (c, d) = sizes-sort_masters ms in (omega (arith, a, c), omega (arith, b, d))

count_at-insert :
    (k j : Bytes) (n : ℕ) (m : Map Bytes ℕ)
    → count_at j (insert k n m) ≡ (if bytes_eq k j then n else count_at j m)
count_at-insert k j n m =
    ap (λ o. elim o [ none ↦ 0 | some i ↦ i ]) (lookup-insert k j n m)
    ∙ elim (Bool-cases (bytes_eq k j)) [ inl e ↦ rw e refl | inr e ↦ rw e refl ]

int_at-insert :
    (k j : Bytes) (n : ℤ) (m : Map Bytes ℤ)
    → int_at j (insert k n m) ≡ (if bytes_eq k j then n else int_at j m)
int_at-insert k j n m =
    ap (λ o. elim o [ none ↦ pos 0 | some i ↦ i ]) (lookup-insert k j n m)
    ∙ elim (Bool-cases (bytes_eq k j)) [ inl e ↦ rw e refl | inr e ↦ rw e refl ]

module _ (base remainder : ℕ) where
  -- The maps hold the numbers of these masters, the first of which is the `i`-th of all.
  abbrev pub Recorded : Counts → ℕ → List MasterNodeInfo → Type 0
  Recorded c i [] = Unit
  Recorded c i (m ∷ ms) =
      (count_at m.id c.initial ≡ length m.slots)
      × (count_at m.id c.target ≡ target_at base remainder i)
      × (int_at m.id c.final ≡ pos (length m.slots))
      × Recorded c (suc i) ms

  count_masters-kept :
      (id : Bytes) (i : ℕ) (ms : List MasterNodeInfo) (c : Counts)
      → mentions id ms ≡ 0
      → (count_at id (count_masters base remainder i ms c).initial ≡ count_at id c.initial)
        × (count_at id (count_masters base remainder i ms c).target ≡ count_at id c.target)
        × (int_at id (count_masters base remainder i ms c).final ≡ int_at id c.final)
  unfolding count_masters
  count_masters-kept id i [] c h = (refl, refl, refl)
  count_masters-kept id i (m ∷ ms) c h =
      let other : bytes_eq m.id id ≡ false = ground (arith, h) in
      let c' : Counts = record {
        initial = insert m.id (length m.slots) c.initial;
        target = insert m.id (target_at base remainder i) c.target;
        final = insert m.id (pos (length m.slots)) c.final;
      } in
      let (p, q, r) = count_masters-kept id (suc i) ms c' (ground (arith, h)) in
      (
        p ∙ count_at-insert m.id id (length m.slots) c.initial ∙ (rw other refl),
        q ∙ count_at-insert m.id id (target_at base remainder i) c.target ∙ (rw other refl),
        r ∙ int_at-insert m.id id (pos (length m.slots)) c.final ∙ (rw other refl),
      )

  pub count_masters-Recorded :
      (i : ℕ) (ms : List MasterNodeInfo) (c : Counts)
      → ((id : Bytes) → mentions id ms ≤ 1)
      → Recorded (count_masters base remainder i ms c) i ms
  unfolding count_masters
  count_masters-Recorded i [] c h = tt
  count_masters-Recorded i (m ∷ ms) c h =
      let same : bytes_eq m.id m.id ≡ true = bytes_eq_refl m.id in
      let c' : Counts = record {
        initial = insert m.id (length m.slots) c.initial;
        target = insert m.id (target_at base remainder i) c.target;
        final = insert m.id (pos (length m.slots)) c.final;
      } in
      let (p, q, r) = count_masters-kept m.id (suc i) ms c' (ground (arith, h m.id, same)) in
      (
        p ∙ count_at-insert m.id m.id (length m.slots) c.initial ∙ (rw same refl),
        q ∙ count_at-insert m.id m.id (target_at base remainder i) c.target ∙ (rw same refl),
        r ∙ int_at-insert m.id m.id (pos (length m.slots)) c.final ∙ (rw same refl),
        count_masters-Recorded (suc i) ms c' (λ id. omega (arith, h id)),
      )

-- One more and one less, on differences.
increment_lem : (a b : ℕ) → increment (sub_ℕ a b) ≡ sub_ℕ (suc a) b
unfolding increment
increment_lem a b = elim (Bool-cases (leb b a)) [
  | inl over ↦ ground (arith, over)
  | inr under ↦ elim (Bool-cases (b == suc a)) [
    | inl just ↦ ground (
      arith,
      under,
      just,
      ap increment {x = sub_ℕ a b} {y = negsuc 0} (ground (arith, under, just)),
    )
    | inr below ↦
        let k : ℕ = b - a - 2 in
        let e : sub_ℕ a b ≡ negsuc (suc k) = ground (arith, under, below) in
        ap increment e ∙ (ground (arith, under, below))
  ]
]

decrement_lem : (a b : ℕ) → decrement (sub_ℕ a b) ≡ sub_ℕ a (suc b)
unfolding decrement
decrement_lem a b = elim (Bool-cases (leb b a)) [
  | inl over ↦ elim (Bool-cases (a == b)) [
    | inl just ↦
        let e : sub_ℕ a b ≡ pos 0 = ground (arith, over, just) in
        ap decrement e ∙ (ground (arith, over, just))
    | inr above ↦
        let k : ℕ = a - b - 1 in
        let e : sub_ℕ a b ≡ pos (suc k) = ground (arith, over, above) in
        ap decrement e ∙ (ground (arith, over, above))
  ]
  | inr under ↦ ground (arith, under)
]

-- One move takes one from the giver and adds one to the receiver.
count_move_lem :
    (v : SlotMove) (final : Map Bytes ℤ) (id : Bytes) (a b : ℕ)
    → int_at id final ≡ sub_ℕ a b
    → int_at id (count_move v final)
      ≡ sub_ℕ
          ((if bytes_eq v.to_node_id id then 1 else 0) + a)
          ((if bytes_eq v.from_node_id id then 1 else 0) + b)
unfolding count_move
count_move_lem v final id a b h =
    let to : Bytes = v.to_node_id in
    let from : Bytes = v.from_node_id in
    let given : Map Bytes ℤ = insert from (decrement (int_at from final)) final in
    let taken : int_at id given ≡ sub_ℕ a ((if bytes_eq from id then 1 else 0) + b) =
      int_at-insert from id (decrement (int_at from final)) final
      ∙ elim (Bool-cases (bytes_eq from id)) [
        | inl here ↦ rw here (
            ap (λ i. decrement (int_at i final)) ((bytes_eq_iff from id).0 here)
            ∙ ap decrement h
            ∙ decrement_lem a b
            ∙ ap (sub_ℕ a) {x = suc b} {y = 1 + b} (omega arith))
        | inr other ↦ rw other (h ∙ ap (sub_ℕ a) {x = b} {y = 0 + b} (omega arith))
      ] in
    let c : ℕ = (if bytes_eq from id then 1 else 0) + b in
    int_at-insert to id (increment (int_at to given)) given ∙ elim (Bool-cases (bytes_eq to id)) [
      | inl here ↦ rw here (
          ap (λ i. increment (int_at i given)) ((bytes_eq_iff to id).0 here)
          ∙ ap increment taken
          ∙ increment_lem a c
          ∙ ap (λ k. sub_ℕ k c) {x = suc a} {y = 1 + a} (omega arith))
      | inr other ↦ rw other (taken ∙ ap (λ k. sub_ℕ k c) {x = a} {y = 0 + a} (omega arith))
    ]

-- The moves take from a count what goes from the id, and add what goes to it.
pub count_moves_lem :
    (vs : List SlotMove) (final : Map Bytes ℤ) (id : Bytes) (a b : ℕ)
    → int_at id final ≡ sub_ℕ a b
    → int_at id (count_moves vs final) ≡ sub_ℕ (moves_to id vs + a) (moves_from id vs + b)
unfolding count_moves
count_moves_lem [] final id a b h = h ∙ ap₂ sub_ℕ {x = a} {y = 0 + a} (omega arith) (omega arith)
count_moves_lem (v ∷ vs) final id a b h =
    let k : ℕ = if bytes_eq v.to_node_id id then 1 else 0 in
    let l : ℕ = if bytes_eq v.from_node_id id then 1 else 0 in
    count_moves_lem vs (count_move v final) id (k + a) (l + b) (count_move_lem v final id a b h)
    ∙ ap₂ sub_ℕ {x = moves_to id vs + (k + a)} {y = k + moves_to id vs + a} (omega arith)
        (omega arith)
