-- ===== src/Cluster/Additions.antt =====
-- `AddSlots`: what it answers, who owns what afterwards, and that the two records of ownership
-- still agree.
use vortexkv.Prelude.{
  ℕ, ◌≡◌, ◌<◌, refl, ap, subst, ◌∙◌, Bool, Bool-cases, true, false, Option-cases, none, some, inl,
  inr, List, [], ◌∷◌, bytes_key, bytes_eq_refl, ◌==◌, ◌||◌, ◌⊎◌, ==_iff, leb, if◌then◌else◌, arith,
}
use vortexkv.Cluster.{ClusterManager, node_id, num_slots, update, set_bit, set_owner}
use vortexkv.Cluster.Slots.{
  SlotError, out_of_range, busy, held_by_other, add_check, add_loop, add_slots, take_slot, checked,
  clear_old, give_slot,
}
use vortexkv.Cluster.Consistent.{IsConsistent}
use vortexkv.Cluster.Moves.{known_eq, give_slot-IsConsistent, OwnOrFree}

-- The slot is in the list.
abbrev pub listed : List ℕ → ℕ → Bool
listed [] j = false
listed (s ∷ ss) j = (s == j) || listed ss j

-- Every slot of the list exists and is the node's own or free.
abbrev pub Usable : List ℕ → ClusterManager → Type 0
Usable ss cm = (s : ℕ) → listed ss s ≡ true → (s < num_slots) × OwnOrFree s cm

-- Over a slot that is free or its own, the node takes the slot as `give_slot` would give it.
take_slot-eq-give_slot :
    (s : ℕ) (cm : ClusterManager) → OwnOrFree s cm → take_slot s cm ≡ give_slot cm.self s cm
unfolding take_slot give_slot clear_old held_by_other
take_slot-eq-give_slot s cm (inl free) = rw free refl
take_slot-eq-give_slot s cm (inr own) = rw own (rw (bytes_eq_refl (node_id cm cm.self)) refl)

pub add_loop-owner :
    (ss : List ℕ) (cm : ClusterManager) (j : ℕ)
    → (add_loop ss cm).slot_map j ≡ (if listed ss j then some cm.self else cm.slot_map j)
unfolding add_loop take_slot set_owner set_bit update
add_loop-owner [] cm j = refl
add_loop-owner (s ∷ ss) cm j = ground (arith, add_loop-owner ss (take_slot s cm) j)

add_loop-IsConsistent :
    (ss : List ℕ) (cm : ClusterManager)
    → IsConsistent cm
    → Usable ss cm
    → IsConsistent (add_loop ss cm)
unfolding add_loop
add_loop-IsConsistent [] cm v own = v
add_loop-IsConsistent (s ∷ ss) cm v own =
    let same : take_slot s cm ≡ give_slot cm.self s cm =
      take_slot-eq-give_slot s cm (own s (ground (arith, ==_iff s s))).1 in
    add_loop-IsConsistent ss (take_slot s cm)
      (rw same
        (give_slot-IsConsistent cm.self s cm v v.self_known (own s (ground (arith, ==_iff s s))).0))
      (λ j l. unfold take_slot set_owner set_bit update in ground (arith, own j, l))

held_by_other-own :
    (s : ℕ) (cm : ClusterManager)
    → IsConsistent cm
    → held_by_other cm (node_id cm cm.self) (cm.slot_map s) ≡ false
    → OwnOrFree s cm
unfolding held_by_other
held_by_other-own s cm v h = elim (Option-cases (cm.slot_map s)) [
  | inl free ↦ inl free
  | inr (o, e) ↦
      let same = known_eq cm o cm.self (v.owners_known s o e) v.self_known in
      let mine : held_by_other cm (node_id cm cm.self) (some o) ≡ false =
        subst (λ q. held_by_other cm (node_id cm cm.self) q ≡ false) e h in
      inr (e ∙ ap some (ground (arith, same, mine, ==_iff o cm.self)))
]

own-held_by_other :
    (s : ℕ) (cm : ClusterManager)
    → OwnOrFree s cm
    → held_by_other cm (node_id cm cm.self) (cm.slot_map s) ≡ false
unfolding held_by_other
own-held_by_other s cm (inl free) = rw free refl
own-held_by_other s cm (inr own) = rw own (rw (bytes_eq_refl (node_id cm cm.self)) refl)

-- The check passes, or it finds a slot that is not to be had.
add_check-cases :
    (ss : List ℕ) (cm : ClusterManager)
    → IsConsistent cm
    → ((add_check cm ss ≡ none) × Usable ss cm)
      ⊎ ((e : SlotError) × (add_check cm ss ≡ some e) × (¬ Usable ss cm))
unfolding add_check
add_check-cases [] cm v = inl (refl, λ s l. ground (arith, l))
add_check-cases (s ∷ ss) cm v = elim (Bool-cases (leb num_slots s)) [
  | inl beyond ↦ inr (
    out_of_range s,
    rw beyond refl,
    λ u. let within : s < num_slots = (u s (ground (arith, ==_iff s s))).0 in ground arith,
  )
  | inr within ↦
      rw within (elim (Bool-cases (held_by_other cm (node_id cm cm.self) (cm.slot_map s))) [
        | inl taken ↦ inr (
          busy s,
          rw taken refl,
          λ u.
              let free = own-held_by_other s cm (u s (ground (arith, ==_iff s s))).1 in
              ground (arith, free, taken),
        )
        | inr own ↦ rw own (elim (add_check-cases ss cm v) [
          | inl (ok, u) ↦ inl (
            ok,
            λ j l. elim (Bool-cases (s == j)) [
              | inl same ↦
                  subst (λ z. (z < num_slots) × OwnOrFree z cm) ((==_iff s j).0 same)
                    (ground arith, held_by_other-own s cm v own)
              | inr other ↦ u j (ground (arith, l, other))
            ],
          )
          | inr (e, bad, nu) ↦ inr (e, bad, λ u. nu (λ j l. u j (ground (arith, l))))
        ])
      ])
]

-- `AddSlots` on a consistent manager keeps it consistent. It succeeds and makes the node the owner
-- of exactly the listed slots on top of its own, or it answers an error, changes nothing, and some
-- listed slot does not exist or is another node's.
pub add_slots_lem :
    (ss : List ℕ) (cm : ClusterManager)
    → IsConsistent cm
    → IsConsistent (add_slots ss cm).1
      × (((add_slots ss cm).0 ≡ none)
            × Usable ss cm
            × ((j : ℕ)
                → (add_slots ss cm).1.slot_map j
                  ≡ (if listed ss j then some cm.self else cm.slot_map j))
          ⊎ ((e : SlotError) × ((add_slots ss cm).0 ≡ some e)
              × ((add_slots ss cm).1 ≡ cm)
              × (¬ Usable ss cm)))
unfolding add_slots checked
add_slots_lem ss cm v = elim (add_check-cases ss cm v) [
  | inl (ok, u) ↦ rw ok (add_loop-IsConsistent ss cm v u, inl (refl, u, add_loop-owner ss cm))
  | inr (e, bad, nu) ↦ rw bad (v, inr (e, refl, refl, nu))
]
