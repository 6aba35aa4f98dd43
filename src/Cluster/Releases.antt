-- ===== src/Cluster/Releases.antt =====
-- `DelSlots`: what it answers, and who owns what afterwards.
use vortexkv.Prelude.{
  ℕ, ◌≡◌, ◌<◌, refl, ap, subst, ◌∙◌, Bool-cases, true, Option-cases, none, some, inl, inr, List, [],
  ◌∷◌, bytes_key, bytes_eq_refl, ◌==◌, ◌⊎◌, ==_iff, leb, if◌then◌else◌, arith,
}
use vortexkv.Cluster.{ClusterManager, node_id, num_slots, update, set_bit, set_owner}
use vortexkv.Cluster.Slots.{
  SlotError, out_of_range, not_owned, held_by, checked, drop_slot, del_check, del_loop, del_slots,
}
use vortexkv.Cluster.Consistent.{IsConsistent}
use vortexkv.Cluster.Moves.{known_eq, OwnOrFree, drop_slot-IsConsistent}
use vortexkv.Cluster.Additions.{listed}

-- Every slot of the list exists and is the node's own.
abbrev pub AllOwn : List ℕ → ClusterManager → Type 0
AllOwn ss cm = (s : ℕ) → listed ss s ≡ true → (s < num_slots) × (cm.slot_map s ≡ some cm.self)

pub del_loop-owner :
    (ss : List ℕ) (cm : ClusterManager) (j : ℕ)
    → (del_loop ss cm).slot_map j ≡ (if listed ss j then none else cm.slot_map j)
unfolding del_loop drop_slot set_owner set_bit update
del_loop-owner [] cm j = refl
del_loop-owner (s ∷ ss) cm j = ground (arith, del_loop-owner ss (drop_slot s cm) j)

del_loop-IsConsistent :
    (ss : List ℕ) (cm : ClusterManager)
    → IsConsistent cm
    → ((s : ℕ) → listed ss s ≡ true → OwnOrFree s cm)
    → IsConsistent (del_loop ss cm)
unfolding del_loop
del_loop-IsConsistent [] cm v own = v
del_loop-IsConsistent (s ∷ ss) cm v own =
    del_loop-IsConsistent ss (drop_slot s cm)
      (drop_slot-IsConsistent s cm v (own s (ground (arith, ==_iff s s))))
      (λ j l. unfold drop_slot set_owner set_bit update in ground (arith, own j, l))

held_by-own :
    (s : ℕ) (cm : ClusterManager)
    → IsConsistent cm
    → held_by cm (node_id cm cm.self) (cm.slot_map s) ≡ true
    → cm.slot_map s ≡ some cm.self
unfolding held_by
held_by-own s cm v h = elim (Option-cases (cm.slot_map s)) [
  | inl free ↦
      let no : held_by cm (node_id cm cm.self) none ≡ true =
        subst (λ q. held_by cm (node_id cm cm.self) q ≡ true) free h in
      absurd (ground (arith, no))
  | inr (o, e) ↦
      let same = known_eq cm o cm.self (v.owners_known s o e) v.self_known in
      let mine : held_by cm (node_id cm cm.self) (some o) ≡ true =
        subst (λ q. held_by cm (node_id cm cm.self) q ≡ true) e h in
      e ∙ ap some (ground (arith, same, mine, ==_iff o cm.self))
]

own-held_by :
    (s : ℕ) (cm : ClusterManager)
    → cm.slot_map s ≡ some cm.self
    → held_by cm (node_id cm cm.self) (cm.slot_map s) ≡ true
unfolding held_by
own-held_by s cm own = rw own (bytes_eq_refl (node_id cm cm.self))

-- The check passes, or it finds a slot that is not the node's to drop.
del_check-cases :
    (ss : List ℕ) (cm : ClusterManager)
    → IsConsistent cm
    → ((del_check cm ss ≡ none) × AllOwn ss cm)
      ⊎ ((e : SlotError) × (del_check cm ss ≡ some e) × (¬ AllOwn ss cm))
unfolding del_check
del_check-cases [] cm v = inl (refl, λ s l. ground (arith, l))
del_check-cases (s ∷ ss) cm v = elim (Bool-cases (leb num_slots s)) [
  | inl beyond ↦ inr (
    out_of_range s,
    rw beyond refl,
    λ u. let within : s < num_slots = (u s (ground (arith, ==_iff s s))).0 in ground arith,
  )
  | inr within ↦ rw within (elim (Bool-cases (held_by cm (node_id cm cm.self) (cm.slot_map s))) [
    | inr lost ↦ inr (
      not_owned s,
      rw lost refl,
      λ u.
          let own = own-held_by s cm (u s (ground (arith, ==_iff s s))).1 in
          ground (arith, own, lost),
    )
    | inl own ↦ rw own (elim (del_check-cases ss cm v) [
      | inl (ok, u) ↦ inl (
        ok,
        λ j l. elim (Bool-cases (s == j)) [
          | inl same ↦
              subst (λ z. (z < num_slots) × (cm.slot_map z ≡ some cm.self)) ((==_iff s j).0 same)
                (ground arith, held_by-own s cm v own)
          | inr other ↦ u j (ground (arith, l, other))
        ],
      )
      | inr (e, bad, nu) ↦ inr (e, bad, λ u. nu (λ j l. u j (ground (arith, l))))
    ])
  ])
]

-- `DelSlots` on a consistent manager keeps it consistent. It succeeds and leaves exactly the listed
-- slots without an owner on top of those that had none, or it answers an error, changes nothing,
-- and some listed slot does not exist or is not the node's own.
pub del_slots_lem :
    (ss : List ℕ) (cm : ClusterManager)
    → IsConsistent cm
    → IsConsistent (del_slots ss cm).1
      × (((del_slots ss cm).0 ≡ none)
            × AllOwn ss cm
            × ((j : ℕ)
                → (del_slots ss cm).1.slot_map j ≡ (if listed ss j then none else cm.slot_map j))
          ⊎ ((e : SlotError) × ((del_slots ss cm).0 ≡ some e)
              × ((del_slots ss cm).1 ≡ cm)
              × (¬ AllOwn ss cm)))
unfolding del_slots checked
del_slots_lem ss cm v = elim (del_check-cases ss cm v) [
  | inl (ok, u) ↦
      rw ok
        (del_loop-IsConsistent ss cm v (λ s l. inr (u s l).1), inl (refl, u, del_loop-owner ss cm))
  | inr (e, bad, nu) ↦ rw bad (v, inr (e, refl, refl, nu))
]
