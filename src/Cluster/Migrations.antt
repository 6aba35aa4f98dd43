-- ===== src/Cluster/Migrations.antt =====
-- `SetSlot`: ownership, and the two tables of slots under migration.
use vortexkv.Prelude.{
  ℕ, ◌≡◌, ◌<◌, refl, sym, subst, ◌∙◌, Bool-cases, Option, Option-cases, none, some, inl, inr, List,
  Bytes, bytes_key, nat_eq, bytes_eq, ◌==◌, ◌&&◌, ◌⊎◌, ==_refl, leb, if◌then◌else◌, arith, bytes,
}
use vortexkv.Map.{lookup, insert, delete, is_some}
use vortexkv.Map.Laws.{lookup-insert, lookup-delete}
use vortexkv.Cluster.{ClusterManager, node_id, num_slots}
use vortexkv.Cluster.Slots.{
  SlotError, held_by, give_slot, settle, set_slot, set_slot_node, set_slot_migrating,
  set_slot_importing,
}
use vortexkv.Cluster.Consistent.{IsConsistent}
use vortexkv.Cluster.Moves.{give_slot-IsConsistent, give_slot-slot_map}

-- What a successful SETSLOT leaves for its slot in the table of migrating slots, and in that of
-- importing slots.
abbrev pub migrating_after : Bytes → Bytes → Option Bytes → Option Bytes
migrating_after sub id old =
    if bytes_eq sub (bytes "NODE")
    then none
    else if bytes_eq sub (bytes "MIGRATING")
    then some id
    else if bytes_eq sub (bytes "IMPORTING")
    then old
    else none

abbrev pub importing_after : Bytes → Bytes → Option Bytes → Option Bytes
importing_after sub id old =
    if bytes_eq sub (bytes "NODE")
    then none
    else if bytes_eq sub (bytes "MIGRATING")
    then old
    else if bytes_eq sub (bytes "IMPORTING")
    then some id
    else none

with_tables-IsConsistent :
    (m i : List (ℕ × Bytes)) (cm : ClusterManager)
    → IsConsistent cm
    → IsConsistent (record cm { migrating_slots = m; importing_slots = i })
with_tables-IsConsistent m i cm v = record {
  keyed = v.keyed;
  self_known = v.self_known;
  owners_known = v.owners_known;
  in_range = v.in_range;
  agree = v.agree;
}

set_slot_node-IsConsistent :
    (s : ℕ) (id : Bytes) (o : Option ℕ) (cm : ClusterManager)
    → lookup id cm.nodes ≡ o
    → s < num_slots
    → IsConsistent cm
    → IsConsistent (set_slot_node s id o cm).1
unfolding set_slot_node settle
set_slot_node-IsConsistent s id none cm p h v = v
set_slot_node-IsConsistent s id (some a) cm p h v =
    with_tables-IsConsistent _ _ (give_slot a s cm) (
      give_slot-IsConsistent a s cm v
        (subst (λ i. lookup i cm.nodes ≡ some a) (sym (v.keyed id a p)) p) h)

set_slot_importing-IsConsistent :
    (s : ℕ) (id : Bytes) (cm : ClusterManager)
    → IsConsistent cm
    → IsConsistent (set_slot_importing s id cm).1
unfolding set_slot_importing
set_slot_importing-IsConsistent s id cm v = elim (Bool-cases (is_some (lookup id cm.nodes))) [
  | inl known ↦ rw known (with_tables-IsConsistent _ _ cm v)
  | inr unknown ↦ rw unknown v
]

set_slot_migrating-IsConsistent :
    (s : ℕ) (id : Bytes) (cm : ClusterManager)
    → IsConsistent cm
    → IsConsistent (set_slot_migrating s id cm).1
unfolding set_slot_migrating
set_slot_migrating-IsConsistent s id cm v =
    elim (Bool-cases (held_by cm (node_id cm cm.self) (cm.slot_map s))) [
      | inl own ↦ rw own (elim (Bool-cases (is_some (lookup id cm.nodes))) [
        | inl known ↦ rw known (with_tables-IsConsistent _ _ cm v)
        | inr unknown ↦ rw unknown v
      ])
      | inr lost ↦ rw lost v
    ]

settled : (s : ℕ) (m : List (ℕ × Bytes)) → lookup s (delete s m) ≡ none
settled s m = lookup-delete s s m ∙ rw (==_refl s) refl

inserted : (s : ℕ) (id : Bytes) (m : List (ℕ × Bytes)) → lookup s (insert s id m) ≡ some id
inserted s id m = lookup-insert s s id m ∙ rw (==_refl s) refl

-- What stands under the slot in the two tables, if the command succeeded.
Leaves : ℕ → Option Bytes → Option Bytes → Option SlotError × ClusterManager → Type 0
Leaves s m i r =
    r.0 ≡ none → (lookup s r.1.migrating_slots ≡ m) × (lookup s r.1.importing_slots ≡ i)

set_slot_node-Leaves :
    (s : ℕ) (id : Bytes) (o : Option ℕ) (cm : ClusterManager)
    → Leaves s none none (set_slot_node s id o cm)
unfolding Leaves set_slot_node settle
set_slot_node-Leaves s id none cm h = absurd (ground (arith, h))
set_slot_node-Leaves s id (some a) cm h = (settled s _, settled s _)

set_slot_node-owner :
    (s : ℕ) (id : Bytes) (o : Option ℕ) (cm : ClusterManager) (j : ℕ)
    → (set_slot_node s id o cm).0 ≡ none
    → (set_slot_node s id o cm).1.slot_map j ≡ (if s == j then o else cm.slot_map j)
unfolding set_slot_node settle
set_slot_node-owner s id none cm j h = absurd (ground (arith, h))
set_slot_node-owner s id (some a) cm j h = give_slot-slot_map a s cm j

set_slot_migrating-Leaves :
    (s : ℕ) (id : Bytes) (cm : ClusterManager)
    → Leaves s (some id) (lookup s cm.importing_slots) (set_slot_migrating s id cm)
unfolding Leaves set_slot_migrating
set_slot_migrating-Leaves s id cm = ground (arith, inserted s id cm.migrating_slots)

set_slot_importing-Leaves :
    (s : ℕ) (id : Bytes) (cm : ClusterManager)
    → Leaves s (lookup s cm.migrating_slots) (some id) (set_slot_importing s id cm)
unfolding Leaves set_slot_importing
set_slot_importing-Leaves s id cm = ground (arith, inserted s id cm.importing_slots)

module _ (to_upper : Bytes → Bytes) (s : ℕ) (subcommand id : Bytes) (cm : ClusterManager) where
  set_slot-IsConsistent : IsConsistent cm → IsConsistent (set_slot to_upper s subcommand id cm).1
  unfolding set_slot settle
  set_slot-IsConsistent v =
      let sub : Bytes = to_upper subcommand in
      elim (Bool-cases (leb num_slots s)) [
        | inl out ↦ rw out v
        | inr within ↦ rw within (elim (Bool-cases (bytes_eq sub (bytes "NODE"))) [
          | inl hit ↦
              rw hit (set_slot_node-IsConsistent s id (lookup id cm.nodes) cm refl (ground arith) v)
          | inr other ↦ rw other (elim (Bool-cases (bytes_eq sub (bytes "MIGRATING"))) [
            | inl hit ↦ rw hit (set_slot_migrating-IsConsistent s id cm v)
            | inr other ↦ rw other (elim (Bool-cases (bytes_eq sub (bytes "IMPORTING"))) [
              | inl hit ↦ rw hit (set_slot_importing-IsConsistent s id cm v)
              | inr other ↦ rw other (elim (Bool-cases (bytes_eq sub (bytes "STABLE"))) [
                | inl hit ↦ rw hit (with_tables-IsConsistent _ _ cm v)
                | inr other ↦ rw other v
              ])
            ])
          ])
        ])
      ]

  set_slot-Leaves :
      Leaves s
        (migrating_after (to_upper subcommand) id (lookup s cm.migrating_slots))
        (importing_after (to_upper subcommand) id (lookup s cm.importing_slots))
        (set_slot to_upper s subcommand id cm)
  unfolding Leaves set_slot settle
  set_slot-Leaves h = ground (
    arith,
    h,
    set_slot_node-Leaves s id (lookup id cm.nodes) cm,
    set_slot_migrating-Leaves s id cm,
    set_slot_importing-Leaves s id cm,
    settled s cm.migrating_slots,
    settled s cm.importing_slots,
  )

  -- An error leaves the manager as it was.
  set_slot-error :
      (e : SlotError)
      → (set_slot to_upper s subcommand id cm).0 ≡ some e
      → (set_slot to_upper s subcommand id cm).1 ≡ cm
  unfolding set_slot set_slot_migrating set_slot_importing
  set_slot-error e h = ground (arith, h)

  -- Only NODE changes owners, and only of its slot.
  set_slot-owner :
      (j : ℕ)
      → (set_slot to_upper s subcommand id cm).0 ≡ none
      → (set_slot to_upper s subcommand id cm).1.slot_map j ≡ (
          if bytes_eq (to_upper subcommand) (bytes "NODE") && (s == j)
          then lookup id cm.nodes
          else cm.slot_map j)
  unfolding set_slot set_slot_migrating set_slot_importing settle
  set_slot-owner j h = ground (arith, h, set_slot_node-owner s id (lookup id cm.nodes) cm j)

  pub set_slot_lem :
      IsConsistent cm
      → IsConsistent (set_slot to_upper s subcommand id cm).1
        × (((set_slot to_upper s subcommand id cm).0 ≡ none)
              × ((j : ℕ)
                  → (set_slot to_upper s subcommand id cm).1.slot_map j ≡ (
                      if bytes_eq (to_upper subcommand) (bytes "NODE") && (s == j)
                      then lookup id cm.nodes
                      else cm.slot_map j))
              × (lookup s (set_slot to_upper s subcommand id cm).1.migrating_slots
                  ≡ migrating_after (to_upper subcommand) id (lookup s cm.migrating_slots))
              × (lookup s (set_slot to_upper s subcommand id cm).1.importing_slots
                  ≡ importing_after (to_upper subcommand) id (lookup s cm.importing_slots))
            ⊎ ((e : SlotError) × ((set_slot to_upper s subcommand id cm).0 ≡ some e)
                × ((set_slot to_upper s subcommand id cm).1 ≡ cm)))
  unfolding Leaves
  set_slot_lem v = (
    set_slot-IsConsistent v,
    elim (Option-cases (set_slot to_upper s subcommand id cm).0) [
      | inl h ↦ inl (h, λ j. set_slot-owner j h, (set_slot-Leaves h).0, (set_slot-Leaves h).1)
      | inr (e, h) ↦ inr (e, h, set_slot-error e h)
    ],
  )
