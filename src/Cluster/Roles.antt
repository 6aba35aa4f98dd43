-- ===== src/Cluster/Roles.antt =====
-- `Replicate`: the node gives up its slots and follows a master.
use vortexkv.Prelude.{
  ℕ, zero, suc, ◌≡◌, ◌<◌, ◌≤◌, refl, sym, ap, ap₂, subst, ◌∙◌, Bool, Bool-cases, true, false, not,
  Option, Option-cases, none, some, inl, inr, Bytes, bytes, bytes_key, bytes_eq, bytes_eq_iff,
  bytes_eq_ne, ◌==◌, ◌&&◌, ==_iff, ==_refl, ltb, if◌then◌else◌, arith,
}
use vortexkv.Map.{lookup}
use vortexkv.Cluster.{ClusterManager, node_id, num_slots, update, set_bit, set_owner}
use vortexkv.Cluster.Slots.{own_node, not_a_master, drop_slot}
use vortexkv.Cluster.Nodes.{
  sweep, points_to, release, become_replica, replicate_found, replicate_node,
}
use vortexkv.Cluster.Moves.{drop_slot-IsConsistent, drop_slot-slot_map}
use vortexkv.Cluster.Consistent.{is_owner, IsKnown, IsConsistent}

-- A slot that is the node's own by its bit and by the map is dropped.
release-eq-drop_slot :
    (slots : ℕ → Bool) (i : ℕ) (cm : ClusterManager)
    → slots i ≡ true
    → cm.slot_map i ≡ some cm.self
    → release slots i cm ≡ drop_slot i cm
unfolding release drop_slot points_to set_bit
release-eq-drop_slot slots i cm bit own = rw bit (rw own (rw (==_refl cm.self) refl))

release-skip :
    (slots : ℕ → Bool) (i : ℕ) (cm : ClusterManager) → slots i ≡ false → release slots i cm ≡ cm
unfolding release
release-skip slots i cm bit = rw bit refl

is_owner-some : (a : ℕ) (o : Option ℕ) → is_owner a o ≡ true → o ≡ some a
is_owner-some a none h = absurd (ground (arith, h))
is_owner-some a (some o) h = ground (arith, h, ==_iff o a)

drop_slot-self : (i : ℕ) (cm : ClusterManager) → (drop_slot i cm).self ≡ cm.self
unfolding drop_slot set_owner set_bit
drop_slot-self i cm = refl

-- The manager after the sweep.
swept_self : ClusterManager → ClusterManager
swept_self cm = sweep (release (cm.heap cm.self).slots) num_slots cm

-- How far a sweep has come, and one slot more.
module _ (f : ℕ → Option ℕ) (a : ℕ) where
  swept_to : ℕ → ℕ → Option ℕ
  swept_to n j = if ltb j n && is_owner a (f j) then none else f j

  swept_to-suc :
      (i j : ℕ) → (if (i == j) && is_owner a (f i) then none else swept_to i j) ≡ swept_to (suc i) j
  unfolding swept_to
  swept_to-suc i j = elim (Bool-cases (i == j)) [
    | inl same ↦
        subst
          (λ k. (if (i == k) && is_owner a (f i) then none else swept_to i k) ≡ swept_to (suc i) k)
          ((==_iff i j).0 same) (ground (arith, ==_refl i))
    | inr other ↦ ground (arith, other, ==_iff i j)
  ]

module _ (cm : ClusterManager) (v : IsConsistent cm) where
  own_slots : ℕ → Bool
  own_slots = (cm.heap cm.self).slots

  -- The sweep over the first slots.
  Swept : ℕ → ClusterManager → Type 0
  Swept n r =
      IsConsistent r
      × (r.self ≡ cm.self)
      × ((j : ℕ) → r.slot_map j ≡ swept_to cm.slot_map cm.self n j)

  own_slots-owner : (i : ℕ) → i < num_slots → own_slots i ≡ is_owner cm.self (cm.slot_map i)
  unfolding own_slots
  own_slots-owner i h = v.agree cm.self i v.self_known h

  release-Swept :
      (i : ℕ) (r : ClusterManager)
      → i < num_slots
      → Swept i r
      → Swept (suc i) (release own_slots i r)
  unfolding Swept
  release-Swept i r h (valid, self, map) = elim (Bool-cases (is_owner cm.self (cm.slot_map i))) [
    | inl own ↦
        let bit : own_slots i ≡ true = own_slots-owner i h ∙ own in
        let owned : r.slot_map i ≡ some r.self =
          map i
          ∙ (unfold swept_to in ground (arith, is_owner-some cm.self (cm.slot_map i) own, self)) in
        rw (release-eq-drop_slot own_slots i r bit owned) (
          drop_slot-IsConsistent i r valid (inr owned),
          drop_slot-self i r ∙ self,
          λ j.
              drop_slot-slot_map i r j
              ∙ ground (arith, own, map j, swept_to-suc cm.slot_map cm.self i j),
        )
    | inr free ↦
        let bit : own_slots i ≡ false = own_slots-owner i h ∙ free in
        rw (release-skip own_slots i r bit)
          (valid, self, λ j. map j ∙ ground (arith, free, swept_to-suc cm.slot_map cm.self i j))
  ]

  sweep-Swept : (n : ℕ) → n ≤ num_slots → Swept n (sweep (release own_slots) n cm)
  unfolding sweep Swept
  sweep-Swept zero h = (v, refl, λ j. unfold swept_to in ground arith)
  sweep-Swept (suc n) h = release-Swept n _ (omega arith) (sweep-Swept n (omega arith))

  sweep_all : Swept num_slots (swept_self cm)
  unfolding own_slots swept_self
  sweep_all = sweep-Swept num_slots (omega arith)

-- Everything is owned within the range, so the full sweep frees all that the node owned.
swept_to-all :
    (cm : ClusterManager) (a j : ℕ)
    → IsConsistent cm
    → swept_to cm.slot_map a num_slots j
      ≡ (if is_owner a (cm.slot_map j) then none else cm.slot_map j)
unfolding swept_to
swept_to-all cm a j v = elim (Option-cases (cm.slot_map j)) [
  | inl free ↦ rw free (ground arith)
  | inr (o, e) ↦ let h : j < num_slots = v.in_range j o e in ground (arith, h)
]

module _ (id : Bytes) (cm : ClusterManager) where
  become_replica-id : (x : ℕ) → node_id (become_replica id cm) x ≡ node_id cm x
  unfolding become_replica update
  become_replica-id x = ground (arith, ==_iff cm.self x)

  become_replica-slots : (x j : ℕ) → ((become_replica id cm).heap x).slots j ≡ (cm.heap x).slots j
  unfolding become_replica update
  become_replica-slots x j = ground (arith, ==_iff cm.self x)

  become_replica-role : ((become_replica id cm).heap cm.self).role ≡ bytes "slave"
  unfolding become_replica update
  become_replica-role = rw (==_refl cm.self) refl

  become_replica-IsKnown : (x : ℕ) → IsKnown (become_replica id cm) x ≡ IsKnown cm x
  become_replica-IsKnown x =
      ap₂ (λ i m. lookup i m ≡ some x) (become_replica-id x) (unfold become_replica in refl)

  become_replica-IsConsistent : IsConsistent cm → IsConsistent (become_replica id cm)
  become_replica-IsConsistent v = record {
    keyed = λ i x p. become_replica-id x ∙ v.keyed i x (unfold become_replica in p);
    self_known =
        unfold become_replica in subst (λ t. t) (sym (become_replica-IsKnown cm.self)) v.self_known;
    owners_known = λ j o p.
        subst (λ t. t) (sym (become_replica-IsKnown o))
          (v.owners_known j o (unfold become_replica in p));
    in_range = λ j o p. v.in_range j o (unfold become_replica in p);
    agree = λ x j k h.
        become_replica-slots x j
        ∙ v.agree x j (subst (λ t. t) (become_replica-IsKnown x) k) h
        ∙ (unfold become_replica in refl);
  }

replicate_node-ok :
    (id : Bytes) (m : ℕ) (cm : ClusterManager)
    → lookup id cm.nodes ≡ some m
    → bytes_eq (cm.heap m).role (bytes "master") ≡ true
    → bytes_eq id (node_id cm cm.self) ≡ false
    → replicate_node id cm ≡ (none, become_replica id (swept_self cm))
unfolding replicate_node replicate_found swept_self
replicate_node-ok id m cm p master other =
    ap (λ b. if b then (some own_node, cm) else replicate_found id (lookup id cm.nodes) cm) other
    ∙ ap (λ o. replicate_found id o cm) p
    ∙ ap (λ b. if not b then (some not_a_master, cm) else (none, become_replica id (swept_self cm)))
        master

-- `Replicate` of another node that is a known master, on a consistent manager, succeeds, keeps it
-- consistent, leaves the slots of the node itself without an owner and all others as they were, and
-- makes the node a slave.
pub replicate_node_lem :
    (id : Bytes) (m : ℕ) (cm : ClusterManager)
    → IsConsistent cm
    → lookup id cm.nodes ≡ some m
    → (cm.heap m).role ≡ bytes "master"
    → ¬ (id ≡ node_id cm cm.self)
    → ((replicate_node id cm).0 ≡ none)
      × IsConsistent (replicate_node id cm).1
      × ((j : ℕ)
          → (replicate_node id cm).1.slot_map j
            ≡ (if is_owner cm.self (cm.slot_map j) then none else cm.slot_map j))
      × (((replicate_node id cm).1.heap cm.self).role ≡ bytes "slave")
unfolding Swept
replicate_node_lem id m cm v p master other =
    let done =
      replicate_node-ok id m cm p ((bytes_eq_iff (cm.heap m).role (bytes "master")).1 master)
        (bytes_eq_ne id (node_id cm cm.self) other) in
    let (valid, self, map) = sweep_all cm v in
    let after : ClusterManager = become_replica id (swept_self cm) in
    let map' : (j : ℕ) → after.slot_map j ≡ swept_to cm.slot_map cm.self num_slots j =
      λ j. unfold become_replica in map j in
    (
      ap (λ r. r.0) done,
      subst (λ r. IsConsistent r.1) (sym done)
          (become_replica-IsConsistent id (swept_self cm) valid),
      λ j. ap (λ r. r.1.slot_map j) done ∙ map' j ∙ swept_to-all cm cm.self j v,
      ap (λ r. (r.1.heap cm.self).role) done
          ∙ subst (λ z. (after.heap z).role ≡ bytes "slave") self
              (become_replica-role id (swept_self cm)),
    )
