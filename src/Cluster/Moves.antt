-- ===== src/Cluster/Moves.antt =====
-- One slot that changes hands: by `give_slot` to a known node, by `drop_slot` to nobody.
use vortexkv.Prelude.{
  ℕ, ◌≡◌, ◌<◌, refl, sym, ap, ap₂, subst, ◌∙◌, Bool-cases, true, false, Option, none, some, inl,
  inr, bytes_key, bytes_eq, bytes_eq_iff, ◌==◌, ◌&&◌, ◌⊎◌, ==_iff, if◌then◌else◌, arith,
}
use vortexkv.Map.{lookup}
use vortexkv.Cluster.{ClusterManager, node_id, num_slots, update, set_bit, set_owner}
use vortexkv.Cluster.Slots.{held_by_other, clear_old, give_slot, drop_slot}
use vortexkv.Cluster.Consistent.{is_owner, IsKnown, IsConsistent, set_bit-id, set_bit-slots}

clear_old-id :
    (a s : ℕ) (o : Option ℕ) (cm : ClusterManager) (x : ℕ)
    → node_id (clear_old a s o cm) x ≡ node_id cm x
unfolding clear_old
clear_old-id a s none cm x = refl
clear_old-id a s (some o) cm x = ground (arith, set_bit-id o s false cm x)

clear_old-nodes :
    (a s : ℕ) (o : Option ℕ) (cm : ClusterManager) → (clear_old a s o cm).nodes ≡ cm.nodes
unfolding clear_old set_bit
clear_old-nodes a s none cm = refl
clear_old-nodes a s (some o) cm = ground arith

clear_old-self :
    (a s : ℕ) (o : Option ℕ) (cm : ClusterManager) → (clear_old a s o cm).self ≡ cm.self
unfolding clear_old set_bit
clear_old-self a s none cm = refl
clear_old-self a s (some o) cm = ground arith

clear_old-slot_map :
    (a s : ℕ) (o : Option ℕ) (cm : ClusterManager) → (clear_old a s o cm).slot_map ≡ cm.slot_map
unfolding clear_old set_bit
clear_old-slot_map a s none cm = refl
clear_old-slot_map a s (some o) cm = ground arith

pub give_slot-id :
    (a s : ℕ) (cm : ClusterManager) (x : ℕ) → node_id (give_slot a s cm) x ≡ node_id cm x
unfolding give_slot set_owner
give_slot-id a s cm x = set_bit-id a s true _ x ∙ clear_old-id a s (cm.slot_map s) cm x

pub give_slot-nodes : (a s : ℕ) (cm : ClusterManager) → (give_slot a s cm).nodes ≡ cm.nodes
unfolding give_slot set_owner set_bit
give_slot-nodes a s cm = clear_old-nodes a s (cm.slot_map s) cm

pub give_slot-self : (a s : ℕ) (cm : ClusterManager) → (give_slot a s cm).self ≡ cm.self
unfolding give_slot set_owner set_bit
give_slot-self a s cm = clear_old-self a s (cm.slot_map s) cm

pub give_slot-slot_map :
    (a s : ℕ) (cm : ClusterManager) (j : ℕ)
    → (give_slot a s cm).slot_map j ≡ (if s == j then some a else cm.slot_map j)
unfolding give_slot set_owner set_bit update
give_slot-slot_map a s cm j =
    ap (λ f. if s == j then some a else f j) (clear_old-slot_map a s (cm.slot_map s) cm)

clear_old-elsewhere :
    (a s : ℕ) (o : Option ℕ) (cm : ClusterManager) (x j : ℕ)
    → ¬ (s ≡ j)
    → ((clear_old a s o cm).heap x).slots j ≡ (cm.heap x).slots j
unfolding clear_old
clear_old-elsewhere a s none cm x j h = refl
clear_old-elsewhere a s (some o) cm x j h =
    ground (arith, ==_iff s j, set_bit-slots o s false cm x j)

-- Two known nodes with one id are one.
pub known_eq :
    (cm : ClusterManager) (x y : ℕ)
    → IsKnown cm x
    → IsKnown cm y
    → bytes_eq (node_id cm x) (node_id cm y) ≡ (x == y)
known_eq cm x y p q =
    let same : node_id cm x ≡ node_id cm y → some x ≡ some y =
      λ e. sym p ∙ ap (λ id. lookup id cm.nodes) e ∙ q in
    grind (arith, bytes_eq_iff (node_id cm x) (node_id cm y), ==_iff x y, same)

module _ (a s : ℕ) (cm : ClusterManager) (v : IsConsistent cm) (known : IsKnown cm a) where
  clear_old-slots :
      (o : Option ℕ) (x j : ℕ)
      → o ≡ cm.slot_map s
      → IsKnown cm x
      → j < num_slots
      → ¬ (x ≡ a)
      → ((clear_old a s o cm).heap x).slots j ≡ (if s == j then false else (cm.heap x).slots j)
  unfolding clear_old held_by_other
  clear_old-slots none x j e k h other =
      ground (arith, ==_iff s j, ap (is_owner x) e, v.agree x s k)
  clear_old-slots (some o) x j e k h other = ground (
    arith,
    ==_iff s j,
    ==_iff o x,
    ==_iff o a,
    set_bit-slots o s false cm x j,
    known_eq cm o a (v.owners_known s o (sym e)) known,
    ap (is_owner x) e,
    v.agree x s k,
  )

  pub give_slot-slots :
      (x j : ℕ)
      → IsKnown cm x
      → j < num_slots
      → ((give_slot a s cm).heap x).slots j ≡ (if s == j then a == x else (cm.heap x).slots j)
  unfolding give_slot set_owner
  give_slot-slots x j k h =
      let cleared : ClusterManager = clear_old a s (cm.slot_map s) cm in
      let bit = set_bit-slots a s true cleared x j in
      let elsewhere = clear_old-elsewhere a s (cm.slot_map s) cm x j in
      elim (Bool-cases (a == x)) [
        | inl same ↦ ground (arith, bit, elsewhere, ==_iff s j)
        | inr other ↦
            let lost : (cleared.heap x).slots j ≡ (if s == j then false else (cm.heap x).slots j) =
              clear_old-slots (cm.slot_map s) x j refl k h (λ e. ground (arith, e, ==_iff a x)) in
            ground (arith, bit, lost)
      ]

  pub give_slot-IsKnown : (x : ℕ) → IsKnown (give_slot a s cm) x ≡ IsKnown cm x
  give_slot-IsKnown x =
      ap₂ (λ id m. lookup id m ≡ some x) (give_slot-id a s cm x) (give_slot-nodes a s cm)

  give_slot-agree :
      (x j : ℕ)
      → IsKnown cm x
      → j < num_slots
      → ((give_slot a s cm).heap x).slots j ≡ is_owner x ((give_slot a s cm).slot_map j)
  give_slot-agree x j k h =
      rw (give_slot-slots x j k h, give_slot-slot_map a s cm j, v.agree x j k h) (ground arith)

  give_slot-owner : (j o : ℕ) → (give_slot a s cm).slot_map j ≡ some o → IsKnown cm o
  give_slot-owner j o p = elim (Bool-cases (s == j)) [
    | inl same ↦
        let e : some a ≡ some o = sym (give_slot-slot_map a s cm j ∙ rw same refl) ∙ p in
        ground (arith, e, known)
    | inr other ↦ v.owners_known j o (sym (give_slot-slot_map a s cm j ∙ rw other refl) ∙ p)
  ]

  give_slot-in_range :
      (j o : ℕ) → s < num_slots → (give_slot a s cm).slot_map j ≡ some o → j < num_slots
  give_slot-in_range j o h p = elim (Bool-cases (s == j)) [
    | inl same ↦ ground (arith, same, h)
    | inr other ↦ v.in_range j o (sym (give_slot-slot_map a s cm j ∙ rw other refl) ∙ p)
  ]

  pub give_slot-IsConsistent : s < num_slots → IsConsistent (give_slot a s cm)
  give_slot-IsConsistent h = record {
    in_range = λ j o p. give_slot-in_range j o h p;
    keyed = λ id x p.
        give_slot-id a s cm x ∙ v.keyed id x (sym (ap (lookup id) (give_slot-nodes a s cm)) ∙ p);
    self_known =
        subst (λ z. IsKnown (give_slot a s cm) z) (sym (give_slot-self a s cm))
          (rw (give_slot-IsKnown cm.self) v.self_known);
    owners_known = λ j o p. rw (give_slot-IsKnown o) (give_slot-owner j o p);
    agree = λ x j k l. give_slot-agree x j (subst (λ t. t) (give_slot-IsKnown x) k) l;
  }

module _ (s : ℕ) (cm : ClusterManager) where
  pub drop_slot-slots :
      (x j : ℕ)
      → ((drop_slot s cm).heap x).slots j
        ≡ (if (cm.self == x) && (s == j) then false else (cm.heap x).slots j)
  unfolding drop_slot set_owner
  drop_slot-slots x j = set_bit-slots cm.self s false cm x j

  drop_slot-IsKnown : (x : ℕ) → IsKnown (drop_slot s cm) x ≡ IsKnown cm x
  unfolding drop_slot set_owner
  drop_slot-IsKnown x =
      ap₂ (λ id m. lookup id m ≡ some x) (set_bit-id cm.self s false cm x) (unfold set_bit in refl)

  pub drop_slot-slot_map :
      (j : ℕ) → (drop_slot s cm).slot_map j ≡ (if s == j then none else cm.slot_map j)
  unfolding drop_slot set_owner set_bit update
  drop_slot-slot_map j = refl

  -- The slot is free, or the node's own.
  abbrev pub OwnOrFree : Type 0
  OwnOrFree = (cm.slot_map s ≡ none) ⊎ (cm.slot_map s ≡ some cm.self)

  drop_slot-agree :
      IsConsistent cm
      → OwnOrFree
      → (x j : ℕ) → IsKnown cm x
      → j < num_slots
      → ((drop_slot s cm).heap x).slots j ≡ is_owner x ((drop_slot s cm).slot_map j)
  drop_slot-agree v (inl free) x j k h = ground (
    arith,
    drop_slot-slots x j,
    drop_slot-slot_map j,
    v.agree x j k h,
    ap (is_owner x) free,
    ==_iff s j,
  )
  drop_slot-agree v (inr own) x j k h = ground (
    arith,
    drop_slot-slots x j,
    drop_slot-slot_map j,
    v.agree x j k h,
    ap (is_owner x) own,
    ==_iff s j,
    ==_iff cm.self x,
  )

  pub drop_slot-IsConsistent : IsConsistent cm → OwnOrFree → IsConsistent (drop_slot s cm)
  drop_slot-IsConsistent v own = record {
    keyed = λ id x p.
        unfold drop_slot set_owner in
        set_bit-id cm.self s false cm x ∙ v.keyed id x (unfold drop_slot set_owner set_bit in p);
    self_known =
        unfold drop_slot set_owner set_bit in
        subst (λ t. t) (sym (drop_slot-IsKnown cm.self)) v.self_known;
    owners_known = λ j o p.
        rw (drop_slot-IsKnown o) (v.owners_known j o (ground (arith, p, drop_slot-slot_map j)));
    in_range = λ j o p. v.in_range j o (ground (arith, p, drop_slot-slot_map j));
    agree = λ x j k h. drop_slot-agree v own x j (subst (λ t. t) (drop_slot-IsKnown x) k) h;
  }
