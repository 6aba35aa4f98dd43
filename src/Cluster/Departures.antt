-- ===== src/Cluster/Departures.antt =====
-- `RemoveNode` and `Replicate`: the slots of a node that goes have no owner.
use vortexkv.Prelude.{
  ℕ, zero, suc, ◌≡◌, ◌<◌, refl, sym, ap, ap₂, subst, ◌∙◌, Bool, Bool-cases, false, Option,
  Option-cases, none, some, inl, inr, Bytes, bytes_key, bytes_eq, bytes_eq_iff, bytes_eq_ne,
  bytes_eq_refl, ◌==◌, ◌&&◌, ==_iff, ltb, if◌then◌else◌, arith,
}
use vortexkv.Map.{lookup, delete}
use vortexkv.Map.Laws.{lookup-delete}
use vortexkv.Cluster.{ClusterManager, node_id, num_slots, update, set_owner}
use vortexkv.Cluster.Nodes.{sweep, points_to, disown, remove_found, remove_node}
use vortexkv.Cluster.Moves.{known_eq}
use vortexkv.Cluster.Consistent.{is_owner, IsKnown, IsConsistent}

-- The sweep over the departing node's slots.
module _ (slots : ℕ → Bool) (a : ℕ) (cm : ClusterManager) where
  swept_map : ℕ → ℕ → Option ℕ
  swept_map n j = if ltb j n && slots j && points_to (cm.slot_map j) a then none else cm.slot_map j

  -- What the sweep leaves: all but the slot map, and that map.
  sweep-disown :
      (n : ℕ)
      → ((sweep (disown slots a) n cm).heap ≡ cm.heap)
        × ((sweep (disown slots a) n cm).self ≡ cm.self)
        × ((sweep (disown slots a) n cm).nodes ≡ cm.nodes)
        × ((j : ℕ) → (sweep (disown slots a) n cm).slot_map j ≡ swept_map n j)
  unfolding sweep disown set_owner update swept_map
  sweep-disown zero = (refl, refl, refl, λ j. ground arith)
  sweep-disown (suc n) =
      let (h, s, m, o) = sweep-disown n in
      (
        ground (arith, h),
        ground (arith, s),
        ground (arith, m),
        λ j. elim (Bool-cases (n == j)) [
          | inl same ↦
              subst (λ i. (sweep (disown slots a) (suc n) cm).slot_map i ≡ swept_map (suc n) i)
                ((==_iff n j).0 same) (ground (arith, o n, ==_iff n n))
          | inr other ↦ ground (arith, o j, o n, other, ==_iff n j)
        ],
      )

-- A manager without one of the other nodes, whose slots nobody owns.
module _ (cm cm' : ClusterManager) (id : Bytes) (a : ℕ) (v : IsConsistent cm)
    (known : lookup id cm.nodes ≡ some a) (other : ¬ (id ≡ node_id cm cm.self))
    (same_heap : cm'.heap ≡ cm.heap) (same_self : cm'.self ≡ cm.self)
    (fewer_nodes : cm'.nodes ≡ delete id cm.nodes)
    (freed : (j : ℕ)
      → cm'.slot_map j ≡ (if is_owner a (cm.slot_map j) then none else cm.slot_map j)) where
  IsKnown-before : (x : ℕ) → IsKnown cm' x ≡ (lookup (node_id cm x) (delete id cm.nodes) ≡ some x)
  IsKnown-before x = ap₂ (λ h m. lookup (h x).id m ≡ some x) same_heap fewer_nodes

  a_id : node_id cm a ≡ id
  a_id = v.keyed id a known

  same_node : (x : ℕ) → IsKnown cm x → bytes_eq id (node_id cm x) ≡ (a == x)
  same_node x k =
      subst (λ i. bytes_eq i (node_id cm x) ≡ (a == x)) a_id
        (known_eq cm a x (subst (λ i. lookup i cm.nodes ≡ some a) (sym a_id) known) k)

  -- Who is known now was known, and is not the node that went.
  still-IsKnown : (x : ℕ) → IsKnown cm' x → IsKnown cm x × (is_owner x (some a) ≡ false)
  still-IsKnown x k =
      let k' : lookup (node_id cm x) (delete id cm.nodes) ≡ some x =
        subst (λ t. t) (IsKnown-before x) k in
      let found = lookup-delete id (node_id cm x) cm.nodes in ground (arith, k', found, same_node x)

  stays-IsKnown : (x : ℕ) → IsKnown cm x → is_owner a (some x) ≡ false → IsKnown cm' x
  stays-IsKnown x k n =
      let found = lookup-delete id (node_id cm x) cm.nodes in
      subst (λ t. t) (sym (IsKnown-before x))
        (ground (arith, found, same_node x k, k, n, ==_iff a x, ==_iff x a))

  removed-IsConsistent : IsConsistent cm'
  removed-IsConsistent = record {
    keyed = λ i x p.
        ap (λ h. (h x).id) same_heap
        ∙ v.keyed i x (ground (arith, p, lookup-delete id i cm.nodes, fewer_nodes));
    self_known =
        subst (λ z. IsKnown cm' z) (sym same_self)
          (stays-IsKnown cm.self v.self_known (
            ground (
              arith,
              same_node cm.self v.self_known,
              bytes_eq_iff id (node_id cm cm.self),
              other,
              ==_iff a cm.self,
              ==_iff cm.self a,
            )));
    owners_known = λ j o p.
        stays-IsKnown o (v.owners_known j o (ground (arith, p, freed j)))
          (ground (arith, p, freed j));
    in_range = λ j o p. v.in_range j o (ground (arith, p, freed j));
    agree = λ x j k h.
        ap (λ f. (f x).slots j) same_heap
        ∙ v.agree x j (still-IsKnown x k).0 h
        ∙ ground (arith, freed j, (still-IsKnown x k).1, ==_iff a x);
  }

-- The sweep frees what the node owned, since its bits agree with the map.
swept-freed :
    (cm : ClusterManager) (a j : ℕ)
    → IsConsistent cm
    → IsKnown cm a
    → swept_map (cm.heap a).slots a cm num_slots j
      ≡ (if is_owner a (cm.slot_map j) then none else cm.slot_map j)
unfolding swept_map points_to
swept-freed cm a j v k = elim (Option-cases (cm.slot_map j)) [
  | inl free ↦ rw free (ground arith)
  | inr (o, e) ↦
      let h : j < num_slots = v.in_range j o e in
      ground (arith, e, h, v.agree a j k h, ap (is_owner a) e)
]

-- `RemoveNode` of another node that is known, on a consistent manager, succeeds, keeps it
-- consistent, forgets the node, and leaves its slots without an owner and all others as they were.
pub remove_node_lem :
    (id : Bytes) (a : ℕ) (cm : ClusterManager)
    → IsConsistent cm
    → lookup id cm.nodes ≡ some a
    → ¬ (id ≡ node_id cm cm.self)
    → ((remove_node id cm).0 ≡ none)
      × IsConsistent (remove_node id cm).1
      × (lookup id (remove_node id cm).1.nodes ≡ none)
      × ((j : ℕ)
          → (remove_node id cm).1.slot_map j
            ≡ (if is_owner a (cm.slot_map j) then none else cm.slot_map j))
unfolding remove_node remove_found
remove_node_lem id a cm v p other =
    let (h, s, m, o) = sweep-disown (cm.heap a).slots a cm num_slots in
    let known : IsKnown cm a = subst (λ i. lookup i cm.nodes ≡ some a) (sym (v.keyed id a p)) p in
    let freed = λ (j : ℕ). o j ∙ swept-freed cm a j v known in
    let away : bytes_eq id (node_id cm cm.self) ≡ false =
      bytes_eq_ne id (node_id cm cm.self) other in
    rw away (
      rw p (
        refl,
        removed-IsConsistent cm _ id a v p other h s (ap (delete id) m) freed,
        lookup-delete id id _ ∙ rw (bytes_eq_refl id) refl,
        freed,
      ))
