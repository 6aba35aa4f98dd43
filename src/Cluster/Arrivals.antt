-- ===== src/Cluster/Arrivals.antt =====
-- `AddNode`: a master brings the slots that it claims.
use vortexkv.Prelude.{
  ℕ, zero, suc, ◌≡◌, ◌<◌, refl, sym, ap, subst, ◌∙◌, Bool, Bool-cases, true, false, Option,
  Option-cases, none, some, inl, inr, Bytes, bytes, bytes_key, bytes_eq, bytes_eq_iff,
  bytes_eq_refl, ◌==◌, ◌&&◌, ◌⊎◌, ==_iff, ==_refl, ltb, if◌then◌else◌, arith,
}
use vortexkv.Map.{lookup, insert}
use vortexkv.Map.Laws.{lookup-insert}
use vortexkv.Cluster.{ClusterManager, node_id, num_slots, update, set_owner}
use vortexkv.Cluster.Nodes.{sweep, claim, known_as, add_node}
use vortexkv.Cluster.Consistent.{is_owner, IsKnown, IsConsistent}

module _ (slots : ℕ → Bool) (a : ℕ) (cm : ClusterManager) where
  claimed : ℕ → ℕ → Option ℕ
  claimed n j = if ltb j n && slots j then some a else cm.slot_map j

  sweep-claim :
      (n : ℕ)
      → ((sweep (claim slots a) n cm).heap ≡ cm.heap)
        × ((sweep (claim slots a) n cm).self ≡ cm.self)
        × ((sweep (claim slots a) n cm).nodes ≡ cm.nodes)
        × ((j : ℕ) → (sweep (claim slots a) n cm).slot_map j ≡ claimed n j)
  unfolding sweep claim set_owner update claimed
  sweep-claim zero = (refl, refl, refl, λ j. ground arith)
  sweep-claim (suc n) =
      let (h, s, m, o) = sweep-claim n in
      (
        ground (arith, h),
        ground (arith, s),
        ground (arith, m),
        λ j. elim (Bool-cases (n == j)) [
          | inl same ↦
              subst (λ i. (sweep (claim slots a) (suc n) cm).slot_map i ≡ claimed (suc n) i)
                ((==_iff n j).0 same) (ground (arith, o n, ==_iff n n))
          | inr other ↦ ground (arith, o j, o n, other, ==_iff n j)
        ],
      )

-- The id of a new node is not that of any known node, nor is its address.
module _ (cm : ClusterManager) (a : ℕ) (unknown : lookup (node_id cm a) cm.nodes ≡ none) where
  -- A node that was known is another one.
  apart : (x : ℕ) → IsKnown cm x → (a == x) ≡ false
  apart x k = elim (Bool-cases (a == x)) [
    | inl same ↦
        let k' : lookup (node_id cm a) cm.nodes ≡ some x =
          subst (λ z. lookup (node_id cm z) cm.nodes ≡ some x) (sym ((==_iff a x).0 same)) k in
        absurd (ground (arith, k', unknown))
    | inr other ↦ other
  ]

  ids_apart : (x : ℕ) → IsKnown cm x → bytes_eq (node_id cm a) (node_id cm x) ≡ false
  ids_apart x k = elim (Bool-cases (bytes_eq (node_id cm a) (node_id cm x))) [
    | inl same ↦
        let k' : lookup (node_id cm a) cm.nodes ≡ some x =
          subst (λ i. lookup i cm.nodes ≡ some x)
            (sym ((bytes_eq_iff (node_id cm a) (node_id cm x)).0 same)) k in
        absurd (ground (arith, k', unknown))
    | inr other ↦ other
  ]

-- A manager with one more node, whose slots nobody owned.
module _ (cm cm' : ClusterManager) (a : ℕ) (v : IsConsistent cm)
    (unknown : lookup (node_id cm a) cm.nodes ≡ none)
    (unowned : (j : ℕ) → (cm.heap a).slots j ≡ true → cm.slot_map j ≡ none)
    (same_heap : cm'.heap ≡ cm.heap) (same_self : cm'.self ≡ cm.self)
    (more_nodes : cm'.nodes ≡ insert (node_id cm a) a cm.nodes)
    (taken : (j : ℕ)
      → cm'.slot_map j
        ≡ (if ltb j num_slots && (cm.heap a).slots j then some a else cm.slot_map j)) where
  found :
      (i : Bytes)
      → lookup i cm'.nodes ≡ (if bytes_eq (node_id cm a) i then some a else lookup i cm.nodes)
  found i = ap (lookup i) more_nodes ∙ lookup-insert (node_id cm a) i a cm.nodes

  IsKnown-now : (x : ℕ) → IsKnown cm' x ≡ (lookup (node_id cm x) cm'.nodes ≡ some x)
  IsKnown-now x = ap (λ h. lookup (h x).id cm'.nodes ≡ some x) same_heap

  stays-IsKnown : (x : ℕ) → IsKnown cm x → IsKnown cm' x
  stays-IsKnown x k =
      subst (λ t. t) (sym (IsKnown-now x))
        (ground (arith, found (node_id cm x), ids_apart cm a unknown x k, k))

  new-IsKnown : IsKnown cm' a
  new-IsKnown =
      subst (λ t. t) (sym (IsKnown-now a))
        (ground (arith, found (node_id cm a), bytes_eq_refl (node_id cm a)))

  -- Who is known now was known, or is the new node.
  IsKnown-cases : (x : ℕ) → IsKnown cm' x → IsKnown cm x ⊎ (a ≡ x)
  IsKnown-cases x k =
      let k' : lookup (node_id cm x) cm'.nodes ≡ some x = subst (λ t. t) (IsKnown-now x) k in
      ground (arith, found (node_id cm x), k')

  added-keyed : (i : Bytes) (x : ℕ) → lookup i cm'.nodes ≡ some x → node_id cm x ≡ i
  added-keyed i x p = elim (Bool-cases (bytes_eq (node_id cm a) i)) [
    | inl same ↦
        let e : a ≡ x = ground (arith, found i, same, p) in
        subst (λ z. node_id cm z ≡ i) e ((bytes_eq_iff (node_id cm a) i).0 same)
    | inr other ↦ v.keyed i x (ground (arith, found i, other, p))
  ]

  -- The new node owned nothing before.
  not_owner : (j : ℕ) → is_owner a (cm.slot_map j) ≡ false
  not_owner j = elim (Option-cases (cm.slot_map j)) [
    | inl free ↦ rw free refl
    | inr (o, e) ↦
        rw e (ground (arith, apart cm a unknown o (v.owners_known j o e), ==_iff a o, ==_iff o a))
  ]

  added-agree :
      (x j : ℕ)
      → IsKnown cm x ⊎ (a ≡ x)
      → j < num_slots
      → (cm.heap x).slots j ≡ is_owner x (cm'.slot_map j)
  added-agree x j (inl k) h =
      ground (arith, v.agree x j k h, taken j, apart cm a unknown x k, unowned j)
  added-agree x j (inr e) h =
      subst (λ z. (cm.heap z).slots j ≡ is_owner z (cm'.slot_map j)) e
        (ground (arith, taken j, h, not_owner j, ==_refl a))

  added-IsConsistent : IsConsistent cm'
  added-IsConsistent = record {
    keyed = λ i x p. ap (λ h. (h x).id) same_heap ∙ added-keyed i x p;
    self_known = subst (λ z. IsKnown cm' z) (sym same_self) (stays-IsKnown cm.self v.self_known);
    owners_known = λ j o p. elim (Bool-cases (ltb j num_slots && (cm.heap a).slots j)) [
      | inl new ↦
          let e : a ≡ o = ground (arith, taken j, new, p) in
          subst (λ z. IsKnown cm' z) e new-IsKnown
      | inr old ↦ stays-IsKnown o (v.owners_known j o (ground (arith, taken j, old, p)))
    ];
    in_range = λ j o p. elim (Bool-cases (ltb j num_slots && (cm.heap a).slots j)) [
      | inl new ↦ ground (arith, new)
      | inr old ↦ v.in_range j o (ground (arith, taken j, old, p))
    ];
    agree = λ x j k h. ap (λ f. (f x).slots j) same_heap ∙ added-agree x j (IsKnown-cases x k) h;
  }

-- The full sweep of a new master.
claimed_all : ℕ → ClusterManager → ClusterManager
claimed_all a cm = sweep (claim (cm.heap a).slots a) num_slots (known_as a cm)

add_node-master :
    (a : ℕ) (cm : ClusterManager)
    → (cm.heap a).role ≡ bytes "master"
    → add_node a cm ≡ claimed_all a cm
unfolding add_node claimed_all
add_node-master a cm master =
    ap (λ b. if b then claimed_all a cm else known_as a cm)
      ((bytes_eq_iff (cm.heap a).role (bytes "master")).1 master)

claimed_all-map :
    (a : ℕ) (cm : ClusterManager)
    → ((claimed_all a cm).heap ≡ cm.heap)
      × ((claimed_all a cm).self ≡ cm.self)
      × ((claimed_all a cm).nodes ≡ insert (node_id cm a) a cm.nodes)
      × ((j : ℕ)
          → (claimed_all a cm).slot_map j
            ≡ (if ltb j num_slots && (cm.heap a).slots j then some a else cm.slot_map j))
unfolding claimed_all known_as claimed
claimed_all-map a cm = sweep-claim (cm.heap a).slots a (known_as a cm) num_slots

-- `AddNode` of a master with an id that no node has, and that claims only slots without an owner,
-- keeps a consistent manager consistent; the node is known and owns what it claims, every other
-- slot keeps its owner, no bit of a node changes,
-- and the node itself stays the same one.
pub add_node_lem :
    (a : ℕ) (cm : ClusterManager)
    → IsConsistent cm
    → (cm.heap a).role ≡ bytes "master"
    → lookup (node_id cm a) cm.nodes ≡ none
    → ((j : ℕ) → (cm.heap a).slots j ≡ true → cm.slot_map j ≡ none)
    → IsConsistent (add_node a cm)
      × (lookup (node_id cm a) (add_node a cm).nodes ≡ some a)
      × ((j : ℕ)
          → (add_node a cm).slot_map j
            ≡ (if ltb j num_slots && (cm.heap a).slots j then some a else cm.slot_map j))
      × ((add_node a cm).heap ≡ cm.heap)
      × ((add_node a cm).self ≡ cm.self)
add_node_lem a cm v master unknown unowned =
    let (h, s, m, o) = claimed_all-map a cm in
    subst
      (λ r.
        IsConsistent r
        × (lookup (node_id cm a) r.nodes ≡ some a)
        × ((j : ℕ)
            → r.slot_map j
              ≡ (if ltb j num_slots && (cm.heap a).slots j then some a else cm.slot_map j))
        × (r.heap ≡ cm.heap)
        × (r.self ≡ cm.self))
      (sym (add_node-master a cm master))
      (
        added-IsConsistent cm (claimed_all a cm) a v unknown unowned h s m o,
        ap (lookup (node_id cm a)) m
            ∙ lookup-insert (node_id cm a) (node_id cm a) a cm.nodes
            ∙ rw (bytes_eq_refl (node_id cm a)) refl,
        o,
        h,
        s,
      )

-- `AddNode` of a master that claims a slot of another known node gives it the slot in the map and
-- leaves the bit of the other node on, so the manager is not consistent afterwards.
pub add_node-overlap :
    (a x s : ℕ) (cm : ClusterManager)
    → IsConsistent cm
    → (cm.heap a).role ≡ bytes "master"
    → lookup (node_id cm a) cm.nodes ≡ none
    → s < num_slots
    → (cm.heap a).slots s ≡ true
    → cm.slot_map s ≡ some x
    → ((add_node a cm).slot_map s ≡ some a)
      × (((add_node a cm).heap x).slots s ≡ true)
      × (¬ IsConsistent (add_node a cm))
add_node-overlap a x s cm v master unknown h claims owned =
    let (hp, sf, m, o) = claimed_all-map a cm in
    let known = v.owners_known s x owned in
    let bit : (cm.heap x).slots s ≡ true =
      v.agree x s known h ∙ ap (is_owner x) owned ∙ ==_refl x in
    let here : (add_node a cm).slot_map s ≡ some a =
      ap (λ r. r.slot_map s) (add_node-master a cm master) ∙ o s ∙ ground (arith, h, claims) in
    let there : ((add_node a cm).heap x).slots s ≡ true =
      ap (λ r. (r.heap x).slots s) (add_node-master a cm master)
      ∙ ap (λ f. (f x).slots s) hp
      ∙ bit in
    let entry : lookup (node_id cm x) (claimed_all a cm).nodes ≡ some x =
      ap (lookup (node_id cm x)) m
      ∙ lookup-insert (node_id cm a) (node_id cm x) a cm.nodes
      ∙ rw (ids_apart cm a unknown x known) known in
    let still : IsKnown (add_node a cm) x =
      subst (λ r. IsKnown r x) (sym (add_node-master a cm master))
        (ap (λ f. lookup (f x).id (claimed_all a cm).nodes) hp ∙ entry) in
    (
      here,
      there,
      λ w.
          let differ : true ≡ (a == x) = sym there ∙ w.agree x s still h ∙ ap (is_owner x) here in
          ground (arith, differ, apart cm a unknown x known),
    )
