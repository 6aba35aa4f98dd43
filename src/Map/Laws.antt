-- ===== src/Map/Laws.antt =====
-- The laws of a map: what a read sees after a write, and how many keys there are.
use vortexkv.Prelude.{
  ◌+◌, ◌≡◌, refl, Bool-cases, inl, inr, true, none, some, [], ◌∷◌, Eq, arith, if◌then◌else◌, length,
}
use vortexkv.Map.{Map, lookup, insert, delete, Distinct}

pub beq_refl : {K : Type 0} ⦃e : Eq K⦄ (k : K) → e.beq k k ≡ true
beq_refl ⦃e⦄ k = (e.beq_iff k k).1 refl

module _ {K V : Type 0} ⦃e : Eq K⦄ where
  pub lookup-insert :
      (k j : K) (v : V) (m : Map K V)
      → lookup j (insert k v m) ≡ (if e.beq k j then some v else lookup j m)
  unfolding lookup insert
  lookup-insert k j v [] = refl
  lookup-insert k j v ((i, w) ∷ m) =
      ground (arith, e.beq_iff k j, e.beq_iff i k, e.beq_iff i j, lookup-insert k j v m)

  pub lookup-delete :
      (k j : K) (m : Map K V) → lookup j (delete k m) ≡ (if e.beq k j then none else lookup j m)
  unfolding lookup delete
  lookup-delete k j [] = ground arith
  lookup-delete k j ((i, w) ∷ m) =
      ground (arith, e.beq_iff k j, e.beq_iff i k, e.beq_iff i j, lookup-delete k j m)

  pub length-insert-some :
      (k : K) (v w : V) (m : Map K V) → lookup k m ≡ some w → length (insert k v m) ≡ length m
  unfolding lookup insert
  length-insert-some k v w [] h = ground arith
  length-insert-some k v w ((i, u) ∷ m) h = ground (arith, length-insert-some k v w m)

  pub length-insert-none :
      (k : K) (v : V) (m : Map K V) → lookup k m ≡ none → length (insert k v m) ≡ length m + 1
  unfolding lookup insert
  length-insert-none k v [] h = ground arith
  length-insert-none k v ((i, u) ∷ m) h = ground (arith, length-insert-none k v m)

  pub delete-none : (k : K) (m : Map K V) → lookup k m ≡ none → delete k m ≡ m
  unfolding lookup delete
  delete-none k [] h = refl
  delete-none k ((i, w) ∷ m) h = ground (arith, delete-none k m)

  pub length-delete-some :
      (k : K) (w : V) (m : Map K V)
      → Distinct m
      → lookup k m ≡ some w
      → length (delete k m) + 1 ≡ length m
  unfolding lookup delete
  length-delete-some k w [] d h = ground arith
  length-delete-some k w ((i, u) ∷ m) d h =
      ground (arith, length-delete-some k w m d.1, e.beq_iff i k, delete-none k m)

  pub Distinct-insert : (k : K) (v : V) (m : Map K V) → Distinct m → Distinct (insert k v m)
  unfolding lookup insert
  Distinct-insert k v [] d = (refl, tt)
  Distinct-insert k v ((i, u) ∷ m) d = elim (Bool-cases (e.beq i k)) [
    | inl same ↦ rw same d
    | inr other ↦ rw other (
      ground (arith, lookup-insert k i v m, e.beq_iff i k, e.beq_iff k i),
      Distinct-insert k v m d.1,
    )
  ]

  pub Distinct-delete : (k : K) (m : Map K V) → Distinct m → Distinct (delete k m)
  unfolding lookup delete
  Distinct-delete k [] d = tt
  Distinct-delete k ((i, u) ∷ m) d = elim (Bool-cases (e.beq i k)) [
    | inl same ↦ rw same (Distinct-delete k m d.1)
    | inr other ↦ rw other (ground (arith, lookup-delete k i m), Distinct-delete k m d.1)
  ]
