-- ===== src/Datastruct/Set.antt =====
-- internal/datastruct/set.go: a set of strings. Each method holds the set's lock throughout.
use vortexkv.Prelude.{
  ℕ, ◌+◌, ◌≡◌, refl, ◌∙◌, subst, bytes_eq_iff, Bool, Bool-cases, true, false, ◌||◌, Option-cases,
  inl, inr, List, [], ◌∷◌, Bytes, bytes_key, bytes_eq, if◌then◌else◌, arith, length, not, ◌&&◌,
}
use vortexkv.Map.{Map, lookup, insert, delete, Distinct, is_some}
use vortexkv.Map.Laws.{
  lookup-insert, lookup-delete, length-insert-none, length-delete-some, Distinct-insert,
  Distinct-delete,
}

pub record Set : Type 0 where
  pub members : Map Bytes (Unit {0})

unfoldable pub new_set : Set
new_set = record { members = [] }

unfoldable pub is_member : Bytes → Set → Bool
is_member m s = is_some (lookup m s.members)

unfoldable pub card : Set → ℕ
card s = length s.members

unfoldable pub add_member : Bytes → Set → ℕ × Set
unfolding is_member
add_member m s = if is_member m s then (0, s) else (1, record s { members = insert m tt s.members })

-- `Add`: how many are new, and the set.
unfoldable pub add : List Bytes → Set → ℕ × Set
unfolding add_member
add [] s = (0, s)
add (m ∷ ms) s = let (n, s') = add_member m s in let (added, s'') = add ms s' in (n + added, s'')

unfoldable pub rem_member : Bytes → Set → ℕ × Set
unfolding is_member
rem_member m s = if is_member m s then (1, record s { members = delete m s.members }) else (0, s)

-- `Rem`: how many were there, and the set.
unfoldable pub rem : List Bytes → Set → ℕ × Set
unfolding rem_member
rem [] s = (0, s)
rem (m ∷ ms) s =
    let (n, s') = rem_member m s in let (removed, s'') = rem ms s' in (n + removed, s'')

-- The member is in the list.
abbrev pub listed : List Bytes → Bytes → Bool
listed [] j = false
listed (m ∷ ms) j = bytes_eq m j || listed ms j

-- No member stands twice, as in every Go map.
abbrev pub IsValid : Set → Type 0
IsValid s = Distinct s.members

add_member_lem :
    (m : Bytes) (s : Set)
    → IsValid s
    → IsValid (add_member m s).1
      × (card s + (add_member m s).0 ≡ card (add_member m s).1)
      × ((j : Bytes) → is_member j (add_member m s).1 ≡ (bytes_eq m j || is_member j s))
unfolding add_member is_member card is_some
add_member_lem m s v = elim (Option-cases (lookup m s.members)) [
  | inl free ↦ rw free (
    Distinct-insert m tt s.members v,
    omega (arith, length-insert-none m tt s.members free),
    λ j. ground (arith, lookup-insert m j tt s.members),
  )
  | inr (u, e) ↦ rw e (
    v,
    omega arith,
    λ j. elim (Bool-cases (bytes_eq m j)) [
      | inl same ↦
          rw same (
            subst (λ k. is_some (lookup k s.members) ≡ true) ((bytes_eq_iff m j).0 same)
              (rw e refl))
      | inr other ↦ rw other refl
    ],
  )
]

rem_member_lem :
    (m : Bytes) (s : Set)
    → IsValid s
    → IsValid (rem_member m s).1
      × (card (rem_member m s).1 + (rem_member m s).0 ≡ card s)
      × ((j : Bytes) → is_member j (rem_member m s).1 ≡ (not (bytes_eq m j) && is_member j s))
unfolding rem_member is_member card is_some
rem_member_lem m s v = elim (Option-cases (lookup m s.members)) [
  | inl free ↦ rw free (
    v,
    omega arith,
    λ j. elim (Bool-cases (bytes_eq m j)) [
      | inl same ↦ rw same (
          subst (λ k. is_some (lookup k s.members) ≡ false) ((bytes_eq_iff m j).0 same)
            (rw free refl))
      | inr other ↦ rw other refl
    ],
  )
  | inr (u, e) ↦ rw e (
    Distinct-delete m s.members v,
    omega (arith, length-delete-some m u s.members v e),
    λ j. ground (arith, lookup-delete m j s.members),
  )
]

-- `Add` on a valid set keeps it valid, answers by how many members it grew, and leaves in it what
-- was there and what is listed.
pub add_lem :
    (ms : List Bytes) (s : Set)
    → IsValid s
    → IsValid (add ms s).1
      × (card s + (add ms s).0 ≡ card (add ms s).1)
      × ((j : Bytes) → is_member j (add ms s).1 ≡ (listed ms j || is_member j s))
unfolding add
add_lem [] s v = (v, omega arith, λ j. refl)
add_lem (m ∷ ms) s v =
    let (valid, grown, there) = add_member_lem m s v in
    let (valid', grown', there') = add_lem ms (add_member m s).1 valid in
    (valid', omega (arith, grown, grown'), λ j. there' j ∙ ground (arith, there j))

-- `Rem` on a valid set keeps it valid, answers by how many members it shrank, and leaves in it what
-- was there and is not listed.
pub rem_lem :
    (ms : List Bytes) (s : Set)
    → IsValid s
    → IsValid (rem ms s).1
      × (card (rem ms s).1 + (rem ms s).0 ≡ card s)
      × ((j : Bytes) → is_member j (rem ms s).1 ≡ (not (listed ms j) && is_member j s))
unfolding rem
rem_lem [] s v = (v, omega arith, λ j. refl)
rem_lem (m ∷ ms) s v =
    let (valid, shrunk, there) = rem_member_lem m s v in
    let (valid', shrunk', there') = rem_lem ms (rem_member m s).1 valid in
    (valid', omega (arith, shrunk, shrunk'), λ j. there' j ∙ ground (arith, there j))
