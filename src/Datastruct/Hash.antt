-- ===== src/Datastruct/Hash.antt =====
-- internal/datastruct/hash.go: a map of fields. Each method holds the hash's lock throughout.
use vortexkv.Prelude.{
  ℕ, ◌+◌, ◌≡◌, refl, ap, ◌∙◌, Bool, Option, Option-cases, none, some, inl, inr, List, [], ◌∷◌,
  Bytes, bytes_key, bytes_eq, bytes_eq_refl, if◌then◌else◌, arith, length,
}
use vortexkv.Prelude.Int.{ℤ, pos, add64, add64-IsInt64}
use vortexkv.Prelude.Decimal.{parse_int, print_int, parse_int-print_int}
use vortexkv.Map.{Map, lookup, insert, delete, Distinct, is_some}
use vortexkv.Map.Laws.{lookup-insert, length-insert-some, length-insert-none, Distinct-insert}

pub record Hash : Type 0 where
  pub fields : Map Bytes Bytes

unfoldable pub new_hash : Hash
new_hash = record { fields = [] }

unfoldable pub get_field : Bytes → Hash → Option Bytes
get_field f h = lookup f h.fields

unfoldable pub exists_field : Bytes → Hash → Bool
exists_field f h = is_some (lookup f h.fields)

unfoldable pub field_count : Hash → ℕ
field_count h = length h.fields

-- `Set`: 1 for a new field.
unfoldable pub set_field : Bytes → Bytes → Hash → ℕ × Hash
set_field f v h =
    (if is_some (lookup f h.fields) then 0 else 1, record h { fields = insert f v h.fields })

-- `MSet`, with the new fields in the order in which the map gives them.
unfoldable pub set_fields : Map Bytes Bytes → Hash → ℕ × Hash
unfolding set_field
set_fields [] h = (0, h)
set_fields ((f, v) ∷ kvs) h =
    let (n, h') = set_field f v h in let (added, h'') = set_fields kvs h' in (n + added, h'')

unfoldable pub delete_field : Bytes → Hash → ℕ × Hash
delete_field f h =
    if is_some (lookup f h.fields) then (1, record h { fields = delete f h.fields }) else (0, h)

unfoldable pub delete_fields : List Bytes → Hash → ℕ × Hash
unfolding delete_field
delete_fields [] h = (0, h)
delete_fields (f ∷ fs) h =
    let (n, h') = delete_field f h in let (count, h'') = delete_fields fs h' in (n + count, h'')

-- `strconv.ParseInt` of the field, 0 where there is none; none is its error.
unfoldable pub current : Option Bytes → Option ℤ
current none = some (pos 0)
current (some v) = parse_int v

unfoldable pub incr_from : Bytes → ℤ → Option ℤ → Hash → Option ℤ × Hash
incr_from f delta none h = (none, h)
incr_from f delta (some n) h =
    let sum = add64 n delta in (some sum, record h { fields = insert f (print_int sum) h.fields })

-- `IncrBy`: the sum, or none for an error.
unfoldable pub incr_field : Bytes → ℤ → Hash → Option ℤ × Hash
unfolding current incr_from
incr_field f delta h = incr_from f delta (current (lookup f h.fields)) h

set_field-count :
    (f v : Bytes) (h : Hash) → field_count h + (set_field f v h).0 ≡ field_count (set_field f v h).1
unfolding set_field field_count is_some
set_field-count f v h = elim (Option-cases (lookup f h.fields)) [
  | inl new ↦ rw new (omega (arith, length-insert-none f v h.fields new))
  | inr (w, e) ↦ rw e (omega (arith, length-insert-some f v w h.fields e))
]

-- What a lookup finds after the new fields are written: the last value of each.
abbrev pub overlaid : Map Bytes Bytes → Bytes → Option Bytes → Option Bytes
overlaid [] j old = old
overlaid ((f, v) ∷ kvs) j old = overlaid kvs j (if bytes_eq f j then some v else old)

-- `MSet` keeps the fields without doubles, answers by how many there are more, and leaves in each
-- field the last value that it was given, or what it had.
pub set_fields_lem :
    (kvs : Map Bytes Bytes) (h : Hash)
    → Distinct h.fields
    → Distinct (set_fields kvs h).1.fields
      × (field_count h + (set_fields kvs h).0 ≡ field_count (set_fields kvs h).1)
      × ((j : Bytes) → get_field j (set_fields kvs h).1 ≡ overlaid kvs j (get_field j h))
unfolding set_fields get_field
set_fields_lem [] h d = (d, omega arith, λ j. refl)
set_fields_lem ((f, v) ∷ kvs) h d =
    let after : Distinct (set_field f v h).1.fields =
      unfold set_field in Distinct-insert f v h.fields d in
    let (distinct, count, held) = set_fields_lem kvs (set_field f v h).1 after in
    let written : (j : Bytes)
        → lookup j (set_field f v h).1.fields
          ≡ (if bytes_eq f j then some v else lookup j h.fields) =
      λ j. unfold set_field in lookup-insert f j v h.fields in
    (
      distinct,
      omega (arith, count, set_field-count f v h),
      λ j. held j ∙ ap (overlaid kvs j) (written j),
    )

current-incr_from :
    (f : Bytes) (delta n : ℤ) (o : Option ℤ) (h : Hash)
    → (incr_from f delta o h).0 ≡ some n
    → current (lookup f (incr_from f delta o h).1.fields) ≡ some n
unfolding incr_from
current-incr_from f delta n none h p = absurd (ground (arith, p))
current-incr_from f delta n (some k) h p =
    let sum : ℤ = add64 k delta in
    let stored : lookup f (insert f (print_int sum) h.fields) ≡ some (print_int sum) =
      lookup-insert f f (print_int sum) h.fields ∙ rw (bytes_eq_refl f) refl in
    let read : current (some (print_int sum)) ≡ some sum =
      unfold current in parse_int-print_int sum (add64-IsInt64 k delta) in
    ap current stored ∙ read ∙ p

-- After an `IncrBy` that answers n, the field reads as n.
pub current-incr_field :
    (f : Bytes) (delta n : ℤ) (h : Hash)
    → (incr_field f delta h).0 ≡ some n
    → current (get_field f (incr_field f delta h).1) ≡ some n
unfolding incr_field get_field
current-incr_field f delta n h p = current-incr_from f delta n (current (lookup f h.fields)) h p
