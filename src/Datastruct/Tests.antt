-- ===== src/Datastruct/Tests.antt =====
-- A small set, and the theorems about sets at it.
use vortexkv.Prelude.{◌+◌, ◌≡◌, ◌||◌, [], ◌∷◌, Bytes, bytes, bytes_key, bytes_eq, refl, some}
use vortexkv.Datastruct.Hash.{Hash, new_hash, get_field, incr_field, current, current-incr_field}
use vortexkv.Prelude.Int.{pos, add64}
use vortexkv.Prelude.Decimal.{parse_int}
use vortexkv.Map.{Map, Distinct, lookup}
use vortexkv.Datastruct.Set.{Set, new_set, is_member, card, add, listed, IsValid, add_lem}

empty-IsValid : IsValid new_set
unfolding new_set
empty-IsValid = tt

abbrev pair : Set
pair = (add (bytes "x" ∷ bytes "y" ∷ bytes "x" ∷ []) new_set).1

add_lem_example :
    IsValid (add (bytes "x" ∷ bytes "y" ∷ bytes "x" ∷ []) new_set).1
    × (card new_set + (add (bytes "x" ∷ bytes "y" ∷ bytes "x" ∷ []) new_set).0
        ≡ card (add (bytes "x" ∷ bytes "y" ∷ bytes "x" ∷ []) new_set).1)
    × ((j : Bytes)
        → is_member j (add (bytes "x" ∷ bytes "y" ∷ bytes "x" ∷ []) new_set).1
          ≡ (listed (bytes "x" ∷ bytes "y" ∷ bytes "x" ∷ []) j || is_member j new_set))
add_lem_example = add_lem (bytes "x" ∷ bytes "y" ∷ bytes "x" ∷ []) new_set empty-IsValid

abbrev settings : Map Bytes Bytes
settings = (bytes "x", bytes "41") ∷ (bytes "y", bytes "v") ∷ []

no_fields : Distinct new_hash.fields
unfolding new_hash
no_fields = tt

abbrev with_number : Hash
with_number = record { fields = (bytes "x", bytes "41") ∷ [] }

incremented : (incr_field (bytes "x") (pos 1) with_number).0 ≡ some (pos 42)
unfolding incr_field lookup bytes_eq parse_int add64
incremented = refl

current-incr_field_example :
    current (get_field (bytes "x") (incr_field (bytes "x") (pos 1) with_number).1) ≡ some (pos 42)
current-incr_field_example = current-incr_field (bytes "x") (pos 1) (pos 42) with_number incremented
