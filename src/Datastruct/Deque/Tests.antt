-- ===== src/Datastruct/Deque/Tests.antt =====
-- A list of three, and the theorems about lists at it.
use vortexkv.Prelude.{◌+◌, ◌≡◌, if◌then◌else◌, none, [], ◌∷◌, bytes, length, arith}
use mathlib.Core.List.{reverse}
use vortexkv.Prelude.Int.{pos, negsuc, le_ℤ}
use vortexkv.Datastruct.Deque.{
  Deque, lpush, rpush, lpop, rpop, popped, from_end, range_items, item_at,
}
use vortexkv.Datastruct.Deque.Ends.{start_index, range_items_lem, pop-push}

abbrev abc : Deque
abc = record { items = bytes "a" ∷ bytes "b" ∷ bytes "c" ∷ [] }

range_items_lem_example : item_at (pos 1) (range_items (negsuc 1) (negsuc 0) abc) ≡ (
    if le_ℤ
      (pos (start_index (length abc.items) (negsuc 1) + 1))
      (from_end (length abc.items) (negsuc 0))
    then item_at (pos (start_index (length abc.items) (negsuc 1) + 1)) abc.items
    else none)
range_items_lem_example = range_items_lem (negsuc 1) (negsuc 0) abc 1

pop-push_example :
    (lpop (pos 2) (lpush (bytes "x" ∷ bytes "y" ∷ []) abc).1
      ≡ (popped (reverse (bytes "x" ∷ bytes "y" ∷ [])), abc))
    × (rpop (pos 2) (rpush (bytes "x" ∷ bytes "y" ∷ []) abc).1
        ≡ (popped (reverse (bytes "x" ∷ bytes "y" ∷ [])), abc))
pop-push_example = pop-push (bytes "x" ∷ bytes "y" ∷ []) abc (omega arith)
