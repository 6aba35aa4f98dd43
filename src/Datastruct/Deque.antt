-- ===== src/Datastruct/Deque.antt =====
-- internal/datastruct/list.go: a deque of strings over a slice. A method is what it does under the lock.
pub mod Ends
mod Tests
use vortexkv.Prelude.{
  ℕ, zero, suc, ◌+◌, ◌-◌, Bool, true, false, ◌&&◌, ◌||◌, Option, none, some, List, [], ◌∷◌, ◌++◌,
  Bytes, length, take, drop, ltb, leb, if◌then◌else◌,
}
use mathlib.Core.List.{reverse}
use vortexkv.Prelude.Int.{ℤ, pos, negsuc, sub_ℕ, lt_ℤ, le_ℤ}

pub record Deque : Type 0 where
  pub items : List Bytes

unfoldable pub new_deque : Deque
new_deque = record { items = [] }

-- `LPush`: the last value becomes the head.
unfoldable pub lpush : List Bytes → Deque → ℕ × Deque
lpush values l = let items = reverse values ++ l.items in (length items, record { items = items })

unfoldable pub rpush : List Bytes → Deque → ℕ × Deque
rpush values l = let items = l.items ++ values in (length items, record { items = items })

-- `make` with a negative length panics.
pub data Popped : Type 0 where
  nothing panicked : Popped
  popped : List Bytes → Popped

-- `LPop` of a number that is not above the length
unfoldable pub lpop_items : ℕ → List Bytes → Popped × Deque
lpop_items n items = (popped (take n items), record { items = drop n items })

unfoldable pub lpop_found : ℤ → List Bytes → Popped × Deque
unfolding lpop_items
lpop_found (negsuc n) items = (panicked, record { items = items })
lpop_found (pos n) items = lpop_items (if ltb (length items) n then length items else n) items

unfoldable pub lpop : ℤ → Deque → Popped × Deque
unfolding lpop_found
lpop count l = elim l.items [ [] ↦ (nothing, l) | x ∷ xs ↦ lpop_found count l.items ]

-- `RPop`, the last item first
unfoldable pub rpop_items : ℕ → List Bytes → Popped × Deque
rpop_items n items =
    (popped (take n (reverse items)), record { items = take (length items - n) items })

unfoldable pub rpop_found : ℤ → List Bytes → Popped × Deque
unfolding rpop_items
rpop_found (negsuc n) items = (panicked, record { items = items })
rpop_found (pos n) items = rpop_items (if ltb (length items) n then length items else n) items

unfoldable pub rpop : ℤ → Deque → Popped × Deque
unfolding rpop_found
rpop count l = elim l.items [ [] ↦ (nothing, l) | x ∷ xs ↦ rpop_found count l.items ]

unfoldable pub deque_len : Deque → ℕ
deque_len l = length l.items

-- An index below zero counts from the end.
unfoldable pub from_end : ℕ → ℤ → ℤ
from_end n (pos i) = pos i
from_end n (negsuc i) = sub_ℕ n (suc i)

-- `items[start : stop+1]` if the bounds allow it
unfoldable pub slice_between : List Bytes → ℤ → ℤ → List Bytes
slice_between items (pos start) (pos stop) =
    if ltb stop start || leb (length items) start
    then []
    else take (stop + 1 - start) (drop start items)
slice_between items start stop = []

abbrev pub not_below : ℤ → ℤ
not_below (pos i) = pos i
not_below (negsuc i) = pos 0

abbrev pub at_most : ℕ → ℤ → ℤ
at_most n (pos i) = if leb n i then pos (n - 1) else pos i
at_most n (negsuc i) = negsuc i

-- `Range`
unfoldable pub range_items : ℤ → ℤ → Deque → List Bytes
unfolding from_end slice_between
range_items start stop l =
    let n = length l.items in
    elim l.items [
      | [] ↦ []
      | x ∷ xs ↦ slice_between l.items (not_below (from_end n start)) (at_most n (from_end n stop))
    ]

-- An item at an index, if there is one.
unfoldable pub item_at : ℤ → List Bytes → Option Bytes
item_at (negsuc i) items = none
item_at (pos i) [] = none
item_at (pos zero) (x ∷ xs) = some x
item_at (pos (suc i)) (x ∷ xs) = item_at (pos i) xs

-- `Index`
unfoldable pub index_item : ℤ → Deque → Option Bytes
unfolding from_end item_at
index_item index l = item_at (from_end (length l.items) index) l.items
