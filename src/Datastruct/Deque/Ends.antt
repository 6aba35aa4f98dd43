-- ===== src/Datastruct/Deque/Ends.antt =====
-- Pushes and pops at both ends, and ranges.
use vortexkv.Prelude.{
  ℕ, zero, suc, ◌+◌, ◌-◌, ◌≤◌, ◌<◌, ◌≡◌, ◌∙◌, refl, sym, ap, ap₂, inl, inr, Bool, true, false, ◌||◌,
  Option, none, List, [], ◌∷◌, ◌++◌, Bytes, length, take, drop, ltb, leb, if◌then◌else◌, arith,
  Bool-cases, length-append, take-append_length, drop-append_length,
}
use mathlib.Core.List.{reverse, reverse-cons, reverse-append}
use vortexkv.Prelude.Int.{ℤ, pos, negsuc, le_ℤ}
use vortexkv.Datastruct.Deque.{
  Deque, lpush, rpush, popped, lpop_items, lpop_found, lpop, rpop_items, rpop_found, rpop, from_end,
  slice_between, not_below, at_most, range_items, item_at,
}

item_at-none : (i : ℕ) (xs : List Bytes) → length xs ≤ i → item_at (pos i) xs ≡ none
unfolding item_at
item_at-none i [] h = refl
item_at-none zero (x ∷ xs) h = absurd (omega (arith, h))
item_at-none (suc i) (x ∷ xs) h = item_at-none i xs (omega (arith, h))

item_at-drop : (n i : ℕ) (xs : List Bytes) → item_at (pos i) (drop n xs) ≡ item_at (pos (n + i)) xs
unfolding item_at
item_at-drop zero i xs = ap (λ k. item_at (pos k) xs) {x = i} {y = 0 + i} (omega arith)
item_at-drop (suc n) i [] = refl
item_at-drop (suc n) i (x ∷ xs) =
    item_at-drop n i xs
    ∙ ap (λ k. item_at (pos k) (x ∷ xs)) {x = suc (n + i)} {y = suc n + i} (omega arith)

item_at-take :
    (n i : ℕ) (xs : List Bytes)
    → item_at (pos i) (take n xs) ≡ (if ltb i n then item_at (pos i) xs else none)
unfolding item_at
item_at-take zero i xs = ground arith
item_at-take (suc n) i [] = ground arith
item_at-take (suc n) zero (x ∷ xs) = ground arith
item_at-take (suc n) (suc i) (x ∷ xs) =
    item_at-take n i xs
    ∙ ap (λ b. if b then item_at (pos i) xs else none) {x = ltb i n} {y = ltb (suc i) (suc n)}
        (ground arith)

-- Between two bounds, the items of the slice are those of the list.
item_at-slice_between :
    (xs : List Bytes) (a b i : ℕ)
    → item_at (pos i) (slice_between xs (pos a) (pos b))
      ≡ (if leb (a + i) b then item_at (pos (a + i)) xs else none)
item_at-slice_between xs a b i = elim (Bool-cases (ltb b a || leb (length xs) a)) [
  | inl out ↦
      let no_item : item_at (pos i) [] ≡ none = unfold item_at in refl in
      let empty : slice_between xs (pos a) (pos b) ≡ [] = unfold slice_between in rw out refl in
      ap (item_at (pos i)) empty ∙ elim (Bool-cases (leb (a + i) b)) [
        | inl within ↦
            rw within (no_item ∙ sym (item_at-none (a + i) xs (ground (arith, out, within))))
        | inr beyond ↦ rw beyond no_item
      ]
  | inr inside ↦
      let cut : slice_between xs (pos a) (pos b) ≡ take (b + 1 - a) (drop a xs) =
        unfold slice_between in rw inside refl in
      ap (item_at (pos i)) cut
      ∙ item_at-take (b + 1 - a) i (drop a xs)
      ∙ ap₂ (λ c o. if c then o else none) {x = ltb i (b + 1 - a)} {y = leb (a + i) b}
          (ground (arith, inside)) (item_at-drop a i xs)
]

-- The index of an item by the start of a range.
abbrev pub start_index : ℕ → ℤ → ℕ
start_index n (pos i) = i
start_index n (negsuc i) = n - suc i

not_below-from_end : (n : ℕ) (z : ℤ) → not_below (from_end n z) ≡ pos (start_index n z)
unfolding from_end
not_below-from_end n (pos i) = refl
not_below-from_end n (negsuc i) = elim (Bool-cases (leb (suc i) n)) [
  | inl enough ↦ rw enough refl
  | inr short ↦ rw short (ap pos {x = 0} {y = n - suc i} (ground (arith, short)))
]

-- A bound behind the last item is as good as the last item.
clipped :
    (k b : ℕ) (xs : List Bytes)
    → length xs ≤ b
    → 0 < length xs
    → (if leb k (length xs - 1) then item_at (pos k) xs else none)
      ≡ (if le_ℤ (pos k) (pos b) then item_at (pos k) xs else none)
clipped k b xs h some_item = elim (Bool-cases (leb (length xs) k)) [
  | inl behind ↦
      let gone : item_at (pos k) xs ≡ none = item_at-none k xs (ground (arith, behind)) in
      rw gone (ground arith)
  | inr inside ↦
      let first : leb k (length xs - 1) ≡ true = ground (arith, inside) in
      let second : le_ℤ (pos k) (pos b) ≡ true = ground (arith, inside, h) in
      ap (λ c. if c then item_at (pos k) xs else none) (first ∙ sym second)
]

item_at-clipped :
    (x : Bytes) (xs : List Bytes) (a i : ℕ) (z : ℤ)
    → item_at (pos i) (slice_between (x ∷ xs) (pos a) (at_most (length (x ∷ xs)) z))
      ≡ (if le_ℤ (pos (a + i)) z then item_at (pos (a + i)) (x ∷ xs) else none)
item_at-clipped x xs a i (negsuc b) =
    let k : ℕ = a + i in
    let below : le_ℤ (pos k) (negsuc b) ≡ false = ground arith in
    rw below (unfold slice_between item_at in refl)
item_at-clipped x xs a i (pos b) = elim (Bool-cases (leb (length (x ∷ xs)) b)) [
  | inl long ↦
      let e : at_most (length (x ∷ xs)) (pos b) ≡ pos (length (x ∷ xs) - 1) = rw long refl in
      ap (λ z. item_at (pos i) (slice_between (x ∷ xs) (pos a) z)) e
      ∙ item_at-slice_between (x ∷ xs) a (length (x ∷ xs) - 1) i
      ∙ clipped (a + i) b (x ∷ xs) (ground (arith, long)) (omega arith)
  | inr short ↦
      let e : at_most (length (x ∷ xs)) (pos b) ≡ pos b = rw short refl in
      ap (λ z. item_at (pos i) (slice_between (x ∷ xs) (pos a) z)) e
      ∙ item_at-slice_between (x ∷ xs) a b i
      ∙ (ground arith)
]

items_at :
    (start stop : ℤ) (i : ℕ) (items : List Bytes)
    → item_at (pos i) (range_items start stop (record { items = items })) ≡ (
        if le_ℤ (pos (start_index (length items) start + i)) (from_end (length items) stop)
        then item_at (pos (start_index (length items) start + i)) items
        else none)
items_at start stop i [] =
    let k : ℕ = start_index 0 start + i in
    let empty : item_at (pos i) (range_items start stop (record { items = [] })) ≡ none =
      unfold range_items item_at in refl in
    let gone : item_at (pos k) [] ≡ none = item_at-none k [] (omega arith) in
    empty
    ∙ sym (
        ap (λ o. if le_ℤ (pos k) (from_end 0 stop) then o else none) gone
        ∙ if-same (le_ℤ (pos k) (from_end 0 stop)) none)
  where
    if-same : (b : Bool) (o : Option Bytes) → (if b then o else o) ≡ o
    if-same true o = refl
    if-same false o = refl
items_at start stop i (x ∷ xs) =
    let n : ℕ = length (x ∷ xs) in
    let slice : range_items start stop (record { items = x ∷ xs })
        ≡ slice_between (x ∷ xs) (not_below (from_end n start)) (at_most n (from_end n stop)) =
      unfold range_items in refl in
    ap (item_at (pos i)) slice
    ∙ ap (λ z. item_at (pos i) (slice_between (x ∷ xs) z (at_most n (from_end n stop))))
        (not_below-from_end n start)
    ∙ item_at-clipped x xs (start_index n start) i (from_end n stop)

-- `Range` gives the items one after the other, from the start, where an index below zero counts from
-- the end and stops at the first item, as long as the index is not above the stop and there are items.
pub range_items_lem :
    (start stop : ℤ) (l : Deque) (i : ℕ)
    → item_at (pos i) (range_items start stop l) ≡ (
        if le_ℤ (pos (start_index (length l.items) start + i)) (from_end (length l.items) stop)
        then item_at (pos (start_index (length l.items) start + i)) l.items
        else none)
range_items_lem start stop l i = items_at start stop i l.items

length-reverse : (xs : List Bytes) → length (reverse xs) ≡ length xs
length-reverse [] = refl
length-reverse (x ∷ xs) =
    ap length (reverse-cons x xs)
    ∙ (omega (arith, length-append (reverse xs) (x ∷ []), length-reverse xs))

lpop-cons :
    (n : ℕ) (x : Bytes) (xs : List Bytes)
    → n ≤ length (x ∷ xs)
    → lpop (pos n) (record { items = x ∷ xs })
      ≡ (popped (take n (x ∷ xs)), record { items = drop n (x ∷ xs) })
lpop-cons n x xs h =
    let fits : ltb (length (x ∷ xs)) n ≡ false = ground (arith, h) in
    unfold lpop lpop_found lpop_items in rw fits refl

rpop-cons :
    (n : ℕ) (x : Bytes) (xs : List Bytes)
    → n ≤ length (x ∷ xs)
    → rpop (pos n) (record { items = x ∷ xs })
      ≡ (popped (take n (reverse (x ∷ xs))), record { items = take (length (x ∷ xs) - n) (x ∷ xs) })
rpop-cons n x xs h =
    let fits : ltb (length (x ∷ xs)) n ≡ false = ground (arith, h) in
    unfold rpop rpop_found rpop_items in rw fits refl

lpop-within :
    (n : ℕ) (items : List Bytes)
    → 0 < length items
    → n ≤ length items
    → lpop (pos n) (record { items = items })
      ≡ (popped (take n items), record { items = drop n items })
lpop-within n [] h k = absurd (omega (arith, h))
lpop-within n (x ∷ xs) h k = lpop-cons n x xs k

rpop-within :
    (n : ℕ) (items : List Bytes)
    → 0 < length items
    → n ≤ length items
    → rpop (pos n) (record { items = items })
      ≡ (popped (take n (reverse items)), record { items = take (length items - n) items })
rpop-within n [] h k = absurd (omega (arith, h))
rpop-within n (x ∷ xs) h k = rpop-cons n x xs k

-- `LPop` of as many items as `LPush` has just put there, at least one, gives them back, the last one
-- first, and leaves the list as it was; and so does `RPop` after `RPush`.
pub pop-push :
    (vs : List Bytes) (l : Deque)
    → 0 < length vs
    → (lpop (pos (length vs)) (lpush vs l).1 ≡ (popped (reverse vs), l))
      × (rpop (pos (length vs)) (rpush vs l).1 ≡ (popped (reverse vs), l))
pop-push vs l h =
    let left : List Bytes = reverse vs ++ l.items in
    let right : List Bytes = l.items ++ vs in
    let size : length (reverse vs) ≡ length vs = length-reverse vs in
    let left_size : length left ≡ length (reverse vs) + length l.items =
      length-append (reverse vs) l.items in
    let right_size : length right ≡ length l.items + length vs = length-append l.items vs in
    let mirrored : reverse right ≡ reverse vs ++ reverse l.items = reverse-append l.items vs in
    (
      (unfold lpush in
          lpop-within (length vs) left (omega (arith, h, left_size, size))
            (omega (arith, left_size, size))
          ∙ ap₂ (λ a b. (popped a, record { items = b }))
              (ap (λ k. take k left) (sym size) ∙ take-append_length (reverse vs) l.items)
              (ap (λ k. drop k left) (sym size) ∙ drop-append_length (reverse vs) l.items)),
      (unfold rpush in
          rpop-within (length vs) right (omega (arith, h, right_size)) (omega (arith, right_size))
          ∙ ap₂ (λ a b. (popped a, record { items = b }))
              (ap (take (length vs)) mirrored
                ∙ ap (λ k. take k (reverse vs ++ reverse l.items)) (sym size)
                ∙ take-append_length (reverse vs) (reverse l.items))
              (ap (λ k. take k right) {x = length right - length vs} {y = length l.items}
                  (omega (arith, right_size))
                ∙ take-append_length l.items vs)),
    )
