-- ===== src/Datastruct/Stream/Ranges.antt =====
-- `Range`, `RevRange` and `Read` against the plain selection of the entries within bounds.
use mathlib.Core.List.{reverse}
use vortexkv.Prelude.{
  ℕ, zero, suc, ◌+◌, ◌-◌, ◌≡◌, refl, sym, ap, ap₂, ◌∙◌, Bool, Bool-cases, true, false, not, ◌&&◌,
  none, some, inl, inr, List, [], ◌∷◌, bytes, if◌then◌else◌, arith, take, take-nil,
}
use vortexkv.Prelude.Int.{ℤ, pos, negsuc}
use vortexkv.Prelude.Every.{
  All, Pairwise, Pairwise-reverse, All-reverse, All-map, keep, keep-nil, keep-reverse,
}
use vortexkv.Datastruct.Stream.Ids.{
  StreamId, IsWordId, id_string, id_string-ne, no_dash, no_plus, no_text, parse_stream_id,
  parse_stream_id-id_string, compare_stream_ids, compare_numbers, compare_stream_ids-numbers,
}
use vortexkv.Datastruct.Stream.Entries.{
  StreamEntry, Stream, before_start, after_end, is_lt, is_gt, reached, scan, range_entries,
  rev_range_entries,
}
use vortexkv.Datastruct.Stream.Ordered.{
  id_lt, Numbered, UpTo, Before, IsOrdered, compare_numbers_iff,
}

-- The first entries, as many as the count says; all, where it is not positive.
abbrev pub limited : ℤ → List StreamEntry → List StreamEntry
limited (pos zero) es = es
limited (pos (suc c)) es = take (suc c) es
limited (negsuc c) es = es

-- What is still to come, after n results.
unfoldable pub still : ℤ → ℕ → List StreamEntry → List StreamEntry
still (pos zero) n es = es
still (pos (suc c)) n es = take (suc c - n) es
still (negsuc c) n es = es

pub still-zero : (count : ℤ) (es : List StreamEntry) → still count 0 es ≡ limited count es
unfolding still
still-zero (pos zero) es = refl
still-zero (pos (suc c)) es = ap (λ k. take k es) {x = suc c - 0} {y = suc c} (omega arith)
still-zero (negsuc c) es = refl

-- One more result: the last one, or not.
pub still-last :
    (count : ℤ) (n : ℕ) (e : StreamEntry) (es : List StreamEntry)
    → reached count n ≡ false
    → reached count (n + 1) ≡ true
    → still count n (e ∷ es) ≡ e ∷ []
unfolding still reached
still-last (pos zero) n e es h k = absurd (ground (arith, k))
still-last (pos (suc c)) n e es h k =
    ap (λ j. take j (e ∷ es)) {x = suc c - n} {y = 1} (ground (arith, h, k))
still-last (negsuc c) n e es h k = absurd (ground (arith, k))

pub still-more :
    (count : ℤ) (n : ℕ) (e : StreamEntry) (es : List StreamEntry)
    → reached count n ≡ false
    → reached count (n + 1) ≡ false
    → still count n (e ∷ es) ≡ e ∷ still count (n + 1) es
unfolding still reached
still-more (pos zero) n e es h k = refl
still-more (pos (suc c)) n e es h k =
    ap (λ j. take j (e ∷ es)) {x = suc c - n} {y = suc (suc c - (n + 1))} (ground (arith, h, k))
still-more (negsuc c) n e es h k = refl

pub still-nil : (count : ℤ) (n : ℕ) → still count n [] ≡ []
unfolding still
still-nil (pos zero) n = refl
still-nil (pos (suc c)) n = take-nil (suc c - n)
still-nil (negsuc c) n = refl

pub reached-zero : (count : ℤ) → reached count 0 ≡ false
unfolding reached
reached-zero (pos c) = ground arith
reached-zero (negsuc c) = refl

-- Where an entry ends the loop, no later entry would be selected.
module _ (skip stop : StreamEntry → Bool) where
  wanted : StreamEntry → Bool
  wanted e = not (skip e) && not (stop e)

  Stops : List StreamEntry → Type 0
  Stops [] = Unit {0}
  Stops (e ∷ es) = (stop e ≡ true → keep wanted es ≡ []) × Stops es

  scan_lem :
      (count : ℤ) (n : ℕ) (es : List StreamEntry)
      → reached count n ≡ false
      → Stops es
      → scan skip stop count n es ≡ still count n (keep wanted es)
  unfolding scan keep wanted Stops
  scan_lem count n [] h t = sym (still-nil count n)
  scan_lem count n (e ∷ es) h t = elim (Bool-cases (skip e)) [
    | inl skipped ↦ rw skipped (scan_lem count n es h t.1)
    | inr kept ↦ rw kept (elim (Bool-cases (stop e)) [
      | inl over ↦ rw over (sym (ap (still count n) (t.0 over) ∙ still-nil count n))
      | inr result ↦ rw result (elim (Bool-cases (reached count (n + 1))) [
        | inl full ↦ rw full (sym (still-last count n e (keep wanted es) h full))
        | inr more ↦ rw more (
            ap (λ r. e ∷ r) (scan_lem count (n + 1) es more t.1)
            ∙ sym (still-more count n e (keep wanted es) h more))
      ])
    ])
  ]

module _ {A : Type 0} (p q : A → Bool) where
  pub keep_eq : (xs : List A) → All (λ x. p x ≡ q x) xs → keep p xs ≡ keep q xs
  unfolding keep
  keep_eq [] h = refl
  keep_eq (x ∷ xs) h = rw h.0 (ap (λ r. if q x then x ∷ r else r) (keep_eq xs h.1))

is_lt-compare_numbers : (i a : StreamId) → is_lt (compare_numbers i a) ≡ id_lt i a
unfolding compare_numbers
is_lt-compare_numbers i a = ground arith

pub is_gt-compare_numbers : (i a : StreamId) → is_gt (compare_numbers i a) ≡ id_lt a i
unfolding compare_numbers
is_gt-compare_numbers i a = ground arith

pub Before-lt :
    (e e' : StreamEntry) (i i' : StreamId)
    → Numbered e i
    → Numbered e' i'
    → Before e e'
    → id_lt i i' ≡ true
Before-lt e e' i i' n n' h =
    compare_numbers_iff i i'
      (sym (compare_stream_ids-numbers i i' n.1 n'.1) ∙ sym (ap₂ compare_stream_ids n.0 n'.0) ∙ h)

-- The numbers of the entry's id lie within bounds.
abbrev pub within : StreamId → StreamId → StreamEntry → Bool
within a b e = elim (parse_stream_id e.id) [
  | none ↦ false
  | some i ↦ not (id_lt i a) && not (id_lt b i)
]

module _ (a b : StreamId) (wa : IsWordId a) (wb : IsWordId b) where
  below : StreamEntry → Bool
  below e = before_start (id_string a) e.id

  above : StreamEntry → Bool
  above e = after_end (id_string b) e.id

  below_lem : (e : StreamEntry) (i : StreamId) → Numbered e i → below e ≡ id_lt i a
  unfolding below before_start
  below_lem e i n =
      rw (id_string-ne a (bytes "-") wa no_dash, id_string-ne a [] wa no_text)
        (ap is_lt (
            ap (λ t. compare_stream_ids t (id_string a)) n.0
            ∙ compare_stream_ids-numbers i a n.1 wa)
          ∙ is_lt-compare_numbers i a)

  above_lem : (e : StreamEntry) (i : StreamId) → Numbered e i → above e ≡ id_lt b i
  unfolding above after_end
  above_lem e i n =
      rw (id_string-ne b (bytes "+") wb no_plus, id_string-ne b [] wb no_text)
        (ap is_gt (
            ap (λ t. compare_stream_ids t (id_string b)) n.0
            ∙ compare_stream_ids-numbers i b n.1 wb)
          ∙ is_gt-compare_numbers i b)

  within_lem :
      (e : StreamEntry) (i : StreamId)
      → Numbered e i
      → within a b e ≡ (not (id_lt i a) && not (id_lt b i))
  within_lem e i n = rw (ap parse_stream_id n.0 ∙ parse_stream_id-id_string i n.1, within) refl

  past_end :
      (last i : StreamId) (e : StreamEntry) (es : List StreamEntry)
      → Numbered e i
      → id_lt b i ≡ true
      → All (UpTo last) es
      → All (Before e) es
      → All (λ e'. wanted below above e' ≡ false) es
  unfolding wanted
  past_end last i e [] n h us bs = tt
  past_end last i e (e' ∷ es) n h ((i', n', _), us) (before, bs) = (
    ground (arith, above_lem e' i' n', Before-lt e e' i i' n n' before, h),
    past_end last i e es n h us bs,
  )

  past_start :
      (last i : StreamId) (e : StreamEntry) (es : List StreamEntry)
      → Numbered e i
      → id_lt i a ≡ true
      → All (UpTo last) es
      → All (λ e'. Before e' e) es
      → All (λ e'. wanted above below e' ≡ false) es
  unfolding wanted
  past_start last i e [] n h us bs = tt
  past_start last i e (e' ∷ es) n h ((i', n', _), us) (before, bs) = (
    ground (arith, below_lem e' i' n', Before-lt e' e i' i n' n before, h),
    past_start last i e es n h us bs,
  )

  forward-Stops :
      (last : StreamId) (es : List StreamEntry)
      → All (UpTo last) es
      → Pairwise Before es
      → Stops below above es
  unfolding Stops
  forward-Stops last [] us bs = tt
  forward-Stops last (e ∷ es) ((i, n, _), us) (first, bs) = (
    λ over.
        keep-nil (wanted below above) es
          (past_end last i e es n (sym (above_lem e i n) ∙ over) us first),
    forward-Stops last es us bs,
  )

  backward-Stops :
      (last : StreamId) (es : List StreamEntry)
      → All (UpTo last) es
      → Pairwise (λ e e'. Before e' e) es
      → Stops above below es
  unfolding Stops
  backward-Stops last [] us bs = tt
  backward-Stops last (e ∷ es) ((i, n, _), us) (first, bs) = (
    λ over.
        keep-nil (wanted above below) es
          (past_start last i e es n (sym (below_lem e i n) ∙ over) us first),
    backward-Stops last es us bs,
  )

  wanted-within :
      (last : StreamId) (e : StreamEntry)
      → UpTo last e
      → (wanted below above e ≡ within a b e) × (wanted above below e ≡ within a b e)
  unfolding wanted
  wanted-within last e (i, n, _) =
      ground (arith, below_lem e i n, above_lem e i n, within_lem e i n)

-- On an ordered stream, `Range` between two ids of 64-bit numbers gives the entries whose numbers lie
-- between theirs, both included, in the stream's order, at most `count` of them if that is positive.
pub range_entries_lem :
    (a b : StreamId) (count : ℤ) (s : Stream)
    → IsWordId a
    → IsWordId b
    → IsOrdered s
    → range_entries (id_string a) (id_string b) count s
      ≡ limited count (keep (within a b) s.entries)
unfolding range_entries below above
range_entries_lem a b count s wa wb v =
    scan_lem (below a b wa wb) (above a b wa wb) count 0 s.entries (reached-zero count)
      (forward-Stops a b wa wb s.last_id s.entries v.numbered v.ascending)
    ∙ still-zero count _
    ∙ ap (limited count) (
        keep_eq (wanted (below a b wa wb) (above a b wa wb)) (within a b) s.entries (
          All-map (UpTo s.last_id) _ (λ e u. (wanted-within a b wa wb s.last_id e u).0) s.entries
            v.numbered))

-- On an ordered stream, `RevRange` between two ids of 64-bit numbers gives the entries whose numbers
-- lie between theirs, both included, the newest first, at most `count` of them if that is positive.
pub rev_range_entries_lem :
    (a b : StreamId) (count : ℤ) (s : Stream)
    → IsWordId a
    → IsWordId b
    → IsOrdered s
    → rev_range_entries (id_string b) (id_string a) count s
      ≡ limited count (reverse (keep (within a b) s.entries))
unfolding rev_range_entries below above
rev_range_entries_lem a b count s wa wb v =
    let numbered : All (UpTo s.last_id) (reverse s.entries) =
      All-reverse (UpTo s.last_id) s.entries v.numbered in
    scan_lem (above a b wa wb) (below a b wa wb) count 0 (reverse s.entries) (reached-zero count) (
      backward-Stops a b wa wb s.last_id (reverse s.entries) numbered
        (Pairwise-reverse Before s.entries v.ascending))
    ∙ still-zero count _
    ∙ ap (limited count) (
        keep_eq (wanted (above a b wa wb) (below a b wa wb)) (within a b) (reverse s.entries) (
          All-map (UpTo s.last_id) _ (λ e u. (wanted-within a b wa wb s.last_id e u).1)
            (reverse s.entries) numbered)
        ∙ keep-reverse (within a b) s.entries)
