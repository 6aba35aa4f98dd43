-- ===== src/Datastruct/Stream/Deliveries.antt =====
-- `ReadGroup` of new entries: what is delivered, and that the pending lists still agree.
use Prim.Native.Nat.Ordering.{lt, eq}
use vortexkv.Prelude.{
  ℕ, ◌+◌, ◌≡◌, ◌≢◌, refl, sym, ap, ap₂, subst, ◌∙◌, Bool, Bool-cases, true, false, not, ◌&&◌, ◌||◌,
  Option, none, some, inl, inr, List, [], ◌∷◌, Bytes, bytes, bytes_key, bytes_eq, bytes_eq_iff,
  bytes_eq_refl, bytes_eq_ne, length, if◌then◌else◌, arith,
}
use vortexkv.Prelude.Int.{ℤ}
use vortexkv.Prelude.Every.{All, Pairwise, All-map, keep}
use vortexkv.Map.{Map, lookup, is_some}
use vortexkv.Map.Laws.{lookup-insert}
use vortexkv.Datastruct.Stream.Ids.{
  StreamId, IsWordId, id_string, parse_stream_id, parse_stream_id-id_string, compare_stream_ids,
  compare_stream_ids-numbers,
}
use vortexkv.Datastruct.Stream.Entries.{
  StreamEntry, Consumer, ConsumerGroup, Stream, is_gt, reached,
}
use vortexkv.Datastruct.Stream.Ordered.{id_lt, Numbered, UpTo, Before, IsOrdered}
use vortexkv.Datastruct.Stream.Ranges.{
  limited, still, still-zero, still-last, still-more, still-nil, reached-zero, keep_eq,
  is_gt-compare_numbers, Before-lt,
}
use vortexkv.Datastruct.Stream.Groups.{
  pending_at, Reading, make_pending, deliver, read_new, group_of, reading, consumer_or_new, stored,
  read_found, read_group,
}
use vortexkv.Datastruct.Stream.Pending.{held_in, held, owed, IsAgreed}
use vortexkv.Datastruct.Stream.Writes.{
  Agreed, group_of-held, made, made-owed, deliver-Agreed, deliver-pel, deliver-last,
}

-- The numbers of the entry's id are above a position.
abbrev pub after : StreamId → StreamEntry → Bool
after l e = elim (parse_stream_id e.id) [ none ↦ false | some i ↦ id_lt l i ]

abbrev pub has_id : Bytes → List StreamEntry → Bool
has_id id [] = false
has_id id (e ∷ es) = bytes_eq e.id id || has_id id es

-- No entry above the position is pending.
abbrev pub Unread : StreamId → Map Bytes ℕ → List StreamEntry → Type 0
Unread l pel es = All (λ e. after l e ≡ true → lookup e.id pel ≡ none) es

-- What a read of new entries after `l` must have done.
abbrev pub Delivered :
    Bool → StreamId → List StreamEntry → Reading → List StreamEntry × Reading → Type 0
Delivered no_ack l results r (got, r') =
    (got ≡ results)
    × Agreed r'
    × ((j : Bytes)
        → is_some (lookup j r'.group.pel)
          ≡ (is_some (lookup j r.group.pel) || (not no_ack && has_id j results)))

none_of_is_some : (o : Option ℕ) → is_some o ≡ false → o ≡ none
unfolding is_some
none_of_is_some none h = refl
none_of_is_some (some p) h = absurd (ground (arith, h))

Before-ne : (e e' : StreamEntry) → Before e e' → bytes_eq e.id e'.id ≡ false
Before-ne e e' before = bytes_eq_ne e.id e'.id λ same.
    let self : compare_stream_ids e'.id e'.id ≡ eq =
      unfold compare_stream_ids in rw (bytes_eq_refl e'.id) refl in
    let clash : eq ≡ lt = sym self ∙ ap (λ t. compare_stream_ids t e'.id) (sym same) ∙ before in
    absurd (ground (arith, clash))

module _ (last l : StreamId) (wl : IsWordId l) where
  after_lem : (e : StreamEntry) (i : StreamId) → Numbered e i → after l e ≡ id_lt l i
  after_lem e i n = rw (ap parse_stream_id n.0 ∙ parse_stream_id-id_string i n.1, after) refl

  is_new :
      (e : StreamEntry) (i : StreamId) (r : Reading)
      → Numbered e i
      → r.group.last_delivered_id ≡ id_string l
      → is_gt (compare_stream_ids e.id r.group.last_delivered_id) ≡ after l e
  is_new e i r n at =
      ap is_gt (ap₂ compare_stream_ids n.0 at ∙ compare_stream_ids-numbers i l n.1 wl)
      ∙ is_gt-compare_numbers i l
      ∙ sym (after_lem e i n)

  -- Behind a new entry, all are new, also from there on.
  later_after :
      (i : StreamId) (e : StreamEntry) (es : List StreamEntry)
      → Numbered e i
      → id_lt l i ≡ true
      → All (UpTo last) es
      → All (Before e) es
      → All (λ e'. (after l e' ≡ true) × (after i e' ≡ true)) es
  later_after i e [] n h us bs = tt
  later_after i e (e' ∷ es) n h ((i', n', _), us) (before, bs) =
      let rises = Before-lt e e' i i' n n' before in
      (
        (
          after_lem e' i' n' ∙ ground (arith, rises, h),
          rw (ap parse_stream_id n'.0 ∙ parse_stream_id-id_string i' n'.1, after) rises,
        ),
        later_after i e es n h us bs,
      )

-- What is unread stays unread, but for the entry that is delivered.
module _ (now : ℤ) (no_ack : Bool) (l i : StreamId) (e : StreamEntry) (r : Reading) where
  later-Unread :
      (es : List StreamEntry)
      → All (λ e'. (after l e' ≡ true) × (after i e' ≡ true)) es
      → All (Before e) es
      → Unread l r.group.pel es
      → Unread i (deliver now no_ack e.id r).group.pel es
  later-Unread [] rest bs us = tt
  later-Unread (e' ∷ es) (a, rest) (b, bs) (u, us) = (
    λ _. none_of_is_some (lookup e'.id (deliver now no_ack e.id r).group.pel) (
        deliver-pel now no_ack e.id r e'.id
        ∙ (unfold is_some in rw (u a.0, Before-ne e e' b) (ground arith))),
    later-Unread es rest bs us,
  )

module _ (now : ℤ) (no_ack : Bool) (count : ℤ) (last : StreamId) where
  read_new_lem :
      (n : ℕ) (l : StreamId) (es : List StreamEntry) (r : Reading)
      → IsWordId l
      → All (UpTo last) es
      → Pairwise Before es
      → Agreed r
      → r.group.last_delivered_id ≡ id_string l
      → Unread l r.group.pel es
      → reached count n ≡ false
      → Delivered no_ack l (still count n (keep (after l) es)) r (read_new now no_ack count n es r)
  unfolding read_new keep
  read_new_lem n l [] r w us bs v at un more =
      (sym (still-nil count n), v, λ j. rw (still-nil count n) (ground arith))
  read_new_lem n l (e ∷ es) r w ((i, m, _), us) (first, bs) v at (u, un) more =
      elim (Bool-cases (after l e)) [
        | inr old ↦
            rw (is_new last l w e i r m at ∙ old, old) (read_new_lem n l es r w us bs v at un more)
        | inl new ↦
            let r' : Reading = deliver now no_ack e.id r in
            let v' = deliver-Agreed now no_ack e.id r v (u new) in
            let above =
              later_after last l w i e es m (sym (after_lem last l w e i m) ∙ new) us first in
            let same : keep (after l) es ≡ keep (after i) es =
              keep_eq (after l) (after i) es
                (All-map _ (λ e'. after l e' ≡ after i e') (λ e' h. h.0 ∙ sym h.1) es above) in
            rw (is_new last l w e i r m at ∙ new, new)
              (elim (Bool-cases (reached count (n + 1))) [
                | inl full ↦
                    rw (full, still-last count n e (keep (after l) es) more full)
                      (refl, v', λ j. deliver-pel now no_ack e.id r j ∙ ground arith)
                | inr less ↦
                    let (got, agreed, pel) =
                      read_new_lem (n + 1) i es r' m.1 us bs v'
                        (deliver-last now no_ack e.id r ∙ m.0)
                        (later-Unread now no_ack l i e r es above first un) less in
                    rw (less, still-more count n e (keep (after l) es) more less, same)
                      (
                        ap (λ t. e ∷ t) got,
                        agreed,
                        λ j. pel j ∙ ground (arith, deliver-pel now no_ack e.id r j),
                      )
              ])
      ]

reading-pel :
    (now : ℤ) (consumer : Bytes) (o : Option Consumer) (j : Bytes)
    → lookup j (consumer_or_new now consumer o).pel ≡ held_in j o
unfolding consumer_or_new lookup
reading-pel now consumer none j = refl
reading-pel now consumer (some c) j = refl

reading-Agreed :
    (now : ℤ) (consumer : Bytes) (g : ConsumerGroup) (s : Stream)
    → IsAgreed s.heap g
    → Agreed (reading now consumer g s)
unfolding reading group_of
reading-Agreed now consumer g s v = record {
  agree = λ n j.
      group_of-held (reading now consumer g s) n j
      ∙ ap (λ o. if bytes_eq consumer n then o else held g n j)
          (reading-pel now consumer (lookup consumer g.consumers) j)
      ∙ same n j
      ∙ v.agree n j;
  allocated = v.allocated;
  distinct = v.distinct;
}
  where
    same :
        (n j : Bytes) → (if bytes_eq consumer n then held g consumer j else held g n j) ≡ held g n j
    same n j = elim (Bool-cases (bytes_eq consumer n)) [
      | inl hit ↦ rw hit (ap (λ k. held g k j) ((bytes_eq_iff consumer n).0 hit))
      | inr miss ↦ rw miss refl
    ]

-- `ReadGroup` of new entries, on an ordered stream with a group whose lists agree, whose position is
-- a 64-bit id and for which no later entry is pending, gives the entries after the position, at most
-- `count` of them if that is positive; the lists still agree, and exactly what was given, unless it
-- needs no acknowledgement, is pending now beside what was.
pub read_group_lem :
    (now : ℤ) (group consumer : Bytes) (count : ℤ) (no_ack : Bool) (s : Stream) (g : ConsumerGroup)
    (l : StreamId)
    → IsOrdered s
    → lookup group s.groups ≡ some g
    → IsAgreed s.heap g
    → IsWordId l
    → g.last_delivered_id ≡ id_string l
    → Unread l g.pel s.entries
    → ((read_group now group consumer (bytes ">") count no_ack s).0
        ≡ some (limited count (keep (after l) s.entries)))
      × (g' : ConsumerGroup) × (lookup group
            (read_group now group consumer (bytes ">") count no_ack s).1.groups
          ≡ some g')
      × IsAgreed (read_group now group consumer (bytes ">") count no_ack s).1.heap g'
      × ((j : Bytes)
          → is_some (lookup j g'.pel) ≡ (
              is_some (lookup j g.pel)
              || (not no_ack && has_id j (limited count (keep (after l) s.entries)))))
unfolding read_group read_found stored reading bytes_eq
read_group_lem now group consumer count no_ack s g l v p a w at un =
    let start : Reading = reading now consumer g s in
    let results = keep (after l) s.entries in
    let (got, agreed, pel) =
      read_new_lem now no_ack count s.last_id 0 l s.entries start w v.numbered v.ascending
        (reading-Agreed now consumer g s a) at un (reached-zero count) in
    let end : List StreamEntry × Reading = read_new now no_ack count 0 s.entries start in
    let done : read_group now group consumer (bytes ">") count no_ack s ≡ stored group end s =
      rw p refl in
    let found : lookup group (stored group end s).1.groups ≡ some (group_of end.1) =
      lookup-insert group group (group_of end.1) s.groups ∙ rw (bytes_eq_refl group) refl in
    (
      ap (λ r. r.0) done ∙ ap some (got ∙ still-zero count results),
      group_of end.1,
      ap (λ r. lookup group r.1.groups) done ∙ found,
      subst (λ r. IsAgreed r.1.heap (group_of end.1)) (sym done) agreed,
      λ j.
          (unfold group_of in pel j)
          ∙ ap (λ t. is_some (lookup j g.pel) || (not no_ack && has_id j t))
              (still-zero count results),
    )

-- An entry that another consumer has not acknowledged is delivered again, after the group's
-- position was set back.
pub make_pending-stale :
    (now : ℤ) (id : Bytes) (r : Reading) (p : ℕ)
    → Agreed r
    → lookup id r.group.pel ≡ some p
    → (pending_at r.heap p).consumer_name ≢ r.consumer_name
    → ¬ Agreed (make_pending now id r)
make_pending-stale now id r p v here other w =
    let owner : Bytes = (pending_at r.heap p).consumer_name in
    let apart : bytes_eq r.consumer_name owner ≡ false =
      bytes_eq_ne r.consumer_name owner (λ e. other (sym e)) in
    let agreed : held (group_of r) owner id ≡ owed r.heap owner (lookup id r.group.pel) =
      unfold group_of in v.agree owner id in
    let before : held r.group owner id ≡ some p =
      ap (λ b. if b then lookup id r.consumer.pel else held r.group owner id) (sym apart)
      ∙ sym (group_of-held r owner id)
      ∙ agreed
      ∙ ap (owed r.heap owner) here
      ∙ rw (bytes_eq_refl (pending_at r.heap p).consumer_name) refl in
    let after_write : Reading = make_pending now id r in
    let split : held (group_of after_write) owner id ≡ (
        if bytes_eq r.consumer_name owner
        then lookup id after_write.consumer.pel
        else held r.group owner id) =
      unfold make_pending in group_of-held after_write owner id in
    let kept : held (group_of after_write) owner id ≡ held r.group owner id =
      split ∙ rw apart refl in
    let due : owed after_write.heap owner (lookup id (group_of after_write).pel) ≡ (
        if bytes_eq id id
        then (if bytes_eq r.consumer_name owner then some (length r.heap) else none)
        else owed r.heap owner (lookup id r.group.pel)) =
      unfold made group_of in made-owed now id r v owner id in
    let nothing : owed after_write.heap owner (lookup id (group_of after_write).pel) ≡ none =
      due ∙ rw (bytes_eq_refl id, apart) refl in
    absurd (ground (arith, before, kept, w.agree owner id, nothing))
