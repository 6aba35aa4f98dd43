-- ===== src/Datastruct/Stream/Pending.antt =====
-- The pending list of a group and those of its consumers agree.
use vortexkv.Prelude.{
  ℕ, ◌+◌, ◌<◌, ◌≡◌, refl, sym, ap, subst, ◌∙◌, Bool, Bool-cases, false, ◌||◌, Option, Option-cases,
  none, some, inl, inr, List, [], ◌∷◌, Bytes, bytes_key, bytes_eq, bytes_eq_iff, bytes_eq_refl,
  length, if◌then◌else◌, arith,
}
use vortexkv.Map.{Map, lookup, insert, delete, is_some, Distinct}
use vortexkv.Map.Laws.{lookup-insert, lookup-delete, length-delete-some, Distinct-delete}
use vortexkv.Datastruct.Stream.Entries.{PendingEntry, Consumer, ConsumerGroup, Stream}
use vortexkv.Datastruct.Stream.Groups.{
  delete_consumer, delete_consumer_found, ack, ack_found, put_group, pending_at, ack_one,
  ack_consumer, ack_loop, forget_all, drop_consumer,
}

-- What a consumer holds under an id.
abbrev pub held_in : Bytes → Option Consumer → Option ℕ
held_in id none = none
held_in id (some c) = lookup id c.pel

abbrev pub held : ConsumerGroup → Bytes → Bytes → Option ℕ
held g name id = held_in id (lookup name g.consumers)

-- What it should hold, from the group's own list.
abbrev pub owed : List PendingEntry → Bytes → Option ℕ → Option ℕ
owed heap name none = none
owed heap name (some p) = if bytes_eq (pending_at heap p).consumer_name name then some p else none

pub record IsAgreed (heap : List PendingEntry) (g : ConsumerGroup) : Type 0 where
  pub agree : (name id : Bytes) → held g name id ≡ owed heap name (lookup id g.pel)
  pub allocated : (id : Bytes) (p : ℕ) → lookup id g.pel ≡ some p → p < length heap
  pub distinct : Distinct g.pel

module _ (heap : List PendingEntry) (id : Bytes) (p : ℕ) (g : ConsumerGroup) (v : IsAgreed heap g)
    (here : lookup id g.pel ≡ some p) where
  owner : Bytes
  owner = (pending_at heap p).consumer_name

  owner-held : held g owner id ≡ some p
  unfolding owner
  owner-held =
      v.agree owner id ∙ rw here (rw (bytes_eq_refl (pending_at heap p).consumer_name) refl)

  owner_found : (c : Consumer) × (lookup owner g.consumers ≡ some c)
  owner_found = elim (Option-cases (lookup owner g.consumers)) [
    | inl gone ↦ absurd (ground (arith, ap (held_in id) gone, owner-held))
    | inr found ↦ found
  ]

  -- The id goes from every consumer: the owner gives it up, and no other had it.
  ack_consumer-held :
      (c : Consumer)
      → lookup owner g.consumers ≡ some c
      → (name j : Bytes)
      → held_in j (lookup name (insert owner (record c { pel = delete id c.pel }) g.consumers))
        ≡ (if bytes_eq id j then none else held g name j)
  ack_consumer-held c found name j =
      let c' : Consumer = record c { pel = delete id c.pel } in
      let now : lookup name (insert owner c' g.consumers)
          ≡ (if bytes_eq owner name then some c' else lookup name g.consumers) =
        lookup-insert owner name c' g.consumers in
      elim (Bool-cases (bytes_eq owner name)) [
        | inl same ↦
            let e : owner ≡ name = (bytes_eq_iff owner name).0 same in
            let before : held g name j ≡ lookup j c.pel =
              ap (held_in j) (subst (λ n. lookup n g.consumers ≡ some c) e found) in
            let now' : lookup name (insert owner c' g.consumers) ≡ some c' = now ∙ rw same refl in
            ap (held_in j) now'
            ∙ lookup-delete id j c.pel
            ∙ ap (λ o. if bytes_eq id j then none else o) (sym before)
        | inr other ↦
            let now' : lookup name (insert owner c' g.consumers) ≡ lookup name g.consumers =
              now ∙ rw other refl in
            let none_held : held g name id ≡ none =
              v.agree name id ∙ rw here (unfold owner in rw other refl) in
            ap (held_in j) now' ∙ elim (Bool-cases (bytes_eq id j)) [
              | inl hit ↦
                  rw hit (subst (λ k. held g name k ≡ none) ((bytes_eq_iff id j).0 hit) none_held)
              | inr miss ↦ rw miss refl
            ]
      ]

  ack_one-held :
      (name j : Bytes)
      → held (ack_one heap id (some p) g).1 name j ≡ (if bytes_eq id j then none else held g name j)
  unfolding ack_one ack_consumer owner
  ack_one-held name j =
      let (c, found) = owner_found in
      ap (λ o. held_in j (lookup name (ack_consumer id owner o g.consumers))) found
      ∙ ack_consumer-held c found name j

  ack_one-pel :
      (j : Bytes)
      → lookup j (ack_one heap id (some p) g).1.pel
        ≡ (if bytes_eq id j then none else lookup j g.pel)
  unfolding ack_one
  ack_one-pel j = lookup-delete id j g.pel

  ack_one-IsAgreed : IsAgreed heap (ack_one heap id (some p) g).1
  ack_one-IsAgreed = record {
    agree = λ name j. ack_one-held name j ∙ ground (arith, ack_one-pel j, v.agree name j);
    allocated = λ j q e. v.allocated j q (ground (arith, ack_one-pel j, e));
    distinct = unfold ack_one in Distinct-delete id g.pel v.distinct;
  }

-- The id is in the list.
abbrev pub listed : List Bytes → Bytes → Bool
listed [] j = false
listed (id ∷ ids) j = bytes_eq id j || listed ids j

-- What `Ack` does to the group, for one id and for all.
abbrev pub Acked : List PendingEntry → ConsumerGroup → (Bytes → Bool) → ℕ × ConsumerGroup → Type 0
Acked heap g gone (n, g') =
    IsAgreed heap g'
    × (n + length g'.pel ≡ length g.pel)
    × ((j : Bytes) → lookup j g'.pel ≡ (if gone j then none else lookup j g.pel))
    × ((name j : Bytes) → held g' name j ≡ (if gone j then none else held g name j))

ack_one_lem :
    (heap : List PendingEntry) (id : Bytes) (o : Option ℕ) (g : ConsumerGroup)
    → IsAgreed heap g
    → lookup id g.pel ≡ o
    → Acked heap g (bytes_eq id) (ack_one heap id o g)
ack_one_lem heap id none g v e =
    unfold ack_one in
    (
      v,
      omega arith,
      λ j. without (λ k. lookup k g.pel) j e,
      λ name j. without (λ k. held g name k) j (v.agree name id ∙ rw e refl),
    )
  where
    without :
        (f : Bytes → Option ℕ) (j : Bytes)
        → f id ≡ none
        → f j ≡ (if bytes_eq id j then none else f j)
    without f j h = elim (Bool-cases (bytes_eq id j)) [
      | inl hit ↦ rw hit (subst (λ k. f k ≡ none) ((bytes_eq_iff id j).0 hit) h)
      | inr miss ↦ rw miss refl
    ]
ack_one_lem heap id (some p) g v e = (
  ack_one-IsAgreed heap id p g v e,
  unfold ack_one in omega (arith, length-delete-some id p g.pel v.distinct e),
  ack_one-pel heap id p g v e,
  ack_one-held heap id p g v e,
)

-- The loop of `Ack` keeps the lists in agreement, takes exactly the listed ids out of the group's
-- list and out of every consumer's, and answers how many there were.
pub ack_loop_lem :
    (heap : List PendingEntry) (ids : List Bytes) (g : ConsumerGroup)
    → IsAgreed heap g
    → Acked heap g (listed ids) (ack_loop heap ids g)
unfolding ack_loop
ack_loop_lem heap [] g v = (v, omega arith, λ j. refl, λ name j. refl)
ack_loop_lem heap (id ∷ ids) g v =
    let (v', n, pel, heldby) = ack_one_lem heap id (lookup id g.pel) g v refl in
    let (v'', n', pel', heldby') =
      ack_loop_lem heap ids (ack_one heap id (lookup id g.pel) g).1 v' in
    (
      v'',
      omega (arith, n, n'),
      λ j. pel' j ∙ ground (arith, pel j),
      λ name j. heldby' name j ∙ ground (arith, heldby name j),
    )

forget_all-lookup :
    (c pel : Map Bytes ℕ) (j : Bytes)
    → lookup j (forget_all c pel) ≡ (if is_some (lookup j c) then none else lookup j pel)
unfolding forget_all is_some lookup
forget_all-lookup [] pel j = refl
forget_all-lookup ((id, p) ∷ c) pel j =
    forget_all-lookup c (delete id pel) j ∙ ground (arith, lookup-delete id j pel)

forget_all-Distinct : (c pel : Map Bytes ℕ) → Distinct pel → Distinct (forget_all c pel)
unfolding forget_all
forget_all-Distinct [] pel d = d
forget_all-Distinct ((id, p) ∷ c) pel d =
    forget_all-Distinct c (delete id pel) (Distinct-delete id pel d)

module _ (heap : List PendingEntry) (name : Bytes) (c : Consumer) (g : ConsumerGroup)
    (v : IsAgreed heap g) (here : lookup name g.consumers ≡ some c) where
  own : (j : Bytes) → held g name j ≡ lookup j c.pel
  own j = ap (held_in j) here

  drop_consumer-pel :
      (j : Bytes)
      → lookup j (drop_consumer name (some c) g).1.pel
        ≡ (if is_some (held g name j) then none else lookup j g.pel)
  unfolding drop_consumer
  drop_consumer-pel j =
      forget_all-lookup c.pel g.pel j
      ∙ ap (λ o. if is_some o then none else lookup j g.pel) (sym (own j))

  drop_consumer-held :
      (n j : Bytes)
      → held (drop_consumer name (some c) g).1 n j ≡ (if bytes_eq name n then none else held g n j)
  unfolding drop_consumer
  drop_consumer-held n j = ap (held_in j) (lookup-delete name n g.consumers) ∙ ground arith

  drop_consumer-agree :
      (n j : Bytes) (o : Option ℕ)
      → lookup j g.pel ≡ o
      → (if bytes_eq name n then none else held g n j)
        ≡ owed heap n (if is_some (held g name j) then none else o)
  unfolding is_some
  drop_consumer-agree n j none e =
      ground (arith, v.agree name j ∙ ap (owed heap name) e, v.agree n j ∙ ap (owed heap n) e)
  drop_consumer-agree n j (some p) e =
      let x : Bytes = (pending_at heap p).consumer_name in
      ground (
        arith,
        v.agree name j ∙ ap (owed heap name) e,
        v.agree n j ∙ ap (owed heap n) e,
        bytes_eq_iff x name,
        bytes_eq_iff x n,
        bytes_eq_iff name n,
      )

  drop_consumer-IsAgreed : IsAgreed heap (drop_consumer name (some c) g).1
  drop_consumer-IsAgreed = record {
    agree = λ n j.
        drop_consumer-held n j
        ∙ drop_consumer-agree n j (lookup j g.pel) refl
        ∙ ap (owed heap n) (sym (drop_consumer-pel j));
    allocated = λ j q e. v.allocated j q (ground (arith, drop_consumer-pel j, e));
    distinct = unfold drop_consumer in forget_all-Distinct c.pel g.pel v.distinct;
  }

-- `Ack` in a group whose lists agree keeps them so, takes exactly the listed ids out of the group's
-- list and out of every consumer's, and answers how many the group had of them.
pub ack_lem :
    (group : Bytes) (ids : List Bytes) (s : Stream) (g : ConsumerGroup)
    → lookup group s.groups ≡ some g
    → IsAgreed s.heap g
    → (g' : ConsumerGroup) × (lookup group (ack group ids s).1.groups ≡ some g')
      × ((ack group ids s).1.heap ≡ s.heap)
      × Acked s.heap g (listed ids) ((ack group ids s).0, g')
unfolding ack ack_found put_group
ack_lem group ids s g p v = (
  (ack_loop s.heap ids g).1,
  rw p (
      lookup-insert group group (ack_loop s.heap ids g).1 s.groups ∙ rw (bytes_eq_refl group) refl),
  rw p refl,
  rw p (ack_loop_lem s.heap ids g v),
)

-- `DeleteConsumer` of a consumer that the group has, where the lists agree, keeps them so, answers
-- how many ids the consumer held, and takes exactly those out of the group's list and the consumer
-- out of the group.
pub delete_consumer_lem :
    (group name : Bytes) (s : Stream) (g : ConsumerGroup) (c : Consumer)
    → lookup group s.groups ≡ some g
    → lookup name g.consumers ≡ some c
    → IsAgreed s.heap g
    → (g' : ConsumerGroup) × (lookup group (delete_consumer group name s).1.groups ≡ some g')
      × IsAgreed s.heap g'
      × ((delete_consumer group name s).0 ≡ length c.pel)
      × ((j : Bytes)
          → lookup j g'.pel ≡ (if is_some (lookup j c.pel) then none else lookup j g.pel))
      × ((n j : Bytes) → held g' n j ≡ (if bytes_eq name n then none else held g n j))
unfolding delete_consumer delete_consumer_found put_group
delete_consumer_lem group name s g c p q v =
    let g' : ConsumerGroup = (drop_consumer name (some c) g).1 in
    (
      g',
      rw p (rw q (lookup-insert group group g' s.groups ∙ rw (bytes_eq_refl group) refl)),
      drop_consumer-IsAgreed s.heap name c g v q,
      rw p (rw q (unfold drop_consumer in refl)),
      λ j. (unfold drop_consumer in forget_all-lookup c.pel g.pel j),
      drop_consumer-held s.heap name c g v q,
    )
