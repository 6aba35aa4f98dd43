-- ===== src/Datastruct/Stream/Writes.antt =====
-- What a delivery writes into the pending lists, and that they still agree.
use vortexkv.Prelude.{
  ℕ, zero, suc, ◌+◌, ◌<◌, ◌≡◌, refl, sym, ap, subst, ◌∙◌, Bool, Bool-cases, true, not, ◌&&◌, ◌||◌,
  Option, none, some, inl, inr, List, [], ◌∷◌, ◌++◌, Bytes, bytes_key, bytes_eq, bytes_eq_iff,
  length, if◌then◌else◌, arith, length-append,
}
use vortexkv.Prelude.Int.{ℤ, pos}
use vortexkv.Map.{lookup, is_some}
use vortexkv.Map.Laws.{lookup-insert, Distinct-insert}
use vortexkv.Datastruct.Stream.Entries.{PendingEntry}
use vortexkv.Datastruct.Stream.Groups.{pending_at, Reading, make_pending, deliver, group_of}
use vortexkv.Datastruct.Stream.Pending.{held_in, held, owed, IsAgreed}

abbrev pub Agreed : Reading → Type 0
Agreed r = IsAgreed r.heap (group_of r)

pub get_or-append_left :
    (h t : List PendingEntry) (p : ℕ) → p < length h → pending_at (h ++ t) p ≡ pending_at h p
get_or-append_left [] t p l = absurd (omega arith)
get_or-append_left (x ∷ h) t zero l = refl
get_or-append_left (x ∷ h) t (suc p) l = get_or-append_left h t p (omega arith)

pub get_or-append_end :
    (h : List PendingEntry) (x : PendingEntry) → pending_at (h ++ (x ∷ [])) (length h) ≡ x
get_or-append_end [] x = refl
get_or-append_end (y ∷ h) x = get_or-append_end h x

-- A larger heap owes the same.
pub owed-append :
    (h t : List PendingEntry) (name : Bytes) (o : Option ℕ)
    → ((p : ℕ) → o ≡ some p → p < length h)
    → owed (h ++ t) name o ≡ owed h name o
owed-append h t name none a = refl
owed-append h t name (some p) a =
    ap (λ (e : PendingEntry). if bytes_eq e.consumer_name name then some p else none)
      (get_or-append_left h t p (a p refl))

pub group_of-held :
    (r : Reading) (n j : Bytes)
    → held (group_of r) n j
      ≡ (if bytes_eq r.consumer_name n then lookup j r.consumer.pel else held r.group n j)
unfolding group_of
group_of-held r n j =
    ap (held_in j) (lookup-insert r.consumer_name n r.consumer r.group.consumers) ∙ ground arith

module _ (now : ℤ) (id : Bytes) (r : Reading) (v : Agreed r) where
  unfoldable pub made : Reading
  made = make_pending now id r

  pub made-pel :
      (j : Bytes)
      → lookup j made.group.pel
        ≡ (if bytes_eq id j then some (length r.heap) else lookup j r.group.pel)
  unfolding made make_pending
  made-pel j = lookup-insert id j (length r.heap) r.group.pel

  pub made-own :
      (j : Bytes)
      → lookup j made.consumer.pel
        ≡ (if bytes_eq id j then some (length r.heap) else lookup j r.consumer.pel)
  unfolding made make_pending
  made-own j = lookup-insert id j (length r.heap) r.consumer.pel

  pub made-owed :
      (n j : Bytes)
      → owed made.heap n (lookup j made.group.pel) ≡ (
          if bytes_eq id j
          then (if bytes_eq r.consumer_name n then some (length r.heap) else none)
          else owed r.heap n (lookup j r.group.pel))
  unfolding made make_pending
  made-owed n j =
      let x : PendingEntry = record {
        id = id;
        consumer_name = r.consumer_name;
        delivery_time = now;
        delivery_count = pos 1;
      } in
      let old : owed (r.heap ++ (x ∷ [])) n (lookup j r.group.pel)
          ≡ owed r.heap n (lookup j r.group.pel) =
        owed-append r.heap (x ∷ []) n (lookup j r.group.pel)
          (λ p e. unfold group_of in v.allocated j p e) in
      let new : owed (r.heap ++ (x ∷ [])) n (some (length r.heap))
          ≡ (if bytes_eq r.consumer_name n then some (length r.heap) else none) =
        ap (λ (e : PendingEntry). if bytes_eq e.consumer_name n then some (length r.heap) else none)
          (get_or-append_end r.heap x) in
      ap (owed (r.heap ++ (x ∷ [])) n) (lookup-insert id j (length r.heap) r.group.pel)
      ∙ elim (Bool-cases (bytes_eq id j)) [ inl hit ↦ rw hit new | inr miss ↦ rw miss old ]

module _ (now : ℤ) (id : Bytes) (r : Reading) (v : Agreed r)
    (fresh : lookup id r.group.pel ≡ none) where
  pub before_none : (j : Bytes) → bytes_eq id j ≡ true → lookup j r.group.pel ≡ none
  before_none j hit = subst (λ k. lookup k r.group.pel ≡ none) ((bytes_eq_iff id j).0 hit) fresh

  pub before_held :
      (n j : Bytes)
      → (if bytes_eq r.consumer_name n then lookup j r.consumer.pel else held r.group n j)
        ≡ owed r.heap n (lookup j r.group.pel)
  before_held n j = sym (group_of-held r n j) ∙ (unfold group_of in v.agree n j)

  pub made-agree :
      (n j : Bytes)
      → held (group_of (made now id r v)) n j
        ≡ owed (made now id r v).heap n (lookup j (made now id r v).group.pel)
  made-agree n j =
      let made_held : held (group_of (made now id r v)) n j ≡ (
          if bytes_eq r.consumer_name n
          then lookup j (made now id r v).consumer.pel
          else held r.group n j) =
        unfold made make_pending in group_of-held (made now id r v) n j in
      elim (Bool-cases (bytes_eq id j)) [
        | inl hit ↦
            let free = before_held n j ∙ ap (owed r.heap n) (before_none j hit) in
            ground (arith, made_held, made-own now id r v j, made-owed now id r v n j, hit, free)
        | inr miss ↦ ground (
          arith,
          made_held,
          made-own now id r v j,
          made-owed now id r v n j,
          miss,
          before_held n j,
        )
      ]

  pub made-allocated :
      (j : Bytes) (p : ℕ)
      → lookup j (made now id r v).group.pel ≡ some p
      → p < length (made now id r v).heap
  made-allocated j p e =
      let longer : length (made now id r v).heap ≡ length r.heap + 1 =
        unfold made make_pending in length-append r.heap _ in
      elim (Bool-cases (bytes_eq id j)) [
        | inl hit ↦ ground (arith, longer, made-pel now id r v j, hit, e)
        | inr miss ↦
            let older : p < length r.heap =
              unfold group_of in v.allocated j p (ground (arith, made-pel now id r v j, miss, e)) in
            omega (arith, longer)
      ]

  pub made-Agreed : Agreed (made now id r v)
  made-Agreed = record {
    agree = λ n j. unfold group_of in made-agree n j;
    allocated = λ j p e. unfold group_of in made-allocated j p e;
    distinct =
        unfold group_of made make_pending in
        Distinct-insert id (length r.heap) r.group.pel (unfold group_of in v.distinct);
  }

abbrev pub at_id : Bytes → Reading → Reading
at_id id r = record r { group = record r.group { last_delivered_id = id } }

pub at_id-Agreed : (id : Bytes) (r : Reading) → Agreed r → Agreed (at_id id r)
unfolding group_of
at_id-Agreed id r v = record { agree = v.agree; allocated = v.allocated; distinct = v.distinct }

module _ (now : ℤ) (no_ack : Bool) (id : Bytes) (r : Reading) where
  pub deliver-Agreed : Agreed r → lookup id r.group.pel ≡ none → Agreed (deliver now no_ack id r)
  unfolding deliver
  deliver-Agreed v fresh = elim (Bool-cases no_ack) [
    | inl skip ↦ rw skip (at_id-Agreed id r v)
    | inr keeps ↦
        rw keeps (unfold made in made-Agreed now id (at_id id r) (at_id-Agreed id r v) fresh)
  ]

  pub deliver-pel :
      (j : Bytes)
      → is_some (lookup j (deliver now no_ack id r).group.pel)
        ≡ (is_some (lookup j r.group.pel) || (not no_ack && bytes_eq id j))
  unfolding deliver make_pending is_some
  deliver-pel j = ground (arith, lookup-insert id j (length r.heap) r.group.pel)

  pub deliver-last : (deliver now no_ack id r).group.last_delivered_id ≡ id
  unfolding deliver make_pending
  deliver-last = ground arith
