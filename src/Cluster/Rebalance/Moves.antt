-- ===== src/Cluster/Rebalance/Moves.antt =====
-- What the loops of the plan move: from whom, to whom, and which slots.
use Prim.Native.Nat.{min}
use vortexkv.Prelude.{
  ℕ, zero, suc, ◌+◌, ◌-◌, ◌≤◌, ◌<◌, ◌≡◌, ◌∙◌, refl, sym, ap, ◌⊎◌, inl, inr, false, subst, List, [],
  ◌∷◌, ◌++◌, map, Bytes, bytes_eq, length, take, drop, leb, if◌then◌else◌, arith, Bool-cases,
  length-append, length-drop, length-take, take-append-drop,
}
use mathlib.Core.List.{append_assoc}
use vortexkv.Cluster.Rebalance.{
  MasterNodeInfo, SlotMove, Donor, Receiver, move_slot, is_nil, give, transfer,
}
use vortexkv.Cluster.Rebalance.Tally.{
  slots_left, moved_slots, need, avail_of, need_of, moves_from, moves_to, moved_slots-append,
  moves_from-append, moves_to-append, moved_slots-map, moves_from-map, moves_to-map,
}

-- What the moves to one receiver have done.
record Given (to : MasterNodeInfo) (n : ℕ) (ds : List Donor) (r : List SlotMove × (ℕ × List Donor))
    : Type 0 where
  slots : moved_slots r.0 ++ slots_left r.1.1 ≡ slots_left ds
  wanted : r.1.0 + length (moved_slots r.0) ≡ n
  exhausted : (r.1.0 ≡ 0) ⊎ (slots_left r.1.1 ≡ [])
  from : (id : Bytes) → moves_from id r.0 + avail_of id r.1.1 ≡ avail_of id ds
  received :
      (id : Bytes) → moves_to id r.0 ≡ (if bytes_eq to.id id then length (moved_slots r.0) else 0)

take-all : (xs : List ℕ) → take (length xs) xs ≡ xs
take-all [] = refl
take-all (x ∷ xs) = ap (λ l. x ∷ l) (take-all xs)

drop-all : (xs : List ℕ) → drop (length xs) xs ≡ []
drop-all [] = refl
drop-all (x ∷ xs) = drop-all xs

is_nil-drop : (n : ℕ) (xs : List ℕ) → n < length xs → is_nil (drop n xs) ≡ false
is_nil-drop n [] h = absurd (omega (arith, h))
is_nil-drop zero (x ∷ xs) h = refl
is_nil-drop (suc n) (x ∷ xs) h = is_nil-drop n xs (omega (arith, h))

-- A donor gives all that it has, and the loop goes on.
give-all :
    (to : MasterNodeInfo) (n : ℕ) (d : Donor) (ds : List Donor)
    → length d.avail ≤ suc n
    → give to (suc n) (d ∷ ds) ≡ (
      map (move_slot d.m to) d.avail ++ (give to (suc n - length d.avail) ds).0,
      (give to (suc n - length d.avail) ds).1,
    )
give-all to n d ds h =
    let step : ℕ → List SlotMove × (ℕ × List Donor) = λ k.
      if is_nil (drop k d.avail)
      then (
        map (move_slot d.m to) (take k d.avail) ++ (give to (suc n - k) ds).0,
        (give to (suc n - k) ds).1,
      )
      else (
        map (move_slot d.m to) (take k d.avail),
        (suc n - k, record d { avail = drop k d.avail } ∷ ds),
      ) in
    let first : give to (suc n) (d ∷ ds) ≡ step (min (suc n) (length d.avail)) =
      unfold give in refl in
    let second : step (min (suc n) (length d.avail)) ≡ step (length d.avail) =
      ap step {x = min (suc n) (length d.avail)} {y = length d.avail} (omega (arith, h)) in
    first ∙ second ∙ rw (drop-all d.avail, take-all d.avail) refl

-- A donor gives what is needed and keeps the rest.
give-part :
    (to : MasterNodeInfo) (n : ℕ) (d : Donor) (ds : List Donor)
    → suc n < length d.avail
    → give to (suc n) (d ∷ ds) ≡ (
      map (move_slot d.m to) (take (suc n) d.avail),
      (0, record d { avail = drop (suc n) d.avail } ∷ ds),
    )
give-part to n d ds h =
    let step : ℕ → List SlotMove × (ℕ × List Donor) = λ k.
      if is_nil (drop k d.avail)
      then (
        map (move_slot d.m to) (take k d.avail) ++ (give to (suc n - k) ds).0,
        (give to (suc n - k) ds).1,
      )
      else (
        map (move_slot d.m to) (take k d.avail),
        (suc n - k, record d { avail = drop k d.avail } ∷ ds),
      ) in
    let first : give to (suc n) (d ∷ ds) ≡ step (min (suc n) (length d.avail)) =
      unfold give in refl in
    let second : step (min (suc n) (length d.avail)) ≡ step (suc n) =
      ap step {x = min (suc n) (length d.avail)} {y = suc n} (omega (arith, h)) in
    let kept : is_nil (drop (suc n) d.avail) ≡ false = is_nil-drop (suc n) d.avail h in
    let third : step (suc n) ≡ (
      map (move_slot d.m to) (take (suc n) d.avail),
      (suc n - suc n, record d { avail = drop (suc n) d.avail } ∷ ds),
    ) =
      rw kept refl in
    first
    ∙ second
    ∙ third
    ∙ ap
        (λ k. (
          map (move_slot d.m to) (take (suc n) d.avail),
          (k, record d { avail = drop (suc n) d.avail } ∷ ds),
        ))
        {x = suc n - suc n} {y = 0} (omega arith)

give-Given-zero : (to : MasterNodeInfo) (ds : List Donor) → Given to 0 ds ([], (0, ds))
give-Given-zero to ds = record {
  slots = refl;
  wanted = omega arith;
  exhausted = inl refl;
  from = λ id. omega arith;
  received = λ id. ground arith;
}

give-Given-all :
    (to : MasterNodeInfo) (n : ℕ) (d : Donor) (ds : List Donor)
    (later : List SlotMove × (ℕ × List Donor))
    → length d.avail ≤ n
    → Given to (n - length d.avail) ds later
    → Given to n (d ∷ ds) (map (move_slot d.m to) d.avail ++ later.0, later.1)
give-Given-all to n d ds later h g =
    let first : List SlotMove = map (move_slot d.m to) d.avail in
    let split : moved_slots (first ++ later.0) ≡ d.avail ++ moved_slots later.0 =
      moved_slots-append first later.0
      ∙ ap (λ l. l ++ moved_slots later.0) (moved_slots-map d.m to d.avail) in
    let many : length (moved_slots (first ++ later.0))
        ≡ length d.avail + length (moved_slots later.0) =
      ap length split ∙ length-append d.avail (moved_slots later.0) in
    record {
      slots =
          ap (λ l. l ++ slots_left later.1.1) split
          ∙ append_assoc d.avail (moved_slots later.0) (slots_left later.1.1)
          ∙ ap (λ l. d.avail ++ l) g.slots;
      wanted = omega (arith, h, many, g.wanted);
      exhausted = g.exhausted;
      from = λ id.
          omega (
            arith,
            moves_from-append id first later.0,
            moves_from-map d.m to id d.avail,
            g.from id,
          );
      received = λ id. ground (
        arith,
        moves_to-append id first later.0,
        moves_to-map d.m to id d.avail,
        g.received id,
        many,
      );
    }

give-Given-part :
    (to : MasterNodeInfo) (n : ℕ) (d : Donor) (ds : List Donor)
    → n < length d.avail
    → Given to n
        (d ∷ ds)
        (map (move_slot d.m to) (take n d.avail), (0, record d { avail = drop n d.avail } ∷ ds))
give-Given-part to n d ds h =
    let taken : List ℕ = take n d.avail in
    let same : moved_slots (map (move_slot d.m to) taken) ≡ taken = moved_slots-map d.m to taken in
    let size : length taken ≡ n = length-take n d.avail ∙ (omega (arith, h)) in
    let many : length (moved_slots (map (move_slot d.m to) taken)) ≡ n = ap length same ∙ size in
    record {
      slots =
          ap (λ l. l ++ (drop n d.avail ++ slots_left ds)) same
          ∙ sym (append_assoc taken (drop n d.avail) (slots_left ds))
          ∙ ap (λ l. l ++ slots_left ds) (take-append-drop n d.avail);
      wanted = omega (arith, many);
      exhausted = inl refl;
      from = λ id. ground (arith, moves_from-map d.m to id taken, size, length-drop n d.avail, h);
      received = λ id. ground (arith, moves_to-map d.m to id taken, size, many);
    }

give-Given : (to : MasterNodeInfo) (n : ℕ) (ds : List Donor) → Given to n ds (give to n ds)
give-Given to zero ds = unfold give in give-Given-zero to ds
give-Given to (suc n) [] =
    unfold give in
    record {
      slots = refl;
      wanted = omega arith;
      exhausted = inr refl;
      from = λ id. omega arith;
      received = λ id. ground arith;
    }
give-Given to (suc n) (d ∷ ds) = elim (Bool-cases (leb (length d.avail) (suc n))) [
  | inl all ↦
      let fits : length d.avail ≤ suc n = ground (arith, all) in
      subst (Given to (suc n) (d ∷ ds)) (sym (give-all to n d ds fits)) (
        give-Given-all to (suc n) d ds (give to (suc n - length d.avail) ds) fits
          (give-Given to (suc n - length d.avail) ds))
  | inr some_left ↦
      let more : suc n < length d.avail = ground (arith, some_left) in
      subst (Given to (suc n) (d ∷ ds)) (sym (give-part to n d ds more))
        (give-Given-part to (suc n) d ds more)
]

-- What the moves to all receivers have done.
pub record Transferred (rs : List Receiver) (ds : List Donor)
    (r : List SlotMove × (List Receiver × List Donor)) : Type 0 where
  pub slots : moved_slots r.0 ++ slots_left r.1.1 ≡ slots_left ds
  pub wanted : need r.1.0 + length (moved_slots r.0) ≡ need rs
  pub exhausted : (need r.1.0 ≡ 0) ⊎ (slots_left r.1.1 ≡ [])
  pub from : (id : Bytes) → moves_from id r.0 + avail_of id r.1.1 ≡ avail_of id ds
  pub received : (id : Bytes) → moves_to id r.0 + need_of id r.1.0 ≡ need_of id rs

joined :
    (r : Receiver) (rs : List Receiver) (ds : List Donor) (g : List SlotMove × (ℕ × List Donor))
    (t : List SlotMove × (List Receiver × List Donor))
    → Given r.m r.needed ds g
    → Transferred rs g.1.1 t
    → Transferred (r ∷ rs) ds (g.0 ++ t.0, (record r { needed = g.1.0 } ∷ t.1.0, t.1.1))
joined r rs ds g t a b =
    let split : moved_slots (g.0 ++ t.0) ≡ moved_slots g.0 ++ moved_slots t.0 =
      moved_slots-append g.0 t.0 in
    let many = ap length split ∙ length-append (moved_slots g.0) (moved_slots t.0) in
    record {
      slots =
          ap (λ l. l ++ slots_left t.1.1) split
          ∙ append_assoc (moved_slots g.0) (moved_slots t.0) (slots_left t.1.1)
          ∙ ap (λ l. moved_slots g.0 ++ l) b.slots
          ∙ a.slots;
      wanted = omega (arith, many, a.wanted, b.wanted);
      exhausted = elim a.exhausted [
        | inl met ↦ elim b.exhausted [
          | inl all ↦ inl (omega (arith, met, all))
          | inr gone ↦ inr gone
        ]
        | inr gone ↦ inr (append-nil-right (moved_slots t.0) (slots_left t.1.1) (b.slots ∙ gone))
      ];
      from = λ id. omega (arith, moves_from-append id g.0 t.0, a.from id, b.from id);
      received =
          λ id. ground (arith, moves_to-append id g.0 t.0, a.received id, b.received id, a.wanted);
    }
  where
    append-nil-right : (xs ys : List ℕ) → xs ++ ys ≡ [] → ys ≡ []
    append-nil-right [] ys e = e
    append-nil-right (x ∷ xs) ys e = absurd (ground (arith, ap length e))

pub transfer-Transferred :
    (rs : List Receiver) (ds : List Donor) → Transferred rs ds (transfer rs ds)
unfolding transfer
transfer-Transferred [] ds = record {
  slots = refl;
  wanted = omega arith;
  exhausted = inl refl;
  from = λ id. omega arith;
  received = λ id. omega arith;
}
transfer-Transferred (r ∷ rs) ds =
    let g : List SlotMove × (ℕ × List Donor) = give r.m r.needed ds in
    joined r rs ds g (transfer rs g.1.1) (give-Given r.m r.needed ds)
      (transfer-Transferred rs g.1.1)
