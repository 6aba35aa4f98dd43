-- ===== src/Cluster/Rebalance/Shares.antt =====
-- The shares of the masters, and what each has above and below its share.
use native.Mathlib.Nat.{suc-mul, mod-lt, div-add-mod}
use vortexkv.Prelude.{
  ℕ, zero, suc, ◌+◌, ◌-◌, ◌*◌, ◌/◌, ◌%◌, ◌≤◌, ◌<◌, ◌≡◌, ◌∙◌, refl, sym, ap, inl, inr, false, List,
  [], ◌∷◌, ◌++◌, Bytes, bytes_eq, length, drop, ltb, if◌then◌else◌, arith, Bool-cases, ap₂, Option,
  some, length-append, length-drop,
}
use vortexkv.Cluster.Rebalance.{
  MasterNodeInfo, Counts, Sides, target_at, count_at, excess_slots, donated, with_receiver, divide,
}
use vortexkv.Cluster.Rebalance.Tally.{slots_left, need, avail_of, need_of}
use vortexkv.Cluster.Rebalance.Tables.{total, Recorded}

module _ (base remainder : ℕ) where
  abbrev target : ℕ → ℕ
  target i = target_at base remainder i

  -- The slots of these masters behind their shares, in order; the first master is the `i`-th.
  abbrev pub excess : ℕ → List MasterNodeInfo → List ℕ
  excess i [] = []
  excess i (m ∷ ms) = drop (target i) m.slots ++ excess (suc i) ms

  -- What the masters lack.
  abbrev pub lack : ℕ → List MasterNodeInfo → ℕ
  lack i [] = 0
  lack i (m ∷ ms) = (target i - length m.slots) + lack (suc i) ms

  abbrev pub excess_of : Bytes → ℕ → List MasterNodeInfo → ℕ
  excess_of id i [] = 0
  excess_of id i (m ∷ ms) =
      (if bytes_eq m.id id then length m.slots - target i else 0) + excess_of id (suc i) ms

  abbrev pub lack_of : Bytes → ℕ → List MasterNodeInfo → ℕ
  lack_of id i [] = 0
  lack_of id i (m ∷ ms) =
      (if bytes_eq m.id id then target i - length m.slots else 0) + lack_of id (suc i) ms

  abbrev shares : ℕ → List MasterNodeInfo → ℕ
  shares i [] = 0
  shares i (m ∷ ms) = target i + shares (suc i) ms

  excess-shares :
      (i : ℕ) (ms : List MasterNodeInfo) → length (excess i ms) + shares i ms ≡ lack i ms + total ms
  excess-shares i [] = refl
  excess-shares i (m ∷ ms) = omega (
    arith,
    length-append (drop (target i) m.slots) (excess (suc i) ms),
    length-drop (target i) m.slots,
    excess-shares (suc i) ms,
  )

  shares-after : (i : ℕ) (ms : List MasterNodeInfo) → remainder ≤ i → shares i ms ≡ length ms * base
  shares-after i [] h = omega arith
  shares-after i (m ∷ ms) h =
      ground (arith, h, suc-mul (length ms) base, shares-after (suc i) ms (omega (arith, h)))

  shares_lem :
      (i : ℕ) (ms : List MasterNodeInfo)
      → i ≤ remainder
      → remainder ≤ i + length ms
      → shares i ms ≡ length ms * base + (remainder - i)
  shares_lem i [] h k = omega (arith, h, k)
  shares_lem i (m ∷ ms) h k = elim (Bool-cases (ltb i remainder)) [
    | inl before ↦ ground (
      arith,
      before,
      suc-mul (length ms) base,
      shares_lem (suc i) ms (ground (arith, before)) (omega (arith, k)),
    )
    | inr after ↦ ground (arith, h, after, shares-after i (m ∷ ms) (ground (arith, after)))
  ]

  -- What `divide` finds on both sides.
  pub record Divided (i : ℕ) (ms : List MasterNodeInfo) (s : Sides) : Type 0 where
    pub slots : slots_left s.donors ≡ excess i ms
    pub wanted : need s.receivers ≡ lack i ms
    pub given : (id : Bytes) → avail_of id s.donors ≡ excess_of id i ms
    pub received : (id : Bytes) → need_of id s.receivers ≡ lack_of id i ms

  drop-all : (n : ℕ) (xs : List ℕ) → length xs ≤ n → drop n xs ≡ []
  drop-all zero [] h = refl
  drop-all zero (x ∷ xs) h = absurd (omega (arith, h))
  drop-all (suc n) [] h = refl
  drop-all (suc n) (x ∷ xs) h = drop-all n xs (omega (arith, h))

  module _ (i : ℕ) (m : MasterNodeInfo) (ms : List MasterNodeInfo) (s : Sides)
      (v : Divided (suc i) ms s) where
    Divided-donor :
        target i < length m.slots
        → Divided i
            (m ∷ ms)
            (record s { donors = record { m = m; avail = drop (target i) m.slots } ∷ s.donors })
    Divided-donor h = record {
      slots = ap (λ l. drop (target i) m.slots ++ l) v.slots;
      wanted = omega (arith, h, v.wanted);
      given = λ id. ground (arith, h, v.given id, length-drop (target i) m.slots);
      received = λ id. ground (arith, h, v.received id);
    }

    Divided-receiver :
        length m.slots < target i
        → Divided i (m ∷ ms) (record s {
          receivers = record { m = m; needed = target i - length m.slots } ∷ s.receivers;
        })
    Divided-receiver h = record {
      slots =
          v.slots
          ∙ ap (λ l. l ++ excess (suc i) ms) (sym (drop-all (target i) m.slots (omega (arith, h))));
      wanted = omega (arith, v.wanted);
      given = λ id. ground (arith, h, v.given id);
      received = λ id. ground (arith, v.received id);
    }

    Divided-neither : length m.slots ≡ target i → Divided i (m ∷ ms) s
    Divided-neither h = record {
      slots =
          v.slots
          ∙ ap (λ l. l ++ excess (suc i) ms) (sym (drop-all (target i) m.slots (omega (arith, h))));
      wanted = omega (arith, h, v.wanted);
      given = λ id. ground (arith, h, v.given id);
      received = λ id. ground (arith, h, v.received id);
    }

  -- One turn of the loop, at the numbers that the maps give.
  divide_turn : MasterNodeInfo → Option Sides → ℕ → ℕ → Option Sides
  divide_turn m rest cur tgt =
      if ltb tgt cur
      then donated m (excess_slots (cur - tgt) m.slots) rest
      else if ltb cur tgt
      then with_receiver (record { m = m; needed = tgt - cur }) rest
      else rest

  excess_slots-drop :
      (n : ℕ) (ss : List ℕ) → n < length ss → excess_slots (length ss - n) ss ≡ some (drop n ss)
  unfolding excess_slots
  excess_slots-drop n ss h =
      let kept : ltb (length ss) (length ss - n) ≡ false = ground arith in
      rw kept
        (ap (λ k. some (drop k ss)) {x = length ss - (length ss - n)} {y = n} (omega (arith, h)))

  divide_turn_lem :
      (i : ℕ) (m : MasterNodeInfo) (ms : List MasterNodeInfo) (s : Sides)
      → Divided (suc i) ms s
      → (s' : Sides) × (divide_turn m (some s) (length m.slots) (target i) ≡ some s')
        × Divided i (m ∷ ms) s'
  unfolding divide_turn
  divide_turn_lem i m ms s v = elim (Bool-cases (ltb (target i) (length m.slots))) [
    | inl more ↦
        let h : target i < length m.slots = ground (arith, more) in
        (
          record s { donors = record { m = m; avail = drop (target i) m.slots } ∷ s.donors },
          rw (more, excess_slots-drop (target i) m.slots h) refl,
          Divided-donor i m ms s v h,
        )
    | inr no_more ↦ elim (Bool-cases (ltb (length m.slots) (target i))) [
      | inl less ↦ (
        record s { receivers = record { m = m; needed = target i - length m.slots } ∷ s.receivers },
        rw (no_more, less) refl,
        Divided-receiver i m ms s v (ground (arith, less)),
      )
      | inr no_less ↦ (
        s,
        rw (no_more, no_less) refl,
        Divided-neither i m ms s v (ground (arith, no_more, no_less)),
      )
    ]
  ]

  pub divide_lem :
      (c : Counts) (i : ℕ) (ms : List MasterNodeInfo)
      → Recorded base remainder c i ms
      → (s : Sides) × (divide c ms ≡ some s) × Divided i ms s
  unfolding divide divide_turn
  divide_lem c i [] h = (
    record { donors = []; receivers = [] },
    refl,
    record { slots = refl; wanted = refl; given = λ id. refl; received = λ id. refl },
  )
  divide_lem c i (m ∷ ms) (cur, tgt, fin, rest) =
      let (s, e, v) = divide_lem c (suc i) ms rest in
      let (s', e', v') = divide_turn_lem i m ms s v in
      let turn : divide c (m ∷ ms)
          ≡ divide_turn m (divide c ms) (count_at m.id c.initial) (count_at m.id c.target) =
        refl in
      (
        s',
        turn
            ∙ ap (λ r. divide_turn m r (count_at m.id c.initial) (count_at m.id c.target)) e
            ∙ ap₂ (λ a b. divide_turn m (some s) a b) cur tgt
            ∙ e',
        v',
      )

-- With one target for each master, the shares are all slots.
pub shares-total :
    (ms : List MasterNodeInfo) (n : ℕ)
    → 0 < length ms
    → length (excess (n / length ms) (n % length ms) 0 ms) + n
      ≡ lack (n / length ms) (n % length ms) 0 ms + total ms
shares-total ms n h = omega (
  arith,
  excess-shares (n / length ms) (n % length ms) 0 ms,
  shares_lem (n / length ms) (n % length ms) 0 ms (omega arith)
      (omega (arith, mod-lt n {m = length ms} h)),
  div-add-mod n (length ms),
)
