-- ===== src/Broker/Channels.antt =====
-- Which channels stand in the broker's table.
use vortexkv.Prelude.{
  ℕ, ◌≡◌, refl, inl, inr, false, Option, none, some, [], ◌∷◌, Bytes, bytes_key, nat_eq, bytes_eq,
  bytes_eq_refl, Bool-cases,
}
use vortexkv.Map.{Map, lookup, insert, delete, is_some, Distinct}
use vortexkv.Map.Laws.{Distinct-insert, Distinct-delete}
use vortexkv.Broker.{
  Broker, Subscribers, new_broker, subs_or_none, subscribe, is_empty_set, unsubscribe_found,
  unsubscribe, without, unsubscribe_all,
}
use vortexkv.Broker.View.{lookup-without-none}

-- Each channel has a subscriber.
abbrev AreUsed : Map Bytes Subscribers → Type 0
AreUsed [] = Unit
AreUsed ((c, subs) ∷ m) = (is_empty_set subs ≡ false) × AreUsed m

record IsTidy (b : Broker) : Type 0 where
  used : AreUsed b.subscribers
  distinct : Distinct b.subscribers

insert-not_empty : (s : ℕ) (subs : Subscribers) → is_empty_set (insert s tt subs) ≡ false
unfolding insert
insert-not_empty s [] = refl
insert-not_empty s ((t, u) ∷ subs) = elim (Bool-cases (nat_eq.beq t s)) [
  | inl same ↦ rw same refl
  | inr other ↦ rw other refl
]

module _ (c : Bytes) (subs : Subscribers) (h : is_empty_set subs ≡ false) where
  AreUsed-insert : (m : Map Bytes Subscribers) → AreUsed m → AreUsed (insert c subs m)
  unfolding insert
  AreUsed-insert [] u = (h, tt)
  AreUsed-insert ((d, was) ∷ m) u = elim (Bool-cases (bytes_eq d c)) [
    | inl same ↦ rw same (h, u.1)
    | inr other ↦ rw other (u.0, AreUsed-insert m u.1)
  ]

  -- The empty set that `Subscribe` puts in first is replaced.
  AreUsed-insert_new :
      (m : Map Bytes Subscribers) → AreUsed m → AreUsed (insert c subs (insert c [] m))
  unfolding insert
  AreUsed-insert_new [] u = rw (bytes_eq_refl c) (h, tt)
  AreUsed-insert_new ((d, was) ∷ m) u = elim (Bool-cases (bytes_eq d c)) [
    | inl same ↦ rw same (rw same (h, u.1))
    | inr other ↦ rw other (rw other (u.0, AreUsed-insert_new m u.1))
  ]

AreUsed-delete : (c : Bytes) (m : Map Bytes Subscribers) → AreUsed m → AreUsed (delete c m)
unfolding delete
AreUsed-delete c [] u = tt
AreUsed-delete c ((d, subs) ∷ m) u = elim (Bool-cases (bytes_eq d c)) [
  | inl same ↦ rw same (AreUsed-delete c m u.1)
  | inr other ↦ rw other (u.0, AreUsed-delete c m u.1)
]

AreUsed-without : (s : ℕ) (m : Map Bytes Subscribers) → AreUsed m → AreUsed (without s m)
unfolding without
AreUsed-without s [] u = tt
AreUsed-without s ((c, subs) ∷ m) u = elim (Bool-cases (is_empty_set (delete s subs))) [
  | inl empty ↦ rw empty (AreUsed-without s m u.1)
  | inr more ↦ rw more (more, AreUsed-without s m u.1)
]

Distinct-without : (s : ℕ) (m : Map Bytes Subscribers) → Distinct m → Distinct (without s m)
unfolding without
Distinct-without s [] d = tt
Distinct-without s ((c, subs) ∷ m) d = elim (Bool-cases (is_empty_set (delete s subs))) [
  | inl empty ↦ rw empty (Distinct-without s m d.1)
  | inr more ↦ rw more (lookup-without-none s c m d.0, Distinct-without s m d.1)
]

subscribe-IsTidy : (c : Bytes) (s : ℕ) (b : Broker) → IsTidy b → IsTidy (subscribe c s b)
unfolding subscribe
subscribe-IsTidy c s b t = elim (Bool-cases (is_some (lookup c b.subscribers))) [
  | inl known ↦ rw known (record {
    used =
        AreUsed-insert c (insert s tt (subs_or_none (lookup c b.subscribers)))
          (insert-not_empty s (subs_or_none (lookup c b.subscribers))) b.subscribers t.used;
    distinct = Distinct-insert c _ b.subscribers t.distinct;
  })
  | inr new ↦ rw new (record {
    used =
        AreUsed-insert_new c (insert s tt (subs_or_none (lookup c (insert c [] b.subscribers))))
          (insert-not_empty s (subs_or_none (lookup c (insert c [] b.subscribers)))) b.subscribers
          t.used;
    distinct =
        Distinct-insert c _ (insert c [] b.subscribers)
          (Distinct-insert c [] b.subscribers t.distinct);
  })
]

unsubscribe_found-IsTidy :
    (c : Bytes) (s : ℕ) (o : Option Subscribers) (b : Broker)
    → IsTidy b
    → IsTidy (unsubscribe_found c s o b)
unfolding unsubscribe_found
unsubscribe_found-IsTidy c s none b t = t
unsubscribe_found-IsTidy c s (some subs) b t = elim (Bool-cases (is_empty_set (delete s subs))) [
  | inl empty ↦ rw empty (record {
    used = AreUsed-delete c b.subscribers t.used;
    distinct = Distinct-delete c b.subscribers t.distinct;
  })
  | inr more ↦ rw more (record {
    used = AreUsed-insert c (delete s subs) more b.subscribers t.used;
    distinct = Distinct-insert c (delete s subs) b.subscribers t.distinct;
  })
]

-- What clients do to the table of channels.
data Step (b : Broker) : Broker → Type 0 where
  subscribes : (c : Bytes) (s : ℕ) → Step b (subscribe c s b)
  unsubscribes : (c : Bytes) (s : ℕ) → Step b (unsubscribe c s b)
  leaves : (s : ℕ) → Step b (unsubscribe_all s b)

data Reach : Broker → Type 0 where
  start : Reach new_broker
  next : {b b' : Broker} → Reach b → Step b b' → Reach b'

Step-IsTidy : {b b' : Broker} → Step b b' → IsTidy b → IsTidy b'
Step-IsTidy {b} (subscribes c s) t = subscribe-IsTidy c s b t
Step-IsTidy {b} (unsubscribes c s) t =
    unfold unsubscribe in unsubscribe_found-IsTidy c s (lookup c b.subscribers) b t
Step-IsTidy {b} (leaves s) t =
    unfold unsubscribe_all in
    record {
      used = AreUsed-without s b.subscribers t.used;
      distinct = Distinct-without s b.subscribers t.distinct;
    }

-- In every table that `Subscribe`, `Unsubscribe` and `UnsubscribeAll` make from the empty one, no channel
-- stands twice and each has a subscriber.
Reach-IsTidy : {b : Broker} → Reach b → IsTidy b
Reach-IsTidy start = unfold new_broker in record { used = tt; distinct = tt }
Reach-IsTidy (next r s) = Step-IsTidy s (Reach-IsTidy r)
