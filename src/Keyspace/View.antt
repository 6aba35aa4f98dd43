-- ===== src/Keyspace/View.antt =====
-- The sharded keyspace as one map from keys to entries: what each handler answers and leaves.
use vortexkv.Prelude.{
  ◌≡◌, refl, ap, ◌∙◌, not, Option, none, some, Bytes, bytes_key, bytes_eq, if◌then◌else◌,
}
use vortexkv.Prelude.Int.{ℤ}
use vortexkv.Map.{lookup, is_some}
use vortexkv.Map.Laws.{beq_refl, lookup-insert, lookup-delete}
use vortexkv.Keyspace.Entry.{Entry}
use vortexkv.Keyspace.Lock.{
  Keyspace, Locked, find, locked, with_lock, fetch, put_entry, add_entry, remove_entry,
}
use vortexkv.Keyspace.Sound.{Keeps, live, Fetched, fetch_lem}
use vortexkv.Keyspace.Valid.{IsValid, find-with_lock}
use vortexkv.Keyspace.Handlers.{set_nx_body-Keeps}
use vortexkv.Keyspace.Ops.{stamped, set_nx_found, set_nx_body, set_nx}

pub lookup-put :
    (key : Bytes) (e : Entry) (s : Locked) → lookup key (put_entry key e s).entries ≡ some e
unfolding put_entry
lookup-put key e s = rw (lookup-insert, beq_refl key) refl

pub lookup-add :
    (key : Bytes) (e : Entry) (s : Locked) → lookup key (add_entry key e s).entries ≡ some e
unfolding add_entry
lookup-add key e s = rw (lookup-insert, beq_refl key) refl

pub lookup-remove : (key : Bytes) (s : Locked) → lookup key (remove_entry key s).entries ≡ none
unfolding remove_entry
lookup-remove key s = rw (lookup-delete, beq_refl key) refl

module _ (now : ℤ) (key : Bytes) (ks : Keyspace) where
  fetched : IsValid ks → Fetched now key (locked ks key) (fetch now key (locked ks key))
  fetched v = fetch_lem now key (locked ks key) (unfold locked in v.distinct _)

  -- A body that goes on from `fetch` is judged by what it does with the live entry.
  pub answer-with_lock :
      {A : Type 0} (rest : Option Entry × Locked → A × Locked) (f : Option Entry → A)
      → ((o : Option Entry) (s : Locked) → (rest (o, s)).0 ≡ f o)
      → IsValid ks
      → (with_lock (λ s. rest (fetch now key s)) key ks).0 ≡ f (live now (find ks key))
  unfolding with_lock
  answer-with_lock rest f h v =
      h (fetch now key (locked ks key)).0 (fetch now key (locked ks key)).1
      ∙ ap f (unfold find locked in (fetched v).is_live)

  pub left-with_lock :
      {A : Type 0} (rest : Option Entry × Locked → A × Locked) (f : Option Entry → Option Entry)
      → ((o : Option Entry) (s : Locked)
          → lookup key s.entries ≡ o
          → lookup key (rest (o, s)).1.entries ≡ f o)
      → Keeps key (λ s. rest (fetch now key s))
      → IsValid ks
      → (j : Bytes)
      → find (with_lock (λ s. rest (fetch now key s)) key ks).1 j
        ≡ (if bytes_eq key j then f (live now (find ks key)) else find ks j)
  left-with_lock rest f h k v j =
      find-with_lock key ks k v j
      ∙ ap (λ o. if bytes_eq key j then o else find ks j)
          (h (fetch now key (locked ks key)).0 (fetch now key (locked ks key)).1
              (fetched v).in_shard
            ∙ ap f (unfold find locked in (fetched v).is_live))

-- What `SetNX` leaves under its key, by the entry that is live there.
abbrev pub kept_or : Entry → Option Entry → Option Entry
kept_or e none = some e
kept_or e (some old) = some old

-- `SetNX` answers that the key had no live entry. Then the key holds the new entry; else it keeps
-- its live one. Every other key holds what it held.
pub set_nx_lem :
    (now : ℤ) (key : Bytes) (e : Entry) (ks : Keyspace)
    → IsValid ks
    → ((set_nx now key e ks).0 ≡ not (is_some (live now (find ks key))))
      × ((j : Bytes)
          → find (set_nx now key e ks).1 j ≡ (
              if bytes_eq key j
              then kept_or (stamped now e) (live now (find ks key))
              else find ks j))
set_nx_lem now key e ks v =
    unfold set_nx set_nx_body in
    (
      answer-with_lock now key ks (set_nx_found now key e) (λ o. not (is_some o)) answer v,
      left-with_lock now key ks (set_nx_found now key e) (kept_or (stamped now e)) left
          (unfold set_nx_body in set_nx_body-Keeps key now e) v,
    )
  where
    answer : (o : Option Entry) (s : Locked) → (set_nx_found now key e (o, s)).0 ≡ not (is_some o)
    answer none s = unfold set_nx_found is_some in refl
    answer (some old) s = unfold set_nx_found is_some in refl

    left :
        (o : Option Entry) (s : Locked)
        → lookup key s.entries ≡ o
        → lookup key (set_nx_found now key e (o, s)).1.entries ≡ kept_or (stamped now e) o
    left none s h = unfold set_nx_found in lookup-add key _ s
    left (some old) s h = unfold set_nx_found in h
