-- ===== src/Keyspace/Sound.antt =====
-- What a handler may do to its shard and to the counter under the lock.
use vortexkv.Prelude.{
  ◌+◌, ◌%◌, ◌^◌, ◌≡◌, refl, ◌∙◌, false, Option, none, some, Bytes, bytes_key, bytes_eq, length,
  arith, if◌then◌else◌, Bool-cases, inl, inr,
}
use vortexkv.Prelude.Int.{ℤ}
use vortexkv.Map.{lookup, Distinct}
use vortexkv.Map.Laws.{
  beq_refl, lookup-insert, lookup-delete, length-insert-some, length-insert-none,
  length-delete-some, Distinct-insert, Distinct-delete,
}
use vortexkv.Keyspace.Entry.{Entry, is_expired}
use vortexkv.Keyspace.Lock.{Locked, remove_entry, add_entry, put_entry, drop_if_expired, fetch}

-- From `s` to `s'`: the keys stay distinct, the counter moves with the number of entries, and only
-- `key` is touched.
pub record Sound (key : Bytes) (s s' : Locked) : Type 0 where
  pub distinct : Distinct s'.entries
  pub balance :
      (s'.key_count + length s.entries) % 2 ^ 64 ≡ (s.key_count + length s'.entries) % 2 ^ 64
  pub others : (j : Bytes) → bytes_eq key j ≡ false → lookup j s'.entries ≡ lookup j s.entries

pub Sound-refl : (key : Bytes) (s : Locked) → Distinct s.entries → Sound key s s
Sound-refl key s d = record { distinct = d; balance = refl; others = λ j h. refl }

pub Sound-trans : {key : Bytes} {s t u : Locked} → Sound key s t → Sound key t u → Sound key s u
Sound-trans p q = record {
  distinct = q.distinct;
  balance = omega (arith, p.balance, q.balance);
  others = λ j h. q.others j h ∙ p.others j h;
}

pub Sound-remove :
    (key : Bytes) (e : Entry) (s : Locked)
    → Distinct s.entries
    → lookup key s.entries ≡ some e
    → Sound key s (remove_entry key s)
unfolding remove_entry
Sound-remove key e s d h = record {
  distinct = Distinct-delete key s.entries d;
  balance = omega (arith, length-delete-some key e s.entries d h);
  others = λ j ne. rw (lookup-delete, ne) refl;
}

pub Sound-add :
    (key : Bytes) (e : Entry) (s : Locked)
    → Distinct s.entries
    → lookup key s.entries ≡ none
    → Sound key s (add_entry key e s)
unfolding add_entry
Sound-add key e s d h = record {
  distinct = Distinct-insert key e s.entries d;
  balance = omega (arith, length-insert-none key e s.entries h);
  others = λ j ne. rw (lookup-insert, ne) refl;
}

pub Sound-put :
    (key : Bytes) (e old : Entry) (s : Locked)
    → Distinct s.entries
    → lookup key s.entries ≡ some old
    → Sound key s (put_entry key e s)
unfolding put_entry
Sound-put key e old s d h = record {
  distinct = Distinct-insert key e s.entries d;
  balance = omega (arith, length-insert-some key e old s.entries h);
  others = λ j ne. rw (lookup-insert, ne) refl;
}

-- An entry as a reader at time `now` sees it.
abbrev pub live : ℤ → Option Entry → Option Entry
live now none = none
live now (some e) = if is_expired e now then none else some e

pub record Fetched (now : ℤ) (key : Bytes) (s : Locked) (r : Option Entry × Locked) : Type 0 where
  pub sound : Sound key s r.1
  pub in_shard : lookup key r.1.entries ≡ r.0
  pub is_live : r.0 ≡ live now (lookup key s.entries)

drop_if_expired_lem :
    (now : ℤ) (key : Bytes) (o : Option Entry) (s : Locked)
    → Distinct s.entries
    → lookup key s.entries ≡ o
    → Fetched now key s (drop_if_expired now key o s)
unfolding drop_if_expired
drop_if_expired_lem now key none s d h = record {
  sound = Sound-refl key s d;
  in_shard = h;
  is_live = rw h refl;
}
drop_if_expired_lem now key (some e) s d h = elim (Bool-cases (is_expired e now)) [
  | inl old ↦ rw old (record {
    sound = Sound-remove key e s d h;
    in_shard = unfold remove_entry in rw (lookup-delete, beq_refl key) refl;
    is_live = rw (h, old) refl;
  })
  | inr fresh ↦
      rw fresh (record { sound = Sound-refl key s d; in_shard = h; is_live = rw (h, fresh) refl })
]

-- The fragment that begins most handlers gives the live entry, and leaves a shard that holds it.
pub fetch_lem :
    (now : ℤ) (key : Bytes) (s : Locked) → Distinct s.entries → Fetched now key s (fetch now key s)
unfolding fetch
fetch_lem now key s d = drop_if_expired_lem now key (lookup key s.entries) s d refl

-- A handler body keeps its shard sound.
pub record Keeps {A : Type 0} (key : Bytes) (body : Locked → A × Locked) : Type 0 where
  pub at : (s : Locked) → Distinct s.entries → Sound key s (body s).1

-- A body that goes on from what `fetch` found.
pub Keeps-fetch :
    {A : Type 0} (now : ℤ) (key : Bytes) (rest : Option Entry × Locked → A × Locked)
    → ((o : Option Entry) (s : Locked)
        → Distinct s.entries
        → lookup key s.entries ≡ o
        → Sound key s (rest (o, s)).1)
    → Keeps key (λ s. rest (fetch now key s))
Keeps-fetch now key rest k = record {
  at = λ s d.
      let f = fetch_lem now key s d in
      Sound-trans f.sound (k (fetch now key s).0 (fetch now key s).1 f.sound.distinct f.in_shard);
}
