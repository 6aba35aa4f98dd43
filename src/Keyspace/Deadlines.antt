-- ===== src/Keyspace/Deadlines.antt =====
-- `Expire`, `Persist` and `PTTL`: until when a key is seen.
use vortexkv.Prelude.{
  ℕ, zero, suc, ◌+◌, ◌-◌, ◌^◌, ◌<◌, ◌≡◌, refl, sym, ap, ◌∙◌, Bool, true, false, Option, none, some,
  Bytes, bytes_key, bytes_eq, if◌then◌else◌, arith, ltb,
}
use vortexkv.Prelude.Int.{ℤ, pos, negsuc, add64, sub64, pos_part, neg_part}
use vortexkv.Map.{lookup, is_some}
use vortexkv.Map.Laws.{beq_refl}
use vortexkv.Keyspace.Entry.{Entry, is_expired}
use vortexkv.Keyspace.Lock.{Keyspace, Locked, find}
use vortexkv.Keyspace.Sound.{live}
use vortexkv.Keyspace.Valid.{IsValid, with_lock-IsValid}
use vortexkv.Keyspace.Handlers.{expire_body-Keeps, persist_body-Keeps}
use vortexkv.Keyspace.Expiry.{
  expire_entry, expire_body, expire, persist_by, persist_entry, persist_body, persist, remaining_of,
  pttl,
}
use vortexkv.Keyspace.View.{lookup-put, answer-with_lock, left-with_lock}
use vortexkv.Keyspace.Times.{get_lem}

abbrev pub with_deadline : ℤ → Option Entry → Option Entry
with_deadline d none = none
with_deadline d (some e) = some (record e { expires_at = d })

module _ (key : Bytes) where
  expire-answer :
      (now ttl : ℤ) (o : Option Entry) (s : Locked)
      → (expire_entry now key ttl (o, s)).0 ≡ is_some o
  unfolding expire_entry is_some
  expire-answer now ttl none s = refl
  expire-answer now ttl (some e) s = refl

  expire-left :
      (now ttl : ℤ) (o : Option Entry) (s : Locked)
      → lookup key s.entries ≡ o
      → lookup key (expire_entry now key ttl (o, s)).1.entries ≡ with_deadline (add64 now ttl) o
  unfolding expire_entry
  expire-left now ttl none s h = h
  expire-left now ttl (some e) s h = lookup-put key _ s

  -- `Expire` answers whether the key has a live entry, sets that entry's deadline to now plus the
  -- time to live (in 64 bits), and leaves every other key as it was.
  pub expire_lem :
      (now ttl : ℤ) (ks : Keyspace)
      → IsValid ks
      → ((expire now key ttl ks).0 ≡ is_some (live now (find ks key)))
        × ((j : Bytes)
            → find (expire now key ttl ks).1 j ≡ (
                if bytes_eq key j
                then with_deadline (add64 now ttl) (live now (find ks key))
                else find ks j))
  expire_lem now ttl ks v =
      unfold expire expire_body in
      (
        answer-with_lock now key ks (expire_entry now key ttl) is_some (expire-answer now ttl) v,
        left-with_lock now key ks (expire_entry now key ttl) (with_deadline (add64 now ttl))
            (expire-left now ttl) (unfold expire_body in expire_body-Keeps key now ttl) v,
      )

  pub pttl-answer :
      (now now' : ℤ) (ks : Keyspace)
      → IsValid ks
      → (pttl now now' key ks).0 ≡ remaining_of now' (live now (find ks key))
  unfolding pttl
  pttl-answer now now' ks v = ap (remaining_of now') (get_lem now key ks v).0

some_of_is_some : (o : Option Entry) → is_some o ≡ true → (e : Entry) × (o ≡ some e)
unfolding is_some
some_of_is_some none h = cc
some_of_is_some (some e) h = (e, refl)

module _ (now ttl : ℤ) (key : Bytes) (ks : Keyspace) where
  -- What stands under the key when `Expire` has answered true.
  expired_entry :
      (v : IsValid ks)
      → (expire now key ttl ks).0 ≡ true
      → (e : Entry) × (find (expire now key ttl ks).1 key
          ≡ some (record e { expires_at = add64 now ttl }))
  expired_entry v h =
      let found =
        some_of_is_some (live now (find ks key)) (sym (expire_lem key now ttl ks v).0 ∙ h) in
      (found.0, rw ((expire_lem key now ttl ks v).1 key, beq_refl key, found.1) refl)

-- The exact sum, where it is a number of 63 bits.
add64-sum :
    (a b : ℤ) (d : ℕ)
    → pos_part a + pos_part b ≡ d + (neg_part a + neg_part b)
    → d < 2 ^ 63
    → add64 a b ≡ pos d
unfolding add64
add64-sum (pos n) (pos m) d h k = ground (arith, h, k)
add64-sum (pos n) (negsuc m) d h k = ground (arith, h, k)
add64-sum (negsuc n) (pos m) d h k = ground (arith, h, k)
add64-sum (negsuc n) (negsuc m) d h k = absurd (omega (arith, h))

seen_until :
    (e : Entry) (d t : ℕ)
    → 0 < d
    → d < 2 ^ 63
    → (is_some (live (pos t) (some (record e { expires_at = pos d }))) ≡ ltb t d)
      × (remaining_of (pos t) (live (pos t) (some (record e { expires_at = pos d })))
          ≡ (if ltb t d then pos (d - t) else negsuc 1))
unfolding is_expired is_some remaining_of sub64
seen_until e zero t h k = absurd (omega arith)
seen_until e (suc d) t h k = ground arith

never_seen_to_end :
    (e : Entry) (n : ℕ) (t : ℤ)
    → (is_some (live t (some (record e { expires_at = negsuc n }))) ≡ true)
unfolding is_expired is_some
never_seen_to_end e n t = ground arith

expire-IsValid :
    (now ttl : ℤ) (key : Bytes) (ks : Keyspace) → IsValid ks → IsValid (expire now key ttl ks).1
expire-IsValid now ttl key ks v =
    unfold expire in with_lock-IsValid key ks (expire_body-Keeps key now ttl) v

-- After an `Expire` that answers true on a valid keyspace, where the clock and the time to live, either
-- of which may be negative, have a sum d that is positive and below 2^63, the key is seen at a time t
-- that is not negative exactly if t is before d, and `PTTL` answers the time that is left, or -2 from the
-- deadline on.
pub expire-seen_until :
    (now ttl : ℤ) (d t : ℕ) (key : Bytes) (ks : Keyspace)
    → IsValid ks
    → (expire now key ttl ks).0 ≡ true
    → pos_part now + pos_part ttl ≡ d + (neg_part now + neg_part ttl)
    → 0 < d
    → d < 2 ^ 63
    → (is_some (live (pos t) (find (expire now key ttl ks).1 key)) ≡ ltb t d)
      × ((pttl (pos t) (pos t) key (expire now key ttl ks).1).0
          ≡ (if ltb t d then pos (d - t) else negsuc 1))
expire-seen_until now ttl d t key ks v h sum p q =
    let (e, found) = expired_entry now ttl key ks v h in
    let shown : find (expire now key ttl ks).1 key ≡ some (record e { expires_at = pos d }) =
      found ∙ ap (λ x. some (record e { expires_at = x })) (add64-sum now ttl d sum q) in
    (
      ap (λ o. is_some (live (pos t) o)) shown ∙ (seen_until e d t p q).0,
      pttl-answer key (pos t) (pos t) _ (expire-IsValid now ttl key ks v)
          ∙ ap (λ o. remaining_of (pos t) (live (pos t) o)) shown
          ∙ (seen_until e d t p q).1,
    )

-- An `Expire` that answers true with a deadline below 0 makes the key one that no time expires.
pub expire-negative_deadline :
    (now ttl : ℤ) (n : ℕ) (key : Bytes) (ks : Keyspace)
    → IsValid ks
    → (expire now key ttl ks).0 ≡ true
    → add64 now ttl ≡ negsuc n
    → (t : ℤ) → is_some (live t (find (expire now key ttl ks).1 key)) ≡ true
expire-negative_deadline now ttl n key ks v h p t =
    let (e, found) = expired_entry now ttl key ks v h in
    ap (λ o. is_some (live t o)) (found ∙ ap (λ d. some (record e { expires_at = d })) p)
    ∙ never_seen_to_end e n t

abbrev pub has_deadline : Option Entry → Bool
has_deadline none = false
has_deadline (some e) = elim e.expires_at [ pos n ↦ ltb 0 n | negsuc n ↦ true ]

module _ (key : Bytes) where
  persist_by-answer :
      (d : ℤ) (e : Entry) (s : Locked)
      → (persist_by d key e s).0 ≡ (elim d [ pos n ↦ ltb 0 n | negsuc n ↦ true ])
  unfolding persist_by
  persist_by-answer (pos zero) e s = refl
  persist_by-answer (pos (suc n)) e s = ground arith
  persist_by-answer (negsuc n) e s = refl

  persist-answer : (o : Option Entry) (s : Locked) → (persist_entry key (o, s)).0 ≡ has_deadline o
  persist-answer none s = unfold persist_entry in refl
  persist-answer (some e) s = unfold persist_entry in persist_by-answer e.expires_at e s

  persist_by-left :
      (d : ℤ) (e : Entry) (s : Locked)
      → e.expires_at ≡ d
      → lookup key s.entries ≡ some e
      → lookup key (persist_by d key e s).1.entries ≡ some (record e { expires_at = pos 0 })
  unfolding persist_by
  persist_by-left (pos zero) e s p h = h ∙ ap (λ d. some (record e { expires_at = d })) p
  persist_by-left (pos (suc n)) e s p h = lookup-put key _ s
  persist_by-left (negsuc n) e s p h = lookup-put key _ s

  persist-left :
      (o : Option Entry) (s : Locked)
      → lookup key s.entries ≡ o
      → lookup key (persist_entry key (o, s)).1.entries ≡ with_deadline (pos 0) o
  persist-left none s h = unfold persist_entry in h
  persist-left (some e) s h = unfold persist_entry in persist_by-left e.expires_at e s refl h

  -- `Persist` answers whether the key has a live entry with a deadline, leaves the live entry
  -- without one, and leaves every other key as it was.
  pub persist_lem :
      (now : ℤ) (ks : Keyspace)
      → IsValid ks
      → ((persist now key ks).0 ≡ has_deadline (live now (find ks key)))
        × ((j : Bytes)
            → find (persist now key ks).1 j ≡ (
                if bytes_eq key j
                then with_deadline (pos 0) (live now (find ks key))
                else find ks j))
  persist_lem now ks v =
      unfold persist persist_body in
      (
        answer-with_lock now key ks (persist_entry key) has_deadline persist-answer v,
        left-with_lock now key ks (persist_entry key) (with_deadline (pos 0)) persist-left
            (unfold persist_body in persist_body-Keeps key now) v,
      )
