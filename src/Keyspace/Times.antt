-- ===== src/Keyspace/Times.antt =====
-- `Expire`, `Persist`, `PTTL` and `Get` over time.
use vortexkv.Prelude.{
  ◌≡◌, refl, ap, ◌∙◌, Bool, true, false, Option, none, some, Bytes, bytes_key, bytes_eq,
  bytes_eq_iff, Bool-cases, inl, inr, if◌then◌else◌, arith,
}
use vortexkv.Prelude.Int.{ℤ, pos, lt_ℤ}
use vortexkv.Map.{lookup}
use vortexkv.Keyspace.Entry.{Entry, is_expired}
use vortexkv.Keyspace.Lock.{Keyspace, Locked, find, locked, with_lock}
use vortexkv.Keyspace.Sound.{live}
use vortexkv.Keyspace.Valid.{IsValid, find-with_lock}
use vortexkv.Keyspace.Handlers.{expire_key-Keeps}
use vortexkv.Keyspace.Ops.{expire_found, expire_key, get_found, get}
use vortexkv.Keyspace.View.{lookup-remove}

expire_found-live :
    (now : ℤ) (key : Bytes) (o : Option Entry) (s : Locked)
    → lookup key s.entries ≡ o
    → lookup key (expire_found now key o s).1.entries ≡ live now o
unfolding expire_found
expire_found-live now key none s h = h
expire_found-live now key (some e) s h = elim (Bool-cases (is_expired e now)) [
  | inl old ↦ rw old (lookup-remove key s)
  | inr fresh ↦ rw fresh h
]

-- The second critical section of `Get`, whatever others did since the first: it drops the entry of
-- its key if that is expired now, and touches nothing else.
pub find-expire_key :
    (now : ℤ) (key : Bytes) (ks : Keyspace)
    → IsValid ks
    → (j : Bytes)
    → find (with_lock (expire_key now key) key ks).1 j
      ≡ (if bytes_eq key j then live now (find ks key) else find ks j)
find-expire_key now key ks v j =
    find-with_lock key ks (expire_key-Keeps key now) v j
    ∙ ap (λ o. if bytes_eq key j then o else find ks j)
        (unfold expire_key find locked in
          expire_found-live now key _ (locked ks key) (unfold locked in refl))

live-live : (now : ℤ) (o : Option Entry) → live now (live now o) ≡ live now o
live-live now none = refl
live-live now (some e) = elim (Bool-cases (is_expired e now)) [
  | inl old ↦ rw old refl
  | inr fresh ↦ rw (fresh, fresh) refl
]

get_found-live :
    (now : ℤ) (key : Bytes) (o : Option Entry) (ks : Keyspace)
    → (get_found now key o ks).0 ≡ live now o
unfolding get_found is_expired
get_found-live now key none ks = refl
get_found-live now key (some e) ks = ground arith

same-find :
    (now : ℤ) (key : Bytes) (ks : Keyspace)
    → live now (find ks key) ≡ find ks key
    → (j : Bytes) → find ks j ≡ (if bytes_eq key j then live now (find ks key) else find ks j)
same-find now key ks h j = elim (Bool-cases (bytes_eq key j)) [
  | inl same ↦ rw (same, h, (bytes_eq_iff key j).0 same) refl
  | inr other ↦ rw other refl
]

has_deadline : (e : Entry) (now : ℤ) → is_expired e now ≡ true → lt_ℤ (pos 0) e.expires_at ≡ true
unfolding is_expired
has_deadline e now h = ground arith

if_same : {A : Type 0} (b : Bool) (a : A) → (if b then a else a) ≡ a
if_same true a = refl
if_same false a = refl

get_found-find :
    (now : ℤ) (key : Bytes) (o : Option Entry) (ks : Keyspace)
    → find ks key ≡ o
    → IsValid ks
    → (j : Bytes)
    → find (get_found now key o ks).1 j
      ≡ (if bytes_eq key j then live now (find ks key) else find ks j)
unfolding get_found
get_found-find now key none ks h v j = same-find now key ks (rw h refl) j
get_found-find now key (some e) ks h v j = elim (Bool-cases (is_expired e now)) [
  | inl old ↦ rw (has_deadline e now old, old) (find-expire_key now key ks v j)
  | inr fresh ↦
      rw (fresh, if_same (lt_ℤ (pos 0) e.expires_at)) (same-find now key ks (rw (h, fresh) refl) j)
]

-- `Get` answers the live entry. It leaves under its key the live entry or nothing, and every other
-- key as it was; so at that time no key reads differently after it.
pub get_lem :
    (now : ℤ) (key : Bytes) (ks : Keyspace)
    → IsValid ks
    → ((get now key ks).0 ≡ live now (find ks key))
      × ((j : Bytes)
          → find (get now key ks).1 j
            ≡ (if bytes_eq key j then live now (find ks key) else find ks j))
unfolding get
get_lem now key ks v =
    (get_found-live now key (find ks key) ks, get_found-find now key (find ks key) ks refl v)
