-- ===== src/Keyspace/Numbers.antt =====
-- `IncrBy` and `Append`: what they answer and leave, on every branch.
use vortexkv.Prelude.{
  ℕ, ◌≡◌, refl, sym, ◌∙◌, [], Option, none, some, Bytes, bytes_key, bytes_eq, if◌then◌else◌, ◌++◌,
  length,
}
use vortexkv.Prelude.Int.{ℤ, pos, IsInt64, add64, add64-IsInt64}
use vortexkv.Prelude.Decimal.{print_int, parse_int-print_int}
use vortexkv.Map.{lookup}
use vortexkv.Map.Laws.{beq_refl}
use vortexkv.Keyspace.Entry.{
  EntryType, type_string, type_hash, type_list, type_set, type_zset, type_vector, type_stream,
  Value, text, Entry,
}
use vortexkv.Keyspace.Lock.{Keyspace, Locked, find}
use vortexkv.Keyspace.Sound.{live}
use vortexkv.Keyspace.Valid.{IsValid}
use vortexkv.Keyspace.Handlers.{incr_by_body-Keeps, append_body-Keeps}
use vortexkv.Keyspace.Ops.{stamped, new_entry}
use vortexkv.Keyspace.Values.{
  Result, ok, err, number_of, incr_by_stored, incr_by_found, incr_by_body, incr_by, string_of,
  append_stored, append_found, append_body, append_value,
}
use vortexkv.Keyspace.View.{lookup-put, lookup-add, answer-with_lock, left-with_lock}

-- The number that a key stands for: 0 without a live entry.
abbrev pub number_at : Option Entry → Result ℤ
number_at none = ok (pos 0)
number_at (some e) = number_of e.entry_type e.value

abbrev pub plus : ℤ → Result ℤ → Result ℤ
plus delta (ok n) = ok (add64 n delta)
plus delta (err x) = err x

-- The entry with a new text: the deadline stays, a new key has none.
abbrev pub rewritten : ℤ → Bytes → Option Entry → Entry
rewritten now t none = new_entry now type_string (text t)
rewritten now t (some e) = stamped now (record e { value = text t })

-- An error leaves the live entry as it was.
abbrev pub after_incr : ℤ → Option Entry → Result ℤ → Option Entry
after_incr now o (ok n) = some (rewritten now (print_int n) o)
after_incr now o (err x) = o

module _ (now delta : ℤ) (key : Bytes) where
  incr_by-answer :
      (o : Option Entry) (s : Locked)
      → (incr_by_found now key delta (o, s)).0 ≡ plus delta (number_at o)
  unfolding incr_by_found
  incr_by-answer none s = refl
  incr_by-answer (some e) s = go (number_of e.entry_type e.value)
    where
      go : (r : Result ℤ) → (incr_by_stored now key delta e r s).0 ≡ plus delta r
      go (ok n) = unfold incr_by_stored in refl
      go (err x) = unfold incr_by_stored in refl

  incr_by-left :
      (o : Option Entry) (s : Locked)
      → lookup key s.entries ≡ o
      → lookup key (incr_by_found now key delta (o, s)).1.entries
        ≡ after_incr now o (plus delta (number_at o))
  unfolding incr_by_found
  incr_by-left none s h = lookup-add key _ s
  incr_by-left (some e) s h = go (number_of e.entry_type e.value)
    where
      go :
          (r : Result ℤ)
          → lookup key (incr_by_stored now key delta e r s).1.entries
            ≡ after_incr now (some e) (plus delta r)
      go (ok n) = unfold incr_by_stored in lookup-put key _ s
      go (err x) = unfold incr_by_stored in h

-- `IncrBy` answers the number of the live entry (0 for none) plus delta, in 64 bits, or the error
-- of an entry that holds no number. A success leaves the sum printed under the key, with the
-- deadline that was there; an error leaves the live entry. Every other key holds what it held.
pub incr_by_lem :
    (now : ℤ) (key : Bytes) (delta : ℤ) (ks : Keyspace)
    → IsValid ks
    → ((incr_by now key delta ks).0 ≡ plus delta (number_at (live now (find ks key))))
      × ((j : Bytes)
          → find (incr_by now key delta ks).1 j ≡ (
              if bytes_eq key j
              then after_incr now
                  (live now (find ks key))
                  (plus delta (number_at (live now (find ks key))))
              else find ks j))
incr_by_lem now key delta ks v =
    unfold incr_by incr_by_body in
    (
      answer-with_lock now key ks (incr_by_found now key delta) (λ o. plus delta (number_at o))
          (incr_by-answer now delta key) v,
      left-with_lock now key ks (incr_by_found now key delta)
          (λ o. after_incr now o (plus delta (number_at o))) (incr_by-left now delta key)
          (unfold incr_by_body in incr_by_body-Keeps key now delta) v,
    )

number_of-string : (t : EntryType) (v : Value) (m : ℤ) → number_of t v ≡ ok m → t ≡ type_string
unfolding number_of
number_of-string type_string v m h = refl
number_of-string type_hash v m h = cc
number_of-string type_list v m h = cc
number_of-string type_set v m h = cc
number_of-string type_zset v m h = cc
number_of-string type_vector v m h = cc
number_of-string type_stream v m h = cc

number_of-print_int : (z : ℤ) → IsInt64 z → number_of type_string (text (print_int z)) ≡ ok z
unfolding number_of
number_of-print_int z h = rw (parse_int-print_int z h, number_of) refl

reads_back :
    (now delta : ℤ) (o : Option Entry) (r : Result ℤ) (n : ℤ)
    → number_at o ≡ r
    → plus delta r ≡ ok n
    → number_at (after_incr now o (plus delta r)) ≡ ok n
reads_back now delta none (ok m) n p h =
    number_of-print_int (add64 m delta) (add64-IsInt64 m delta) ∙ h
reads_back now delta (some e) (ok m) n p h =
    rw (number_of-string e.entry_type e.value m p)
      (number_of-print_int (add64 m delta) (add64-IsInt64 m delta) ∙ h)
reads_back now delta o (err x) n p h = cc

-- After an `IncrBy` that answers `n`, the key holds a string that reads as `n`.
pub number_at-incr_by :
    (now delta n : ℤ) (key : Bytes) (ks : Keyspace)
    → IsValid ks
    → (incr_by now key delta ks).0 ≡ ok n
    → number_at (find (incr_by now key delta ks).1 key) ≡ ok n
number_at-incr_by now delta n key ks v h =
    rw ((incr_by_lem now key delta ks v).1 key, beq_refl key)
      (reads_back now delta _ (number_at (live now (find ks key))) n refl
        (sym (incr_by_lem now key delta ks v).0 ∙ h))

-- Text that a key holds: the empty text without a live entry.
abbrev pub text_at : Option Entry → Result Bytes
text_at none = ok []
text_at (some e) = string_of e.entry_type e.value

abbrev pub length_of : Bytes → Result Bytes → Result ℕ
length_of val (ok t) = ok (length (t ++ val))
length_of val (err x) = err x

abbrev pub after_append : ℤ → Bytes → Option Entry → Result Bytes → Option Entry
after_append now val o (ok t) = some (rewritten now (t ++ val) o)
after_append now val o (err x) = o

module _ (now : ℤ) (val key : Bytes) where
  append-answer :
      (o : Option Entry) (s : Locked)
      → (append_found now key val (o, s)).0 ≡ length_of val (text_at o)
  unfolding append_found
  append-answer none s = refl
  append-answer (some e) s = go (string_of e.entry_type e.value)
    where
      go : (r : Result Bytes) → (append_stored now key val e r s).0 ≡ length_of val r
      go (ok n) = unfold append_stored in refl
      go (err x) = unfold append_stored in refl

  append-left :
      (o : Option Entry) (s : Locked)
      → lookup key s.entries ≡ o
      → lookup key (append_found now key val (o, s)).1.entries ≡ after_append now val o (text_at o)
  unfolding append_found
  append-left none s h = lookup-add key _ s
  append-left (some e) s h = go (string_of e.entry_type e.value)
    where
      go :
          (r : Result Bytes)
          → lookup key (append_stored now key val e r s).1.entries ≡ after_append now val (some e) r
      go (ok n) = unfold append_stored in lookup-put key _ s
      go (err x) = unfold append_stored in h

-- `Append` answers the length of the live text (empty for none) with `val` behind it, or the error
-- of an entry that holds no string. A success leaves that text under the key, with the deadline
-- that was there; an error leaves the live entry. Every other key holds what it held.
pub append_lem :
    (now : ℤ) (val key : Bytes) (ks : Keyspace)
    → IsValid ks
    → ((append_value now key val ks).0 ≡ length_of val (text_at (live now (find ks key))))
      × ((j : Bytes)
          → find (append_value now key val ks).1 j ≡ (
              if bytes_eq key j
              then after_append now val (live now (find ks key)) (text_at (live now (find ks key)))
              else find ks j))
append_lem now val key ks v =
    unfold append_value append_body in
    (
      answer-with_lock now key ks (append_found now key val) (λ o. length_of val (text_at o))
          (append-answer now val key) v,
      left-with_lock now key ks (append_found now key val) (λ o. after_append now val o (text_at o))
          (append-left now val key) (unfold append_body in append_body-Keeps key now val) v,
    )
