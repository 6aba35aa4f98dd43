-- ===== src/Keyspace/Tests.antt =====
-- Runs of the keyspace, and the theorems about it at concrete states.
use vortexkv.Prelude.{
  ◌+◌, ◌∙◌, ◌-◌, ◌%◌, ◌^◌, ◌≡◌, refl, true, not, none, some, [], ◌∷◌, Bytes, bytes, bytes_key,
  bytes_eq, if◌then◌else◌, arith, ltb,
}
use vortexkv.Prelude.Int.{ℤ, pos, negsuc, add64}
use vortexkv.Prelude.Decimal.{parse_int}
use vortexkv.Map.{is_some, lookup, insert}
use vortexkv.Keyspace.Fnv.{fnv1a, shard_index}
use vortexkv.Keyspace.Entry.{type_string, type_list, text, object, Entry, is_string, is_expired}
use vortexkv.Keyspace.Lock.{Keyspace, find, with_lock, locked, unlocked, add_entry, new_keyspace}
use vortexkv.Keyspace.Sound.{live}
use vortexkv.Keyspace.Valid.{IsValid, size, new_keyspace-IsValid}
use vortexkv.Keyspace.Ops.{
  new_entry, stamped, get, set_string, set_entry, set_nx, delete_keys, total_keys, set_body,
  set_string_body,
}
use vortexkv.Keyspace.Values.{ok, number_of, incr_by}
use vortexkv.Keyspace.Expiry.{expire, pttl}
use vortexkv.Keyspace.View.{kept_or, set_nx_lem}
use vortexkv.Keyspace.Numbers.{number_at, plus, after_incr, incr_by_lem}
use vortexkv.Keyspace.Times.{get_lem}
use vortexkv.Keyspace.Deadlines.{expire_lem, expire-seen_until, expire-negative_deadline}
use vortexkv.Keyspace.Strings.{set_string_lem, set_string-drift}
use vortexkv.Keyspace.Deletes.{listed, delete_keys_lem}
use vortexkv.Keyspace.Reach.{Reach, start, next, sets, Reach-IsValid, Reach-counted}

abbrev now : ℤ
now = pos 1000

abbrev k : Bytes
k = bytes "k"

abbrev list_entry : Entry
list_entry = new_entry now type_list (object 7)

-- A list under `k`, set by the general path.
abbrev with_list : Keyspace
with_list = set_entry now k list_entry new_keyspace

abbrev with_list-Reach : Reach with_list
with_list-Reach = next start (sets now k list_entry)

abbrev with_number : Keyspace
with_number = set_string now k (bytes "41") new_keyspace

fnv1a_of_empty : fnv1a [] ≡ 14695981039346656037
unfolding fnv1a
fnv1a_of_empty = refl

find-with_list : find with_list k ≡ some list_entry
unfolding set_entry set_body with_lock locked unlocked add_entry find new_keyspace lookup insert
    shard_index fnv1a bytes_eq
find-with_list = refl

find-with_number : find with_number k ≡ some (new_entry now type_string (text (bytes "41")))
unfolding set_string set_string_body with_lock locked unlocked add_entry find new_keyspace lookup
    insert shard_index fnv1a bytes_eq
find-with_number = refl

with_number-IsValid : IsValid with_number
with_number-IsValid =
    (set_string_lem now k (bytes "41") new_keyspace new_keyspace-IsValid
      (unfold find new_keyspace lookup shard_index fnv1a in tt)).0

incr-with_number : (incr_by now k (pos 1) with_number).0 ≡ ok (pos 42)
incr-with_number =
    (incr_by_lem now k (pos 1) with_number with_number-IsValid).0
    ∙ rw find-with_number (unfold is_expired number_of parse_int add64 in refl)

-- The deadline is 900, which is past.
expire-in_past : (expire now k (negsuc 99) with_number).0 ≡ true
expire-in_past =
    (expire_lem k now (negsuc 99) with_number with_number-IsValid).0
    ∙ rw find-with_number (unfold is_expired is_some in refl)

expire-before_epoch : (expire now k (negsuc 2000) with_number).0 ≡ true
expire-before_epoch =
    (expire_lem k now (negsuc 2000) with_number with_number-IsValid).0
    ∙ rw find-with_number (unfold is_expired is_some in refl)

Reach-counted_example :
    (total_keys with_list % 2 ^ 64 ≡ size with_list.shards % 2 ^ 64) × IsValid with_list
Reach-counted_example = Reach-counted with_list-Reach

set_string-drift_example :
    (size (set_string now k (bytes "v") with_list).shards ≡ size with_list.shards)
    × ((set_string now k (bytes "v") with_list).key_count ≡ (with_list.key_count + 1) % 2 ^ 64)
    × (¬ IsValid (set_string now k (bytes "v") with_list))
set_string-drift_example =
    set_string-drift now k (bytes "v") with_list list_entry (Reach-IsValid with_list-Reach)
      find-with_list (unfold is_string in refl)

get_lem_example :
    ((get now k with_number).0 ≡ live now (find with_number k))
    × ((j : Bytes)
        → find (get now k with_number).1 j
          ≡ (if bytes_eq k j then live now (find with_number k) else find with_number j))
get_lem_example = get_lem now k with_number with_number-IsValid

set_nx_lem_example :
    ((set_nx now k list_entry with_number).0 ≡ not (is_some (live now (find with_number k))))
    × ((j : Bytes)
        → find (set_nx now k list_entry with_number).1 j ≡ (
            if bytes_eq k j
            then kept_or (stamped now list_entry) (live now (find with_number k))
            else find with_number j))
set_nx_lem_example = set_nx_lem now k list_entry with_number with_number-IsValid

incr_by_lem_example :
    ((incr_by now k (pos 1) with_number).0
      ≡ plus (pos 1) (number_at (live now (find with_number k))))
    × ((j : Bytes)
        → find (incr_by now k (pos 1) with_number).1 j ≡ (
            if bytes_eq k j
            then after_incr now
                (live now (find with_number k))
                (plus (pos 1) (number_at (live now (find with_number k))))
            else find with_number j))
incr_by_lem_example = incr_by_lem now k (pos 1) with_number with_number-IsValid

expire-seen_until_example :
    (is_some (live (pos 899) (find (expire now k (negsuc 99) with_number).1 k)) ≡ ltb 899 900)
    × ((pttl (pos 899) (pos 899) k (expire now k (negsuc 99) with_number).1).0
        ≡ (if ltb 899 900 then pos (900 - 899) else negsuc 1))
expire-seen_until_example =
    expire-seen_until now (negsuc 99) 900 899 k with_number with_number-IsValid expire-in_past
      (omega arith) (omega arith) (omega arith)

expire-negative_deadline_example :
    is_some (live (pos 5000) (find (expire now k (negsuc 2000) with_number).1 k)) ≡ true
expire-negative_deadline_example =
    expire-negative_deadline now (negsuc 2000) 1000 k with_number with_number-IsValid
      expire-before_epoch (unfold add64 in refl) (pos 5000)

delete_keys_lem_example :
    IsValid (delete_keys (k ∷ k ∷ []) with_number).1
    × ((delete_keys (k ∷ k ∷ []) with_number).0
          + size (delete_keys (k ∷ k ∷ []) with_number).1.shards
        ≡ size with_number.shards)
    × ((j : Bytes)
        → find (delete_keys (k ∷ k ∷ []) with_number).1 j
          ≡ (if listed (k ∷ k ∷ []) j then none else find with_number j))
delete_keys_lem_example = delete_keys_lem (k ∷ k ∷ []) with_number with_number-IsValid
