-- ===== src/Datastruct/Stream/Tests.antt =====
-- A small stream with a group, and the theorems about streams at them.
use Prim.Native.Nat.{compare}
use vortexkv.Prelude.{
  ◌*◌, ◌+◌, ◌^◌, ◌≡◌, ◌||◌, ◌&&◌, not, false, Option, none, some, [], ◌∷◌, ◌++◌, List, Bytes, bytes,
  bytes_key, bytes_eq, refl, sym, ap, subst, ◌∙◌, ◌≤◌, ◌<◌, ◌-◌, arith,
}
use vortexkv.Prelude.Every.{keep}
use vortexkv.Prelude.Int.{pos}
use vortexkv.Prelude.Decimal.{parse_uint, print, print_fuel}
use vortexkv.Map.{Map, Distinct, lookup, is_some}
use vortexkv.Datastruct.Stream.Ids.{
  StreamId, split, id_string, parse_stream_id, compare_stream_ids, compare_stream_ids-id_string,
}
use vortexkv.Datastruct.Stream.Entries.{
  before_suffix, StreamEntry, PendingEntry, Consumer, ConsumerGroup, Stream, new_stream, AddResult,
  assigned, refused, add_entry, range_entries, rev_range_entries, entry_of,
}
use vortexkv.Datastruct.Stream.Ordered.{IsOrdered}
use vortexkv.Datastruct.Stream.Additions.{Added, add_entry_lem, add_entry-wrap}
use vortexkv.Datastruct.Stream.Ranges.{limited, within, range_entries_lem}
use vortexkv.Datastruct.Stream.Groups.{create_group, read_group, ack, delete_consumer}
use vortexkv.Datastruct.Stream.Pending.{IsAgreed, Acked, listed, ack_lem}
use vortexkv.Datastruct.Stream.Deliveries.{after, has_id, Unread, read_group_lem}

new_stream-IsOrdered : IsOrdered new_stream
unfolding new_stream
new_stream-IsOrdered = record { word = (omega arith, omega arith); numbered = tt; ascending = tt }

abbrev color : Map Bytes Bytes
color = (bytes "color", bytes "red") ∷ []

abbrev one : Stream
one = (add_entry 5 (bytes "*") color (bytes "color" ∷ []) new_stream).1

abbrev two : Stream
two = (add_entry 5 (bytes "*") color (bytes "color" ∷ []) one).1

small_seq : new_stream.last_id.seq + 1 < 2 ^ 64
unfolding new_stream
small_seq = omega arith

one-IsOrdered : IsOrdered one
one-IsOrdered =
    (add_entry_lem 5 (bytes "*") color (bytes "color" ∷ []) new_stream new_stream-IsOrdered
      (omega arith) small_seq).0

one_seq : one.last_id.seq + 1 < 2 ^ 64
unfolding new_stream add_entry bytes_eq
one_seq = omega arith

add_entry_lem_example :
    IsOrdered (add_entry 5 (bytes "*") color (bytes "color" ∷ []) one).1
    × Added color (bytes "color" ∷ []) one (add_entry 5 (bytes "*") color (bytes "color" ∷ []) one)
add_entry_lem_example =
    add_entry_lem 5 (bytes "*") color (bytes "color" ∷ []) one one-IsOrdered (omega arith) one_seq

two-IsOrdered : IsOrdered two
two-IsOrdered = add_entry_lem_example.0

abbrev low : StreamId
low = record { millis = 5; seq = 0 }

abbrev high : StreamId
high = record { millis = 5; seq = 1 }

compare_stream_ids-id_string_example :
    compare_stream_ids (id_string low) (id_string high) ≡ compare (5 * 2 ^ 64 + 0) (5 * 2 ^ 64 + 1)
compare_stream_ids-id_string_example =
    compare_stream_ids-id_string low high (omega arith, omega arith) (omega arith, omega arith)

range_entries_lem_example :
    range_entries (id_string high) (id_string high) (pos 7) two
    ≡ limited (pos 7) (keep (within high high) two.entries)
range_entries_lem_example =
    range_entries_lem high high (pos 7) two (omega arith, omega arith) (omega arith, omega arith)
      two-IsOrdered

abbrev last_text : Bytes
last_text = bytes "5-18446744073709551615"

abbrev full : Stream
full = (add_entry 5 last_text color (bytes "color" ∷ []) new_stream).1

full-IsOrdered : IsOrdered full
full-IsOrdered =
    (add_entry_lem 5 last_text color (bytes "color" ∷ []) new_stream new_stream-IsOrdered
      (omega arith) small_seq).0

full_seq : full.last_id.seq ≡ 2 ^ 64 - 1
unfolding new_stream add_entry bytes_eq before_suffix parse_stream_id split parse_uint
full_seq = refl

abbrev full_entry : StreamEntry
full_entry = entry_of full.last_id color (bytes "color" ∷ [])

full_entries : full.entries ≡ [] ++ (full_entry ∷ [])
unfolding new_stream add_entry bytes_eq before_suffix parse_stream_id split parse_uint
full_entries = refl

full_late : 5 ≤ full.last_id.millis
unfolding new_stream add_entry bytes_eq before_suffix parse_stream_id split parse_uint
full_late = omega arith

add_entry-wrap_example :
    ((add_entry 5 (bytes "*") color [] full).0
      ≡ assigned (record { millis = full.last_id.millis; seq = 0 }))
    × (¬ IsOrdered (add_entry 5 (bytes "*") color [] full).1)
add_entry-wrap_example =
    add_entry-wrap 5 color [] full [] full_entry full-IsOrdered full_entries refl full_seq full_late

-- Both entries are there, and the group has read none.
abbrev grouped : Stream
grouped = (create_group (bytes "g") (bytes "0-0") two).1

abbrev origin : StreamId
origin = record { millis = 0; seq = 0 }

abbrev fresh : ConsumerGroup
fresh = record { name = bytes "g"; last_delivered_id = id_string origin; consumers = []; pel = [] }

fresh_found : lookup (bytes "g") grouped.groups ≡ some fresh
unfolding new_stream add_entry create_group id_string lookup is_some bytes_eq vortexkv.Map.insert
    print
fresh_found = refl

grouped-IsOrdered : IsOrdered grouped
unfolding create_group is_some add_entry lookup bytes_eq new_stream
grouped-IsOrdered = record {
  word = two-IsOrdered.word;
  numbered = two-IsOrdered.numbered;
  ascending = two-IsOrdered.ascending;
}

fresh-IsAgreed : IsAgreed grouped.heap fresh
unfolding new_stream add_entry create_group bytes_eq lookup
fresh-IsAgreed = record {
  agree = λ name id. refl;
  allocated = λ id p h. absurd (ground (arith, h));
  distinct = tt;
}

fresh-Unread : Unread origin fresh.pel grouped.entries
unfolding new_stream add_entry create_group is_some lookup bytes_eq
fresh-Unread = ((λ h. refl), ((λ h. refl), tt))

abbrev after_read : Option (List StreamEntry) × Stream
after_read = read_group (pos 9) (bytes "g") (bytes "ann") (bytes ">") (pos 0) false grouped

read_group_lem_example :
    (after_read.0 ≡ some (limited (pos 0) (keep (after origin) grouped.entries)))
    × (g' : ConsumerGroup) × (lookup (bytes "g") after_read.1.groups ≡ some g')
    × IsAgreed after_read.1.heap g'
    × ((j : Bytes)
        → is_some (lookup j g'.pel) ≡ (
            is_some (lookup j fresh.pel)
            || (not false && has_id j (limited (pos 0) (keep (after origin) grouped.entries)))))
read_group_lem_example =
    read_group_lem (pos 9) (bytes "g") (bytes "ann") (pos 0) false grouped fresh origin
      grouped-IsOrdered fresh_found fresh-IsAgreed (omega arith, omega arith) refl fresh-Unread

abbrev ann : Consumer
ann = record {
  name = bytes "ann";
  seen_time = pos 9;
  pel = (bytes "5-0", 0) ∷ (bytes "5-1", 1) ∷ [];
}

-- The group when "ann" has read both entries.
abbrev busy : ConsumerGroup
busy = record {
  name = bytes "g";
  last_delivered_id = bytes "5-1";
  consumers = (bytes "ann", ann) ∷ [];
  pel = (bytes "5-0", 0) ∷ (bytes "5-1", 1) ∷ [];
}

busy_found : lookup (bytes "g") after_read.1.groups ≡ some busy
unfolding new_stream add_entry create_group read_group id_string print_fuel lookup is_some bytes_eq
    vortexkv.Map.insert compare_stream_ids print parse_stream_id split parse_uint
    vortexkv.Datastruct.Stream.Entries.reached vortexkv.Datastruct.Stream.Groups.deliver
busy_found = refl

some-injective : {A : Type 0} (a b : A) → some a ≡ some b → a ≡ b
some-injective a b e = ap (λ o. elim o [ none ↦ a | some x ↦ x ]) e

busy-IsAgreed : IsAgreed after_read.1.heap busy
busy-IsAgreed =
    let (answer, g', found, agreed, pel) = read_group_lem_example in
    subst (IsAgreed after_read.1.heap) (some-injective g' busy (sym found ∙ busy_found)) agreed

ack_lem_example :
    (g' : ConsumerGroup) × (lookup
        (bytes "g")
        (ack (bytes "g") (bytes "5-0" ∷ bytes "7-0" ∷ []) after_read.1).1.groups
      ≡ some g')
    × ((ack (bytes "g") (bytes "5-0" ∷ bytes "7-0" ∷ []) after_read.1).1.heap ≡ after_read.1.heap)
    × Acked after_read.1.heap busy
        (listed (bytes "5-0" ∷ bytes "7-0" ∷ []))
        ((ack (bytes "g") (bytes "5-0" ∷ bytes "7-0" ∷ []) after_read.1).0, g')
ack_lem_example =
    ack_lem (bytes "g") (bytes "5-0" ∷ bytes "7-0" ∷ []) after_read.1 busy busy_found busy-IsAgreed
