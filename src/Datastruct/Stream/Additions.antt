-- ===== src/Datastruct/Stream/Additions.antt =====
-- `Add`, `Delete` and `Trim`: what they answer, and that the ids stay in order.
use vortexkv.Prelude.{
  ℕ, ◌+◌, ◌-◌, ◌^◌, ◌≤◌, ◌<◌, ◌≡◌, refl, sym, ap, subst, ◌∙◌, Option, some, inl, inr, ◌⊎◌, List, [],
  ◌∷◌, ◌++◌, Bytes, bytes, bytes_eq, arith,
}
use vortexkv.Prelude.Every.{All}
use vortexkv.Map.{Map}
use vortexkv.Datastruct.Stream.Ids.{
  StreamId, IsWordId, id_string, parse_stream_id, parse_stream_id-id_string,
}
use vortexkv.Datastruct.Stream.Entries.{
  StreamEntry, Stream, AddResult, AddError, assigned, refused, next_seq, auto_id, choose_id,
  append_entry, entry_of, add_assigned, add_entry,
}
use vortexkv.Datastruct.Stream.Ordered.{
  UpTo, Before, IsOrdered, Chosen, choose_id-Chosen, append_entry-IsOrdered, All-Before,
}

-- What `Add` did: it refused and changed nothing, or it put one entry, with an id above all others,
-- behind them.
abbrev pub Added : Map Bytes Bytes → List Bytes → Stream → AddResult × Stream → Type 0
Added fields order s r =
    ((e : AddError) × (r.0 ≡ refused e) × (r.1 ≡ s))
    ⊎ ((sid : StreamId) × (r.0 ≡ assigned sid)
        × (r.1.last_id ≡ sid)
        × (r.1.entries ≡ s.entries ++ (entry_of sid fields order ∷ []))
        × All (λ e. Before e (entry_of sid fields order)) s.entries)

add_assigned_lem :
    (a : AddResult) (fields : Map Bytes Bytes) (order : List Bytes) (s : Stream)
    → IsOrdered s
    → ((sid : StreamId) → a ≡ assigned sid → Chosen s sid)
    → IsOrdered (add_assigned a fields order s).1
      × Added fields order s (add_assigned a fields order s)
unfolding add_assigned
add_assigned_lem (refused e) fields order s v c = (v, inl (e, refl, refl))
add_assigned_lem (assigned sid) fields order s v c = (
  append_entry-IsOrdered sid fields order s v (c sid refl),
  inr (
    sid,
    refl,
    (unfold append_entry in refl),
    (unfold append_entry in refl),
    All-Before sid fields order s v (c sid refl),
  ),
)

-- On an ordered stream, with a clock in 64 bits and a last sequence number below 2^64 - 1, `Add` keeps
-- the stream ordered, and either refuses and changes nothing, or puts one entry behind the others,
-- with the id that it answers, which is above all of theirs.
pub add_entry_lem :
    (now : ℕ) (id : Bytes) (fields : Map Bytes Bytes) (order : List Bytes) (s : Stream)
    → IsOrdered s
    → now < 2 ^ 64
    → s.last_id.seq + 1 < 2 ^ 64
    → IsOrdered (add_entry now id fields order s).1
      × Added fields order s (add_entry now id fields order s)
unfolding add_entry
add_entry_lem now id fields order s v h k =
    add_assigned_lem (choose_id now id s) fields order s v
      λ sid e. choose_id-Chosen now id s sid h v.word k e

id_string-injective :
    (a b : StreamId)
    → IsWordId a
    → IsWordId b
    → id_string a ≡ id_string b
    → ◌≡◌ {A = Option StreamId} (some a) (some b)
id_string-injective a b h k e =
    sym (parse_stream_id-id_string a h) ∙ ap parse_stream_id e ∙ parse_stream_id-id_string b k

All-last :
    (P : StreamEntry → Type 0) (es : List StreamEntry) (e : StreamEntry)
    → All P (es ++ (e ∷ []))
    → P e
All-last P [] e h = h.0
All-last P (x ∷ es) e h = All-last P es e h.1

All-init : (P : StreamEntry → Type 0) (es fs : List StreamEntry) → All P (es ++ fs) → All P es
All-init P [] fs h = tt
All-init P (x ∷ es) fs h = (h.0, All-init P es fs h.1)

add_star :
    (now : ℕ) (fields : Map Bytes Bytes) (order : List Bytes) (s : Stream)
    → add_entry now (bytes "*") fields order s
      ≡ (assigned (auto_id now s.last_id), append_entry (auto_id now s.last_id) fields order s)
unfolding add_entry choose_id add_assigned bytes_eq
add_star now fields order s = refl

-- Where the last entry carries the last id, its sequence number is 2^64 - 1 and the clock is not past
-- its milliseconds, `Add` with "*" answers the sequence number 0, and the stream is ordered no more.
pub add_entry-wrap :
    (now : ℕ) (fields : Map Bytes Bytes) (order : List Bytes) (s : Stream) (es : List StreamEntry)
    (e : StreamEntry)
    → IsOrdered s
    → s.entries ≡ es ++ (e ∷ [])
    → e.id ≡ id_string s.last_id
    → s.last_id.seq ≡ 2 ^ 64 - 1
    → now ≤ s.last_id.millis
    → ((add_entry now (bytes "*") fields order s).0
        ≡ assigned (record { millis = s.last_id.millis; seq = 0 }))
      × (¬ IsOrdered (add_entry now (bytes "*") fields order s).1)
add_entry-wrap now fields order s es e v split top full late =
    let wrapped : auto_id now s.last_id ≡ record { millis = s.last_id.millis; seq = 0 } =
      unfold auto_id next_seq in ground (arith, full, late) in
    (
      ap (λ r. r.0) (add_star now fields order s) ∙ ap assigned wrapped,
      λ w.
          let all : All (UpTo (auto_id now s.last_id))
              (s.entries ++ (entry_of (auto_id now s.last_id) fields order ∷ [])) =
            (let w' : IsOrdered (append_entry (auto_id now s.last_id) fields order s) =
                subst (λ r. IsOrdered r.1) (add_star now fields order s) w in
              unfold append_entry in w'.numbered) in
          let kept : All (UpTo (auto_id now s.last_id)) (es ++ (e ∷ [])) =
            subst (All (UpTo (auto_id now s.last_id))) split
              (All-init (UpTo (auto_id now s.last_id)) s.entries _ all) in
          let (k, m, below) = All-last (UpTo (auto_id now s.last_id)) es e kept in
          let same = id_string-injective k s.last_id m.1 v.word (sym m.0 ∙ top) in
          ground (arith, same, wrapped, full, below),
    )
