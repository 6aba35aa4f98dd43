-- ===== src/Datastruct/Stream/Ordered.antt =====
-- The ids of a stream's entries ascend, and none is above the last id.
use Prim.Native.Nat.Ordering.{lt}
use vortexkv.Prelude.{
  ℕ, ◌+◌, ◌^◌, ◌<◌, ◌≡◌, refl, sym, ap, ap₂, subst, ◌∙◌, Bool, Bool-cases, true, false, ◌&&◌, ◌||◌,
  Option, none, some, inl, inr, ◌⊎◌, List, [], ◌∷◌, Bytes, bytes, bytes_eq, ltb, ◌==◌, arith,
}
use vortexkv.Prelude.Decimal.{parse_uint, parse_uint-lt}
use vortexkv.Prelude.Every.{All, Pairwise, Pairwise-snoc, All-append, All-map}
use vortexkv.Map.{Map}
use vortexkv.Datastruct.Stream.Ids.{
  StreamId, IsWordId, id_string, parse_stream_id, id_of, id_of_parts, compare_numbers,
  compare_stream_ids, split, compare_stream_ids-numbers,
}
use vortexkv.Datastruct.Stream.Entries.{
  StreamEntry, Stream, assigned, next_seq, auto_id, partial_id, not_above, explicit_id, suffixed_id,
  choose_id, append_entry, entry_of, before_suffix,
}

abbrev pub id_lt : StreamId → StreamId → Bool
id_lt a b = ltb a.millis b.millis || (a.millis == b.millis && ltb a.seq b.seq)

-- The entry's id is printed from 64-bit numbers.
abbrev pub Numbered : StreamEntry → StreamId → Type 0
Numbered e i = (e.id ≡ id_string i) × IsWordId i

abbrev pub UpTo : StreamId → StreamEntry → Type 0
UpTo last e = (i : StreamId) × Numbered e i × (id_lt last i ≡ false)

-- The id of the one entry is below that of the other.
abbrev pub Before : StreamEntry → StreamEntry → Type 0
Before e e' = compare_stream_ids e.id e'.id ≡ lt

pub record IsOrdered (s : Stream) : Type 0 where
  pub word : IsWordId s.last_id
  pub numbered : All (UpTo s.last_id) s.entries
  pub ascending : Pairwise Before s.entries

compare_numbers-lt : (a b : StreamId) → id_lt a b ≡ true → compare_numbers a b ≡ lt
unfolding compare_numbers
compare_numbers-lt a b h = ground arith

pub compare_numbers_iff : (a b : StreamId) → compare_numbers a b ≡ lt → id_lt a b ≡ true
unfolding compare_numbers
compare_numbers_iff a b h = ground arith

-- An entry whose id is not above `last` stands before one whose id is.
UpTo-Before :
    (last i : StreamId) (e new : StreamEntry)
    → Numbered new i
    → id_lt last i ≡ true
    → UpTo last e
    → Before e new
UpTo-Before last i e new n h (k, m, below) =
    ap₂ compare_stream_ids m.0 n.0
    ∙ compare_stream_ids-numbers k i m.1 n.1
    ∙ compare_numbers-lt k i (ground arith)

-- A rise of the last id keeps what was below it below it.
UpTo-mono :
    (last last' : StreamId) (e : StreamEntry)
    → id_lt last' last ≡ false
    → UpTo last e
    → UpTo last' e
UpTo-mono last last' e h (k, m, below) = (k, m, ground arith)

id_of-IsWordId :
    (m s : Option ℕ) (sid : StreamId)
    → ((n : ℕ) → m ≡ some n → n < 2 ^ 64)
    → ((n : ℕ) → s ≡ some n → n < 2 ^ 64)
    → id_of m s ≡ some sid
    → IsWordId sid
unfolding id_of
id_of-IsWordId none s sid h k e = absurd (ground (arith, e))
id_of-IsWordId (some m) none sid h k e = absurd (ground (arith, e))
id_of-IsWordId (some m) (some s) sid h k e = ground (arith, e, h m refl, k s refl)

id_of_parts-IsWordId :
    (parts : List Bytes) (sid : StreamId) → id_of_parts parts ≡ some sid → IsWordId sid
unfolding id_of_parts
id_of_parts-IsWordId [] sid e = absurd (ground (arith, e))
id_of_parts-IsWordId (m ∷ []) sid e =
    id_of-IsWordId (parse_uint m) (some 0) sid (parse_uint-lt m) (λ n h. ground (arith, h)) e
id_of_parts-IsWordId (m ∷ s ∷ []) sid e =
    id_of-IsWordId (parse_uint m) (parse_uint s) sid (parse_uint-lt m) (parse_uint-lt s) e
id_of_parts-IsWordId (m ∷ s ∷ t ∷ r) sid e = absurd (ground (arith, e))

-- The id that is chosen is above the last one, or the stream has no entries.
unfoldable pub Chosen : Stream → StreamId → Type 0
Chosen s sid = IsWordId sid × ((id_lt s.last_id sid ≡ true) ⊎ (s.entries ≡ []))

auto_id-Chosen :
    (now : ℕ) (s : Stream)
    → now < 2 ^ 64
    → IsWordId s.last_id
    → s.last_id.seq + 1 < 2 ^ 64
    → Chosen s (auto_id now s.last_id)
unfolding auto_id next_seq Chosen
auto_id-Chosen now s h w k = elim (Bool-cases (ltb s.last_id.millis now)) [
  | inl later ↦ rw later ((omega arith, omega arith), inl (ground arith))
  | inr same ↦ rw same ((omega arith, omega arith), inl (ground arith))
]

partial_id-Chosen :
    (m : Option ℕ) (s : Stream) (sid : StreamId)
    → ((n : ℕ) → m ≡ some n → n < 2 ^ 64)
    → IsWordId s.last_id
    → s.last_id.seq + 1 < 2 ^ 64
    → partial_id s.last_id m ≡ assigned sid
    → Chosen s sid
unfolding partial_id next_seq Chosen
partial_id-Chosen none s sid h w k e = absurd (ground (arith, e))
partial_id-Chosen (some m) s sid h w k e =
    let word : m < 2 ^ 64 = h m refl in (ground (arith, e), inl (ground (arith, e)))

explicit_id-Chosen :
    (entries : List StreamEntry) (o : Option StreamId) (s : Stream) (sid : StreamId)
    → entries ≡ s.entries
    → ((i : StreamId) → o ≡ some i → IsWordId i)
    → explicit_id entries s.last_id o ≡ assigned sid
    → Chosen s sid
unfolding explicit_id not_above Chosen
explicit_id-Chosen es none s sid es_eq h e = absurd (ground (arith, e))
explicit_id-Chosen [] (some i) s sid es_eq h e =
    let same : i ≡ sid = ground (arith, e) in (h sid (ap some same), inr (sym es_eq))
explicit_id-Chosen (x ∷ es) (some i) s sid es_eq h e =
    let same : i ≡ sid = ground (arith, e) in (h sid (ap some same), inl (ground (arith, e)))

parse_stream_id-IsWordId :
    (id : Bytes) (sid : StreamId) → parse_stream_id id ≡ some sid → IsWordId sid
unfolding parse_stream_id
parse_stream_id-IsWordId id sid e = id_of_parts-IsWordId (split b'-' id) sid e

suffixed_id-Chosen :
    (s : Stream) (id : Bytes) (o : Option Bytes) (sid : StreamId)
    → IsWordId s.last_id
    → s.last_id.seq + 1 < 2 ^ 64
    → suffixed_id s id o ≡ assigned sid
    → Chosen s sid
unfolding suffixed_id
suffixed_id-Chosen s id none sid w k e =
    explicit_id-Chosen s.entries (parse_stream_id id) s sid refl (parse_stream_id-IsWordId id) e
suffixed_id-Chosen s id (some prefix) sid w k e =
    partial_id-Chosen (parse_uint prefix) s sid (parse_uint-lt prefix) w k e

pub choose_id-Chosen :
    (now : ℕ) (id : Bytes) (s : Stream) (sid : StreamId)
    → now < 2 ^ 64
    → IsWordId s.last_id
    → s.last_id.seq + 1 < 2 ^ 64
    → choose_id now id s ≡ assigned sid
    → Chosen s sid
unfolding choose_id
choose_id-Chosen now id s sid h w k e = elim (Bool-cases (bytes_eq id (bytes "*"))) [
  | inl star ↦
      let same : auto_id now s.last_id ≡ sid = ground (arith, e, star) in
      subst (Chosen s) same (auto_id-Chosen now s h w k)
  | inr other ↦
      suffixed_id-Chosen s id (before_suffix (bytes "-*") id) sid w k (ground (arith, e, other))
]

-- An entry with a chosen id goes behind all others.
module _ (sid : StreamId) (fields : Map Bytes Bytes) (order : List Bytes) (s : Stream) where
  pub All-Before :
      IsOrdered s → Chosen s sid → All (λ e. Before e (entry_of sid fields order)) s.entries
  unfolding Chosen
  All-Before v (w, inl above) =
      All-map (UpTo s.last_id) (λ e. Before e (entry_of sid fields order))
        (λ e. UpTo-Before s.last_id sid e (entry_of sid fields order) (refl, w) above) s.entries
        v.numbered
  All-Before v (w, inr empty) =
      subst (All (λ e. Before e (entry_of sid fields order))) (sym empty) tt

  All-UpTo : IsOrdered s → Chosen s sid → All (UpTo sid) s.entries
  unfolding Chosen
  All-UpTo v (w, inl above) =
      All-map (UpTo s.last_id) (UpTo sid) (λ e. UpTo-mono s.last_id sid e (ground arith)) s.entries
        v.numbered
  All-UpTo v (w, inr empty) = subst (All (UpTo sid)) (sym empty) tt

  pub append_entry-IsOrdered :
      IsOrdered s → Chosen s sid → IsOrdered (append_entry sid fields order s)
  unfolding append_entry Chosen
  append_entry-IsOrdered v c = record {
    word = c.0;
    numbered =
        All-append (UpTo sid) s.entries ((entry_of sid fields order) ∷ []) (All-UpTo v c)
          ((sid, (refl, c.0), ground arith), tt);
    ascending =
        Pairwise-snoc Before s.entries (entry_of sid fields order) v.ascending (All-Before v c);
  }
