-- ===== src/Datastruct/Stream/Removals.antt =====
-- `Delete` and `Trim`: what goes, how much, and that the rest stays in order.
use vortexkv.Prelude.{
  ℕ, ◌+◌, ◌-◌, ◌≤◌, ◌≡◌, refl, ap, Bool-cases, not, inl, inr, List, [], ◌∷◌, Bytes, leb, arith,
  length, drop, length-drop,
}
use vortexkv.Prelude.Int.{pos}
use vortexkv.Prelude.Every.{All, Pairwise, Pairwise-keep, Pairwise-drop, All-keep, All-drop, keep}
use vortexkv.Datastruct.Stream.Entries.{
  StreamEntry, Stream, delete_entries, delete_loop, is_listed, trim,
}
use vortexkv.Datastruct.Stream.Ordered.{UpTo, Before, IsOrdered}

delete_loop-keep :
    (ids : List Bytes) (es : List StreamEntry)
    → (delete_loop ids es).1 ≡ keep (λ e. not (is_listed ids e.id)) es
unfolding delete_loop keep
delete_loop-keep ids [] = refl
delete_loop-keep ids (e ∷ es) = elim (Bool-cases (is_listed ids e.id)) [
  | inl hit ↦ rw hit (delete_loop-keep ids es)
  | inr miss ↦ rw miss (ap (λ r. e ∷ r) (delete_loop-keep ids es))
]

delete_loop-count :
    (ids : List Bytes) (es : List StreamEntry)
    → (delete_loop ids es).0 + length (delete_loop ids es).1 ≡ length es
unfolding delete_loop
delete_loop-count ids [] = omega arith
delete_loop-count ids (e ∷ es) = elim (Bool-cases (is_listed ids e.id)) [
  | inl hit ↦ rw hit (omega (arith, delete_loop-count ids es))
  | inr miss ↦ rw miss (omega (arith, delete_loop-count ids es))
]

with_entries-IsOrdered :
    (es : List StreamEntry) (s : Stream)
    → IsOrdered s
    → All (UpTo s.last_id) es
    → Pairwise Before es
    → IsOrdered (record s { entries = es })
with_entries-IsOrdered es s v h k = record { word = v.word; numbered = h; ascending = k }

-- `Delete` keeps the order, leaves exactly the entries that are not listed, in their order, and
-- answers how many are gone.
pub delete_entries_lem :
    (ids : List Bytes) (s : Stream)
    → IsOrdered s
    → IsOrdered (delete_entries ids s).1
      × ((delete_entries ids s).1.entries ≡ keep (λ e. not (is_listed ids e.id)) s.entries)
      × ((delete_entries ids s).0 + length (delete_entries ids s).1.entries ≡ length s.entries)
unfolding delete_entries
delete_entries_lem ids s v = (
  with_entries-IsOrdered (delete_loop ids s.entries).1 s v
      (rw (delete_loop-keep ids s.entries) (All-keep (UpTo s.last_id) _ s.entries v.numbered))
      (rw (delete_loop-keep ids s.entries) (Pairwise-keep Before _ s.entries v.ascending)),
  delete_loop-keep ids s.entries,
  delete_loop-count ids s.entries,
)

-- `Trim` to a length that is not negative keeps the order, leaves the newest entries, at most that
-- many and all where there are no more, and answers how many are gone.
pub trim_lem :
    (max : ℕ) (s : Stream)
    → IsOrdered s
    → IsOrdered (trim (pos max) s).1
      × ((trim (pos max) s).1.entries ≡ drop (trim (pos max) s).0 s.entries)
      × ((trim (pos max) s).0 ≡ length s.entries - max)
      × (length (trim (pos max) s).1.entries ≤ max)
unfolding trim
trim_lem max s v = elim (Bool-cases (leb (length s.entries) max)) [
  | inl fits ↦ rw fits (v, refl, ground arith, ground arith)
  | inr over ↦ rw over (
    with_entries-IsOrdered (drop (length s.entries - max) s.entries) s v
        (All-drop (UpTo s.last_id) (length s.entries - max) s.entries v.numbered)
        (Pairwise-drop Before (length s.entries - max) s.entries v.ascending),
    refl,
    refl,
    omega (arith, length-drop (length s.entries - max) s.entries),
  )
]
