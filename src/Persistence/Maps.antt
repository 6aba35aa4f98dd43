-- ===== src/Persistence/Maps.antt =====
-- Lists and maps that are read item by item.
use vortexkv.Prelude.{
  ◌≡◌, ◌∙◌, refl, sym, ap, inl, inr, false, Bool-cases, none, List, [], ◌∷◌, ◌++◌, Bytes, bytes_key,
  bytes_eq, bytes_eq_iff, arith, length,
}
use mathlib.Core.List.{append_assoc, append-nil}
use vortexkv.Prelude.Every.{All}
use vortexkv.Map.{Map, lookup, insert, Distinct}
use vortexkv.Persistence.{got, Decoder, ◌>>=◌, pure, write_all, read_times, map_of}
use vortexkv.Persistence.Numbers.{bind-got}

-- On what `P` holds of, the reader inverts the writer.
abbrev pub Inverts : {A : Type 0} → (A → Type 0) → (A → Bytes → Bytes) → Decoder A → Type 0
Inverts {A} P write read = (a : A) (rest : Bytes) → P a → read (write a rest) ≡ got a rest

pub read_times-write_all :
    {A : Type 0} (P : A → Type 0) (write : A → Bytes → Bytes) (read : Decoder A)
    → Inverts P write read
    → (as' : List A) (rest : Bytes) → All P as'
    → read_times read (length as') (write_all write as' rest) ≡ got as' rest
unfolding read_times write_all
read_times-write_all P write read inv [] rest h = refl
read_times-write_all P write read inv (a ∷ as') rest h =
    bind-got (write a (write_all write as' rest)) read
      (λ b. read_times read (length as') >>= λ bs. pure (b ∷ bs))
      (inv a (write_all write as' rest) h.0)
    ∙ bind-got (write_all write as' rest) (read_times read (length as')) (λ bs. pure (a ∷ bs))
        (read_times-write_all P write read inv as' rest h.1)

-- Inserting pairs with new keys puts them behind.
pub insert-new :
    {V : Type 0} (k : Bytes) (v : V) (m : Map Bytes V)
    → lookup k m ≡ none
    → insert k v m ≡ m ++ ((k, v) ∷ [])
unfolding insert lookup
insert-new k v [] h = refl
insert-new k v ((j, w) ∷ m) h = elim (Bool-cases (bytes_eq j k)) [
  | inl same ↦ absurd (ground (arith, h, same))
  | inr other ↦ rw other (ap (λ l. (j, w) ∷ l) (insert-new k v m (ground (arith, h, other))))
]

pub lookup-snoc :
    {V : Type 0} (k j : Bytes) (v : V) (m : Map Bytes V)
    → lookup j m ≡ none
    → bytes_eq k j ≡ false
    → lookup j (m ++ ((k, v) ∷ [])) ≡ none
unfolding lookup
lookup-snoc k j v [] h other = rw other refl
lookup-snoc k j v ((i, w) ∷ m) h other = elim (Bool-cases (bytes_eq i j)) [
  | inl same ↦ absurd (ground (arith, h, same))
  | inr new ↦ rw new (lookup-snoc k j v m (ground (arith, h, new)) other)
]

-- No key of these stands in the map.
abbrev pub Apart : {V : Type 0} → Map Bytes V → Map Bytes V → Type 0
Apart m [] = Unit
Apart m ((k, v) ∷ kvs) = (lookup k m ≡ none) × Apart m kvs

pub Apart-snoc :
    {V : Type 0} (k : Bytes) (v : V) (m kvs : Map Bytes V)
    → Apart m kvs
    → lookup k kvs ≡ none
    → Apart (m ++ ((k, v) ∷ [])) kvs
unfolding lookup
Apart-snoc k v m [] a h = tt
Apart-snoc k v m ((j, w) ∷ kvs) a h = elim (Bool-cases (bytes_eq j k)) [
  | inl same ↦ absurd (ground (arith, h, same))
  | inr other ↦ (
    lookup-snoc k j v m a.0 (ground (arith, other, bytes_eq_iff j k, bytes_eq_iff k j)),
    Apart-snoc k v m kvs a.1 (ground (arith, h, other)),
  )
]

pub map_of-append :
    {V : Type 0} (m kvs : Map Bytes V) → Apart m kvs → Distinct kvs → map_of kvs m ≡ m ++ kvs
unfolding map_of
map_of-append m [] a d = sym (append-nil m)
map_of-append m ((k, v) ∷ kvs) a d =
    ap (map_of kvs) (insert-new k v m a.0)
    ∙ map_of-append (m ++ ((k, v) ∷ [])) kvs (Apart-snoc k v m kvs a.1 d.0) d.1
    ∙ append_assoc m ((k, v) ∷ []) kvs

pub Apart-nil : {V : Type 0} (kvs : Map Bytes V) → Apart [] kvs
unfolding lookup
Apart-nil [] = tt
Apart-nil ((k, v) ∷ kvs) = (refl, Apart-nil kvs)
