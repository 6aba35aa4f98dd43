-- ===== src/Datastruct/Stream/Ids.antt =====
-- Stream ids: two 64-bit numbers, printed and compared as text.
use Prim.Native.Nat.{compare, Ordering}
use Prim.Native.Nat.Ordering.{lt, eq, gt}
use vortexkv.Prelude.{
  ℕ, ◌+◌, ◌*◌, ◌^◌, ◌<◌, ◌≡◌, refl, sym, ap, ap₂, ◌∙◌, Bool-cases, false, ◌||◌, Option, none, some,
  inl, inr, List, [], ◌∷◌, ◌++◌, Bytes, bytes, bytes_eq, bytes_eq_iff, bytes_eq_ne, ◌==◌, ==_ne,
  if◌then◌else◌, arith,
}
use vortexkv.Prelude.Decimal.{print, parse_uint, parse_uint-print, Digits, print-Digits}

pub record StreamId : Type 0 where
  pub millis : ℕ
  pub seq : ℕ

abbrev pub IsWordId : StreamId → Type 0
IsWordId sid = (sid.millis < 2 ^ 64) × (sid.seq < 2 ^ 64)

-- `String`
unfoldable pub id_string : StreamId → Bytes
id_string sid = print sid.millis ++ (b'-' ∷ print sid.seq)

-- `strings.Split` at one byte
unfoldable pub split_cons : ℕ → List Bytes → List Bytes
split_cons c [] = (c ∷ []) ∷ []
split_cons c (part ∷ parts) = (c ∷ part) ∷ parts

unfoldable pub split : ℕ → Bytes → List Bytes
unfolding split_cons
split sep [] = [] ∷ []
split sep (c ∷ cs) = let rest = split sep cs in if c == sep then [] ∷ rest else split_cons c rest

unfoldable pub id_of : Option ℕ → Option ℕ → Option StreamId
id_of (some m) (some s) = some (record { millis = m; seq = s })
id_of _ _ = none

unfoldable pub id_of_parts : List Bytes → Option StreamId
unfolding id_of
id_of_parts (m ∷ []) = id_of (parse_uint m) (some 0)
id_of_parts (m ∷ s ∷ []) = id_of (parse_uint m) (parse_uint s)
id_of_parts _ = none

-- `ParseStreamID`; its errors are `none`.
unfoldable pub parse_stream_id : Bytes → Option StreamId
unfolding id_of_parts
parse_stream_id id = id_of_parts (split b'-' id)

-- `strings.Compare`
unfoldable pub bytes_compare : Bytes → Bytes → Ordering
bytes_compare [] [] = eq
bytes_compare [] (y ∷ ys) = lt
bytes_compare (x ∷ xs) [] = gt
bytes_compare (x ∷ xs) (y ∷ ys) = elim (compare x y) [
  | lt ↦ lt
  | gt ↦ gt
  | eq ↦ bytes_compare xs ys
]

-- The order of ids by their numbers.
unfoldable pub compare_numbers : StreamId → StreamId → Ordering
compare_numbers a b = elim (compare a.millis b.millis) [
  | lt ↦ lt
  | gt ↦ gt
  | eq ↦ compare a.seq b.seq
]

unfoldable pub compare_parsed : Option StreamId → Option StreamId → Ordering → Ordering
unfolding compare_numbers
compare_parsed (some a) (some b) otherwise = compare_numbers a b
compare_parsed _ _ otherwise = otherwise

-- `CompareStreamIDs`: `lt` is -1 and `gt` is 1.
unfoldable pub compare_stream_ids : Bytes → Bytes → Ordering
unfolding compare_parsed
compare_stream_ids a b =
    if bytes_eq a b
    then eq
    else if bytes_eq a (bytes "-") || bytes_eq b (bytes "+")
    then lt
    else if bytes_eq a (bytes "+") || bytes_eq b (bytes "-")
    then gt
    else compare_parsed (parse_stream_id a) (parse_stream_id b) (bytes_compare a b)

split-Digits : (xs : Bytes) → Digits xs → split b'-' xs ≡ xs ∷ []
unfolding split
split-Digits [] h = refl
split-Digits (x ∷ xs) h = rw (==_ne x 45 (ground arith), split-Digits xs h.1) refl

split-append : (xs ys : Bytes) → Digits xs → split b'-' (xs ++ (b'-' ∷ ys)) ≡ xs ∷ split b'-' ys
unfolding split
split-append [] ys h = refl
split-append (x ∷ xs) ys h = rw (==_ne x 45 (ground arith), split-append xs ys h.1) refl

-- What `String` prints, `ParseStreamID` reads.
pub parse_stream_id-id_string :
    (sid : StreamId) → IsWordId sid → parse_stream_id (id_string sid) ≡ some sid
unfolding parse_stream_id id_string
parse_stream_id-id_string sid h =
    let parts : split b'-' (print sid.millis ++ (b'-' ∷ print sid.seq))
        ≡ print sid.millis ∷ print sid.seq ∷ [] =
      split-append (print sid.millis) (print sid.seq) (print-Digits sid.millis)
      ∙ ap (λ r. print sid.millis ∷ r) (split-Digits (print sid.seq) (print-Digits sid.seq)) in
    ap id_of_parts parts
    ∙ ap₂ id_of (parse_uint-print sid.millis h.0) (parse_uint-print sid.seq h.1)

-- A text that is no id is no printed id.
pub id_string-ne :
    (sid : StreamId) (other : Bytes)
    → IsWordId sid
    → parse_stream_id other ≡ none
    → bytes_eq (id_string sid) other ≡ false
id_string-ne sid other h bad = bytes_eq_ne (id_string sid) other λ e.
    let clash : some sid ≡ none =
      sym (parse_stream_id-id_string sid h) ∙ ap parse_stream_id e ∙ bad in
    absurd (ground (arith, clash))

pub no_dash : parse_stream_id (bytes "-") ≡ none
unfolding parse_stream_id split parse_uint
no_dash = refl

pub no_text : parse_stream_id [] ≡ none
unfolding parse_stream_id split parse_uint
no_text = refl

pub no_plus : parse_stream_id (bytes "+") ≡ none
unfolding parse_stream_id split parse_uint
no_plus = refl

pub compare_stream_ids-numbers :
    (a b : StreamId)
    → IsWordId a
    → IsWordId b
    → compare_stream_ids (id_string a) (id_string b) ≡ compare_numbers a b
unfolding compare_stream_ids compare_parsed
compare_stream_ids-numbers a b h k = elim (Bool-cases (bytes_eq (id_string a) (id_string b))) [
  | inl same ↦
      let e : some a ≡ some b =
        sym (parse_stream_id-id_string a h)
        ∙ ap parse_stream_id ((bytes_eq_iff (id_string a) (id_string b)).0 same)
        ∙ parse_stream_id-id_string b k in
      rw same (ground (arith, e))
  | inr other ↦
      rw
        (
          other,
          id_string-ne a (bytes "-") h no_dash,
          id_string-ne a (bytes "+") h no_plus,
          id_string-ne b (bytes "-") k no_dash,
          id_string-ne b (bytes "+") k no_plus,
          parse_stream_id-id_string a h,
          parse_stream_id-id_string b k,
        )
        refl
]

-- The order of pairs is that of one number of 128 bits.
compare_numbers-eq-compare :
    (a b : StreamId)
    → IsWordId a
    → IsWordId b
    → compare_numbers a b ≡ compare (a.millis * 2 ^ 64 + a.seq) (b.millis * 2 ^ 64 + b.seq)
unfolding compare_numbers
compare_numbers-eq-compare a b h k = ground (arith, h.0, h.1, k.0, k.1)

-- On the texts of two ids of 64-bit numbers, `CompareStreamIDs` answers the order of the numbers
-- millis * 2^64 + seq.
pub compare_stream_ids-id_string :
    (a b : StreamId)
    → IsWordId a
    → IsWordId b
    → compare_stream_ids (id_string a) (id_string b)
      ≡ compare (a.millis * 2 ^ 64 + a.seq) (b.millis * 2 ^ 64 + b.seq)
compare_stream_ids-id_string a b h k =
    compare_stream_ids-numbers a b h k ∙ compare_numbers-eq-compare a b h k
