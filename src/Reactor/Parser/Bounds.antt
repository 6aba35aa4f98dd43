-- ===== src/Reactor/Parser/Bounds.antt =====
-- A parsed command takes at least one byte, and no more than there are.
use vortexkv.Prelude.{
  ℕ, zero, suc, ◌+◌, ◌-◌, ◌≤◌, ◌<◌, ◌≡◌, ◌≢◌, subst, refl, ◌^◌, not, ◌&&◌, ◌||◌, Option, none, some,
  List, [], ◌∷◌, ◌++◌, Bytes, length, get_or, ltb, leb, ◌==◌, arith, length-drop, Bool-cases, inl,
  inr,
}
use vortexkv.Reactor.Parser.{
  Parsed, command, index_byte, Line, no_line, bad_line, line, line_at, header, word_from, bulk_len,
  bulk_body, bulk_line, Turn, argument, stop, payload, bulk, bulks, with_count, array_body,
  array_line, parse_array,
}

-- An index that is there lies inside.
IsInside : ℕ → Option ℕ → Type 0
IsInside n none = Unit
IsInside n (some i) = i < n

IsInside-suc :
    (n : ℕ) (o : Option ℕ)
    → IsInside n o
    → IsInside (suc n) (elim o [ none ↦ none | some i ↦ some (suc i) ])
unfolding IsInside
IsInside-suc n none h = tt
IsInside-suc n (some i) h = omega arith

index_byte-IsInside : (b : ℕ) (xs : Bytes) → IsInside (length xs) (index_byte b xs)
unfolding index_byte
index_byte-IsInside b [] = unfold IsInside in tt
index_byte-IsInside b (x ∷ xs) = elim (Bool-cases (x == b)) [
  | inl here ↦ rw here (unfold IsInside in omega arith)
  | inr there ↦ rw there (IsInside-suc (length xs) (index_byte b xs) (index_byte-IsInside b xs))
]

-- The bytes that a line accounts for.
abbrev Accounts : Bytes → Line → Type 0
Accounts rest no_line = Unit
Accounts rest bad_line = Unit
Accounts rest (line body after idx) = idx + 1 + length after ≡ length rest

line_at-Accounts :
    (rest : Bytes) (o : Option ℕ) → IsInside (length rest) o → Accounts rest (line_at rest o)
unfolding line_at IsInside
line_at-Accounts rest none h = tt
line_at-Accounts rest (some idx) h =
    elim (Bool-cases (ltb idx 2 || not (get_or rest (idx - 1) 0 == 13))) [
      | inl bad ↦ rw bad tt
      | inr good ↦ rw good (omega (arith, length-drop (idx + 1) rest))
    ]

header-Accounts : (rest : Bytes) → Accounts rest (header rest)
unfolding header
header-Accounts rest = line_at-Accounts rest (index_byte 10 rest) (index_byte-IsInside 10 rest)

-- The bytes that a turn takes and leaves.
abbrev Spends : ℕ → Turn → Type 0
Spends total (stop r) = (args : List Bytes) (n : ℕ) → r ≢ command args n
Spends total (argument a rest used) = used + length rest ≡ total

payload-Spends :
    (n : ℕ) (after : Bytes) (used : ℕ) → Spends (used + length after) (payload n after used)
unfolding payload
payload-Spends n after used = elim (Bool-cases (n == 2 ^ 64 - 1)) [
  | inl e1 ↦ rw (e1) (refl)
  | inr e1 ↦ elim (Bool-cases (leb (2 ^ 63) n)) [
    | inl e2 ↦ rw (e1, e2) (λ args m h. cc)
    | inr e2 ↦ elim (Bool-cases (ltb (n + 2) (2 ^ 63) && ltb (length after) (n + 2))) [
      | inl e3 ↦ rw (e1, e2, e3) (λ args m h. cc)
      | inr e3 ↦ elim (Bool-cases (leb (length after) n)) [
        | inl e4 ↦ rw (e1, e2, e3, e4) (λ args m h. cc)
        | inr e4 ↦ elim (Bool-cases (get_or after n 0 == 13)) [
          | inr e5 ↦ rw (e1, e2, e3, e4, e5) (λ args m h. cc)
          | inl e5 ↦ elim (Bool-cases (leb (length after) (n + 1))) [
            | inl e6 ↦ rw (e1, e2, e3, e4, e5, e6) (λ args m h. cc)
            | inr e6 ↦ elim (Bool-cases (get_or after (n + 1) 0 == 10)) [
              | inr e7 ↦ rw (e1, e2, e3, e4, e5, e6, e7) (λ args m h. cc)
              | inl e7 ↦ rw (e1, e2, e3, e4, e5, e6, e7) (ground (arith, length-drop (n + 2) after))
            ]
          ]
        ]
      ]
    ]
  ]
]

bulk_line-Spends : (rest : Bytes) (l : Line) → Accounts rest l → Spends (length rest) (bulk_line l)
unfolding bulk_line
bulk_line-Spends rest no_line h = λ args n e. cc
bulk_line-Spends rest bad_line h = λ args n e. cc
bulk_line-Spends rest (line body after idx) h = go (bulk_len body)
  where
    go : (o : Option ℕ) → Spends (length rest) (bulk_body o after (idx + 1))
    go none = unfold bulk_body in λ args n e. cc
    go (some n) =
        unfold bulk_body in
        subst (λ t. Spends t (payload n after (idx + 1))) h (payload-Spends n after (idx + 1))

bulk-Spends : (rest : Bytes) → Spends (length rest) (bulk rest)
unfolding bulk
bulk-Spends [] = λ args n e. cc
bulk-Spends (c ∷ cs) = elim (Bool-cases (c == b'$')) [
  | inl dollar ↦ rw dollar (bulk_line-Spends (c ∷ cs) (header (c ∷ cs)) (header-Accounts (c ∷ cs)))
  | inr other ↦ rw other (λ args n e. cc)
]

bulks-bounds :
    (k : ℕ) (rest : Bytes) (consumed : ℕ) (done args : List Bytes) (n : ℕ)
    → bulks k rest consumed done ≡ command args n
    → (consumed ≤ n) × (n ≤ consumed + length rest)
unfolding bulks
bulks-bounds zero rest consumed done args n h = ground arith
bulks-bounds (suc k) rest consumed done args n h =
    go (λ a rest' used e. bulks-bounds k rest' (consumed + used) (done ++ a ∷ []) args n e)
      (bulk rest) (bulk-Spends rest) refl
  where
    turned : Turn → Parsed
    turned t = elim t [
      | stop r ↦ r
      | argument a rest' used ↦ bulks k rest' (consumed + used) (done ++ a ∷ [])
    ]

    go :
        ((a rest' : Bytes) (used : ℕ)
          → bulks k rest' (consumed + used) (done ++ a ∷ []) ≡ command args n
          → (consumed + used ≤ n) × (n ≤ consumed + used + length rest'))
        → (t : Turn) → Spends (length rest) t
        → bulk rest ≡ t
        → (consumed ≤ n) × (n ≤ consumed + length rest)
    go ih (stop r) s e = absurd (s args n (subst (λ t. turned t ≡ command args n) e h))
    go ih (argument a rest' used) s e =
        let inner = ih a rest' used (subst (λ t. turned t ≡ command args n) e h) in
        omega (arith, inner, s)

with_count-bounds :
    (room limit count : ℕ) (rest : Bytes) (consumed : ℕ) (args : List Bytes) (n : ℕ)
    → with_count room limit count rest consumed ≡ command args n
    → (consumed ≤ n) × (n ≤ consumed + length rest)
unfolding with_count
with_count-bounds room limit count rest consumed args n h =
    ground (arith, bulks-bounds count rest consumed [] args n)

array_line-bounds :
    (room limit : ℕ) (bs : Bytes) (l : Line) (args : List Bytes) (n : ℕ)
    → Accounts bs l
    → array_line room limit l ≡ command args n
    → (0 < n) × (n ≤ length bs)
unfolding array_line
array_line-bounds room limit bs no_line args n a h = cc
array_line-bounds room limit bs bad_line args n a h = cc
array_line-bounds room limit bs (line body after idx) args n a h = go (word_from 0 body) refl
  where
    go : (o : Option ℕ) → word_from 0 body ≡ o → (0 < n) × (n ≤ length bs)
    go none e =
        absurd (stuck (subst (λ o. array_body room limit o after (idx + 1) ≡ command args n) e h))
      where
        stuck : array_body room limit none after (idx + 1) ≡ command args n → ⊥
        stuck p = unfold array_body in cc
    go (some count) e =
        let inner = with_count-bounds room limit count after (idx + 1) args n (
          unfold array_body in
          subst (λ o. array_body room limit o after (idx + 1) ≡ command args n) e h) in
        omega (arith, inner, a)

-- A command that the parser returns took at least one byte and no more than were buffered: the
-- event loop that drops those bytes moves on, and stays in its buffer.
pub parse_array-bounds :
    (room limit : ℕ) (bs : Bytes) (args : List Bytes) (n : ℕ)
    → parse_array room limit bs ≡ command args n
    → (0 < n) × (n ≤ length bs)
unfolding parse_array
parse_array-bounds room limit bs args n h =
    array_line-bounds room limit bs (header bs) args n (header-Accounts bs) h
