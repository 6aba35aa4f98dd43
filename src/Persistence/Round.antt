-- ===== src/Persistence/Round.antt =====
-- A value that was encoded is decoded.
use vortexkv.Prelude.{
  ℕ, ◌^◌, ◌<◌, ◌≡◌, ◌∙◌, refl, sym, ap, ap₂, subst, ◌⊎◌, inl, inr, Bool, true, false, ◌||◌,
  Bool-cases, ◌==◌, none, some, List, [], ◌++◌, Bytes, bytes_key, arith, if◌then◌else◌, length,
  length-append, take-append_length, drop-append_length,
}
use vortexkv.Prelude.Every.{All}
use vortexkv.Map.{Map, Distinct}
use vortexkv.Persistence.{
  got, Decoder, ◌>>=◌, pure, write_varint, read_varint, put_word, get_word, write_string, write_all,
  read_times, write_list, write_pair, map_of, Stored, text, strings, hash, scored, stream, vectors,
  write_scored, write_entry, write_vector, encode_value, make_slice, read_bytes, read_string,
  read_list, read_pair, read_map, read_scored, read_entry, read_vector, decode_value,
}
use vortexkv.Persistence.Numbers.{
  bind-got, read_varint-write_varint, get_word-put_word64, get_word-put_word32,
}
use vortexkv.Persistence.Maps.{Inverts, read_times-write_all, map_of-append, Apart-nil}

-- A length that a `uint64` holds and the runtime can make.
module _ (can_make : ℕ → ℕ → Bool) where
  abbrev pub IsText : Bytes → Type 0
  IsText s = (length s < 2 ^ 64) × (can_make 1 (length s) ≡ true)

  abbrev pub IsPair : Bytes × Bytes → Type 0
  IsPair (f, v) = IsText f × IsText v

  abbrev pub IsFields : Map Bytes Bytes → Type 0
  IsFields m = (length m < 2 ^ 64) × Distinct m × All IsPair m

  abbrev pub IsScored : ℕ × Bytes → Type 0
  IsScored (score, member) = (score < 2 ^ 64) × IsText member

  abbrev pub IsEntry : Bytes × Map Bytes Bytes → Type 0
  IsEntry (id, fields) = IsText id × IsFields fields

  abbrev pub IsVector : ℕ → Bytes × List ℕ → Type 0
  IsVector dim (id, vec) =
      IsText id × (length vec ≡ dim) × (can_make 4 dim ≡ true) × All (λ x. x < 2 ^ 32) vec

  abbrev pub IsList : {A : Type 0} → ℕ → (A → Type 0) → List A → Type 0
  IsList size P xs = (length xs < 2 ^ 64) × (can_make size (length xs) ≡ true) × All P xs

  make_slice-true :
      {A : Type 0} (size n : ℕ) (m : Decoder A) (bs : Bytes)
      → can_make size n ≡ true
      → make_slice can_make size n m bs ≡ m bs
  unfolding make_slice
  make_slice-true size n m bs h = rw h refl

  read_bytes-append : (s rest : Bytes) → read_bytes can_make (length s) (s ++ rest) ≡ got s rest
  unfolding read_bytes
  read_bytes-append s rest =
      ground (arith, length-append s rest, take-append_length s rest, drop-append_length s rest)

  read_string-write_string : Inverts IsText write_string (read_string can_make)
  unfolding read_string write_string
  read_string-write_string s rest h =
      bind-got (write_varint (length s) (s ++ rest)) read_varint
        (λ n. make_slice can_make 1 n (read_bytes can_make n))
        (read_varint-write_varint (length s) (s ++ rest) h.0)
      ∙ make_slice-true 1 (length s) (read_bytes can_make (length s)) (s ++ rest) h.1
      ∙ read_bytes-append s rest

  read_list-write_list :
      {A : Type 0} (P : A → Type 0) (write : A → Bytes → Bytes) (read : Decoder A) (size : ℕ)
      → Inverts P write read
      → Inverts (IsList size P) (write_list write) (read_list can_make size read)
  unfolding read_list write_list
  read_list-write_list P write read size inv xs rest h =
      bind-got (write_varint (length xs) (write_all write xs rest)) read_varint
        (λ n. make_slice can_make size n (read_times read n))
        (read_varint-write_varint (length xs) (write_all write xs rest) h.0)
      ∙ make_slice-true size (length xs) (read_times read (length xs)) (write_all write xs rest) h.1
      ∙ read_times-write_all P write read inv xs rest h.2

  read_map-write_list :
      {V : Type 0} (P : Bytes × V → Type 0) (write : Bytes × V → Bytes → Bytes)
      (read : Decoder (Bytes × V))
      → Inverts P write read
      → Inverts
          (λ m. (length m < 2 ^ 64) × Distinct m × All P m)
          (write_list write)
          (read_map can_make read)
  unfolding read_map write_list
  read_map-write_list P write read inv m rest h =
      bind-got (write_varint (length m) (write_all write m rest)) read_varint
        (λ n. read_times read n >>= λ kvs. pure (map_of kvs []))
        (read_varint-write_varint (length m) (write_all write m rest) h.0)
      ∙ bind-got (write_all write m rest) (read_times read (length m)) (λ kvs. pure (map_of kvs []))
          (read_times-write_all P write read inv m rest h.2)
      ∙ ap (λ l. got l rest) (map_of-append [] m (Apart-nil m) h.1)

  read_pair-write_pair : Inverts IsPair write_pair (read_pair can_make)
  unfolding read_pair write_pair
  read_pair-write_pair (f, v) rest h =
      bind-got (write_string f (write_string v rest)) (read_string can_make)
        (λ g. read_string can_make >>= λ w. pure (g, w))
        (read_string-write_string f (write_string v rest) h.0)
      ∙ bind-got (write_string v rest) (read_string can_make) (λ w. pure (f, w))
          (read_string-write_string v rest h.1)

  read_scored-write_scored : Inverts IsScored write_scored (read_scored can_make)
  unfolding read_scored write_scored
  read_scored-write_scored (score, member) rest h =
      bind-got (put_word 8 score (write_string member rest)) (get_word 8)
        (λ x. read_string can_make >>= λ s. pure (x, s))
        (get_word-put_word64 score (write_string member rest) h.0)
      ∙ bind-got (write_string member rest) (read_string can_make) (λ s. pure (score, s))
          (read_string-write_string member rest h.1)

  read_entry-write_entry : Inverts IsEntry write_entry (read_entry can_make)
  unfolding read_entry write_entry
  read_entry-write_entry (id, fields) rest h =
      bind-got (write_string id (write_list write_pair fields rest)) (read_string can_make)
        (λ i. read_map can_make (read_pair can_make) >>= λ m. pure (i, m))
        (read_string-write_string id (write_list write_pair fields rest) h.0)
      ∙ bind-got (write_list write_pair fields rest) (read_map can_make (read_pair can_make))
          (λ m. pure (id, m))
          (read_map-write_list IsPair write_pair (read_pair can_make) read_pair-write_pair fields
            rest h.1)

  read_vector-write_vector :
      (dim : ℕ) → Inverts (IsVector dim) write_vector (read_vector can_make dim)
  unfolding read_vector write_vector
  read_vector-write_vector dim (id, vec) rest h =
      let words : read_times (get_word 4) dim (write_all (put_word 4) vec rest) ≡ got vec rest =
        subst (λ n. read_times (get_word 4) n (write_all (put_word 4) vec rest) ≡ got vec rest) h.1
          (read_times-write_all (λ x. x < 2 ^ 32) (put_word 4) (get_word 4) get_word-put_word32 vec
            rest h.3) in
      bind-got (write_string id (write_all (put_word 4) vec rest)) (read_string can_make)
        (λ i. make_slice can_make 4 dim (read_times (get_word 4) dim) >>= λ v. pure (i, v))
        (read_string-write_string id (write_all (put_word 4) vec rest) h.0)
      ∙ bind-got (write_all (put_word 4) vec rest)
          (make_slice can_make 4 dim (read_times (get_word 4) dim)) (λ v. pure (id, v))
          (make_slice-true 4 dim (read_times (get_word 4) dim) (write_all (put_word 4) vec rest) h.2
            ∙ words)

  -- What the snapshot can hold under a type byte.
  abbrev pub IsStorable : Stored → Type 0
  IsStorable (text s) = IsText s
  IsStorable (strings xs) = IsList 16 IsText xs
  IsStorable (hash m) = IsFields m
  IsStorable (scored xs) = IsList 24 IsScored xs
  IsStorable (stream es) = IsList 24 IsEntry es
  IsStorable (vectors dim m) =
      (dim < 2 ^ 63) × (length m < 2 ^ 64) × Distinct m × All (IsVector dim) m

  decoded_text :
      (s rest : Bytes)
      → IsText s
      → decode_value can_make 0 (write_string s rest) ≡ got (text s) rest
  unfolding decode_value
  decoded_text s rest h =
      bind-got (write_string s rest) (read_string can_make) (λ x. pure (text x))
        (read_string-write_string s rest h)

  decoded_strings :
      (typ : ℕ) (xs : List Bytes) (rest : Bytes)
      → (typ ≡ 1) ⊎ (typ ≡ 2)
      → IsList 16 IsText xs
      → decode_value can_make typ (write_list write_string xs rest) ≡ got (strings xs) rest
  decoded_strings typ xs rest which h =
      let bs : Bytes = write_list write_string xs rest in
      let items : (read_list can_make 16 (read_string can_make) >>= λ l. pure (strings l)) bs
          ≡ got (strings xs) rest =
        bind-got bs (read_list can_make 16 (read_string can_make)) (λ l. pure (strings l))
          (read_list-write_list IsText write_string (read_string can_make) 16
            read_string-write_string xs rest h) in
      elim which [
        | inl e ↦
            subst (λ t. decode_value can_make t bs ≡ got (strings xs) rest) (sym e)
              (unfold decode_value in items)
        | inr e ↦
            subst (λ t. decode_value can_make t bs ≡ got (strings xs) rest) (sym e)
              (unfold decode_value in items)
      ]

  decoded_hash :
      (m : Map Bytes Bytes) (rest : Bytes)
      → IsFields m
      → decode_value can_make 4 (write_list write_pair m rest) ≡ got (hash m) rest
  unfolding decode_value
  decoded_hash m rest h =
      bind-got (write_list write_pair m rest) (read_map can_make (read_pair can_make))
        (λ l. pure (hash l))
        (read_map-write_list IsPair write_pair (read_pair can_make) read_pair-write_pair m rest h)

  decoded_scored :
      (xs : List (ℕ × Bytes)) (rest : Bytes)
      → IsList 24 IsScored xs
      → decode_value can_make 3 (write_list write_scored xs rest) ≡ got (scored xs) rest
  unfolding decode_value
  decoded_scored xs rest h =
      bind-got (write_list write_scored xs rest) (read_list can_make 24 (read_scored can_make))
        (λ l. pure (scored l))
        (read_list-write_list IsScored write_scored (read_scored can_make) 24
          read_scored-write_scored xs rest h)

  decoded_stream :
      (es : List (Bytes × Map Bytes Bytes)) (rest : Bytes)
      → IsList 24 IsEntry es
      → decode_value can_make 6 (write_list write_entry es rest) ≡ got (stream es) rest
  unfolding decode_value
  decoded_stream es rest h =
      bind-got (write_list write_entry es rest) (read_list can_make 24 (read_entry can_make))
        (λ l. pure (stream l))
        (read_list-write_list IsEntry write_entry (read_entry can_make) 24 read_entry-write_entry es
          rest h)

  decoded_vectors :
      (dim : ℕ) (m : Map Bytes (List ℕ)) (rest : Bytes)
      → dim < 2 ^ 63
      → (length m < 2 ^ 64) × Distinct m × All (IsVector dim) m
      → decode_value can_make 240 (write_varint dim (write_list write_vector m rest))
        ≡ got (vectors dim m) rest
  unfolding decode_value
  decoded_vectors dim m rest small h =
      bind-got (write_varint dim (write_list write_vector m rest)) read_varint
        (λ d. read_map can_make (read_vector can_make d) >>= λ l. pure (vectors d l))
        (read_varint-write_varint dim (write_list write_vector m rest) (omega (arith, small)))
      ∙ bind-got (write_list write_vector m rest) (read_map can_make (read_vector can_make dim))
          (λ l. pure (vectors dim l))
          (read_map-write_list (IsVector dim) write_vector (read_vector can_make dim)
            (read_vector-write_vector dim) m rest h)

  one_or_two : (t : ℕ) → (t == 1 || t == 2) ≡ true → (t ≡ 1) ⊎ (t ≡ 2)
  one_or_two t h = elim (Bool-cases (t == 1)) [
    | inl one ↦ inl (ground (arith, one))
    | inr other ↦ inr (ground (arith, h, other))
  ]

  -- The type byte that was accepted is the one whose bytes were written.
  accepted :
      (b : Bool) (k : ℕ) (typ : ℕ) (cs bs : Bytes) (v : Stored) (rest : Bytes)
      → (b ≡ true → typ ≡ k)
      → (if b then some cs else none) ≡ some bs
      → (b ≡ true → decode_value can_make k cs ≡ got v rest)
      → decode_value can_make typ bs ≡ got v rest
  accepted true k typ cs bs v rest same e h =
      ap₂ (λ t l. decode_value can_make t l) (same refl) (sym (some-injective e)) ∙ h refl
    where
      some-injective : some cs ≡ some bs → cs ≡ bs
      some-injective p = ap (λ o. elim o [ none ↦ cs | some x ↦ x ]) p
  accepted false k typ cs bs v rest same e h = absurd (ground (arith, e))

  -- A value that `encodeValue` accepts under a type, before other bytes, is what `decodeValue` gives
  -- under that type, with the other bytes behind it, where lengths and numbers fit their bits, maps
  -- have no key twice, the vectors have the dimension and the runtime can make the slices.
  pub decode_value-encode_value :
      (typ : ℕ) (v : Stored) (rest bs : Bytes)
      → IsStorable v
      → encode_value typ v rest ≡ some bs
      → decode_value can_make typ bs ≡ got v rest
  unfolding encode_value
  decode_value-encode_value typ (text s) rest bs h e =
      accepted (typ == 0) 0 typ _ bs _ rest (λ same. ground (arith, same)) e
        (λ same. decoded_text s rest h)
  decode_value-encode_value typ (strings xs) rest bs h e =
      accepted (typ == 1 || typ == 2) typ typ _ bs _ rest (λ same. refl) e
        (λ same. decoded_strings typ xs rest (one_or_two typ same) h)
  decode_value-encode_value typ (hash m) rest bs h e =
      accepted (typ == 4) 4 typ _ bs _ rest (λ same. ground (arith, same)) e
        (λ same. decoded_hash m rest h)
  decode_value-encode_value typ (scored xs) rest bs h e =
      accepted (typ == 3) 3 typ _ bs _ rest (λ same. ground (arith, same)) e
        (λ same. decoded_scored xs rest h)
  decode_value-encode_value typ (stream es) rest bs h e =
      accepted (typ == 6) 6 typ _ bs _ rest (λ same. ground (arith, same)) e
        (λ same. decoded_stream es rest h)
  decode_value-encode_value typ (vectors dim m) rest bs h e =
      accepted (typ == 240) 240 typ _ bs _ rest (λ same. ground (arith, same)) e
        (λ same. decoded_vectors dim m rest h.0 (h.1, h.2, h.3))
