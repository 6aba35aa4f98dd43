-- ===== src/Resp/Writer.antt =====
-- internal/resp/writer.go: the operations of `Writer`, which write before what is written later.
use vortexkv.Prelude.{
  Option, none, some, ℕ, zero, ◌≡◌, ◌∙◌, refl, ap, suc, sym, if◌then◌else◌, ◌∷◌, ◌++◌, Bytes, bytes,
  length, Bool-cases, inl, inr,
}
use vortexkv.Prelude.Int.{ℤ, pos, negsuc}
use vortexkv.Prelude.Decimal.{print_int}
use vortexkv.Prelude.{bytes_eq, bytes_eq_iff}
use vortexkv.Resp.Serialize.{cr, lf, header_line, serialize_value, serialize_items}
use vortexkv.Resp.Values.{
  Value, Values, simple_string, error, integer, bulk_string, nil_bulk, null, null_array, boolean,
  array, untyped, nil, cons, count, value_string,
}

unfoldable pub write_simple_string : Bytes → Bytes → Bytes
write_simple_string s after =
    if bytes_eq s (bytes "OK")
    then bytes "+OK" ++ cr ∷ lf ∷ after
    else if bytes_eq s (bytes "PONG")
    then bytes "+PONG" ++ cr ∷ lf ∷ after
    else b'+' ∷ (s ++ cr ∷ lf ∷ after)

unfoldable pub write_error : Bytes → Bytes → Bytes
write_error msg after = b'-' ∷ (msg ++ cr ∷ lf ∷ after)

unfoldable pub write_integer : ℤ → Bytes → Bytes
write_integer (pos zero) after = bytes ":0" ++ cr ∷ lf ∷ after
write_integer (pos (suc zero)) after = bytes ":1" ++ cr ∷ lf ∷ after
write_integer n after = b':' ∷ (print_int n ++ cr ∷ lf ∷ after)

unfoldable pub write_bulk_string : Bytes → Bytes → Bytes
write_bulk_string s after = header_line b'$' (length s) (s ++ cr ∷ lf ∷ after)

unfoldable pub write_null : Bytes → Bytes
write_null after = bytes "$-1" ++ cr ∷ lf ∷ after

-- `WriteBulkBytes`: none is a nil slice.
unfoldable pub write_bulk_bytes : Option Bytes → Bytes → Bytes
unfolding write_null
write_bulk_bytes none after = write_null after
write_bulk_bytes (some b) after = header_line b'$' (length b) (b ++ cr ∷ lf ∷ after)

unfoldable pub write_null_array : Bytes → Bytes
write_null_array after = bytes "*-1" ++ cr ∷ lf ∷ after

unfoldable pub write_array_header : ℕ → Bytes → Bytes
write_array_header n after = header_line b'*' n after

-- `WriteValue`; a boolean and an untyped value are written as their `String`, which is empty.
unfoldable mutual
  unfolding write_simple_string write_error write_integer write_bulk_string write_bulk_bytes
      write_null write_null_array write_array_header value_string count

  pub write_value : Value → Bytes → Bytes
  write_value (simple_string s) after = write_simple_string s after
  write_value (error s) after = write_error s after
  write_value (integer n) after = write_integer n after
  write_value (bulk_string s) after = write_bulk_bytes (some s) after
  write_value nil_bulk after = write_bulk_bytes none after
  write_value null after = write_null after
  write_value null_array after = write_null_array after
  write_value (array vs) after = write_array_header (count vs) (write_items vs after)
  write_value (boolean b) after = write_bulk_string (value_string (boolean b)) after
  write_value (untyped t) after = write_bulk_string (value_string (untyped t)) after

  pub write_items : Values → Bytes → Bytes
  write_items nil after = after
  write_items (cons v vs) after = write_value v (write_items vs after)

-- No boolean, nil bulk string or untyped value stands anywhere in the value.
unfoldable mutual
  pub IsUniform : Value → Type 0
  IsUniform (boolean b) = ⊥
  IsUniform nil_bulk = ⊥
  IsUniform (untyped t) = ⊥
  IsUniform (array vs) = AreUniform vs
  IsUniform v = Unit

  pub AreUniform : Values → Type 0
  AreUniform nil = Unit
  AreUniform (cons v vs) = IsUniform v × AreUniform vs

write_simple_string_lem :
    (s after : Bytes) → write_simple_string s after ≡ serialize_value (simple_string s) after
write_simple_string_lem s after =
    unfold write_simple_string serialize_value in
    elim (Bool-cases (bytes_eq s (bytes "OK"))) [
      | inl ok ↦
          rw ok (ap (λ t. b'+' ∷ (t ++ cr ∷ lf ∷ after)) (sym ((bytes_eq_iff s (bytes "OK")).0 ok)))
      | inr other ↦ rw other (elim (Bool-cases (bytes_eq s (bytes "PONG"))) [
        | inl pong ↦
            rw pong (
              ap (λ t. b'+' ∷ (t ++ cr ∷ lf ∷ after))
                (sym ((bytes_eq_iff s (bytes "PONG")).0 pong)))
        | inr more ↦ rw more refl
      ])
    ]

write_integer_lem :
    (n : ℤ) (after : Bytes) → write_integer n after ≡ serialize_value (integer n) after
unfolding write_integer serialize_value print_int
write_integer_lem (pos zero) after = refl
write_integer_lem (pos (suc zero)) after = refl
write_integer_lem (pos (suc (suc n))) after = refl
write_integer_lem (negsuc n) after = refl

mutual
  unfolding write_value serialize_value IsUniform write_error write_bulk_string write_bulk_bytes
      write_null write_null_array write_array_header value_string

  value-written :
      (v : Value) (after : Bytes) → IsUniform v → write_value v after ≡ serialize_value v after
  value-written (simple_string s) after h = write_simple_string_lem s after
  value-written (error s) after h = refl
  value-written (integer n) after h = write_integer_lem n after
  value-written (bulk_string s) after h = refl
  value-written nil_bulk after h = absurd h
  value-written (untyped t) after h = absurd h
  value-written null after h = refl
  value-written null_array after h = refl
  value-written (boolean b) after h = absurd h
  value-written (array vs) after h = ap (header_line b'*' (count vs)) (items-written vs after h)

  items-written :
      (vs : Values) (after : Bytes)
      → AreUniform vs
      → write_items vs after ≡ serialize_items vs after
  items-written nil after h = refl
  items-written (cons v vs) after h =
      value-written v (write_items vs after) h.0
      ∙ ap (serialize_value v) (items-written vs after h.1)

-- A value that holds no boolean, no nil bulk string and no value of another type is written by
-- `WriteValue` with the bytes that `SerializeValue` gives.
pub write_value-serialize_value :
    (v : Value) (after : Bytes) → IsUniform v → write_value v after ≡ serialize_value v after
write_value-serialize_value v after h = value-written v after h
