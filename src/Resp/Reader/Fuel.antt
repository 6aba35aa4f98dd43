-- ===== src/Resp/Reader/Fuel.antt =====
-- `ReadValue` ends: the bytes that are there bound its depth.
use vortexkv.Prelude.{
  ℕ, zero, suc, ◌+◌, ◌≤◌, ◌<◌, ◌≡◌, ◌≢◌, refl, sym, ap, Bool, true, false, Option, none, some, [],
  ◌∷◌, Bytes, length, ltb, leb, ◌==◌, if◌then◌else◌, arith, Bool-cases, inl, inr, ◌⊎◌, length-drop,
}
use vortexkv.Prelude.Int.{ℤ, pos, negsuc}
use vortexkv.Prelude.Decimal.{parse_int}
use vortexkv.Reactor.Parser.{index_byte}
use vortexkv.Resp.Values.{
  Value, nil, cons, array, null, error, simple_string, integer, boolean, null_array,
}
use vortexkv.Resp.Reader.{
  Read, got, failed, Reader, ReadError, out_of_fuel, end_of_input, read_byte, line_to, read_line,
  read_full, as_number, read_number, ended_bulk, bulk_of_length, read_bulk, read_items,
  array_of_length, read_array, read_inline, value_of_prefix, read_value, ◌>>=◌, pure, fail,
  starts_with_t, buffer_size,
}

ran_out : ReadError → Bool
ran_out out_of_fuel = true
ran_out e = false

-- A result that leaves at most `n` bytes, or is an error other than the fuel's.
Leaves : {A : Type 0} → ℕ → Read A → Type 0
Leaves n (got a rest) = length rest ≤ n
Leaves n (failed e) = ran_out e ≡ false

-- On at most `k` bytes the reader ends and adds none.
IsTame : {A : Type 0} → ℕ → Reader A → Type 0
IsTame k m = (bs : Bytes) → length bs ≤ k → Leaves (length bs) (m bs)

Leaves-le : {A : Type 0} (n m : ℕ) (r : Read A) → n ≤ m → Leaves n r → Leaves m r
unfolding Leaves
Leaves-le n m (got a rest) h l = omega (arith, h, l)
Leaves-le n m (failed e) h l = l

hands_on :
    {A B : Type 0} (k : A → Reader B) (n : ℕ) (r : Read A)
    → Leaves n r
    → ((a : A) → IsTame n (k a))
    → Leaves n (elim r [ got a rest ↦ k a rest | failed e ↦ failed e ])
unfolding Leaves IsTame
hands_on k n (got a rest) h tame = Leaves-le (length rest) n (k a rest) h (tame a rest h)
hands_on k n (failed e) h tame = h

IsTame-le : {A : Type 0} (k n : ℕ) (m : Reader A) → n ≤ k → IsTame k m → IsTame n m
unfolding IsTame
IsTame-le k n m h tame bs l = tame bs (omega (arith, h, l))

bind-IsTame :
    {A B : Type 0} (n : ℕ) (m : Reader A) (k : A → Reader B)
    → IsTame n m
    → ((a : A) → IsTame n (k a))
    → IsTame n (m >>= k)
bind-IsTame n m k first later =
    let tame : (bs : Bytes) → length bs ≤ n → Leaves (length bs) (m bs) = unfold IsTame in first in
    unfold IsTame in
    λ bs h.
      hands_on k (length bs) (m bs) (tame bs h) (λ a. IsTame-le n (length bs) (k a) h (later a))

pure-IsTame : {A : Type 0} (n : ℕ) (a : A) → IsTame n (pure a)
unfolding IsTame Leaves
pure-IsTame n a bs h = omega arith

fail-IsTame : (A : Type 0) (n : ℕ) (e : ReadError) → ran_out e ≡ false → IsTame {A = A} n (fail e)
unfolding IsTame Leaves
fail-IsTame A n e h bs l = h

if-IsTame :
    {A : Type 0} (n : ℕ) (b : Bool) (m k : Reader A)
    → IsTame n m
    → IsTame n k
    → IsTame n (if b then m else k)
if-IsTame n true m k h l = h
if-IsTame n false m k h l = l

line_to-Leaves : (bs : Bytes) (o : Option ℕ) → Leaves (length bs) (line_to bs o)
unfolding line_to Leaves ran_out
line_to-Leaves bs none = elim (Bool-cases (leb buffer_size (length bs))) [
  | inl long ↦ rw long refl
  | inr short ↦ rw short refl
]
line_to-Leaves bs (some i) = ground (arith, length-drop (i + 1) bs)

read_line-IsTame : (n : ℕ) → IsTame n read_line
unfolding IsTame read_line
read_line-IsTame n bs h = line_to-Leaves bs (index_byte 10 bs)

read_full-IsTame : (n k : ℕ) → IsTame n (read_full k)
unfolding IsTame read_full Leaves ran_out
read_full-IsTame n k bs h = elim (Bool-cases (ltb (length bs) k)) [
  | inl short ↦ rw short refl
  | inr long ↦ rw long (omega (arith, length-drop k bs))
]

as_number-IsTame : (n : ℕ) (o : Option ℤ) → IsTame n (as_number o)
unfolding as_number ran_out
as_number-IsTame n none = fail-IsTame _ n _ refl
as_number-IsTame n (some z) = pure-IsTame n z

read_number-IsTame : (n : ℕ) → IsTame n read_number
unfolding read_number
read_number-IsTame n =
    bind-IsTame n read_line _ (read_line-IsTame n) (λ l. as_number-IsTame n (parse_int l))

bulk_of_length-IsTame : (n : ℕ) (z : ℤ) → IsTame n (bulk_of_length z)
unfolding bulk_of_length ended_bulk ran_out
bulk_of_length-IsTame n (negsuc zero) = pure-IsTame n null
bulk_of_length-IsTame n (negsuc (suc z)) = fail-IsTame _ n _ refl
bulk_of_length-IsTame n (pos z) = if-IsTame n _ _ _ (fail-IsTame _ n _ refl) (
    bind-IsTame n (read_full (z + 2)) (ended_bulk z) (read_full-IsTame n (z + 2))
      (λ buf. if-IsTame n _ _ _ (fail-IsTame _ n _ refl) (pure-IsTame n _)))

read_items-IsTame : (n k : ℕ) (item : Reader Value) → IsTame n item → IsTame n (read_items item k)
unfolding read_items
read_items-IsTame n zero item tame = pure-IsTame n nil
read_items-IsTame n (suc k) item tame =
    bind-IsTame n item (λ v. read_items item k >>= λ vs. pure (cons v vs)) tame
      (λ v.
        bind-IsTame n (read_items item k) (λ vs. pure (cons v vs)) (read_items-IsTame n k item tame)
          (λ vs. pure-IsTame n (cons v vs)))

array_of_length-IsTame :
    (n : ℕ) (item : Reader Value) (z : ℤ) → IsTame n item → IsTame n (array_of_length item z)
unfolding array_of_length ran_out
array_of_length-IsTame n item (negsuc zero) tame = pure-IsTame n null_array
array_of_length-IsTame n item (negsuc (suc z)) tame = fail-IsTame _ n _ refl
array_of_length-IsTame n item (pos z) tame = if-IsTame n _ _ _ (fail-IsTame _ n _ refl) (
    bind-IsTame n (read_items item z) (λ vs. pure (array vs)) (read_items-IsTame n z item tame)
      (λ vs. pure-IsTame n (array vs)))

read_inline-IsTame : (n b : ℕ) → IsTame n (read_inline b)
unfolding read_inline
read_inline-IsTame n b = bind-IsTame n read_line _ (read_line-IsTame n) (λ l. pure-IsTame n _)

value_of_prefix-IsTame :
    (n b : ℕ) (item : Reader Value) → IsTame n item → IsTame n (value_of_prefix item b)
unfolding value_of_prefix read_bulk read_array
value_of_prefix-IsTame n b item tame =
    let line : (k : Bytes → Value) → IsTame n (read_line >>= λ l. pure (k l)) = λ k.
      bind-IsTame n read_line (λ l. pure (k l)) (read_line-IsTame n) (λ l. pure-IsTame n (k l)) in
    let number : (A : Type 0) (k : ℤ → Reader A)
        → ((z : ℤ) → IsTame n (k z))
        → IsTame n (read_number >>= k) =
      λ A k h. bind-IsTame n read_number k (read_number-IsTame n) h in
    if-IsTame n (b == b'+') _ _ (line simple_string) (
      if-IsTame n (b == b'-') _ _ (line error) (
        if-IsTame n (b == b':') _ _ (number Value _ (λ z. pure-IsTame n (integer z))) (
          if-IsTame n (b == b'$') _ _ (number Value _ (bulk_of_length-IsTame n)) (
            if-IsTame n (b == b'*') _ _ (number Value _ (λ z. array_of_length-IsTame n item z tame))
              (if-IsTame n (b == b'_') _ _ (line (λ l. null)) (
                if-IsTame n (b == b'#') _ _ (line (λ l. boolean (starts_with_t l)))
                  (read_inline-IsTame n b)))))))

value_behind :
    (f b : ℕ) (bs : Bytes)
    → IsTame (length bs) (read_value f)
    → Leaves (length bs) (read_value (suc f) (b ∷ bs))
unfolding read_value read_byte IsTame
value_behind f b bs tame = value_of_prefix-IsTame (length bs) b (read_value f) tame bs (omega arith)

read_value-IsTame : (f n : ℕ) → n < f → IsTame n (read_value f)
unfolding IsTame
read_value-IsTame zero n h bs l = absurd (omega (arith, h))
read_value-IsTame (suc f) n h [] l = unfold read_value read_byte Leaves ran_out in refl
read_value-IsTame (suc f) n h (b ∷ bs) l =
    Leaves-le (length bs) (length (b ∷ bs)) (read_value (suc f) (b ∷ bs)) (omega arith)
      (value_behind f b bs (read_value-IsTame f (length bs) (omega (arith, h, l))))

out-ran_out : (e : ReadError) → ran_out e ≡ false → e ≢ out_of_fuel
unfolding ran_out
out-ran_out e h same = absurd (ground (arith, h, sym (ap ran_out same)))

-- An error of the program, or a value with fewer than `n` bytes behind it.
abbrev pub Ends : ℕ → Read Value → Type 0
Ends n r =
    ((e : ReadError) × (r ≡ failed e) × (e ≢ out_of_fuel))
    ⊎ ((v : Value) × (rest : Bytes) × (r ≡ got v rest) × (length rest < n))

Leaves-Ends : (n : ℕ) (r : Read Value) → Leaves n r → Ends (suc n) r
unfolding Leaves
Leaves-Ends n (got v rest) l = inr (v, rest, refl, omega (arith, l))
Leaves-Ends n (failed e) l = inl (e, refl, out-ran_out e l)

-- With fuel for more than the bytes that are there, `ReadValue` ends: it answers with an error of the
-- program, or with a value and fewer bytes than were given.
pub read_value-length : (f : ℕ) (bs : Bytes) → length bs < f → Ends (length bs) (read_value f bs)
read_value-length zero bs h = absurd (omega (arith, h))
read_value-length (suc f) [] h =
    unfold read_value read_byte ran_out in inl (end_of_input, refl, out-ran_out end_of_input refl)
read_value-length (suc f) (b ∷ bs) h =
    Leaves-Ends (length bs) (read_value (suc f) (b ∷ bs))
      (value_behind f b bs (read_value-IsTame f (length bs) (omega (arith, h))))
