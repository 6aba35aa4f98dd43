-- ===== src/Persistence/Numbers.antt =====
-- A number that was written is read back.
use vortexkv.Prelude.{
  ℕ, zero, suc, ◌+◌, ◌-◌, ◌*◌, ◌/◌, ◌%◌, ◌^◌, ◌<◌, ◌≡◌, ◌∙◌, refl, sym, ap, inl, inr, Bool-cases,
  false, ltb, Bytes, arith,
}
use vortexkv.Persistence.{
  got, failed, Decoder, ◌>>=◌, pure, put_uvarint, get_uvarint, write_varint, read_varint, put_word,
  get_word,
}

-- A reader that succeeds hands its result and the bytes behind it on.
pub bind-got :
    {A B : Type 0} (bs : Bytes) (m : Decoder A) (k : A → Decoder B) {rest : Bytes} {a : A}
    → m bs ≡ got a rest
    → (m >>= k) bs ≡ k a rest
bind-got bs m k h = ap (λ r. elim r [ got a rest ↦ k a rest | failed e ↦ failed e ]) h

HasRoom : ℕ → ℕ → Type 0
HasRoom zero x = x < 2
HasRoom (suc f) x = HasRoom f (x / 128)

get_uvarint-put_uvarint :
    (f x : ℕ) (rest : Bytes) → HasRoom f x → get_uvarint f (put_uvarint f x rest) ≡ got x rest
unfolding get_uvarint put_uvarint HasRoom
get_uvarint-put_uvarint zero x rest h = ground (arith, h)
get_uvarint-put_uvarint (suc f) x rest h = elim (Bool-cases (ltb x 128)) [
  | inl small ↦ rw small (rw small refl)
  | inr large ↦
      let more : ltb (128 + x % 128) 128 ≡ false = ground arith in
      rw large (
        rw more (
          bind-got (put_uvarint f (x / 128) rest) (get_uvarint f)
            (λ y. pure (128 + x % 128 - 128 + 128 * y)) (get_uvarint-put_uvarint f (x / 128) rest h)
          ∙ ap (λ y. got y rest) {x = 128 + x % 128 - 128 + 128 * (x / 128)} {y = x} (omega arith)))
]

pub read_varint-write_varint :
    (x : ℕ) (rest : Bytes) → x < 2 ^ 64 → read_varint (write_varint x rest) ≡ got x rest
unfolding read_varint write_varint HasRoom
read_varint-write_varint x rest h = get_uvarint-put_uvarint 9 x rest (omega (arith, h))

HasBytes : ℕ → ℕ → Type 0
HasBytes zero x = x ≡ 0
HasBytes (suc k) x = HasBytes k (x / 256)

get_word-put_word :
    (k x : ℕ) (rest : Bytes) → HasBytes k x → get_word k (put_word k x rest) ≡ got x rest
unfolding get_word put_word HasBytes
get_word-put_word zero x rest h = ap (λ y. got y rest) (sym h)
get_word-put_word (suc k) x rest h =
    bind-got (put_word k (x / 256) rest) (get_word k) (λ y. pure (x % 256 + 256 * y))
      (get_word-put_word k (x / 256) rest h)
    ∙ ap (λ y. got y rest) {x = x % 256 + 256 * (x / 256)} {y = x} (omega arith)

pub get_word-put_word64 :
    (x : ℕ) (rest : Bytes) → x < 2 ^ 64 → get_word 8 (put_word 8 x rest) ≡ got x rest
unfolding HasBytes
get_word-put_word64 x rest h = get_word-put_word 8 x rest (omega (arith, h))

pub get_word-put_word32 :
    (x : ℕ) (rest : Bytes) → x < 2 ^ 32 → get_word 4 (put_word 4 x rest) ≡ got x rest
unfolding HasBytes
get_word-put_word32 x rest h = get_word-put_word 4 x rest (omega (arith, h))
