-- ===== src/Reactor/RingBuffer/View.antt =====
-- The ring buffer as the queue of its readable bytes.
use vortexkv.Prelude.{
  ℕ, ◌+◌, ◌-◌, ◌≤◌, ◌<◌, ◌≡◌, refl, sym, ap, ◌∙◌, ◌++◌, Bytes, length, take, drop, replicate, leb,
  if◌then◌else◌, arith, le→leb, lt→leb-false, lt→ltb, le→ltb-false, Bool-cases, inl, inr,
  length-take, length-drop, length-append, length-replicate,
}
use vortexkv.Reactor.Copy.{
  copy_at, length-copy_at, take_all, window-copy_at, take-copy_at_front, take-copy_at_two,
  nil_of_length,
}
use native.Mathlib.Decide.{dec_lt}
use vortexkv.Reactor.RingBuffer.{RingBuffer, len, grow, grown_buf, grown_cap}

pub record IsValid (b : RingBuffer) : Type 0 where
  pub whole : length b.buf ≡ b.size
  pub r_in : b.r < b.size
  pub w_in : b.w < b.size

-- The readable bytes, oldest first: up to the write cursor, or round the end of the array.
abbrev pub contents : RingBuffer → Bytes
contents b =
    if leb b.r b.w then take (b.w - b.r) (drop b.r b.buf) else drop b.r b.buf ++ take b.w b.buf

pub length-contents : (b : RingBuffer) → IsValid b → length (contents b) ≡ len b
unfolding len
length-contents b v = elim (Bool-cases (leb b.r b.w)) [
  | inl plain ↦ rw plain (
      omega
        (arith, length-take (b.w - b.r) (drop b.r b.buf), length-drop b.r b.buf, v.whole, v.w_in))
  | inr wrapped ↦ rw wrapped (
      omega (
        arith,
        length-append (drop b.r b.buf) (take b.w b.buf),
        length-take b.w b.buf,
        length-drop b.r b.buf,
        v.whole,
        v.w_in,
      ))
]

pub contents_from_zero : (b : RingBuffer) → b.r ≡ 0 → contents b ≡ take b.w b.buf
contents_from_zero b h =
    rw (h, le→leb 0 b.w (omega arith))
      (ap (λ k. take k b.buf) {x = b.w - 0} {y = b.w} (omega arith))

module _ (b : RingBuffer) where
  pub contents_plain : b.r ≤ b.w → contents b ≡ take (b.w - b.r) (drop b.r b.buf)
  contents_plain h = rw (le→leb b.r b.w h) refl

  pub contents_wrapped : b.w < b.r → contents b ≡ drop b.r b.buf ++ take b.w b.buf
  contents_wrapped h = rw (lt→leb-false b.r b.w h) refl

  pub len_plain : b.r ≤ b.w → len b ≡ b.w - b.r
  unfolding len
  len_plain h = rw (le→leb b.r b.w h) refl

  pub len_wrapped : b.w < b.r → len b ≡ b.size - b.r + b.w
  unfolding len
  len_wrapped h = rw (lt→leb-false b.r b.w h) refl

  -- What is copied to a larger array is what was readable.
  grown :
      (new_buf : Bytes)
      → IsValid b
      → len b ≤ length new_buf
      → take (len b) (grown_buf b new_buf) ≡ contents b
  unfolding grown_buf
  grown new_buf v h = elim (dec_lt b.r b.w) [
    | yes plain ↦
        rw (lt→ltb 0 (len b) (omega (arith, len_plain (omega arith))), lt→ltb b.r b.w plain)
          (take-copy_at_front new_buf _ (len b)
              (omega (
                arith,
                len_plain (omega arith),
                length-take (b.w - b.r) (drop b.r b.buf),
                length-drop b.r b.buf,
                v.whole,
                v.w_in,
              ))
              h
            ∙ sym (contents_plain (omega arith)))
    | no not_plain ↦ elim (dec_lt b.w b.r) [
      | yes wrapped ↦
          rw
            (
              lt→ltb 0 (len b) (omega (arith, len_wrapped wrapped, v.r_in)),
              le→ltb-false b.r b.w (omega arith),
              take_all (drop b.r b.buf) (b.size - b.r)
                  (omega (arith, length-drop b.r b.buf, v.whole)),
            )
            (take-copy_at_two new_buf (drop b.r b.buf) (take b.w b.buf) (b.size - b.r) (len b)
                (omega (arith, length-drop b.r b.buf, v.whole))
                (omega (arith, len_wrapped wrapped, length-take b.w b.buf, v.whole, v.w_in)) h
              ∙ sym (contents_wrapped wrapped))
      | no empty ↦
          (let none_left : len b ≡ 0 = omega (arith, len_plain (omega arith)) in
            rw none_left (sym (nil_of_length (contents b) (length-contents b v ∙ none_left))))
    ]
  ]

  length-grown_buf : (new_buf : Bytes) → length (grown_buf b new_buf) ≡ length new_buf
  unfolding grown_buf
  length-grown_buf new_buf = ground (
    arith,
    length-copy_at new_buf 0 (take (b.w - b.r) (drop b.r b.buf)),
    length-copy_at new_buf 0 (take (b.size - b.r) (drop b.r b.buf)),
    length-copy_at (copy_at new_buf 0 (take (b.size - b.r) (drop b.r b.buf))) (b.size - b.r)
        (take b.w b.buf),
  )

  pub grow-IsValid : (m : ℕ) → IsValid b → len b < m → IsValid (grow b m)
  unfolding grow grown_cap
  grow-IsValid m v h = record {
    whole = length-grown_buf (replicate (grown_cap b m) 0) ∙ length-replicate (grown_cap b m) 0;
    r_in = ground arith;
    w_in = ground arith;
  }

  pub contents-grow : (m : ℕ) → IsValid b → len b < m → contents (grow b m) ≡ contents b
  unfolding grow grown_cap
  contents-grow m v h =
      contents_from_zero (grow b m) refl
      ∙ grown (replicate (grown_cap b m) 0) v
          (ground (arith, length-replicate {A = ℕ} (grown_cap b m) 0))

  pub window :
      IsValid b
      → b.r ≤ b.w
      → (p : Bytes) → b.w + length p ≤ b.size
      → take (b.w + length p - b.r) (drop b.r (copy_at b.buf b.w p))
        ≡ take (b.w - b.r) (drop b.r b.buf) ++ p
  window v h p fits =
      ap (λ k. take k (drop b.r (copy_at b.buf b.w p))) {x = b.w + length p - b.r}
        {y = b.w - b.r + length p} (omega arith)
      ∙ ap (λ k. take (b.w - b.r + length p) (drop b.r (copy_at b.buf k p))) {x = b.w}
          {y = b.r + (b.w - b.r)} (omega arith)
      ∙ window-copy_at b.buf b.r (b.w - b.r) p (omega (arith, v.whole))
