-- ===== src/Reactor/RingBuffer/Read.antt =====
-- `Read`, `AdvanceRead`, `Peek`, `Bytes`: they give the readable bytes from the oldest on.
use Prim.Native.Nat.{min}
use vortexkv.Prelude.{
  ℕ, zero, suc, ◌+◌, ◌-◌, ◌%◌, ◌≤◌, ◌<◌, ◌≡◌, ◌≢◌, refl, sym, ap, ap₂, subst, ◌∙◌, Option, some, [],
  ◌++◌, Bytes, length, take, drop, replicate, ltb, ◌==◌, ==_refl, ==_ne, if◌then◌else◌, arith,
  Bool-cases, inl, inr, length-take, length-drop, length-replicate, le→leb, lt→leb-false, lt→ltb,
  le→ltb-false,
}
use mathlib.Core.List.{append-nil}
use native.Mathlib.Nat.{mod-eq_of_lt, mod-eq-sub-mod}
use native.Mathlib.Decide.{dec_lt, dec_le, ℕ_discrete}
use vortexkv.Prelude.Int.{ℤ, pos, negsuc, pos_part}
use vortexkv.Reactor.Copy.{
  copy_at, take_all, drop_all, copy_at_front, copy_at_two, take-append, drop-append, drop-drop,
  drop-take, take-take, nil_of_length,
}
use vortexkv.Reactor.RingBuffer.{RingBuffer, len, is_empty, read, peek, linear_bytes, advance_read}
use vortexkv.Reactor.RingBuffer.View.{
  IsValid, contents, contents_plain, contents_wrapped, len_plain, len_wrapped, length-contents,
}
use vortexkv.Reactor.RingBuffer.Write.{wrap_cursor}

module _ (b : RingBuffer) (v : IsValid b) where
  -- Where a cursor that goes n bytes on from `r` comes to, and what is readable from there.
  advanced_plain :
      (n : ℕ)
      → b.r ≤ b.w
      → n ≤ b.w - b.r
      → contents (record b { r = b.r + n }) ≡ drop n (contents b)
  advanced_plain n h fits =
      contents_plain (record b { r = b.r + n }) (omega arith)
      ∙ ap₂ (λ k l. take k l) {x = b.w - (b.r + n)} {y = b.w - b.r - n} (omega arith)
          (sym (drop-drop n b.r b.buf))
      ∙ sym (drop-take n (b.w - b.r) (drop b.r b.buf))
      ∙ ap (drop n) (sym (contents_plain b h))

  advanced_wrapped :
      (n : ℕ)
      → b.w < b.r
      → b.r + n < b.size
      → contents (record b { r = b.r + n }) ≡ drop n (contents b)
  advanced_wrapped n h fits =
      contents_wrapped (record b { r = b.r + n }) (omega arith)
      ∙ ap₂ (λ x y. x ++ y) (sym (drop-drop n b.r b.buf))
          (ap (λ k. drop k (take b.w b.buf)) {x = 0} {y = n - length (drop b.r b.buf)}
            (omega (arith, length-drop b.r b.buf, v.whole)))
      ∙ sym (drop-append n (drop b.r b.buf) (take b.w b.buf))
      ∙ ap (drop n) (sym (contents_wrapped b h))

  advanced_round :
      (n : ℕ)
      → b.w < b.r
      → b.size - b.r ≤ n
      → n ≤ len b
      → contents (record b { r = n - (b.size - b.r) }) ≡ drop n (contents b)
  advanced_round n h past fits =
      contents_plain (record b { r = n - (b.size - b.r) }) (omega (arith, len_wrapped b h))
      ∙ sym (drop-take (n - (b.size - b.r)) b.w b.buf)
      ∙ ap₂ (λ x y. x ++ y)
          (sym (drop_all (drop b.r b.buf) n (omega (arith, length-drop b.r b.buf, v.whole))))
          (ap (λ k. drop k (take b.w b.buf)) {x = n - (b.size - b.r)}
            {y = n - length (drop b.r b.buf)} (omega (arith, length-drop b.r b.buf, v.whole)))
      ∙ sym (drop-append n (drop b.r b.buf) (take b.w b.buf))
      ∙ ap (drop n) (sym (contents_wrapped b h))

  -- `(r + n) % size`
  advanced :
      (n : ℕ)
      → n ≤ len b
      → IsValid (record b { r = (b.r + n) % b.size })
        × (contents (record b { r = (b.r + n) % b.size }) ≡ drop n (contents b))
  advanced n fits = elim (dec_lt b.w b.r) [
    | no plain ↦
        (let inside : b.r + n < b.size = omega (arith, len_plain b (omega arith), v.w_in) in
          rw (mod-eq_of_lt inside) (
            record { whole = v.whole; r_in = inside; w_in = v.w_in },
            advanced_plain n (omega arith) (omega (arith, len_plain b (omega arith))),
          ))
    | yes wrapped ↦ elim (dec_lt (b.r + n) b.size) [
      | yes inside ↦ rw (mod-eq_of_lt inside) (
        record { whole = v.whole; r_in = inside; w_in = v.w_in },
        advanced_wrapped n wrapped inside,
      )
      | no round ↦
          (let back : (b.r + n) % b.size ≡ n - (b.size - b.r) =
              mod-eq-sub-mod {n = b.r + n} {m = b.size} (omega arith)
              ∙ mod-eq_of_lt {n = b.r + n - b.size} {m = b.size}
                  (omega (arith, len_wrapped b wrapped, v.r_in, v.w_in))
              ∙ omega (arith, v.r_in) in
            rw back (
              record {
                whole = v.whole;
                r_in = omega (arith, len_wrapped b wrapped, v.r_in, v.w_in);
                w_in = v.w_in;
              },
              advanced_round n wrapped (omega arith) fits,
            ))
    ]
  ]

  -- `AdvanceRead` keeps the invariant and takes its number of bytes, or all there are, off the
  -- front of what is readable; a number that is not positive takes none.
  pub advance_read_lem :
      (n : ℤ)
      → IsValid (advance_read b n) × (contents (advance_read b n) ≡ drop (pos_part n) (contents b))
  unfolding advance_read
  advance_read_lem (negsuc n) = (v, refl)
  advance_read_lem (pos zero) = (v, refl)
  advance_read_lem (pos (suc n)) = elim (Bool-cases (ltb (len b) (suc n))) [
    | inl all ↦ rw all (
        let step = advanced (len b) (omega arith) in
        (
          step.0,
          step.1
              ∙ drop_all (contents b) (len b) (omega (arith, length-contents b v))
              ∙ sym (drop_all (contents b) (suc n) (ground (arith, length-contents b v))),
        ))
    | inr part ↦ rw part (advanced (suc n) (ground arith))
  ]

  wrapped_of : len b ≢ 0 → ¬ (b.r < b.w) → b.w < b.r
  wrapped_of some_left not_plain = elim (dec_lt b.w b.r) [
    | yes h ↦ h
    | no h ↦ absurd (some_left (omega (arith, len_plain b (omega arith))))
  ]

  -- `Bytes` gives exactly what is readable, in one piece.
  pub linear_bytes-eq-contents : linear_bytes b ≡ contents b
  linear_bytes-eq-contents = elim (ℕ_discrete (len b) 0) [
    | yes nothing ↦
        unfold linear_bytes in
        rw nothing (sym (nil_of_length (contents b) (length-contents b v ∙ nothing)))
    | no some_left ↦ elim (dec_lt b.r b.w) [
      | yes plain ↦
          (let one : linear_bytes b ≡ take (b.w - b.r) (drop b.r b.buf) =
              unfold linear_bytes in rw (==_ne (len b) 0 some_left, lt→ltb b.r b.w plain) refl in
            one ∙ sym (contents_plain b (omega arith)))
      | no not_plain ↦
          (let h = wrapped_of some_left not_plain in
            let c1 = b.size - b.r in
            let two : linear_bytes b
                ≡ copy_at (copy_at (replicate (len b) 0) 0 (take c1 (drop b.r b.buf))) c1
                    (take b.w b.buf) =
              unfold linear_bytes in
              rw (==_ne (len b) 0 some_left, le→ltb-false b.r b.w (omega arith)) refl in
            two
            ∙ copy_at_two (replicate (len b) 0) (take c1 (drop b.r b.buf)) (take b.w b.buf) c1
                (len b)
                (omega (arith, length-take c1 (drop b.r b.buf), length-drop b.r b.buf, v.whole))
                (omega (arith, length-take b.w b.buf, v.whole, v.w_in, len_wrapped b h))
                (omega (arith, length-replicate {A = ℕ} (len b) 0))
            ∙ ap₂ (λ x y. x ++ y)
                (ap (λ l. l ++ take b.w b.buf)
                  (take_all (drop b.r b.buf) c1 (omega (arith, length-drop b.r b.buf, v.whole))))
                (drop_all (replicate (len b) 0) (len b)
                  (omega (arith, length-replicate {A = ℕ} (len b) 0)))
            ∙ append-nil (drop b.r b.buf ++ take b.w b.buf)
            ∙ sym (contents_wrapped b h))
    ]
  ]

  -- `Peek` gives a prefix of what is readable, and gives nothing only if nothing is readable.
  pub peek_lem : ((rest : Bytes) × (contents b ≡ peek b ++ rest)) × (peek b ≡ [] → contents b ≡ [])
  peek_lem = elim (ℕ_discrete b.r b.w) [
    | yes same ↦
        (let nothing : contents b ≡ [] =
            contents_plain b (omega arith)
            ∙ ap (λ k. take k (drop b.r b.buf)) {x = b.w - b.r} {y = 0} (omega arith) in
          let none_shown : peek b ≡ [] = unfold peek is_empty in rw (same, ==_refl b.w) refl in
          (([], nothing ∙ ap (λ l. l ++ []) (sym none_shown)), λ h. nothing))
    | no other ↦ elim (dec_lt b.r b.w) [
      | yes plain ↦
          (let shown : peek b ≡ take (b.w - b.r) (drop b.r b.buf) =
              unfold peek is_empty in rw (==_ne b.r b.w other, lt→ltb b.r b.w plain) refl in
            let all : peek b ≡ contents b = shown ∙ sym (contents_plain b (omega arith)) in
            (([], sym (append-nil (contents b)) ∙ ap (λ l. l ++ []) (sym all)), λ h. sym all ∙ h))
      | no not_plain ↦
          (let h : b.w < b.r = omega arith in
            let shown : peek b ≡ take (b.size - b.r) (drop b.r b.buf) =
              unfold peek is_empty in
              rw (==_ne b.r b.w other, le→ltb-false b.r b.w (omega arith)) refl in
            let piece : peek b ≡ drop b.r b.buf =
              shown
              ∙ take_all (drop b.r b.buf) (b.size - b.r)
                  (omega (arith, length-drop b.r b.buf, v.whole)) in
            (
              (take b.w b.buf, contents_wrapped b h ∙ ap (λ l. l ++ take b.w b.buf) (sym piece)),
              λ e. absurd (
                  omega (arith, ap length (sym piece ∙ e), length-drop b.r b.buf, v.whole, v.r_in)),
            ))
    ]
  ]

smaller : (a c : ℕ) → (if ltb a c then a else c) ≡ min a c
smaller a c = ground arith

-- What `Read` answers, delivers into `p` and leaves, when it hands over n bytes.
pub record Delivered (b : RingBuffer) (p : Bytes) (n : ℕ) (res : Option ℕ × Bytes × RingBuffer)
    : Type 0 where
  pub count : res.0 ≡ some n
  pub delivered : res.1 ≡ take n (contents b) ++ drop n p
  pub valid : IsValid res.2
  pub left : contents res.2 ≡ drop n (contents b)

module _ (b : RingBuffer) (p : Bytes) (v : IsValid b) where
  read_plain :
      (n : ℕ)
      → n ≤ len b
      → n ≤ length p
      → b.r < b.w
      → Delivered b p n (some n, copy_at p 0 (take n (drop b.r b.buf)), record b { r = b.r + n })
  read_plain n avail fits h = record {
    count = refl;
    delivered =
        copy_at_front p (take n (drop b.r b.buf)) n
          (omega (
            arith,
            length-take n (drop b.r b.buf),
            length-drop b.r b.buf,
            v.whole,
            v.w_in,
            len_plain b (omega arith),
          ))
          fits
        ∙ ap (λ l. l ++ drop n p)
            (sym (
                take-take n (b.w - b.r) (drop b.r b.buf) (omega (arith, len_plain b (omega arith))))
              ∙ ap (take n) (sym (contents_plain b (omega arith))));
    valid = record {
      whole = v.whole;
      r_in = omega (arith, len_plain b (omega arith), v.w_in);
      w_in = v.w_in;
    };
    left = advanced_plain b v n (omega arith) (omega (arith, len_plain b (omega arith)));
  }

  read_near :
      (n : ℕ)
      → n ≤ length p
      → b.w < b.r
      → n ≤ b.size - b.r
      → Delivered b p n (
        some n,
        copy_at p 0 (take n (drop b.r b.buf)),
        record b { r = if b.r + n == b.size then 0 else b.r + n },
      )
  read_near n fits h near =
      let (ok_state, ok_left) = advanced b v n (omega (arith, len_wrapped b h)) in
      let cursor = wrap_cursor (b.r + n) b.size (omega (arith, v.r_in)) (omega (arith, v.r_in)) in
      record {
        count = refl;
        delivered =
            copy_at_front p (take n (drop b.r b.buf)) n
              (omega (arith, length-take n (drop b.r b.buf), length-drop b.r b.buf, v.whole)) fits
            ∙ ap (λ l. l ++ drop n p)
                (sym (append-nil (take n (drop b.r b.buf)))
                  ∙ ap (λ k. take n (drop b.r b.buf) ++ take k (take b.w b.buf)) {x = 0}
                      {y = n - length (drop b.r b.buf)}
                      (omega (arith, length-drop b.r b.buf, v.whole))
                  ∙ sym (take-append n (drop b.r b.buf) (take b.w b.buf))
                  ∙ ap (take n) (sym (contents_wrapped b h)));
        valid = subst (λ k. IsValid (record b { r = k })) cursor ok_state;
        left = subst (λ k. contents (record b { r = k }) ≡ drop n (contents b)) cursor ok_left;
      }

  read_far :
      (n : ℕ)
      → n ≤ len b
      → n ≤ length p
      → b.w < b.r
      → b.size - b.r < n
      → Delivered b p n (
        some n,
        copy_at
            (copy_at p 0 (take (b.size - b.r) (drop b.r b.buf)))
            (b.size - b.r)
            (take (n - (b.size - b.r)) b.buf),
        record b { r = n - (b.size - b.r) },
      )
  read_far n avail fits h far =
      let c1 = b.size - b.r in
      let whole_tail : take c1 (drop b.r b.buf) ≡ drop b.r b.buf =
        take_all (drop b.r b.buf) c1 (omega (arith, length-drop b.r b.buf, v.whole)) in
      record {
        count = refl;
        delivered =
            copy_at_two p (take c1 (drop b.r b.buf)) (take (n - c1) b.buf) c1 n
              (omega (arith, length-take c1 (drop b.r b.buf), length-drop b.r b.buf, v.whole))
              (omega (arith, length-take (n - c1) b.buf, v.whole, len_wrapped b h, v.w_in)) fits
            ∙ ap (λ l. l ++ drop n p)
                (ap₂ (λ x y. x ++ y)
                    (whole_tail
                      ∙ sym (
                          take_all (drop b.r b.buf) n
                            (omega (arith, length-drop b.r b.buf, v.whole))))
                    (sym (take-take (n - c1) b.w b.buf (omega (arith, len_wrapped b h)))
                      ∙ ap (λ k. take k (take b.w b.buf)) {x = n - c1}
                          {y = n - length (drop b.r b.buf)}
                          (omega (arith, length-drop b.r b.buf, v.whole)))
                  ∙ sym (take-append n (drop b.r b.buf) (take b.w b.buf))
                  ∙ ap (take n) (sym (contents_wrapped b h)));
        valid = record {
          whole = v.whole;
          r_in = omega (arith, len_wrapped b h, v.r_in, v.w_in);
          w_in = v.w_in;
        };
        left = advanced_round b v n h (omega arith) avail;
      }

  -- While something is readable, `Read` answers the smaller of what is readable and the room in
  -- `p`, fills the front of `p` with that many of the oldest readable bytes, takes them off, and
  -- keeps the invariant.
  pub read_lem : len b ≢ 0 → Delivered b p (min (len b) (length p)) (read b p)
  read_lem some_left =
      let n = min (len b) (length p) in
      let c1 = b.size - b.r in
      let apart : b.r ≢ b.w = λ e. some_left (omega (arith, len_plain b (omega (arith, e)))) in
      let asked = smaller (len b) (length p) in
      elim (dec_lt b.r b.w) [
        | yes plain ↦
            (let is : read b p
                  ≡ (some n, copy_at p 0 (take n (drop b.r b.buf)), record b { r = b.r + n }) =
                unfold read in rw (asked, ==_ne b.r b.w apart, lt→ltb b.r b.w plain) refl in
              rw is (read_plain n (omega arith) (omega arith) plain))
        | no not_plain ↦
            (let h = wrapped_of b v some_left not_plain in
              elim (dec_le n c1) [
                | yes near ↦
                    (let is : read b p ≡ (
                      some n,
                      copy_at p 0 (take n (drop b.r b.buf)),
                      record b { r = if b.r + n == b.size then 0 else b.r + n },
                    ) =
                        unfold read in
                        rw
                          (
                            asked,
                            ==_ne b.r b.w apart,
                            le→ltb-false b.r b.w (omega arith),
                            le→leb n c1 near,
                          )
                          refl in
                      rw is (read_near n (omega arith) h near))
                | no far ↦
                    (let is : read b p ≡ (
                      some n,
                      copy_at (copy_at p 0 (take c1 (drop b.r b.buf))) c1 (take (n - c1) b.buf),
                      record b { r = n - c1 },
                    ) =
                        unfold read in
                        rw
                          (
                            asked,
                            ==_ne b.r b.w apart,
                            le→ltb-false b.r b.w (omega arith),
                            lt→leb-false n c1 (omega arith),
                          )
                          refl in
                      rw is (read_far n (omega arith) (omega arith) h (omega arith)))
              ])
      ]
