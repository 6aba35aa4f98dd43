-- ===== src/Reactor/RingBuffer/Write.antt =====
-- `Write` and the direct socket read: they append to what is readable.
use vortexkv.Prelude.{
  ℕ, suc, ◌+◌, ◌-◌, ◌%◌, ◌≤◌, ◌<◌, ◌≡◌, refl, sym, ap, ap₂, ◌∙◌, [], ◌∷◌, ◌++◌, Bytes, length, take,
  drop, ltb, leb, ◌==◌, ==_refl, ==_ne, if◌then◌else◌, arith, Bool-cases, inl, inr, length-take,
  length-drop, leb→le, take-append-drop,
}
use native.Mathlib.Nat.{mod-eq_of_lt, mod_self, mod-lt}
use mathlib.Core.List.{append-nil, append_assoc}
use native.Mathlib.Decide.{dec_lt, ℕ_discrete}
use vortexkv.Prelude.Int.{pos}
use vortexkv.Reactor.Copy.{
  copy_at, length-copy_at, copy_at-nil, take-copy_at, take-copy_at_front, drop-copy_at, take_all,
}
use vortexkv.Reactor.RingBuffer.{
  RingBuffer, len, free, grow, grown_cap, write_into, write, write_slice, socket_read,
  advance_write,
}
use vortexkv.Reactor.RingBuffer.View.{
  IsValid, contents, contents_plain, contents_wrapped, len_plain, len_wrapped, window,
  contents-grow, grow-IsValid,
}

-- The three ways that `Write` places its bytes: in one piece behind the readable bytes, round the
-- end of the array, in one piece before them.
module _ (b : RingBuffer) (p : Bytes) (v : IsValid b) where
  one_piece :
      b.r ≤ b.w
      → length p ≤ b.size - b.w
      → (w' : ℕ) → w' ≡ (if b.w + length p == b.size then 0 else b.w + length p)
      → length p ≤ free b
      → contents (record b { buf = copy_at b.buf b.w p; w = w' }) ≡ contents b ++ p
  one_piece h fits w' e room = elim (ℕ_discrete (b.w + length p) b.size) [
    | yes full ↦
        (let at_zero : w' ≡ 0 = e ∙ rw (full, ==_refl b.size) refl in
          contents_wrapped (record b { buf = copy_at b.buf b.w p; w = w' })
            (unfold free in omega (arith, at_zero, len_plain b h, v.r_in))
          ∙ rw (at_zero, append-nil)
              (sym (
                  take_all (drop b.r (copy_at b.buf b.w p)) (b.w + length p - b.r) (
                    omega (
                      arith,
                      length-drop b.r (copy_at b.buf b.w p),
                      length-copy_at b.buf b.w p,
                      v.whole,
                    )))
                ∙ window b v h p (omega arith)
                ∙ ap (λ l. l ++ p) (sym (contents_plain b h))))
    | no part ↦
        (let at_end : w' ≡ b.w + length p = e ∙ rw (==_ne _ _ part) refl in
          contents_plain (record b { buf = copy_at b.buf b.w p; w = w' }) (omega (arith, at_end))
          ∙ rw at_end (
              window b v h p (omega (arith, v.w_in)) ∙ ap (λ l. l ++ p) (sym (contents_plain b h))))
  ]

  -- The bytes up to the end of the array, and those that go to its front.
  abbrev up_to_end : Bytes
  up_to_end = take (b.size - b.w) p

  abbrev to_front : Bytes
  to_front = take (length p - (b.size - b.w)) (drop (b.size - b.w) p)

  halves : up_to_end ++ to_front ≡ p
  halves =
      ap (λ l. up_to_end ++ l)
        (take_all (drop (b.size - b.w) p) (length p - (b.size - b.w))
          (omega (arith, length-drop (b.size - b.w) p)))
      ∙ take-append-drop (b.size - b.w) p

  length-up_to_end : b.size - b.w < length p → length up_to_end ≡ b.size - b.w
  length-up_to_end over = omega (arith, length-take (b.size - b.w) p)

  length-to_front : length to_front ≡ length p - (b.size - b.w)
  length-to_front = omega (
    arith,
    length-take (length p - (b.size - b.w)) (drop (b.size - b.w) p),
    length-drop (b.size - b.w) p,
  )

  tail_window :
      b.r ≤ b.w
      → b.size - b.w < length p
      → drop b.r (copy_at b.buf b.w up_to_end) ≡ contents b ++ up_to_end
  tail_window h over =
      sym (
        take_all _ (b.w + length up_to_end - b.r) (
          omega (
            arith,
            length-drop b.r (copy_at b.buf b.w up_to_end),
            length-copy_at b.buf b.w up_to_end,
            v.whole,
            length-up_to_end over,
          )))
      ∙ window b v h up_to_end (omega (arith, length-up_to_end over, v.w_in))
      ∙ ap (λ l. l ++ up_to_end) (sym (contents_plain b h))

  round_end :
      b.r ≤ b.w
      → b.size - b.w < length p
      → length p ≤ free b
      → contents (record b {
        buf = copy_at (copy_at b.buf b.w up_to_end) 0 to_front;
        w = length p - (b.size - b.w);
      })
        ≡ contents b ++ p
  round_end h over room =
      let short : length p - (b.size - b.w) < b.r =
        unfold free in omega (arith, len_plain b h, v.w_in) in
      contents_wrapped
        (record b {
          buf = copy_at (copy_at b.buf b.w up_to_end) 0 to_front;
          w = length p - (b.size - b.w);
        })
        short
      ∙ ap₂ (λ x y. x ++ y)
          (drop-copy_at (copy_at b.buf b.w up_to_end) 0 to_front b.r
              (omega (arith, length-to_front, short))
            ∙ tail_window h over)
          (take-copy_at_front (copy_at b.buf b.w up_to_end) to_front _ length-to_front
            (omega (arith, length-copy_at b.buf b.w up_to_end, v.whole, v.r_in, short)))
      ∙ append_assoc (contents b) up_to_end to_front
      ∙ ap (λ l. contents b ++ l) halves

  before :
      b.w < b.r
      → length p ≤ free b
      → contents (record b { buf = copy_at b.buf b.w p; w = b.w + length p }) ≡ contents b ++ p
  before h room =
      contents_wrapped (record b { buf = copy_at b.buf b.w p; w = b.w + length p })
        (unfold free in omega (arith, len_wrapped b h, v.r_in))
      ∙ ap₂ (λ x y. x ++ y)
          (drop-copy_at b.buf b.w p b.r (unfold free in omega (arith, len_wrapped b h, v.r_in)))
          (take-copy_at b.buf b.w p
            (unfold free in omega (arith, len_wrapped b h, v.r_in, v.whole)))
      ∙ sym (append_assoc (drop b.r b.buf) (take b.w b.buf) p)
      ∙ ap (λ l. l ++ p) (sym (contents_wrapped b h))

  plain_IsValid : (w' : ℕ) → w' < b.size → IsValid (record b { buf = copy_at b.buf b.w p; w = w' })
  plain_IsValid w' h = record {
    whole = length-copy_at b.buf b.w p ∙ v.whole;
    r_in = v.r_in;
    w_in = h;
  }

  -- With room for `p`, `Write` keeps the invariant and appends `p` to what is readable.
  write_into_lem :
      length p ≤ free b → IsValid (write_into b p) × (contents (write_into b p) ≡ contents b ++ p)
  write_into_lem room = elim (Bool-cases (leb b.r b.w)) [
    | inl plain ↦ elim (Bool-cases (leb (length p) (b.size - b.w))) [
      | inl fits ↦
          (let placed : write_into b p ≡ record b {
            buf = copy_at b.buf b.w p;
            w = if b.w + length p == b.size then 0 else b.w + length p;
          } =
              unfold write_into in rw (plain, fits) refl in
            rw placed (
              plain_IsValid _ (ground (arith, v.w_in, v.r_in)),
              one_piece (leb→le _ _ plain) (leb→le _ _ fits) _ refl room,
            ))
      | inr over ↦
          (let placed : write_into b p ≡ record b {
            buf = copy_at (copy_at b.buf b.w up_to_end) 0 to_front;
            w = length p - (b.size - b.w);
          } =
              unfold write_into in rw (plain, over) refl in
            rw placed (
              record {
                whole =
                    length-copy_at (copy_at b.buf b.w up_to_end) 0 to_front
                    ∙ length-copy_at b.buf b.w up_to_end
                    ∙ v.whole;
                r_in = v.r_in;
                w_in = unfold free in ground (arith, len_plain b, v.w_in);
              },
              round_end (leb→le _ _ plain) (ground arith) room,
            ))
    ]
    | inr wrapped ↦
        (let placed : write_into b p ≡ record b { buf = copy_at b.buf b.w p; w = b.w + length p } =
            unfold write_into in rw wrapped refl in
          rw placed (
            plain_IsValid _ (unfold free in ground (arith, len_wrapped b, v.r_in)),
            before (ground arith) room,
          ))
  ]

grow_room : (b : RingBuffer) (n : ℕ) → IsValid b → n ≤ free (grow b (len b + n + 1))
unfolding grow free grown_cap len
grow_room b n v = ground arith

-- `Write` never refuses: it answers the number of bytes given, keeps the invariant, and appends
-- them all, in order, to what is readable, growing the array where they do not fit.
pub write_lem :
    (b : RingBuffer) (p : Bytes)
    → IsValid b
    → ((write b p).0 ≡ length p)
      × IsValid (write b p).1
      × (contents (write b p).1 ≡ contents b ++ p)
write_lem b [] v = unfold write in (refl, v, sym (append-nil (contents b)))
write_lem b (x ∷ xs) v =
    let n = suc (length xs) in
    let m = len b + n + 1 in
    elim (Bool-cases (ltb (free b) n)) [
      | inl short ↦
          (let grown : write b (x ∷ xs) ≡ (n, write_into (grow b m) (x ∷ xs)) =
              unfold write in rw (==_ne n 0 (omega arith), short) refl in
            let step =
              write_into_lem (grow b m) (x ∷ xs) (grow-IsValid b m v (omega arith))
                (grow_room b n v) in
            rw grown
              (refl, step.0, step.1 ∙ ap (λ l. l ++ x ∷ xs) (contents-grow b m v (omega arith))))
      | inr fits ↦
          (let kept : write b (x ∷ xs) ≡ (n, write_into b (x ∷ xs)) =
              unfold write in rw (==_ne n 0 (omega arith), fits) refl in
            let step = write_into_lem b (x ∷ xs) v (ground arith) in rw kept (refl, step.0, step.1))
    ]

pub wrap_cursor : (a n : ℕ) → a ≤ n → 0 < n → a % n ≡ (if a == n then 0 else a)
wrap_cursor a n h k = elim (ℕ_discrete a n) [
  | yes e ↦ rw (e, ==_refl n) (mod_self n)
  | no ne ↦ rw (==_ne a n ne) (mod-eq_of_lt (omega arith))
]

module _ (b : RingBuffer) (x : ℕ) (xs : Bytes) (v : IsValid b) where
  moved :
      advance_write (socket_read b (x ∷ xs)) (pos (suc (length xs)))
      ≡ record b { buf = copy_at b.buf b.w (x ∷ xs); w = (b.w + suc (length xs)) % b.size }
  unfolding advance_write socket_read
  moved = refl

  socket_plain :
      b.r ≤ b.w
      → suc (length xs) ≤ b.size - b.w
      → suc (length xs) ≤ free b
      → IsValid (advance_write (socket_read b (x ∷ xs)) (pos (suc (length xs))))
        × (contents (advance_write (socket_read b (x ∷ xs)) (pos (suc (length xs))))
            ≡ contents b ++ x ∷ xs)
  socket_plain h fits room =
      let e =
        wrap_cursor (b.w + suc (length xs)) b.size (omega (arith, v.w_in))
          (omega (arith, v.w_in)) in
      rw moved (
        plain_IsValid b (x ∷ xs) v _ (mod-lt _ (omega (arith, v.w_in))),
        one_piece b (x ∷ xs) v h fits _ e room,
      )

  socket_before :
      b.w < b.r
      → suc (length xs) ≤ b.r - 1 - b.w
      → IsValid (advance_write (socket_read b (x ∷ xs)) (pos (suc (length xs))))
        × (contents (advance_write (socket_read b (x ∷ xs)) (pos (suc (length xs))))
            ≡ contents b ++ x ∷ xs)
  socket_before h fits =
      rw (moved, mod-eq_of_lt {n = b.w + suc (length xs)} {m = b.size} (omega (arith, v.r_in)))
        (
          plain_IsValid b (x ∷ xs) v _ (omega (arith, v.r_in)),
          before b (x ∷ xs) v h (unfold free in omega (arith, len_wrapped b h, v.r_in)),
        )

-- What the socket reads into the slice that `WriteSlice` gives, followed by `AdvanceWrite` of as
-- many bytes, is appended to what is readable, and the invariant is kept.
pub socket_read_lem :
    (b : RingBuffer) (p : Bytes)
    → IsValid b
    → length p ≤ (write_slice b).1 - (write_slice b).0
    → IsValid (advance_write (socket_read b p) (pos (length p)))
      × (contents (advance_write (socket_read b p) (pos (length p))) ≡ contents b ++ p)
unfolding write_slice
socket_read_lem b [] v h =
    let still : advance_write (socket_read b []) (pos 0) ≡ b =
      unfold advance_write socket_read in ap (λ l. record b { buf = l }) (copy_at-nil b.buf b.w) in
    rw still (v, sym (append-nil (contents b)))
socket_read_lem b (x ∷ xs) v h = elim (dec_lt b.w b.r) [
  | yes wrapped ↦ socket_before b x xs v wrapped (ground arith)
  | no plain ↦
      socket_plain b x xs v (omega arith) (ground arith)
        (unfold free in ground (arith, len_plain b, v.w_in))
]
