-- ===== src/Reactor/Copy.antt =====
-- Go's `copy` into a slice, and what is read back at each side of it.
use vortexkv.Prelude.{
  ℕ, zero, suc, ◌+◌, ◌-◌, ◌≤◌, ◌≡◌, refl, ap, ap₂, take-append-drop, ◌∙◌, List, [], ◌∷◌, ◌++◌,
  length, take, drop, length-drop, drop-nil, take-nil, sym, arith,
}

module _ {ℓ} {A : Type ℓ} where
  -- `copy(dst[i:], src)`: stops at the end of either.
  unfoldable pub copy_at : List A → ℕ → List A → List A
  copy_at [] i src = []
  copy_at (x ∷ dst) zero [] = x ∷ dst
  copy_at (x ∷ dst) zero (y ∷ src) = y ∷ copy_at dst zero src
  copy_at (x ∷ dst) (suc i) src = x ∷ copy_at dst i src

  pub length-copy_at :
      (dst : List A) (i : ℕ) (src : List A) → length (copy_at dst i src) ≡ length dst
  unfolding copy_at
  length-copy_at [] i src = refl
  length-copy_at (x ∷ dst) zero [] = refl
  length-copy_at (x ∷ dst) zero (y ∷ src) = ap suc (length-copy_at dst zero src)
  length-copy_at (x ∷ dst) (suc i) src = ap suc (length-copy_at dst i src)

  pub copy_at-nil : (dst : List A) (i : ℕ) → copy_at dst i [] ≡ dst
  unfolding copy_at
  copy_at-nil [] i = refl
  copy_at-nil (x ∷ dst) zero = refl
  copy_at-nil (x ∷ dst) (suc i) = ap (λ l. x ∷ l) (copy_at-nil dst i)

  -- Up to the end of what was copied.
  pub take-copy_at :
      (dst : List A) (i : ℕ) (src : List A)
      → i + length src ≤ length dst
      → take (i + length src) (copy_at dst i src) ≡ take i dst ++ src
  unfolding copy_at
  take-copy_at [] zero [] h = refl
  take-copy_at [] zero (y ∷ src) h = absurd (omega arith)
  take-copy_at [] (suc i) src h = absurd (omega arith)
  take-copy_at (x ∷ dst) zero [] h = refl
  take-copy_at (x ∷ dst) zero (y ∷ src) h =
      ap (λ n. take n (y ∷ copy_at dst zero src)) {x = 0 + suc (length src)}
        {y = suc (0 + length src)} (omega arith)
      ∙ ap (λ l. y ∷ l) (take-copy_at dst zero src (omega arith))
  take-copy_at (x ∷ dst) (suc i) src h =
      ap (λ n. take n (x ∷ copy_at dst i src)) {x = suc i + length src} {y = suc (i + length src)}
        (omega arith)
      ∙ ap (λ l. x ∷ l) (take-copy_at dst i src (omega arith))

  -- Behind what was copied nothing has changed.
  pub drop-copy_at :
      (dst : List A) (i : ℕ) (src : List A) (j : ℕ)
      → i + length src ≤ j
      → drop j (copy_at dst i src) ≡ drop j dst
  unfolding copy_at
  drop-copy_at [] i src j h = refl
  drop-copy_at (x ∷ dst) zero [] j h = refl
  drop-copy_at (x ∷ dst) zero (y ∷ src) zero h = absurd (omega arith)
  drop-copy_at (x ∷ dst) zero (y ∷ src) (suc j) h = drop-copy_at dst zero src j (omega arith)
  drop-copy_at (x ∷ dst) (suc i) src zero h = absurd (omega arith)
  drop-copy_at (x ∷ dst) (suc i) src (suc j) h = drop-copy_at dst i src j (omega arith)

  -- A copy behind position j, seen from there.
  pub drop-copy_at_before :
      (dst : List A) (j k : ℕ) (src : List A)
      → drop j (copy_at dst (j + k) src) ≡ copy_at (drop j dst) k src
  unfolding copy_at
  drop-copy_at_before dst zero k src = ap (λ n. copy_at dst n src) (omega arith)
  drop-copy_at_before [] (suc j) k src = refl
  drop-copy_at_before (x ∷ dst) (suc j) k src =
      ap (λ n. drop (suc j) (copy_at (x ∷ dst) n src)) {x = suc j + k} {y = suc (j + k)}
        (omega arith)
      ∙ drop-copy_at_before dst j k src

  pub take_all : (xs : List A) (n : ℕ) → length xs ≤ n → take n xs ≡ xs
  take_all [] zero h = refl
  take_all [] (suc n) h = refl
  take_all (x ∷ xs) zero h = absurd (omega arith)
  take_all (x ∷ xs) (suc n) h = ap (λ l. x ∷ l) (take_all xs n (omega arith))

  pub drop_all : (xs : List A) (n : ℕ) → length xs ≤ n → drop n xs ≡ []
  drop_all [] zero h = refl
  drop_all [] (suc n) h = refl
  drop_all (x ∷ xs) zero h = absurd (omega arith)
  drop_all (x ∷ xs) (suc n) h = drop_all xs n (omega arith)

  -- A window of a list, extended by a copy right behind it.
  pub window-copy_at :
      (buf : List A) (r k : ℕ) (src : List A)
      → r + k + length src ≤ length buf
      → take (k + length src) (drop r (copy_at buf (r + k) src)) ≡ take k (drop r buf) ++ src
  window-copy_at buf r k src h =
      ap (take (k + length src)) (drop-copy_at_before buf r k src)
      ∙ take-copy_at (drop r buf) k src (omega (arith, length-drop r buf))

  pub take-append :
      (n : ℕ) (xs ys : List A) → take n (xs ++ ys) ≡ take n xs ++ take (n - length xs) ys
  take-append n [] ys = ap (λ k. take k ys) {x = n} {y = n - 0} (omega arith) ∙ nil_left n
    where
      nil_left : (n : ℕ) → take (n - 0) ys ≡ take n [] ++ take (n - 0) ys
      nil_left zero = refl
      nil_left (suc n) = refl
  take-append zero (x ∷ xs) ys = ap (λ k. take k ys) {x = 0} {y = 0 - suc (length xs)} (omega arith)
  take-append (suc n) (x ∷ xs) ys =
      ap (λ l. x ∷ l) (take-append n xs ys ∙ ap (λ k. take n xs ++ take k ys) (omega arith))

  pub drop-append :
      (n : ℕ) (xs ys : List A) → drop n (xs ++ ys) ≡ drop n xs ++ drop (n - length xs) ys
  drop-append n [] ys = ap (λ k. drop k ys) {x = n} {y = n - 0} (omega arith) ∙ nil_left n
    where
      nil_left : (n : ℕ) → drop (n - 0) ys ≡ drop n [] ++ drop (n - 0) ys
      nil_left zero = refl
      nil_left (suc n) = refl
  drop-append zero (x ∷ xs) ys =
      ap (λ k. x ∷ (xs ++ drop k ys)) {x = 0} {y = 0 - suc (length xs)} (omega arith)
  drop-append (suc n) (x ∷ xs) ys =
      drop-append n xs ys ∙ ap (λ k. drop n xs ++ drop k ys) (omega arith)

  pub drop-drop : (n m : ℕ) (xs : List A) → drop n (drop m xs) ≡ drop (m + n) xs
  drop-drop n zero xs = ap (λ k. drop k xs) (omega arith)
  drop-drop n (suc m) [] = drop-nil n ∙ sym (drop-nil (suc m + n))
  drop-drop n (suc m) (x ∷ xs) =
      drop-drop n m xs ∙ ap (λ k. drop k (x ∷ xs)) {x = suc (m + n)} {y = suc m + n} (omega arith)

  pub drop-take : (n m : ℕ) (xs : List A) → drop n (take m xs) ≡ take (m - n) (drop n xs)
  drop-take zero m xs = ap (λ k. take k xs) (omega arith)
  drop-take (suc n) zero xs =
      ap (λ k. take k (drop (suc n) xs)) {x = 0} {y = 0 - suc n} (omega arith)
  drop-take (suc n) (suc m) [] = sym (take-nil (suc m - suc n))
  drop-take (suc n) (suc m) (x ∷ xs) =
      drop-take n m xs ∙ ap (λ k. take k (drop n xs)) {x = m - n} {y = suc m - suc n} (omega arith)

  pub take-take : (n m : ℕ) (xs : List A) → n ≤ m → take n (take m xs) ≡ take n xs
  take-take zero m xs h = refl
  take-take (suc n) zero xs h = absurd (omega arith)
  take-take (suc n) (suc m) [] h = refl
  take-take (suc n) (suc m) (x ∷ xs) h = ap (λ l. x ∷ l) (take-take n m xs (omega arith))

  pub take-copy_at_front :
      (dst src : List A) (n : ℕ)
      → length src ≡ n
      → n ≤ length dst
      → take n (copy_at dst 0 src) ≡ src
  take-copy_at_front dst src n e h =
      ap (λ k. take k (copy_at dst 0 src)) {x = n} {y = 0 + length src} (omega arith)
      ∙ take-copy_at dst 0 src (omega arith)

  -- Two copies, one behind the other.
  pub take-copy_at_two :
      (dst src src' : List A) (k n : ℕ)
      → length src ≡ k
      → k + length src' ≡ n
      → n ≤ length dst
      → take n (copy_at (copy_at dst 0 src) k src') ≡ src ++ src'
  take-copy_at_two dst src src' k n e f h =
      ap (λ i. take i (copy_at (copy_at dst 0 src) k src')) (sym f)
      ∙ take-copy_at (copy_at dst 0 src) k src' (omega (arith, length-copy_at dst 0 src))
      ∙ ap (λ l. l ++ src') (take-copy_at_front dst src k e (omega arith))

  pub nil_of_length : (xs : List A) → length xs ≡ 0 → xs ≡ []
  nil_of_length [] h = refl
  nil_of_length (x ∷ xs) h = absurd (omega arith)

  pub copy_at_front :
      (dst src : List A) (n : ℕ)
      → length src ≡ n
      → n ≤ length dst
      → copy_at dst 0 src ≡ src ++ drop n dst
  copy_at_front dst src n e h =
      sym (take-append-drop n (copy_at dst 0 src))
      ∙ ap₂ (λ x y. x ++ y) (take-copy_at_front dst src n e h)
          (drop-copy_at dst 0 src n (omega arith))

  pub copy_at_two :
      (dst src src' : List A) (k n : ℕ)
      → length src ≡ k
      → k + length src' ≡ n
      → n ≤ length dst
      → copy_at (copy_at dst 0 src) k src' ≡ (src ++ src') ++ drop n dst
  copy_at_two dst src src' k n e f h =
      sym (take-append-drop n (copy_at (copy_at dst 0 src) k src'))
      ∙ ap₂ (λ x y. x ++ y) (take-copy_at_two dst src src' k n e f h)
          (drop-copy_at (copy_at dst 0 src) k src' n (omega arith)
            ∙ drop-copy_at dst 0 src n (omega arith))
