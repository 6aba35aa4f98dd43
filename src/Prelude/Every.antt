-- ===== src/Prelude/Every.antt =====
-- Predicates of all members and of all ordered pairs of a list, and selection by a test.
use mathlib.Core.Path.{◌≡◌, refl, ap, subst, sym, ◌∙◌}
use mathlib.Core.Bool.{Bool, false}
use mathlib.Core.Logic.{inl, inr}
use mathlib.Core.List.{List, [], ◌∷◌, ◌++◌, append-nil, reverse, reverse-cons}
use Prim.Native.Nat.{ℕ, zero, suc}
use vortexkv.Prelude.Tests.{if◌then◌else◌, Bool-cases}
use vortexkv.Prelude.Lists.{drop}

abbrev pub All {ℓ κ} : {A : Type ℓ} → (A → Type κ) → List A → Type κ
All P [] = Unit
All P (x ∷ xs) = P x × All P xs

-- R holds of each member and each later one.
abbrev pub Pairwise {ℓ κ} : {A : Type ℓ} → (A → A → Type κ) → List A → Type κ
Pairwise R [] = Unit
Pairwise R (x ∷ xs) = All (R x) xs × Pairwise R xs

unfoldable pub keep {ℓ} : {A : Type ℓ} → (A → Bool) → List A → List A
keep p [] = []
keep p (x ∷ xs) = let rest = keep p xs in if p x then x ∷ rest else rest

module _ {ℓ κ} {A : Type ℓ} (P : A → Type κ) where
  pub All-append : (xs ys : List A) → All P xs → All P ys → All P (xs ++ ys)
  All-append [] ys h k = k
  All-append (x ∷ xs) ys h k = (h.0, All-append xs ys h.1 k)

  pub All-keep : (p : A → Bool) (xs : List A) → All P xs → All P (keep p xs)
  unfolding keep
  All-keep p [] h = h
  All-keep p (x ∷ xs) h = elim (Bool-cases (p x)) [
    | inl e ↦ rw e (h.0, All-keep p xs h.1)
    | inr e ↦ rw e (All-keep p xs h.1)
  ]

  pub All-drop : (n : ℕ) (xs : List A) → All P xs → All P (drop n xs)
  All-drop zero xs h = h
  All-drop (suc n) [] h = h
  All-drop (suc n) (x ∷ xs) h = All-drop n xs h.1

  pub All-reverse : (xs : List A) → All P xs → All P (reverse xs)
  All-reverse [] h = h
  All-reverse (x ∷ xs) h =
      subst (All P) (sym (reverse-cons x xs))
        (All-append (reverse xs) (x ∷ []) (All-reverse xs h.1) (h.0, tt))

pub All-map {ℓ κ μ} :
    {A : Type ℓ} (P : A → Type κ) (Q : A → Type μ)
    → ((a : A) → P a → Q a)
    → (xs : List A) → All P xs
    → All Q xs
All-map P Q f [] h = tt
All-map P Q f (x ∷ xs) h = (f x h.0, All-map P Q f xs h.1)

module _ {ℓ κ} {A : Type ℓ} (R : A → A → Type κ) where
  pub Pairwise-snoc :
      (xs : List A) (y : A) → Pairwise R xs → All (λ x. R x y) xs → Pairwise R (xs ++ (y ∷ []))
  Pairwise-snoc [] y h k = (tt, tt)
  Pairwise-snoc (x ∷ xs) y h k =
      (All-append (R x) xs (y ∷ []) h.0 (k.0, tt), Pairwise-snoc xs y h.1 k.1)

  pub Pairwise-keep : (p : A → Bool) (xs : List A) → Pairwise R xs → Pairwise R (keep p xs)
  unfolding keep
  Pairwise-keep p [] h = h
  Pairwise-keep p (x ∷ xs) h = elim (Bool-cases (p x)) [
    | inl e ↦ rw e (All-keep (R x) p xs h.0, Pairwise-keep p xs h.1)
    | inr e ↦ rw e (Pairwise-keep p xs h.1)
  ]

  pub Pairwise-drop : (n : ℕ) (xs : List A) → Pairwise R xs → Pairwise R (drop n xs)
  Pairwise-drop zero xs h = h
  Pairwise-drop (suc n) [] h = h
  Pairwise-drop (suc n) (x ∷ xs) h = Pairwise-drop n xs h.1

pub Pairwise-reverse {ℓ κ} :
    {A : Type ℓ} (R : A → A → Type κ) (xs : List A)
    → Pairwise R xs
    → Pairwise (λ a b. R b a) (reverse xs)
Pairwise-reverse R [] h = tt
Pairwise-reverse R (x ∷ xs) h = subst (Pairwise (λ a b. R b a)) (sym (reverse-cons x xs)) (
    Pairwise-snoc (λ a b. R b a) (reverse xs) x (Pairwise-reverse R xs h.1)
      (All-reverse (R x) xs h.0))

module _ {ℓ} {A : Type ℓ} (p : A → Bool) where
  pub keep-append : (xs ys : List A) → keep p (xs ++ ys) ≡ keep p xs ++ keep p ys
  unfolding keep
  keep-append [] ys = refl
  keep-append (x ∷ xs) ys = elim (Bool-cases (p x)) [
    | inl e ↦ rw e (ap (λ r. x ∷ r) (keep-append xs ys))
    | inr e ↦ rw e (keep-append xs ys)
  ]

  pub keep-reverse : (xs : List A) → keep p (reverse xs) ≡ reverse (keep p xs)
  unfolding keep
  keep-reverse [] = refl
  keep-reverse (x ∷ xs) =
      ap (keep p) (reverse-cons x xs)
      ∙ keep-append (reverse xs) (x ∷ [])
      ∙ ap (λ r. r ++ keep p (x ∷ [])) (keep-reverse xs)
      ∙ last
    where
      last : reverse (keep p xs) ++ keep p (x ∷ []) ≡ reverse (keep p (x ∷ xs))
      last = elim (Bool-cases (p x)) [
        | inl e ↦ rw e (sym (reverse-cons x (keep p xs)))
        | inr e ↦ rw e (append-nil (reverse (keep p xs)))
      ]

  pub keep-nil : (xs : List A) → All (λ x. p x ≡ false) xs → keep p xs ≡ []
  unfolding keep
  keep-nil [] h = refl
  keep-nil (x ∷ xs) h = rw h.0 (keep-nil xs h.1)
