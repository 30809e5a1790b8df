-- ===== src/Prelude/Slices.antt =====
-- `skip(n)` and `take(n)` of a list.
use Prim.Native.Nat.{ℕ, zero, suc, ◌+◌, ◌≤◌}
use mathlib.Core.Path.{◌≡◌, refl, ap, ◌∙◌}
use mathlib.Core.Bool.{true}
use mathlib.Core.List.{List, [], ◌∷◌, ◌++◌}
use native.Mathlib.Omega.{arith}
use niu_ma_notifier.Prelude.Lists.{All, length, take}
use niu_ma_notifier.Prelude.Order.{Comparator, not_greater}
use niu_ma_notifier.Prelude.Sort.{IsSorted}

module _ {ℓ} {A : Type ℓ} where
  -- `skip(n)`.
  abbrev pub skip : ℕ → List A → List A
  skip zero xs = xs
  skip (suc n) [] = []
  skip (suc n) (x ∷ xs) = skip n xs

  pub take-add : (n k : ℕ) (xs : List A) → take (n + k) xs ≡ take n xs ++ take k (skip n xs)
  take-add zero k xs = let e : zero + k ≡ k = omega arith in ap (λ m. take m xs) e
  take-add (suc n) zero [] =
      let e : suc n + zero ≡ suc (n + zero) = omega arith in ap (λ m. take m []) e
  take-add (suc n) (suc k) [] =
      let e : suc n + suc k ≡ suc (suc n + k) = omega arith in ap (λ m. take m []) e
  take-add (suc n) k (x ∷ xs) =
      let e : suc n + k ≡ suc (n + k) = omega arith in
      ap (λ m. take m (x ∷ xs)) e ∙ ap (λ ys. x ∷ ys) (take-add n k xs)

  pub take_all : (n : ℕ) (xs : List A) → length xs ≤ n → take n xs ≡ xs
  take_all zero [] h = refl
  take_all (suc n) [] h = refl
  take_all zero (x ∷ xs) h = absurd (omega arith)
  take_all (suc n) (x ∷ xs) h = ap (λ ys. x ∷ ys) (take_all n xs (omega arith))

  pub skip_all : (n : ℕ) (xs : List A) → length xs ≤ n → skip n xs ≡ []
  skip_all zero [] h = refl
  skip_all (suc n) [] h = refl
  skip_all zero (x ∷ xs) h = absurd (omega arith)
  skip_all (suc n) (x ∷ xs) h = skip_all n xs (omega arith)

  pub All-skip : (P : A → Type 0) (n : ℕ) (xs : List A) → All P xs → All P (skip n xs)
  All-skip P zero xs h = h
  All-skip P (suc n) [] h = h
  All-skip P (suc n) (x ∷ xs) h = All-skip P n xs h.1

  pub All-take : (P : A → Type 0) (n : ℕ) (xs : List A) → All P xs → All P (take n xs)
  All-take P zero xs h = tt
  All-take P (suc n) [] h = h
  All-take P (suc n) (x ∷ xs) h = (h.0, All-take P n xs h.1)

  -- Of a sorted list nothing before a cut is greater than what comes after it.
  pub take-before-skip :
      (cmp : Comparator A) (n : ℕ) (xs : List A)
      → IsSorted cmp xs
      → All (λ x. All (λ y. not_greater (cmp x y) ≡ true) (skip n xs)) (take n xs)
  take-before-skip cmp zero xs h = tt
  take-before-skip cmp (suc n) [] h = tt
  take-before-skip cmp (suc n) (x ∷ xs) h = (All-skip _ n xs h.0, take-before-skip cmp n xs h.1)

  pub take-IsSorted :
      (cmp : Comparator A) (n : ℕ) (xs : List A) → IsSorted cmp xs → IsSorted cmp (take n xs)
  take-IsSorted cmp zero xs h = tt
  take-IsSorted cmp (suc n) [] h = h
  take-IsSorted cmp (suc n) (x ∷ xs) h = (All-take _ n xs h.0, take-IsSorted cmp n xs h.1)
